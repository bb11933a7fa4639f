-- ===== src/Nvd/MatchNode.antt =====
-- cvefeed/nvd/match_node.go, cvefeed/nvd/match_cve.go: the matchers of the nodes of an entry.
use nvdtools.Prelude.{
  Bool, Option, none, some, List, [], ◌∷◌, Bytes, codes, if◌then◌else◌, text_eq, to_upper,
}
use nvdtools.Wfn.Attributes.{Attributes}
use nvdtools.Wfn.Matcher.{Matcher, leaf, Matchers, nil, cons, match_all, match_any, dont_match}
use nvdtools.Nvd.MatchCpe.{CpeMatch, FeedMatch, parsed_matcher}

mutual
  -- A node: its matches, its children, its operator, and whether it is negated. A pointer that is nil
  -- is `none`, or `nil_node` among nodes.
  pub data Node : Type 0 where
    node : List (Option FeedMatch) → Nodes → Bytes → Bool → Node

  pub data Nodes : Type 0 where
    no_nodes : Nodes
    nil_node : Nodes → Nodes
    one_node : Node → Nodes → Nodes

-- `ms = append(ms, m)` in front of what follows, unless there was an error.
abbrev pub append_ok : Option (Matcher CpeMatch) → Matchers CpeMatch → Matchers CpeMatch
append_ok none ms = ms
append_ok (some m) ms = cons m ms

abbrev pub as_leaf : Option CpeMatch → Option (Matcher CpeMatch)
as_leaf none = none
as_leaf (some cm) = some (leaf cm)

abbrev pub is_and : Bytes → Bool
is_and operator = text_eq (to_upper operator) (codes "AND")

-- The matcher of a node from those of its parts. An operator that is not known counts as OR.
abbrev pub combine : Bytes → Bool → Matchers CpeMatch → Option (Matcher CpeMatch)
combine operator negate nil = none
combine operator negate (cons m ms) =
    let r = if is_and operator then match_all (cons m ms) else match_any (cons m ms) in
    some (if negate then dont_match r else r)

module _ (parse : Bytes → Option Attributes) where
  -- The loop over the matches of a node, before `rest`.
  unfoldable pub cpe_matchers : List (Option FeedMatch) → Matchers CpeMatch → Matchers CpeMatch
  cpe_matchers [] rest = rest
  cpe_matchers (none ∷ fs) rest = cpe_matchers fs rest
  cpe_matchers (some f ∷ fs) rest =
      append_ok (as_leaf (parsed_matcher parse f)) (cpe_matchers fs rest)

  unfoldable mutual
    unfolding cpe_matchers text_eq to_upper

    pub node_matcher : Node → Option (Matcher CpeMatch)
    node_matcher (node matches children operator negate) =
        combine operator negate (cpe_matchers matches (node_matchers children))

    -- The loop over nodes, of `nodeMatcher` and of `ToVuln`.
    pub node_matchers : Nodes → Matchers CpeMatch
    node_matchers no_nodes = nil
    node_matchers (nil_node ns) = node_matchers ns
    node_matchers (one_node n ns) = append_ok (node_matcher n) (node_matchers ns)

  -- `ToVuln`: the matcher of an entry.
  abbrev pub to_vuln : Nodes → Matcher CpeMatch
  to_vuln ns = match_any (node_matchers ns)
