-- ===== src/Nvd/Nodes.antt =====
-- cvefeed/nvd: what the matcher of an entry picks, for entries that combine their matches by OR alone.
use nvdtools.Prelude.{
  ℕ, Bool, false, ◌&&◌, ◌||◌, Option, none, some, List, [], ◌∷◌, Bytes, arith, ◌≡◌, refl, ◌∙◌,
}
use nvdtools.Wfn.Attributes.{Attributes}
use nvdtools.Wfn.Matcher.{Matcher, Matchers, nil, cons, match_any, contains, run, picks, picks_one}
use nvdtools.Wfn.Picks.{run-picks}
use nvdtools.Nvd.MatchCpe.{CpeMatch, FeedMatch, parsed_matcher, match}
use nvdtools.Nvd.MatchNode.{
  Node, node, Nodes, no_nodes, nil_node, one_node, append_ok, as_leaf, is_and, combine,
  cpe_matchers, node_matcher, node_matchers, to_vuln,
}

-- No node is negated or asks for all of its parts, at any depth.
abbrev mutual
  pub OnlyOr : Node → Type 0
  OnlyOr (node matches children operator negate) =
      (is_and operator ≡ false) × (negate ≡ false) × EachOnlyOr children

  pub EachOnlyOr : Nodes → Type 0
  EachOnlyOr no_nodes = Unit
  EachOnlyOr (nil_node ns) = EachOnlyOr ns
  EachOnlyOr (one_node n ns) = OnlyOr n × EachOnlyOr ns

module _ (parse : Bytes → Option Attributes) (at : ℕ → Attributes) (require_version : Bool) where
  -- Whether the match of a feed has a name that can be read and accepts the attributes.
  abbrev pub match_accepts : Option CpeMatch → ℕ → Bool
  match_accepts none a = false
  match_accepts (some cm) a = match cm (at a) require_version

  unfoldable pub some_match : List (Option FeedMatch) → ℕ → Bool
  some_match [] a = false
  some_match (none ∷ fs) a = some_match fs a
  some_match (some f ∷ fs) a = match_accepts (parsed_matcher parse f) a || some_match fs a

  unfoldable mutual
    unfolding some_match

    -- Whether some match in the tree accepts the attributes.
    pub below : Node → ℕ → Bool
    below (node matches children operator negate) a = some_match matches a || below_one children a

    pub below_one : Nodes → ℕ → Bool
    below_one no_nodes a = false
    below_one (nil_node ns) a = below_one ns a
    below_one (one_node n ns) a = below n a || below_one ns a

  abbrev pub accepts : CpeMatch → ℕ → Bool
  accepts cm a = match cm (at a) require_version

  module _ (attrs : List ℕ) where
    abbrev pub picks_if : Option (Matcher CpeMatch) → ℕ → Bool
    picks_if none a = false
    picks_if (some m) a = picks accepts attrs m a

    pub picks_one-append_ok :
        (r : Option (Matcher CpeMatch)) (ms : Matchers CpeMatch) (a : ℕ)
        → picks_one accepts attrs (append_ok r ms) a ≡ picks_if r a || picks_one accepts attrs ms a
    unfolding picks_one
    picks_one-append_ok none ms a = refl
    picks_one-append_ok (some m) ms a = refl

    pub picks_if-as_leaf :
        (r : Option CpeMatch) (a : ℕ)
        → picks_if (as_leaf r) a ≡ contains a attrs && match_accepts r a
    unfolding picks
    picks_if-as_leaf none a = ground arith
    picks_if-as_leaf (some cm) a = refl

    picks_if-combine :
        (operator : Bytes) (ms : Matchers CpeMatch) (a : ℕ)
        → is_and operator ≡ false
        → picks_if (combine operator false ms) a ≡ picks_one accepts attrs ms a
    unfolding picks picks_one
    picks_if-combine operator nil a h = refl
    picks_if-combine operator (cons m ms) a h = rw h (ground arith)

    picks-match_any :
        (ms : Matchers CpeMatch) (a : ℕ)
        → picks accepts attrs (match_any ms) a ≡ picks_one accepts attrs ms a
    unfolding picks
    picks-match_any ms a = ground arith

    pub picks_one-cpe_matchers :
        (fs : List (Option FeedMatch)) (rest : Matchers CpeMatch) (a : ℕ)
        → picks_one accepts attrs (cpe_matchers parse fs rest) a
          ≡ contains a attrs && some_match fs a || picks_one accepts attrs rest a
    unfolding cpe_matchers some_match
    picks_one-cpe_matchers [] rest a = ground arith
    picks_one-cpe_matchers (none ∷ fs) rest a = picks_one-cpe_matchers fs rest a
    picks_one-cpe_matchers (some f ∷ fs) rest a =
        rw
          (
            picks_one-append_ok (as_leaf (parsed_matcher parse f)) (cpe_matchers parse fs rest) a,
            picks_if-as_leaf (parsed_matcher parse f) a,
            picks_one-cpe_matchers fs rest a,
          )
          (ground arith)

    mutual
      unfolding node_matcher node_matchers below below_one picks_one

      pub node_picks :
          (n : Node) (a : ℕ)
          → OnlyOr n
          → picks_if (node_matcher parse n) a ≡ contains a attrs && below n a
      node_picks (node matches children operator negate) a (h, k, e) =
          rw
            (
              k,
              picks_if-combine operator (cpe_matchers parse matches (node_matchers parse children))
                  a h,
              picks_one-cpe_matchers matches (node_matchers parse children) a,
              nodes_pick children a e,
            )
            (ground arith)

      pub nodes_pick :
          (ns : Nodes) (a : ℕ)
          → EachOnlyOr ns
          → picks_one accepts attrs (node_matchers parse ns) a ≡ contains a attrs && below_one ns a
      nodes_pick no_nodes a h = ground arith
      nodes_pick (nil_node ns) a h = nodes_pick ns a h
      nodes_pick (one_node n ns) a (h, k) =
          rw
            (
              picks_one-append_ok (node_matcher parse n) (node_matchers parse ns) a,
              node_picks n a h,
              nodes_pick ns a k,
            )
            (ground arith)

    -- An entry whose nodes are combined by OR alone, with no negation at any depth, picks exactly the
    -- attributes that some CPE match of its nodes accepts, where the name of the match can be read.
    pub run-to_vuln :
        (ns : Nodes) (a : ℕ)
        → EachOnlyOr ns
        → contains a (run accepts attrs (to_vuln parse ns)) ≡ contains a attrs && below_one ns a
    run-to_vuln ns a h =
        run-picks accepts attrs (to_vuln parse ns) a
        ∙ picks-match_any (node_matchers parse ns) a
        ∙ nodes_pick ns a h
