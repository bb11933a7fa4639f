-- ===== src/Nvd/Readable.antt =====
-- cvefeed/nvd/match_node.go: which nodes have a matcher.
use nvdtools.Prelude.{
  Bool, true, false, ◌||◌, Option, none, some, List, [], ◌∷◌, Bytes, arith, ◌≡◌, refl,
}
use nvdtools.Wfn.Attributes.{Attributes}
use nvdtools.Wfn.Matcher.{Matcher, Matchers, nil, cons}
use nvdtools.Nvd.MatchCpe.{CpeMatch, FeedMatch, parsed_matcher}
use nvdtools.Nvd.MatchNode.{
  Node, node, Nodes, no_nodes, nil_node, one_node, append_ok, as_leaf, combine, cpe_matchers,
  node_matcher, node_matchers,
}

-- Whether some match in the tree has a name that can be read.
abbrev pub is_read : Option CpeMatch → Bool
is_read none = false
is_read (some cm) = true

abbrev pub is_matcher : Option (Matcher CpeMatch) → Bool
is_matcher none = false
is_matcher (some m) = true

abbrev has_one : Matchers CpeMatch → Bool
has_one nil = false
has_one (cons m ms) = true

module _ (parse : Bytes → Option Attributes) where
  unfoldable pub some_read : List (Option FeedMatch) → Bool
  some_read [] = false
  some_read (none ∷ fs) = some_read fs
  some_read (some f ∷ fs) = is_read (parsed_matcher parse f) || some_read fs

  unfoldable mutual
    unfolding some_read

    pub readable : Node → Bool
    readable (node matches children operator negate) = some_read matches || one_readable children

    pub one_readable : Nodes → Bool
    one_readable no_nodes = false
    one_readable (nil_node ns) = one_readable ns
    one_readable (one_node n ns) = readable n || one_readable ns

  has_one-append_ok :
      (r : Option (Matcher CpeMatch)) (ms : Matchers CpeMatch)
      → has_one (append_ok r ms) ≡ is_matcher r || has_one ms
  has_one-append_ok none ms = refl
  has_one-append_ok (some m) ms = refl

  pub is_matcher-as_leaf : (r : Option CpeMatch) → is_matcher (as_leaf r) ≡ is_read r
  is_matcher-as_leaf none = refl
  is_matcher-as_leaf (some cm) = refl

  is_matcher-combine :
      (operator : Bytes) (negate : Bool) (ms : Matchers CpeMatch)
      → is_matcher (combine operator negate ms) ≡ has_one ms
  is_matcher-combine operator negate nil = refl
  is_matcher-combine operator negate (cons m ms) = refl

  has_one-cpe_matchers :
      (fs : List (Option FeedMatch)) (rest : Matchers CpeMatch)
      → has_one (cpe_matchers parse fs rest) ≡ some_read fs || has_one rest
  unfolding cpe_matchers some_read
  has_one-cpe_matchers [] rest = refl
  has_one-cpe_matchers (none ∷ fs) rest = has_one-cpe_matchers fs rest
  has_one-cpe_matchers (some f ∷ fs) rest =
      rw
        (
          has_one-append_ok (as_leaf (parsed_matcher parse f)) (cpe_matchers parse fs rest),
          is_matcher-as_leaf (parsed_matcher parse f),
          has_one-cpe_matchers fs rest,
        )
        (ground arith)

  mutual
    unfolding node_matcher node_matchers readable one_readable

    readable_lem : (n : Node) → is_matcher (node_matcher parse n) ≡ readable n
    readable_lem (node matches children operator negate) = rw (
      is_matcher-combine operator negate
          (cpe_matchers parse matches (node_matchers parse children)),
      has_one-cpe_matchers matches (node_matchers parse children),
      one_readable_lem children,
    )

    one_readable_lem : (ns : Nodes) → has_one (node_matchers parse ns) ≡ one_readable ns
    one_readable_lem no_nodes = refl
    one_readable_lem (nil_node ns) = one_readable_lem ns
    one_readable_lem (one_node n ns) = rw (
      has_one-append_ok (node_matcher parse n) (node_matchers parse ns),
      readable_lem n,
      one_readable_lem ns,
    )

  -- A node has a matcher, and is not an error, exactly if some match in its tree has a name that can
  -- be read.
  pub node_matcher-readable : (n : Node) → is_matcher (node_matcher parse n) ≡ readable n
  node_matcher-readable n = readable_lem n
