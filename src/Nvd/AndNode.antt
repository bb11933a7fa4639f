-- ===== src/Nvd/AndNode.antt =====
-- cvefeed/nvd/match_node.go: nodes that ask for all of their parts.
use nvdtools.Prelude.{
  ℕ, Bool, true, false, not, ◌&&◌, Option, none, some, List, [], ◌∷◌, Bytes, arith, is_empty,
  if◌then◌else◌, ◌≡◌, refl, sym,
}
use nvdtools.Wfn.Attributes.{Attributes}
use nvdtools.Wfn.Matcher.{
  Matcher, Matchers, nil, cons, contains, select, picks, picks_one, each_picks, run,
}
use nvdtools.Wfn.Picks.{run-picks, same_items, contains-select}
use nvdtools.Nvd.MatchCpe.{CpeMatch, FeedMatch, parsed_matcher}
use nvdtools.Nvd.MatchNode.{
  node, Nodes, no_nodes, nil_node, one_node, append_ok, as_leaf, is_and, combine, cpe_matchers,
  node_matcher, node_matchers,
}
use nvdtools.Nvd.Nodes.{
  EachOnlyOr, below, match_accepts, accepts, picks_if, picks_if-as_leaf, picks_one-cpe_matchers,
  node_picks, nodes_pick,
}
use nvdtools.Nvd.Readable.{is_read, is_matcher, is_matcher-as_leaf, readable, node_matcher-readable}

module _ (parse : Bytes → Option Attributes) (at : ℕ → Attributes) (require_version : Bool)
    (attrs : List ℕ) where
  -- What a matcher returns, and nothing where there is none.
  abbrev pub returned : Option (Matcher CpeMatch) → List ℕ
  returned none = []
  returned (some m) = run (accepts parse at require_version) attrs m

  -- A part that can be read has to accept some of the attributes.
  abbrev pub satisfied : Bool → (ℕ → Bool) → Bool
  satisfied is_part test = if is_part then not (is_empty (select test attrs)) else true

  unfoldable pub each_match : List (Option FeedMatch) → Bool
  each_match [] = true
  each_match (none ∷ fs) = each_match fs
  each_match (some f ∷ fs) =
      let r = parsed_matcher parse f in
      satisfied (is_read r) (match_accepts parse at require_version r) && each_match fs

  unfoldable pub each_child : Nodes → Bool
  each_child no_nodes = true
  each_child (nil_node ns) = each_child ns
  each_child (one_node n ns) =
      satisfied (readable parse n) (below parse at require_version n) && each_child ns

  abbrev each : Matchers CpeMatch → Bool
  each = each_picks (accepts parse at require_version) attrs

  abbrev part_picks : Option (Matcher CpeMatch) → Bool
  part_picks none = true
  part_picks (some m) =
      not (is_empty (select (picks (accepts parse at require_version) attrs m) attrs))

  each-append_ok :
      (r : Option (Matcher CpeMatch)) (ms : Matchers CpeMatch)
      → each (append_ok r ms) ≡ part_picks r && each ms
  unfolding each_picks
  each-append_ok none ms = refl
  each-append_ok (some m) ms = refl

  part_picks-satisfied :
      (r : Option (Matcher CpeMatch)) (is_part : Bool) (test : ℕ → Bool)
      → is_matcher r ≡ is_part
      → ((a : ℕ) → picks_if parse at require_version attrs r a ≡ contains a attrs && test a)
      → part_picks r ≡ satisfied is_part test
  part_picks-satisfied none is_part test e h = rw (sym e)
  part_picks-satisfied (some m) is_part test e h =
      let k : is_empty (select (picks (accepts parse at require_version) attrs m) attrs)
          ≡ is_empty (select test attrs) =
        same_items _ _ λ a.
          rw
            (
              contains-select (picks (accepts parse at require_version) attrs m) a attrs,
              contains-select test a attrs,
              h a,
            )
            (ground arith) in
      rw (sym e, k)

  each-cpe_matchers :
      (fs : List (Option FeedMatch)) (rest : Matchers CpeMatch)
      → each (cpe_matchers parse fs rest) ≡ each_match fs && each rest
  unfolding cpe_matchers each_match
  each-cpe_matchers [] rest = refl
  each-cpe_matchers (none ∷ fs) rest = each-cpe_matchers fs rest
  each-cpe_matchers (some f ∷ fs) rest =
      let r = parsed_matcher parse f in
      rw
        (
          each-append_ok (as_leaf r) (cpe_matchers parse fs rest),
          part_picks-satisfied (as_leaf r) (is_read r) (match_accepts parse at require_version r)
              (is_matcher-as_leaf parse r) (picks_if-as_leaf parse at require_version attrs r),
          each-cpe_matchers fs rest,
        )
        (ground arith)

  each-node_matchers : (ns : Nodes) → EachOnlyOr ns → each (node_matchers parse ns) ≡ each_child ns
  unfolding node_matchers each_child each_picks
  each-node_matchers no_nodes h = refl
  each-node_matchers (nil_node ns) h = each-node_matchers ns h
  each-node_matchers (one_node n ns) (h, hs) = rw (
    each-append_ok (node_matcher parse n) (node_matchers parse ns),
    part_picks-satisfied (node_matcher parse n) (readable parse n)
        (below parse at require_version n) (node_matcher-readable parse n)
        (λ a. node_picks parse at require_version attrs n a h),
    each-node_matchers ns hs,
  )

  returned-combine :
      (operator : Bytes) (ms : Matchers CpeMatch) (a : ℕ)
      → is_and operator ≡ true
      → contains a (returned (combine operator false ms))
        ≡ picks_one (accepts parse at require_version) attrs ms a && each ms
  unfolding picks picks_one contains
  returned-combine operator nil a h = refl
  returned-combine operator (cons m ms) a h =
      rw (h, run-picks (accepts parse at require_version) attrs _ a)

  -- An AND node that is not negated, over matches and over children that are combined by OR alone,
  -- returns exactly the attributes that some match below it accepts, if each of its matches and
  -- children that can be read accepts some attributes, and nothing otherwise.
  pub returned-and_node :
      (matches : List (Option FeedMatch)) (children : Nodes) (operator : Bytes) (a : ℕ)
      → is_and operator ≡ true
      → EachOnlyOr children
      → contains a (returned (node_matcher parse (node matches children operator false)))
        ≡ contains a attrs
          && below parse at require_version (node matches children operator false) a
          && (each_match matches && each_child children)
  unfolding node_matcher below
  returned-and_node matches children operator a h e =
      let ms = node_matchers parse children in
      rw
        (
          returned-combine operator (cpe_matchers parse matches ms) a h,
          picks_one-cpe_matchers parse at require_version attrs matches ms a,
          nodes_pick parse at require_version attrs children a e,
          each-cpe_matchers matches ms,
          each-node_matchers children e,
        )
        (ground arith)
