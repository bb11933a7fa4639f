-- ===== src/Wfn/Agreement.antt =====
-- wfn/matching.go: the fast `Match` against the detailed `Compare`, and the relation of two names.
use nvdtools.Prelude.{
  Bool, true, false, not, ◌&&◌, ◌||◌, Bytes, text_eq, ◌≡◌, ◌≢◌, refl, arith, [], ◌∷◌,
}
use nvdtools.Wfn.Attributes.{Attributes}
use nvdtools.Wfn.Relation.{
  Relation, equal, Comparison, is_disjoint_attr, is_equal_attr, is_subset_attr, all_attrs, is_equal,
  is_subset, is_disjoint, relation,
}
use nvdtools.Wfn.Wildcard.{has_wildcard}
use nvdtools.Wfn.Matching.{Result, ok, wildcard_error, compare_attr, match_attr, compare, match}

-- The detailed comparison found a relation other than `Disjoint`.
abbrev pub related : Result Relation → Bool
related (ok r) = not (is_disjoint_attr r)
related wildcard_error = false

-- The fast test of one attribute accepts exactly the pairs that are equal byte by byte or that the
-- detailed comparison relates without an error.
pub match_attr-related :
    (src tgt : Bytes) → match_attr src tgt ≡ text_eq src tgt || related (compare_attr src tgt)
unfolding match_attr compare_attr text_eq
match_attr-related [] [] = refl
match_attr-related (c ∷ s) [] = unfold has_wildcard in ground arith
match_attr-related [] (d ∷ t) = ground arith
match_attr-related (c ∷ s) (d ∷ t) = ground arith

compare_attr-match_attr :
    (src tgt : Bytes) (r : Relation)
    → compare_attr src tgt ≡ ok r
    → match_attr src tgt ≡ not (is_disjoint_attr r)
unfolding compare_attr
compare_attr-match_attr src tgt r h = ground (arith, match_attr-related src tgt)

-- The comparison holds the relation of each pair of attributes.
compare_fields :
    (src tgt : Attributes) (c : Comparison)
    → compare src tgt ≡ ok c
    → (compare_attr src.part tgt.part ≡ ok c.part)
      × (compare_attr src.vendor tgt.vendor ≡ ok c.vendor)
      × (compare_attr src.product tgt.product ≡ ok c.product)
      × (compare_attr src.version tgt.version ≡ ok c.version)
      × (compare_attr src.update tgt.update ≡ ok c.update)
      × (compare_attr src.edition tgt.edition ≡ ok c.edition)
      × (compare_attr src.language tgt.language ≡ ok c.language)
      × (compare_attr src.sw_edition tgt.sw_edition ≡ ok c.sw_edition)
      × (compare_attr src.target_sw tgt.target_sw ≡ ok c.target_sw)
      × (compare_attr src.target_hw tgt.target_hw ≡ ok c.target_hw)
      × (compare_attr src.other tgt.other ≡ ok c.other)
unfolding compare
compare_fields src tgt c h = ground arith

-- Of Boolean values: De Morgan's law, with one pair of neighbours the other way round.
none_of_eleven :
    (a b c d e f g h i j k : Bool)
    → (not a
        && not b
        && not c
        && not d
        && not e
        && not f
        && not g
        && not h
        && not i
        && not j
        && not k)
      ≡ not (a || b || c || d || e || f || g || h || j || i || k)
none_of_eleven true b c d e f g h i j k = refl
none_of_eleven false true c d e f g h i j k = refl
none_of_eleven false false true d e f g h i j k = refl
none_of_eleven false false false true e f g h i j k = refl
none_of_eleven false false false false e f g h i j k = ground arith

-- Where the detailed comparison of two names has no error, the fast `Match` accepts the names
-- exactly if no attribute came out as disjoint.
pub match-is_disjoint :
    (src tgt : Attributes) (c : Comparison)
    → compare src tgt ≡ ok c
    → match src tgt ≡ not (is_disjoint c)
unfolding match is_disjoint
match-is_disjoint src tgt c h =
    let e = compare_fields src tgt c h in
    rw
      (
        compare_attr-match_attr src.part tgt.part c.part e.0,
        compare_attr-match_attr src.vendor tgt.vendor c.vendor e.1,
        compare_attr-match_attr src.product tgt.product c.product e.2,
        compare_attr-match_attr src.version tgt.version c.version e.3,
        compare_attr-match_attr src.update tgt.update c.update e.4,
        compare_attr-match_attr src.edition tgt.edition c.edition e.5,
        compare_attr-match_attr src.language tgt.language c.language e.6,
        compare_attr-match_attr src.sw_edition tgt.sw_edition c.sw_edition e.7,
        compare_attr-match_attr src.target_sw tgt.target_sw c.target_sw e.8,
        compare_attr-match_attr src.target_hw tgt.target_hw c.target_hw e.9,
        compare_attr-match_attr src.other tgt.other c.other e.10,
      )
      (none_of_eleven (is_disjoint_attr c.part) (is_disjoint_attr c.vendor)
        (is_disjoint_attr c.product) (is_disjoint_attr c.version) (is_disjoint_attr c.update)
        (is_disjoint_attr c.edition) (is_disjoint_attr c.language) (is_disjoint_attr c.sw_edition)
        (is_disjoint_attr c.target_hw) (is_disjoint_attr c.target_sw) (is_disjoint_attr c.other))

and_mono :
    (a b a' b' : Bool)
    → (a ≡ true → a' ≡ true)
    → (b ≡ true → b' ≡ true)
    → a && b ≡ true
    → a' && b' ≡ true
and_mono a b a' b' h k = ground (arith)

equal-subset : (r : Relation) → is_equal_attr r ≡ true → is_subset_attr r ≡ true
equal-subset r h = ground arith

all_attrs_mono :
    (p q : Relation → Bool) (c : Comparison)
    → ((r : Relation) → p r ≡ true → q r ≡ true)
    → all_attrs p c ≡ true
    → all_attrs q c ≡ true
all_attrs_mono p q c h =
    and_mono _ (p c.other) _ (q c.other)
      (and_mono _ (p c.target_hw) _ (q c.target_hw)
        (and_mono _ (p c.target_sw) _ (q c.target_sw)
          (and_mono _ (p c.sw_edition) _ (q c.sw_edition)
            (and_mono _ (p c.language) _ (q c.language)
              (and_mono _ (p c.edition) _ (q c.edition)
                (and_mono _ (p c.update) _ (q c.update)
                  (and_mono _ (p c.version) _ (q c.version)
                    (and_mono _ (p c.product) _ (q c.product)
                      (and_mono _ (p c.vendor) _ (q c.vendor) (h c.part) (h c.vendor))
                      (h c.product))
                    (h c.version))
                  (h c.update))
                (h c.edition))
              (h c.language))
            (h c.sw_edition))
          (h c.target_sw))
        (h c.target_hw))
      (h c.other)

is_equal-is_subset : (c : Comparison) → is_equal c ≡ true → is_subset c ≡ true
unfolding is_equal is_subset
is_equal-is_subset c h = all_attrs_mono is_equal_attr is_subset_attr c equal-subset h

-- The relation of two names is never `Equal`: the test for a subset comes first, and it accepts all
-- that the test for equality accepts.
pub relation-ne-equal : (c : Comparison) → relation c ≢ equal
unfolding relation
relation-ne-equal c = ground (arith, is_equal-is_subset c)
