-- ===== src/Wfn/Relation.antt =====
-- wfn/matching.go: the relations of attribute values, and the comparison of names.
use nvdtools.Prelude.{Bool, true, false, ◌&&◌, ◌||◌, if◌then◌else◌}

pub data Relation : Type 0 where
  disjoint subset equal superset : Relation

pub record Comparison : Type 0 where
  pub part : Relation
  pub vendor : Relation
  pub product : Relation
  pub version : Relation
  pub update : Relation
  pub edition : Relation
  pub language : Relation
  pub sw_edition : Relation
  pub target_sw : Relation
  pub target_hw : Relation
  pub other : Relation

-- `r == Disjoint`, `r == Equal`, and the two tests of `IsSubset` and `IsSuperset`
abbrev pub is_disjoint_attr : Relation → Bool
is_disjoint_attr disjoint = true
is_disjoint_attr _ = false

abbrev pub is_equal_attr : Relation → Bool
is_equal_attr equal = true
is_equal_attr _ = false

abbrev pub is_subset_attr : Relation → Bool
is_subset_attr equal = true
is_subset_attr subset = true
is_subset_attr _ = false

abbrev pub is_superset_attr : Relation → Bool
is_superset_attr equal = true
is_superset_attr superset = true
is_superset_attr _ = false

unfoldable pub is_disjoint : Comparison → Bool
is_disjoint c =
    is_disjoint_attr c.part
    || is_disjoint_attr c.vendor
    || is_disjoint_attr c.product
    || is_disjoint_attr c.version
    || is_disjoint_attr c.update
    || is_disjoint_attr c.edition
    || is_disjoint_attr c.language
    || is_disjoint_attr c.sw_edition
    || is_disjoint_attr c.target_sw
    || is_disjoint_attr c.target_hw
    || is_disjoint_attr c.other

-- All attributes pass the test.
abbrev pub all_attrs : (Relation → Bool) → Comparison → Bool
all_attrs test c =
    test c.part
    && test c.vendor
    && test c.product
    && test c.version
    && test c.update
    && test c.edition
    && test c.language
    && test c.sw_edition
    && test c.target_sw
    && test c.target_hw
    && test c.other

unfoldable pub is_equal : Comparison → Bool
is_equal = all_attrs is_equal_attr

unfoldable pub is_subset : Comparison → Bool
is_subset = all_attrs is_subset_attr

unfoldable pub is_superset : Comparison → Bool
is_superset = all_attrs is_superset_attr

-- `Comparison.Relation`, in the order of its tests
unfoldable pub relation : Comparison → Relation
relation c =
    if is_subset c
    then subset
    else if is_equal c
    then equal
    else if is_superset c
    then superset
    else disjoint
