-- ===== src/Cpedict/Search.antt =====
-- cpedict/lookup.go: `Search` and `resolveDeprecation`.
--
-- An item is what the search reads of it: its name, whether it is deprecated, and the names of the
-- pointer `CPE23.Deprecation`, `none` for nil. A comparison with an error is of relations that are not
-- all set, which is neither equal nor a subset or a superset.
use nvdtools.Prelude.{
  Bool, true, false, not, Option, none, some, List, [], ◌∷◌, ◌++◌, if◌then◌else◌,
}
use nvdtools.Wfn.Attributes.{Attributes}
use nvdtools.Wfn.Relation.{Comparison, is_equal, is_subset, is_superset}
use nvdtools.Wfn.Matching.{Result, ok, wildcard_error, compare}

pub record Item : Type 0 where
  pub name : Attributes
  pub deprecated : Bool
  pub deprecated_by : Option (List Attributes)

pub data MatchType : Type 0 where
  no_match subset exact superset : MatchType

-- A test on a comparison whose error is ignored.
abbrev pub passes : (Comparison → Bool) → Result Comparison → Bool
passes test (ok c) = test c
passes test wildcard_error = false

unfoldable pub equals : Attributes → Attributes → Bool
unfolding compare is_equal
equals src tgt = passes is_equal (compare src tgt)

unfoldable pub within : Attributes → Attributes → Bool
unfolding compare is_subset
within src tgt = passes is_subset (compare src tgt)

unfoldable pub covers : Attributes → Attributes → Bool
unfolding compare is_superset
covers src tgt = passes is_superset (compare src tgt)

-- The item once for each of the names that equals it.
unfoldable pub replacements_of : Item → List Attributes → List Item
unfolding equals
replacements_of i [] = []
replacements_of i (name ∷ names) =
    let rest = replacements_of i names in if equals name i.name then i ∷ rest else rest

abbrev pub replacements : List Item → List Attributes → List Item
replacements [] names = []
replacements (i ∷ items) names = replacements_of i names ++ replacements items names

abbrev pub resolve : List Item → Item → Option (List Attributes) → List Item
resolve dict item none = item ∷ []
resolve dict item (some names) = if not item.deprecated then item ∷ [] else replacements dict names

unfoldable pub resolve_deprecation : List Item → Item → List Item
resolve_deprecation dict item = resolve dict item item.deprecated_by

-- The loop over the items, which gathers both lists.
unfoldable pub gather : List Item → Attributes → List Item → List Item × List Item
unfolding resolve_deprecation within covers
gather dict needle [] = ([], [])
gather dict needle (item ∷ items) =
    let rest = gather dict needle items in
    let names = resolve_deprecation dict item in
    if covers needle item.name
    then (names ++ rest.0, rest.1)
    else if within needle item.name
    then (rest.0, names ++ rest.1)
    else rest

abbrev pub choose : List Item × List Item → List Item × MatchType
choose (x ∷ xs, subsets) = (x ∷ xs, superset)
choose ([], x ∷ xs) = (x ∷ xs, subset)
choose ([], []) = ([], no_match)

unfoldable pub first_equal : Attributes → List Item → List Item × MatchType
unfolding equals
first_equal needle [] = ([], no_match)
first_equal needle (item ∷ items) =
    let rest = first_equal needle items in
    if equals needle item.name then (item ∷ [], exact) else rest

-- `Search`
unfoldable pub search_dict : List Item → Attributes → Bool → List Item × MatchType
unfolding first_equal gather
search_dict dict needle true = first_equal needle dict
search_dict dict needle false = choose (gather dict needle dict)
