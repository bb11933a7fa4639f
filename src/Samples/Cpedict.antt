-- ===== src/Samples/Cpedict.antt =====
-- The search of a dictionary at a concrete input.
use nvdtools.Prelude.{true, false, none, some, List, [], ◌∷◌, Bytes, codes, text_eq, ◌≡◌, refl}
use mathlib.Core.List.{Memᴰ}
use nvdtools.Wfn.Attributes.{Attributes, any, new_attributes}
use nvdtools.Cpedict.Search.{Item, superset, search_dict, replacements_of}
use nvdtools.Wfn.Matching.{compare_attr}
use nvdtools.Wfn.Wildcard.{has_wildcard}
use nvdtools.Wfn.Strings.{match_str}
use nvdtools.Cpedict.Results.{Answers, search_dict-Answers, search_dict-listed}

abbrev acrobat : Bytes → Attributes
acrobat version = record (new_attributes any) { product = codes "acrobat"; version = version }

abbrev eight : Item
eight = record { name = acrobat (codes "8\\.0"); deprecated = false; deprecated_by = none }

-- An older spelling, replaced by the other item.
abbrev old_eight : Item
old_eight = record {
  name = acrobat (codes "8\\.0\\.0");
  deprecated = true;
  deprecated_by = some (acrobat (codes "8\\.0") ∷ []);
}

abbrev dict : List Item
dict = old_eight ∷ eight ∷ []

any_version : search_dict dict (acrobat any) false ≡ (eight ∷ eight ∷ [], superset)
unfolding search_dict compare_attr text_eq has_wildcard replacements_of match_str
any_version = refl

search_dict-Answers_example : Answers dict (acrobat any) (eight ∷ eight ∷ [], superset)
unfolding search_dict compare_attr text_eq has_wildcard replacements_of match_str
search_dict-Answers_example = search_dict-Answers dict (acrobat any)

listed_in_dict : Memᴰ eight dict
unfolding search_dict compare_attr text_eq has_wildcard replacements_of match_str
listed_in_dict = search_dict-listed dict (acrobat any) false eight (Memᴰ.head refl)
