-- ===== src/Samples/Feed.antt =====
-- The index over a feed at a concrete input.
use nvdtools.Prelude.{
  not, ◌&&◌, ℕ, ◌≡◌, refl, true, inl, inr, Option, none, some, List, [], ◌∷◌, codes, ◌==◌,
  if◌then◌else◌,
}
use nvdtools.Wfn.Attributes.{Attributes, any, new_attributes}
use nvdtools.Wfn.Matcher.{contains}
use nvdtools.Feed.Index.{new_index, dict_from_index}
use nvdtools.Feed.Lookup.{dict_from_index-Reaches}
use nvdtools.Wfn.Matcher.{Matcher, leaf, multi, nil, cons, run}
use nvdtools.Feed.Override.{
  original, overriden, match_vuln, Dictionary, override, lookup, found, override-found,
}
use nvdtools.Feed.Origin.{dict_from_index-origin}

abbrev named : List ℕ → Attributes
named product = record (new_attributes any) { product = product }

-- Entry 1 lists one product, entry 2 all that start with an s.
abbrev listed : ℕ → List (Option Attributes)
listed i = if i == 1 then none ∷ some (named (codes "tar")) ∷ [] else some (named (codes "s*")) ∷ []

query_both :
    dict_from_index (new_index listed (1 ∷ 2 ∷ [])) (1 ∷ 2 ∷ []) (some (named (codes "tar")) ∷ [])
    ≡ 2 ∷ 1 ∷ []
unfolding dict_from_index nvdtools.Feed.Index.index_entries contains
query_both = refl

query_one :
    dict_from_index (new_index listed (1 ∷ 2 ∷ [])) (1 ∷ 2 ∷ []) (some (named (codes "sed")) ∷ [])
    ≡ 2 ∷ []
unfolding dict_from_index nvdtools.Feed.Index.index_entries contains
query_one = refl

dict_from_index-Reaches_example :
    contains 2 (
      dict_from_index
        (new_index listed (1 ∷ 2 ∷ []))
        (1 ∷ 2 ∷ [])
        (some (named (codes "sed")) ∷ []))
    ≡ true
unfolding nvdtools.Wfn.Wildcard.has_wildcard contains
dict_from_index-Reaches_example =
    dict_from_index-Reaches listed (1 ∷ 2 ∷ []) (some (named (codes "sed")) ∷ []) 2
      (named (codes "s*")) (named (codes "sed")) refl (inl refl) (inl refl) (inr (inl refl))

only_listed : contains 2 (1 ∷ 2 ∷ []) ≡ true
unfolding dict_from_index nvdtools.Feed.Index.index_entries contains
only_listed = dict_from_index-origin listed (1 ∷ 2 ∷ []) (some (named (codes "sed")) ∷ []) 2 refl

-- Matchers that accept one number.
abbrev both : Matcher ℕ
both = multi (cons (leaf 1) (cons (leaf 2) nil)) true

-- The other entry matches both names together, and yet overrides nothing: it is shown the first only.
part_of_both :
    (run (λ n a. n == a) (1 ∷ 2 ∷ []) both ≡ 2 ∷ 1 ∷ [])
    × (match_vuln (λ n a. n == a) (overriden (original (leaf 1)) (original both)) (1 ∷ 2 ∷ [])
        ≡ 1 ∷ [])
unfolding match_vuln nvdtools.Wfn.Matcher.insert_all
part_of_both = (refl, refl)

abbrev one_entry : Dictionary ℕ
one_entry key = some (original (leaf 1))

override-found_example :
    contains 1 (
      found
        (λ n a. n == a)
        (override one_entry ((codes "x", original (leaf 1)) ∷ []) (codes "x"))
        (1 ∷ []))
    ≡ contains 1 (found (λ n a. n == a) (one_entry (codes "x")) (1 ∷ []))
      && not (
          contains 1 (
            found
              (λ n a. n == a)
              (lookup ((codes "x", original (leaf 1)) ∷ []) (codes "x"))
              (found (λ n a. n == a) (one_entry (codes "x")) (1 ∷ []))))
override-found_example =
    override-found (λ n a. n == a) one_entry ((codes "x", original (leaf 1)) ∷ []) (codes "x")
      (1 ∷ []) 1 (refl, tt)
