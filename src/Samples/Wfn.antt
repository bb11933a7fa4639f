-- ===== src/Samples/Wfn.antt =====
-- wfn at concrete inputs.
use nvdtools.Prelude.{
  ℕ, ◌≡◌, ◌≢◌, ◌↔◌, refl, Bool, true, false, not, ◌||◌, [], ◌∷◌, codes, text_eq, arith, ltb,
}
use nvdtools.Wfn.Attributes.{Attributes, any, new_attributes}
use nvdtools.Wfn.Relation.{equal, superset, Comparison, relation, is_disjoint}
use nvdtools.Wfn.Wildcard.{has_wildcard, has_unescaped, has_wildcard_iff}
use nvdtools.Wfn.Strings.{match_str}
use nvdtools.Wfn.Pattern.{Matches}
use nvdtools.Wfn.Decides.{found, match_str_iff}
use nvdtools.Wfn.Equality.{match_str-equal}
use nvdtools.Wfn.Matching.{ok, compare_attr, match_attr, compare, match}
use nvdtools.Wfn.Agreement.{related, match_attr-related, match-is_disjoint, relation-ne-equal}
use nvdtools.Wfn.Matcher.{Matcher, leaf, multi, negated, Matchers, nil, cons, contains, run, picks}
use nvdtools.Wfn.Picks.{run-picks}

quoted_star : has_wildcard (codes "a\\*") ≡ false
unfolding has_wildcard
quoted_star = refl

-- Two backslashes quote each other.
unquoted_star : has_wildcard (codes "a\\\\*") ≡ true
unfolding has_wildcard
unquoted_star = refl

-- Behind the end of the text a quoted asterisk is taken for an unquoted one.
quoted_star_at_the_end : match_str (codes "a\\*") (codes "a\\") ≡ superset
unfolding match_str
quoted_star_at_the_end = refl

-- A source that is ANY matches a target with wildcards.
any_against_wildcard : compare_attr any (codes "b*") ≡ ok superset
unfolding compare_attr text_eq has_wildcard
any_against_wildcard = refl

two_ways : has_wildcard (codes "a\\\\*") ≡ has_unescaped false (codes "a\\\\*")
two_ways = has_wildcard_iff (codes "a\\\\*")

match_str_iff_example :
    (found (match_str (codes "b*l?") (codes "bill2")) ≡ true)
    ↔ Matches false (codes "b*l?") (codes "bill2")
match_str_iff_example = match_str_iff (codes "b*l?") (codes "bill2") (omega arith)

same_texts :
    (match_str (codes "b\\*") (codes "b\\*") ≡ equal)
    ↔ ((codes "b\\*" ≡ codes "b\\*") × (has_wildcard (codes "b\\*") ≡ false))
same_texts = match_str-equal (codes "b\\*") (codes "b\\*")

same_attributes :
    match_attr (codes "b*") (codes "bill")
    ≡ text_eq (codes "b*") (codes "bill") || related (compare_attr (codes "b*") (codes "bill"))
same_attributes = match_attr-related (codes "b*") (codes "bill")

abbrev any_name : Attributes
any_name = new_attributes any

abbrev windows : Attributes
windows = record any_name { part = codes "o"; vendor = codes "micro*"; product = codes "windows" }

abbrev windows_10 : Attributes
windows_10 = record any_name {
  part = codes "o";
  vendor = codes "microsoft";
  product = codes "windows";
  version = codes "10";
}

abbrev windows_comparison : Comparison
windows_comparison = record {
  part = equal;
  vendor = superset;
  product = equal;
  version = superset;
  update = equal;
  edition = equal;
  language = equal;
  sw_edition = equal;
  target_sw = equal;
  target_hw = equal;
  other = equal;
}

windows_compared : compare windows windows_10 ≡ ok windows_comparison
unfolding compare compare_attr has_wildcard match_str text_eq
windows_compared = refl

match-is_disjoint_example : match windows windows_10 ≡ not (is_disjoint windows_comparison)
match-is_disjoint_example = match-is_disjoint windows windows_10 windows_comparison windows_compared

no_equality : relation windows_comparison ≢ equal
no_equality = relation-ne-equal windows_comparison

-- Leaves that accept the pointers below a bound.
abbrev accepts_below : ℕ → ℕ → Bool
accepts_below l a = ltb a l

abbrev all_but_first : Matcher ℕ
all_but_first = multi (cons (leaf 3) (cons (negated (leaf 1)) nil)) true

picked : run accepts_below (0 ∷ 1 ∷ 2 ∷ 3 ∷ []) (negated (leaf 2)) ≡ 2 ∷ 3 ∷ []
unfolding run contains nvdtools.Wfn.Matcher.select
picked = refl

run-picks_example :
    contains 2 (run accepts_below (0 ∷ 1 ∷ 2 ∷ 3 ∷ []) all_but_first)
    ≡ picks accepts_below (0 ∷ 1 ∷ 2 ∷ 3 ∷ []) all_but_first 2
run-picks_example = run-picks accepts_below (0 ∷ 1 ∷ 2 ∷ 3 ∷ []) all_but_first 2
