-- ===== src/Feed/Override.antt =====
-- cvefeed/vuln.go, cvefeed/dictionary.go: entries that are overridden by those of another dictionary.
use mathlib.Core.Option
use nvdtools.Prelude.{
  ℕ, Bool, not, ◌&&◌, Option, none, some, List, [], ◌∷◌, Bytes, if◌then◌else◌, text_eq, text_eq_iff,
  ◌≡◌, refl, arith, subst, Bool-cases, inl, inr,
}
use nvdtools.Wfn.Matcher.{Matcher, contains, select, run}
use nvdtools.Wfn.Picks.{contains-select}

-- An entry with its own matcher, or one made by `OverrideVuln`.
pub data Vuln (L : Type 0) : Type 0 where
  original : Matcher L → Vuln L
  overriden : Vuln L → Vuln L → Vuln L

module _ {L : Type 0} (accepts : L → ℕ → Bool) where
  -- `Match`. The `andMatcher` of an overridden entry hands what the entry matched to `DontMatch` of the
  -- other one.
  unfoldable pub match_vuln : Vuln L → List ℕ → List ℕ
  unfolding run contains select
  match_vuln (original m) attrs = run accepts attrs m
  match_vuln (overriden v other) attrs =
      let matched = match_vuln v attrs in
      let excluded = match_vuln other matched in select (λ a. not (contains a excluded)) matched

  -- What an entry of a dictionary matches; a missing one matches nothing.
  abbrev pub found : Option (Vuln L) → List ℕ → List ℕ
  found none attrs = []
  found (some v) attrs = match_vuln v attrs

-- A dictionary: a Go map from ids to entries.
abbrev pub Dictionary : Type 0 → Type 0
Dictionary L = Bytes → Option (Vuln L)

abbrev pub amend : {L : Type 0} → Dictionary L → Bytes → Vuln L → Dictionary L
amend d k cve key = if text_eq k key then Option.map (λ v. overriden v cve) (d key) else d key

-- `Override`, with the entries of the other dictionary in the order in which Go visits them.
unfoldable pub override : {L : Type 0} → Dictionary L → List (Bytes × Vuln L) → Dictionary L
unfolding text_eq
override d [] = d
override d ((k, cve) ∷ d2) = override (amend d k cve) d2

abbrev pub lookup : {L : Type 0} → List (Bytes × Vuln L) → Bytes → Option (Vuln L)
lookup [] key = none
lookup ((k, cve) ∷ d2) key = if text_eq k key then some cve else lookup d2 key

-- No id occurs twice.
abbrev pub Distinct : {L : Type 0} → List (Bytes × Vuln L) → Type 0
Distinct [] = Unit
Distinct ((k, cve) ∷ d2) = (lookup d2 k ≡ none) × Distinct d2

abbrev overridden_by : {L : Type 0} → Option (Vuln L) → Option (Vuln L) → Option (Vuln L)
overridden_by none v = v
overridden_by (some cve) v = Option.map (λ u. overriden u cve) v

override-lookup :
    {L : Type 0} (d : Dictionary L) (d2 : List (Bytes × Vuln L)) (key : Bytes)
    → Distinct d2
    → override d d2 key ≡ overridden_by (lookup d2 key) (d key)
unfolding override
override-lookup d [] key h = refl
override-lookup d ((k, cve) ∷ d2) key (h, hs) = elim (Bool-cases (text_eq k key)) [
  | inl p ↦
      let q : lookup d2 key ≡ none = subst (λ x. lookup d2 x ≡ none) ((text_eq_iff k key).0 p) h in
      rw (override-lookup (amend d k cve) d2 key hs, q, p)
  | inr p ↦ rw (override-lookup (amend d k cve) d2 key hs, p)
]

module _ {L : Type 0} (accepts : L → ℕ → Bool) where
  found-overridden_by :
      (by v : Option (Vuln L)) (attrs : List ℕ) (a : ℕ)
      → contains a (found accepts (overridden_by by v) attrs)
        ≡ contains a (found accepts v attrs)
          && not (contains a (found accepts by (found accepts v attrs)))
  unfolding match_vuln contains
  found-overridden_by none none attrs a = ground arith
  found-overridden_by none (some v) attrs a = ground arith
  found-overridden_by (some w) none attrs a = ground arith
  found-overridden_by (some w) (some v) attrs a =
      contains-select (λ b. not (contains b (match_vuln accepts w (match_vuln accepts v attrs)))) a
        (match_vuln accepts v attrs)

  -- After `Override`, in whatever order Go visits the other dictionary, the entry of an id matches what
  -- it matched before, less what the other dictionary's entry of this id matches among these.
  pub override-found :
      (d : Dictionary L) (d2 : List (Bytes × Vuln L)) (key : Bytes) (attrs : List ℕ) (a : ℕ)
      → Distinct d2
      → contains a (found accepts (override d d2 key) attrs)
        ≡ contains a (found accepts (d key) attrs)
          && not (contains a (found accepts (lookup d2 key) (found accepts (d key) attrs)))
  override-found d d2 key attrs a h =
      rw (override-lookup d d2 key h) (found-overridden_by (lookup d2 key) (d key) attrs a)
