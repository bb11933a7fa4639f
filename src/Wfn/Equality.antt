-- ===== src/Wfn/Equality.antt =====
-- When `matchStr` answers `Equal`.
use nvdtools.Prelude.{Bool, false, [], ◌∷◌, Bytes, ◌≡◌, ◌≢◌, ◌↔◌, arith}
use nvdtools.Wfn.Relation.{Relation, equal, superset}
use nvdtools.Wfn.Wildcard.{has_wildcard, has_wildcard_iff, has_unescaped}
use nvdtools.Wfn.Strings.{try_suffixes, after_star, next_escape, match_from, match_str}

try_suffixes-ne-equal : (rest : Bytes → Relation) (t : Bytes) → try_suffixes rest t ≢ equal
unfolding try_suffixes
try_suffixes-ne-equal rest [] = cc
try_suffixes-ne-equal rest (d ∷ t) = ground (arith, try_suffixes-ne-equal rest t)

after_star-ne-equal :
    (s : Bytes) (rest : Bytes → Relation) (t : Bytes) → after_star s rest t ≢ equal
unfolding after_star
after_star-ne-equal [] rest t = cc
after_star-ne-equal (c ∷ s) rest t = try_suffixes-ne-equal rest t

match_from-ne-equal : (s t : Bytes) (e : Bool) → match_from s t e superset ≢ equal
unfolding match_from
match_from-ne-equal [] [] e = cc
match_from-ne-equal [] (d ∷ t) e = cc
match_from-ne-equal (c ∷ s) [] e = ground arith
match_from-ne-equal (c ∷ s) (d ∷ t) e = ground (
  arith,
  match_from-ne-equal s t (next_escape e c),
  after_star-ne-equal s (λ (u : Bytes). match_from s u false equal) (d ∷ t),
)

match_from-equal :
    (s t : Bytes) (e : Bool)
    → (match_from s t e equal ≡ equal) ↔ ((s ≡ t) × (has_unescaped e s ≡ false))
unfolding match_from has_unescaped
match_from-equal [] [] e = ground arith
match_from-equal [] (d ∷ t) e = ground arith
match_from-equal (c ∷ s) [] e = ground arith
match_from-equal (c ∷ s) (d ∷ t) e = ground (
  arith,
  match_from-equal s t (next_escape e c),
  match_from-ne-equal s t (next_escape e c),
  after_star-ne-equal s (λ (u : Bytes). match_from s u false equal) (d ∷ t),
)

-- `matchStr` answers `Equal` exactly for two equal texts without an unquoted wildcard.
pub match_str-equal : (s t : Bytes) → (match_str s t ≡ equal) ↔ ((s ≡ t) × (has_wildcard s ≡ false))
unfolding match_str
match_str-equal s t = rw (has_wildcard_iff s) (match_from-equal s t false)
