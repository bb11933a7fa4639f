-- ===== src/Cvss/Valid.antt =====
-- `VectorFromString` of cvss2/vector.go and cvss3/vector.go sets values of the metrics' types only, so
-- that no later method indexes past a table.
use nvdtools.Prelude.{
  ℕ, suc, ◌<◌, ◌≡◌, inl, inr, refl, Bool, true, false, Option, none, some, List, [], ◌∷◌, Bytes,
  find_index, length, text_eq, Bool-cases, if◌then◌else◌, next_index, split, arith, get_elem?,
}
use nvdtools.Cvss.Metric.{
  MetricType, table, modified, extended, parse, size, defined, to_string, not_defined,
}
use nvdtools.Cvss.Parts.{
  Result, ok, err, ◌>>=◌, update, read_parts, find_metric, parse_pair, parse_value, set_value,
}
use nvdtools.Cvss.RoundTrip.{update_self, update_other}

find_index-lt : (s : Bytes) (ts : List Bytes) (i : ℕ) → find_index s ts ≡ some i → i < length ts
unfolding find_index
find_index-lt s [] i h = cc
find_index-lt s (t ∷ ts) i h = go (find_index s ts) (find_index-lt s ts) (text_eq t s) h
  where
    go :
        (o : Option ℕ)
        → ((j : ℕ) → o ≡ some j → j < length ts)
        → (b : Bool) → (if b then some 0 else next_index o) ≡ some i
        → i < suc (length ts)
    go o ih true e = ground arith
    go none ih false e = cc
    go (some j) ih false e = let k = ih j refl in ground arith

parse-lt : (t : MetricType) (s : Bytes) (v : ℕ) → 0 < size t → parse t s ≡ some v → v < size t
unfolding parse
parse-lt (table names weights changed) s v z h = find_index-lt s names v h
parse-lt (modified t) s v z h = elim (Bool-cases (text_eq s not_defined)) [
  | inl e ↦ ground arith
  | inr e ↦ parse-lt t s v z (rw e at h)
]
parse-lt (extended t) s v z h = parse-lt t s v z h

-- The code of each value exists.
pub to_string-some : (t : MetricType) (v : ℕ) → v < size t → (s : Bytes) × (to_string t v ≡ some s)
unfolding to_string
to_string-some (table names weights changed) v h = go names v h
  where
    go : (ts : List Bytes) (i : ℕ) → i < length ts → (s : Bytes) × (get_elem? ts i ≡ some s)
    go [] i k = absurd (omega arith)
    go (t ∷ ts) ℕ.zero k = (t, refl)
    go (t ∷ ts) (suc i) k = go ts i (omega arith)
to_string-some (modified t) v h = elim (Bool-cases (defined v)) [
  | inl d ↦ rw d (to_string-some t v h)
  | inr d ↦ rw d (not_defined, refl)
]
to_string-some (extended t) v h = to_string-some t v h

module _ {M : Type 0} (same : Discrete M) (name : M → Bytes) (kind : M → MetricType)
    (inhabited : (m : M) → 0 < size (kind m)) where
  abbrev pub InRange : (M → ℕ) → Type 0
  InRange values = (m : M) → values m < size (kind m)

  -- A result that, if there is one, is in range.
  abbrev pub Kept : Result (M → ℕ) → Type 0
  Kept (ok values) = InRange values
  Kept (err e) = Unit

  update-InRange :
      (values : M → ℕ) (m : M) (v : ℕ)
      → InRange values
      → v < size (kind m)
      → InRange (update same values m v)
  update-InRange values m v h k n = elim (same m n) [
    | yes e ↦ rw (update_self same values m v n v e refl) (rw e at k)
    | no d ↦ rw (update_other same values m v n (values n) d refl) (h n)
  ]

  set_value-Kept :
      (values : M → ℕ) (m : M) (o : Option ℕ)
      → InRange values
      → ((v : ℕ) → o ≡ some v → v < size (kind m))
      → Kept (set_value same name kind values m o)
  set_value-Kept values m none h k = tt
  set_value-Kept values m (some v) h k = update-InRange values m v h (k v refl)

  parse_value-Kept :
      (values : M → ℕ) (o : Option M) (s : Bytes)
      → InRange values
      → Kept (parse_value same name kind values o s)
  parse_value-Kept values none s h = tt
  parse_value-Kept values (some m) s h =
      set_value-Kept values m (parse (kind m) s) h (λ v e. parse-lt (kind m) s v (inhabited m) e)

  parse_pair-Kept :
      (all : List M) (values : M → ℕ) (pair : List Bytes)
      → InRange values
      → Kept (parse_pair same name kind all values pair)
  parse_pair-Kept all values [] h = tt
  parse_pair-Kept all values (a ∷ []) h = tt
  parse_pair-Kept all values (a ∷ b ∷ []) h =
      parse_value-Kept values (find_metric same name kind all a) b h
  parse_pair-Kept all values (a ∷ b ∷ c ∷ r) h = tt

  Kept-bind :
      (r : Result (M → ℕ)) (f : (M → ℕ) → Result (M → ℕ))
      → Kept r
      → ((values : M → ℕ) → InRange values → Kept (f values))
      → Kept (r >>= f)
  Kept-bind (ok values) f h k = k values h
  Kept-bind (err e) f h k = tt

  pub read_parts-Kept :
      (all : List M) (parts : List Bytes) (values : M → ℕ)
      → InRange values
      → Kept (read_parts same name kind all parts values)
  unfolding read_parts
  read_parts-Kept all [] values h = h
  read_parts-Kept all (part ∷ parts) values h =
      Kept-bind (parse_pair same name kind all values (split b':' part)) _
        (parse_pair-Kept all values (split b':' part) h) (λ w k. read_parts-Kept all parts w k)
