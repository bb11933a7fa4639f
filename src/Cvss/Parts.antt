-- ===== src/Cvss/Parts.antt =====
-- cvss2/vector.go and cvss3/vector.go: writing and reading the parts `metric:code` of a vector. The
-- code is the same in both packages; `M` is the type of the metrics.
use nvdtools.Prelude.{
  ℕ, not, Option, none, some, List, [], ◌∷◌, ◌++◌, Bytes, if◌then◌else◌, text_eq, split, ite,
}
use nvdtools.Cvss.Metric.{MetricType, defined, to_string, parse}

-- The errors of `VectorFromString`, and a panic.
pub data VectorError : Type 0 where
  missing_prefix bad_version not_two_values undefined_metric illegal_code panic : VectorError

pub data Result {ℓ} (A : Type ℓ) : Type ℓ where
  ok : A → Result A
  err : VectorError → Result A

infixl 5 ◌>>=◌
abbrev pub ◌>>=◌ {ℓ κ} : {A : Type ℓ} {B : Type κ} → Result A → (A → Result B) → Result B
ok a >>= f = f a
err e >>= f = err e

abbrev pub cons_text : Option Bytes → Option (List Bytes) → Option (List Bytes)
cons_text (some p) (some ps) = some (p ∷ ps)
cons_text (some p) none = none
cons_text none ps = none

abbrev pub metric_part : Bytes → Option Bytes → Option Bytes
metric_part name (some s) = some (name ++ b':' ∷ s)
metric_part name none = none

-- Writing one field of the structs of metrics.
abbrev pub update : {M : Type 0} → Discrete M → (M → ℕ) → M → ℕ → M → ℕ
update same values m v k = ite (same m k) v (values k)

module _ {M : Type 0} (same : Discrete M) (name : M → Bytes) (kind : M → MetricType) where
  -- The loop of `String` over `order`: the parts of the metrics that are defined.
  unfoldable pub write_parts : List M → (M → ℕ) → Option (List Bytes)
  unfolding defined to_string
  write_parts [] values = some []
  write_parts (m ∷ ms) values =
      let rest = write_parts ms values in
      if not (defined (values m))
      then rest
      else cons_text (metric_part (name m) (to_string (kind m) (values m))) rest

  -- The lookup in the map `parseables`.
  unfoldable pub find_metric : List M → Bytes → Option M
  find_metric [] s = none
  find_metric (m ∷ ms) s = if text_eq (name m) s then some m else find_metric ms s

  abbrev pub set_value : (M → ℕ) → M → Option ℕ → Result (M → ℕ)
  set_value values m none = err illegal_code
  set_value values m (some v) = ok (update same values m v)

  abbrev pub parse_value : (M → ℕ) → Option M → Bytes → Result (M → ℕ)
  parse_value values none value = err undefined_metric
  parse_value values (some m) value = set_value values m (parse (kind m) value)

  abbrev pub parse_pair : List M → (M → ℕ) → List Bytes → Result (M → ℕ)
  parse_pair all values (metric ∷ value ∷ []) = parse_value values (find_metric all metric) value
  parse_pair all values _ = err not_two_values

  -- The loop of `VectorFromString` over the parts.
  unfoldable pub read_parts : List M → List Bytes → (M → ℕ) → Result (M → ℕ)
  unfolding find_metric split text_eq parse
  read_parts all [] values = ok values
  read_parts all (part ∷ parts) values =
      parse_pair all values (split b':' part) >>= read_parts all parts

  -- `Absorb`, the metrics being visited in the order of `ms`: Go's order over a map is not fixed. An
  -- error of `parse` is dropped.
  abbrev pub absorb_one : (M → ℕ) → M → Option ℕ → (M → ℕ)
  absorb_one values m none = values
  absorb_one values m (some v) = update same values m v

  abbrev pub reparse : M → Option Bytes → Option ℕ
  reparse m none = none
  reparse m (some s) = parse (kind m) s

  unfoldable pub absorb : List M → (M → ℕ) → (M → ℕ) → (M → ℕ)
  unfolding defined to_string parse
  absorb [] other values = values
  absorb (m ∷ ms) other values = absorb ms other (
      if defined (other m)
      then absorb_one values m (reparse m (to_string (kind m) (other m)))
      else values)
