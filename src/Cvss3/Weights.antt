-- ===== src/Cvss3/Weights.antt =====
-- cvss3: which methods of a vector that was read give a weight, so that the scores do not index past
-- a table.
use nvdtools.Prelude.{
  ℕ, ◌≡◌, Bool, true, false, ◌&&◌, Option, none, some, Bytes, all_below, all_below_sound, arith,
}
use nvdtools.Cvss.Metric.{MetricType, weight, size}
use nvdtools.Cvss.Parts.{ok}
use nvdtools.Cvss3.Vector.{Metric, kind, Vector, vector_from_string}
use nvdtools.Cvss3.Checked.{vector_from_string-IsValid}

abbrev pub is_weight : Option ℕ → Bool
is_weight none = false
is_weight (some w) = true

-- A value has a weight for either scope.
abbrev pub weighed : MetricType → ℕ → Bool
weighed t v = is_weight (weight t false v) && is_weight (weight t true v)

-- The scopes have no weights; all other types of metrics have.
abbrev pub has_weights : Metric → Bool
has_weights Metric.scope = false
has_weights Metric.modified_scope = false
has_weights _ = true

pub weighed-kind :
    (m : Metric) → has_weights m ≡ true → all_below (size (kind m)) (weighed (kind m)) ≡ true
unfolding all_below weight
weighed-kind m h = ground arith

-- In a vector that the version 3 `VectorFromString` returns each metric but the two scopes has a weight, whatever
-- the scope.
pub vector_from_string-weighed :
    (s : Bytes) (v : Vector) (m : Metric)
    → vector_from_string s ≡ ok v
    → has_weights m ≡ true
    → weighed (kind m) (v.values m) ≡ true
vector_from_string-weighed s v m h k =
    all_below_sound (size (kind m)) (weighed (kind m)) (v.values m) (weighed-kind m k)
      (vector_from_string-IsValid s v h m)
