-- ===== src/Cvss3/Checked.antt =====
-- cvss3/vector.go: what `VectorFromString` returns, and `Absorb`.
use nvdtools.Prelude.{
  ℕ, ◌<◌, ◌≡◌, sym, ap, subst, ◌∙◌, Option, none, some, List, Bytes, if◌then◌else◌, split, fun_ext,
  arith, strip_prefix, to_upper, cut_first,
}
use nvdtools.Cvss.Metric.{size, defined}
use nvdtools.Cvss.Parts.{Result, ok, err, ◌>>=◌}
use nvdtools.Cvss.RoundTrip.{Among}
use nvdtools.Cvss.Absorb.{absorb_lem}
use nvdtools.Cvss.Valid.{Kept, read_parts-Kept}
use nvdtools.Cvss3.Vector.{
  Metric, Metric-discrete, name, kind, order, Version, Vector, version_from_string,
  vector_from_string, no_values, read_version, read_text, absorb_vector, prefix,
}
use nvdtools.Cvss3.RoundTrip.{laws, IsValid, vector_from_string_lem}

inhabited : (m : Metric) → 0 < size (kind m)
inhabited m = ground arith

abbrev KeptValues : Result (Metric → ℕ) → Type 0
KeptValues = Kept Metric-discrete name kind inhabited

values_or : (Metric → ℕ) → Result Vector → Metric → ℕ
values_or values (ok v) = v.values
values_or values (err e) = values

with_version :
    (w : Result Version) (r : Result (Metric → ℕ)) (v : Vector)
    → KeptValues r
    → (do version ← w; values ← r; ok (record { version = version; values = values })) ≡ ok v
    → IsValid v
unfolding values_or
with_version (err e) r v h k = cc
with_version (ok w) (err e) v h k = cc
with_version (ok w) (ok values) v h k =
    subst (λ x. (m : Metric) → x m < size (kind m)) (ap (values_or values) k) h

read_version-IsValid : (o : Option (Bytes × Bytes)) (v : Vector) → read_version o ≡ ok v → IsValid v
read_version-IsValid none v h = cc
read_version-IsValid (some (version, rest)) v h =
    with_version (version_from_string version) _ v
      (read_parts-Kept Metric-discrete name kind inhabited order (split b'/' rest) no_values
        inhabited)
      h

read_text-IsValid : (o : Option Bytes) (v : Vector) → read_text o ≡ ok v → IsValid v
read_text-IsValid none v h = cc
read_text-IsValid (some s) v h = read_version-IsValid (cut_first b'/' s) v h

-- Every vector that `VectorFromString` returns has values of the metrics' types only, so that no
-- method on them indexes past its table.
pub vector_from_string-IsValid : (s : Bytes) (v : Vector) → vector_from_string s ≡ ok v → IsValid v
vector_from_string-IsValid s v h =
    read_text-IsValid (strip_prefix prefix (to_upper s)) v (sym (vector_from_string_lem s) ∙ h)

-- `Absorb` takes over the metrics that the other vector defines and leaves all others and the version
-- as they are, in whatever order it visits the metrics, if it visits each of them.
pub absorb_vector_lem :
    (ms : List Metric) (v other : Vector)
    → IsValid other
    → ((k : Metric) → Among k ms)
    → absorb_vector ms v other
      ≡ record v { values = λ k. if defined (other.values k) then other.values k else v.values k }
absorb_vector_lem ms v other valid each = λ i. record {
  version = v.version;
  values = fun_ext (λ k. absorb_lem laws other.values valid ms v.values k (each k)) i;
}
