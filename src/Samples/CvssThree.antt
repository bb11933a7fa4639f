-- ===== src/Samples/CvssThree.antt =====
-- cvss3 at concrete inputs.
use nvdtools.Prelude.{ℕ, ◌≡◌, refl, true, some, Bytes, codes, ◌++◌, if◌then◌else◌, arith}
use nvdtools.Cvss.Metric.{defined}
use nvdtools.Cvss.Parts.{ok, err, panic, not_two_values}
use nvdtools.Cvss.RoundTrip.{Among}
use nvdtools.Cvss3.Vector.{
  Metric, kind, order, v30, v31, Vector, prefix, to_string, vector_from_string, absorb_vector,
}
use nvdtools.Cvss3.RoundTrip.{IsValid, vector_from_string-to_string, vector_from_string-panic}
use nvdtools.Cvss3.Weights.{weighed, vector_from_string-weighed}
use nvdtools.Cvss3.Checked.{vector_from_string-IsValid, absorb_vector_lem}

-- Network, low complexity, an official fix, and a modified scope.
abbrev sample_values : Metric → ℕ
sample_values Metric.attack_vector = 1
sample_values Metric.attack_complexity = 1
sample_values Metric.remediation_level = 4
sample_values Metric.modified_scope = 2
sample_values _ = 0

abbrev sample_vector : Vector
sample_vector = record { version = v31; values = sample_values }

abbrev sample_text : Bytes
sample_text = codes "CVSS:3.1/AV:N/AC:L/RL:O/MS:C"

sample_written : to_string sample_vector ≡ some sample_text
unfolding to_string
sample_written = refl

sample_vector-IsValid : IsValid sample_vector
sample_vector-IsValid m = ground arith

-- A vector with nothing defined has a text that is not read back.
nothing_defined : vector_from_string (codes "CVSS:3.0/") ≡ err not_two_values
unfolding vector_from_string
nothing_defined = refl

vector_from_string-to_string_example :
    (s : Bytes) × (to_string sample_vector ≡ some s) × (vector_from_string s ≡ ok sample_vector)
vector_from_string-to_string_example =
    vector_from_string-to_string sample_vector Metric.attack_vector sample_vector-IsValid
      (omega arith)

no_slash : vector_from_string (prefix ++ codes "3.1") ≡ err panic
no_slash = vector_from_string-panic (codes "3.1") (omega arith)

-- The values that the text gives, in the form in which they are read.
sample_read : vector_from_string sample_text ≡ ok sample_vector
unfolding to_string
sample_read =
    let (s, w, r) = vector_from_string-to_string_example in let e : sample_text ≡ s = cc in rw e r

sample_in_types : IsValid sample_vector
sample_in_types = vector_from_string-IsValid sample_text sample_vector sample_read

-- Only the attack vector is defined, as local.
abbrev local_values : Metric → ℕ
local_values Metric.attack_vector = 3
local_values _ = 0

abbrev local_vector : Vector
local_vector = record { version = v30; values = local_values }

local_vector-IsValid : IsValid local_vector
local_vector-IsValid m = ground arith

in_order : (k : Metric) → Among k order
in_order k = ground arith

sample_absorbed : absorb_vector order sample_vector local_vector ≡ record sample_vector {
  values = λ k. if defined (local_values k) then local_values k else sample_values k;
}
sample_absorbed = absorb_vector_lem order sample_vector local_vector local_vector-IsValid in_order

sample_weighed : weighed (kind Metric.attack_vector) (sample_values Metric.attack_vector) ≡ true
sample_weighed =
    vector_from_string-weighed sample_text sample_vector Metric.attack_vector sample_read refl
