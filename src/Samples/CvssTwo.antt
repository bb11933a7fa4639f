-- ===== src/Samples/CvssTwo.antt =====
-- cvss2 at concrete inputs.
use nvdtools.Prelude.{◌≡◌, refl, some, Bytes, codes, arith}
use nvdtools.Cvss.Parts.{ok}
use nvdtools.Cvss2.Vector.{Metric, Vector, to_string, vector_from_string}
use nvdtools.Cvss2.RoundTrip.{IsValid, vector2_from_string-to_string}

-- Network access, no authentication, and an official fix.
abbrev sample2 : Vector
sample2 Metric.access_vector = 3
sample2 Metric.authentication = 3
sample2 Metric.remediation_level = 1
sample2 _ = 0

sample2_written : to_string sample2 ≡ some (codes "(AV:N/Au:N/RL:OF)")
unfolding to_string
sample2_written = refl

sample2-IsValid : IsValid sample2
sample2-IsValid m = ground arith

vector2_from_string-to_string_example :
    (s : Bytes) × (to_string sample2 ≡ some s) × (vector_from_string s ≡ ok sample2)
vector2_from_string-to_string_example =
    vector2_from_string-to_string sample2 Metric.access_vector sample2-IsValid (omega arith)
