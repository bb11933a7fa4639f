-- ===== src/Cvss3/Vector.antt =====
-- cvss3/vector.go: vectors, and their text.
use nvdtools.Prelude.{
  ℕ, Bool, ◌&&◌, Option, none, some, List, [], ◌∷◌, ◌++◌, Bytes, codes, text_eq, if◌then◌else◌,
  split, join, cut_first, strip_prefix, to_upper,
}
use nvdtools.Cvss.Metric.{MetricType, defined}
use nvdtools.Cvss.Parts.{
  Result, ok, err, ◌>>=◌, missing_prefix, bad_version, panic, write_parts, read_parts, absorb,
}
use nvdtools.Cvss3.Metrics

-- The fields of the structs `BaseMetrics`, `TemporalMetrics` and `EnvironmentalMetrics`, in the order
-- of `order`.
pub data Metric : Type 0 where
  attack_vector attack_complexity privileges_required user_interaction scope confidentiality
        integrity availability exploit_code_maturity remediation_level report_confidence
        confidentiality_requirement integrity_requirement availability_requirement
        modified_attack_vector modified_attack_complexity modified_privileges_required
        modified_user_interaction modified_scope modified_confidentiality modified_integrity
        modified_availability modified_exploit_code_maturity modified_remediation_level
        modified_report_confidence :
      Metric

unfoldable pub Metric-discrete : Discrete Metric
Metric-discrete = hlevel

-- The keys of the maps `definables` and `parseables`.
abbrev pub name : Metric → Bytes
name attack_vector = codes "AV"
name attack_complexity = codes "AC"
name privileges_required = codes "PR"
name user_interaction = codes "UI"
name scope = codes "S"
name confidentiality = codes "C"
name integrity = codes "I"
name availability = codes "A"
name exploit_code_maturity = codes "E"
name remediation_level = codes "RL"
name report_confidence = codes "RC"
name confidentiality_requirement = codes "CR"
name integrity_requirement = codes "IR"
name availability_requirement = codes "AR"
name modified_attack_vector = codes "MAV"
name modified_attack_complexity = codes "MAC"
name modified_privileges_required = codes "MPR"
name modified_user_interaction = codes "MUI"
name modified_scope = codes "MS"
name modified_confidentiality = codes "MC"
name modified_integrity = codes "MI"
name modified_availability = codes "MA"
name modified_exploit_code_maturity = codes "ME"
name modified_remediation_level = codes "MRL"
name modified_report_confidence = codes "MRC"

-- The types of the fields that the keys lead to.
abbrev pub kind : Metric → MetricType
kind attack_vector = Metrics.attack_vector
kind attack_complexity = Metrics.attack_complexity
kind privileges_required = Metrics.privileges_required
kind user_interaction = Metrics.user_interaction
kind scope = Metrics.scope
kind confidentiality = Metrics.confidentiality
kind integrity = Metrics.integrity
kind availability = Metrics.availability
kind exploit_code_maturity = Metrics.exploit_code_maturity
kind remediation_level = Metrics.remediation_level
kind report_confidence = Metrics.report_confidence
kind confidentiality_requirement = Metrics.confidentiality_requirement
kind integrity_requirement = Metrics.integrity_requirement
kind availability_requirement = Metrics.availability_requirement
kind modified_attack_vector = Metrics.modified_attack_vector
kind modified_attack_complexity = Metrics.modified_attack_complexity
kind modified_privileges_required = Metrics.modified_privileges_required
kind modified_user_interaction = Metrics.modified_user_interaction
kind modified_scope = Metrics.modified_scope
kind modified_confidentiality = Metrics.modified_confidentiality
kind modified_integrity = Metrics.modified_integrity
kind modified_availability = Metrics.modified_availability
kind modified_exploit_code_maturity = Metrics.modified_exploit_code_maturity
kind modified_remediation_level = Metrics.modified_remediation_level
kind modified_report_confidence = Metrics.modified_report_confidence

abbrev pub order : List Metric
order =
    attack_vector ∷ attack_complexity ∷ privileges_required ∷ user_interaction ∷ scope
    ∷ confidentiality ∷ integrity ∷ availability ∷ exploit_code_maturity ∷ remediation_level
    ∷ report_confidence ∷ confidentiality_requirement ∷ integrity_requirement
    ∷ availability_requirement ∷ modified_attack_vector ∷ modified_attack_complexity
    ∷ modified_privileges_required ∷ modified_user_interaction ∷ modified_scope
    ∷ modified_confidentiality ∷ modified_integrity ∷ modified_availability
    ∷ modified_exploit_code_maturity ∷ modified_remediation_level ∷ modified_report_confidence ∷ []

-- `version`: the minor version, of which `versionFromString` gives two.
pub data Version : Type 0 where
  v30 v31 : Version

-- The metrics of a vector are a function of the field.
pub record Vector : Type 0 where
  pub version : Version
  pub values : Metric → ℕ

abbrev pub prefix : Bytes
prefix = codes "CVSS:"

unfoldable pub version_string : Version → Bytes
version_string v30 = codes "3.0"
version_string v31 = codes "3.1"

unfoldable pub version_from_string : Bytes → Result Version
unfolding text_eq
version_from_string s =
    if text_eq s (codes "3.0")
    then ok v30
    else if text_eq s (codes "3.1")
    then ok v31
    else err bad_version

abbrev pub with_prefix : Version → Option (List Bytes) → Option Bytes
with_prefix version none = none
with_prefix version (some parts) =
    some (prefix ++ (version_string version ++ b'/' ∷ join b'/' parts))

-- `String`. `none` is a panic, of a value that its table does not hold.
unfoldable pub to_string : Vector → Option Bytes
unfolding version_string write_parts Metric-discrete
to_string v = with_prefix v.version (write_parts Metric-discrete name kind order v.values)

-- The struct as Go initialises it.
abbrev pub no_values : Metric → ℕ
no_values m = 0

abbrev pub read_version : Option (Bytes × Bytes) → Result Vector
read_version none = err panic
read_version (some (version, rest)) = do
  v ← version_from_string version
  values ← read_parts Metric-discrete name kind order (split b'/' rest) no_values
  ok (record { version = v; values = values })

abbrev pub read_text : Option Bytes → Result Vector
read_text none = err missing_prefix
read_text (some s) = read_version (cut_first b'/' s)

-- `VectorFromString`. Without a slash behind the prefix the slice `str[:slashIdx]` panics.
unfoldable pub vector_from_string : Bytes → Result Vector
unfolding version_from_string read_parts split cut_first strip_prefix to_upper Metric-discrete
vector_from_string s = read_text (strip_prefix prefix (to_upper s))

-- `Absorb`, in some order of the metrics.
abbrev pub absorb_vector : List Metric → Vector → Vector → Vector
absorb_vector ms v other = record v {
  values = absorb Metric-discrete name kind ms other.values v.values;
}

-- `Validate`: whether it finds no error.
unfoldable pub validate : Vector → Bool
unfolding defined
validate v =
    defined (v.values attack_vector)
    && defined (v.values attack_complexity)
    && defined (v.values privileges_required)
    && defined (v.values user_interaction)
    && defined (v.values scope)
    && defined (v.values confidentiality)
    && defined (v.values integrity)
    && defined (v.values availability)
