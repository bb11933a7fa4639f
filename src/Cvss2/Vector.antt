-- ===== src/Cvss2/Vector.antt =====
-- cvss2/vector.go: vectors, and their text.
use nvdtools.Prelude.{
  ℕ, Bool, ◌&&◌, Option, none, some, List, [], ◌∷◌, ◌++◌, Bytes, codes, split, join, strip_prefix,
  trim_suffix, text_eq,
}
use nvdtools.Cvss.Metric.{MetricType, defined}
use nvdtools.Cvss.Parts.{Result, write_parts, read_parts, absorb}
use nvdtools.Cvss2.Metrics

-- The fields of the structs `BaseMetrics`, `TemporalMetrics` and `EnvironmentalMetrics`, in the order
-- of `order`.
pub data Metric : Type 0 where
  access_vector access_complexity authentication confidentiality_impact integrity_impact
        availability_impact exploitablity remediation_level report_confidence
        collateral_damage_potential target_distribution confidentiality_requirement
        integrity_requirement availability_requirement modified_exploitablity
        modified_remediation_level modified_report_confidence :
      Metric

unfoldable pub Metric-discrete : Discrete Metric
Metric-discrete = hlevel

-- The keys of the maps `definables` and `parseables`.
abbrev pub name : Metric → Bytes
name access_vector = codes "AV"
name access_complexity = codes "AC"
name authentication = codes "Au"
name confidentiality_impact = codes "C"
name integrity_impact = codes "I"
name availability_impact = codes "A"
name exploitablity = codes "E"
name remediation_level = codes "RL"
name report_confidence = codes "RC"
name collateral_damage_potential = codes "CDP"
name target_distribution = codes "TD"
name confidentiality_requirement = codes "CR"
name integrity_requirement = codes "IR"
name availability_requirement = codes "AR"
name modified_exploitablity = codes "ME"
name modified_remediation_level = codes "MRL"
name modified_report_confidence = codes "MRC"

-- The types of the fields that the keys lead to.
abbrev pub kind : Metric → MetricType
kind access_vector = Metrics.access_vector
kind access_complexity = Metrics.access_complexity
kind authentication = Metrics.authentication
kind confidentiality_impact = Metrics.confidentiality_impact
kind integrity_impact = Metrics.integrity_impact
kind availability_impact = Metrics.availability_impact
kind exploitablity = Metrics.exploitablity
kind remediation_level = Metrics.remediation_level
kind report_confidence = Metrics.report_confidence
kind collateral_damage_potential = Metrics.collateral_damage_potential
kind target_distribution = Metrics.target_distribution
kind confidentiality_requirement = Metrics.confidentiality_requirement
kind integrity_requirement = Metrics.integrity_requirement
kind availability_requirement = Metrics.availability_requirement
kind modified_exploitablity = Metrics.modified_exploitablity
kind modified_remediation_level = Metrics.modified_remediation_level
kind modified_report_confidence = Metrics.modified_report_confidence

abbrev pub order : List Metric
order =
    access_vector ∷ access_complexity ∷ authentication ∷ confidentiality_impact ∷ integrity_impact
    ∷ availability_impact ∷ exploitablity ∷ remediation_level ∷ report_confidence
    ∷ collateral_damage_potential ∷ target_distribution ∷ confidentiality_requirement
    ∷ integrity_requirement ∷ availability_requirement ∷ modified_exploitablity
    ∷ modified_remediation_level ∷ modified_report_confidence ∷ []

-- A vector is a function from its fields to their values.
abbrev pub Vector : Type 0
Vector = Metric → ℕ

abbrev pub in_parentheses : Option (List Bytes) → Option Bytes
in_parentheses none = none
in_parentheses (some parts) = some (b'(' ∷ (join b'/' parts ++ codes ")"))

-- `String`. `none` is a panic, of a value that its table does not hold.
unfoldable pub to_string : Vector → Option Bytes
unfolding write_parts Metric-discrete
to_string v = in_parentheses (write_parts Metric-discrete name kind order v)

-- The struct as Go initialises it.
abbrev pub no_values : Vector
no_values m = 0

-- `strings.TrimPrefix(str, "(")`
abbrev pub trim_open : Bytes → Option Bytes → Bytes
trim_open s none = s
trim_open s (some rest) = rest

unfoldable pub vector_from_string : Bytes → Result Vector
unfolding read_parts split strip_prefix trim_suffix text_eq Metric-discrete
vector_from_string s =
    let inner = trim_suffix (codes ")") (trim_open s (strip_prefix (codes "(") s)) in
    read_parts Metric-discrete name kind order (split b'/' inner) no_values

-- `Absorb`, in some order of the metrics.
abbrev pub absorb_vector : List Metric → Vector → Vector → Vector
absorb_vector ms v other = absorb Metric-discrete name kind ms other v

-- `Validate`: whether it finds no error.
unfoldable pub validate : Vector → Bool
unfolding defined
validate v =
    defined (v access_vector)
    && defined (v access_complexity)
    && defined (v authentication)
    && defined (v confidentiality_impact)
    && defined (v integrity_impact)
    && defined (v availability_impact)
