-- ===== src/Cvss3/Score.antt =====
-- cvss3/score.go: the scores.
use nvdtools.Prelude.{ℕ, ◌*◌, Bool, true, false, Option, none, some, ◌==◌, if◌then◌else◌}
use nvdtools.Cvss.Metric.{weight, defined}
use nvdtools.Cvss.Floats.{Floats, ◌>>=◌}
use nvdtools.Cvss3.Vector.{
  Metric, attack_vector, attack_complexity, privileges_required, user_interaction, scope,
  confidentiality, integrity, availability, exploit_code_maturity, remediation_level,
  report_confidence, confidentiality_requirement, integrity_requirement, availability_requirement,
  modified_attack_vector, modified_attack_complexity, modified_privileges_required,
  modified_user_interaction, modified_scope, modified_confidentiality, modified_integrity,
  modified_availability, modified_exploit_code_maturity, modified_remediation_level,
  modified_report_confidence, kind, Version, v30, v31, Vector,
}

-- `baseScopeChanged`, by the value of `ScopeChanged`
abbrev pub base_scope_changed : Vector → Bool
base_scope_changed v = v.values scope == 2

unfoldable pub modified_scope_changed : Vector → Bool
unfolding defined
modified_scope_changed v =
    if defined (v.values modified_scope) then v.values modified_scope == 2 else base_scope_changed v

module _ {F : Type 0} (o : Floats F) where
  abbrev pub round_up : F → F
  round_up x = o.div (o.ceil (o.mul x (o.number 100000))) (o.number 100000)

  -- A weight in thousandths as a number.
  abbrev pub as_number : Option ℕ → Option F
  as_number none = none
  as_number (some w) = some (o.number (w * 10))

  abbrev pub weight_of : Vector → Bool → Metric → Option F
  weight_of v scope_changed m = as_number (weight (kind m) scope_changed (v.values m))

  -- The weight of a modified metric, or that of the metric it modifies.
  unfoldable pub weight_either : Vector → Bool → Metric → Metric → Option F
  unfolding defined
  weight_either v scope_changed m base =
      if defined (v.values m) then weight_of v scope_changed m else weight_of v scope_changed base

  abbrev pub impact : Bool → F → F
  impact true isc =
      o.sub (o.mul (o.number 75200) (o.sub isc (o.number 290)))
        (o.mul (o.number 32500) (o.pow (o.sub isc (o.number 200)) 15))
  impact false isc = o.mul (o.number 64200) isc

  -- `1 - (1-c)*(1-i)*(1-a)`
  abbrev pub combined : F → F → F → F
  combined c i a =
      let one = o.number 10000 in
      o.sub one (o.mul (o.mul (o.sub one c) (o.sub one i)) (o.sub one a))

  unfoldable pub impact_score : Vector → Option F
  unfolding weight
  impact_score v = do
    c ← weight_of v false confidentiality
    i ← weight_of v false integrity
    a ← weight_of v false availability
    some (impact (base_scope_changed v) (combined c i a))

  abbrev pub product_of_four : F → F → F → F → F
  product_of_four av ac pr ui = o.mul (o.mul (o.mul (o.mul (o.number 82200) av) ac) pr) ui

  unfoldable pub exploitability_score : Vector → Option F
  unfolding weight
  exploitability_score v = do
    av ← weight_of v false attack_vector
    ac ← weight_of v false attack_complexity
    pr ← weight_of v (base_scope_changed v) privileges_required
    ui ← weight_of v false user_interaction
    some (product_of_four av ac pr ui)

  -- `math.Min(c*(e+i), 10.0)`, rounded up
  abbrev pub base_from : Bool → F → F → F
  base_from scope_changed i e = round_up (
      o.min (o.mul (o.number (if scope_changed then 10800 else 10000)) (o.add e i))
        (o.number 100000))

  unfoldable pub base_score : Vector → Option F
  unfolding impact_score exploitability_score
  base_score v = do
    i ← impact_score v
    e ← exploitability_score v
    some (if o.negative i then o.number 0 else base_from (base_scope_changed v) i e)

  unfoldable pub temporal_score : Vector → Option F
  unfolding base_score weight
  temporal_score v = do
    b ← base_score v
    e ← weight_of v false exploit_code_maturity
    rl ← weight_of v false remediation_level
    rc ← weight_of v false report_confidence
    some (round_up (o.mul (o.mul (o.mul b e) rl) rc))

  unfoldable pub modified_temporal_metrics_mult : Vector → Option F
  unfolding weight_either
  modified_temporal_metrics_mult v = do
    me ← weight_either v false modified_exploit_code_maturity exploit_code_maturity
    mrl ← weight_either v false modified_remediation_level remediation_level
    mrc ← weight_either v false modified_report_confidence report_confidence
    some (o.mul (o.mul me mrl) mrc)

  abbrev pub modified_impact : Version → Bool → F → F
  modified_impact v31 true isc =
      o.sub (o.mul (o.number 75200) (o.sub isc (o.number 290)))
        (o.mul (o.number 32500) (o.pow (o.sub (o.mul isc (o.number 9731)) (o.number 200)) 13))
  modified_impact v30 true isc = impact true isc
  modified_impact version false isc = impact false isc

  unfoldable pub modified_impact_score : Vector → Option F
  unfolding weight_either weight modified_scope_changed
  modified_impact_score v = do
    mc ← weight_either v false modified_confidentiality confidentiality
    mi ← weight_either v false modified_integrity integrity
    ma ← weight_either v false modified_availability availability
    cr ← weight_of v false confidentiality_requirement
    ir ← weight_of v false integrity_requirement
    ar ← weight_of v false availability_requirement
    some (
        modified_impact v.version (modified_scope_changed v)
          (o.min (combined (o.mul mc cr) (o.mul mi ir) (o.mul ma ar)) (o.number 9150)))

  unfoldable pub modified_exploitability_score : Vector → Option F
  unfolding weight_either modified_scope_changed
  modified_exploitability_score v = do
    mav ← weight_either v false modified_attack_vector attack_vector
    mac ← weight_either v false modified_attack_complexity attack_complexity
    mpr ←
        weight_either v (modified_scope_changed v) modified_privileges_required privileges_required
    mui ← weight_either v false modified_user_interaction user_interaction
    some (product_of_four mav mac mpr mui)

  -- `EnvironmentalScore`, which `Score` returns. The factor is computed where it is needed only.
  abbrev pub environmental_from : Bool → Bool → F → F → Option F → Option F
  environmental_from true scope_changed i e mult = some (o.number 0)
  environmental_from false scope_changed i e mult = do
    m ← mult
    some (round_up (o.mul (base_from scope_changed i e) m))

  unfoldable pub environmental_score : Vector → Option F
  unfolding modified_impact_score modified_exploitability_score modified_temporal_metrics_mult
      modified_scope_changed
  environmental_score v = do
    i ← modified_impact_score v
    e ← modified_exploitability_score v
    environmental_from (o.negative i) (modified_scope_changed v) i e
        (modified_temporal_metrics_mult v)
