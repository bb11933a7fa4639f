-- ===== src/Cvss2/Score.antt =====
-- cvss2/score.go: the scores. A metric whose table does not hold its value panics, `none`.
use nvdtools.Prelude.{ℕ, ◌*◌, Bool, true, false, ◌&&◌, Option, none, some, if◌then◌else◌}
use nvdtools.Cvss.Metric.{weight, defined}
use nvdtools.Cvss.Floats.{Floats, ◌>>=◌}
use nvdtools.Cvss2.Vector.{
  Metric, access_vector, access_complexity, authentication, confidentiality_impact,
  integrity_impact, availability_impact, exploitablity, remediation_level, report_confidence,
  collateral_damage_potential, target_distribution, confidentiality_requirement,
  integrity_requirement, availability_requirement, modified_exploitablity,
  modified_remediation_level, modified_report_confidence, kind, Vector,
}

module _ {F : Type 0} (o : Floats F) where
  abbrev pub round_to_1_decimal : F → F
  round_to_1_decimal x = o.div (o.round (o.mul x (o.number 100000))) (o.number 100000)

  -- A weight in thousandths as a number.
  abbrev pub as_number : Option ℕ → Option F
  as_number none = none
  as_number (some w) = some (o.number (w * 10))

  abbrev pub weight_of : Vector → Metric → Option F
  weight_of v m = as_number (weight (kind m) false (v m))

  -- An impact, and its product with the requirement if `adjust` is set.
  abbrev pub adjusted : Bool → F → Option F → Option F
  adjusted false impact requirement = some impact
  adjusted true impact requirement = do r ← requirement; some (o.mul impact r)

  -- `10.41 * (1 - (1-c)*(1-i)*(1-a))`
  abbrev pub combined : F → F → F → F
  combined c i a =
      let one = o.number 10000 in
      o.mul (o.number 104100) (o.sub one (o.mul (o.mul (o.sub one c) (o.sub one i)) (o.sub one a)))

  unfoldable pub impact_score : Vector → Bool → Option F
  unfolding weight
  impact_score v adjust = do
    c ← weight_of v confidentiality_impact
    i ← weight_of v integrity_impact
    a ← weight_of v availability_impact
    c' ← adjusted adjust c (weight_of v confidentiality_requirement)
    i' ← adjusted adjust i (weight_of v integrity_requirement)
    a' ← adjusted adjust a (weight_of v availability_requirement)
    some (combined c' i' a')

  abbrev pub base_from : F → F → F → F → F
  base_from impact av ac au =
      let exploitability = o.mul (o.mul (o.mul (o.number 200000) av) ac) au in
      round_to_1_decimal (
        o.mul
          (o.sub (o.add (o.mul (o.number 6000) impact) (o.mul (o.number 4000) exploitability))
            (o.number 15000))
          (o.number 11760))

  unfoldable pub base_score_with : Vector → F → Option F
  unfolding weight
  base_score_with v impact = if o.is_zero impact then some (o.number 0) else (do
    av ← weight_of v access_vector
    ac ← weight_of v access_complexity
    au ← weight_of v authentication
    some (base_from impact av ac au))

  -- The weight, or that of the modified metric if the extension is wanted and it is defined.
  unfoldable pub extended_weight : Vector → Bool → F → Metric → Option F
  unfolding defined weight
  extended_weight v extension w m = if extension && defined (v m) then weight_of v m else some w

  unfoldable pub temporal_score_with : Vector → F → Bool → Option F
  unfolding extended_weight base_score_with weight
  temporal_score_with v impact extension = do
    e ← weight_of v exploitablity
    rl ← weight_of v remediation_level
    rc ← weight_of v report_confidence
    e' ← extended_weight v extension e modified_exploitablity
    rl' ← extended_weight v extension rl modified_remediation_level
    rc' ← extended_weight v extension rc modified_report_confidence
    base ← base_score_with v impact
    some (round_to_1_decimal (o.mul (o.mul (o.mul base e') rl') rc'))

  unfoldable pub base_score : Vector → Option F
  unfolding impact_score base_score_with
  base_score v = do impact ← impact_score v false; base_score_with v impact

  unfoldable pub temporal_score : Vector → Option F
  unfolding impact_score temporal_score_with
  temporal_score v = do impact ← impact_score v false; temporal_score_with v impact false

  -- `EnvironmentalScore`, which `Score` returns.
  unfoldable pub environmental_score : Vector → Option F
  unfolding impact_score temporal_score_with weight
  environmental_score v = do
    impact ← impact_score v true
    at_ ← temporal_score_with v (o.min (o.number 100000) impact) true
    cdp ← weight_of v collateral_damage_potential
    td ← weight_of v target_distribution
    some (round_to_1_decimal (o.mul (o.add at_ (o.mul (o.sub (o.number 100000) at_) cdp)) td))
