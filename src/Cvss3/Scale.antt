-- ===== src/Cvss3/Scale.antt =====
-- cvss3/score.go: the scores of a valid vector.
use nvdtools.Prelude.{Bool, true, false, Option, ◌≡◌, refl, arith, Bool-cases, inl, inr}
use nvdtools.Cvss.Floats.{Floats, Laws, ◌>>=◌}
use nvdtools.Cvss3.Vector.{
  Metric, attack_vector, attack_complexity, privileges_required, user_interaction, confidentiality,
  integrity, availability, exploit_code_maturity, remediation_level, report_confidence,
  confidentiality_requirement, integrity_requirement, availability_requirement,
  modified_attack_vector, modified_attack_complexity, modified_privileges_required,
  modified_user_interaction, modified_confidentiality, modified_integrity, modified_availability,
  modified_exploit_code_maturity, modified_remediation_level, modified_report_confidence, Vector,
}
use nvdtools.Cvss3.RoundTrip.{IsValid}
use nvdtools.Cvss3.Weights.{has_weights}
use nvdtools.Cvss3.Bounds.{
  Holds, bind-Holds, Positive, Small, InScale, number-Positive, round_up-InScale, base_from-InScale,
  shrunk, mul-Small, product_of_four-Positive, weight_of-Positive, weight_of-Small,
  weight_either-Positive, weight_either-Small,
}
use nvdtools.Cvss3.Score.{
  base_scope_changed, modified_scope_changed, weight_of, weight_either, impact_score,
  exploitability_score, base_from, base_score, temporal_score, modified_temporal_metrics_mult,
  modified_impact_score, modified_exploitability_score, environmental_score,
}

abbrev Anything : {F : Type 0} → F → Type 0
Anything x = Unit

module _ {F : Type 0} (o : Floats F) (le : F → F → Type 0) (laws : Laws o le) (v : Vector)
    (valid : IsValid v) where
  given :
      {G : Type 0} (Q : G → Type 0) (m : Metric) (f : F → Option G)
      → has_weights m ≡ true
      → ((x : F) → Positive o le laws x → Holds Q (f x))
      → Holds Q (weight_of o v false m >>= f)
  given Q m f h g =
      bind-Holds (Positive o le laws) Q (weight_of o v false m) f
        (weight_of-Positive o le laws v valid false m h) g

  given_either :
      {G : Type 0} (Q : G → Type 0) (c : Bool) (m base : Metric) (f : F → Option G)
      → has_weights m ≡ true
      → has_weights base ≡ true
      → ((x : F) → Positive o le laws x → Holds Q (f x))
      → Holds Q (weight_either o v c m base >>= f)
  given_either Q c m base f h k g =
      bind-Holds (Positive o le laws) Q (weight_either o v c m base) f
        (weight_either-Positive o le laws v valid c m base h k) g

  given_small :
      {G : Type 0} (Q : G → Type 0) (m : Metric) (f : F → Option G)
      → Holds (Small o le laws) (weight_of o v false m)
      → ((x : F) → Small o le laws x → Holds Q (f x))
      → Holds Q (weight_of o v false m >>= f)
  given_small Q m f h g = bind-Holds (Small o le laws) Q (weight_of o v false m) f h g

  impact_score-Holds : Holds Anything (impact_score o v)
  unfolding impact_score
  impact_score-Holds = given Anything confidentiality _ refl (λ c p.
      given Anything integrity _ refl (λ i q. given Anything availability _ refl (λ a r. tt)))

  exploitability_score-Holds : Holds (Positive o le laws) (exploitability_score o v)
  unfolding exploitability_score
  exploitability_score-Holds = given (Positive o le laws) attack_vector _ refl (λ av p.
      given (Positive o le laws) attack_complexity _ refl (λ ac q.
        bind-Holds (Positive o le laws) (Positive o le laws)
          (weight_of o v (base_scope_changed v) privileges_required) _
          (weight_of-Positive o le laws v valid (base_scope_changed v) privileges_required refl)
          (λ pr r.
            given (Positive o le laws) user_interaction _ refl
              (λ ui s. product_of_four-Positive o le laws av ac pr ui p q r s))))

  -- The base score.
  base_score-Holds : Holds (InScale o le laws) (base_score o v)
  unfolding base_score
  base_score-Holds =
      bind-Holds Anything (InScale o le laws) (impact_score o v) _ impact_score-Holds (λ i t.
        bind-Holds (Positive o le laws) (InScale o le laws) (exploitability_score o v) _
          exploitability_score-Holds
          (λ e p. elim (Bool-cases (o.negative i)) [
            | inl n ↦ rw n (number-Positive o le laws 0, laws.constants 0 100000 (omega arith))
            | inr n ↦
                rw n
                  (base_from-InScale o le laws (base_scope_changed v) i e (laws.not_negative i n) p)
          ]))

  temporal_score-Holds : Holds (InScale o le laws) (temporal_score o v)
  unfolding temporal_score
  temporal_score-Holds =
      bind-Holds (InScale o le laws) (InScale o le laws) (base_score o v) _ base_score-Holds (λ b k.
        given_small (InScale o le laws) exploit_code_maturity _
          (weight_of-Small o le laws v valid exploit_code_maturity refl)
          (λ e p.
            given_small (InScale o le laws) remediation_level _
              (weight_of-Small o le laws v valid remediation_level refl)
              (λ rl q.
                given_small (InScale o le laws) report_confidence _
                  (weight_of-Small o le laws v valid report_confidence refl)
                  (λ rc r. round_up-InScale o le laws (o.mul (o.mul (o.mul b e) rl) rc) (
                    shrunk o le laws (o.mul (o.mul b e) rl) rc
                      (shrunk o le laws (o.mul b e) rl (shrunk o le laws b e k p) q) r)))))

  modified_temporal_metrics_mult-Holds :
      Holds (Small o le laws) (modified_temporal_metrics_mult o v)
  unfolding modified_temporal_metrics_mult
  modified_temporal_metrics_mult-Holds =
      bind-Holds (Small o le laws) (Small o le laws)
        (weight_either o v false modified_exploit_code_maturity exploit_code_maturity) _
        (weight_either-Small o le laws v valid modified_exploit_code_maturity exploit_code_maturity
          refl refl)
        (λ me p.
          bind-Holds (Small o le laws) (Small o le laws)
            (weight_either o v false modified_remediation_level remediation_level) _
            (weight_either-Small o le laws v valid modified_remediation_level remediation_level refl
              refl)
            (λ mrl q.
              bind-Holds (Small o le laws) (Small o le laws)
                (weight_either o v false modified_report_confidence report_confidence) _
                (weight_either-Small o le laws v valid modified_report_confidence report_confidence
                  refl refl)
                (λ mrc r.
                  mul-Small o le laws (o.mul me mrl) mrc (mul-Small o le laws me mrl p q) r)))

  modified_impact_score-Holds : Holds Anything (modified_impact_score o v)
  unfolding modified_impact_score
  modified_impact_score-Holds =
      given_either Anything false modified_confidentiality confidentiality _ refl refl (λ mc p.
        given_either Anything false modified_integrity integrity _ refl refl (λ mi q.
          given_either Anything false modified_availability availability _ refl refl (λ ma r.
            given Anything confidentiality_requirement _ refl (λ cr p'.
              given Anything integrity_requirement _ refl
                (λ ir q'. given Anything availability_requirement _ refl (λ ar r'. tt))))))

  modified_exploitability_score-Holds :
      Holds (Positive o le laws) (modified_exploitability_score o v)
  unfolding modified_exploitability_score
  modified_exploitability_score-Holds =
      given_either (Positive o le laws) false modified_attack_vector attack_vector _ refl refl
        (λ av p.
          given_either (Positive o le laws) false modified_attack_complexity attack_complexity _
            refl refl
            (λ ac q.
              given_either (Positive o le laws) (modified_scope_changed v)
                modified_privileges_required privileges_required _ refl refl
                (λ pr r.
                  given_either (Positive o le laws) false modified_user_interaction user_interaction
                    _ refl refl (λ ui s. product_of_four-Positive o le laws av ac pr ui p q r s))))

  environmental_score-Holds : Holds (InScale o le laws) (environmental_score o v)
  unfolding environmental_score
  environmental_score-Holds =
      bind-Holds Anything (InScale o le laws) (modified_impact_score o v) _
        modified_impact_score-Holds
        (λ i t.
          bind-Holds (Positive o le laws) (InScale o le laws) (modified_exploitability_score o v) _
            modified_exploitability_score-Holds
            (λ e p. elim (Bool-cases (o.negative i)) [
              | inl n ↦ rw n (number-Positive o le laws 0, laws.constants 0 100000 (omega arith))
              | inr n ↦ rw n (
                  bind-Holds (Small o le laws) (InScale o le laws)
                    (modified_temporal_metrics_mult o v) _ modified_temporal_metrics_mult-Holds
                    (λ m k.
                      let base = base_from o (modified_scope_changed v) i e in
                      round_up-InScale o le laws (o.mul base m) (
                        shrunk o le laws base m
                          (base_from-InScale o le laws (modified_scope_changed v) i e
                            (laws.not_negative i n) p)
                          k)))
            ]))

  -- In floating-point numbers that keep order and signs, none of the three scores of a version 3 vector
  -- whose values are of their types panics, and each lies between 0 and 10.
  pub scores-InScale :
      Holds (InScale o le laws) (base_score o v)
      × Holds (InScale o le laws) (temporal_score o v)
      × Holds (InScale o le laws) (environmental_score o v)
  scores-InScale = (base_score-Holds, temporal_score-Holds, environmental_score-Holds)
