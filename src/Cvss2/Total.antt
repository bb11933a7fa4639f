-- ===== src/Cvss2/Total.antt =====
-- cvss2/score.go: no score of a valid vector panics.
use nvdtools.Prelude.{
  ℕ, Bool, true, false, ◌&&◌, Option, none, some, all_below, all_below_sound, ◌≡◌, refl, arith,
  Bool-cases, inl, inr,
}
use nvdtools.Cvss.Metric.{MetricType, weight, size, defined}
use nvdtools.Cvss.Floats.{Floats, ◌>>=◌}
use nvdtools.Cvss2.Vector.{
  Metric, access_vector, access_complexity, authentication, confidentiality_impact,
  integrity_impact, availability_impact, exploitablity, remediation_level, report_confidence,
  collateral_damage_potential, target_distribution, confidentiality_requirement,
  integrity_requirement, availability_requirement, modified_exploitablity,
  modified_remediation_level, modified_report_confidence, kind, Vector,
}
use nvdtools.Cvss2.RoundTrip.{IsValid}
use nvdtools.Cvss2.Score.{
  as_number, weight_of, adjusted, impact_score, base_score_with, extended_weight,
  temporal_score_with, base_score, temporal_score, environmental_score,
}

abbrev pub is_some : {A : Type 0} → Option A → Bool
is_some none = false
is_some (some x) = true

abbrev has_weight : MetricType → ℕ → Bool
has_weight t v = is_some (weight t false v)

kind-weighed : (m : Metric) → all_below (size (kind m)) (has_weight (kind m)) ≡ true
unfolding all_below weight
kind-weighed m = ground arith

is_some-bind :
    {A B : Type 0} (r : Option A) (f : A → Option B)
    → is_some r ≡ true
    → ((x : A) → is_some (f x) ≡ true)
    → is_some (r >>= f) ≡ true
is_some-bind none f h g = cc
is_some-bind (some x) f h g = g x

module _ {F : Type 0} (o : Floats F) (v : Vector) (valid : IsValid v) where
  weight_of-is_some : (m : Metric) → is_some (weight_of o v m) ≡ true
  weight_of-is_some m =
      numbered (weight (kind m) false (v m))
        (all_below_sound (size (kind m)) (has_weight (kind m)) (v m) (kind-weighed m) (valid m))
    where
      numbered : (r : Option ℕ) → is_some r ≡ true → is_some (as_number o r) ≡ true
      numbered none h = cc
      numbered (some w) h = refl

  given :
      {B : Type 0} (m : Metric) (f : F → Option B)
      → ((x : F) → is_some (f x) ≡ true)
      → is_some (weight_of o v m >>= f) ≡ true
  given m f g = is_some-bind (weight_of o v m) f (weight_of-is_some m) g

  adjusted-is_some :
      (adjust : Bool) (w : F) (m : Metric) → is_some (adjusted o adjust w (weight_of o v m)) ≡ true
  adjusted-is_some false w m = refl
  adjusted-is_some true w m = given m (λ r. some (o.mul w r)) (λ r. refl)

  given_adjusted :
      {B : Type 0} (adjust : Bool) (w : F) (m : Metric) (f : F → Option B)
      → ((x : F) → is_some (f x) ≡ true)
      → is_some (adjusted o adjust w (weight_of o v m) >>= f) ≡ true
  given_adjusted adjust w m f g =
      is_some-bind (adjusted o adjust w (weight_of o v m)) f (adjusted-is_some adjust w m) g

  impact_score-is_some : (adjust : Bool) → is_some (impact_score o v adjust) ≡ true
  unfolding impact_score
  impact_score-is_some adjust = given confidentiality_impact _ (λ c. given integrity_impact _ (λ i.
      given availability_impact _ (λ a. given_adjusted adjust c confidentiality_requirement _ (λ c'.
        given_adjusted adjust i integrity_requirement _
          (λ i'. given_adjusted adjust a availability_requirement _ (λ a'. refl))))))

  base_score_with-is_some : (impact : F) → is_some (base_score_with o v impact) ≡ true
  unfolding base_score_with
  base_score_with-is_some impact = elim (Bool-cases (o.is_zero impact)) [
    | inl e ↦ rw e refl
    | inr e ↦ rw e (
        given access_vector _
          (λ av. given access_complexity _ (λ ac. given authentication _ (λ au. refl))))
  ]

  extended_weight-is_some :
      (extension : Bool) (w : F) (m : Metric) → is_some (extended_weight o v extension w m) ≡ true
  unfolding extended_weight
  extended_weight-is_some extension w m = elim (Bool-cases (extension && defined (v m))) [
    | inl e ↦ rw e (weight_of-is_some m)
    | inr e ↦ rw e refl
  ]

  given_extended :
      {B : Type 0} (extension : Bool) (w : F) (m : Metric) (f : F → Option B)
      → ((x : F) → is_some (f x) ≡ true)
      → is_some (extended_weight o v extension w m >>= f) ≡ true
  given_extended extension w m f g =
      is_some-bind (extended_weight o v extension w m) f (extended_weight-is_some extension w m) g

  temporal_score_with-is_some :
      (impact : F) (extension : Bool) → is_some (temporal_score_with o v impact extension) ≡ true
  unfolding temporal_score_with
  temporal_score_with-is_some impact extension = given exploitablity _ (λ e.
      given remediation_level _ (λ rl. given report_confidence _ (λ rc.
        given_extended extension e modified_exploitablity _ (λ e'.
          given_extended extension rl modified_remediation_level _ (λ rl'.
            given_extended extension rc modified_report_confidence _ (λ rc'.
              is_some-bind (base_score_with o v impact) _ (base_score_with-is_some impact)
                (λ base. refl)))))))

  -- None of the three scores of a version 2 vector whose values are of their types panics.
  pub scores-is_some :
      (is_some (base_score o v) ≡ true)
      × (is_some (temporal_score o v) ≡ true)
      × (is_some (environmental_score o v) ≡ true)
  unfolding base_score temporal_score environmental_score
  scores-is_some = (
    is_some-bind (impact_score o v false) _ (impact_score-is_some false)
        (λ i. base_score_with-is_some i),
    is_some-bind (impact_score o v false) _ (impact_score-is_some false)
        (λ i. temporal_score_with-is_some i false),
    is_some-bind (impact_score o v true) _ (impact_score-is_some true) (λ i.
        is_some-bind (temporal_score_with o v (o.min (o.number 100000) i) true) _
          (temporal_score_with-is_some (o.min (o.number 100000) i) true)
          (λ t.
            given collateral_damage_potential _ (λ cdp. given target_distribution _ (λ td. refl)))),
  )
