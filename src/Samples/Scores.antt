-- ===== src/Samples/Scores.antt =====
-- The scores in fixed-point numbers, of four digits.
use nvdtools.Prelude.{
  ℕ, zero, suc, ◌+◌, ◌-◌, ◌*◌, ◌/◌, ◌≤◌, false, some, if◌then◌else◌, leb, ◌==◌, ◌≡◌, refl, arith,
}
use native.Mathlib.Nat.{mul-le-mul_left}
use nvdtools.Cvss.Floats.{Floats, Laws}
use nvdtools.Cvss2.Vector as Vector2
use nvdtools.Cvss2.Score as Score2
use nvdtools.Cvss3.Vector.{Metric, v30, Vector}
use nvdtools.Cvss3.RoundTrip.{IsValid}
use nvdtools.Cvss3.Score.{base_score, temporal_score, environmental_score}
use nvdtools.Cvss3.Bounds.{Holds, InScale}
use nvdtools.Cvss3.Scale.{scores-InScale}

abbrev power : ℕ → ℕ → ℕ
power x zero = 10000
power x (suc n) = power x n * x / 10000

abbrev fixed : Floats ℕ
fixed = record {
  add = λ x y. x + y;
  sub = λ x y. x - y;
  mul = λ x y. x * y / 10000;
  div = λ x y. x * 10000 / y;
  min = λ x y. if leb x y then x else y;
  pow = power;
  ceil = λ x. (x + 9999) / 10000 * 10000;
  round = λ x. (x + 5000) / 10000 * 10000;
  negative = λ x. false;
  is_zero = λ x. x == 0;
  number = λ n. n;
}

fixed-Laws : Laws fixed ◌≤◌
fixed-Laws = record {
  trans = λ x y z h k. omega (arith, h, k);
  constants = λ m n h. h;
  not_negative = λ x h. omega arith;
  min_le = λ x y. ground arith;
  min_positive = λ x y h k. omega arith;
  add_positive = λ x y h k. omega arith;
  mul_positive = λ x y h k. omega arith;
  mul_ten = λ x y h. omega (arith, h);
  mul_less =
      λ x y h k. let product : x * y ≤ x * 10000 = mul-le-mul_left x k in omega (arith, product);
  ceil_whole = λ x n h. omega (arith, h);
  ceil_positive = λ x h. omega arith;
  div_ten = λ x y h. omega (arith, h);
  ten_tens = refl;
  a_tenth = refl;
  no_tenth = refl;
}

-- AV:N/AC:L/PR:N/UI:N/S:U with the three impacts given.
abbrev metrics : ℕ → Metric → ℕ
metrics impact Metric.attack_vector = 1
metrics impact Metric.attack_complexity = 1
metrics impact Metric.privileges_required = 1
metrics impact Metric.user_interaction = 1
metrics impact Metric.scope = 1
metrics impact Metric.confidentiality = impact
metrics impact Metric.integrity = impact
metrics impact Metric.availability = impact
metrics impact other = 0

abbrev severe : Vector
severe = record { version = v30; values = metrics 1 }

-- No impact at all.
abbrev harmless : Vector
harmless = record { version = v30; values = metrics 3 }

severe_score : base_score fixed severe ≡ some 98000
unfolding base_score
severe_score = refl

-- Without impact the score is that of the exploitability, and not 0.
harmless_score : base_score fixed harmless ≡ some 39000
unfolding base_score
harmless_score = refl

severe-IsValid : IsValid severe
severe-IsValid m = ground arith

scores-InScale_example :
    Holds (InScale fixed ◌≤◌ fixed-Laws) (base_score fixed severe)
    × Holds (InScale fixed ◌≤◌ fixed-Laws) (temporal_score fixed severe)
    × Holds (InScale fixed ◌≤◌ fixed-Laws) (environmental_score fixed severe)
scores-InScale_example = scores-InScale fixed ◌≤◌ fixed-Laws severe severe-IsValid

-- AV:N/AC:L/Au:N with complete impacts.
abbrev complete : Vector2.Metric → ℕ
complete Vector2.access_vector = 3
complete Vector2.access_complexity = 3
complete Vector2.authentication = 3
complete Vector2.confidentiality_impact = 3
complete Vector2.integrity_impact = 3
complete Vector2.availability_impact = 3
complete other = 0

complete_score : Score2.base_score fixed complete ≡ some 100000
unfolding Score2.base_score
complete_score = refl
