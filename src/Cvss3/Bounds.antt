-- ===== src/Cvss3/Bounds.antt =====
-- cvss3/score.go: no score of a valid vector panics, and each lies between 0 and 10.
use nvdtools.Prelude.{
  ℕ, ◌*◌, Bool, true, false, Option, none, some, if◌then◌else◌, leb, all_below, all_below_sound,
  ◌≡◌, subst, arith, Bool-cases, inl, inr,
}
use nvdtools.Cvss.Metric.{MetricType, weight, size, defined}
use nvdtools.Cvss.Floats.{Floats, Laws, ◌>>=◌}
use nvdtools.Cvss3.Vector.{
  Metric, exploit_code_maturity, remediation_level, report_confidence,
  modified_exploit_code_maturity, modified_remediation_level, modified_report_confidence, kind,
  Vector,
}
use nvdtools.Cvss3.RoundTrip.{IsValid}
use nvdtools.Cvss3.Weights.{is_weight, weighed, has_weights, weighed-kind}
use nvdtools.Cvss3.Score.{round_up, as_number, weight_of, weight_either, product_of_four, base_from}

-- The weights of the temporal metrics are at most 1.
abbrev is_small : Metric → Bool
is_small exploit_code_maturity = true
is_small remediation_level = true
is_small report_confidence = true
is_small modified_exploit_code_maturity = true
is_small modified_remediation_level = true
is_small modified_report_confidence = true
is_small _ = false

abbrev at_most_one : Option ℕ → Bool
at_most_one none = false
at_most_one (some w) = leb w 1000

abbrev small : MetricType → ℕ → Bool
small t v = at_most_one (weight t false v)

small-kind : (m : Metric) → is_small m ≡ true → all_below (size (kind m)) (small (kind m)) ≡ true
unfolding all_below weight
small-kind m h = ground arith

-- There is no panic, and the value has the property.
abbrev pub Holds : {F : Type 0} → (F → Type 0) → Option F → Type 0
Holds P none = ⊥
Holds P (some x) = P x

pub bind-Holds :
    {F G : Type 0} (P : F → Type 0) (Q : G → Type 0) (r : Option F) (f : F → Option G)
    → Holds P r
    → ((x : F) → P x → Holds Q (f x))
    → Holds Q (r >>= f)
bind-Holds P Q none f h g = h
bind-Holds P Q (some x) f h g = g x h

module _ {F : Type 0} (o : Floats F) (le : F → F → Type 0) (laws : Laws o le) where
  abbrev pub Positive : F → Type 0
  Positive x = le (o.number 0) x

  abbrev pub Small : F → Type 0
  Small x = Positive x × le x (o.number 10000)

  -- Between 0 and 10.
  abbrev pub InScale : F → Type 0
  InScale x = Positive x × le x (o.number 100000)

  pub number-Positive : (n : ℕ) → Positive (o.number n)
  number-Positive n = laws.constants 0 n (omega arith)

  pub round_up-InScale : (x : F) → InScale x → InScale (round_up o x)
  round_up-InScale x (low, high) =
      let ten = o.number 100000 in
      let product : le (o.mul x ten) (o.number 1000000) =
        subst (le (o.mul x ten)) laws.ten_tens (laws.mul_ten x ten high) in
      let above = laws.mul_positive x ten low (number-Positive 100000) in
      let whole = laws.ceil_whole (o.mul x ten) 100 product in
      (
        subst (λ z. le z (round_up o x)) laws.no_tenth
            (laws.div_ten (o.number 0) (o.ceil (o.mul x ten))
              (laws.ceil_positive (o.mul x ten) above)),
        subst (le (round_up o x)) laws.a_tenth
            (laws.div_ten (o.ceil (o.mul x ten)) (o.number 1000000) whole),
      )

  pub base_from-InScale :
      (c : Bool) (i e : F) → Positive i → Positive e → InScale (base_from o c i e)
  base_from-InScale c i e pi pe =
      let factor = o.number (if c then 10800 else 10000) in
      let sum = o.add e i in
      let product =
        laws.mul_positive factor sum (number-Positive (if c then 10800 else 10000))
          (laws.add_positive e i pe pi) in
      round_up-InScale (o.min (o.mul factor sum) (o.number 100000)) (
        laws.min_positive (o.mul factor sum) (o.number 100000) product (number-Positive 100000),
        laws.min_le (o.mul factor sum) (o.number 100000),
      )

  pub shrunk : (x y : F) → InScale x → Small y → InScale (o.mul x y)
  shrunk x y (low, high) (p, q) = (
    laws.mul_positive x y low p,
    laws.trans (o.mul x y) x (o.number 100000) (laws.mul_less x y low q) high,
  )

  pub mul-Small : (x y : F) → Small x → Small y → Small (o.mul x y)
  mul-Small x y (low, high) (p, q) = (
    laws.mul_positive x y low p,
    laws.trans (o.mul x y) x (o.number 10000) (laws.mul_less x y low q) high,
  )

  pub product_of_four-Positive :
      (a b c d : F)
      → Positive a
      → Positive b
      → Positive c
      → Positive d
      → Positive (product_of_four o a b c d)
  product_of_four-Positive a b c d pa pb pc pd =
      let one = laws.mul_positive (o.number 82200) a (number-Positive 82200) pa in
      let two = laws.mul_positive (o.mul (o.number 82200) a) b one pb in
      let three = laws.mul_positive (o.mul (o.mul (o.number 82200) a) b) c two pc in
      laws.mul_positive (o.mul (o.mul (o.mul (o.number 82200) a) b) c) d three pd

  as_number-Positive : (r : Option ℕ) → is_weight r ≡ true → Holds Positive (as_number o r)
  as_number-Positive none e = cc
  as_number-Positive (some w) e = number-Positive (w * 10)

  as_number-Small : (r : Option ℕ) → at_most_one r ≡ true → Holds Small (as_number o r)
  as_number-Small none e = cc
  as_number-Small (some w) e =
      (number-Positive (w * 10), laws.constants (w * 10) 10000 (ground arith))

  module _ (v : Vector) (valid : IsValid v) where
    pub weight_of-Positive :
        (c : Bool) (m : Metric) → has_weights m ≡ true → Holds Positive (weight_of o v c m)
    weight_of-Positive c m h =
        let both =
          all_below_sound (size (kind m)) (weighed (kind m)) (v.values m) (weighed-kind m h)
            (valid m) in
        of_scope c both
      where
        of_scope :
            (c : Bool) → weighed (kind m) (v.values m) ≡ true → Holds Positive (weight_of o v c m)
        of_scope true both = as_number-Positive (weight (kind m) true (v.values m)) (ground arith)
        of_scope false both = as_number-Positive (weight (kind m) false (v.values m)) (ground arith)

    pub weight_of-Small : (m : Metric) → is_small m ≡ true → Holds Small (weight_of o v false m)
    weight_of-Small m h =
        as_number-Small (weight (kind m) false (v.values m))
          (all_below_sound (size (kind m)) (small (kind m)) (v.values m) (small-kind m h) (valid m))

    pub weight_either-Positive :
        (c : Bool) (m base : Metric)
        → has_weights m ≡ true
        → has_weights base ≡ true
        → Holds Positive (weight_either o v c m base)
    unfolding weight_either
    weight_either-Positive c m base h k = elim (Bool-cases (defined (v.values m))) [
      | inl e ↦ rw e (weight_of-Positive c m h)
      | inr e ↦ rw e (weight_of-Positive c base k)
    ]

    pub weight_either-Small :
        (m base : Metric)
        → is_small m ≡ true
        → is_small base ≡ true
        → Holds Small (weight_either o v false m base)
    unfolding weight_either
    weight_either-Small m base h k = elim (Bool-cases (defined (v.values m))) [
      | inl e ↦ rw e (weight_of-Small m h)
      | inr e ↦ rw e (weight_of-Small base k)
    ]
