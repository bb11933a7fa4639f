-- ===== src/Cvss/Floats.antt =====
-- The floating-point numbers that the scores of cvss2 and cvss3 are computed in, as an interface.
--
-- Its values are the float64 numbers but NaN and the infinities. The operations are those of Go and of
-- its package math; the laws are of rounded arithmetic, which keeps order and signs.
use nvdtools.Prelude.{ℕ, ◌*◌, ◌≤◌, Bool, false, Option, none, some, ◌≡◌}

pub record Floats (F : Type 0) : Type 0 where
  pub add : F → F → F
  pub sub : F → F → F
  pub mul : F → F → F
  pub div : F → F → F
  -- `math.Min`, `math.Pow` with a whole exponent, and `math.Ceil`
  pub min : F → F → F
  pub pow : F → ℕ → F
  pub ceil : F → F
  -- `math.Round`
  pub round : F → F
  -- `x < 0`, and `x == 0`
  pub negative : F → Bool
  pub is_zero : F → Bool
  -- a constant, in ten-thousandths
  pub number : ℕ → F

pub record Laws {F : Type 0} (o : Floats F) (le : F → F → Type 0) : Type 0 where
  pub trans : (x y z : F) → le x y → le y z → le x z
  pub constants : (m n : ℕ) → m ≤ n → le (o.number m) (o.number n)
  pub not_negative : (x : F) → o.negative x ≡ false → le (o.number 0) x
  pub min_le : (x y : F) → le (o.min x y) y
  pub min_positive : (x y : F) → le (o.number 0) x → le (o.number 0) y → le (o.number 0) (o.min x y)
  pub add_positive : (x y : F) → le (o.number 0) x → le (o.number 0) y → le (o.number 0) (o.add x y)
  pub mul_positive : (x y : F) → le (o.number 0) x → le (o.number 0) y → le (o.number 0) (o.mul x y)
  pub mul_ten : (x y : F) → le x y → le (o.mul x (o.number 100000)) (o.mul y (o.number 100000))
  pub mul_less : (x y : F) → le (o.number 0) x → le y (o.number 10000) → le (o.mul x y) x
  pub ceil_whole :
      (x : F) (n : ℕ) → le x (o.number (n * 10000)) → le (o.ceil x) (o.number (n * 10000))
  pub ceil_positive : (x : F) → le (o.number 0) x → le (o.number 0) (o.ceil x)
  pub div_ten : (x y : F) → le x y → le (o.div x (o.number 100000)) (o.div y (o.number 100000))
  pub ten_tens : o.mul (o.number 100000) (o.number 100000) ≡ o.number 1000000
  pub a_tenth : o.div (o.number 1000000) (o.number 100000) ≡ o.number 100000
  pub no_tenth : o.div (o.number 0) (o.number 100000) ≡ o.number 0

-- A value, or `none` for a panic.
infixl 5 ◌>>=◌
abbrev pub ◌>>=◌ : {A B : Type 0} → Option A → (A → Option B) → Option B
none >>= f = none
some a >>= f = f a
