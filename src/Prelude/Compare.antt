-- ===== src/Prelude/Compare.antt =====
-- Three-way comparisons. Go's results -1, 0 and 1 are `lt`, `eq` and `gt`.
use Prim.Native.Nat.{ℕ, compare, Ordering}
use mathlib.Core.Path.{◌≡◌, refl, sym}
use mathlib.Core.Option.{Option, none, some}
use mathlib.Core.List.{List, [], ◌∷◌}
use native.Mathlib.Omega.{arith}
use nvdtools.Prelude.Texts.{Bytes}
pub use Prim.Native.Nat.{compare, Ordering}
pub use Prim.Native.Nat.Ordering.{lt, eq, gt}

-- `-c`
abbrev pub flip : Ordering → Ordering
flip Ordering.lt = Ordering.gt
flip Ordering.eq = Ordering.eq
flip Ordering.gt = Ordering.lt

-- `-c` where there is an answer
abbrev pub flip_result : Option Ordering → Option Ordering
flip_result none = none
flip_result (some c) = some (flip c)

-- The first comparison decides unless it says 0.
abbrev pub then_by : Ordering → Ordering → Ordering
then_by Ordering.eq d = d
then_by Ordering.lt d = Ordering.lt
then_by Ordering.gt d = Ordering.gt

-- How the comparison of `x` to `z` follows from those of `x` to `y` and of `y` to `z`.
abbrev pub Chain : Ordering → Ordering → Ordering → Type 0
Chain Ordering.eq s t = t ≡ s
Chain Ordering.lt Ordering.lt t = t ≡ Ordering.lt
Chain Ordering.lt Ordering.eq t = t ≡ Ordering.lt
Chain Ordering.lt Ordering.gt t = Unit
Chain Ordering.gt Ordering.lt t = Unit
Chain Ordering.gt Ordering.eq t = t ≡ Ordering.gt
Chain Ordering.gt Ordering.gt t = t ≡ Ordering.gt

-- A comparison that is a total preorder.
pub record IsOrder {ℓ} {A : Type ℓ} (cmp : A → A → Ordering) : Type ℓ where
  pub same : (x : A) → cmp x x ≡ Ordering.eq
  pub flips : (x y : A) → cmp y x ≡ flip (cmp x y)
  pub chains : (x y z : A) → Chain (cmp x y) (cmp y z) (cmp x z)

pub flip-then_by : (c d : Ordering) → flip (then_by c d) ≡ then_by (flip c) (flip d)
flip-then_by Ordering.lt d = refl
flip-then_by Ordering.eq d = refl
flip-then_by Ordering.gt d = refl

pub Chain-lt_any : (s : Ordering) → Chain Ordering.lt s Ordering.lt
Chain-lt_any Ordering.lt = refl
Chain-lt_any Ordering.eq = refl
Chain-lt_any Ordering.gt = tt

pub Chain-gt_any : (s : Ordering) → Chain Ordering.gt s Ordering.gt
Chain-gt_any Ordering.lt = tt
Chain-gt_any Ordering.eq = refl
Chain-gt_any Ordering.gt = refl

pub Chain-any_lt : (r : Ordering) → Chain r Ordering.lt Ordering.lt
Chain-any_lt Ordering.lt = refl
Chain-any_lt Ordering.eq = refl
Chain-any_lt Ordering.gt = tt

pub Chain-any_gt : (r : Ordering) → Chain r Ordering.gt Ordering.gt
Chain-any_gt Ordering.lt = tt
Chain-any_gt Ordering.eq = refl
Chain-any_gt Ordering.gt = refl

pub Chain-then_by :
    (r s t r' s' t' : Ordering)
    → Chain r s t
    → Chain r' s' t'
    → Chain (then_by r r') (then_by s s') (then_by t t')
Chain-then_by Ordering.eq Ordering.eq t r' s' t' h k = rw h k
Chain-then_by Ordering.eq Ordering.lt t r' s' t' h k = rw h (Chain-any_lt r')
Chain-then_by Ordering.eq Ordering.gt t r' s' t' h k = rw h (Chain-any_gt r')
Chain-then_by Ordering.lt Ordering.eq t r' s' t' h k = rw h (Chain-lt_any s')
Chain-then_by Ordering.lt Ordering.lt t r' s' t' h k = rw h
Chain-then_by Ordering.lt Ordering.gt t r' s' t' h k = tt
Chain-then_by Ordering.gt Ordering.eq t r' s' t' h k = rw h (Chain-gt_any s')
Chain-then_by Ordering.gt Ordering.lt t r' s' t' h k = tt
Chain-then_by Ordering.gt Ordering.gt t r' s' t' h k = rw h

compare_flips : (x y : ℕ) → compare y x ≡ flip (compare x y)
compare_flips x y = ground arith

compare_chains : (x y z : ℕ) → Chain (compare x y) (compare y z) (compare x z)
compare_chains x y z = ground arith

compare_same : (x : ℕ) → compare x x ≡ Ordering.eq
compare_same x = ground arith

pub compare-IsOrder : IsOrder compare
compare-IsOrder = record { same = compare_same; flips = compare_flips; chains = compare_chains }

-- The lexicographic comparison of lists.
module _ {ℓ} {A : Type ℓ} (cmp : A → A → Ordering) where
  abbrev pub compare_lists : List A → List A → Ordering
  compare_lists [] [] = Ordering.eq
  compare_lists [] (y ∷ ys) = Ordering.lt
  compare_lists (x ∷ xs) [] = Ordering.gt
  compare_lists (x ∷ xs) (y ∷ ys) = then_by (cmp x y) (compare_lists xs ys)

module _ {ℓ} {A : Type ℓ} {cmp : A → A → Ordering} (o : IsOrder cmp) where
  compare_lists_same : (xs : List A) → compare_lists cmp xs xs ≡ Ordering.eq
  compare_lists_same [] = refl
  compare_lists_same (x ∷ xs) = rw (o.same x) (compare_lists_same xs)

  compare_lists_flips : (xs ys : List A) → compare_lists cmp ys xs ≡ flip (compare_lists cmp xs ys)
  compare_lists_flips [] [] = refl
  compare_lists_flips [] (y ∷ ys) = refl
  compare_lists_flips (x ∷ xs) [] = refl
  compare_lists_flips (x ∷ xs) (y ∷ ys) =
      rw (o.flips x y, compare_lists_flips xs ys)
        (sym (flip-then_by (cmp x y) (compare_lists cmp xs ys)))

  compare_lists_chains :
      (xs ys zs : List A)
      → Chain (compare_lists cmp xs ys) (compare_lists cmp ys zs) (compare_lists cmp xs zs)
  compare_lists_chains [] [] zs = refl
  compare_lists_chains [] (y ∷ ys) [] = tt
  compare_lists_chains [] (y ∷ ys) (z ∷ zs) = Chain-lt_any _
  compare_lists_chains (x ∷ xs) [] [] = refl
  compare_lists_chains (x ∷ xs) [] (z ∷ zs) = tt
  compare_lists_chains (x ∷ xs) (y ∷ ys) [] = Chain-any_gt _
  compare_lists_chains (x ∷ xs) (y ∷ ys) (z ∷ zs) =
      Chain-then_by (cmp x y) (cmp y z) (cmp x z) _ _ _ (o.chains x y z)
        (compare_lists_chains xs ys zs)

  pub compare_lists-IsOrder : IsOrder (compare_lists cmp)
  compare_lists-IsOrder = record {
    same = compare_lists_same;
    flips = compare_lists_flips;
    chains = compare_lists_chains;
  }

-- `strings.Compare`, and with it `<` and `>` on strings
abbrev pub compare_texts : Bytes → Bytes → Ordering
compare_texts = compare_lists compare

-- Two comparisons in a row, each of what a function makes of the values.
pub then_by-IsOrder {ℓ κ μ} :
    {A : Type ℓ} {B : Type κ} {C : Type μ} {b : B → B → Ordering} {c : C → C → Ordering} (f : A → B)
    (g : A → C)
    → IsOrder b
    → IsOrder c
    → IsOrder (λ (x y : A). then_by (b (f x) (f y)) (c (g x) (g y)))
then_by-IsOrder {b} {c} f g o p = record {
  same = λ x. rw (o.same (f x)) (p.same (g x));
  flips = λ x y.
      rw (o.flips (f x) (f y), p.flips (g x) (g y))
        (sym (flip-then_by (b (f x) (f y)) (c (g x) (g y))));
  chains = λ x y z.
      Chain-then_by (b (f x) (f y)) (b (f y) (f z)) (b (f x) (f z)) _ _ _
        (o.chains (f x) (f y) (f z)) (p.chains (g x) (g y) (g z));
}
