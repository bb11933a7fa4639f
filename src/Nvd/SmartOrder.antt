-- ===== src/Nvd/SmartOrder.antt =====
-- cvefeed/nvd/smartvercmp.go: the loop ends, and the comparison can be turned round.
use nvdtools.Prelude.{
  ℕ, zero, suc, ◌+◌, ◌≤◌, ◌<◌, ◌≡◌, refl, inl, inr, Option, none, some, [], ◌∷◌, Bytes, length,
  index_func, ◌==◌, Bool-cases, length-drop, arith, Ordering, compare, compare_texts, lt, eq, gt,
  flip, flip_result, ap, ◌∙◌, add_comm, IsOrder, compare-IsOrder, compare_lists-IsOrder, take_while,
}
use nvdtools.Nvd.SmartVer.{
  is_digit, is_separator, parts_at, parse_ver_parts, compare_parts, next_part, unless_equal, loop,
  by_length, smart_ver_cmp,
}

texts-IsOrder : IsOrder compare_texts
texts-IsOrder = compare_lists-IsOrder compare-IsOrder

parts_at-pos : (i : Option ℕ) (num len : ℕ) → 0 < len → 0 < (parts_at i num len).skip
parts_at-pos none num len h = h
parts_at-pos (some i) num len h = omega arith

-- Each round reads a byte at least.
skip_pos : (c : ℕ) (s : Bytes) → 0 < (parse_ver_parts (c ∷ s)).skip
unfolding parse_ver_parts
skip_pos c s = elim (Bool-cases (length (take_while is_digit (c ∷ s)) == length (c ∷ s))) [
  | inl h ↦ rw h (ground arith)
  | inr h ↦ rw h (parts_at-pos (index_func is_separator (c ∷ s)) _ (length (c ∷ s)) (omega arith))
]

length-next_part : (c : ℕ) (s : Bytes) → length (next_part (c ∷ s)) < length (c ∷ s)
unfolding next_part
length-next_part c s = length-drop _ (c ∷ s) (skip_pos c s) (cc)

unless_equal-some :
    (o : Ordering) (m : Option Ordering)
    → ((r : Ordering) × (m ≡ some r))
    → (r : Ordering) × (unless_equal o m ≡ some r)
unless_equal-some lt m h = (lt, refl)
unless_equal-some gt m h = (gt, refl)
unless_equal-some eq m h = h

loop_total :
    (fuel : ℕ) (s1 s2 : Bytes)
    → length s1 + length s2 ≤ fuel
    → (r : Ordering) × (loop fuel s1 s2 ≡ some r)
unfolding loop
loop_total fuel [] s2 h = (eq, refl)
loop_total fuel (c ∷ s1) [] h = (eq, refl)
loop_total zero (c ∷ s1) (d ∷ s2) h = absurd (omega arith)
loop_total (suc fuel) (c ∷ s1) (d ∷ s2) h = unless_equal-some (compare_parts (c ∷ s1) (d ∷ s2)) _ (
    loop_total fuel (next_part (c ∷ s1)) (next_part (d ∷ s2))
      (omega (arith, length-next_part c s1, length-next_part d s2)))

unless_equal-flip :
    (o : Ordering) (m n : Option Ordering)
    → n ≡ flip_result m
    → unless_equal (flip o) n ≡ flip_result (unless_equal o m)
unless_equal-flip lt m n h = refl
unless_equal-flip gt m n h = refl
unless_equal-flip eq m n h = h

loop-flip : (fuel : ℕ) (s1 s2 : Bytes) → loop fuel s2 s1 ≡ flip_result (loop fuel s1 s2)
unfolding loop compare_parts
loop-flip fuel [] [] = refl
loop-flip fuel [] (d ∷ s2) = refl
loop-flip fuel (c ∷ s1) [] = refl
loop-flip zero (c ∷ s1) (d ∷ s2) = refl
loop-flip (suc fuel) (c ∷ s1) (d ∷ s2) = rw (texts-IsOrder.flips) (
    unless_equal-flip (compare_parts (c ∷ s1) (d ∷ s2)) _ _
      (loop-flip fuel (next_part (c ∷ s1)) (next_part (d ∷ s2))))

by_length-some :
    (m : Option Ordering) (v1 v2 : Bytes)
    → ((r : Ordering) × (m ≡ some r))
    → (r : Ordering) × (by_length m v1 v2 ≡ some r)
by_length-some none v1 v2 h = cc
by_length-some (some lt) v1 v2 h = (lt, refl)
by_length-some (some eq) v1 v2 h = (compare (length v1) (length v2), refl)
by_length-some (some gt) v1 v2 h = (gt, refl)

by_length-flip :
    (m n : Option Ordering) (v1 v2 : Bytes)
    → n ≡ flip_result m
    → by_length n v2 v1 ≡ flip_result (by_length m v1 v2)
by_length-flip none n v1 v2 h = rw h
by_length-flip (some lt) n v1 v2 h = rw h
by_length-flip (some eq) n v1 v2 h = rw (h, compare-IsOrder.flips (length v1) (length v2))
by_length-flip (some gt) n v1 v2 h = rw h

-- Comparing two version strings always gives an answer, and comparing them the other way round gives
-- the opposite one.
pub smart_ver_cmp-flip :
    (v1 v2 : Bytes)
    → (r : Ordering) × (smart_ver_cmp v1 v2 ≡ some r) × (smart_ver_cmp v2 v1 ≡ some (flip r))
unfolding smart_ver_cmp
smart_ver_cmp-flip v1 v2 =
    let (r, h) = by_length-some _ v1 v2 (loop_total (length v1 + length v2) v1 v2 (omega arith)) in
    let e : loop (length v2 + length v1) v2 v1 ≡ flip_result (loop (length v1 + length v2) v1 v2) =
      rw (add_comm (length v2) (length v1)) (loop-flip (length v1 + length v2) v1 v2) in
    (r, h, by_length-flip _ _ v1 v2 e ∙ ap flip_result h)
