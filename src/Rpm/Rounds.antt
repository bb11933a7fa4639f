-- ===== src/Rpm/Rounds.antt =====
-- The loop of rpm/compare.go reads the keys of both versions segment by segment.
use nvdtools.Prelude.{
  ℕ, zero, suc, ◌<◌, ◌≡◌, refl, Bool, true, false, not, inl, inr, some, Option, List, [], ◌∷◌,
  Bytes, ◌==◌, Bool-cases, length, take_while, drop_while, length-drop_while, Ordering, arith, eq,
  lt, gt, is_empty, then_by,
}
use nvdtools.Rpm.Compare.{
  tilde, is_digit, is_letter, isnt_alnum_or_tilde, segments, compare_segments, round, loop,
  seg_func, is_numeric, is_zero, or_else,
}
use nvdtools.Rpm.Key.{
  Segment, word, number, read_segment, read_segments, compare_keys, compare_numbers,
}

-- A text that is empty or begins with a letter, a digit or a tilde.
abbrev IsTrimmed : Bytes → Type 0
IsTrimmed [] = Unit
IsTrimmed (c ∷ s) = isnt_alnum_or_tilde c ≡ false

drop_while-IsTrimmed : (s : Bytes) → IsTrimmed (drop_while isnt_alnum_or_tilde s)
unfolding drop_while
drop_while-IsTrimmed [] = tt
drop_while-IsTrimmed (c ∷ s) = elim (Bool-cases (isnt_alnum_or_tilde c)) [
  | inl out ↦ rw out (drop_while-IsTrimmed s)
  | inr kept ↦ rw kept kept
]

letter_of :
    (c : ℕ)
    → isnt_alnum_or_tilde c ≡ false
    → c == tilde ≡ false
    → is_digit c ≡ false
    → is_letter c ≡ true
unfolding isnt_alnum_or_tilde
letter_of c h t d = ground arith

digit-not-letter : (c : ℕ) → is_digit c ≡ true → is_letter c ≡ false
unfolding is_digit is_letter
digit-not-letter c h = ground arith

-- The rest of a text behind a first segment is shorter.
length-drop_while_first :
    (p : ℕ → Bool) (c : ℕ) (s : Bytes) → p c ≡ true → length (drop_while p (c ∷ s)) < length (c ∷ s)
unfolding drop_while
length-drop_while_first p c s h = rw h (omega (arith, length-drop_while p s))

compare_segments_number :
    (a b : Bytes)
    → compare_segments true a b
      ≡ compare_numbers (number (drop_while is_zero a)) (number (drop_while is_zero b))
unfolding compare_segments
compare_segments_number a b = ground arith

compare_segments_word :
    (a b : Bytes) → compare_segments false a b ≡ compare_numbers (word a) (word b)
unfolding compare_segments
compare_segments_word a b = ground arith

is_empty-take_while :
    (p : ℕ → Bool) (c : ℕ) (s : Bytes) (b : Bool)
    → p c ≡ b
    → is_empty (take_while p (c ∷ s)) ≡ not b
unfolding take_while
is_empty-take_while p c s true h = rw h
is_empty-take_while p c s false h = rw h

pub or_else-some :
    (o k : Ordering) (m : Option Ordering) → m ≡ some k → or_else (some o) m ≡ some (then_by o k)
unfolding or_else
or_else-some lt k m h = refl
or_else-some eq k m h = h
or_else-some gt k m h = refl

module _ (next : Bytes → Bytes → Option Ordering) (read : Bytes → List Segment) (v1 v2 : Bytes)
    (agree : (u1 u2 : Bytes)
      → length u1 < length v1
      → length u2 < length v2
      → next u1 u2 ≡ some (compare_keys (read u1) (read u2))) where
  abbrev Agrees : Option Ordering → Bytes → Bytes → Type 0
  Agrees r u1 u2 = r ≡ some (compare_keys (read_segment read u1) (read_segment read u2))

  -- Both texts begin with a run that passes the same test.
  same_kind :
      (p : ℕ → Bool) (o : Ordering) (c d : ℕ) (s t : Bytes)
      → v1 ≡ c ∷ s
      → v2 ≡ d ∷ t
      → p c ≡ true
      → p d ≡ true
      → or_else (some o) (next (drop_while p (c ∷ s)) (drop_while p (d ∷ t)))
        ≡ some
            (then_by o (compare_keys (read (drop_while p (c ∷ s))) (read (drop_while p (d ∷ t)))))
  same_kind p o c d s t e1 e2 h1 h2 = or_else-some o _ _ (
      agree _ _ (rw e1 (length-drop_while_first p c s h1))
        (rw e2 (length-drop_while_first p d t h2)))

  segments-Agrees :
      (c d : ℕ) (s t : Bytes)
      → v1 ≡ c ∷ s
      → v2 ≡ d ∷ t
      → isnt_alnum_or_tilde c ≡ false
      → isnt_alnum_or_tilde d ≡ false
      → c == tilde ≡ false
      → d == tilde ≡ false
      → Agrees (segments next (c ∷ s) (d ∷ t)) (c ∷ s) (d ∷ t)
  unfolding segments read_segment seg_func is_numeric
  segments-Agrees c d s t e1 e2 k1 k2 t1 t2 = elim (Bool-cases (is_digit c)) [
    | inl d1 ↦ elim (Bool-cases (is_digit d)) [
      | inl d2 ↦
          rw (t1, t2, d1, d2, is_empty-take_while is_digit d t true d2, compare_segments_number)
            (same_kind is_digit _ c d s t e1 e2 d1 d2)
      | inr d2 ↦ rw (t1, t2, d1, d2, is_empty-take_while is_digit d t false d2)
    ]
    | inr d1 ↦ elim (Bool-cases (is_digit d)) [
      | inl d2 ↦
          rw (t1, t2, d1, d2, is_empty-take_while is_letter d t false (digit-not-letter d d2))
      | inr d2 ↦
          let l1 = letter_of c k1 t1 d1 in
          let l2 = letter_of d k2 t2 d2 in
          rw (t1, t2, d1, d2, is_empty-take_while is_letter d t true l2, compare_segments_word)
            (same_kind is_letter _ c d s t e1 e2 l1 l2)
    ]
  ]

  round-Agrees :
      (u1 u2 : Bytes)
      → v1 ≡ u1
      → v2 ≡ u2
      → IsTrimmed u1
      → IsTrimmed u2
      → Agrees (round next u1 u2) u1 u2
  unfolding round read_segment
  round-Agrees [] [] e1 e2 k1 k2 = refl
  round-Agrees [] (d ∷ t) e1 e2 k1 k2 = ground arith
  round-Agrees (c ∷ s) [] e1 e2 k1 k2 = ground arith
  round-Agrees (c ∷ s) (d ∷ t) e1 e2 k1 k2 = elim (Bool-cases (c == tilde)) [
    | inl h ↦ elim (Bool-cases (d == tilde)) [
      | inl g ↦ rw (h, g) (agree s t (rw e1 (omega arith)) (rw e2 (omega arith)))
      | inr g ↦ ground arith
    ]
    | inr h ↦ elim (Bool-cases (d == tilde)) [
      | inl g ↦ ground arith
      | inr g ↦ rw (h, g) (rw (h, g) at (segments-Agrees c d s t e1 e2 k1 k2 h g))
    ]
  ]

-- With fuel above both lengths the loop compares the keys.
pub loop-read_segments :
    (fuel : ℕ) (v1 v2 : Bytes)
    → length v1 < fuel
    → length v2 < fuel
    → loop fuel v1 v2 ≡ some (compare_keys (read_segments fuel v1) (read_segments fuel v2))
unfolding loop read_segments
loop-read_segments zero v1 v2 h1 h2 = absurd (omega arith)
loop-read_segments (suc fuel) v1 v2 h1 h2 =
    let u1 = drop_while isnt_alnum_or_tilde v1 in
    let u2 = drop_while isnt_alnum_or_tilde v2 in
    let shorter1 = length-drop_while isnt_alnum_or_tilde v1 in
    let shorter2 = length-drop_while isnt_alnum_or_tilde v2 in
    round-Agrees (loop fuel) (read_segments fuel) u1 u2
      (λ w1 w2 k1 k2. loop-read_segments fuel w1 w2 (omega arith) (omega arith)) u1 u2 refl refl
      (drop_while-IsTrimmed v1) (drop_while-IsTrimmed v2)

-- The key does not depend on the fuel.
read_segment-cong :
    (next next' : Bytes → List Segment) (u : Bytes)
    → ((w : Bytes) → length w < length u → next w ≡ next' w)
    → IsTrimmed u
    → read_segment next u ≡ read_segment next' u
unfolding read_segment
read_segment-cong next next' [] h k = refl
read_segment-cong next next' (c ∷ s) h k = elim (Bool-cases (c == tilde)) [
  | inl t ↦ rw (t, h s (omega arith))
  | inr t ↦ elim (Bool-cases (is_digit c)) [
    | inl d ↦ rw (t, d, h _ (length-drop_while_first is_digit c s d))
    | inr d ↦ rw (t, d, h _ (length-drop_while_first is_letter c s (letter_of c k t d)))
  ]
]

pub read_segments-fuel :
    (f g : ℕ) (v : Bytes) → length v < f → length v < g → read_segments f v ≡ read_segments g v
unfolding read_segments
read_segments-fuel zero g v h k = absurd (omega arith)
read_segments-fuel (suc f) zero v h k = absurd (omega arith)
read_segments-fuel (suc f) (suc g) v h k =
    let shorter = length-drop_while isnt_alnum_or_tilde v in
    read_segment-cong (read_segments f) (read_segments g) (drop_while isnt_alnum_or_tilde v)
      (λ w lw. read_segments-fuel f g w (omega arith) (omega arith)) (drop_while-IsTrimmed v)
