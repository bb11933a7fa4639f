-- ===== src/Wfn/UriEnds.antt =====
-- wfn/uri.go: reading ends on every text.
use nvdtools.Prelude.{
  ℕ, zero, suc, ◌+◌, ◌<◌, ◌≤◌, Bool, true, false, ◌||◌, Option, none, some, [], ◌∷◌, Bytes, ◌==◌,
  if◌then◌else◌, length, arith, Bool-cases, inl, inr,
}
use nvdtools.Wfn.Uri.{
  is_coded, Place, advance_over, Unbound, value, bad, out_of_fuel, Round, stop, wrong, emit, round,
  percent, on_code, parse_int, wildcard_here, prepend, follow, unbind_loop,
  unbind_value_uri_at_till,
}

-- A round that goes on moves the index.
abbrev Advances : Round → Type 0
Advances stop = Unit
Advances wrong = Unit
Advances (emit o n e) = 0 < n

if-Advances : (t : Bool) (x y : Round) → Advances x → Advances y → Advances (if t then x else y)
if-Advances true x y a b = a
if-Advances false x y a b = b

on_code-Advances :
    (till : ℕ) (start e : Bool) (b code r : Bytes) (o : Option ℕ)
    → Advances (on_code till start e b code r o)
on_code-Advances till start e b code r none = tt
on_code-Advances till start e b code r (some n) =
    if-Advances ((n == 1) || (n == 2))
      (if wildcard_here till start e b code r
        then emit ((if n == 1 then b'?' else b'*') ∷ []) 3 e
        else wrong)
      (if is_coded n then emit (b'\\' ∷ n ∷ []) 3 true else wrong)
      (if-Advances (wildcard_here till start e b code r)
        (emit ((if n == 1 then b'?' else b'*') ∷ []) 3 e) wrong (omega arith) tt)
      (if-Advances (is_coded n) (emit (b'\\' ∷ n ∷ []) 3 true) wrong (omega arith) tt)

percent-Advances : (till : ℕ) (start e : Bool) (b r : Bytes) → Advances (percent till start e b r)
percent-Advances till start e b [] = tt
percent-Advances till start e b (c ∷ []) = tt
percent-Advances till start e b (c ∷ d ∷ r) = on_code-Advances till start e b _ r (parse_int c d)

round-Advances :
    (till : ℕ) (start e : Bool) (b : Bytes) (c : ℕ) (r : Bytes)
    → Advances (round till start e b c r)
unfolding round
round-Advances till start e b c r =
    let plain =
      if (c == b'.') || (c == b'-') || (c == b'~')
      then emit (b'\\' ∷ c ∷ []) 1 true
      else emit (c ∷ []) 1 true in
    if-Advances (c == till) stop (if c == b'%' then percent till start e b r else plain) tt (
      if-Advances (c == b'%') (percent till start e b r) plain (percent-Advances till start e b r) (
        if-Advances ((c == b'.') || (c == b'-') || (c == b'~')) (emit (b'\\' ∷ c ∷ []) 1 true)
          (emit (c ∷ []) 1 true) (omega arith) (omega arith)))

pub length-advance_over : (n : ℕ) (b r : Bytes) → length (advance_over n b r).rest ≤ length r
length-advance_over zero b r = omega arith
length-advance_over (suc n) b [] = omega arith
length-advance_over (suc n) b (c ∷ r) = omega (arith, length-advance_over n (c ∷ b) r)

pub length-advance_cons :
    (n : ℕ) (b : Bytes) (c : ℕ) (r : Bytes)
    → 0 < n
    → length (advance_over n b (c ∷ r)).rest ≤ length r
length-advance_cons zero b c r lt = absurd (omega arith)
length-advance_cons (suc n) b c r lt = length-advance_over n (c ∷ b) r

-- An answer that does not run out of fuel, at a place with at most so many bytes left.
abbrev pub Answers : ℕ → Unbound → Type 0
Answers n (value v p) = length p.rest ≤ n
Answers n (bad p) = length p.rest ≤ n
Answers n out_of_fuel = ⊥

prepend-Answers : (n : ℕ) (o : Bytes) (u : Unbound) → Answers n u → Answers n (prepend o u)
prepend-Answers n o (value v p) a = a
prepend-Answers n o (bad p) a = a
prepend-Answers n o out_of_fuel a = a

pub Answers-le : (m n : ℕ) (u : Unbound) → m ≤ n → Answers m u → Answers n u
Answers-le m n (value v p) le a = omega arith
Answers-le m n (bad p) le a = omega arith
Answers-le m n out_of_fuel le a = a

follow-Answers :
    (b : Bytes) (c : ℕ) (r : Bytes) (x : Round) (onward : ℕ → Bool → Unbound)
    → Advances x
    → ((n : ℕ) (e : Bool) → 0 < n → Answers (suc (length r)) (onward n e))
    → Answers (suc (length r)) (follow (record { before = b; rest = c ∷ r }) x onward)
follow-Answers b c r stop onward a h = omega arith
follow-Answers b c r wrong onward a h = omega arith
follow-Answers b c r (emit o n e) onward a h =
    prepend-Answers (suc (length r)) o (onward n e) (h n e a)

unbind_loop-Answers :
    (fuel till : ℕ) (start e : Bool) (b r : Bytes)
    → length r < fuel
    → Answers (length r) (unbind_loop fuel till start e (record { before = b; rest = r }))
unfolding unbind_loop
unbind_loop-Answers zero till start e b r lt = absurd (omega arith)
unbind_loop-Answers (suc fuel) till start e b [] lt = omega arith
unbind_loop-Answers (suc fuel) till start e b (c ∷ r) lt =
    follow-Answers b c r (round till start e b c r)
      (λ n e'. unbind_loop fuel till false e' (advance_over n b (c ∷ r)))
      (round-Advances till start e b c r)
      (λ n e' pos.
        let p = advance_over n b (c ∷ r) in
        let short : length p.rest ≤ length r = length-advance_cons n b c r pos in
        Answers-le (length p.rest) (suc (length r)) (unbind_loop fuel till false e' p) (omega arith)
          (unbind_loop-Answers fuel till false e' p.before p.rest (omega arith)))

-- Reading a value ends.
pub unbind_value_uri_at_till-Answers :
    (till : ℕ) (p : Place) → Answers (length p.rest) (unbind_value_uri_at_till till p)
unfolding unbind_value_uri_at_till
unbind_value_uri_at_till-Answers till p = go p.before p.rest
  where
    go :
        (b r : Bytes)
        → Answers (length r) (unbind_value_uri_at_till till (record { before = b; rest = r }))
    go b [] = omega arith
    go b (c ∷ r) = elim (Bool-cases (c == till)) [
      | inl k ↦ rw k (omega arith)
      | inr k ↦ elim (Bool-cases (c == b'-')) [
        | inl h ↦ rw (k, h) (omega arith)
        | inr h ↦
            rw (k, h)
              (unbind_loop-Answers (length (c ∷ r) + 1) till true false b (c ∷ r) (omega arith))
      ]
    ]
