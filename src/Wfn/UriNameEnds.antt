-- ===== src/Wfn/UriNameEnds.antt =====
-- wfn/uri.go: reading a name ends on every text.
use nvdtools.Prelude.{
  ℕ, zero, suc, ◌+◌, ◌<◌, ◌≤◌, Bool, true, false, ◌&&◌, Option, none, some, [], ◌∷◌, Bytes, ◌==◌,
  leb, if◌then◌else◌, length, strip_prefix, codes, ◌≡◌, ◌≢◌, arith, Bool-cases, inl, inr,
}
use nvdtools.Wfn.Attributes.{Attributes, any, new_attributes}
use nvdtools.Wfn.Uri.{
  Place, advance, advance_over, Unbound, value, bad, out_of_fuel, unbind_value_uri_at_till,
}
use nvdtools.Rpm.Parse.{to_lower}
use nvdtools.Wfn.UriName.{
  Progress, at_place, failed, no_fuel, after_part, after_subpart, after_loop, unbind_packed,
  unbind_part, go_on, unbind_parts, unbind_uri_body, after_prefix, unbind_uri, set_subpart,
}
use nvdtools.Wfn.UriEnds.{
  Answers, Answers-le, length-advance_over, unbind_value_uri_at_till-Answers,
}

-- The same for a part and for all of them.
abbrev Reached : ℕ → Progress → Type 0
Reached n (at_place a p) = length p.rest ≤ n
Reached n failed = Unit
Reached n no_fuel = ⊥

after_loop-Reached :
    (err : Bool) (a : Attributes) (p : Place) (n : ℕ)
    → length p.rest ≤ n
    → Reached n (after_loop err a p)
after_loop-Reached true a p n le = tt
after_loop-Reached false a p n le = le

after_subpart-Reached :
    (m n : ℕ) (a : Attributes) (u : Unbound) (onward : Bool → Attributes → Place → Progress)
    → Answers n u
    → ((e : Bool) (a' : Attributes) (p : Place) → length p.rest ≤ n → Reached n (onward e a' p))
    → Reached n (after_subpart m a u onward)
after_subpart-Reached m n a (value v p) onward h k =
    k false (set_subpart m v a) (advance 1 p)
      (omega (arith, h, length-advance_over 1 p.before p.rest))
after_subpart-Reached m n a (bad p) onward h k =
    k true (set_subpart m [] a) (advance 1 p)
      (omega (arith, h, length-advance_over 1 p.before p.rest))
after_subpart-Reached m n a out_of_fuel onward h k = h

packed_on :
    (fuel m n : ℕ) (err : Bool) (a : Attributes) (b : Bytes) (c : ℕ) (r : Bytes)
    → length (c ∷ r) ≤ n
    → ((e : Bool) (a' : Attributes) (p : Place)
        → leb 5 m ≡ false
        → length p.rest ≤ n
        → Reached n (unbind_packed fuel (m + 1) e a' p))
    → Reached n (unbind_packed (suc fuel) m err a (record { before = b; rest = c ∷ r }))
unfolding unbind_packed
packed_on fuel m n err a b c r le k = elim (Bool-cases (leb 5 m)) [
  | inl h ↦ rw h (after_loop-Reached err a (record { before = b; rest = c ∷ r }) n le)
  | inr h ↦
      let p : Place = record { before = b; rest = c ∷ r } in
      let till = if m == 4 then b':' else b'~' in
      rw h (
        after_subpart-Reached m n a (unbind_value_uri_at_till till p)
          (λ e a' p'. unbind_packed fuel (m + 1) e a' p')
          (Answers-le (length (c ∷ r)) n (unbind_value_uri_at_till till p) le
            (unbind_value_uri_at_till-Answers till p))
          (λ e a' p' l. k e a' p' h l))
]

-- Six rounds are enough for the five values of a packed edition.
unbind_packed-Reached :
    (fuel m n : ℕ) (err : Bool) (a : Attributes) (b r : Bytes)
    → 6 ≤ fuel + m
    → 0 < fuel
    → length r ≤ n
    → Reached n (unbind_packed fuel m err a (record { before = b; rest = r }))
unfolding unbind_packed
unbind_packed-Reached zero m n err a b r room pos le = absurd (omega arith)
unbind_packed-Reached (suc fuel) m n err a b [] room pos le =
    after_loop-Reached err a (record { before = b; rest = [] }) n le
unbind_packed-Reached (suc fuel) m n err a b (c ∷ r) room pos le =
    packed_on fuel m n err a b c r le (λ e a' p h l.
      let small : m < 5 = ground arith in
      unbind_packed-Reached fuel (m + 1) n e a' p.before p.rest (omega arith) (omega arith) l)

after_part-Reached :
    (n m : ℕ) (a : Attributes) (u : Unbound) → Answers n u → Reached n (after_part m a u)
after_part-Reached n m a (value v p) h = h
after_part-Reached n m a (bad p) h = tt
after_part-Reached n m a out_of_fuel h = h

unbind_part-Reached :
    (m : ℕ) (a : Attributes) (b : Bytes) (c : ℕ) (r : Bytes)
    → Reached (length (c ∷ r)) (unbind_part m a (record { before = b; rest = c ∷ r }) c)
unfolding unbind_part
unbind_part-Reached m a b c r = elim (Bool-cases (leb 7 m)) [
  | inl h ↦ rw h (omega arith)
  | inr h ↦ elim (Bool-cases ((m == 5) && (c == b'~'))) [
    | inl k ↦
        rw (h, k)
          (unbind_packed-Reached 6 0 (length (c ∷ r)) false a (c ∷ b) r (omega arith) (omega arith)
            (omega arith))
    | inr k ↦
        let p : Place = record { before = b; rest = c ∷ r } in
        rw (h, k)
          (after_part-Reached (length (c ∷ r)) m a (unbind_value_uri_at_till b':' p)
            (unbind_value_uri_at_till-Answers b':' p))
  ]
]

go_on-Reached :
    (x : Progress) (n : ℕ) (onward : Attributes → Place → Progress)
    → Reached n x
    → ((a : Attributes) (p : Place) → length p.rest ≤ n → onward a p ≢ no_fuel)
    → go_on x onward ≢ no_fuel
go_on-Reached (at_place a p) n onward h k = k a p h
go_on-Reached failed n onward h k = λ e. cc
go_on-Reached no_fuel n onward h k = absurd h

unbind_parts-ends :
    (fuel m : ℕ) (a : Attributes) (b r : Bytes)
    → length r < fuel
    → unbind_parts fuel m a (record { before = b; rest = r }) ≢ no_fuel
unfolding unbind_parts
unbind_parts-ends zero m a b r lt = absurd (omega arith)
unbind_parts-ends (suc fuel) m a b [] lt = λ e. cc
unbind_parts-ends (suc fuel) m a b (c ∷ r) lt =
    go_on-Reached (unbind_part m a (record { before = b; rest = c ∷ r }) c) (length (c ∷ r))
      (λ a' p'. unbind_parts fuel (m + 1) a' (advance 1 p')) (unbind_part-Reached m a b c r)
      (λ a' p' l.
        next a' p'.before p'.rest l (λ b' r' s. unbind_parts-ends fuel (m + 1) a' b' r' s))
  where
    next :
        (a' : Attributes) (b' r' : Bytes)
        → length r' ≤ length (c ∷ r)
        → ((b'' r'' : Bytes)
            → length r'' < fuel
            → unbind_parts fuel (m + 1) a' (record { before = b''; rest = r'' }) ≢ no_fuel)
        → unbind_parts fuel (m + 1) a' (advance_over 1 b' r') ≢ no_fuel
    next a' b' [] l k = k b' [] (omega arith)
    next a' b' (d ∷ r') l k = k (d ∷ b') r' (omega arith)

unbind_uri_body-ends : (s : Bytes) → unbind_uri_body s ≢ no_fuel
unfolding unbind_uri_body
unbind_uri_body-ends s = unbind_parts-ends (length s + 1) 0 (new_attributes any) [] s (omega arith)

-- Reading a name from a URI ends, with a name or an error, on every text.
pub unbind_uri-ends : (s : Bytes) → unbind_uri s ≢ no_fuel
unfolding unbind_uri
unbind_uri-ends s = after (strip_prefix (codes "cpe:/") s)
  where
    after : (o : Option Bytes) → after_prefix o ≢ no_fuel
    after none = λ e. cc
    after (some t) = unbind_uri_body-ends (to_lower t)
