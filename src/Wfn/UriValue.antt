-- ===== src/Wfn/UriValue.antt =====
-- wfn/uri.go: a value that is bound and read again is the same, and reading ends on every text.
use nvdtools.Prelude.{
  ℕ, ◌+◌, ◌/◌, ◌%◌, Bool, true, false, ◌||◌, List, [], ◌∷◌, ◌++◌, Bytes, ◌==◌, if◌then◌else◌,
  length, text_eq, codes, ◌≡◌, refl, ap, ◌∙◌, arith, Bool-cases, inl, inr,
}
use nvdtools.Wfn.Spelled.{Token, plain, quoted, wild, spell}
use nvdtools.Wfn.Uri.{
  hex_digit, is_coded, is_plain, bind_byte, bind_loop, bind_value_uri, value, at_end, unbind_loop,
  unbind_value_uri_at_till,
}
use nvdtools.Wfn.UriRound.{Fits, Legal, write, loop-Reads, pct_encode-coded, pct_encode-bare}

plain_passes : (c : ℕ) → is_plain c ≡ true → (c == b'\\') ≡ false
unfolding is_plain
plain_passes c h = ground arith

wild-bind_byte :
    (c : ℕ)
    → ((c == b'*') || (c == b'?')) ≡ true
    → (c == b'\\' ≡ false) × (bind_byte c ≡ (if c == b'?' then codes "%01" else codes "%02"))
unfolding is_plain
wild-bind_byte c h = ground arith

-- Binding a spelled value writes its tokens.
bind_loop-spell :
    (ts : List Token) (start : Bool) → Legal start ts → bind_loop false (spell ts) ≡ write ts
unfolding bind_loop
bind_loop-spell [] start l = refl
bind_loop-spell (plain c ∷ ts) start (f, l) =
    rw (plain_passes c f, f, bind_loop-spell ts false l) refl
bind_loop-spell (quoted c ∷ ts) start (f, l) = rw (bind_loop-spell ts false l) refl
bind_loop-spell (wild c ∷ ts) start ((f, g), l) =
    let (p, q) = wild-bind_byte c f in rw (p, q, bind_loop-spell ts false l) refl

spell-hyphen : (ts : List Token) → Legal true ts → text_eq (spell ts) (codes "-") ≡ false
unfolding text_eq is_plain
spell-hyphen [] l = refl
spell-hyphen (plain c ∷ ts) (f, l) = ground arith
spell-hyphen (quoted c ∷ ts) (f, l) = refl
spell-hyphen (wild c ∷ ts) ((f, g), l) = ground arith

bind_value_uri-spell : (ts : List Token) → Legal true ts → bind_value_uri (spell ts) ≡ write ts
unfolding bind_value_uri
bind_value_uri-spell ts l = rw (spell-hyphen ts l) (bind_loop-spell ts true l)

-- The first byte of a value in a URI.
abbrev Head : ℕ → Bytes → Type 0
Head till w = (c : ℕ) × (r : Bytes) × (w ≡ c ∷ r) × ((c == till) ≡ false) × ((c == b'-') ≡ false)

write-Head :
    (till : ℕ) (t : Token) (ts : List Token)
    → ((till == b':') || (till == b'~')) ≡ true
    → Fits true t ts
    → Head till (write (t ∷ ts))
unfolding is_plain
write-Head till (plain c) ts ends f = (c, write ts, refl, ground arith, ground arith)
write-Head till (quoted c) ts ends f = elim (Bool-cases (is_coded c)) [
  | inl k ↦ (
    b'%',
    hex_digit (c / 16) ∷ hex_digit (c % 16) ∷ write ts,
    ap (λ w. w ++ write ts) (pct_encode-coded c k),
    ground arith,
    refl,
  )
  | inr k ↦ (c, write ts, rw (pct_encode-bare c k) refl, ground arith, ground arith)
]
write-Head till (wild c) ts ends f = elim (Bool-cases (c == b'?')) [
  | inl k ↦ (b'%', b'0' ∷ b'1' ∷ write ts, rw k refl, ground arith, refl)
  | inr k ↦ (b'%', b'0' ∷ b'2' ∷ write ts, rw k refl, ground arith, refl)
]

starts_loop :
    (till : ℕ) (b w : Bytes)
    → Head till w
    → unbind_value_uri_at_till till (record { before = b; rest = w })
      ≡ unbind_loop (length w + 1) till true false (record { before = b; rest = w })
unfolding unbind_value_uri_at_till
starts_loop till b [] (c, r, e, p, q) = cc
starts_loop till b (d ∷ w) (c, r, e, p, q) = let same : d ≡ c = cc in rw (same, p, q) refl

-- A value of legal tokens, bound in front of the end of its part, is read as it was.
pub unbind_value_uri-bind :
    (ts : List Token) (till : ℕ) (b tail : Bytes)
    → Legal true ts
    → ((till == b':') || (till == b'~')) ≡ true
    → at_end till tail ≡ true
    → (b' : Bytes) × (unbind_value_uri_at_till till
          (record { before = b; rest = bind_value_uri (spell ts) ++ tail })
        ≡ value (spell ts) (record { before = b'; rest = tail }))
unbind_value_uri-bind [] till b tail l ends h =
    (b, rw (bind_value_uri-spell [] tt) (at_once till b tail h))
  where
    at_once :
        (till : ℕ) (b tail : Bytes)
        → at_end till tail ≡ true
        → unbind_value_uri_at_till till (record { before = b; rest = tail })
          ≡ value [] (record { before = b; rest = tail })
    at_once till b [] h = unfold unbind_value_uri_at_till in refl
    at_once till b (c ∷ tail) h = unfold unbind_value_uri_at_till in rw h refl
unbind_value_uri-bind (t ∷ ts) till b tail l ends h =
    let (b', q) =
      loop-Reads (t ∷ ts) (length (write (t ∷ ts) ++ tail) + 1) till true false b tail ends h l
        (omega arith) in
    let (c, r, e, x, y) = write-Head till t ts ends l.0 in
    (
      b',
      rw (bind_value_uri-spell (t ∷ ts) l) (
          starts_loop till b (write (t ∷ ts) ++ tail) (c, r ++ tail, ap (λ w. w ++ tail) e, x, y)
          ∙ q),
    )
