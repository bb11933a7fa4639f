-- ===== src/Wfn/UriRound.antt =====
-- wfn/uri.go: what becomes of a value that is bound to a part of a URI and read again.
use nvdtools.Prelude.{
  ℕ, zero, suc, ◌/◌, ◌%◌, ◌<◌, Bool, true, false, not, ◌&&◌, ◌||◌, some, List, [], ◌∷◌, ◌++◌, Bytes,
  ◌==◌, is_empty, if◌then◌else◌, length, codes, ◌≡◌, refl, arith, Bool-cases, inl, inr,
}
use nvdtools.Wfn.Spelled.{Token, plain, quoted, wild, spell}
use nvdtools.Wfn.Uri.{
  is_coded, pct_encode, is_plain, hex_digit, hex_value, parse_int, value, emit, round, at_end,
  unbind_loop, wildcard_here,
}

-- Where a token may stand: letters, digits and the underscore are plain, the punctuation with a code,
-- the dot and, but in the first place, the hyphen are quoted, and a wildcard is first or last.
abbrev pub Fits : Bool → Token → List Token → Type 0
Fits first (plain c) ts = is_plain c ≡ true
Fits first (quoted c) ts = (is_coded c || c == b'.' || (c == b'-' && not first)) ≡ true
Fits first (wild c) ts = ((c == b'*' || c == b'?') ≡ true) × ((first || is_empty ts) ≡ true)

abbrev pub Legal : Bool → List Token → Type 0
Legal first [] = Unit
Legal first (t ∷ ts) = Fits first t ts × Legal false ts

-- A token in a URI.
abbrev pub token_code : Token → Bytes
token_code (plain c) = c ∷ []
token_code (quoted c) = pct_encode c
token_code (wild c) = if c == b'?' then codes "%01" else codes "%02"

abbrev pub write : List Token → Bytes
write [] = []
write (t ∷ ts) = token_code t ++ write ts

hex_value-hex_digit : (n : ℕ) → n < 16 → hex_value (hex_digit n) ≡ some n
hex_value-hex_digit n l = ground arith

parse_int-pct_encode :
    (c : ℕ) → is_coded c ≡ true → parse_int (hex_digit (c / 16)) (hex_digit (c % 16)) ≡ some c
unfolding parse_int is_coded
parse_int-pct_encode c h =
    let small : c < 128 = ground arith in
    let no_plus : (hex_digit (c / 16) == b'+') ≡ false = ground arith in
    rw
      (
        no_plus,
        hex_value-hex_digit (c / 16) (omega arith),
        hex_value-hex_digit (c % 16) (omega arith),
      )
      (ground arith)

pub coded_large : (c : ℕ) → is_coded c ≡ true → ((c == 1) || (c == 2)) ≡ false
unfolding is_coded
coded_large c h = ground arith

wildcard_allowed :
    (till : ℕ) (start e : Bool) (b code r : Bytes)
    → (start || at_end till r) ≡ true
    → wildcard_here till start e b code r ≡ true
wildcard_allowed till true e b code r w = refl
wildcard_allowed till false e b code r w = rw w refl

-- The rounds of the loop at each kind of token.
module _ (till : ℕ) (ends : ((till == b':') || (till == b'~')) ≡ true) (start e : Bool)
    (b : Bytes) where
  round-plain :
      (c : ℕ) (r : Bytes) → is_plain c ≡ true → round till start e b c r ≡ emit (c ∷ []) 1 true
  unfolding round is_plain
  round-plain c r h = ground arith

  round-bare :
      (c : ℕ) (r : Bytes)
      → ((c == b'.') || (c == b'-')) ≡ true
      → round till start e b c r ≡ emit (b'\\' ∷ c ∷ []) 1 true
  unfolding round
  round-bare c r h = ground arith

  round-coded :
      (c : ℕ) (r : Bytes)
      → is_coded c ≡ true
      → round till start e b b'%' (hex_digit (c / 16) ∷ hex_digit (c % 16) ∷ r)
        ≡ emit (b'\\' ∷ c ∷ []) 3 true
  unfolding round
  round-coded c r h =
      let no_end : (b'%' == till) ≡ false = ground arith in
      let no_wild : ((c == 1) || (c == 2)) ≡ false = coded_large c h in
      rw (no_end, parse_int-pct_encode c h, no_wild, h) refl

  -- The codes of the wildcards.
  round-one :
      (r : Bytes)
      → (start || at_end till r) ≡ true
      → round till start e b b'%' (b'0' ∷ b'1' ∷ r) ≡ emit (b'?' ∷ []) 3 e
  unfolding round parse_int
  round-one r w =
      let no_end : (b'%' == till) ≡ false = ground arith in
      rw (no_end, wildcard_allowed till start e b (codes "%01") r w) refl

  round-two :
      (r : Bytes)
      → (start || at_end till r) ≡ true
      → round till start e b b'%' (b'0' ∷ b'2' ∷ r) ≡ emit (b'*' ∷ []) 3 e
  unfolding round parse_int
  round-two r w =
      let no_end : (b'%' == till) ≡ false = ground arith in
      rw (no_end, wildcard_allowed till start e b (codes "%02") r w) refl

pub pct_encode-coded :
    (c : ℕ) → is_coded c ≡ true → pct_encode c ≡ b'%' ∷ hex_digit (c / 16) ∷ hex_digit (c % 16) ∷ []
unfolding pct_encode
pct_encode-coded c h = rw h refl

pub pct_encode-bare : (c : ℕ) → is_coded c ≡ false → pct_encode c ≡ c ∷ []
unfolding pct_encode
pct_encode-bare c h = rw h refl

-- What the loop returns where a value stands before the end of its part.
abbrev pub Reads : ℕ → ℕ → Bool → Bool → Bytes → List Token → Bytes → Type 0
Reads fuel till start e b ts tail =
    (b' : Bytes) × (unbind_loop fuel till start e (record { before = b; rest = write ts ++ tail })
      ≡ value (spell ts) (record { before = b'; rest = tail }))

loop-stops :
    (fuel till : ℕ) (start e : Bool) (b tail : Bytes)
    → at_end till tail ≡ true
    → unbind_loop (suc fuel) till start e (record { before = b; rest = tail })
      ≡ value [] (record { before = b; rest = tail })
unfolding unbind_loop round
loop-stops fuel till start e b [] h = refl
loop-stops fuel till start e b (c ∷ tail) h = rw h refl

first_or_last :
    (start : Bool) (ts : List Token) (tail : Bytes) (till : ℕ)
    → (start || is_empty ts) ≡ true
    → at_end till tail ≡ true
    → (start || at_end till (write ts ++ tail)) ≡ true
first_or_last true ts tail till g h = refl
first_or_last false [] tail till g h = h
first_or_last false (t ∷ ts) tail till g h = cc

module _ (till : ℕ) (ends : ((till == b':') || (till == b'~')) ≡ true) (start e : Bool) (b : Bytes)
    (c : ℕ) (ts : List Token) (fuel : ℕ) (tail : Bytes) where
  coded-Reads :
      is_coded c ≡ true
      → Reads fuel till false true (hex_digit (c % 16) ∷ hex_digit (c / 16) ∷ b'%' ∷ b) ts tail
      → Reads (suc fuel) till start e b (quoted c ∷ ts) tail
  unfolding unbind_loop
  coded-Reads k (b', q) = (
    b',
    rw (pct_encode-coded c k, round-coded till ends start e b c (write ts ++ tail) k, q) refl,
  )

  bare-Reads :
      is_coded c ≡ false
      → ((c == b'.') || (c == b'-')) ≡ true
      → Reads fuel till false true (c ∷ b) ts tail
      → Reads (suc fuel) till start e b (quoted c ∷ ts) tail
  unfolding unbind_loop
  bare-Reads k bare (b', q) = (
    b',
    rw (pct_encode-bare c k, round-bare till ends start e b c (write ts ++ tail) bare, q) refl,
  )

pub loop-Reads :
    (ts : List Token) (fuel till : ℕ) (start e : Bool) (b tail : Bytes)
    → ((till == b':') || (till == b'~')) ≡ true
    → at_end till tail ≡ true
    → Legal start ts
    → length (write ts ++ tail) < fuel
    → Reads fuel till start e b ts tail
unfolding unbind_loop
loop-Reads ts zero till start e b tail ends h l lt = absurd (omega arith)
loop-Reads [] (suc fuel) till start e b tail ends h l lt =
    (b, loop-stops fuel till start e b tail h)
loop-Reads (plain c ∷ ts) (suc fuel) till start e b tail ends h (f, l) lt =
    let (b', q) = loop-Reads ts fuel till false true (c ∷ b) tail ends h l (omega arith) in
    (b', rw (round-plain till ends start e b c (write ts ++ tail) f, q) refl)
loop-Reads (quoted c ∷ ts) (suc fuel) till start e b tail ends h (f, l) lt =
    elim (Bool-cases (is_coded c)) [
      | inl k ↦
          let short : suc (suc (suc (length (write ts ++ tail)))) < suc fuel =
            rw (pct_encode-coded c k) at lt in
          coded-Reads till ends start e b c ts fuel tail k (
            loop-Reads ts fuel till false true (hex_digit (c % 16) ∷ hex_digit (c / 16) ∷ b'%' ∷ b)
              tail ends h l (omega arith))
      | inr k ↦
          let short : suc (length (write ts ++ tail)) < suc fuel = rw (pct_encode-bare c k) at lt in
          let bare : ((c == b'.') || (c == b'-')) ≡ true = ground arith in
          bare-Reads till ends start e b c ts fuel tail k bare
            (loop-Reads ts fuel till false true (c ∷ b) tail ends h l (omega arith))
    ]
loop-Reads (wild c ∷ ts) (suc fuel) till start e b tail ends h ((f, g), l) lt =
    elim (Bool-cases (c == b'?')) [
      | inl k ↦
          let short : suc (suc (suc (length (write ts ++ tail)))) < suc fuel = rw k at lt in
          let (b', q) =
            loop-Reads ts fuel till false e (b'1' ∷ b'0' ∷ b'%' ∷ b) tail ends h l (omega arith) in
          let same : c ≡ b'?' = ground arith in
          (
            b',
            rw
                (
                  k,
                  round-one till ends start e b (write ts ++ tail)
                      (first_or_last start ts tail till g h),
                  q,
                  same,
                )
                refl,
          )
      | inr k ↦
          let short : suc (suc (suc (length (write ts ++ tail)))) < suc fuel = rw k at lt in
          let (b', q) =
            loop-Reads ts fuel till false e (b'2' ∷ b'0' ∷ b'%' ∷ b) tail ends h l (omega arith) in
          let same : c ≡ b'*' = ground arith in
          (
            b',
            rw
                (
                  k,
                  round-two till ends start e b (write ts ++ tail)
                      (first_or_last start ts tail till g h),
                  q,
                  same,
                )
                refl,
          )
    ]
