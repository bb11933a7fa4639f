-- ===== src/Wfn/Uri.antt =====
-- wfn/uri.go: binding the values of a name to the parts of a URI, and reading them.
--
-- A place in a text is what stands before it, last byte first, and the rest. `i + 1` past the end stays
-- at the end, where the loops stop too. The loops that read run on fuel.
use nvdtools.Prelude.{
  ℕ, zero, suc, ◌+◌, ◌-◌, ◌*◌, ◌/◌, ◌%◌, Bool, true, false, not, ◌&&◌, ◌||◌, Option, none, some, [],
  ◌∷◌, ◌++◌, Bytes, ◌==◌, leb, ltb, if◌then◌else◌, length, text_eq, codes, ◌≡◌, refl,
}

abbrev pub hex_digit : ℕ → ℕ
hex_digit n = if ltb n 10 then n + b'0' else n - 10 + b'a'

-- The punctuation that is written by its code, in the order of `pctEncode`.
unfoldable pub is_coded : ℕ → Bool
is_coded c =
    (leb 33 c && leb c 44)
    || (c == 47)
    || (leb 58 c && leb c 64)
    || (leb 91 c && leb c 94)
    || (c == 96)
    || (leb 123 c && leb c 126)

unfoldable pub pct_encode : ℕ → Bytes
unfolding is_coded
pct_encode b = if is_coded b then b'%' ∷ hex_digit (b / 16) ∷ hex_digit (b % 16) ∷ [] else b ∷ []

unfoldable pub is_plain : ℕ → Bool
is_plain b =
    (leb b'0' b && leb b b'9')
    || (leb b'a' b && leb b b'z')
    || (leb b'A' b && leb b b'Z')
    || (b == b'_')

-- A byte that no backslash stands before.
abbrev pub bind_byte : ℕ → Bytes
bind_byte b =
    if is_plain b
    then b ∷ []
    else if b == b'?'
    then codes "%01"
    else if b == b'*'
    then codes "%02"
    else []

-- The loop of `bindValueURI`, with whether a backslash was just read.
unfoldable pub bind_loop : Bool → Bytes → Bytes
unfolding is_plain pct_encode
bind_loop quoted [] = []
bind_loop quoted (c ∷ s) =
    let rest = bind_loop (not quoted && (c == b'\\')) s in
    if quoted then pct_encode c ++ rest else if c == b'\\' then rest else bind_byte c ++ rest

-- `bindValueURI`
unfoldable pub bind_value_uri : Bytes → Bytes
unfolding bind_loop text_eq
bind_value_uri s = if text_eq s (codes "-") then codes "-" else bind_loop false s

pub record Place : Type 0 where
  pub before : Bytes
  pub rest : Bytes

abbrev pub advance_over : ℕ → Bytes → Bytes → Place
advance_over zero b r = record { before = b; rest = r }
advance_over (suc n) b [] = record { before = b; rest = [] }
advance_over (suc n) b (c ∷ r) = advance_over n (c ∷ b) r

abbrev pub advance : ℕ → Place → Place
advance n p = advance_over n p.before p.rest

pub data Unbound : Type 0 where
  value : Bytes → Place → Unbound
  bad : Place → Unbound
  out_of_fuel : Unbound

-- What a round of the loop does: it ends, fails, or writes some bytes and goes on.
pub data Round : Type 0 where
  stop wrong : Round
  emit : Bytes → ℕ → Bool → Round

abbrev pub hex_value : ℕ → Option ℕ
hex_value c =
    if leb b'0' c && leb c b'9'
    then some (c - b'0')
    else if leb b'a' c && leb c b'f'
    then some (c - b'a' + 10)
    else if leb b'A' c && leb c b'F'
    then some (c - b'A' + 10)
    else none

abbrev pub two_digits : Option ℕ → Option ℕ → Option ℕ
two_digits (some h) (some l) = if leb (h * 16 + l) 127 then some (h * 16 + l) else none
two_digits (some h) none = none
two_digits none l = none

-- `strconv.ParseInt` of two bytes with base 16 and 8 bits. A negative number, which the switch that
-- follows refuses, is `none` too.
unfoldable pub parse_int : ℕ → ℕ → Option ℕ
parse_int c d = if c == b'+' then hex_value d else two_digits (hex_value c) (hex_value d)

-- Whether a text starts with a code that is followed by something.
abbrev pub repeated : Bytes → Bytes → Bool
repeated code [] = false
repeated code (a ∷ []) = false
repeated code (a ∷ b ∷ []) = false
repeated code (a ∷ b ∷ c ∷ []) = false
repeated code (a ∷ b ∷ c ∷ d ∷ r) = text_eq (a ∷ b ∷ c ∷ []) code

abbrev pub preceded : Bytes → Bytes → Bool
preceded code [] = false
preceded code (c ∷ []) = false
preceded code (c ∷ b ∷ []) = false
preceded code (c ∷ b ∷ a ∷ r) = text_eq (a ∷ b ∷ c ∷ []) code

abbrev pub at_end : ℕ → Bytes → Bool
at_end till [] = true
at_end till (c ∷ r) = c == till

-- Where a wildcard may stand.
abbrev pub wildcard_here : ℕ → Bool → Bool → Bytes → Bytes → Bytes → Bool
wildcard_here till start embedded before code rest =
    start
    || at_end till rest
    || (not embedded && preceded code before)
    || (embedded && repeated code rest)

abbrev pub on_code : ℕ → Bool → Bool → Bytes → Bytes → Bytes → Option ℕ → Round
on_code till start embedded before code rest none = wrong
on_code till start embedded before code rest (some n) =
    if (n == 1) || (n == 2)
    then (if wildcard_here till start embedded before code rest
        then emit ((if n == 1 then b'?' else b'*') ∷ []) 3 embedded
        else wrong)
    else if is_coded n
    then emit (b'\\' ∷ n ∷ []) 3 true
    else wrong

abbrev pub percent : ℕ → Bool → Bool → Bytes → Bytes → Round
percent till start embedded before [] = wrong
percent till start embedded before (c ∷ []) = wrong
percent till start embedded before (c ∷ d ∷ rest) =
    on_code till start embedded before (b'%' ∷ c ∷ d ∷ []) rest (parse_int c d)

unfoldable pub round : ℕ → Bool → Bool → Bytes → ℕ → Bytes → Round
unfolding parse_int is_coded text_eq
round till start embedded before c rest =
    if c == till
    then stop
    else if c == b'%'
    then percent till start embedded before rest
    else if (c == b'.') || (c == b'-') || (c == b'~')
    then emit (b'\\' ∷ c ∷ []) 1 true
    else emit (c ∷ []) 1 true

abbrev pub prepend : Bytes → Unbound → Unbound
prepend o (value v p) = value (o ++ v) p
prepend o (bad p) = bad p
prepend o out_of_fuel = out_of_fuel

abbrev pub follow : Place → Round → (ℕ → Bool → Unbound) → Unbound
follow p stop onward = value [] p
follow p wrong onward = bad p
follow p (emit o n e) onward = prepend o (onward n e)

abbrev pub at_rest : Place → Bytes → (ℕ → Bytes → Unbound) → Unbound
at_rest p [] onward = value [] p
at_rest p (c ∷ r) onward = onward c r

unfoldable pub unbind_loop : ℕ → ℕ → Bool → Bool → Place → Unbound
unfolding round
unbind_loop zero till start embedded p = out_of_fuel
unbind_loop (suc fuel) till start embedded p = at_rest p p.rest (λ c r.
    follow p (round till start embedded p.before c r)
      (λ n e. unbind_loop fuel till false e (advance n p)))

-- `unbindValueURIAtTill`
unfoldable pub unbind_value_uri_at_till : ℕ → Place → Unbound
unfolding unbind_loop
unbind_value_uri_at_till till p = at_rest p p.rest (λ c r.
    if c == till
    then value [] p
    else if c == b'-'
    then value (codes "-") (advance 1 p)
    else unbind_loop (length p.rest + 1) till true false p)

-- A value with a wildcard at each end.
encoded : bind_value_uri (codes "*foo\\!bar?") ≡ codes "%02foo%21bar%01"
unfolding bind_value_uri
encoded = refl

decoded :
    unbind_value_uri_at_till b':' (record { before = []; rest = codes "%02foo%21bar%01:x" })
    ≡ value (codes "*foo\\!bar?") (record { before = codes "10%rab12%oof20%"; rest = codes ":x" })
unfolding unbind_value_uri_at_till
decoded = refl

-- Two wildcards at the end are refused if the text ends there.
two_at_end :
    unbind_value_uri_at_till b':' (record { before = []; rest = codes "foo%01%01" })
    ≡ bad (record { before = codes "oof"; rest = codes "%01%01" })
unfolding unbind_value_uri_at_till
two_at_end = refl
