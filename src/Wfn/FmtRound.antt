-- ===== src/Wfn/FmtRound.antt =====
-- wfn/fsb.go: a name that is written as a formatted string is read back.
use nvdtools.Prelude.{
  ℕ, Bool, true, false, not, ◌&&◌, ◌||◌, List, [], ◌∷◌, ◌++◌, Bytes, ◌==◌, is_empty, ◌≡◌, refl, sym,
  arith, Bool-cases, ◌⊎◌, inl, inr, ap, ◌∙◌, append-nil, All, map, join, length, tail,
  strip_prefix-append, text_eq,
}
use nvdtools.Wfn.Attributes.{Attributes, any, na, new_attributes}
use nvdtools.Wfn.Wildcard.{backslash}
use nvdtools.Wfn.Slashes.{passes_unquoted, strip_slashes}
use nvdtools.Wfn.Fragment.{
  read, failed, passes_plain, at_end, add_slashes, bind_value_fs, unbind_value_fs,
}
use nvdtools.Wfn.FmtString.{
  values, setters, fsb_prefix, bind_to_fmt_string, unbind_parts, unbind_after, unbind_fmt_string,
}
use nvdtools.Wfn.Spelled.{
  Token, plain, quoted, wild, spell, write, Legal, strip_slashes-spell, add_slashes-write,
}

-- The spellings that stay apart from others in a formatted string: there is a token; the first one
-- is not a quoted colon; and a single one is neither an asterisk nor a quoted dot or hyphen.
abbrev pub starts_well : List Token → Bool
starts_well [] = false
starts_well (plain c ∷ ts) = true
starts_well (wild c ∷ ts) = not (is_empty ts && c == b'*')
starts_well (quoted c ∷ ts) = not (c == b':' || is_empty ts && passes_unquoted c)

-- ANY, NA, or a spelling.
abbrev pub IsValue : Bytes → Type 0
IsValue v =
    (v ≡ any)
    ⊎ (v ≡ na)
    ⊎ ((ts : List Token) × (v ≡ spell ts) × Legal true ts × (starts_well ts ≡ true))

unbind-any :
    (before : ℕ) (rest : Bytes)
    → at_end rest ≡ true
    → unbind_value_fs before (b'*' ∷ rest) ≡ read (any, rest)
unfolding unbind_value_fs
unbind-any before rest h = rw h

unbind-na :
    (before : ℕ) (rest : Bytes)
    → at_end rest ≡ true
    → unbind_value_fs before (b'-' ∷ rest) ≡ read (na, rest)
unfolding unbind_value_fs
unbind-na before rest h = rw h

unbind-one :
    (before c : ℕ) (rest : Bytes)
    → c == b':' ≡ false
    → c == b'*' || c == b'-' ≡ false
    → at_end rest ≡ true
    → unbind_value_fs before (c ∷ rest) ≡ read (c ∷ [], rest)
unfolding unbind_value_fs
unbind-one before c rest h k e = rw (h, e) (ground arith)

unbind-many :
    (before c : ℕ) (s : Bytes)
    → c == b':' ≡ false
    → at_end s ≡ false
    → unbind_value_fs before (c ∷ s) ≡ add_slashes true before false (c ∷ s)
unfolding unbind_value_fs
unbind-many before c s h e = rw (h, e)

-- What is written for a token does not start with a colon, but for a quoted one.
write-at_end :
    (first : Bool) (t : Token) (ts : List Token) (rest : Bytes)
    → Legal first (t ∷ ts)
    → at_end (write (t ∷ ts) ++ rest) ≡ false
unfolding passes_plain passes_unquoted
write-at_end first (plain c) ts rest (h, _) = ground arith
write-at_end first (quoted c) ts rest h = elim (Bool-cases (passes_unquoted c)) [
  | inl p ↦ rw p (ground arith)
  | inr p ↦ rw p
]
write-at_end first (wild c) ts rest ((h, _), _) = ground arith

unbind-quoted :
    (before c : ℕ) (ts : List Token) (rest : Bytes)
    → Legal false ts
    → starts_well (quoted c ∷ ts) ≡ true
    → unbind_value_fs before (write (quoted c ∷ ts) ++ rest)
      ≡ add_slashes true before false (write (quoted c ∷ ts) ++ rest)
unbind-quoted before c [] rest k w = elim (Bool-cases (passes_unquoted c)) [
  | inl p ↦ absurd (ground arith)
  | inr p ↦ rw p (unbind-many before backslash (c ∷ rest) refl (ground arith))
]
unbind-quoted before c (t ∷ ts) rest k w = elim (Bool-cases (passes_unquoted c)) [
  | inl p ↦ rw p (
      unbind-many before c (write (t ∷ ts) ++ rest) (ground arith) (write-at_end false t ts rest k))
  | inr p ↦ rw p (unbind-many before backslash (c ∷ (write (t ∷ ts) ++ rest)) refl (ground arith))
]

unbind_value_fs-write :
    (before : ℕ) (ts : List Token) (rest : Bytes)
    → Legal true ts
    → starts_well ts ≡ true
    → at_end rest ≡ true
    → unbind_value_fs before (write ts ++ rest) ≡ read (spell ts, rest)
unfolding passes_plain passes_unquoted
unbind_value_fs-write before [] rest h w e = cc
unbind_value_fs-write before (plain c ∷ []) rest (h, _) w e =
    unbind-one before c rest (ground arith) (ground arith) e
unbind_value_fs-write before (wild c ∷ []) rest ((h, _), _) w e =
    unbind-one before c rest (ground arith) (ground arith) e
unbind_value_fs-write before (plain c ∷ t ∷ ts) rest (h, k) w e =
    unbind-many before c (write (t ∷ ts) ++ rest) (ground arith) (write-at_end false t ts rest k)
    ∙ add_slashes-write true before false (plain c ∷ t ∷ ts) rest (h, k) e
unbind_value_fs-write before (wild c ∷ t ∷ ts) rest (h, k) w e =
    unbind-many before c (write (t ∷ ts) ++ rest) (ground (arith, h.0))
      (write-at_end false t ts rest k)
    ∙ add_slashes-write true before false (wild c ∷ t ∷ ts) rest (h, k) e
unbind_value_fs-write before (quoted c ∷ ts) rest (h, k) w e =
    unbind-quoted before c ts rest k w
    ∙ add_slashes-write true before false (quoted c ∷ ts) rest (h, k) e

bind-any : bind_value_fs any ≡ b'*' ∷ []
unfolding bind_value_fs
bind-any = refl

bind-na : bind_value_fs na ≡ b'-' ∷ []
unfolding bind_value_fs
bind-na = refl

bind-other :
    (s : Bytes) → text_eq s any ≡ false → text_eq s na ≡ false → bind_value_fs s ≡ strip_slashes s
unfolding bind_value_fs
bind-other s h k = rw (h, k)

spell-ne-any : (ts : List Token) → starts_well ts ≡ true → text_eq (spell ts) any ≡ false
unfolding text_eq
spell-ne-any [] w = cc
spell-ne-any (plain c ∷ ts) w = refl
spell-ne-any (quoted c ∷ ts) w = refl
spell-ne-any (wild c ∷ ts) w = refl

spell-ne-na : (ts : List Token) → Legal true ts → text_eq (spell ts) na ≡ false
unfolding text_eq passes_plain
spell-ne-na [] l = refl
spell-ne-na (plain c ∷ ts) (h, _) = ground arith
spell-ne-na (quoted c ∷ ts) l = refl
spell-ne-na (wild c ∷ ts) ((h, _), _) = ground arith

unbind_value_fs-bind :
    (before : ℕ) (v rest : Bytes)
    → IsValue v
    → at_end rest ≡ true
    → unbind_value_fs before (bind_value_fs v ++ rest) ≡ read (v, rest)
unbind_value_fs-bind before v rest (inl k) e = rw (k, bind-any) (unbind-any before rest e)
unbind_value_fs-bind before v rest (inr (inl k)) e = rw (k, bind-na) (unbind-na before rest e)
unbind_value_fs-bind before v rest (inr (inr (ts, k, l, w))) e =
    rw
      (
        k,
        bind-other (spell ts) (spell-ne-any ts w) (spell-ne-na ts l),
        strip_slashes-spell true ts l,
      )
      (unbind_value_fs-write before ts rest l w e)

-- The fields that the readers of a formatted string set.
abbrev apply_all : List (Attributes → Bytes → Attributes) → Attributes → List Bytes → Attributes
apply_all (set ∷ sets) a (v ∷ vs) = apply_all sets (set a v) vs
apply_all _ a _ = a

unbind_value_fs-nil : (before : ℕ) → unbind_value_fs before [] ≡ failed
unfolding unbind_value_fs
unbind_value_fs-nil before = refl

unbind_parts-step :
    (set : Attributes → Bytes → Attributes) (sets : List (Attributes → Bytes → Attributes))
    (a : Attributes) (s v rest : Bytes)
    → unbind_value_fs b':' s ≡ read (v, rest)
    → unbind_parts (set ∷ sets) a s ≡ unbind_parts sets (set a v) (tail rest)
unfolding unbind_parts
unbind_parts-step set sets a [] v rest h = cc (h, unbind_value_fs-nil b':')
unbind_parts-step set sets a (c ∷ s) v rest h = rw h

unbind_parts-nil : (a : Attributes) (s : Bytes) → unbind_parts [] a s ≡ read a
unfolding unbind_parts
unbind_parts-nil a s = refl

unbind_parts-join :
    (sets : List (Attributes → Bytes → Attributes)) (a : Attributes) (vs : List Bytes)
    → length sets ≡ length vs
    → All IsValue vs
    → unbind_parts sets a (join b':' (map bind_value_fs vs)) ≡ read (apply_all sets a vs)
unbind_parts-join [] a vs h k = unbind_parts-nil a (join b':' (map bind_value_fs vs))
unbind_parts-join (set ∷ sets) a [] h k = absurd (omega arith)
unbind_parts-join (set ∷ []) a (v ∷ []) h (kv, k) =
    unbind_parts-step set [] a (bind_value_fs v) v []
      (rw (sym (append-nil (bind_value_fs v))) (unbind_value_fs-bind b':' v [] kv refl))
    ∙ unbind_parts-nil (set a v) []
unbind_parts-join (set ∷ set' ∷ sets) a (v ∷ []) h k = absurd (omega arith)
unbind_parts-join (set ∷ sets) a (v ∷ w ∷ vs) h (kv, k) =
    let rest = join b':' (map bind_value_fs (w ∷ vs)) in
    unbind_parts-step set sets a (bind_value_fs v ++ b':' ∷ rest) v (b':' ∷ rest)
      (unbind_value_fs-bind b':' v (b':' ∷ rest) kv refl)
    ∙ unbind_parts-join sets (set a v) (w ∷ vs) (omega arith) k

-- A name whose values are ANY, NA or spellings that stay apart in a formatted string is read back
-- from its formatted string.
pub unbind_fmt_string-bind :
    (a : Attributes) → All IsValue (values a) → unbind_fmt_string (bind_to_fmt_string a) ≡ read a
unfolding unbind_fmt_string bind_to_fmt_string
unbind_fmt_string-bind a h =
    ap unbind_after (strip_prefix-append fsb_prefix (join b':' (map bind_value_fs (values a))))
    ∙ unbind_parts-join setters (new_attributes any) (values a) refl h
