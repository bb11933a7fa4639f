-- ===== src/Wfn/Fragment.antt =====
-- wfn/fsb.go: one value of a formatted string, written and read.
--
-- A position in the string is the text that is left from there on. `unicode.IsLetter` and `IsDigit`
-- are given on ASCII.
use nvdtools.Prelude.{
  ℕ, Bool, true, false, not, ◌&&◌, ◌||◌, [], ◌∷◌, Bytes, codes, ◌==◌, leb, if◌then◌else◌, ◌≡◌, refl,
  text_eq,
}
use nvdtools.Wfn.Attributes.{any, na}
use nvdtools.Wfn.Wildcard.{backslash}
use nvdtools.Wfn.Slashes.{strip_slashes}

-- The results of the readers: an error carries a message only, and an index past the end panics.
pub data Reading {ℓ} (A : Type ℓ) : Type ℓ where
  read : A → Reading A
  failed panicked : Reading A

infixl 5 ◌>>=◌
abbrev pub ◌>>=◌ {ℓ κ} : {A : Type ℓ} {B : Type κ} → Reading A → (A → Reading B) → Reading B
read a >>= f = f a
failed >>= f = failed
panicked >>= f = panicked

unfoldable pub bind_value_fs : Bytes → Bytes
unfolding strip_slashes text_eq
bind_value_fs s =
    if text_eq s any then codes "*" else if text_eq s na then codes "-" else strip_slashes s

unfoldable pub passes_plain : ℕ → Bool
passes_plain c =
    leb b'A' c && leb c b'Z' || leb b'a' c && leb c b'z' || leb b'0' c && leb c b'9' || c == b'_'

-- Whether a value ends here.
abbrev pub at_end : Bytes → Bool
at_end [] = true
at_end (c ∷ s) = c == b':'

abbrev pub starts_with : ℕ → Bytes → Bool
starts_with c [] = false
starts_with c (d ∷ s) = d == c

-- What `addSlashesAt` does with a byte `c` before `s`: it ends the value, keeps the byte, keeps it
-- with the byte behind it, keeps it as a question mark, puts a backslash before it, or fails.
pub data Action : Type 0 where
  stop keep keep_two keep_mark slash fail : Action

-- `first` says that the value starts here, `before` is the byte in front, and `embedded` the flag.
unfoldable pub action : Bool → ℕ → Bool → ℕ → Bytes → Action
unfolding passes_plain
action first before embedded c s =
    if c == b':'
    then stop
    else if passes_plain c
    then keep
    else if c == backslash
    then keep_two
    else if c == b'*'
    then (if not first && not (at_end s) then fail else keep)
    else if c == b'?'
    then (if first || at_end s || (not embedded && before == c || embedded && starts_with c s)
        then keep_mark
        else fail)
    else slash

abbrev pub put : ℕ → Reading (Bytes × Bytes) → Reading (Bytes × Bytes)
put c (read (v, rest)) = read (c ∷ v, rest)
put c failed = failed
put c panicked = panicked

-- `addSlashesAt`: the value, and the text from its end on.
unfoldable pub add_slashes : Bool → ℕ → Bool → Bytes → Reading (Bytes × Bytes)
unfolding action
add_slashes first before embedded [] = read ([], [])
add_slashes first before embedded (c ∷ []) = elim (action first before embedded c []) [
  | stop ↦ read ([], c ∷ [])
  | keep ↦ read (c ∷ [], [])
  | keep_two ↦ panicked
  | keep_mark ↦ read (c ∷ [], [])
  | slash ↦ read (backslash ∷ c ∷ [], [])
  | fail ↦ failed
]
add_slashes first before embedded (c ∷ d ∷ s) = elim (action first before embedded c (d ∷ s)) [
  | stop ↦ read ([], c ∷ d ∷ s)
  | keep ↦ put c (add_slashes false c true (d ∷ s))
  | keep_two ↦ put c (put d (add_slashes false d true s))
  | keep_mark ↦ put c (add_slashes false c false (d ∷ s))
  | slash ↦ put backslash (put c (add_slashes false c true (d ∷ s)))
  | fail ↦ failed
]

-- A value of one byte.
abbrev pub single : ℕ → Bytes
single c = if c == b'*' then any else if c == b'-' then na else c ∷ []

-- `unbindValueFSAt`, behind the byte `before`
unfoldable pub unbind_value_fs : ℕ → Bytes → Reading (Bytes × Bytes)
unfolding add_slashes
unbind_value_fs before [] = failed
unbind_value_fs before (c ∷ s) =
    if c == b':'
    then failed
    else if at_end s
    then read (single c, s)
    else add_slashes true before false (c ∷ s)

wildcards_and_dots :
    unbind_value_fs b':' (codes "*1.2-x?:rest") ≡ read (codes "*1\\.2\\-x?", codes ":rest")
unfolding unbind_value_fs
wildcards_and_dots = refl
