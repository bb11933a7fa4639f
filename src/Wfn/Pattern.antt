-- ===== src/Wfn/Pattern.antt =====
-- What it means for a text to match a source value with wildcards, with no search order in it.
use nvdtools.Prelude.{ℕ, Bool, true, false, [], ◌∷◌, Bytes, ◌≡◌, ◌≢◌, ◌⊎◌}
use nvdtools.Wfn.Wildcard.{backslash, is_wildcard}
use nvdtools.Wfn.Strings.{next_escape}

-- `Matches escaped s t`: the source `s` matches the text `t`, where `escaped` says that the byte
-- before `s` is an open backslash. An unescaped asterisk stands for any bytes, an unescaped question
-- mark for one byte; any other byte, a backslash included, stands for itself.
pub data Matches : Bool → Bytes → Bytes → Type 0 where
  done : {e : Bool} → Matches e [] []
  leave :
      {e : Bool} {c : ℕ} {s t : Bytes} → e ≡ false → c ≡ b'*' → Matches e s t → Matches e (c ∷ s) t
  take :
      {e : Bool} {c d : ℕ} {s t : Bytes}
      → e ≡ false
      → c ≡ b'*'
      → Matches e (c ∷ s) t
      → Matches e (c ∷ s) (d ∷ t)
  one :
      {e : Bool} {c d : ℕ} {s t : Bytes}
      → e ≡ false
      → c ≡ b'?'
      → Matches e s t
      → Matches e (c ∷ s) (d ∷ t)
  same :
      {e : Bool} {c d : ℕ} {s t : Bytes}
      → (e ≡ true) ⊎ (is_wildcard c ≡ false)
      → c ≡ d
      → Matches (next_escape e c) s t
      → Matches e (c ∷ s) (d ∷ t)

-- The text does not end in a backslash.
abbrev pub EndsPlain : Bytes → Type 0
EndsPlain [] = Unit
EndsPlain (c ∷ []) = c ≢ backslash
EndsPlain (c ∷ d ∷ t) = EndsPlain (d ∷ t)
