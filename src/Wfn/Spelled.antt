-- ===== src/Wfn/Spelled.antt =====
-- wfn/fsb.go: values spelled by plain bytes, quoted bytes and wildcards, and what becomes of them in
-- a formatted string.
use nvdtools.Prelude.{
  ℕ, Bool, true, false, ◌&&◌, ◌||◌, List, [], ◌∷◌, ◌++◌, Bytes, ◌==◌, if◌then◌else◌, is_empty, ◌≡◌,
  refl, arith, Bool-cases, ◌⊎◌, inl, inr, ap, ◌∙◌, ==_iff,
}
use nvdtools.Wfn.Wildcard.{backslash}
use nvdtools.Wfn.Slashes.{passes_unquoted, strip_slashes}
use nvdtools.Wfn.Fragment.{
  read, passes_plain, at_end, action, stop, keep, keep_two, keep_mark, slash, put, add_slashes,
}

pub data Token : Type 0 where
  plain : ℕ → Token
  quoted : ℕ → Token
  wild : ℕ → Token

abbrev pub spell : List Token → Bytes
spell [] = []
spell (plain c ∷ ts) = c ∷ spell ts
spell (quoted c ∷ ts) = backslash ∷ c ∷ spell ts
spell (wild c ∷ ts) = c ∷ spell ts

-- The same in a formatted string.
abbrev pub write : List Token → Bytes
write [] = []
write (plain c ∷ ts) = c ∷ write ts
write (quoted c ∷ ts) = if passes_unquoted c then c ∷ write ts else backslash ∷ c ∷ write ts
write (wild c ∷ ts) = c ∷ write ts

abbrev underscore_next : List Token → Bool
underscore_next (plain c ∷ ts) = c == b'_'
underscore_next _ = false

-- Where a token may stand: letters, digits and the underscore are plain, all else is quoted, and a
-- wildcard is the first or the last token. An underscore does not follow a quoted backslash.
abbrev pub Fits : Bool → Token → List Token → Type 0
Fits first (plain c) ts = passes_plain c ≡ true
Fits first (quoted c) ts = (passes_plain c ≡ false) × (c == backslash && underscore_next ts ≡ false)
Fits first (wild c) ts = (c == b'*' || c == b'?' ≡ true) × (first || is_empty ts ≡ true)

abbrev pub Legal : Bool → List Token → Type 0
Legal first [] = Unit
Legal first (t ∷ ts) = Fits first t ts × Legal false ts

strip-nil : strip_slashes [] ≡ []
unfolding strip_slashes
strip-nil = refl

strip-keep :
    (c : ℕ) (s : Bytes) → c == backslash ≡ false → strip_slashes (c ∷ s) ≡ c ∷ strip_slashes s
unfolding strip_slashes
strip-keep c [] h = refl
strip-keep c (d ∷ s) h = rw h

strip-quote :
    (c : ℕ) (s : Bytes)
    → strip_slashes (backslash ∷ c ∷ s)
      ≡ (if passes_unquoted c then strip_slashes (c ∷ s) else backslash ∷ strip_slashes (c ∷ s))
unfolding strip_slashes
strip-quote c s = refl

-- A backslash stays before what is not one of the bytes that pass unquoted.
strip-backslash :
    (first : Bool) (ts : List Token)
    → underscore_next ts ≡ false
    → Legal first ts
    → strip_slashes (backslash ∷ spell ts) ≡ backslash ∷ strip_slashes (spell ts)
unfolding strip_slashes passes_unquoted passes_plain
strip-backslash first [] h k = refl
strip-backslash first (plain c ∷ ts) h (k, _) = ground arith
strip-backslash first (quoted c ∷ ts) h k = refl
strip-backslash first (wild c ∷ ts) h ((k, _), _) = ground arith

-- Whether a quoted byte passes unquoted, it is not a backslash then.
unquoted_plain : (c : ℕ) → passes_unquoted c ≡ true → c == backslash ≡ false
unfolding passes_unquoted
unquoted_plain c h = ground arith

pub strip_slashes-spell :
    (first : Bool) (ts : List Token) → Legal first ts → strip_slashes (spell ts) ≡ write ts
unfolding passes_plain
strip_slashes-spell first [] h = strip-nil
strip_slashes-spell first (plain c ∷ ts) (h, k) =
    strip-keep c (spell ts) (ground arith) ∙ ap (λ s. c ∷ s) (strip_slashes-spell false ts k)
strip_slashes-spell first (wild c ∷ ts) ((h, _), k) =
    strip-keep c (spell ts) (ground arith) ∙ ap (λ s. c ∷ s) (strip_slashes-spell false ts k)
strip_slashes-spell first (quoted c ∷ ts) ((h, e), k) = elim (Bool-cases (passes_unquoted c)) [
  | inl p ↦ rw (
    strip-quote c (spell ts),
    p,
    strip-keep c (spell ts) (unquoted_plain c p),
    strip_slashes-spell false ts k,
  )
  | inr p ↦ elim (Bool-cases (c == backslash)) [
    | inl q ↦
        let r : strip_slashes (c ∷ spell ts) ≡ c ∷ strip_slashes (spell ts) =
          rw ((==_iff c backslash).0 q) (strip-backslash false ts (ground arith) k) in
        rw (strip-quote c (spell ts), p, r, strip_slashes-spell false ts k)
    | inr q ↦
        rw (strip-quote c (spell ts), p, strip-keep c (spell ts) q, strip_slashes-spell false ts k)
  ]
]

-- The rounds of `addSlashesAt`.
module _ (first : Bool) (before : ℕ) (embedded : Bool) (c : ℕ) where
  pub add_slashes-keep :
      (s : Bytes)
      → action first before embedded c s ≡ keep
      → add_slashes first before embedded (c ∷ s) ≡ put c (add_slashes false c true s)
  unfolding add_slashes
  add_slashes-keep [] h = rw (h, add_slashes)
  add_slashes-keep (d ∷ s) h = rw (h, add_slashes)

  add_slashes_mark :
      (s : Bytes)
      → action first before embedded c s ≡ keep_mark
      → add_slashes first before embedded (c ∷ s) ≡ put c (add_slashes false c false s)
  unfolding add_slashes
  add_slashes_mark [] h = rw (h, add_slashes)
  add_slashes_mark (d ∷ s) h = rw (h, add_slashes)

  pub add_slashes_slash :
      (s : Bytes)
      → action first before embedded c s ≡ slash
      → add_slashes first before embedded (c ∷ s)
        ≡ put backslash (put c (add_slashes false c true s))
  unfolding add_slashes
  add_slashes_slash [] h = rw (h, add_slashes)
  add_slashes_slash (d ∷ s) h = rw (h, add_slashes)

  pub add_slashes_two :
      (d : ℕ) (s : Bytes)
      → action first before embedded c (d ∷ s) ≡ keep_two
      → add_slashes first before embedded (c ∷ d ∷ s) ≡ put c (put d (add_slashes false d true s))
  unfolding add_slashes
  add_slashes_two d s h = rw (h, add_slashes)

  pub add_slashes_stop :
      (s : Bytes)
      → action first before embedded c s ≡ stop
      → add_slashes first before embedded (c ∷ s) ≡ read ([], c ∷ s)
  unfolding add_slashes
  add_slashes_stop [] h = rw (h, add_slashes)
  add_slashes_stop (d ∷ s) h = rw (h, add_slashes)

pub add_slashes-nil :
    (first : Bool) (before : ℕ) (embedded : Bool)
    → add_slashes first before embedded [] ≡ read ([], [])
unfolding add_slashes
add_slashes-nil first before embedded = refl

-- A wildcard that is first or last is kept.
wild_kept :
    (first : Bool) (before : ℕ) (embedded : Bool) (c : ℕ) (s : Bytes)
    → c == b'*' || c == b'?' ≡ true
    → first || at_end s ≡ true
    → (action first before embedded c s ≡ keep) ⊎ (action first before embedded c s ≡ keep_mark)
unfolding action passes_plain
wild_kept first before embedded c s h e = elim (Bool-cases (c == b'*')) [
  | inl k ↦ inl (ground arith)
  | inr k ↦ inr (ground arith)
]

first_or_end :
    (first : Bool) (ts : List Token) (rest : Bytes)
    → first || is_empty ts ≡ true
    → at_end rest ≡ true
    → first || at_end (write ts ++ rest) ≡ true
first_or_end true ts rest h e = refl
first_or_end false [] rest h e = e
first_or_end false (t ∷ ts) rest h e = cc

add_slashes-end :
    (first : Bool) (before : ℕ) (embedded : Bool) (rest : Bytes)
    → at_end rest ≡ true
    → add_slashes first before embedded rest ≡ read ([], rest)
unfolding action
add_slashes-end first before embedded [] h = add_slashes-nil first before embedded
add_slashes-end first before embedded (c ∷ s) h =
    add_slashes_stop first before embedded c s (ground arith)

-- Reading a value that is written in a formatted string gives its spelling back.
pub add_slashes-write :
    (first : Bool) (before : ℕ) (embedded : Bool) (ts : List Token) (rest : Bytes)
    → Legal first ts
    → at_end rest ≡ true
    → add_slashes first before embedded (write ts ++ rest) ≡ read (spell ts, rest)
unfolding action passes_plain passes_unquoted
add_slashes-write first before embedded [] rest h e = add_slashes-end first before embedded rest e
add_slashes-write first before embedded (plain c ∷ ts) rest (h, k) e =
    add_slashes-keep first before embedded c (write ts ++ rest) (ground arith)
    ∙ ap (put c) (add_slashes-write false c true ts rest k e)
add_slashes-write first before embedded (quoted c ∷ ts) rest ((h, _), k) e =
    elim (Bool-cases (passes_unquoted c)) [
      | inl p ↦ rw p (
          add_slashes_slash first before embedded c (write ts ++ rest) (ground arith)
          ∙ ap (λ r. put backslash (put c r)) (add_slashes-write false c true ts rest k e))
      | inr p ↦ rw p (
          add_slashes_two first before embedded backslash c (write ts ++ rest) refl
          ∙ ap (λ r. put backslash (put c r)) (add_slashes-write false c true ts rest k e))
    ]
add_slashes-write first before embedded (wild c ∷ ts) rest ((h, l), k) e =
    elim (wild_kept first before embedded c (write ts ++ rest) h (first_or_end first ts rest l e)) [
      | inl a ↦
          add_slashes-keep first before embedded c (write ts ++ rest) a
          ∙ ap (put c) (add_slashes-write false c true ts rest k e)
      | inr a ↦
          add_slashes_mark first before embedded c (write ts ++ rest) a
          ∙ ap (put c) (add_slashes-write false c false ts rest k e)
    ]
