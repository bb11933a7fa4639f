-- ===== src/Wfn/Quotes.antt =====
-- wfn/wfn.go: what `WFNize` makes of a text without backslashes.
use nvdtools.Prelude.{
  ℕ, Bool, true, false, not, ◌||◌, [], ◌∷◌, Bytes, ◌==◌, ==_iff, if◌then◌else◌, lacks, ◌≡◌, refl,
  sym, ap, subst, ◌∙◌, arith, Bool-cases, inl, inr,
}
use nvdtools.Wfn.Wildcard.{backslash, is_wildcard}
use nvdtools.Wfn.Fragment.{Reading, read, failed, panicked, passes_plain, action, put, add_slashes}
use nvdtools.Wfn.Spelled.{
  add_slashes-keep, add_slashes_slash, add_slashes_two, add_slashes_stop, add_slashes-nil,
}
use nvdtools.Wfn.Wfnize.{underscored, allowed_punct, clean, value_of, wfnize}

-- What a text without backslashes stands for: up to a colon, letters, digits and underscores as they
-- are, punctuation and wildcards quoted, and nothing of the rest.
unfoldable pub spelled : Bytes → Bytes
unfolding passes_plain allowed_punct
spelled [] = []
spelled (c ∷ s) =
    let rest = spelled s in
    if c == b':'
    then []
    else if passes_plain c
    then c ∷ rest
    else if allowed_punct c || is_wildcard c
    then backslash ∷ c ∷ rest
    else rest

abbrev before_value : ℕ → Reading Bytes → Reading Bytes
before_value c (read v) = read (c ∷ v)
before_value c failed = failed
before_value c panicked = panicked

value_of-put :
    (c : ℕ) (r : Reading (Bytes × Bytes)) → value_of (put c r) ≡ before_value c (value_of r)
value_of-put c (read (v, rest)) = refl
value_of-put c failed = refl
value_of-put c panicked = refl

module _ (first : Bool) (before : ℕ) (embedded : Bool) (c : ℕ) where
  stopped_here :
      (r : Bytes)
      → (c == b':') ≡ true
      → value_of (add_slashes first before embedded (c ∷ r)) ≡ read []
  stopped_here r e =
      ap value_of (add_slashes_stop first before embedded c r (unfold action in rw e refl))

  kept_here :
      (r : Bytes)
      → (c == b':') ≡ false
      → passes_plain c ≡ true
      → value_of (add_slashes first before embedded (c ∷ r))
        ≡ before_value c (value_of (add_slashes false c true r))
  kept_here r e p =
      ap value_of (add_slashes-keep first before embedded c r (unfold action in rw (e, p) refl))
      ∙ value_of-put c (add_slashes false c true r)

  slashed_here :
      (r : Bytes)
      → (c == b':') ≡ false
      → passes_plain c ≡ false
      → (c == backslash) ≡ false
      → (c == b'*') ≡ false
      → (c == b'?') ≡ false
      → value_of (add_slashes first before embedded (c ∷ r))
        ≡ before_value backslash (before_value c (value_of (add_slashes false c true r)))
  slashed_here r e p q m n =
      ap value_of
        (add_slashes_slash first before embedded c r (unfold action in rw (e, p, q, m, n) refl))
      ∙ value_of-put backslash (put c (add_slashes false c true r))
      ∙ ap (before_value backslash) (value_of-put c (add_slashes false c true r))

  quoted_here :
      (r : Bytes)
      → value_of (add_slashes first before embedded (backslash ∷ c ∷ r))
        ≡ before_value backslash (before_value c (value_of (add_slashes false c true r)))
  quoted_here r =
      ap value_of
        (add_slashes_two first before embedded backslash c r (unfold action passes_plain in refl))
      ∙ value_of-put backslash (put c (add_slashes false c true r))
      ∙ ap (before_value backslash) (value_of-put c (add_slashes false c true r))

punct-other : (c d : ℕ) → allowed_punct d ≡ false → allowed_punct c ≡ true → (c == d) ≡ false
punct-other c d absent present = elim (Bool-cases (c == d)) [
  | inl e ↦
      let same : allowed_punct d ≡ true =
        subst (λ x. allowed_punct x ≡ true) ((==_iff c d).0 e) present in
      cc
  | inr e ↦ e
]

-- Both ways of quoting, for each byte.
clean_lem :
    (t : Bytes) (first first' : Bool) (before before' : ℕ) (embedded : Bool)
    → lacks backslash t ≡ true
    → (first || not (before == backslash)) ≡ true
    → value_of (add_slashes first' before' embedded (clean first before t)) ≡ read (spelled t)
unfolding clean spelled lacks
clean_lem [] first first' before before' embedded l n =
    ap value_of (add_slashes-nil first' before' embedded)
clean_lem (c ∷ t) first first' before before' embedded l n =
    let other : (c == backslash) ≡ false = ground arith in
    let l' : lacks backslash t ≡ true = ground arith in
    let next : not (c == backslash) ≡ true = rw other refl in
    let rest : (e : Bool) → value_of (add_slashes false c e (clean false c t)) ≡ read (spelled t) =
      λ e. clean_lem t false false c c e l' next in
    elim (Bool-cases (c == b':')) [
      | inl e ↦
          let colon : allowed_punct c ≡ true =
            subst (λ x. allowed_punct x ≡ true) (sym ((==_iff c b':').0 e))
              (unfold allowed_punct in refl) in
          let either : (passes_plain c || allowed_punct c) ≡ true = ground arith in
          rw (either, e) (stopped_here first' before' embedded c (clean false c t) e)
      | inr e ↦ elim (Bool-cases (passes_plain c)) [
        | inl p ↦
            rw (p, e)
              (kept_here first' before' embedded c (clean false c t) e p
                ∙ ap (before_value c) (rest true))
        | inr p ↦ elim (Bool-cases (allowed_punct c)) [
          | inl q ↦
              let star = punct-other c b'*' (unfold allowed_punct in refl) q in
              let mark = punct-other c b'?' (unfold allowed_punct in refl) q in
              rw (p, q, e)
                (slashed_here first' before' embedded c (clean false c t) e p other star mark
                  ∙ ap (λ x. before_value backslash (before_value c x)) (rest true))
          | inr q ↦ elim (Bool-cases (is_wildcard c)) [
            | inl w ↦
                rw (p, q, e, w, n)
                  (quoted_here first' before' embedded c (clean false c t)
                    ∙ ap (λ x. before_value backslash (before_value c x)) (rest true))
            | inr w ↦ rw (p, q, e, w) (clean_lem t false first' c before' embedded l' next)
          ]
        ]
      ]
    ]

-- WFNize reads a text without backslashes as its bytes up to the first colon, with spaces as
-- underscores, punctuation and wildcards quoted, and all but these, letters and digits left out.
pub wfnize-spelled :
    (s : Bytes) → lacks backslash (underscored s) ≡ true → wfnize s ≡ read (spelled (underscored s))
unfolding wfnize
wfnize-spelled s l = clean_lem (underscored s) true true 0 0 false l refl
