-- ===== src/Columns/Compact.antt =====
-- cmd/cpe2cve/fieldstoskip.go: the loop that moves fields down in place drops the fields to skip.
use nvdtools.Prelude.{
  ℕ, ◌+◌, Bool, true, false, some, List, [], ◌∷◌, ◌++◌, append_assoc, append-nil, Bytes, ◌==◌, ◌||◌,
  if◌then◌else◌, length, length-append, get_elem?, set, ◌≡◌, refl, sym, ap, ◌∙◌, arith, Bool-cases,
  inl, inr,
}
use nvdtools.Columns.Skip.{take, skip_loop, skip_fields, remove_loop, remove_columns}

-- The fields that are not skipped, the first of which has index `i`.
abbrev pub left_over : (ℕ → Bool) → ℕ → List Bytes → List Bytes
left_over fs i [] = []
left_over fs i (v ∷ rest) =
    let others = left_over fs (i + 1) rest in if fs i then others else v ∷ others

take-append : (xs ys : List Bytes) → take (length xs) (xs ++ ys) ≡ xs
unfolding take
take-append [] ys = refl
take-append (x ∷ xs) ys = ap (◌∷◌ x) (take-append xs ys)

get_elem?-middle : (xs ys : List Bytes) (v : Bytes) → get_elem? (xs ++ v ∷ ys) (length xs) ≡ some v
get_elem?-middle [] ys v = refl
get_elem?-middle (x ∷ xs) ys v = get_elem?-middle xs ys v

set-middle : (xs ys : List Bytes) (v w : Bytes) → set (xs ++ v ∷ ys) (length xs) w ≡ xs ++ w ∷ ys
set-middle [] ys v w = refl
set-middle (x ∷ xs) ys v w = ap (◌∷◌ x) (set-middle xs ys v w)

-- A value is written behind those that stay, over the first of the gap if there is one.
moved :
    (kept gap rest : List Bytes) (v : Bytes)
    → (gap' : List Bytes) × (length gap' ≡ length gap)
      × (set (kept ++ (gap ++ v ∷ rest)) (length kept) v ≡ (kept ++ v ∷ []) ++ (gap' ++ rest))
moved kept [] rest v = ([], refl, set-middle kept rest v v ∙ sym (append_assoc kept (v ∷ []) rest))
moved kept (g ∷ gap) rest v = (
  gap ++ v ∷ [],
  length-append gap (v ∷ []) ∙ omega arith,
  set-middle kept (gap ++ v ∷ rest) g v
      ∙ ap (λ x. kept ++ v ∷ x) (sym (append_assoc gap (v ∷ []) rest))
      ∙ sym (append_assoc kept (v ∷ []) ((gap ++ v ∷ []) ++ rest)),
)

skip_loop_lem :
    (fs : ℕ → Bool) (rest kept gap : List Bytes) (i j : ℕ)
    → j ≡ length kept
    → i ≡ length kept + length gap
    → skip_loop (length rest) fs i j (kept ++ (gap ++ rest)) ≡ some (kept ++ left_over fs i rest)
unfolding skip_loop
skip_loop_lem fs [] kept gap i j ej ei =
    rw ej (ap some (take-append kept (gap ++ []) ∙ sym (append-nil kept)))
skip_loop_lem fs (v ∷ rest) kept gap i j ej ei = elim (Bool-cases (fs i)) [
  | inl e ↦
      let wider : gap ++ v ∷ rest ≡ (gap ++ v ∷ []) ++ rest =
        sym (append_assoc gap (v ∷ []) rest) in
      let counted = length-append gap (v ∷ []) in
      rw e (
        ap (λ x. skip_loop (length rest) fs (i + 1) j (kept ++ x)) wider
        ∙ skip_loop_lem fs rest kept (gap ++ v ∷ []) (i + 1) j ej (omega (arith, ei, counted)))
  | inr e ↦
      let (gap', same, written) = moved kept gap rest v in
      let counted = length-append kept (v ∷ []) in
      let read : get_elem? (kept ++ (gap ++ v ∷ rest)) i ≡ some v =
        ap (get_elem? (kept ++ (gap ++ v ∷ rest))) (ei ∙ sym (length-append kept gap))
        ∙ ap (λ x. get_elem? x (length (kept ++ gap))) (sym (append_assoc kept gap (v ∷ rest)))
        ∙ get_elem?-middle (kept ++ gap) rest v in
      rw (e, read)
        (ap (λ x. skip_loop (length rest) fs (i + 1) (j + 1) (set (kept ++ (gap ++ v ∷ rest)) x v))
            ej
          ∙ ap (skip_loop (length rest) fs (i + 1) (j + 1)) written
          ∙ skip_loop_lem fs rest (kept ++ v ∷ []) gap' (i + 1) (j + 1) (omega (arith, ej, counted))
              (omega (arith, ei, counted, same))
          ∙ ap some (append_assoc kept (v ∷ []) (left_over fs (i + 1) rest)))
]

pub skip_fields_lem :
    (fs : ℕ → Bool) (fields : List Bytes) → skip_fields fs fields ≡ some (left_over fs 0 fields)
unfolding skip_fields
skip_fields_lem fs fields = skip_loop_lem fs fields [] [] 0 0 refl refl

remove_loop_lem :
    (idx : ℕ → Bool) (i : ℕ) (cols : List Bytes)
    → remove_loop idx i cols ≡ left_over (λ j. idx (j + 1)) i cols
unfolding remove_loop
remove_loop_lem idx i [] = refl
remove_loop_lem idx i (col ∷ cols) = ground (arith, remove_loop_lem idx (i + 1) cols)

left_over-all :
    (fs : ℕ → Bool) (i : ℕ) (fields : List Bytes)
    → ((j : ℕ) → fs j ≡ false)
    → left_over fs i fields ≡ fields
left_over-all fs i [] h = refl
left_over-all fs i (v ∷ rest) h = rw (h i) (ap (◌∷◌ v) (left_over-all fs (i + 1) rest h))

-- The loop of cpe2cve that drops fields in place never indexes past them, and leaves what csv2cpe
-- leaves of the same columns, which copies them, if the size of the set of columns is 0 for the empty
-- set only.
pub skip_fields-remove_columns :
    (idx : ℕ → Bool) (size : ℕ) (cols : List Bytes)
    → (size ≡ 0 → (i : ℕ) → idx i ≡ false)
    → skip_fields (λ j. idx (j + 1)) cols ≡ some (remove_columns idx size cols)
unfolding remove_columns
skip_fields-remove_columns idx size cols empty =
    skip_fields_lem (λ j. idx (j + 1)) cols
    ∙ ap some (elim (Bool-cases (length cols == 0 || size == 0)) [
      | inr e ↦ rw e (sym (remove_loop_lem idx 0 cols))
      | inl e ↦ rw e (unchanged cols e)
    ])
  where
    unchanged :
        (cols : List Bytes)
        → (length cols == 0 || size == 0) ≡ true
        → left_over (λ j. idx (j + 1)) 0 cols ≡ cols
    unchanged [] e = refl
    unchanged (c ∷ cols) e =
        let none_there : size ≡ 0 = ground arith in
        left_over-all (λ j. idx (j + 1)) 0 (c ∷ cols) (λ j. empty none_there (j + 1))
