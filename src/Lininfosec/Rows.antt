-- ===== src/Lininfosec/Rows.antt =====
-- cmd/lininfosec/schema.sql: what the statements make of the rows of each configuration.
use nvdtools.Prelude.{
  ◌+◌, ◌≤◌, true, false, List, [], ◌∷◌, ◌++◌, Bytes, if◌then◌else◌, text_eq, text_eq_iff,
  text_eq_refl, ◌≡◌, refl, sym, ap, ◌∙◌, arith, Bool-cases, inl, inr, ◌==◌,
}
use nvdtools.Lininfosec.Store.{
  is_member, rows_without, without, rows_of, rows_for, count_configuration,
}

pub is_member-append :
    (u v : Bytes) (us : List Bytes)
    → is_member u (us ++ v ∷ []) ≡ (if is_member u us then true else text_eq u v)
unfolding is_member
is_member-append u v [] = ground arith
is_member-append u v (w ∷ us) = ground (arith, is_member-append u v us)

pub count_configuration-append :
    (u v : Bytes) (us : List Bytes)
    → count_configuration u (us ++ v ∷ [])
      ≡ count_configuration u us + (if text_eq v u then 1 else 0)
unfolding count_configuration
count_configuration-append u v [] = ground arith
count_configuration-append u v (w ∷ us) = ground (arith, count_configuration-append u v us)

pub text_eq-swap : (u v : Bytes) → text_eq u v ≡ text_eq v u
text_eq-swap u v = elim (Bool-cases (text_eq u v)) [
  | inl e ↦
      ap (λ x. text_eq x v) ((text_eq_iff u v).0 e) ∙ ap (text_eq v) (sym ((text_eq_iff u v).0 e))
  | inr e ↦ elim (Bool-cases (text_eq v u)) [
    | inl f ↦
        let same : text_eq u v ≡ true =
          ap (λ x. text_eq x v) (sym ((text_eq_iff v u).0 f)) ∙ text_eq_refl v in
        ground arith
    | inr f ↦ e ∙ sym f
  ]
]

pub absent-count :
    (u : Bytes) (us : List Bytes) → is_member u us ≡ false → count_configuration u us ≡ 0
unfolding is_member count_configuration
absent-count u [] e = refl
absent-count u (v ∷ us) e = ground (arith, text_eq-swap u v, absent-count u us)

pub counted-member :
    (u : Bytes) (us : List Bytes) → (count_configuration u us == 1) ≡ true → is_member u us ≡ true
counted-member u us e = elim (Bool-cases (is_member u us)) [
  | inl m ↦ m
  | inr m ↦ let none_there = absent-count u us m in absurd (ground arith)
]

pub is_member-without :
    (u uid : Bytes) (us : List Bytes)
    → is_member u (without uid us) ≡ (if text_eq u uid then false else is_member u us)
unfolding is_member without
is_member-without u uid [] = ground arith
is_member-without u uid (v ∷ us) = elim (Bool-cases (text_eq v uid)) [
  | inl e ↦
      let same : text_eq u v ≡ text_eq u uid = ap (text_eq u) ((text_eq_iff v uid).0 e) in
      ground (arith, is_member-without u uid us)
  | inr e ↦ elim (Bool-cases (text_eq u v)) [
    | inl f ↦
        let same : text_eq u uid ≡ text_eq v uid =
          ap (λ x. text_eq x uid) ((text_eq_iff u v).0 f) in
        ground (arith, is_member-without u uid us)
    | inr f ↦ ground (arith, is_member-without u uid us)
  ]
]

pub count_configuration-without :
    (u uid : Bytes) (us : List Bytes)
    → count_configuration u (without uid us) ≤ count_configuration u us
unfolding count_configuration without
count_configuration-without u uid [] = omega arith
count_configuration-without u uid (v ∷ us) = ground (arith, count_configuration-without u uid us)

pub rows_of-append :
    (u : Bytes) (xs ys : List (Bytes × Bytes)) → rows_of u (xs ++ ys) ≡ rows_of u xs ++ rows_of u ys
unfolding rows_of
rows_of-append u [] ys = refl
rows_of-append u ((x, v) ∷ xs) ys = ground (arith, rows_of-append u xs ys)

pub rows_of-rows_for :
    (u uid : Bytes) (xs : List Bytes)
    → rows_of u (rows_for uid xs) ≡ (if text_eq uid u then xs else [])
unfolding rows_of
rows_of-rows_for u uid [] = ground arith
rows_of-rows_for u uid (x ∷ xs) = ground (arith, rows_of-rows_for u uid xs)

pub rows_of-rows_without :
    (u uid : Bytes) (rows : List (Bytes × Bytes))
    → rows_of u (rows_without uid rows) ≡ (if text_eq uid u then [] else rows_of u rows)
unfolding rows_of rows_without
rows_of-rows_without u uid [] = ground arith
rows_of-rows_without u uid ((x, v) ∷ rows) = elim (Bool-cases (text_eq v uid)) [
  | inl e ↦
      let same : text_eq v u ≡ text_eq uid u = ap (λ y. text_eq y u) ((text_eq_iff v uid).0 e) in
      ground (arith, rows_of-rows_without u uid rows)
  | inr e ↦ elim (Bool-cases (text_eq v u)) [
    | inl f ↦
        let same : text_eq v uid ≡ text_eq u uid =
          ap (λ y. text_eq y uid) ((text_eq_iff v u).0 f) in
        let swapped = text_eq-swap u uid in ground (arith, rows_of-rows_without u uid rows)
    | inr f ↦ ground (arith, rows_of-rows_without u uid rows)
  ]
]
