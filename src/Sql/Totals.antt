-- ===== src/Sql/Totals.antt =====
-- vulndb/sqlutil: the question marks of what the builders write.
use nvdtools.Prelude.{
  ℕ, zero, suc, ◌+◌, Bool, true, false, List, [], ◌∷◌, ◌++◌, map, Bytes, length, length-append, ◌≡◌,
  refl, arith, All,
}
use nvdtools.Sql.Marks.{marks, marks-append}
use nvdtools.Sql.Builder.{
  join_with, more_binds, gen_bind_group, write_part, write_rest, spaced, statement_text, flatten,
}

marks-nil : marks [] ≡ 0
unfolding marks
marks-nil = refl

-- A text without question marks.
abbrev pub Plain : Bytes → Type 0
Plain s = marks s ≡ 0

abbrev pub total : List Bytes → ℕ
total [] = 0
total (p ∷ ps) = marks p + total ps

pub total-append : (ps qs : List Bytes) → total (ps ++ qs) ≡ total ps + total qs
total-append [] qs = omega arith
total-append (p ∷ ps) qs = omega (arith, total-append ps qs)

pub total-Plain : (ps : List Bytes) → All Plain ps → total ps ≡ 0
total-Plain [] h = refl
total-Plain (p ∷ ps) h = omega (arith, total-Plain ps h.1)

pub marks-join_with :
    (sep : Bytes) (ps : List Bytes) → Plain sep → marks (join_with sep ps) ≡ total ps
marks-join_with sep [] h = marks-nil
marks-join_with sep (p ∷ []) h = omega arith
marks-join_with sep (p ∷ q ∷ ps) h = omega (
  arith,
  marks-append p (sep ++ join_with sep (q ∷ ps)),
  marks-append sep (join_with sep (q ∷ ps)),
  marks-join_with sep (q ∷ ps) h,
)

marks-write_part : (blank : Bool) (part : Bytes) → marks (write_part blank part) ≡ marks part
unfolding marks
marks-write_part true part = refl
marks-write_part false part = refl

marks-write_rest : (before : Bytes) (ps : List Bytes) → marks (write_rest before ps) ≡ total ps
marks-write_rest before [] = marks-nil
marks-write_rest before (p ∷ ps) = omega (
  arith,
  marks-append (write_part (spaced before p) p) (write_rest p ps),
  marks-write_part (spaced before p) p,
  marks-write_rest p ps,
)

pub marks-statement_text : (ps : List Bytes) → marks (statement_text ps) ≡ total ps
unfolding statement_text
marks-statement_text [] = marks-nil
marks-statement_text (p ∷ ps) =
    omega (arith, marks-append p (write_rest p ps), marks-write_rest p ps)

marks-more_binds : (n : ℕ) → marks (more_binds n) ≡ n
unfolding marks
marks-more_binds zero = refl
marks-more_binds (suc n) = omega (arith, marks-more_binds n)

pub marks-gen_bind_group : (n : ℕ) → marks (gen_bind_group n) ≡ n
unfolding marks
marks-gen_bind_group zero = refl
marks-gen_bind_group (suc n) = omega (arith, marks-more_binds n)

module _ {V : Type 0} where
  pub total-groups :
      (rs : List (List V)) → total (map (λ vs. gen_bind_group (length vs)) rs) ≡ length (flatten rs)
  total-groups [] = refl
  total-groups (r ∷ rs) =
      omega (arith, marks-gen_bind_group (length r), total-groups rs, length-append r (flatten rs))
