-- ===== src/Sql/Balance.antt =====
-- vulndb/sqlutil: each question mark of a statement has its value.
use nvdtools.Prelude.{
  Bool, true, false, List, [], ◌∷◌, ◌++◌, map, Bytes, codes, length, length-append, is_empty,
  if◌then◌else◌, ◌≡◌, refl, arith, All,
}
use nvdtools.Sql.Marks.{marks, marks-append}
use nvdtools.Sql.Builder.{
  Conditions, Statement, joined, gen_bind_group, statement_text, condition_text, flatten,
  insert_values, alias,
}
use nvdtools.Sql.Totals.{
  Plain, total, total-append, total-Plain, marks-join_with, marks-statement_text,
  marks-gen_bind_group, total-groups,
}
use nvdtools.Sql.Built.{
  BuiltConditions, BuiltStatement, empty_built, equal_built, literal_built, in_slice_built,
  in_select_built, and_built, or_built, not_built, is_null_built, group_built, insert_built,
  replace_built, into_built, fields_built, values_built, add_select_built, add_literal_built,
  update_built, set_built, where_built, select_built, select_group_built, from_built, delete_built,
  delete_from_built,
}

marks_values_word : (b : Bool) → marks (if b then codes "VALUES" else codes ",") ≡ 0
unfolding marks
marks_values_word true = refl
marks_values_word false = refl

total-alias : (name : Bytes) → Plain name → total (alias name) ≡ 0
unfolding marks
total-alias [] h = refl
total-alias (c ∷ name) h = omega arith

total-from :
    (ts : List Bytes)
    → All Plain ts
    → total (codes "FROM" ∷ (if is_empty ts then [] else joined ts ∷ [])) ≡ 0
unfolding marks
total-from [] h = refl
total-from (t ∷ ts) h =
    omega (arith, marks-join_with (codes ", ") (t ∷ ts) refl, total-Plain (t ∷ ts) h)

module _ {V : Type 0} where
  with_text-total :
      (c : Conditions V) (l : Bytes) (vs : List V)
      → total c.qs ≡ length c.qv
      → marks l ≡ length vs
      → total (c.qs ++ l ∷ []) ≡ length (c.qv ++ vs)
  with_text-total c l vs h k = omega (arith, total-append c.qs (l ∷ []), length-append c.qv vs)

  add-total :
      (s : Statement V) (parts : List Bytes) (vs : List V)
      → total s.q ≡ length s.values
      → total parts ≡ length vs
      → total (s.q ++ parts) ≡ length (s.values ++ vs)
  add-total s parts vs h k = omega (arith, total-append s.q parts, length-append s.values vs)

  mutual
    unfolding marks insert_values

    conditions_total : {c : Conditions V} → BuiltConditions c → total c.qs ≡ length c.qv
    conditions_total empty_built = refl
    conditions_total (equal_built {c} k v h b) =
        with_text-total c _ _ (conditions_total b) (omega (arith, marks-append k (codes "=?")))
    conditions_total (literal_built {c} l h b) = with_text-total c _ _ (conditions_total b) h
    conditions_total (in_slice_built {c} k vs h b) = with_text-total c _ vs (conditions_total b) (
        omega (
          arith,
          marks-append k (codes " IN " ++ gen_bind_group (length vs)),
          marks-gen_bind_group (length vs),
        ))
    conditions_total (in_select_built {c} {s} k h b d) =
        with_text-total c _ s.values (conditions_total b) (
          omega (
            arith,
            marks-append k (codes " IN (" ++ (statement_text s.q ++ codes ")")),
            marks-append (statement_text s.q) (codes ")"),
            marks-statement_text s.q,
            statement_total d,
          ))
    conditions_total (and_built {c} b) = with_text-total c _ _ (conditions_total b) refl
    conditions_total (or_built {c} b) = with_text-total c _ _ (conditions_total b) refl
    conditions_total (not_built {c} b) = with_text-total c _ _ (conditions_total b) refl
    conditions_total (is_null_built {c} v h b) =
        with_text-total c _ _ (conditions_total b)
          (omega (arith, marks-append v (codes " IS NULL")))
    conditions_total (group_built {c} {d} b e) = with_text-total c _ d.qv (conditions_total b) (
        omega (
          arith,
          marks-append (condition_text d) (codes ")"),
          marks-join_with (codes " ") d.qs refl,
          conditions_total e,
        ))

    statement_total : {s : Statement V} → BuiltStatement s → total s.q ≡ length s.values
    statement_total insert_built = refl
    statement_total replace_built = refl
    statement_total (into_built {s} t h b) = add-total s _ _ (statement_total b) (omega arith)
    statement_total (fields_built {s} ns h b) =
        add-total s _ _ (statement_total b)
          (omega (arith, marks-join_with (codes ", ") ns refl, total-Plain ns h))
    statement_total (values_built {s} [] b) = statement_total b
    statement_total (values_built {s} (r ∷ rs) b) =
        add-total s _ (flatten (r ∷ rs)) (statement_total b) (
          omega (
            arith,
            marks_values_word (is_empty s.values),
            marks-join_with (codes ", ")
                (map (λ (vs : List V). gen_bind_group (length vs)) (r ∷ rs)) refl,
            total-groups (r ∷ rs),
          ))
    statement_total (add_select_built {s} {a} b d) =
        add-total s a.q a.values (statement_total b) (statement_total d)
    statement_total (add_literal_built {s} l h b) =
        add-total s _ _ (statement_total b) (omega arith)
    statement_total (update_built ts h) =
        omega (arith, marks-join_with (codes ", ") ts refl, total-Plain ts h)
    statement_total (set_built {s} {c} b d) =
        add-total s _ c.qv (statement_total b)
          (omega (arith, marks-join_with (codes ", ") c.qs refl, conditions_total d))
    statement_total (where_built {s} {c} b d) =
        add-total s _ c.qv (statement_total b)
          (omega (arith, marks-join_with (codes " ") c.qs refl, conditions_total d))
    statement_total (select_built ns h) =
        omega (arith, marks-join_with (codes ", ") ns refl, total-Plain ns h)
    statement_total (select_group_built {s} {g} a h b d) =
        add-total s _ g.values (statement_total b) (
          omega (arith, total-append g.q (codes ")" ∷ alias a), total-alias a h, statement_total d))
    statement_total (from_built {s} ts h b) = add-total s _ _ (statement_total b) (total-from ts h)
    statement_total delete_built = refl
    statement_total (delete_from_built {s} ts h b) =
        add-total s _ _ (statement_total b)
          (omega (arith, marks-join_with (codes ", ") ts refl, total-Plain ts h))

  -- However a statement is built by the calls of the package, from tables, fields, keys and literal
  -- texts without question marks, its text has as many question marks as it has values.
  pub statement_text-balanced :
      {s : Statement V} → BuiltStatement s → marks (statement_text s.q) ≡ length s.values
  statement_text-balanced {s} b = omega (arith, marks-statement_text s.q, statement_total b)
