-- ===== src/Samples/Sql.antt =====
-- The builders of SQL statements at concrete inputs.
use nvdtools.Prelude.{ℕ, ◌≡◌, refl, some, none, List, [], ◌∷◌, Bytes, codes, length}
use nvdtools.Sql.Marks.{marks}
use nvdtools.Sql.Builder.{
  Statement, statement_text, empty, equal, in_slice, and_also, select, from, where_clause,
  condition_text,
}
use nvdtools.Sql.Balance.{statement_text-balanced}
use nvdtools.Sql.Built.{
  empty_built, equal_built, in_slice_built, and_built, select_built, from_built, where_built,
}
use nvdtools.Sql.Records.{Record, subset, of_pairs, keep, subset-of_pairs}

abbrev by_vendor : Statement ℕ
by_vendor =
    where_clause (from (select (codes "id" ∷ [])) (codes "t" ∷ []))
      (in_slice (and_also (equal empty (codes "v") 7)) (codes "c") (1 ∷ 2 ∷ []))

by_vendor_text : statement_text by_vendor.q ≡ codes "SELECT id FROM t WHERE v=? AND c IN (?, ?)"
unfolding statement_text
by_vendor_text = refl

-- A condition on no values is left without a group.
in_nothing : condition_text (in_slice {V = ℕ} empty (codes "c") []) ≡ codes "c IN "
in_nothing = refl

statement_text-balanced_example : marks (statement_text by_vendor.q) ≡ length by_vendor.values
unfolding marks
statement_text-balanced_example = statement_text-balanced {V = ℕ} (
    where_built (from_built (codes "t" ∷ []) (refl, tt) (select_built (codes "id" ∷ []) (refl, tt)))
      (in_slice_built (codes "c") (1 ∷ 2 ∷ []) refl
        (and_built (equal_built (codes "v") 7 refl empty_built))))

abbrev pairs : List (Bytes × ℕ)
pairs = (codes "id", 1) ∷ (codes "name", 2) ∷ []

wanted_pairs :
    subset (of_pairs pairs) (codes "name" ∷ []) ≡ some (of_pairs ((codes "name", 2) ∷ []))
unfolding nvdtools.Sql.Records.in_subset
wanted_pairs = subset-of_pairs pairs (codes "name" ∷ [])

more_columns : subset {V = ℕ} (record { cols = codes "a" ∷ []; vals = [] }) [] ≡ none
unfolding subset
more_columns = refl
