-- ===== src/Sql/Builder.antt =====
-- vulndb/sqlutil (assign.go, cond.go, stmt.go): assignments, conditions and statements, which collect
-- the texts of a query with the values for its question marks. A method that adds to a builder and
-- returns it is a function to the new builder; `V` is the type of the values.
use nvdtools.Prelude.{
  ℕ, zero, suc, Bool, not, ◌&&◌, List, [], ◌∷◌, ◌++◌, map, Bytes, codes, length, is_empty, text_eq,
  if◌then◌else◌, ◌≡◌, refl,
}

-- `strings.Join(parts, sep)`
abbrev pub join_with : Bytes → List Bytes → Bytes
join_with sep [] = []
join_with sep (p ∷ []) = p
join_with sep (p ∷ q ∷ ps) = p ++ (sep ++ join_with sep (q ∷ ps))

-- The loop of `genbindgroup`.
abbrev pub more_binds : ℕ → Bytes
more_binds zero = codes ")"
more_binds (suc n) = codes ", ?" ++ more_binds n

abbrev pub gen_bind_group : ℕ → Bytes
gen_bind_group zero = []
gen_bind_group (suc n) = codes "(?" ++ more_binds n

-- Whether a blank stands between two parts.
abbrev pub spaced : Bytes → Bytes → Bool
spaced before part =
    not (text_eq before (codes "("))
    && not (text_eq part (codes ")"))
    && not (text_eq part (codes ","))

abbrev pub write_part : Bool → Bytes → Bytes
write_part blank part = if blank then b' ' ∷ part else part

abbrev pub write_rest : Bytes → List Bytes → Bytes
write_rest before [] = []
write_rest before (part ∷ parts) = write_part (spaced before part) part ++ write_rest part parts

-- `baseStmt.String`
unfoldable pub statement_text : List Bytes → Bytes
unfolding text_eq
statement_text [] = []
statement_text (part ∷ parts) = part ++ write_rest part parts

abbrev pub joined : List Bytes → Bytes
joined = join_with (codes ", ")

-- The alias of a group, if there is one.
abbrev pub alias : Bytes → List Bytes
alias name = if is_empty name then [] else codes "AS" ∷ name ∷ []

module _ (V : Type 0) where
  -- `AssignmentList` and `QueryConditionSet`, which have the same fields.
  pub record Conditions : Type 0 where
    pub qs : List Bytes
    pub qv : List V

  -- `InsertStmt`, `UpdateStmt`, `SelectStmt` and `DeleteStmt`, which have the same fields.
  pub record Statement : Type 0 where
    pub q : List Bytes
    pub values : List V

module _ {V : Type 0} where
  abbrev pub empty : Conditions V
  empty = record { qs = []; qv = [] }

  abbrev pub with_text : Conditions V → Bytes → List V → Conditions V
  with_text c l vs = record { qs = c.qs ++ l ∷ []; qv = c.qv ++ vs }

  abbrev pub equal : Conditions V → Bytes → V → Conditions V
  equal c k v = with_text c (k ++ codes "=?") (v ∷ [])

  abbrev pub literal : Conditions V → Bytes → Conditions V
  literal c l = with_text c l []

  -- `AssignmentList.String`
  abbrev pub assignment_text : Conditions V → Bytes
  assignment_text c = join_with (codes ", ") c.qs

  -- `QueryConditionSet.String`
  abbrev pub condition_text : Conditions V → Bytes
  condition_text c = join_with (codes " ") c.qs

  abbrev pub in_slice : Conditions V → Bytes → List V → Conditions V
  in_slice c k vs = with_text c (k ++ (codes " IN " ++ gen_bind_group (length vs))) vs

  abbrev pub in_select : Conditions V → Bytes → Statement V → Conditions V
  in_select c k s = with_text c (k ++ (codes " IN (" ++ (statement_text s.q ++ codes ")"))) s.values

  abbrev pub and_also : Conditions V → Conditions V
  and_also c = with_text c (codes "AND") []

  abbrev pub or_also : Conditions V → Conditions V
  or_also c = with_text c (codes "OR") []

  abbrev pub negation : Conditions V → Conditions V
  negation c = with_text c (codes "NOT") []

  abbrev pub is_null : Conditions V → Bytes → Conditions V
  is_null c v = with_text c (v ++ codes " IS NULL") []

  abbrev pub group : Conditions V → Conditions V → Conditions V
  group c cond = with_text c (codes "(" ++ (condition_text cond ++ codes ")")) cond.qv

  -- `add`, with the values that a method appends.
  abbrev pub add : Statement V → List Bytes → List V → Statement V
  add s parts vs = record { q = s.q ++ parts; values = s.values ++ vs }

  abbrev pub start : Bytes → Statement V
  start word = record { q = word ∷ []; values = [] }

  abbrev pub insert : Statement V
  insert = start (codes "INSERT")

  abbrev pub replace : Statement V
  replace = start (codes "REPLACE")

  abbrev pub into : Statement V → Bytes → Statement V
  into s table = add s (codes "INTO" ∷ table ∷ []) []

  abbrev pub fields : Statement V → List Bytes → Statement V
  fields s names = add s (codes "(" ∷ joined names ∷ codes ")" ∷ []) []

  abbrev pub flatten : List (List V) → List V
  flatten [] = []
  flatten (r ∷ rs) = r ++ flatten rs

  -- `Values`, on the values of each record. A record without values leaves an empty text.
  unfoldable pub insert_values : Statement V → List (List V) → Statement V
  insert_values s [] = s
  insert_values s (r ∷ rs) =
      let word = if is_empty s.values then codes "VALUES" else codes "," in
      add s (word ∷ joined (map (λ vs. gen_bind_group (length vs)) (r ∷ rs)) ∷ [])
        (flatten (r ∷ rs))

  -- `InsertStmt.Select` and `SelectStmt.Select`
  abbrev pub add_select : Statement V → Statement V → Statement V
  add_select s a = add s a.q a.values

  abbrev pub add_literal : Statement V → Bytes → Statement V
  add_literal s l = add s (l ∷ []) []

  abbrev pub update : List Bytes → Statement V
  update tables = record { q = codes "UPDATE" ∷ joined tables ∷ []; values = [] }

  abbrev pub set : Statement V → Conditions V → Statement V
  set s al = add s (codes "SET" ∷ assignment_text al ∷ []) al.qv

  abbrev pub where_clause : Statement V → Conditions V → Statement V
  where_clause s cond = add s (codes "WHERE" ∷ condition_text cond ∷ []) cond.qv

  abbrev pub select : List Bytes → Statement V
  select names = record { q = codes "SELECT" ∷ joined names ∷ []; values = [] }

  -- `SelectGroup`, by `group`
  abbrev pub select_group : Statement V → Bytes → Statement V → Statement V
  select_group s name g = add s ((codes "(" ∷ g.q) ++ (codes ")" ∷ alias name)) g.values

  -- `SelectStmt.From`; that of a DELETE joins the tables in any case.
  abbrev pub from : Statement V → List Bytes → Statement V
  from s tables = add s (codes "FROM" ∷ (if is_empty tables then [] else joined tables ∷ [])) []

  abbrev pub delete : Statement V
  delete = start (codes "DELETE")

  abbrev pub delete_from : Statement V → List Bytes → Statement V
  delete_from s tables = add s (codes "FROM" ∷ joined tables ∷ []) []

two_rows :
    statement_text
      (insert_values {V = ℕ}
        (fields (into insert (codes "t")) (codes "a" ∷ codes "b" ∷ []))
        ((1 ∷ 2 ∷ []) ∷ (3 ∷ 4 ∷ []) ∷ [])).q
    ≡ codes "INSERT INTO t (a, b) VALUES (?, ?), (?, ?)"
unfolding statement_text insert_values
two_rows = refl
