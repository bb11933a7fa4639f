-- ===== src/Sql/Built.antt =====
-- vulndb/sqlutil: the builders as a relation, one rule for each call of the package.
use nvdtools.Prelude.{List, Bytes, All}
use nvdtools.Sql.Builder.{
  Conditions, Statement, empty, equal, literal, in_slice, in_select, and_also, or_also, negation,
  is_null, group, insert, replace, into, fields, insert_values, add_select, add_literal, update,
  set, where_clause, select, select_group, from, delete, delete_from,
}
use nvdtools.Sql.Totals.{Plain}

module _ {V : Type 0} where
  mutual
    -- Conditions and assignments as the calls of the package build them, from keys and literal texts
    -- without question marks.
    pub data BuiltConditions : Conditions V → Type 0 where
      empty_built : BuiltConditions empty
      equal_built :
          {c : Conditions V} (k : Bytes) (v : V)
          → Plain k
          → BuiltConditions c
          → BuiltConditions (equal c k v)
      literal_built :
          {c : Conditions V} (l : Bytes)
          → Plain l
          → BuiltConditions c
          → BuiltConditions (literal c l)
      in_slice_built :
          {c : Conditions V} (k : Bytes) (vs : List V)
          → Plain k
          → BuiltConditions c
          → BuiltConditions (in_slice c k vs)
      in_select_built :
          {c : Conditions V} {s : Statement V} (k : Bytes)
          → Plain k
          → BuiltConditions c
          → BuiltStatement s
          → BuiltConditions (in_select c k s)
      and_built : {c : Conditions V} → BuiltConditions c → BuiltConditions (and_also c)
      or_built : {c : Conditions V} → BuiltConditions c → BuiltConditions (or_also c)
      not_built : {c : Conditions V} → BuiltConditions c → BuiltConditions (negation c)
      is_null_built :
          {c : Conditions V} (v : Bytes)
          → Plain v
          → BuiltConditions c
          → BuiltConditions (is_null c v)
      group_built :
          {c d : Conditions V} → BuiltConditions c → BuiltConditions d → BuiltConditions (group c d)

    -- The same for statements.
    pub data BuiltStatement : Statement V → Type 0 where
      insert_built : BuiltStatement insert
      replace_built : BuiltStatement replace
      into_built :
          {s : Statement V} (t : Bytes) → Plain t → BuiltStatement s → BuiltStatement (into s t)
      fields_built :
          {s : Statement V} (ns : List Bytes)
          → All Plain ns
          → BuiltStatement s
          → BuiltStatement (fields s ns)
      values_built :
          {s : Statement V} (rs : List (List V))
          → BuiltStatement s
          → BuiltStatement (insert_values s rs)
      add_select_built :
          {s a : Statement V}
          → BuiltStatement s
          → BuiltStatement a
          → BuiltStatement (add_select s a)
      add_literal_built :
          {s : Statement V} (l : Bytes)
          → Plain l
          → BuiltStatement s
          → BuiltStatement (add_literal s l)
      update_built : (ts : List Bytes) → All Plain ts → BuiltStatement (update ts)
      set_built :
          {s : Statement V} {c : Conditions V}
          → BuiltStatement s
          → BuiltConditions c
          → BuiltStatement (set s c)
      where_built :
          {s : Statement V} {c : Conditions V}
          → BuiltStatement s
          → BuiltConditions c
          → BuiltStatement (where_clause s c)
      select_built : (ns : List Bytes) → All Plain ns → BuiltStatement (select ns)
      select_group_built :
          {s g : Statement V} (a : Bytes)
          → Plain a
          → BuiltStatement s
          → BuiltStatement g
          → BuiltStatement (select_group s a g)
      from_built :
          {s : Statement V} (ts : List Bytes)
          → All Plain ts
          → BuiltStatement s
          → BuiltStatement (from s ts)
      delete_built : BuiltStatement delete
      delete_from_built :
          {s : Statement V} (ts : List Bytes)
          → All Plain ts
          → BuiltStatement s
          → BuiltStatement (delete_from s ts)
