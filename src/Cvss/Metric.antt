-- ===== src/Cvss/Metric.antt =====
-- The metric types of cvss2 and cvss3. Each of them is an int that indexes a table of codes and one of
-- weights, with the methods `defined`, `weight`, `String` and `parse`, which the source writes out for
-- each type. Weights are in thousandths. A method that indexes past a table panics: `none`.
use nvdtools.Prelude.{
  ℕ, Bool, true, false, not, ◌&&◌, Option, none, some, List, Bytes, codes, ◌==◌, if◌then◌else◌,
  text_eq, get_elem?, find_index, lacks, to_upper, all_below, length,
}

pub data MetricType : Type 0 where
  -- A type with its own tables: the codes, and the weights for an unchanged and for a changed scope,
  -- which differ for the privileges required only.
  table : List Bytes → List ℕ → List ℕ → MetricType
  -- A modified metric: 0 is written as `X`, and the rest is left to the type that it modifies.
  modified : MetricType → MetricType
  -- A modified temporal metric: its type has a code for 0 already.
  extended : MetricType → MetricType

-- The undefined value has index 0 in each table.
unfoldable pub defined : ℕ → Bool
defined v = not (v == 0)

abbrev pub not_defined : Bytes
not_defined = codes "X"

unfoldable pub to_string : MetricType → ℕ → Option Bytes
unfolding defined
to_string (table names weights changed) v = get_elem? names v
to_string (modified t) v = if not (defined v) then some not_defined else to_string t v
to_string (extended t) v = to_string t v

-- The new value, or `none` for an error, which leaves the value as it is.
unfoldable pub parse : MetricType → Bytes → Option ℕ
unfolding find_index text_eq
parse (table names weights changed) s = find_index s names
parse (modified t) s = if text_eq s not_defined then some 0 else parse t s
parse (extended t) s = parse t s

unfoldable pub weight : MetricType → Bool → ℕ → Option ℕ
unfolding defined
weight (table names weights changed) scope_changed v =
    if scope_changed then get_elem? changed v else get_elem? weights v
weight (modified t) scope_changed v =
    if not (defined v) then some 1000 else weight t scope_changed v
weight (extended t) scope_changed v =
    if not (defined v) then some 1000 else weight t scope_changed v

-- The number of values.
abbrev pub size : MetricType → ℕ
size (table names weights changed) = length names
size (modified t) = size t
size (extended t) = size t

abbrev pub is_value : Option ℕ → ℕ → Bool
is_value none v = false
is_value (some w) v = w == v

abbrev pub code_reads_back : MetricType → ℕ → Option Bytes → Bool
code_reads_back t v none = false
code_reads_back t v (some s) =
    is_value (parse t s) v && lacks b':' s && lacks b'/' s && text_eq (to_upper s) s

-- The code of a defined value is parsed as that value, holds no separator, and has no small letter.
unfoldable pub code_ok : MetricType → ℕ → Bool
unfolding parse to_string lacks to_upper text_eq
code_ok t v = if v == 0 then true else code_reads_back t v (to_string t v)

unfoldable pub codes_ok : MetricType → Bool
unfolding code_ok all_below
codes_ok t = all_below (size t) (code_ok t)
