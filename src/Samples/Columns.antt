-- ===== src/Samples/Columns.antt =====
-- The columns of records at a concrete input.
use nvdtools.Prelude.{
  ℕ, ◌+◌, ◌≤◌, Bool, false, Option, none, some, List, [], ◌∷◌, Bytes, ◌==◌, length, get_elem?,
  codes, ◌≡◌, refl, arith,
}
use mathlib.Core.List.{Memᴰ}
use mathlib.Core.List.Memᴰ
use nvdtools.Columns.Skip.{
  skip_fields, remove_columns, append_at, put_args, no_fields, insert_column,
}
use nvdtools.Columns.Compact.{skip_fields-remove_columns}
use nvdtools.Columns.Place.{append_at-placed}

abbrev cols : List Bytes
cols = codes "a" ∷ codes "b" ∷ codes "c" ∷ []

-- The second column, counted from 1.
abbrev second : ℕ → Bool
second i = i == 2

skip_fields-remove_columns_example :
    skip_fields (λ j. second (j + 1)) cols ≡ some (codes "a" ∷ codes "c" ∷ [])
unfolding remove_columns
skip_fields-remove_columns_example = skip_fields-remove_columns second 1 cols (λ e. cc)

abbrev args : List (Option ℕ × Bytes)
args = (some 2, codes "CVE") ∷ (none, codes "x") ∷ (some 0, codes "CWE") ∷ []

append_at-placed_example :
    (out : List Bytes) × (append_at (λ j. j == 1) cols args ≡ some out)
    × (length out ≡ 4)
    × ((p : ℕ) → Memᴰ p (2 ∷ 0 ∷ []) → get_elem? out p ≡ some (put_args args no_fields p))
append_at-placed_example = append_at-placed (λ j. j == 1) cols args (λ x m. in_record x m)
  where
    in_record : (x : ℕ) → Memᴰ x (2 ∷ 0 ∷ []) → x ≤ 2
    in_record x (Memᴰ.head e) = omega (arith, e)
    in_record x (Memᴰ.tail (Memᴰ.head e)) = omega (arith, e)
    in_record x (Memᴰ.tail (Memᴰ.tail m)) = absurd (Memᴰ.not-nil m)

-- A position past the end is cut to the length before the map is asked, so that the value is lost.
value_lost :
    append_at (λ j. false) (codes "a" ∷ []) ((some 5, codes "CVE") ∷ [])
    ≡ some (codes "a" ∷ [] ∷ [])
unfolding append_at
value_lost = refl

put_in : insert_column cols (codes "x") 2 ≡ codes "a" ∷ codes "x" ∷ codes "b" ∷ codes "c" ∷ []
unfolding insert_column
put_in = refl
