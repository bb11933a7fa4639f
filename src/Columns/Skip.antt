-- ===== src/Columns/Skip.antt =====
-- cmd/cpe2cve/fieldstoskip.go: `skipFields` and `appendAt`; cmd/csv2cpe/csv2cpe.go: `RemoveColumns` and
-- `InsertColumn`.
--
-- A set of indices is a test, with the number of its elements where the code asks for it. The positions
-- of `appendAt` are whole numbers, of which those below 0 are `none`.
use nvdtools.Prelude.{
  ℕ, zero, suc, ◌+◌, ◌-◌, Bool, ◌||◌, Option, none, some, List, [], ◌∷◌, ◌++◌, Bytes, ◌==◌, leb,
  if◌then◌else◌, length, get_elem?, set,
}

-- `fields[:n]`
unfoldable pub take : ℕ → List Bytes → List Bytes
take zero xs = []
take (suc n) [] = []
take (suc n) (x ∷ xs) = x ∷ take n xs

unfoldable pub drop : ℕ → List Bytes → List Bytes
drop zero xs = xs
drop (suc n) [] = []
drop (suc n) (x ∷ xs) = drop n xs

-- `fields[j] = fields[i]`, and on.
abbrev pub move_down :
    List Bytes → ℕ → Option Bytes → (List Bytes → Option (List Bytes)) → Option (List Bytes)
move_down fields j none onward = none
move_down fields j (some v) onward = onward (set fields j v)

-- The loop of `skipFields`, with `n` rounds left. An index out of range panics.
unfoldable pub skip_loop : ℕ → (ℕ → Bool) → ℕ → ℕ → List Bytes → Option (List Bytes)
unfolding take
skip_loop zero fs i j fields = some (take j fields)
skip_loop (suc n) fs i j fields =
    if fs i
    then skip_loop n fs (i + 1) j fields
    else move_down fields j (get_elem? fields i) (λ fields'. skip_loop n fs (i + 1) (j + 1) fields')

unfoldable pub skip_fields : (ℕ → Bool) → List Bytes → Option (List Bytes)
unfolding skip_loop
skip_fields fs fields = skip_loop (length fields) fs 0 0 fields

-- `RemoveColumns`, with columns counted from 1.
unfoldable pub remove_loop : (ℕ → Bool) → ℕ → List Bytes → List Bytes
remove_loop idx i [] = []
remove_loop idx i (col ∷ cols) =
    let rest = remove_loop idx (i + 1) cols in if idx (i + 1) then rest else col ∷ rest

unfoldable pub remove_columns : (ℕ → Bool) → ℕ → List Bytes → List Bytes
unfolding remove_loop
remove_columns idx size cols =
    if length cols == 0 || size == 0 then cols else remove_loop idx 0 cols

-- `InsertColumn`. `idx - 1` is not computed where `idx` is 0.
unfoldable pub insert_column : List Bytes → Bytes → ℕ → List Bytes
unfolding take drop
insert_column s c idx =
    if idx == 0 || leb (length s) (idx - 1)
    then s ++ c ∷ []
    else take (idx - 1) s ++ c ∷ drop (idx - 1) s

-- The map `fields`, where a later value for a position takes the place of an earlier one.
abbrev pub put_args : List (Option ℕ × Bytes) → (ℕ → Bytes) → ℕ → Bytes
put_args [] fields = fields
put_args ((none, arg) ∷ args) fields = put_args args fields
put_args ((some pos, arg) ∷ args) fields = put_args args (λ i. if pos == i then arg else fields i)

-- The map's answer for a position that it does not hold.
abbrev pub no_fields : ℕ → Bytes
no_fields i = []

abbrev pub keys : List (Option ℕ × Bytes) → List ℕ
keys [] = []
keys ((none, arg) ∷ args) = keys args
keys ((some pos, arg) ∷ args) = pos ∷ keys args

-- `sort.Ints`
unfoldable pub insert_sorted : ℕ → List ℕ → List ℕ
insert_sorted k [] = k ∷ []
insert_sorted k (x ∷ xs) = let rest = insert_sorted k xs in if leb k x then k ∷ x ∷ xs else x ∷ rest

unfoldable pub sort_ints : List ℕ → List ℕ
unfolding insert_sorted
sort_ints [] = []
sort_ints (k ∷ ks) = insert_sorted k (sort_ints ks)

-- One round of the loop over the keys: the position is cut to the length, and then the map is asked.
abbrev pub put_at : (ℕ → Bytes) → List Bytes → ℕ → List Bytes
put_at fields to i = take i to ++ fields i ∷ drop i to

unfoldable pub put_keys : (ℕ → Bytes) → List ℕ → List Bytes → List Bytes
unfolding take drop
put_keys fields [] to = to
put_keys fields (k ∷ ks) to =
    put_keys fields ks (put_at fields to (if leb k (length to) then k else length to))

abbrev pub put_all : List (Option ℕ × Bytes) → Option (List Bytes) → Option (List Bytes)
put_all args none = none
put_all args (some to) = some (put_keys (put_args args no_fields) (sort_ints (keys args)) to)

-- `appendAt`
unfoldable pub append_at : (ℕ → Bool) → List Bytes → List (Option ℕ × Bytes) → Option (List Bytes)
unfolding skip_fields put_keys sort_ints
append_at fs to args = put_all args (skip_fields fs to)
