-- ===== src/Feed/Queue.antt =====
-- cvefeed/evictionqueue.go: the queue of the cache, a heap over a slice with `container/heap`.
--
-- An item is the struct behind a pointer that only the slice holds. Times are numbers. An index past
-- the slice panics, `none`. The loops of `up` and `down` run on fuel.
use nvdtools.Prelude.{
  ℕ, zero, suc, ◌+◌, ◌-◌, ◌*◌, ◌/◌, Bool, true, false, Option, none, some, List, [], ◌∷◌, ◌++◌,
  Bytes, ◌==◌, leb, ltb, if◌then◌else◌, length, get_elem?, set,
}

-- `evictionData`
pub record Item : Type 0 where
  pub key : Bytes
  pub index : ℕ
  pub access : ℕ

abbrev pub swap_items : List Item → ℕ → ℕ → Option Item → Option Item → Option (List Item)
swap_items h i j (some x) (some y) =
    some (set (set h i (record y { index = i })) j (record x { index = j }))
swap_items h i j (some x) none = none
swap_items h i j none y = none

-- `Swap`
unfoldable pub swap : List Item → ℕ → ℕ → Option (List Item)
swap h i j = swap_items h i j (get_elem? h i) (get_elem? h j)

abbrev pub older : Option Item → Option Item → Option Bool
older (some x) (some y) = some (ltb x.access y.access)
older (some x) none = none
older none y = none

-- `Less`
unfoldable pub less : List Item → ℕ → ℕ → Option Bool
less h i j = older (get_elem? h i) (get_elem? h j)

-- To stay where one is, or to swap and go on.
abbrev pub move_if :
    Option Bool
    → Option (List Item)
    → List Item × ℕ
    → (List Item → Option (List Item × ℕ))
    → Option (List Item × ℕ)
move_if none swapped here onward = none
move_if (some false) swapped here onward = some here
move_if (some true) none here onward = none
move_if (some true) (some h) here onward = onward h

-- `heap.up`, with the index at which the item ends. `(j - 1) / 2` is 0 at 0, as in Go.
unfoldable pub up : ℕ → List Item → ℕ → Option (List Item × ℕ)
unfolding less swap
up zero h j = none
up (suc fuel) h j =
    let i = (j - 1) / 2 in
    if i == j then some (h, j) else move_if (less h j i) (swap h i j) (h, j) (λ h'. up fuel h' i)

abbrev pub smaller_child : ℕ → Option Bool → Option ℕ
smaller_child j none = none
smaller_child j (some true) = some (j + 1)
smaller_child j (some false) = some j

unfoldable pub child : List Item → ℕ → ℕ → Option ℕ
unfolding less
child h j n = if ltb (j + 1) n then smaller_child j (less h (j + 1) j) else some j

abbrev pub at_child : Option ℕ → (ℕ → Option (List Item × ℕ)) → Option (List Item × ℕ)
at_child none onward = none
at_child (some j) onward = onward j

-- `heap.down` on the first `n` items, with the index at which the item ends.
unfoldable pub down : ℕ → List Item → ℕ → ℕ → Option (List Item × ℕ)
unfolding less swap child
down zero h i n = none
down (suc fuel) h i n =
    if leb n (2 * i + 1)
    then some (h, i)
    else at_child (child h (2 * i + 1) n)
        (λ j. move_if (less h j i) (swap h i j) (h, i) (λ h'. down fuel h' j n))

-- The field `index` of the item at an index, which Go reads through the pointer.
abbrev pub index_of : Option Item → Option ℕ
index_of none = none
index_of (some x) = some x.index

abbrev pub pair_with : List Item → Option ℕ → Option (List Item × ℕ)
pair_with h none = none
pair_with h (some i) = some (h, i)

abbrev pub with_index : Option (List Item × ℕ) → Option (List Item × ℕ)
with_index none = none
with_index (some (h, p)) = pair_with h (index_of (get_elem? h p))

-- `push`, by `heap.Push`: the queue, and the index of the new item.
unfoldable pub push : List Item → Bytes → ℕ → Option (List Item × ℕ)
unfolding up
push h key now =
    with_index (
      up (length h + 1) (h ++ record { key = key; index = length h; access = now } ∷ []) (length h))

-- `heap.Fix`
abbrev pub up_unless_moved : ℕ → Option (List Item × ℕ) → Option (List Item × ℕ)
up_unless_moved i none = none
up_unless_moved i (some (h, p)) = if ltb i p then some (h, p) else up (i + 1) h i

unfoldable pub fix : List Item → ℕ → Option (List Item × ℕ)
unfolding up down
fix h i = up_unless_moved i (down (length h + 1) h i (length h))

abbrev pub touch_item : List Item → ℕ → ℕ → Option Item → Option (List Item × ℕ)
touch_item h i now none = none
touch_item h i now (some x) = with_index (fix (set h i (record x { access = now })) i)

-- `touch`
unfoldable pub touch : List Item → ℕ → ℕ → Option (List Item × ℕ)
unfolding fix
touch h i now = touch_item h i now (get_elem? h i)

-- The slice without its last item, and that item's key: `evictionHeap.Pop` behind `heap.down`.
abbrev pub cons_item : Item → Option (Bytes × List Item) → Option (Bytes × List Item)
cons_item x none = none
cons_item x (some (k, h)) = some (k, x ∷ h)

unfoldable pub but_last : List Item → Option (Bytes × List Item)
but_last [] = none
but_last (x ∷ []) = some (x.key, [])
but_last (x ∷ y ∷ h) = cons_item x (but_last (y ∷ h))

abbrev pub cut_after : Option (List Item × ℕ) → Option (Bytes × List Item)
cut_after none = none
cut_after (some (h, p)) = but_last h

abbrev pub down_and_cut : ℕ → Option (List Item) → Option (Bytes × List Item)
down_and_cut n none = none
down_and_cut n (some h) = cut_after (down (n + 1) h 0 n)

-- `pop`, by `heap.Pop`. An empty queue gives the empty key.
unfoldable pub pop : List Item → Option (Bytes × List Item)
unfolding swap down but_last
pop [] = some ([], [])
pop (x ∷ h) = let n = length h in down_and_cut n (swap (x ∷ h) 0 n)
