-- ===== src/Feed/Shifts.antt =====
-- cvefeed/evictionqueue.go: pushing, popping and touching never panic within the heap, and keep its
-- items.
use nvdtools.Prelude.{
  ℕ, zero, suc, ◌+◌, ◌-◌, ◌*◌, ◌/◌, ◌≤◌, ◌<◌, Bool, true, false, Option, none, some, List, ◌==◌,
  leb, ltb, length, ◌≡◌, refl, sym, subst, ◌∙◌, arith, Bool-cases, inl, inr,
}
use nvdtools.Feed.Queue.{
  Item, swap, less, move_if, up, smaller_child, child, at_child, down, up_unless_moved, fix,
}
use nvdtools.Feed.Moves.{Moves, stays, onwards, swap-Moves, less-some, Ends, move_if-Ends}

-- A swap takes the second item to the index of the first.
swap-back :
    (n : ℕ) (h : List Item) (i j : ℕ) (h' : List Item)
    → i < n
    → j < n
    → n ≤ length h
    → swap h i j ≡ some h'
    → Moves n h j h' i
swap-back n h i j h' li lj le e =
    let (k, e', _, m) = swap-Moves n h i j li lj le in
    let q : k ≡ h' = cc in subst (λ t. Moves n h j t i) q m

-- With fuel above the index `up` ends, and moves the item.
pub up-Ends :
    (fuel : ℕ) (h : List Item) (n j : ℕ)
    → j < fuel
    → j < n
    → n ≡ length h
    → Ends n h j (up fuel h j)
unfolding up
up-Ends zero h n j f l e = absurd (omega arith)
up-Ends (suc fuel) h n j f l e = elim (Bool-cases ((j - 1) / 2 == j)) [
  | inl k ↦ rw k (stays n h j l)
  | inr k ↦
      let i = (j - 1) / 2 in
      let lt : (j - 1) / 2 < j = ground arith in
      rw k (
        move_if-Ends n h j i j i i j (λ h'. up fuel h' i) l l (omega arith) (omega arith)
          (omega arith) l (λ h' q. up-Ends fuel h' n i (omega arith) (omega arith) (e ∙ sym q))
          (λ h' q. swap-back n h i j h' (omega arith) l (omega arith) q))
]

child-some :
    (h : List Item) (j n : ℕ)
    → j < n
    → n ≤ length h
    → (c : ℕ) × (child h j n ≡ some c) × (j ≤ c) × (c < n)
unfolding child
child-some h j n l le = elim (Bool-cases (ltb (j + 1) n)) [
  | inl k ↦
      let lt : j + 1 < n = ground arith in
      let (b, e) = less-some h (j + 1) j (omega arith) (omega arith) in rw (k, e) (pick b lt)
  | inr k ↦ rw k (j, refl, omega arith, l)
]
  where
    pick :
        (b : Bool) → j + 1 < n → (c : ℕ) × (smaller_child j (some b) ≡ some c) × (j ≤ c) × (c < n)
    pick true lt = (j + 1, refl, omega arith, lt)
    pick false lt = (j, refl, omega arith, l)

-- With fuel for what is left of the heap `down` ends, and moves the item.
pub down-Ends :
    (fuel : ℕ) (h : List Item) (i n : ℕ)
    → i < n
    → n ≤ length h
    → n < i + fuel
    → Ends n h i (down fuel h i n)
unfolding down
down-Ends zero h i n l le f = absurd (omega arith)
down-Ends (suc fuel) h i n l le f = elim (Bool-cases (leb n (2 * i + 1))) [
  | inl k ↦ rw k (stays n h i l)
  | inr k ↦
      let lt : 2 * i + 1 < n = ground arith in
      let (j, e, ge, lj) = child-some h (2 * i + 1) n lt le in
      rw (k, e)
        (move_if-Ends n h i j j i i j (λ h'. down fuel h' j n) l lj l le l lj
          (λ h' q. down-Ends fuel h' j n lj (omega arith) (omega arith))
          (λ h' q.
            let (w, e', m, _) = swap-Moves n h i j l lj le in
            let p : w ≡ h' = cc in subst (λ t. Moves n h i t j) p m))
]

-- `down` ends no higher than it starts.
abbrev pub AtLeast : ℕ → Option (List Item × ℕ) → Type 0
AtLeast i none = Unit
AtLeast i (some (h, p)) = i ≤ p

AtLeast-weaken : (i j : ℕ) (r : Option (List Item × ℕ)) → i ≤ j → AtLeast j r → AtLeast i r
AtLeast-weaken i j none l a = tt
AtLeast-weaken i j (some (h, p)) l a = omega arith

AtLeast-move_if :
    (i : ℕ) (test : Option Bool) (swapped : Option (List Item)) (h : List Item)
    (onward : List Item → Option (List Item × ℕ))
    → ((h' : List Item) → AtLeast i (onward h'))
    → AtLeast i (move_if test swapped (h, i) onward)
AtLeast-move_if i none swapped h onward a = tt
AtLeast-move_if i (some false) swapped h onward a = omega arith
AtLeast-move_if i (some true) none h onward a = tt
AtLeast-move_if i (some true) (some h') h onward a = a h'

child-AtLeast :
    (i j : ℕ) (c : Option ℕ) (onward : ℕ → Option (List Item × ℕ))
    → ((k : ℕ) → c ≡ some k → AtLeast i (onward k))
    → AtLeast i (at_child c onward)
child-AtLeast i j none onward a = tt
child-AtLeast i j (some k) onward a = a k refl

smaller_child-le : (j k : ℕ) (b : Option Bool) → smaller_child j b ≡ some k → j ≤ k
smaller_child-le j k none e = cc
smaller_child-le j k (some true) e = ground arith
smaller_child-le j k (some false) e = ground arith

child-le : (h : List Item) (j n k : ℕ) → child h j n ≡ some k → j ≤ k
unfolding child
child-le h j n k e = elim (Bool-cases (ltb (j + 1) n)) [
  | inl t ↦ smaller_child-le j k (less h (j + 1) j) (rw t at e)
  | inr t ↦ let q : some j ≡ some k = rw t at e in ground arith
]

pub down-AtLeast : (fuel : ℕ) (h : List Item) (i n : ℕ) → AtLeast i (down fuel h i n)
unfolding down
down-AtLeast zero h i n = tt
down-AtLeast (suc fuel) h i n = elim (Bool-cases (leb n (2 * i + 1))) [
  | inl k ↦ rw k (omega arith)
  | inr k ↦ rw k (
      child-AtLeast i 0 (child h (2 * i + 1) n) _ (λ j e.
        AtLeast-move_if i (less h j i) (swap h i j) h (λ h'. down fuel h' j n)
          (λ h'.
            AtLeast-weaken i j (down fuel h' j n) (omega (arith, child-le h (2 * i + 1) n j e))
              (down-AtLeast fuel h' j n))))
]

pub fix-Ends : (h : List Item) (i : ℕ) → i < length h → Ends (length h) h i (fix h i)
unfolding fix
fix-Ends h i l =
    go (down (length h + 1) h i (length h))
      (down-Ends (length h + 1) h i (length h) l (omega arith) (omega arith))
      (down-AtLeast (length h + 1) h i (length h))
  where
    again :
        (h' : List Item) (r : Option (List Item × ℕ))
        → Moves (length h) h i h' i
        → Ends (length h) h' i r
        → Ends (length h) h i r
    again h' none m e = e
    again h' (some (h'', q)) m e = onwards m e

    go :
        (r : Option (List Item × ℕ))
        → Ends (length h) h i r
        → AtLeast i r
        → Ends (length h) h i (up_unless_moved i r)
    go none e a = e
    go (some (h', p)) m a = elim (Bool-cases (ltb i p)) [
      | inl k ↦ rw k m
      | inr k ↦
          let q : p ≡ i = ground arith in
          rw k (
            again h' (up (i + 1) h' i) (subst (λ t. Moves (length h) h i h' t) q m)
              (up-Ends (i + 1) h' (length h) i (omega arith) l (sym m.same_length)))
    ]
