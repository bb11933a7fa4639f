-- ===== src/Feed/HeapDown.antt =====
-- cvefeed/evictionqueue.go: `down` and `Fix` restore the order of the heap.
use nvdtools.Prelude.{
  ℕ, zero, suc, ◌+◌, ◌*◌, ◌≤◌, ◌<◌, Option, none, some, List, ◌==◌, ==_iff, leb, ltb, length, ◌≡◌,
  ◌≢◌, refl, sym, ap, subst, ◌∙◌, arith, Bool-cases, inl, inr,
}
use nvdtools.Feed.Queue.{Item, child, down, up_unless_moved, fix}
use nvdtools.Feed.Shifts.{AtLeast, down-AtLeast}
use nvdtools.Feed.HeapUp.{
  age, parent, IsHeap, UpInv, Heaped, Swapped, less-age, up-Heaped, swap-Swapped,
}

-- The edges that do not touch `i` are in order, and so are those that pass it.
pub record Near (n : ℕ) (h : List Item) (i : ℕ) : Type 0 where
  pub others : (c : ℕ) → 0 < c → c < n → c ≢ i → parent c ≢ i → age h (parent c) ≤ age h c
  pub bridge : (c : ℕ) → 0 < c → c < n → parent c ≡ i → 0 < i → age h (parent i) ≤ age h c

-- The edge that ends at `i` is in order too.
abbrev pub Hangs : List Item → ℕ → Type 0
Hangs h i = 0 < i → age h (parent i) ≤ age h i

-- The child that is not younger than the other.
abbrev Least : ℕ → List Item → ℕ → ℕ → Type 0
Least n h i j =
    (parent j ≡ i)
    × (i < j)
    × (j < n)
    × ((c : ℕ) → 0 < c → c < n → parent c ≡ i → age h j ≤ age h c)

child-Least :
    (h : List Item) (i n : ℕ)
    → 2 * i + 1 < n
    → n ≤ length h
    → (j : ℕ) × (child h (2 * i + 1) n ≡ some j) × Least n h i j
unfolding child
child-Least h i n l le = elim (Bool-cases (ltb (2 * i + 1 + 1) n)) [
  | inr k ↦ (
    2 * i + 1,
    rw k refl,
    (
      omega arith,
      omega arith,
      l,
      λ c p q r.
          let only : c ≡ 2 * i + 1 = ground arith in
          subst (λ x. age h (2 * i + 1) ≤ age h x) (sym only) (omega arith),
    ),
  )
  | inl k ↦
      let two : 2 * i + 1 + 1 < n = ground arith in
      let test =
        less-age h (2 * i + 1 + 1) (2 * i + 1) (omega (arith, two, le)) (omega (arith, two, le)) in
      elim (Bool-cases (ltb (age h (2 * i + 1 + 1)) (age h (2 * i + 1)))) [
        | inl t ↦ (
          2 * i + 1 + 1,
          rw (k, test, t) refl,
          (
            omega arith,
            omega arith,
            two,
            λ c p q r. either (2 * i + 1 + 1) c p r (ground arith) (omega arith),
          ),
        )
        | inr t ↦ (
          2 * i + 1,
          rw (k, test, t) refl,
          (
            omega arith,
            omega arith,
            l,
            λ c p q r. either (2 * i + 1) c p r (omega arith) (ground arith),
          ),
        )
      ]
]
  where
    either :
        (j c : ℕ)
        → 0 < c
        → parent c ≡ i
        → age h j ≤ age h (2 * i + 1)
        → age h j ≤ age h (2 * i + 1 + 1)
        → age h j ≤ age h c
    either j c p r a b = elim (Bool-cases (c == 2 * i + 1)) [
      | inl e ↦ subst (λ x. age h j ≤ age h x) (sym ((==_iff c (2 * i + 1)).0 e)) a
      | inr e ↦
          let other : c ≡ 2 * i + 1 + 1 = ground arith in
          subst (λ x. age h j ≤ age h x) (sym other) b
    ]

-- In order with its children too, an item may be out of place with its parent only.
settled :
    (n : ℕ) (h : List Item) (i : ℕ)
    → Near n h i
    → ((c : ℕ) → 0 < c → c < n → parent c ≡ i → age h i ≤ age h c)
    → UpInv n h i
settled n h i near children = record {
  others = λ c p l ne. elim (Bool-cases (parent c == i)) [
    | inl e ↦
        let q = (==_iff (parent c) i).0 e in
        let same : age h (parent c) ≡ age h i = ap (age h) q in
        omega (arith, same, children c p l q)
    | inr e ↦ near.others c p l ne (λ q. absurd (ground (arith, q)))
  ];
  bridge = near.bridge;
}

hanging : (n : ℕ) (h : List Item) (i : ℕ) → UpInv n h i → Hangs h i → IsHeap n h
hanging n h i u k c p l = elim (Bool-cases (c == i)) [
  | inl e ↦
      let q = (==_iff c i).0 e in
      subst (λ x. age h (parent x) ≤ age h x) (sym q) (k (omega (arith, q, p)))
  | inr e ↦ u.others c p l (λ q. absurd (ground (arith, q)))
]

-- After a swap with the least child, the item may be out of place with its new children only.
swap-Near :
    (n : ℕ) (h h' : List Item) (i j : ℕ)
    → age h j < age h i
    → Near n h i
    → Least n h i j
    → Swapped h i j h'
    → Near n h' j × Hangs h' j
swap-Near n h h' i j lt near (up_there, below, inside, least) s = (
  record { others = other_edges; bridge = passing },
  λ pos.
      let same : age h' (parent j) ≡ age h' i = ap (age h') up_there in
      omega (arith, same, s.first, s.second, lt),
)
  where
    other_edges : (c : ℕ) → 0 < c → c < n → c ≢ j → parent c ≢ j → age h' (parent c) ≤ age h' c
    other_edges c p l ne np = elim (Bool-cases (c == i)) [
      | inl e ↦
          let q = (==_iff c i).0 e in
          let pos : 0 < i = omega (arith, q, p) in
          let b = near.bridge j (omega (arith, below)) inside up_there pos in
          let above =
            s.rest (parent i) (λ r. absurd (omega (arith, r, pos)))
              (λ r. absurd (omega (arith, r, below))) in
          subst (λ x. age h' (parent x) ≤ age h' x) (sym q) (omega (arith, b, above, s.first))
      | inr e ↦
          let ni : c ≢ i = λ q. absurd (ground (arith, q)) in
          let kept = s.rest c ni ne in
          elim (Bool-cases (parent c == i)) [
            | inl f ↦
                let q = (==_iff (parent c) i).0 f in
                let same : age h' (parent c) ≡ age h j = ap (age h') q ∙ s.first in
                omega (arith, kept, same, least c p l q)
            | inr f ↦
                let nq : parent c ≢ i = λ q. absurd (ground (arith, q)) in
                let above = s.rest (parent c) nq np in
                omega (arith, kept, above, near.others c p l ni nq)
          ]
    ]

    passing : (c : ℕ) → 0 < c → c < n → parent c ≡ j → 0 < j → age h' (parent j) ≤ age h' c
    passing c p l q pos =
        let nq : parent c ≢ i = λ r. absurd (omega (arith, r, q, below)) in
        let ni : c ≢ i = λ r. absurd (omega (arith, r, q, below)) in
        let nj : c ≢ j = λ r. absurd (omega (arith, r, q, pos)) in
        let here : age h' (parent j) ≡ age h j = ap (age h') up_there ∙ s.first in
        let same : age h (parent c) ≡ age h j = ap (age h) q in
        omega (arith, here, same, s.rest c ni nj, near.others c p l ni nq)

-- The rounds of `down` on a heap in which one item may be out of place.
down_round :
    (P : Option (List Item × ℕ) → Type 0) (fuel : ℕ) (h : List Item) (n i : ℕ)
    → i < n
    → n ≤ length h
    → Near n h i
    → (UpInv n h i → P (some (h, i)))
    → ((j : ℕ)
        → i < j
        → j < n
        → (h' : List Item) → length h' ≡ length h
        → Near n h' j
        → Hangs h' j
        → P (down fuel h' j n))
    → P (down (suc fuel) h i n)
unfolding down
down_round P fuel h n i l le near stays goes = elim (Bool-cases (leb n (2 * i + 1))) [
  | inl k ↦ rw k (stays (settled n h i near (λ c p q r. absurd (ground (arith, p, q, r)))))
  | inr k ↦
      let (j, found, least) = child-Least h i n (ground arith) le in
      let (up_there, below, inside, all) = least in
      let test = less-age h j i (omega (arith, inside, le)) (omega (arith, l, le)) in
      let (h', e, s) =
        swap-Swapped h i j (omega (arith, l, le)) (omega (arith, inside, le))
          (λ q. absurd (omega (arith, q, below))) in
      elim (Bool-cases (ltb (age h j) (age h i))) [
        | inl t ↦
            let (near', hangs) = swap-Near n h h' i j (ground arith) near least s in
            rw (k, found, test, t, e) (goes j below inside h' s.same_length near' hangs)
        | inr t ↦
            let old : age h i ≤ age h j = ground arith in
            rw (k, found, test, t)
              (stays (settled n h i near (λ c p q r. omega (arith, old, all c p q r))))
      ]
]

pub down-Heaped :
    (fuel : ℕ) (h : List Item) (n i : ℕ)
    → i < n
    → n ≤ length h
    → Near n h i
    → Hangs h i
    → Heaped n (down fuel h i n)
down-Heaped zero h n i l le near k = unfold down in tt
down-Heaped (suc fuel) h n i l le near k =
    down_round (Heaped n) fuel h n i l le near (λ u. hanging n h i u k)
      (λ j b q h' same near' k'. down-Heaped fuel h' n j q (omega (arith, same, le)) near' k')

-- What `down` leaves for `up` in `Fix`.
abbrev Sunk : ℕ → ℕ → Option (List Item × ℕ) → Type 0
Sunk n i none = Unit
Sunk n i (some (h, p)) = (i < p → IsHeap n h) × (p ≤ i → UpInv n h i × (n ≡ length h))

Sunk-deeper :
    (n i j : ℕ) (r : Option (List Item × ℕ)) → i < j → Heaped n r → AtLeast j r → Sunk n i r
Sunk-deeper n i j none lt k l = tt
Sunk-deeper n i j (some (h, p)) lt k l = (λ q. k, λ q. absurd (omega (arith, q, lt, l)))

-- `Fix` puts the item into its place.
pub fix-Heaped :
    (h : List Item) (i : ℕ) → i < length h → Near (length h) h i → Heaped (length h) (fix h i)
unfolding fix
fix-Heaped h i l near =
    let one_more : suc (length h) ≡ length h + 1 = omega arith in
    finished (down (length h + 1) h i (length h)) (
      subst (λ fuel. Sunk (length h) i (down fuel h i (length h))) one_more
        (down_round (Sunk (length h) i) (length h) h (length h) i l (omega arith) near
          (λ u. (λ q. absurd (omega (arith, q)), λ q. (u, refl)))
          (λ j b q h' same near' k'.
            Sunk-deeper (length h) i j (down (length h) h' j (length h)) b
              (down-Heaped (length h) h' (length h) j q (omega (arith, same)) near' k')
              (down-AtLeast (length h) h' j (length h)))))
  where
    finished :
        (r : Option (List Item × ℕ)) → Sunk (length h) i r → Heaped (length h) (up_unless_moved i r)
    finished none k = tt
    finished (some (h', p)) (below, here) = elim (Bool-cases (ltb i p)) [
      | inl t ↦ rw t (below (ground arith))
      | inr t ↦
          let (u, same) = here (ground arith) in rw t (up-Heaped (i + 1) h' (length h) i l same u)
    ]
