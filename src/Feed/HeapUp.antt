-- ===== src/Feed/HeapUp.antt =====
-- cvefeed/evictionqueue.go: the order of the heap, and that `up` restores it.
use nvdtools.Prelude.{
  ℕ, zero, suc, ◌-◌, ◌/◌, ◌≤◌, ◌<◌, Bool, true, false, Option, none, some, List, ◌==◌, ==_iff,
  ==_refl, if◌then◌else◌, ltb, length, get_elem?, set, length-set, get_elem?-set, get_elem?-lt, ◌≡◌,
  ◌≢◌, refl, sym, ap, subst, ◌∙◌, arith, Bool-cases, inl, inr,
}
use nvdtools.Feed.Queue.{Item, swap, less, move_if, up}

abbrev pub access_of : Option Item → ℕ
access_of none = 0
access_of (some x) = x.access

-- The time of the last access of the item at an index.
abbrev pub age : List Item → ℕ → ℕ
age h i = access_of (get_elem? h i)

abbrev pub parent : ℕ → ℕ
parent c = (c - 1) / 2

-- No item of the first `n` was used before its parent.
abbrev pub IsHeap : ℕ → List Item → Type 0
IsHeap n h = (c : ℕ) → 0 < c → c < n → age h (parent c) ≤ age h c

-- The edges that do not end at `i` are in order, and so are those that pass `i`.
pub record UpInv (n : ℕ) (h : List Item) (i : ℕ) : Type 0 where
  pub others : (c : ℕ) → 0 < c → c < n → c ≢ i → age h (parent c) ≤ age h c
  pub bridge : (c : ℕ) → 0 < c → c < n → parent c ≡ i → 0 < i → age h (parent i) ≤ age h c

abbrev pub Heaped : ℕ → Option (List Item × ℕ) → Type 0
Heaped n none = Unit
Heaped n (some (h, p)) = IsHeap n h

-- What a swap makes of the times.
pub record Swapped (h : List Item) (i j : ℕ) (h' : List Item) : Type 0 where
  pub same_length : length h' ≡ length h
  pub first : age h' i ≡ age h j
  pub second : age h' j ≡ age h i
  pub rest : (c : ℕ) → c ≢ i → c ≢ j → age h' c ≡ age h c

pub swap-Swapped :
    (h : List Item) (i j : ℕ)
    → i < length h
    → j < length h
    → i ≢ j
    → (h' : List Item) × (swap h i j ≡ some h') × Swapped h i j h'
unfolding swap
swap-Swapped h i j li lj ne =
    let (x, hx) = get_elem?-lt h i li in
    let (y, hy) = get_elem?-lt h j lj in
    let h1 = set h i (record y { index = i }) in
    let h2 = set h1 j (record x { index = j }) in
    let l1 : length h1 ≡ length h = length-set h i (record y { index = i }) in
    let read : (c : ℕ)
        → get_elem? h2 c ≡ (
            if j == c
            then some (record x { index = j })
            else if i == c
            then some (record y { index = i })
            else get_elem? h c) =
      λ c.
        rw
          (
            get_elem?-set h1 j c (record x { index = j }) (omega (arith, l1, lj)),
            get_elem?-set h i c (record y { index = i }) li,
          )
          refl in
    let apart : (j == i) ≡ false = elim (Bool-cases (j == i)) [
      | inl e ↦ absurd (ne (sym ((==_iff j i).0 e)))
      | inr e ↦ e
    ] in
    (
      h2,
      rw (hx, hy) refl,
      record {
        same_length = length-set h1 j (record x { index = j }) ∙ l1;
        first = rw (read i, apart, ==_refl i, hy) refl;
        second = rw (read j, ==_refl j, hx) refl;
        rest = λ c ni nj. ap access_of (read c ∙ missed _ _ _ c ni nj);
      },
    )
  where
    missed :
        {A : Type 0} (a b d : A) (c : ℕ)
        → c ≢ i
        → c ≢ j
        → (if j == c then a else if i == c then b else d) ≡ d
    missed a b d c ni nj = elim (Bool-cases (j == c)) [
      | inl e ↦ absurd (nj (sym ((==_iff j c).0 e)))
      | inr e ↦ elim (Bool-cases (i == c)) [
        | inl f ↦ absurd (ni (sym ((==_iff i c).0 f)))
        | inr f ↦ rw (e, f) refl
      ]
    ]

pub less-age :
    (h : List Item) (i j : ℕ)
    → i < length h
    → j < length h
    → less h i j ≡ some (ltb (age h i) (age h j))
unfolding less
less-age h i j li lj =
    let (x, hx) = get_elem?-lt h i li in let (y, hy) = get_elem?-lt h j lj in rw (hx, hy) refl

-- After a swap with the parent, the item that was there may be out of place with its own parent only.
swap-UpInv :
    (n : ℕ) (h h' : List Item) (j : ℕ)
    → 0 < j
    → age h j < age h (parent j)
    → UpInv n h j
    → Swapped h (parent j) j h'
    → UpInv n h' (parent j)
swap-UpInv n h h' j pos lt u s = record { others = other_edges; bridge = passing }
  where
    other_edges : (c : ℕ) → 0 < c → c < n → c ≢ parent j → age h' (parent c) ≤ age h' c
    other_edges c p l ne = elim (Bool-cases (c == j)) [
      | inl e ↦
          let q = (==_iff c j).0 e in
          subst (λ x. age h' (parent x) ≤ age h' x) (sym q) (omega (arith, s.first, s.second, lt))
      | inr e ↦
          let apart : c ≢ j = λ q. absurd (ground (arith, q)) in
          let kept = s.rest c ne apart in
          elim (Bool-cases (parent c == j)) [
            | inl f ↦
                let q = (==_iff (parent c) j).0 f in
                let b = u.bridge c p l q pos in
                let up_there : age h' (parent c) ≡ age h (parent j) = ap (age h') q ∙ s.second in
                omega (arith, b, kept, up_there)
            | inr f ↦ elim (Bool-cases (parent c == parent j)) [
              | inl g ↦
                  let q = (==_iff (parent c) (parent j)).0 g in
                  let old = u.others c p l apart in
                  let up_there : age h' (parent c) ≡ age h j = ap (age h') q ∙ s.first in
                  let same : age h (parent c) ≡ age h (parent j) = ap (age h) q in
                  omega (arith, old, kept, up_there, same, lt)
              | inr g ↦
                  let old = u.others c p l apart in
                  let up_there =
                    s.rest (parent c) (λ q. absurd (ground (arith, q)))
                      (λ q. absurd (ground (arith, q))) in
                  omega (arith, old, kept, up_there)
            ]
          ]
    ]

    passing :
        (c : ℕ)
        → 0 < c
        → c < n
        → parent c ≡ parent j
        → 0 < parent j
        → age h' (parent (parent j)) ≤ age h' c
    passing c p l q pos' =
        let above =
          u.others (parent j) pos' (omega (arith, l, q)) (λ e. absurd (omega (arith, e, pos))) in
        let kept =
          s.rest (parent (parent j)) (λ e. absurd (omega (arith, e, pos')))
            (λ e. absurd (omega (arith, e, pos))) in
        elim (Bool-cases (c == j)) [
          | inl e ↦
              let same : age h' c ≡ age h (parent j) = ap (age h') ((==_iff c j).0 e) ∙ s.second in
              omega (arith, above, kept, same)
          | inr e ↦
              let apart : c ≢ j = λ r. absurd (ground (arith, r)) in
              let old = u.others c p l apart in
              let same : age h (parent c) ≡ age h (parent j) = ap (age h) q in
              let here = s.rest c (λ r. absurd (omega (arith, r, q, p, pos'))) apart in
              omega (arith, above, kept, old, same, here)
        ]

pub Heaped-move_if :
    (n : ℕ) (h : List Item) (i j p : ℕ) (test : Bool) (onward : List Item → Option (List Item × ℕ))
    → i < length h
    → j < length h
    → i ≢ j
    → (test ≡ false → IsHeap n h)
    → (test ≡ true → (h' : List Item) → Swapped h i j h' → Heaped n (onward h'))
    → Heaped n (move_if (some test) (swap h i j) (h, p) onward)
Heaped-move_if n h i j p false onward li lj ne stay go = stay refl
Heaped-move_if n h i j p true onward li lj ne stay go =
    let (h', e, s) = swap-Swapped h i j li lj ne in rw e (go refl h' s)

-- Moving up restores the order.
pub up-Heaped :
    (fuel : ℕ) (h : List Item) (n j : ℕ)
    → j < n
    → n ≡ length h
    → UpInv n h j
    → Heaped n (up fuel h j)
unfolding up
up-Heaped zero h n j l e u = tt
up-Heaped (suc fuel) h n j l e u = elim (Bool-cases (parent j == j)) [
  | inl k ↦
      let at_root : j ≡ 0 = ground arith in
      rw k (λ c p q. u.others c p q (λ r. absurd (omega (arith, r, p, at_root))))
  | inr k ↦
      let pos : 0 < j = ground arith in
      let below : parent j < j = omega (arith, pos) in
      let inside : parent j < length h = omega (arith, below, l, e) in
      rw (k, less-age h j (parent j) (omega (arith, l, e)) inside)
        (Heaped-move_if n h (parent j) j j (ltb (age h j) (age h (parent j)))
          (λ h'. up fuel h' (parent j)) inside (omega (arith, l, e))
          (λ q. absurd (omega (arith, q, below)))
          (λ t c p q. elim (Bool-cases (c == j)) [
            | inl r ↦
                subst (λ x. age h (parent x) ≤ age h x) (sym ((==_iff c j).0 r)) (ground arith)
            | inr r ↦ u.others c p q (λ s. absurd (ground (arith, s)))
          ])
          (λ t h' s.
            up-Heaped fuel h' n (parent j) (omega (arith, below, l)) (e ∙ sym s.same_length)
              (swap-UpInv n h h' j pos (ground arith) u s)))
]
