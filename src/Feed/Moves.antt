-- ===== src/Feed/Moves.antt =====
-- cvefeed/evictionqueue.go: what the moves of the heap keep.
use nvdtools.Prelude.{
  ℕ, ◌≤◌, ◌<◌, Bool, true, false, Option, none, some, List, Bytes, ◌==◌, ==_refl, ==_iff, ltb,
  if◌then◌else◌, length, get_elem?, set, length-set, get_elem?-set, get_elem?-lt, weigh, weigh-set,
  ◌≡◌, refl, sym, ap, ◌∙◌, arith, Bool-cases, inl, inr,
}
use nvdtools.Feed.Queue.{Item, swap, less, move_if}

-- Each item holds its index.
abbrev pub Indexed : List Item → Type 0
Indexed h = (i : ℕ) (x : Item) → get_elem? h i ≡ some x → x.index ≡ i

-- The sum of a number for each key.
abbrev pub key_weight : (Bytes → ℕ) → List Item → ℕ
key_weight f = weigh (λ x. f x.key)

-- The sum of a number for each key with the time of its last touch.
abbrev pub stamp_weight : (Bytes → ℕ → ℕ) → List Item → ℕ
stamp_weight f = weigh (λ x. f x.key x.access)

-- The key of an item and the time of its last touch.
abbrev pub stamp_of : Option Item → Option (Bytes × ℕ)
stamp_of none = none
stamp_of (some x) = some (x.key, x.access)

-- What a move of the item at `from`, within the first `n` items, to the index `to` keeps.
pub record Moves (n : ℕ) (h : List Item) (from : ℕ) (h' : List Item) (to : ℕ) : Type 0 where
  pub inside : to < n
  pub same_length : length h' ≡ length h
  pub indexed : Indexed h → Indexed h'
  pub stamps : (f : Bytes → ℕ → ℕ) → stamp_weight f h' ≡ stamp_weight f h
  pub carried : stamp_of (get_elem? h' to) ≡ stamp_of (get_elem? h from)
  pub beyond : (m : ℕ) → n ≤ m → get_elem? h' m ≡ get_elem? h m

pub stays : (n : ℕ) (h : List Item) (i : ℕ) → i < n → Moves n h i h i
stays n h i lt = record {
  inside = lt;
  same_length = refl;
  indexed = λ k. k;
  stamps = λ f. refl;
  carried = refl;
  beyond = λ m le. refl;
}

pub onwards :
    {n : ℕ} {h h' h'' : List Item} {i j k : ℕ}
    → Moves n h i h' j
    → Moves n h' j h'' k
    → Moves n h i h'' k
onwards a b = record {
  inside = b.inside;
  same_length = b.same_length ∙ a.same_length;
  indexed = λ k. b.indexed (a.indexed k);
  stamps = λ f. b.stamps f ∙ a.stamps f;
  carried = b.carried ∙ a.carried;
  beyond = λ m le. b.beyond m le ∙ a.beyond m le;
}

module _ (h : List Item) (i j : ℕ) (x y : Item) (hi : get_elem? h i ≡ some x)
    (hj : get_elem? h j ≡ some y) (li : i < length h) (lj : j < length h) where
  abbrev swapped : List Item
  swapped = set (set h i (record y { index = i })) j (record x { index = j })

  get_elem?-swapped :
      (c : ℕ)
      → get_elem? swapped c ≡ (
          if j == c
          then some (record x { index = j })
          else if i == c
          then some (record y { index = i })
          else get_elem? h c)
  get_elem?-swapped c = rw (
    get_elem?-set (set h i (record y { index = i })) j c (record x { index = j })
        (omega (arith, length-set h i (record y { index = i }))),
    get_elem?-set h i c (record y { index = i }) li,
  )

  swapped-Indexed : Indexed h → Indexed swapped
  swapped-Indexed k c z e = ground (arith, get_elem?-swapped c, k c z)

  swapped-stamp_weight : (f : Bytes → ℕ → ℕ) → stamp_weight f swapped ≡ stamp_weight f h
  swapped-stamp_weight f = elim (Bool-cases (i == j)) [
    | inl e ↦
        let v : get_elem? (set h i (record y { index = i })) j ≡ some (record y { index = i }) =
          ground (arith, get_elem?-set h i j (record y { index = i })) in
        omega (
          arith,
          weigh-set (λ z. f z.key z.access) h i x (record y { index = i }) hi,
          weigh-set (λ z. f z.key z.access) (set h i (record y { index = i })) j
              (record y { index = i }) (record x { index = j }) v,
        )
    | inr e ↦
        let v : get_elem? (set h i (record y { index = i })) j ≡ some y =
          ground (arith, get_elem?-set h i j (record y { index = i })) in
        omega (
          arith,
          weigh-set (λ z. f z.key z.access) h i x (record y { index = i }) hi,
          weigh-set (λ z. f z.key z.access) (set h i (record y { index = i })) j y
              (record x { index = j }) v,
        )
  ]

  swapped-Moves : (n : ℕ) → i < n → j < n → Moves n h i swapped j
  swapped-Moves n ni nj = record {
    inside = nj;
    same_length =
        length-set (set h i (record y { index = i })) j (record x { index = j })
        ∙ length-set h i (record y { index = i });
    indexed = swapped-Indexed;
    stamps = swapped-stamp_weight;
    carried = rw (get_elem?-swapped j, hi, ==_refl j);
    beyond = λ m le. ground (arith, get_elem?-swapped m);
  }

  swapped-Moves_back : (n : ℕ) → i < n → j < n → Moves n h j swapped i
  swapped-Moves_back n ni nj = record {
    inside = ni;
    same_length = (swapped-Moves n ni nj).same_length;
    indexed = swapped-Indexed;
    stamps = swapped-stamp_weight;
    carried = elim (Bool-cases (j == i)) [
      | inl e ↦
          let q : some x ≡ some y = sym hi ∙ ap (get_elem? h) (sym ((==_iff j i).0 e)) ∙ hj in
          rw (get_elem?-swapped i, hj, e) (cc)
      | inr e ↦ rw (get_elem?-swapped i, hj, e, ==_refl i)
    ];
    beyond = λ m le. ground (arith, get_elem?-swapped m);
  }

-- `Swap` of two items takes each to the index of the other.
pub swap-Moves :
    (n : ℕ) (h : List Item) (i j : ℕ)
    → i < n
    → j < n
    → n ≤ length h
    → (h' : List Item) × (swap h i j ≡ some h') × Moves n h i h' j × Moves n h j h' i
unfolding swap
swap-Moves n h i j ni nj le =
    let (x, hx) = get_elem?-lt h i (omega arith) in
    let (y, hy) = get_elem?-lt h j (omega arith) in
    (
      swapped h i j x y hx hy (omega arith) (omega arith),
      rw (hx, hy),
      swapped-Moves h i j x y hx hy (omega arith) (omega arith) n ni nj,
      swapped-Moves_back h i j x y hx hy (omega arith) (omega arith) n ni nj,
    )

pub less-some :
    (h : List Item) (i j : ℕ) → i < length h → j < length h → (b : Bool) × (less h i j ≡ some b)
unfolding less
less-some h i j li lj =
    let (x, hx) = get_elem?-lt h i li in
    let (y, hy) = get_elem?-lt h j lj in (ltb x.access y.access, rw (hx, hy))

-- What a loop ends with: no panic, enough fuel, and a move of the item at `from`.
abbrev pub Ends : ℕ → List Item → ℕ → Option (List Item × ℕ) → Type 0
Ends n h from none = ⊥
Ends n h from (some (h', to)) = Moves n h from h' to

Ends-onwards :
    (n : ℕ) (h h' : List Item) (i j : ℕ) (r : Option (List Item × ℕ))
    → Moves n h i h' j
    → Ends n h' j r
    → Ends n h i r
Ends-onwards n h h' i j none m e = e
Ends-onwards n h h' i j (some (h'', to)) m e = onwards m e

pub move_if-Ends :
    (n : ℕ) (h : List Item) (i j c d a b : ℕ) (onward : List Item → Option (List Item × ℕ))
    → i < n
    → c < n
    → d < n
    → n ≤ length h
    → a < n
    → b < n
    → ((h' : List Item) → length h' ≡ length h → Ends n h' j (onward h'))
    → ((h' : List Item) → swap h a b ≡ some h' → Moves n h i h' j)
    → Ends n h i (move_if (less h c d) (swap h a b) (h, i) onward)
move_if-Ends n h i j c d a b onward li lc ld le la lb go moved =
    let (test, t) = less-some h c d (omega arith) (omega arith) in
    let (h', e, _, _) = swap-Moves n h a b la lb le in
    let mv = moved h' e in rw (t, e) (split test h' mv)
  where
    split :
        (test : Bool) (h' : List Item)
        → Moves n h i h' j
        → Ends n h i (move_if (some test) (some h') (h, i) onward)
    split true h' m = Ends-onwards n h h' i j (onward h') m (go h' m.same_length)
    split false h' m = stays n h i li
