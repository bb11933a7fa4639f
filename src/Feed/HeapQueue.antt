-- ===== src/Feed/HeapQueue.antt =====
-- cvefeed/evictionqueue.go: `push`, `touch` and `pop` keep the order of the heap.
use nvdtools.Prelude.{
  ℕ, zero, suc, ◌+◌, ◌≤◌, ◌<◌, Option, none, some, List, [], ◌∷◌, ◌++◌, Bytes, ◌==◌, ==_iff,
  if◌then◌else◌, length, length-append, length-set, get_elem?, set, get_elem?-set, get_elem?-append,
  get_elem?-lt, lt-get_elem?, ◌≡◌, ◌≢◌, refl, sym, ap, subst, ◌∙◌, arith, Bool-cases, inl, inr,
}
use nvdtools.Feed.Queue.{
  Item, up, down, swap, fix, with_index, pair_with, index_of, push, touch, touch_item, pop,
  but_last, cut_after,
}
use nvdtools.Feed.Moves.{Ends}
use nvdtools.Feed.Shifts.{up-Ends, down-Ends, fix-Ends}
use nvdtools.Feed.QueueLaws.{but_last_lem}
use nvdtools.Feed.HeapUp.{access_of, age, parent, IsHeap, Heaped, up-Heaped, swap-Swapped}
use nvdtools.Feed.HeapDown.{down-Heaped, fix-Heaped}

-- A queue in the order of the heap.
abbrev pub Ordered : List Item → Type 0
Ordered h = IsHeap (length h) h

abbrev pub OrderedResult : Option (List Item × ℕ) → Type 0
OrderedResult none = Unit
OrderedResult (some (h, i)) = Ordered h

with_index-OrderedResult :
    (n i : ℕ) (h : List Item) (r : Option (List Item × ℕ))
    → n ≡ length h
    → Ends n h i r
    → Heaped n r
    → OrderedResult (with_index r)
with_index-OrderedResult n i h none e m k = tt
with_index-OrderedResult n i h (some (h', p)) e m k = paired (index_of (get_elem? h' p))
  where
    paired : (o : Option ℕ) → OrderedResult (pair_with h' o)
    paired none = tt
    paired (some x) = subst (λ l. IsHeap l h') (e ∙ sym m.same_length) k

pub push-OrderedResult :
    (h : List Item) (key : Bytes) (now : ℕ) → Ordered h → OrderedResult (push h key now)
unfolding push
push-OrderedResult h key now k =
    let item : Item = record { key = key; index = length h; access = now } in
    let h1 = h ++ item ∷ [] in
    let longer : length h1 ≡ length h + 1 = length-append h (item ∷ []) in
    let old : (c : ℕ) → c < length h → age h1 c ≡ age h c =
      λ c l. ap access_of (get_elem?-append h item c ∙ before (some item) (get_elem? h c) c l) in
    with_index-OrderedResult (length h + 1) (length h) h1 (up (length h + 1) h1 (length h))
      (sym longer)
      (up-Ends (length h + 1) h1 (length h + 1) (length h) (omega arith) (omega arith) (sym longer))
      (up-Heaped (length h + 1) h1 (length h + 1) (length h) (omega arith) (sym longer) (record {
        others = λ c p l ne.
            let inside : c < length h = apart c (length h) l ne in
            omega (arith, old c inside, old (parent c) (omega (arith, inside)), k c p inside);
        bridge = λ c p l q r. absurd (omega (arith, l, q, r));
      }))
  where
    before : {A : Type 0} (x y : A) (c : ℕ) → c < length h → (if c == length h then x else y) ≡ y
    before x y c l = elim (Bool-cases (c == length h)) [
      | inl e ↦ absurd (omega (arith, l, (==_iff c (length h)).0 e))
      | inr e ↦ rw e refl
    ]

    apart : (c n : ℕ) → c < n + 1 → c ≢ n → c < n
    apart c n l ne = elim (Bool-cases (c == n)) [
      | inl e ↦ absurd (ne ((==_iff c n).0 e))
      | inr e ↦ ground arith
    ]

touch_item-Ordered :
    (h : List Item) (i now : ℕ) (o : Option Item)
    → get_elem? h i ≡ o
    → Ordered h
    → OrderedResult (touch_item h i now o)
touch_item-Ordered h i now none e k = tt
touch_item-Ordered h i now (some x) e k =
    let item : Item = record x { access = now } in
    let h1 = set h i item in
    let l : i < length h = lt-get_elem? h i x e in
    let same : length h1 ≡ length h = length-set h i item in
    let l1 : i < length h1 = omega (arith, same, l) in
    let old : (c : ℕ) → c ≢ i → age h1 c ≡ age h c =
      λ c ne. ap access_of (get_elem?-set h i c item l ∙ missed (some item) (get_elem? h c) c ne) in
    with_index-OrderedResult (length h1) i h1 (fix h1 i) refl (fix-Ends h1 i l1) (
      fix-Heaped h1 i l1 (record {
        others = λ c p lt ne np.
            omega (arith, old c ne, old (parent c) np, k c p (omega (arith, lt, same)));
        bridge = λ c p lt q pos.
            let ne : c ≢ i = λ r. absurd (omega (arith, r, q, pos)) in
            let np : parent i ≢ i = λ r. absurd (omega (arith, r, pos)) in
            let a = k c p (omega (arith, lt, same)) in
            let b = k i pos l in
            let mid : age h (parent c) ≡ age h i = ap (age h) q in
            omega (arith, old c ne, old (parent i) np, a, b, mid);
      }))
  where
    missed : {A : Type 0} (x y : A) (c : ℕ) → c ≢ i → (if i == c then x else y) ≡ y
    missed x y c ne = elim (Bool-cases (i == c)) [
      | inl e ↦ absurd (ne (sym ((==_iff i c).0 e)))
      | inr e ↦ rw e refl
    ]

pub touch-OrderedResult : (h : List Item) (i now : ℕ) → Ordered h → OrderedResult (touch h i now)
unfolding touch
touch-OrderedResult h i now k = touch_item-Ordered h i now (get_elem? h i) refl k

-- No item of an ordered queue was used before the first.
first_least :
    (fuel : ℕ) (h : List Item) (c : ℕ) → Ordered h → c < fuel → c < length h → age h 0 ≤ age h c
first_least zero h c k f l = absurd (omega (arith, f))
first_least (suc fuel) h zero k f l = omega arith
first_least (suc fuel) h (suc c) k f l =
    let up_there = first_least fuel h (parent (suc c)) k (omega (arith, f)) (omega (arith, l)) in
    omega (arith, up_there, k (suc c) (omega arith) l)

pub Ordered-first : (h : List Item) (c : ℕ) → Ordered h → c < length h → age h 0 ≤ age h c
Ordered-first h c k l = first_least (suc c) h c k (omega arith) l

abbrev CutOrdered : Option (Bytes × List Item) → Type 0
CutOrdered none = Unit
CutOrdered (some (k, h)) = Ordered h

cut_after-CutOrdered :
    (n : ℕ) (s : List Item) (r : Option (List Item × ℕ))
    → length s ≡ n + 1
    → Ends n s 0 r
    → Heaped n r
    → CutOrdered (cut_after r)
cut_after-CutOrdered n s none e m k = tt
cut_after-CutOrdered n s (some (s', p)) e m k =
    let (y, q) = get_elem?-lt s' n (omega (arith, e, m.same_length)) in
    let (left, cut, l, w, same) = but_last_lem s' n y (omega (arith, e, m.same_length)) q in
    let old : (c : ℕ) → c < n → age left c ≡ age s' c = λ c lt. ap access_of (same c lt) in
    let heap : Ordered left = λ c pos lt.
      let inside : c < n = omega (arith, lt, l) in
      omega (arith, old c inside, old (parent c) (omega (arith, inside)), k c pos inside) in
    rw cut heap

pop-CutOrdered : (h : List Item) → Ordered h → CutOrdered (pop h)
unfolding pop
pop-CutOrdered [] k = λ c p l. absurd (omega (arith, l))
pop-CutOrdered (x ∷ []) k = unfold swap down but_last in λ c p l. absurd (omega (arith, l))
pop-CutOrdered (x ∷ y ∷ h) k =
    let n = length (y ∷ h) in
    let (s, e, w) =
      swap-Swapped (x ∷ y ∷ h) 0 n (omega arith) (omega arith) (λ q. absurd (omega (arith, q))) in
    let l : length s ≡ n + 1 = omega (arith, w.same_length) in
    let ends = down-Ends (n + 1) s 0 n (omega arith) (omega arith) (omega (arith, l)) in
    rw e (
      cut_after-CutOrdered n s (down (n + 1) s 0 n) l ends (
        down-Heaped (n + 1) s n 0 (omega arith) (omega (arith, l))
          (record {
            others = λ c p lt ne np.
                let a = w.rest c ne (λ q. absurd (omega (arith, q, lt))) in
                let b = w.rest (parent c) np (λ q. absurd (omega (arith, q, lt))) in
                omega (arith, a, b, k c p (omega (arith, lt)));
            bridge = λ c p lt q pos. absurd (omega (arith, pos));
          })
          (λ pos. absurd (omega (arith, pos)))))

pub pop-Ordered : (h h' : List Item) (key : Bytes) → pop h ≡ some (key, h') → Ordered h → Ordered h'
pop-Ordered h h' key e k = subst CutOrdered e (pop-CutOrdered h k)
