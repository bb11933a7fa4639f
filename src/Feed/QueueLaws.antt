-- ===== src/Feed/QueueLaws.antt =====
-- cvefeed/evictionqueue.go: what `push`, `touch` and `pop` promise.
use nvdtools.Prelude.{
  ℕ, zero, suc, ◌+◌, ◌≤◌, ◌<◌, Option, none, some, List, [], ◌∷◌, ◌++◌, Bytes, ==_refl, length,
  get_elem?, set, length-set, length-append, get_elem?-set, get_elem?-lt, lt-get_elem?,
  get_elem?-append, weigh-set, weigh-append, ◌≡◌, refl, sym, ap, ◌∙◌, arith,
}
use nvdtools.Feed.Queue.{Item, up, down, with_index, push, fix, touch, but_last, cut_after, pop}
use nvdtools.Feed.Moves.{Indexed, key_weight, stamp_weight, stamp_of, Moves, swap-Moves, Ends}
use nvdtools.Feed.Shifts.{up-Ends, down-Ends, fix-Ends}

-- A queue with one more key, and the index at which it stands.
pub record Pushed (h : List Item) (key : Bytes) (now : ℕ) (h' : List Item) (i : ℕ) : Type 0 where
  pub indexed : Indexed h'
  pub weight : (f : Bytes → ℕ) → key_weight f h' ≡ key_weight f h + f key
  pub stamps : (f : Bytes → ℕ → ℕ) → stamp_weight f h' ≡ stamp_weight f h + f key now
  pub found : stamp_of (get_elem? h' i) ≡ some (key, now)
  pub longer : length h' ≡ length h + 1

-- A queue with the same keys, in which the key at `i` stands at `j`.
pub record Touched (h : List Item) (i now : ℕ) (x : Item) (h' : List Item) (j : ℕ) : Type 0 where
  pub indexed : Indexed h'
  pub weight : (f : Bytes → ℕ) → key_weight f h' ≡ key_weight f h
  pub stamps :
      (f : Bytes → ℕ → ℕ) → stamp_weight f h' + f x.key x.access ≡ stamp_weight f h + f x.key now
  pub found : stamp_of (get_elem? h' j) ≡ some (x.key, now)
  pub same_length : length h' ≡ length h

-- A queue with one key less.
pub record Popped (h : List Item) (key : Bytes) (time : ℕ) (h' : List Item) : Type 0 where
  pub indexed : Indexed h'
  pub weight : (f : Bytes → ℕ) → f key + key_weight f h' ≡ key_weight f h
  pub stamps : (f : Bytes → ℕ → ℕ) → f key time + stamp_weight f h' ≡ stamp_weight f h
  pub first : stamp_of (get_elem? h 0) ≡ some (key, time)
  pub shorter : length h ≡ length h' + 1

-- In an indexed slice the field `index` of the item that moved is where it stands.
with_index_lem :
    (n : ℕ) (h : List Item) (i : ℕ) (r : Option (List Item × ℕ))
    → n ≡ length h
    → Indexed h
    → Ends n h i r
    → (h' : List Item) × (j : ℕ) × (with_index r ≡ some (h', j)) × Moves n h i h' j
with_index_lem n h i none e k m = absurd m
with_index_lem n h i (some (h', p)) e k m =
    let (x, q) = get_elem?-lt h' p (omega (arith, m.inside, m.same_length)) in
    let at : x.index ≡ p = m.indexed k p x q in (h', p, rw (q, at), m)

append-Indexed :
    (h : List Item) (key : Bytes) (now : ℕ)
    → Indexed h
    → Indexed (h ++ record { key = key; index = length h; access = now } ∷ [])
append-Indexed h key now k i x e =
    ground
      (arith, get_elem?-append h (record { key = key; index = length h; access = now }) i, k i x)

-- Pushing a key adds it, and gives the index at which it then stands.
pub push-Pushed :
    (h : List Item) (key : Bytes) (now : ℕ)
    → Indexed h
    → (h' : List Item) × (i : ℕ) × (push h key now ≡ some (h', i)) × Pushed h key now h' i
unfolding push
push-Pushed h key now k =
    let item : Item = record { key = key; index = length h; access = now } in
    let longer : length (h ++ item ∷ []) ≡ length h + 1 = length-append h (item ∷ []) in
    let (h', i, e, m) =
      with_index_lem (length h + 1) (h ++ item ∷ []) (length h)
        (up (length h + 1) (h ++ item ∷ []) (length h)) (sym longer) (append-Indexed h key now k)
        (up-Ends (length h + 1) (h ++ item ∷ []) (length h + 1) (length h) (omega arith)
          (omega arith) (sym longer)) in
    let added : (f : Bytes → ℕ → ℕ) → stamp_weight f h' ≡ stamp_weight f h + f key now =
      λ f. omega (arith, m.stamps f, weigh-append (λ x. f x.key x.access) h (item ∷ [])) in
    (
      h',
      i,
      e,
      record {
        indexed = m.indexed (append-Indexed h key now k);
        weight = λ f. added (λ k t. f k);
        stamps = added;
        found = m.carried ∙ rw (get_elem?-append h item (length h), ==_refl (length h));
        longer = m.same_length ∙ longer;
      },
    )

access-Indexed :
    (h : List Item) (i now : ℕ) (x : Item)
    → get_elem? h i ≡ some x
    → Indexed h
    → Indexed (set h i (record x { access = now }))
access-Indexed h i now x e k j y q =
    let l : i < length h = lt-get_elem? h i x e in
    ground (arith, get_elem?-set h i j (record x { access = now }), k i x e, k j y)

-- Touching an index within the queue keeps its keys, and gives the index at which the touched key
-- then stands.
pub touch-Touched :
    (h : List Item) (i now : ℕ)
    → Indexed h
    → (x : Item) → get_elem? h i ≡ some x
    → (h' : List Item) × (j : ℕ) × (touch h i now ≡ some (h', j)) × Touched h i now x h' j
unfolding touch
touch-Touched h i now k x e =
    let l = lt-get_elem? h i x e in
    let item : Item = record x { access = now } in
    let same : length (set h i item) ≡ length h = length-set h i item in
    let (h', j, q, m) =
      with_index_lem (length (set h i item)) (set h i item) i (fix (set h i item) i) refl
        (access-Indexed h i now x e k) (fix-Ends (set h i item) i (omega arith)) in
    (
      h',
      j,
      rw e q,
      record {
        indexed = m.indexed (access-Indexed h i now x e k);
        weight = λ f. omega (arith, m.stamps (λ k t. f k), weigh-set (λ y. f y.key) h i x item e);
        stamps = λ f. omega (arith, m.stamps f, weigh-set (λ y. f y.key y.access) h i x item e);
        found = m.carried ∙ rw (get_elem?-set h i i item l, ==_refl i) refl;
        same_length = m.same_length ∙ same;
      },
    )

-- Touching an index past the queue panics.
pub touch-none : (h : List Item) (i now : ℕ) → length h ≤ i → touch h i now ≡ none
unfolding touch
touch-none h i now l = rw (past h i l)
  where
    past : (g : List Item) (j : ℕ) → length g ≤ j → get_elem? g j ≡ none
    past [] j l = refl
    past (x ∷ g) zero l = absurd (omega arith)
    past (x ∷ g) (suc j) l = past g j (omega arith)

-- Cutting the last item off.
pub but_last_lem :
    (h : List Item) (n : ℕ) (x : Item)
    → length h ≡ n + 1
    → get_elem? h n ≡ some x
    → (r : List Item) × (but_last h ≡ some (x.key, r))
      × (length r ≡ n)
      × ((f : Bytes → ℕ → ℕ) → f x.key x.access + stamp_weight f r ≡ stamp_weight f h)
      × ((i : ℕ) → i < n → get_elem? r i ≡ get_elem? h i)
unfolding but_last
but_last_lem [] n x e q = absurd (omega arith)
but_last_lem (y ∷ []) zero x e q =
    let k : y ≡ x = cc in ([], rw k, refl, λ f. rw k, λ i l. absurd (omega arith))
but_last_lem (y ∷ []) (suc n) x e q = absurd (omega arith)
but_last_lem (y ∷ z ∷ h) zero x e q = absurd (omega arith)
but_last_lem (y ∷ z ∷ h) (suc n) x e q =
    let (r, cut, l, w, same) = but_last_lem (z ∷ h) n x (omega arith) q in
    (y ∷ r, rw cut, omega arith, λ f. omega (arith, w f), kept r same)
  where
    kept :
        (r : List Item)
        → ((i : ℕ) → i < n → get_elem? r i ≡ get_elem? (z ∷ h) i)
        → (i : ℕ) → i < suc n
        → get_elem? (y ∷ r) i ≡ get_elem? (y ∷ z ∷ h) i
    kept r same zero l = refl
    kept r same (suc i) l = same i (omega arith)

cut-Indexed :
    (h r : List Item)
    → Indexed h
    → length r ≤ length h
    → ((i : ℕ) → i < length r → get_elem? r i ≡ get_elem? h i)
    → Indexed r
cut-Indexed h r k l same i x e = k i x (sym (same i (lt-get_elem? r i x e)) ∙ e)

-- What is left of a heap whose first item was swapped to the end.
cut_after-Ends :
    (n : ℕ) (s : List Item) (y : Item) (r : Option (List Item × ℕ))
    → length s ≡ n + 1
    → Indexed s
    → get_elem? s n ≡ some y
    → (i : ℕ) → Ends n s i r
    → (h' : List Item) × (cut_after r ≡ some (y.key, h'))
      × Indexed h'
      × ((f : Bytes → ℕ → ℕ) → f y.key y.access + stamp_weight f h' ≡ stamp_weight f s)
      × (length h' ≡ n)
cut_after-Ends n s y none e k q i m = absurd m
cut_after-Ends n s y (some (s', p)) e k q i m =
    let (r, cut, l, w, same) =
      but_last_lem s' n y (omega (arith, m.same_length)) (m.beyond n (omega arith) ∙ q) in
    (
      r,
      cut,
      cut-Indexed s' r (m.indexed k) (omega (arith, m.same_length)) (λ j lt. same j (omega arith)),
      λ f. omega (arith, w f, m.stamps f),
      l,
    )

cut_down :
    (n : ℕ) (s : List Item) (y : Item)
    → length s ≡ n + 1
    → Indexed s
    → get_elem? s n ≡ some y
    → (h' : List Item) × (cut_after (down (n + 1) s 0 n) ≡ some (y.key, h'))
      × Indexed h'
      × ((f : Bytes → ℕ → ℕ) → f y.key y.access + stamp_weight f h' ≡ stamp_weight f s)
      × (length h' ≡ n)
cut_down zero s y e k q =
    let (r, cut, l, w, same) = but_last_lem s 0 y e q in
    (
      r,
      rw (down_at_once s) cut,
      cut-Indexed s r k (omega arith) (λ j lt. same j (omega arith)),
      w,
      l,
    )
  where
    down_at_once : (t : List Item) → down 1 t 0 0 ≡ some (t, 0)
    down_at_once t = unfold down in refl
cut_down (suc n) s y e k q =
    cut_after-Ends (suc n) s y (down (suc n + 1) s 0 (suc n)) e k q 0
      (down-Ends (suc n + 1) s 0 (suc n) (omega arith) (omega arith) (omega arith))

stamp_parts :
    (y : Item) (k : Bytes) (t : ℕ) → stamp_of (some y) ≡ some (k, t) → (y.key ≡ k) × (y.access ≡ t)
stamp_parts y k t p = (ap key_in p, ap time_in p)
  where
    key_in : Option (Bytes × ℕ) → Bytes
    key_in none = []
    key_in (some (k, t)) = k

    time_in : Option (Bytes × ℕ) → ℕ
    time_in none = 0
    time_in (some (k, t)) = t

-- Popping a queue that is not empty takes its first key away.
pub pop-Popped :
    (x : Item) (h : List Item)
    → Indexed (x ∷ h)
    → (h' : List Item) × (pop (x ∷ h) ≡ some (x.key, h')) × Popped (x ∷ h) x.key x.access h'
unfolding pop
pop-Popped x h k =
    let n = length h in
    let (s, e, m, _) = swap-Moves (n + 1) (x ∷ h) 0 n (omega arith) (omega arith) (omega arith) in
    let (y, q) = get_elem?-lt s n (omega (arith, m.same_length)) in
    let (key, time) = stamp_parts y x.key x.access (sym (ap stamp_of q) ∙ m.carried) in
    let (h', cut, j, w, l) = cut_down n s y (m.same_length ∙ omega arith) (m.indexed k) q in
    let less_one : (f : Bytes → ℕ → ℕ)
        → f x.key x.access + stamp_weight f h' ≡ stamp_weight f (x ∷ h) =
      λ f. omega (arith, w f, m.stamps f, ap (f y.key) time, ap (λ k. f k x.access) key) in
    (
      h',
      rw e (cut ∙ rw key),
      record {
        indexed = j;
        weight = λ f. less_one (λ k t. f k);
        stamps = less_one;
        first = refl;
        shorter = omega arith;
      },
    )
