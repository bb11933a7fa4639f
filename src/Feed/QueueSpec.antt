-- ===== src/Feed/QueueSpec.antt =====
-- cvefeed/evictionqueue.go: the queue as a priority queue of keys with the times of their last touch.
use nvdtools.Prelude.{
  ℕ, suc, ltb, Bool-cases, inl, inr, get_elem?-lt, ◌+◌, ◌≤◌, Option, none, some, List, [], ◌∷◌,
  Bytes, All, length, get_elem?, ◌≡◌, refl, sym, ap, subst, ◌∙◌, arith, lt-get_elem?,
}
use nvdtools.Feed.Queue.{Item, push, touch, pop}
use nvdtools.Feed.Moves.{Indexed, stamp_of, stamp_weight}
use nvdtools.Feed.QueueLaws.{push-Pushed, touch-Touched, touch-none, pop-Popped}
use nvdtools.Feed.HeapUp.{age, access_of}
use nvdtools.Feed.HeapQueue.{
  Ordered, OrderedResult, push-OrderedResult, touch-OrderedResult, pop-Ordered, Ordered-first,
}

-- A call on the queue, and the queue that it leaves.
pub data Call : Type 0 where
  pushes : Bytes → ℕ → Call
  touches_at : ℕ → ℕ → Call
  pops : Call

abbrev pub left_by : Option (List Item × ℕ) → Option (List Item)
left_by none = none
left_by (some (h, i)) = some h

abbrev pub left_after : Option (Bytes × List Item) → Option (List Item)
left_after none = none
left_after (some (k, h)) = some h

unfoldable pub call : Call → List Item → Option (List Item)
call (pushes key now) h = left_by (push h key now)
call (touches_at i now) h = left_by (touch h i now)
call pops h = left_after (pop h)

-- The queues that calls lead to from the empty one.
pub data Queue : List Item → Type 0 where
  empty : Queue []
  after : {h h' : List Item} (c : Call) → Queue h → call c h ≡ some h' → Queue h'

-- What a call promises. The sums, over all numbers for keys and times, say which keys are in the queue
-- with which times: one more when it is pushed, one with a new time when it is touched, and one less,
-- whose time is the least, when it is popped.
abbrev pub PushesKey : Bytes → ℕ → List Item → Type 0
PushesKey key now h =
    (h' : List Item) × (i : ℕ) × (push h key now ≡ some (h', i))
    × (stamp_of (get_elem? h' i) ≡ some (key, now))
    × ((f : Bytes → ℕ → ℕ) → stamp_weight f h' ≡ stamp_weight f h + f key now)

abbrev pub TouchesItem : ℕ → ℕ → List Item → Option Item → Type 0
TouchesItem i now h none = touch h i now ≡ none
TouchesItem i now h (some x) =
    (h' : List Item) × (j : ℕ) × (touch h i now ≡ some (h', j))
    × (stamp_of (get_elem? h' j) ≡ some (x.key, now))
    × ((f : Bytes → ℕ → ℕ) → stamp_weight f h' + f x.key x.access ≡ stamp_weight f h + f x.key now)

abbrev pub PopsLeast : List Item → Type 0
PopsLeast [] = pop [] ≡ some ([], [])
PopsLeast (x ∷ r) =
    (key : Bytes) × (time : ℕ) × (h' : List Item) × (pop (x ∷ r) ≡ some (key, h'))
    × ((f : Bytes → ℕ → ℕ) → f key time + stamp_weight f h' ≡ stamp_weight f (x ∷ r))
    × All (λ y. time ≤ y.access) (x ∷ r)

abbrev pub Serves : Call → List Item → Type 0
Serves (pushes key now) h = PushesKey key now h
Serves (touches_at i now) h = TouchesItem i now h (get_elem? h i)
Serves pops h = PopsLeast h

-- What all these queues have: each item has its index, and the heap its order.
pub record Good (h : List Item) : Type 0 where
  pub indexed : Indexed h
  pub ordered : Ordered h

get_elem?-none : (h : List Item) (i : ℕ) → get_elem? h i ≡ none → length h ≤ i
get_elem?-none h i e = elim (Bool-cases (ltb i (length h))) [
  | inl t ↦ let (x, f) = get_elem?-lt h i (ground arith) in let g = sym e ∙ f in cc
  | inr t ↦ ground arith
]

pushes-Good :
    (h h' : List Item) (key : Bytes) (now : ℕ)
    → Good h
    → left_by (push h key now) ≡ some h'
    → Good h'
pushes-Good h h' key now g e =
    let (k, i, q, p) = push-Pushed h key now g.indexed in
    let same : some k ≡ some h' = sym (ap left_by q) ∙ e in
    let first : k ≡ h' = cc in
    record {
      indexed = subst Indexed first p.indexed;
      ordered =
          subst Ordered first (subst OrderedResult q (push-OrderedResult h key now g.ordered));
    }

touches-Good :
    (h h' : List Item) (i now : ℕ)
    → Good h
    → (o : Option Item) → get_elem? h i ≡ o
    → left_by (touch h i now) ≡ some h'
    → Good h'
touches-Good h h' i now g none q e =
    let p = sym (ap left_by (touch-none h i now (get_elem?-none h i q))) ∙ e in cc
touches-Good h h' i now g (some x) q e =
    let (k, j, t, p) = touch-Touched h i now g.indexed x q in
    let same : some k ≡ some h' = sym (ap left_by t) ∙ e in
    let first : k ≡ h' = cc in
    record {
      indexed = subst Indexed first p.indexed;
      ordered = subst Ordered first (subst OrderedResult t (touch-OrderedResult h i now g.ordered));
    }

pops-Good : (h h' : List Item) → Good h → left_after (pop h) ≡ some h' → Good h'
pops-Good [] h' g e = unfold pop in let first : [] ≡ h' = cc in subst Good first g
pops-Good (x ∷ r) h' g e =
    let (k, q, p) = pop-Popped x r g.indexed in
    let same : some k ≡ some h' = sym (ap left_after q) ∙ e in
    let first : k ≡ h' = cc in
    record {
      indexed = subst Indexed first p.indexed;
      ordered = subst Ordered first (pop-Ordered (x ∷ r) k x.key q g.ordered);
    }

Queue-Good : (h : List Item) → Queue h → Good h
Queue-Good h empty = record { indexed = λ i x e. cc; ordered = λ i p l. absurd (omega (arith, l)) }
Queue-Good h (after {h = k} (pushes key now) q e) =
    pushes-Good k h key now (Queue-Good k q) (unfold call in e)
Queue-Good h (after {h = k} (touches_at i now) q e) =
    touches-Good k h i now (Queue-Good k q) (get_elem? k i) refl (unfold call in e)
Queue-Good h (after {h = k} pops q e) = pops-Good k h (Queue-Good k q) (unfold call in e)

All-least :
    (t : ℕ) (h : List Item)
    → ((i : ℕ) (y : Item) → get_elem? h i ≡ some y → t ≤ y.access)
    → All (λ y. t ≤ y.access) h
All-least t [] k = tt
All-least t (x ∷ h) k = (k 0 x refl, All-least t h (λ i y e. k (suc i) y e))

pop-PopsLeast : (h : List Item) → Good h → PopsLeast h
pop-PopsLeast [] g = unfold pop in refl
pop-PopsLeast (x ∷ r) g =
    let (h', q, p) = pop-Popped x r g.indexed in
    (
      x.key,
      x.access,
      h',
      q,
      p.stamps,
      All-least x.access (x ∷ r) (λ i y e.
          let least = Ordered-first (x ∷ r) i g.ordered (lt-get_elem? (x ∷ r) i y e) in
          let here : age (x ∷ r) i ≡ y.access = ap access_of e in omega (arith, least, here)),
    )

touch-TouchesItem :
    (h : List Item) (i now : ℕ)
    → Good h
    → (o : Option Item) → get_elem? h i ≡ o
    → TouchesItem i now h o
touch-TouchesItem h i now g none e = touch-none h i now (get_elem?-none h i e)
touch-TouchesItem h i now g (some x) e =
    let (h', j, t, p) = touch-Touched h i now g.indexed x e in (h', j, t, p.found, p.stamps)

-- In every queue that calls lead to from the empty one, a push adds its key with its time, a touch of
-- an index gives the key that stands there the new time, or panics if none does, both return an index
-- at which that key stands with that time, and a pop takes a key whose time is the least of all, or
-- gives the empty key if there is none.
pub call-Serves : (h : List Item) (c : Call) → Queue h → Serves c h
call-Serves h (pushes key now) q =
    let (h', i, e, p) = push-Pushed h key now (Queue-Good h q).indexed in
    (h', i, e, p.found, p.stamps)
call-Serves h (touches_at i now) q = touch-TouchesItem h i now (Queue-Good h q) (get_elem? h i) refl
call-Serves h pops q = pop-PopsLeast h (Queue-Good h q)
