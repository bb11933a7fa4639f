-- ===== src/Feed/CacheInv.antt =====
-- cvefeed/cvecache.go: the invariant of the cache and of its eviction.
use nvdtools.Prelude.{
  ℕ, zero, suc, ◌+◌, ◌≤◌, ◌<◌, true, false, none, some, List, [], ◌∷◌, Bytes, length, ltb, text_eq,
  text_eq_iff, text_eq_refl, ◌≡◌, refl, sym, ap, subst, ◌∙◌, arith, Bool-cases, inl, inr, ◌⊎◌,
}
use nvdtools.Feed.Queue.{Item, pop}
use nvdtools.Feed.QueueLaws.{Popped, pop-Popped}
use nvdtools.Feed.Moves.{Indexed, key_weight}
use nvdtools.Feed.Cache.{Run, done, panicked, Entry, Cache, lookup, evict, evict_popped, drop_entry}
use nvdtools.Feed.CacheMap.{
  one_if, Distinct, ready_weight, ready_size, ready_size-none, lookup-counted, erase-sums,
  lookup-erase, erase-Distinct,
}

List-cases {ℓ} : {A : Type ℓ} (xs : List A) → (xs ≡ []) ⊎ ((x : A) × (h : List A) × (xs ≡ x ∷ h))
List-cases [] = inl refl
List-cases (x ∷ xs) = inr (x, xs, refl)

pop-nil : pop [] ≡ some ([], [])
unfolding pop
pop-nil = refl

module _ {R : Type 0} (compute : Bytes → R) where
  -- The keys of the queue are those of the entries that are ready, each once, and their sizes with
  -- `extra` add up to the size. The result of an entry that is ready is that of its key. No key is
  -- empty.
  pub record Holds (extra : ℕ) (c : Cache R) : Type 0 where
    pub indexed : Indexed c.queue
    pub distinct : Distinct c.entries
    pub counted : (f : Bytes → ℕ) → key_weight f c.queue ≡ ready_weight f c.entries
    pub summed : c.size ≡ ready_size c.entries + extra
    pub right :
        (k : Bytes) (e : Entry R)
        → lookup k c.entries ≡ some e
        → e.ready ≡ true
        → e.res ≡ some (compute k)
    pub named : lookup [] c.entries ≡ none

  -- What the eviction leaves: the entries that wait for their result, and the limit.
  pub record Kept (c c' : Cache R) : Type 0 where
    pub waiting :
        (k : Bytes) (e : Entry R)
        → lookup k c.entries ≡ some e
        → e.ready ≡ false
        → lookup k c'.entries ≡ some e
    pub limit : c'.limit ≡ c.limit

  pub stays_kept : (c : Cache R) → Kept c c
  stays_kept c = record { waiting = λ k e l r. l; limit = refl }

  kept_on : {a b c : Cache R} → Kept a b → Kept b c → Kept a c
  kept_on p q = record {
    waiting = λ k e l r. q.waiting k e (p.waiting k e l r) r;
    limit = q.limit ∙ p.limit;
  }

  -- Dropping the entry of the key that was popped.
  drop-Holds :
      (extra time : ℕ) (c : Cache R) (k : Bytes) (h : List Item) (e : Entry R)
      → Holds extra c
      → Popped c.queue k time h
      → lookup k c.entries ≡ some e
      → e.ready ≡ true
      → Holds extra (drop_entry c k h e) × Kept c (drop_entry c k h e)
  drop-Holds extra time c k h e i p l r = (
    record {
      indexed = p.indexed;
      distinct = erase-Distinct k c.entries i.distinct;
      counted = λ f.
          omega (arith, p.weight f, i.counted f, (erase-sums k c.entries e f i.distinct l r).0);
      summed =
          let s = (erase-sums k c.entries e (λ x. 0) i.distinct l r).1 in
          omega (arith, s, i.summed);
      right = λ j e' l' r'. ground (arith, lookup-erase j k c.entries, i.right j e');
      named = ground (arith, lookup-erase [] k c.entries, i.named);
    },
    record {
      waiting = λ j e' l' r'. elim (Bool-cases (text_eq k j)) [
        | inl q ↦
            let same : lookup k c.entries ≡ some e' =
              ap (λ x. lookup x c.entries) ((text_eq_iff k j).0 q) ∙ l' in
            cc
        | inr q ↦ rw (lookup-erase j k c.entries, q) l'
      ];
      limit = refl;
    },
  )

  -- One round of the eviction of a queue that is not empty.
  round :
      (extra : ℕ) (c : Cache R) (x : Item) (h : List Item) (onward : Cache R → Run (Cache R))
      → c.queue ≡ x ∷ h
      → Holds extra c
      → (c' : Cache R) × (evict_popped c (pop c.queue) onward ≡ onward c')
        × Holds extra c'
        × Kept c c'
        × (length c.queue ≡ length c'.queue + 1)
  round extra c x h onward q i =
      let (h', e, p) = pop-Popped x h (subst Indexed q i.indexed) in
      let p' : Popped c.queue x.key x.access h' =
        subst (λ z. Popped z x.key x.access h') (sym q) p in
      let one : one_if x.key x.key ≡ 1 = ground (arith, text_eq_refl x.key) in
      let (en, l, r) =
        lookup-counted x.key c.entries i.distinct
          (omega (arith, one, p'.weight (one_if x.key), i.counted (one_if x.key))) in
      let (a, b) = drop-Holds extra x.access c x.key h' en i p' l r in
      (drop_entry c x.key h' en, rw (q, e, l), a, b, p'.shorter)

  -- Over the limit with an empty queue, the size is the one that was just added.
  empty-size : (extra : ℕ) (c : Cache R) → Holds extra c → c.queue ≡ [] → c.size ≡ extra
  empty-size extra c i q =
      let none_ready : ready_weight (λ k. 1) c.entries ≡ 0 =
        sym (i.counted (λ k. 1)) ∙ ap (key_weight (λ k. 1)) q in
      omega (arith, i.summed, ready_size-none c.entries none_ready)

  at_empty :
      (c : Cache R) (onward : Cache R → Run (Cache R))
      → c.queue ≡ []
      → lookup [] c.entries ≡ none
      → evict_popped c (pop c.queue) onward ≡ panicked
  at_empty c onward q n =
      subst (λ p. evict_popped c p onward ≡ panicked) (sym (ap pop q ∙ pop-nil)) (rw n refl)

  -- The eviction ends with room for what it is asked for, if the size just added leaves that room.
  pub evict-Holds :
      (fuel max nbytes extra : ℕ) (c : Cache R)
      → Holds extra c
      → length c.queue < fuel
      → extra + nbytes ≤ max
      → (c' : Cache R) × (evict fuel max nbytes c ≡ done c')
        × Holds extra c'
        × Kept c c'
        × (c'.size + nbytes ≤ max)
  unfolding evict
  evict-Holds zero max nbytes extra c i l room = absurd (omega arith)
  evict-Holds (suc fuel) max nbytes extra c i l room =
      elim (Bool-cases (ltb max (c.size + nbytes))) [
        | inr t ↦ (c, rw t refl, i, stays_kept c, ground arith)
        | inl t ↦ elim (List-cases c.queue) [
          | inl q ↦ absurd (ground (arith, empty-size extra c i q))
          | inr (x, h, q) ↦
              let (c1, e, i1, k1, s) = round extra c x h (λ c'. evict fuel max nbytes c') q i in
              let (c2, e2, i2, k2, fits) =
                evict-Holds fuel max nbytes extra c1 i1 (omega arith) room in
              (c2, rw t (e ∙ e2), i2, kept_on k1 k2, fits)
        ]
      ]

  -- Otherwise it takes all entries and then panics.
  pub evict-panics :
      (fuel max nbytes extra : ℕ) (c : Cache R)
      → Holds extra c
      → length c.queue < fuel
      → max < extra + nbytes
      → evict fuel max nbytes c ≡ panicked
  unfolding evict
  evict-panics zero max nbytes extra c i l room = absurd (omega arith)
  evict-panics (suc fuel) max nbytes extra c i l room =
      let over : ltb max (c.size + nbytes) ≡ true = ground (arith, i.summed) in
      elim (List-cases c.queue) [
        | inl q ↦ rw over (at_empty c (λ c'. evict fuel max nbytes c') q i.named)
        | inr (x, h, q) ↦
            let (c1, e, i1, k1, s) = round extra c x h (λ c'. evict fuel max nbytes c') q i in
            rw over (e ∙ evict-panics fuel max nbytes extra c1 i1 (omega arith) room)
      ]
