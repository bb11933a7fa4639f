-- ===== src/Feed/CacheFinish.antt =====
-- cvefeed/cvecache.go: when a result is put into the cache, and what the cache then holds.
use nvdtools.Prelude.{
  ℕ, ◌+◌, ◌≤◌, Bool, true, false, some, List, [], ◌∷◌, Bytes, length, if◌then◌else◌, ltb, ◌≡◌, refl,
  ap, ◌∙◌, arith, Bool-cases, inl, inr, ◌↔◌, leb,
}
use nvdtools.Feed.Queue.{Item, push}
use nvdtools.Feed.QueueLaws.{push-Pushed}
use nvdtools.Feed.Moves.{key_weight}
use nvdtools.Feed.Cache.{
  done, panicked, Limit, disabled, unlimited, at_most, Entry, Cache, lookup, assign, evict_over,
  enqueue, finish,
}
use nvdtools.Feed.CacheMap.{
  ready_weight-length, lookup-assign, assign-Distinct, ready-sums, read_written,
}
use nvdtools.Feed.CacheInv.{Holds, Kept, stays_kept, evict-Holds, evict-panics}

-- A size that a limit allows.
abbrev pub within : Limit → ℕ → Bool
within disabled n = true
within unlimited n = true
within (at_most max) n = leb n max

-- Room for a result: the size with it is allowed, or the result alone leaves what the eviction asks for.
abbrev pub room : (ℕ → ℕ) → Limit → ℕ → ℕ → Bool
room tenth disabled total size = true
room tenth unlimited total size = true
room tenth (at_most max) total size = if ltb max total then leb (size + tenth max) max else true

module _ {R : Type 0} (compute : Bytes → R) (tenth : ℕ → ℕ) where
  -- Once the size is added and room is made, the result is put in the queue and in its entry.
  enqueue-Holds :
      (c : Cache R) (key : Bytes) (e : Entry R) (size now : ℕ)
      → Holds compute size c
      → lookup key c.entries ≡ some e
      → e.ready ≡ false
      → (c' : Cache R) × (enqueue c key (compute key) size (push c.queue key now) ≡ done c')
        × Holds compute 0 c'
        × (c'.size ≡ c.size)
        × (c'.limit ≡ c.limit)
  enqueue-Holds c key e size now i l w =
      let (h, j, q, p) = push-Pushed c.queue key now i.indexed in
      let e' : Entry R = record {
        res = some (compute key);
        ready = true;
        size = size;
        eviction_index = j;
      } in
      let sums = λ (f : Bytes → ℕ). ready-sums key f e' c.entries e i.distinct l w refl in
      (
        record c { queue = h; entries = assign key (λ x. e') c.entries },
        rw q,
        record {
          indexed = p.indexed;
          distinct = assign-Distinct key (λ x. e') c.entries i.distinct;
          counted = λ f. omega (arith, p.weight f, i.counted f, (sums f).0);
          summed = let s = (sums (λ x. 0)).1 in omega (arith, s, i.summed);
          right = λ k x l' r'. elim (read_written k key (λ y. e') c.entries x l') [
            | inl (same, _, _, b) ↦
                let a : e'.res ≡ some (compute k) = ap (λ y. some (compute y)) same in
                ap (λ y. y.res) b ∙ a
            | inr before ↦ i.right k x before r'
          ];
          named = rw (lookup-assign [] key (λ x. e') c.entries, i.named) (ground arith);
        },
        refl,
        refl,
      )

  -- Adding a size to the cache.
  grown-Holds :
      (c : Cache R) (size : ℕ)
      → Holds compute 0 c
      → Holds compute size (record c { size = c.size + size })
  grown-Holds c size i = record {
    indexed = i.indexed;
    distinct = i.distinct;
    counted = i.counted;
    summed = omega (arith, i.summed);
    right = i.right;
    named = i.named;
  }

  queue-short :
      {extra : ℕ} (c : Cache R) → Holds compute extra c → length c.queue ≤ length c.entries
  queue-short c i =
      omega (arith, i.counted (λ k. 1), ready_weight-length c.entries, weigh_ones c.queue)
    where
      weigh_ones : (h : List Item) → key_weight (λ k. 1) h ≡ length h
      weigh_ones [] = refl
      weigh_ones (x ∷ h) = omega (arith, weigh_ones h)

  -- The eviction before a result is put in.
  evict_over-room :
      (c : Cache R) (limit : Limit) (size : ℕ)
      → Holds compute size c
      → room tenth limit c.size size ≡ true
      → (c' : Cache R) × (evict_over tenth c limit ≡ done c')
        × Holds compute size c'
        × Kept compute c c'
        × (within limit c'.size ≡ true)
  unfolding evict_over
  evict_over-room c disabled size i r = (c, refl, i, stays_kept compute c, refl)
  evict_over-room c unlimited size i r = (c, refl, i, stays_kept compute c, refl)
  evict_over-room c (at_most max) size i r = elim (Bool-cases (ltb max c.size)) [
    | inr t ↦ (c, rw t refl, i, stays_kept compute c, ground arith)
    | inl t ↦
        let (c', e, i', k, l) =
          evict-Holds compute (length c.entries + 1) max (tenth max) size c i
            (omega (arith, queue-short c i)) (ground arith) in
        (c', rw t e, i', k, ground arith)
  ]

  evict_over-no_room :
      (c : Cache R) (limit : Limit) (size : ℕ)
      → Holds compute size c
      → room tenth limit c.size size ≡ false
      → evict_over tenth c limit ≡ panicked
  unfolding evict_over
  evict_over-no_room c disabled size i r = cc
  evict_over-no_room c unlimited size i r = cc
  evict_over-no_room c (at_most max) size i r =
      let over : ltb max c.size ≡ true = ground arith in
      rw over (
        evict-panics compute (length c.entries + 1) max (tenth max) size c i
          (omega (arith, queue-short c i)) (ground arith))

  -- A result for which there is room is put in, and the size of the cache is then allowed.
  pub finish-within :
      (c : Cache R) (key : Bytes) (e : Entry R) (size now : ℕ)
      → Holds compute 0 c
      → lookup key c.entries ≡ some e
      → e.ready ≡ false
      → room tenth c.limit (c.size + size) size ≡ true
      → (c' : Cache R) × (finish tenth c key (compute key) size now ≡ done c')
        × Holds compute 0 c'
        × (c'.limit ≡ c.limit)
        × (within c.limit c'.size ≡ true)
  unfolding finish
  finish-within c key e size now i l w r =
      let grown = record c { size = c.size + size } in
      let (c1, q1, i1, k1, b1) = evict_over-room grown c.limit size (grown-Holds c size i) r in
      let (c2, q2, i2, s2, l2) = enqueue-Holds c1 key e size now i1 (k1.waiting key e l w) w in
      (c2, rw q1 q2, i2, l2 ∙ k1.limit, ap (within c.limit) s2 ∙ b1)

  -- Where the invariant holds, putting in the result of an entry that waits panics if and only if there
  -- is no room for it.
  pub finish-panics_iff :
      (c : Cache R) (key : Bytes) (e : Entry R) (size now : ℕ)
      → Holds compute 0 c
      → lookup key c.entries ≡ some e
      → e.ready ≡ false
      → (finish tenth c key (compute key) size now ≡ panicked)
        ↔ (room tenth c.limit (c.size + size) size ≡ false)
  unfolding finish
  finish-panics_iff c key e size now i l w = (there, back)
    where
      there :
          finish tenth c key (compute key) size now ≡ panicked
          → room tenth c.limit (c.size + size) size ≡ false
      there p = elim (Bool-cases (room tenth c.limit (c.size + size) size)) [
        | inl r ↦ let (c', q, _, _, _) = finish-within c key e size now i l w r in cc
        | inr r ↦ r
      ]

      back :
          room tenth c.limit (c.size + size) size ≡ false
          → finish tenth c key (compute key) size now ≡ panicked
      back r =
          let grown = record c { size = c.size + size } in
          rw (evict_over-no_room grown c.limit size (grown-Holds c size i) r) refl
