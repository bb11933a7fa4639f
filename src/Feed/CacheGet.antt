-- ===== src/Feed/CacheGet.antt =====
-- cvefeed/cvecache.go: the results that `Get` returns.
use nvdtools.Prelude.{
  ℕ, ◌+◌, ◌<◌, true, Option, none, some, [], Bytes, length, get_elem?-lt, text_eq_refl, ◌≡◌, ◌≢◌,
  refl,
}
use nvdtools.Feed.QueueLaws.{touch-Touched}
use nvdtools.Feed.Cache.{
  Run, done, Limit, disabled, unlimited, at_most, Entry, Cache, lookup, pending, look_up, touch_hit,
  hit_or_miss, get, go_on, get_cached, get_under,
}
use nvdtools.Feed.CacheInv.{Holds}
use nvdtools.Feed.CacheFinish.{room, finish-within}
use nvdtools.Feed.CacheSteps.{hit_or_miss-Holds, moved-Holds}

module _ {R : Type 0} (compute : Bytes → R) (tenth : ℕ → ℕ) (size_of : Bytes → R → ℕ) where
  -- A call ends with the result of its key and a cache that holds the invariant.
  abbrev pub Answers : Bytes → Run (Cache R × R) → Type 0
  Answers key run = (c : Cache R) × (run ≡ done (c, compute key)) × Holds compute 0 c

  -- A miss: the new entry waits, and there is room.
  miss-Answers :
      (c : Cache R) (key : Bytes) (now : ℕ)
      → Holds compute 0 c
      → lookup key c.entries ≡ some pending
      → room tenth c.limit (c.size + size_of key (compute key)) (size_of key (compute key)) ≡ true
      → Answers key (go_on tenth compute size_of key now c none)
  miss-Answers c key now i l r =
      let (c', q, i', _, _) =
        finish-within compute tenth c key pending (size_of key (compute key)) now i l refl r in
      (c', rw q refl, i')

  -- A hit on an entry that is ready, with an index within the queue.
  hit-Answers :
      (c : Cache R) (key : Bytes) (now : ℕ) (e : Entry R)
      → Holds compute 0 c
      → lookup key c.entries ≡ some e
      → e.ready ≡ true
      → e.eviction_index < length c.queue
      → Answers key (go_on tenth compute size_of key now c (some e))
  unfolding touch_hit
  hit-Answers c key now e i l r inside =
      let (x, at) = get_elem?-lt c.queue e.eviction_index inside in
      let (h, j, q, t) = touch-Touched c.queue e.eviction_index now i.indexed x at in
      (_, rw (i.right key e l r, q) refl, moved-Holds compute tenth c key h j i t.indexed t.weight)

  -- What a call needs of the entry that it finds.
  abbrev pub Touchable : Cache R → Bytes → Type 0
  Touchable c key =
      (e : Entry R)
      → lookup key c.entries ≡ some e
      → (e.ready ≡ true) × (e.eviction_index < length c.queue)

  after_look-Answers :
      (c : Cache R) (key : Bytes) (now : ℕ)
      → Holds compute 0 c
      → key ≢ []
      → Touchable c key
      → room tenth c.limit (c.size + size_of key (compute key)) (size_of key (compute key)) ≡ true
      → (o : Option (Entry R)) → lookup key c.entries ≡ o
      → let seen = hit_or_miss (record c { num_lookups = c.num_lookups + 1 }) key o in
        Answers key (go_on tenth compute size_of key now seen.0 seen.1)
  after_look-Answers c key now i named found r none q =
      miss-Answers (hit_or_miss (record c { num_lookups = c.num_lookups + 1 }) key none).0 key now
        (hit_or_miss-Holds compute tenth c key named i none q) (rw (text_eq_refl key) refl) r
  after_look-Answers c key now i named found r (some e) q =
      let (ready, inside) = found e q in
      hit-Answers (hit_or_miss (record c { num_lookups = c.num_lookups + 1 }) key (some e)).0 key
        now e (hit_or_miss-Holds compute tenth c key named i (some e) q) q ready inside

  cached-Answers :
      (c : Cache R) (key : Bytes) (now : ℕ)
      → Holds compute 0 c
      → key ≢ []
      → Touchable c key
      → room tenth c.limit (c.size + size_of key (compute key)) (size_of key (compute key)) ≡ true
      → Answers key (get_cached tenth compute size_of key now c)
  unfolding look_up
  cached-Answers c key now i named found r =
      after_look-Answers c key now i named found r (lookup key c.entries) refl

  -- Where the invariant holds and the key is not empty, a call returns the result of its key, from the
  -- cache or computed, and keeps the invariant, if the entry it may find is ready and holds an index
  -- within the queue, and there is room for the result it may compute.
  pub get-Answers :
      (c : Cache R) (key : Bytes) (now : ℕ)
      → Holds compute 0 c
      → key ≢ []
      → Touchable c key
      → room tenth c.limit (c.size + size_of key (compute key)) (size_of key (compute key)) ≡ true
      → Answers key (get tenth compute size_of c key now)
  unfolding get
  get-Answers c key now i named found r = under c.limit
    where
      under : (l : Limit) → Answers key (get_under tenth compute size_of l c key now)
      under disabled = (
        record c { num_lookups = c.num_lookups + 1 },
        refl,
        record {
          indexed = i.indexed;
          distinct = i.distinct;
          counted = i.counted;
          summed = i.summed;
          right = i.right;
          named = i.named;
        },
      )
      under unlimited = cached-Answers c key now i named found r
      under (at_most max) = cached-Answers c key now i named found r
