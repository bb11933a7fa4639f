-- ===== src/Feed/CacheSteps.antt =====
-- cvefeed/cvecache.go: calls of `Get` that come in between each other, as steps under the lock.
use nvdtools.Prelude.{
  ℕ, ◌+◌, true, false, Option, none, some, List, [], ◌∷◌, ◌++◌, Bytes, length, get_elem?,
  get_elem?-lt, set, ltb, text_eq, text_eq_iff, ◌≡◌, ◌≢◌, refl, sym, ap, subst, ◌∙◌, arith,
  Bool-cases, inl, inr,
}
use nvdtools.Feed.Queue.{Item, touch}
use nvdtools.Feed.QueueLaws.{touch-Touched, touch-none}
use nvdtools.Feed.Moves.{Indexed, key_weight}
use nvdtools.Feed.Cache.{
  Run, done, panicked, out_of_fuel, Limit, disabled, unlimited, at_most, Entry, Cache, lookup,
  assign, new_cache, look_up, hit_or_miss, finish, moved_to, touch_hit,
}
use nvdtools.Feed.CacheMap.{lookup-assign, assign-Distinct, index-sums, read_written}
use nvdtools.Feed.CacheInv.{Holds}
use nvdtools.Feed.CacheFinish.{within, room, finish-within, finish-panics_iff}

run-injective : {A : Type 0} {x y : A} → Path (Run A) (done x) (done y) → x ≡ y
run-injective {A} {x} p = ap (of_run x) p
  where
    of_run : A → Run A → A
    of_run d (done y) = y
    of_run d panicked = d
    of_run d out_of_fuel = d

-- The indices of the entries that are not there any more.
abbrev pub kept_or : {A : Type 0} → ℕ → Option A → List ℕ → List ℕ
kept_or i none rest = i ∷ rest
kept_or i (some e) rest = rest

abbrev pub evicted : {R : Type 0} → List (Bytes × Entry R) → List (Bytes × Entry R) → List ℕ
evicted [] after = []
evicted ((k, e) ∷ before) after = kept_or e.eviction_index (lookup k after) (evicted before after)

module _ {R : Type 0} (compute : Bytes → R) (tenth : ℕ → ℕ) where
  -- A step of a call under the lock, on the cache and the indices that the evicted entries hold: its
  -- key is looked up; its result is put in, if the entry still waits for it, and evicts others; a
  -- ready entry is touched with the index that it holds. A call that waited for an entry still has it
  -- when it has been evicted, and touches its index too. Which call makes a step, and in which order
  -- it makes its own, is left open: the steps of all calls are among these.
  pub data Step : Cache R → List ℕ → Cache R → List ℕ → Type 0 where
    looks : {c : Cache R} {o : List ℕ} (key : Bytes) → key ≢ [] → Step c o (look_up c key).0 o
    finishes :
        {c c' : Cache R} {o : List ℕ} (key : Bytes) (e : Entry R) (size now : ℕ)
        → lookup key c.entries ≡ some e
        → e.ready ≡ false
        → finish tenth c key (compute key) size now ≡ done c'
        → Step c o c' (o ++ evicted c.entries c'.entries)
    touches :
        {c c' : Cache R} {o : List ℕ} (key : Bytes) (e : Entry R) (now : ℕ)
        → lookup key c.entries ≡ some e
        → e.ready ≡ true
        → touch_hit c key e.eviction_index now ≡ done c'
        → Step c o c' o
    touches_evicted :
        {c : Cache R} {o : List ℕ} (n i now j : ℕ) (h : List Item)
        → get_elem? o n ≡ some i
        → touch c.queue i now ≡ some (h, j)
        → Step c o (record c { queue = h }) (set o n j)

  -- The caches that are reached, with the indices of what was evicted on the way.
  pub data Reach (c : Cache R) : Cache R → List ℕ → Type 0 where
    at_start : Reach c c []
    and_then : {c' c'' : Cache R} {o o' : List ℕ} → Reach c c' o → Step c' o c'' o' → Reach c c'' o'

  pub new_cache-Holds : (limit : Limit) → Holds compute 0 (new_cache limit)
  new_cache-Holds limit = record {
    indexed = λ i x e. cc;
    distinct = tt;
    counted = λ f. refl;
    summed = refl;
    right = λ k e l r. cc;
    named = refl;
  }

  pub hit_or_miss-Holds :
      (c : Cache R) (key : Bytes)
      → key ≢ []
      → Holds compute 0 c
      → (o : Option (Entry R)) → lookup key c.entries ≡ o
      → Holds compute 0 (hit_or_miss (record c { num_lookups = c.num_lookups + 1 }) key o).0
  hit_or_miss-Holds c key named i (some e) q = record {
    indexed = i.indexed;
    distinct = i.distinct;
    counted = i.counted;
    summed = i.summed;
    right = i.right;
    named = i.named;
  }
  hit_or_miss-Holds c key named i none q = record {
    indexed = i.indexed;
    distinct = (q, i.distinct);
    counted = λ f. omega (arith, i.counted f);
    summed = omega (arith, i.summed);
    right = λ k e l r. ground (arith, i.right k e);
    named = elim (Bool-cases (text_eq key [])) [
      | inl t ↦ absurd (named ((text_eq_iff key []).0 t))
      | inr t ↦ rw t i.named
    ];
  }

  pub look_up-Holds :
      (c : Cache R) (key : Bytes) → key ≢ [] → Holds compute 0 c → Holds compute 0 (look_up c key).0
  unfolding look_up
  look_up-Holds c key named i = hit_or_miss-Holds c key named i (lookup key c.entries) refl

  -- A touch that does not panic keeps the keys of the queue.
  touch-keeps :
      (q : List Item) (i now : ℕ) (h : List Item) (j : ℕ)
      → Indexed q
      → touch q i now ≡ some (h, j)
      → Indexed h × ((f : Bytes → ℕ) → key_weight f h ≡ key_weight f q)
  touch-keeps q i now h j k e = elim (Bool-cases (ltb i (length q))) [
    | inl t ↦
        let (x, here) = get_elem?-lt q i (ground arith) in
        let (h', j', e', m) = touch-Touched q i now k x here in
        let same : some (h', j') ≡ some (h, j) = sym e' ∙ e in
        let first : h' ≡ h = cc in
        (subst Indexed first m.indexed, λ f. ap (key_weight f) (sym first) ∙ m.weight f)
    | inr t ↦ let p = touch-none q i now (ground arith) in cc
  ]

  -- The queue and the entry after a touch.
  pub moved-Holds :
      (c : Cache R) (key : Bytes) (h : List Item) (j : ℕ)
      → Holds compute 0 c
      → Indexed h
      → ((f : Bytes → ℕ) → key_weight f h ≡ key_weight f c.queue)
      → Holds compute 0 (record c {
        queue = h;
        entries = assign key (λ e. record e { eviction_index = j }) c.entries;
      })
  moved-Holds c key h j i k w = record {
    indexed = k;
    distinct = assign-Distinct key (λ e. record e { eviction_index = j }) c.entries i.distinct;
    counted = λ f. w f ∙ i.counted f ∙ sym (index-sums key f j c.entries).0;
    summed = let s = (index-sums key (λ x. 0) j c.entries).1 in omega (arith, s, i.summed);
    right = λ k x l r.
        elim (read_written k key (λ e. record e { eviction_index = j }) c.entries x l) [
          | inl (same, e, found, b) ↦
              let before : lookup k c.entries ≡ some e =
                ap (λ y. lookup y c.entries) (sym same) ∙ found in
              ap (λ y. y.res) b ∙ i.right k e before (sym (ap (λ y. y.ready) b) ∙ r)
          | inr before ↦ i.right k x before r
        ];
    named =
        rw (lookup-assign [] key (λ e. record e { eviction_index = j }) c.entries, i.named)
          (ground arith);
  }

  touch_hit-Holds :
      (c c' : Cache R) (key : Bytes) (i now : ℕ)
      → Holds compute 0 c
      → touch_hit c key i now ≡ done c'
      → Holds compute 0 c' × (c'.limit ≡ c.limit) × (c'.size ≡ c.size)
  unfolding touch_hit
  touch_hit-Holds c c' key i now k q = from (touch c.queue i now) refl q
    where
      from :
          (r : Option (List Item × ℕ))
          → touch c.queue i now ≡ r
          → moved_to c key r ≡ done c'
          → Holds compute 0 c' × (c'.limit ≡ c.limit) × (c'.size ≡ c.size)
      from none e q = cc
      from (some (h, j)) e q =
          let (a, w) = touch-keeps c.queue i now h j k.indexed e in
          let same = run-injective q in
          subst (λ x. Holds compute 0 x × (x.limit ≡ c.limit) × (x.size ≡ c.size)) same
            (moved-Holds c key h j k a w, refl, refl)

  look_up-same :
      (c : Cache R) (key : Bytes)
      → ((look_up c key).0.limit ≡ c.limit) × ((look_up c key).0.size ≡ c.size)
  unfolding look_up
  look_up-same c key = either (lookup key c.entries)
    where
      either :
          (o : Option (Entry R))
          → let c' = (hit_or_miss (record c { num_lookups = c.num_lookups + 1 }) key o).0 in
            (c'.limit ≡ c.limit) × (c'.size ≡ c.size)
      either none = (refl, refl)
      either (some e) = (refl, refl)

  Step-Holds :
      (c c' : Cache R) (o o' : List ℕ)
      → Step c o c' o'
      → Holds compute 0 c
      → within c.limit c.size ≡ true
      → Holds compute 0 c' × (c'.limit ≡ c.limit) × (within c.limit c'.size ≡ true)
  Step-Holds c c' o o' (looks key named) i b =
      let (l, s) = look_up-same c key in (look_up-Holds c key named i, l, ap (within c.limit) s ∙ b)
  Step-Holds c c' o o' (finishes key e size now l w q) i b =
      elim (Bool-cases (room tenth c.limit (c.size + size) size)) [
        | inl r ↦
            let (c1, q1, i1, l1, b1) = finish-within compute tenth c key e size now i l w r in
            let same = run-injective (sym q1 ∙ q) in
            subst (λ x. Holds compute 0 x × (x.limit ≡ c.limit) × (within c.limit x.size ≡ true))
              same (i1, l1, b1)
        | inr r ↦ let p = (finish-panics_iff compute tenth c key e size now i l w).1 r in cc
      ]
  Step-Holds c c' o o' (touches key e now f r q) i b =
      let (i', l, s) = touch_hit-Holds c c' key e.eviction_index now i q in
      (i', l, ap (within c.limit) s ∙ b)
  Step-Holds c c' o o' (touches_evicted n j now k h g q) i b =
      let (a, w) = touch-keeps c.queue j now h k i.indexed q in
      (
        record {
          indexed = a;
          distinct = i.distinct;
          counted = λ f. w f ∙ i.counted f;
          summed = i.summed;
          right = i.right;
          named = i.named;
        },
        refl,
        b,
      )

  reach-all :
      (limit : Limit) (c : Cache R) (o : List ℕ)
      → Reach (new_cache limit) c o
      → Holds compute 0 c × (c.limit ≡ limit) × (within limit c.size ≡ true)
  reach-all limit c o at_start = (new_cache-Holds limit, refl, at_first limit)
    where
      at_first : (l : Limit) → within l 0 ≡ true
      at_first disabled = refl
      at_first unlimited = refl
      at_first (at_most max) = ground arith
  reach-all limit c p (and_then {c'} {o = o} r s) =
      let (i, l, b) = reach-all limit c' o r in
      let (i', l', b') = Step-Holds c' c o p s i (ap (λ x. within x c'.size) l ∙ b) in
      (i', l' ∙ l, ap (λ x. within x c.size) (sym l) ∙ b')

  -- However calls come in between each other from an empty cache, the queue holds the keys of the
  -- entries that are ready, each once and with its index, their sizes add up to the size of the cache,
  -- and each holds the result of its key. The keys that are looked up are not empty.
  pub reach-Holds :
      (limit : Limit) (c : Cache R) (o : List ℕ) → Reach (new_cache limit) c o → Holds compute 0 c
  reach-Holds limit c o r = (reach-all limit c o r).0

  -- However calls come in between each other from an empty cache, with keys that are not empty, the
  -- size of the cache is within its limit.
  pub reach-within :
      (limit : Limit) (c : Cache R) (o : List ℕ)
      → Reach (new_cache limit) c o
      → within limit c.size ≡ true
  reach-within limit c o r = (reach-all limit c o r).2
