-- ===== src/Feed/Cache.antt =====
-- cvefeed/cvecache.go: the cache of matches, its sizes and its eviction.
--
-- A call of `Get` takes the lock twice: to look its key up, and to put in what it computed or to touch
-- what it found. Each of these is one function. `R` is the type of results. Sizes and times are
-- numbers; what is subtracted from the size of the cache was added before.
use nvdtools.Prelude.{
  ℕ, zero, suc, ◌+◌, ◌-◌, Bool, true, false, Option, none, some, List, [], ◌∷◌, Bytes, ltb,
  if◌then◌else◌, length, text_eq,
}
use nvdtools.Feed.Queue.{Item, push, pop, touch}

-- How a run ends: `evict` panics if a key of the queue is not in the cache.
pub data Run {ℓ} (A : Type ℓ) : Type ℓ where
  done : A → Run A
  panicked out_of_fuel : Run A

-- `MaxSize`: negative, 0, or a size.
pub data Limit : Type 0 where
  disabled unlimited : Limit
  at_most : ℕ → Limit

module _ (R : Type 0) where
  -- `cachedCVEs`. The channel `ready` is closed when the entry has been put in the queue.
  pub record Entry : Type 0 where
    pub res : Option R
    pub ready : Bool
    pub size : ℕ
    pub eviction_index : ℕ

  pub record Cache : Type 0 where
    pub entries : List (Bytes × Entry)
    pub queue : List Item
    pub limit : Limit
    pub size : ℕ
    pub num_lookups : ℕ
    pub num_hits : ℕ

module _ {R : Type 0} where
  -- The map `data`: reading, deleting, and writing through the pointer that it holds.
  abbrev pub lookup : Bytes → List (Bytes × Entry R) → Option (Entry R)
  lookup k [] = none
  lookup k ((j, e) ∷ es) = if text_eq j k then some e else lookup k es

  abbrev pub erase : Bytes → List (Bytes × Entry R) → List (Bytes × Entry R)
  erase k [] = []
  erase k ((j, e) ∷ es) = if text_eq j k then erase k es else (j, e) ∷ erase k es

  abbrev pub assign : Bytes → (Entry R → Entry R) → List (Bytes × Entry R) → List (Bytes × Entry R)
  assign k f [] = []
  assign k f ((j, e) ∷ es) = (j, if text_eq j k then f e else e) ∷ assign k f es

  -- `NewCache` with `SetMaxSize`
  abbrev pub new_cache : Limit → Cache R
  new_cache limit = record {
    entries = [];
    queue = [];
    limit = limit;
    size = 0;
    num_lookups = 0;
    num_hits = 0;
  }

  abbrev pub pending : Entry R
  pending = record { res = none; ready = false; size = 0; eviction_index = 0 }

  abbrev pub hit_or_miss : Cache R → Bytes → Option (Entry R) → Cache R × Option (Entry R)
  hit_or_miss c key (some e) = (record c { num_hits = c.num_hits + 1 }, some e)
  hit_or_miss c key none = (record c { entries = (key, pending) ∷ c.entries }, none)

  -- The first part of `Get`: the entry that was found, or a new one that waits for its result.
  unfoldable pub look_up : Cache R → Bytes → Cache R × Option (Entry R)
  unfolding text_eq
  look_up c key =
      hit_or_miss (record c { num_lookups = c.num_lookups + 1 }) key (lookup key c.entries)

  abbrev pub drop_entry : Cache R → Bytes → List Item → Entry R → Cache R
  drop_entry c key queue e = record c {
    queue = queue;
    size = c.size - e.size;
    entries = erase key c.entries;
  }

  abbrev pub drop_found :
      Cache R → Bytes → List Item → Option (Entry R) → (Cache R → Run (Cache R)) → Run (Cache R)
  drop_found c key queue none onward = panicked
  drop_found c key queue (some e) onward = onward (drop_entry c key queue e)

  abbrev pub evict_popped :
      Cache R → Option (Bytes × List Item) → (Cache R → Run (Cache R)) → Run (Cache R)
  evict_popped c none onward = panicked
  evict_popped c (some (key, queue)) onward = drop_found c key queue (lookup key c.entries) onward

  -- `evict`, on fuel, with the value of `MaxSize`.
  unfoldable pub evict : ℕ → ℕ → ℕ → Cache R → Run (Cache R)
  unfolding pop text_eq
  evict zero max nbytes c = out_of_fuel
  evict (suc fuel) max nbytes c =
      if ltb max (c.size + nbytes)
      then evict_popped c (pop c.queue) (λ c'. evict fuel max nbytes c')
      else done c

  -- The test before the eviction, with `nbytes` for each size.
  unfoldable pub evict_over : (ℕ → ℕ) → Cache R → Limit → Run (Cache R)
  unfolding evict
  evict_over tenth c disabled = done c
  evict_over tenth c unlimited = done c
  evict_over tenth c (at_most max) =
      if ltb max c.size then evict (length c.entries + 1) max (tenth max) c else done c

  abbrev pub enqueue : Cache R → Bytes → R → ℕ → Option (List Item × ℕ) → Run (Cache R)
  enqueue c key res size none = panicked
  enqueue c key res size (some (queue, i)) = done (record c {
    queue = queue;
    entries =
        assign key (λ e. record { res = some res; ready = true; size = size; eviction_index = i })
          c.entries;
  })

  abbrev pub push_key : Bytes → R → ℕ → ℕ → Run (Cache R) → Run (Cache R)
  push_key key res size now panicked = panicked
  push_key key res size now out_of_fuel = out_of_fuel
  push_key key res size now (done c) = enqueue c key res size (push c.queue key now)

  -- The second part of `Get` after a miss, with the result of `match` and its size.
  unfoldable pub finish : (ℕ → ℕ) → Cache R → Bytes → R → ℕ → ℕ → Run (Cache R)
  unfolding evict_over push
  finish tenth c key res size now =
      let grown = record c { size = c.size + size } in
      push_key key res size now (evict_over tenth grown c.limit)

  abbrev pub moved_to : Cache R → Bytes → Option (List Item × ℕ) → Run (Cache R)
  moved_to c key none = panicked
  moved_to c key (some (queue, j)) = done (record c {
    queue = queue;
    entries = assign key (λ e. record e { eviction_index = j }) c.entries;
  })

  -- The second part of `Get` after a hit, with the eviction index that the entry holds.
  unfoldable pub touch_hit : Cache R → Bytes → ℕ → ℕ → Run (Cache R)
  unfolding touch
  touch_hit c key i now = moved_to c key (touch c.queue i now)

  -- `Get`, where no other call comes in between. `compute` is `match`, and `size_of` the size of a
  -- result under its key.
  abbrev pub then_return : R → Run (Cache R) → Run (Cache R × R)
  then_return r panicked = panicked
  then_return r out_of_fuel = out_of_fuel
  then_return r (done c) = done (c, r)

  abbrev pub get_result : Cache R → Option R → Run (Cache R) → Run (Cache R × R)
  get_result c none run = panicked
  get_result c (some r) run = then_return r run

  module _ (tenth : ℕ → ℕ) (compute : Bytes → R) (size_of : Bytes → R → ℕ) where
    abbrev pub go_on : Bytes → ℕ → Cache R → Option (Entry R) → Run (Cache R × R)
    go_on key now c none =
        then_return (compute key) (finish tenth c key (compute key) (size_of key (compute key)) now)
    go_on key now c (some e) = get_result c e.res (touch_hit c key e.eviction_index now)

    abbrev pub get_cached : Bytes → ℕ → Cache R → Run (Cache R × R)
    get_cached key now c = let (c', found) = look_up c key in go_on key now c' found

    abbrev pub get_under : Limit → Cache R → Bytes → ℕ → Run (Cache R × R)
    get_under disabled c key now = done (record c { num_lookups = c.num_lookups + 1 }, compute key)
    get_under unlimited c key now = get_cached key now c
    get_under (at_most max) c key now = get_cached key now c

    unfoldable pub get : Cache R → Bytes → ℕ → Run (Cache R × R)
    unfolding look_up finish touch_hit
    get c key now = get_under c.limit c key now
