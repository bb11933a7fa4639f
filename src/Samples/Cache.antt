-- ===== src/Samples/Cache.antt =====
-- The cache at a concrete input, with numbers as results.
use nvdtools.Prelude.{
  ℕ, Option, List, ◌/◌, true, [], ◌∷◌, Bytes, codes, length, ◌≡◌, refl, some, none,
}
use nvdtools.Feed.Cache.{
  Run, done, panicked, out_of_fuel, unlimited, at_most, Cache, new_cache, look_up, finish, get,
  pending, touch_hit,
}
use nvdtools.Feed.CacheInv.{Holds}
use nvdtools.Feed.CacheFinish.{within, finish-panics_iff}
use nvdtools.Feed.CacheSteps.{
  looks, finishes, touches, touches_evicted, Reach, at_start, and_then, reach-Holds, reach-within,
  new_cache-Holds, look_up-Holds,
}
use mathlib.Core.List.{Permᴰ}
use nvdtools.Wfn.Attributes.{Attributes, new_attributes}
use nvdtools.Feed.Keys.{cache_key}
use nvdtools.Feed.KeyOrder.{cache_key-Perm}
use nvdtools.Feed.Queue.{Item, pop}
use nvdtools.Feed.CacheGet.{Answers, get-Answers}

abbrev named : Bytes → Attributes
named product = record (new_attributes []) { product = product }

abbrev tenth : ℕ → ℕ
tenth n = n / 10

abbrev value : Bytes → ℕ
value = length

-- The cache that a run leaves, or an empty one.
abbrev left : Run (Cache ℕ) → Cache ℕ
left (done c) = c
left panicked = new_cache unlimited
left out_of_fuel = new_cache unlimited

abbrev start : Cache ℕ
start = new_cache (at_most 10)

abbrev seen : Cache ℕ
seen = (look_up start (codes "a")).0

abbrev filled : Cache ℕ
filled = left (finish tenth seen (codes "a") 1 6 1)

abbrev seen_again : Cache ℕ
seen_again = (look_up filled (codes "bc")).0

-- The result of "bc" evicts that of "a".
abbrev replaced : Cache ℕ
replaced = left (finish tenth seen_again (codes "bc") 2 5 2)

-- It is read once more, and then the entry of "a" is, by a call that still has it.
abbrev after_touch : Cache ℕ
after_touch = record (left (touch_hit replaced (codes "bc") 0 3)) {
  queue = record { key = codes "bc"; index = 0; access = 4 } ∷ [];
}

finish_evicts : (replaced.size ≡ 5) × (length replaced.entries ≡ 1)
unfolding look_up finish
finish_evicts = (refl, refl)

path : Reach value tenth start after_touch (0 ∷ [])
unfolding look_up finish touch_hit
path =
    and_then
      (and_then
        (and_then
          (and_then
            (and_then (and_then at_start (looks (codes "a") (λ p. cc)))
              (finishes (codes "a") pending 6 1 refl refl refl))
            (looks (codes "bc") (λ p. cc)))
          (finishes (codes "bc") pending 5 2 refl refl refl))
        (touches (codes "bc") (record { ready = true; res = some 2; size = 5; eviction_index = 0 })
          3 refl refl refl))
      (touches_evicted 0 0 4 0 (record { key = codes "bc"; index = 0; access = 4 } ∷ []) refl refl)

reach-Holds_example : Holds value 0 after_touch
reach-Holds_example = reach-Holds value tenth (at_most 10) after_touch (0 ∷ []) path

reach-within_example : within (at_most 10) after_touch.size ≡ true
reach-within_example = reach-within value tenth (at_most 10) after_touch (0 ∷ []) path

-- A result above the limit.
finish-panics_iff_example : finish tenth seen (codes "a") 1 11 1 ≡ panicked
unfolding look_up
finish-panics_iff_example =
    (finish-panics_iff value tenth seen (codes "a") pending 11 1
        (look_up-Holds value tenth start (codes "a") (λ p. cc)
          (new_cache-Holds value tenth (at_most 10)))
        refl refl).1
      refl

get-Answers_example :
    Answers value tenth (λ k r. 6) (codes "a") (get tenth value (λ k r. 6) start (codes "a") 1)
get-Answers_example =
    get-Answers value tenth (λ k r. 6) start (codes "a") 1
      (new_cache-Holds value tenth (at_most 10)) (λ p. cc) (λ e l. cc) refl

abbrev then_get : Run (Cache ℕ × ℕ) → Bytes → ℕ → Run (Cache ℕ × ℕ)
unfolding get
then_get panicked key now = panicked
then_get out_of_fuel key now = out_of_fuel
then_get (done (c, r)) key now = get tenth value (λ k r. r) c key now

-- Keys with results of the sizes 4, 4, 2 and 5: the last evicts the first two, and the index which
-- the third still holds is then past the queue.
stale_index :
    then_get
      (then_get
        (then_get
          (then_get (then_get (done (start, 0)) (codes "aaaa") 1) (codes "bbbb") 2)
          (codes "cc")
          3)
        (codes "ddddd")
        4)
      (codes "cc")
      5
    ≡ panicked
unfolding get
stale_index = refl

-- Two names in either order, and a nil, have one key.
cache_key-Perm_example :
    cache_key (some (named (codes "tar")) ∷ some (named (codes "sed")) ∷ none ∷ [])
    ≡ cache_key (some (named (codes "sed")) ∷ some (named (codes "tar")) ∷ none ∷ [])
cache_key-Perm_example = cache_key-Perm (Permᴰ.swap refl refl)

-- The state after a run, and its queue: the keys with the times of their last touch.
abbrev queue_of : Run (Cache ℕ × ℕ) → List (Bytes × ℕ)
queue_of panicked = []
queue_of out_of_fuel = []
queue_of (done (c, r)) = stamps c.queue
  where
    stamps : List Item → List (Bytes × ℕ)
    stamps [] = []
    stamps (x ∷ q) = (x.key, x.access) ∷ stamps q

abbrev next_out : Run (Cache ℕ × ℕ) → Bytes
next_out panicked = []
next_out out_of_fuel = []
next_out (done (c, r)) = key_of (pop c.queue)
  where
    key_of : Option (Bytes × List Item) → Bytes
    key_of none = []
    key_of (some (k, q)) = k

-- "a", "b", "a", "b" are read in this order, without a limit.
abbrev read_twice : Run (Cache ℕ × ℕ)
read_twice =
    then_get
      (then_get (then_get (then_get (done (new_cache unlimited, 0)) (codes "a") 1) (codes "b") 2)
        (codes "a") 3)
      (codes "b") 4

-- The second read of "b" touches the place at which "b" was put in, where "a" stands by then: "b",
-- which was read last, is the next to go.
last_read_goes :
    (queue_of read_twice ≡ (codes "b", 2) ∷ (codes "a", 4) ∷ []) × (next_out read_twice ≡ codes "b")
unfolding get
last_read_goes = (refl, refl)
