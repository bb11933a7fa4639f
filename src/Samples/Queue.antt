-- ===== src/Samples/Queue.antt =====
-- The queue of the cache at concrete inputs.
use nvdtools.Prelude.{ℕ, ◌+◌, ◌≤◌, All, Bytes, some, List, [], ◌∷◌, codes, ◌≡◌, refl}
use nvdtools.Feed.Queue.{Item, push, touch, pop}
use nvdtools.Feed.Moves.{stamp_weight}
use nvdtools.Feed.QueueSpec.{call, pushes, touches_at, pops, Queue, empty, after, call-Serves}

-- Three keys, pushed in this order.
abbrev three : List Item
three =
    record { key = codes "a"; index = 0; access = 1 }
    ∷ record { key = codes "b"; index = 1; access = 2 }
    ∷ record { key = codes "c"; index = 2; access = 3 }
    ∷ []

pop_oldest :
    pop three
    ≡ some (
      codes "a",
      record { key = codes "b"; index = 0; access = 2 }
          ∷ record { key = codes "c"; index = 1; access = 3 }
          ∷ [],
    )
unfolding pop
pop_oldest = refl

touch_moves :
    touch three 0 4
    ≡ some (
      record { key = codes "b"; index = 0; access = 2 }
          ∷ record { key = codes "a"; index = 1; access = 4 }
          ∷ record { key = codes "c"; index = 2; access = 3 }
          ∷ [],
      1,
    )
unfolding touch
touch_moves = refl

-- The queue after three pushes and a touch of the first key.
abbrev moved : List Item
moved =
    record { key = codes "b"; index = 0; access = 2 }
    ∷ record { key = codes "a"; index = 1; access = 4 }
    ∷ record { key = codes "c"; index = 2; access = 3 }
    ∷ []

moved_queue : Queue moved
unfolding call push touch
moved_queue =
    after (touches_at 0 4)
      (after (pushes (codes "c") 3)
        (after (pushes (codes "b") 2) (after (pushes (codes "a") 1) empty refl) refl) refl)
      refl

call-Serves_example :
    (key : Bytes) × (time : ℕ) × (h' : List Item) × (pop moved ≡ some (key, h'))
    × ((f : Bytes → ℕ → ℕ) → f key time + stamp_weight f h' ≡ stamp_weight f moved)
    × All (λ y. time ≤ y.access) moved
call-Serves_example = call-Serves moved pops moved_queue
