-- ===== src/Listeners/Examples.antt =====
-- A listener of cyclonedds/src/dds_listener.rs whose callbacks count.
use cyclonedds_rs.Common.{ℕ, ◌+◌, ◌≡◌, refl, [], ◌∷◌, none, some, arith}
use cyclonedds_rs.Listeners.{Closure, Callbacks, Inner, Heap, hook}
use cyclonedds_rs.Listeners.Laws.{dropped_after, drop_listener_lem}

-- Callbacks that add to a number.
abbrev add_one : Closure ℕ ℕ
add_one entity status w = w + 1

abbrev double : Closure ℕ ℕ
double entity status w = w + w

abbrev doubling : Callbacks ℕ ℕ
doubling event = some double

abbrev doubling_listener : Inner ℕ ℕ
doubling_listener = record { listener = none; callbacks = some doubling; raw_ptr = none }

abbrev one_box : Heap ℕ ℕ
one_box = record { next_ptr = 8; boxes = (7, doubling) ∷ []; listeners = [] }

drop_listener_lem_example :
    ((dropped_after (hook (some 3) doubling_listener one_box)).boxes ≡ (7, doubling) ∷ [])
    × ((dropped_after (hook (some 3) doubling_listener one_box)).listeners ≡ [])
drop_listener_lem_example =
    drop_listener_lem 3 doubling_listener doubling one_box refl (omega arith, tt) tt
