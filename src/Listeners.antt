-- ===== src/Listeners.antt =====
-- cyclonedds/src/dds_listener.rs: the callbacks of a listener, and how they are handed to the C
-- library and freed.
pub mod Events
pub mod Builders
pub mod Among
pub mod Laws
mod Examples
use cyclonedds_rs.Common.{
  ℕ, suc, List, [], ◌∷◌, Bool, true, false, Option, none, some, ◌==◌, if◌then◌else◌,
}

-- The events that have a callback.
pub data Event : Type 0 where
  data_available : Event
  sample_lost : Event
  sample_rejected : Event
  liveliness_changed : Event
  requested_deadline_missed : Event
  requested_incompatible_qos : Event
  subscription_matched : Event
  liveliness_lost : Event
  offered_deadline_missed : Event
  offered_incompatible_qos : Event
  publication_matched : Event
  inconsistent_topic : Event
  data_on_readers : Event

abbrev pub index : Event → ℕ
index data_available = 0
index sample_lost = 1
index sample_rejected = 2
index liveliness_changed = 3
index requested_deadline_missed = 4
index requested_incompatible_qos = 5
index subscription_matched = 6
index liveliness_lost = 7
index offered_deadline_missed = 8
index offered_incompatible_qos = 9
index publication_matched = 10
index inconsistent_topic = 11
index data_on_readers = 12

abbrev pub event_eq : Event → Event → Bool
event_eq a b = index a == index b

-- In the order in which `register_callbacks` tests them.
abbrev pub all_events : List Event
all_events =
    data_available ∷ sample_lost ∷ sample_rejected ∷ liveliness_changed ∷ requested_deadline_missed
    ∷ requested_incompatible_qos ∷ subscription_matched ∷ liveliness_lost ∷ offered_deadline_missed
    ∷ offered_incompatible_qos ∷ publication_matched ∷ inconsistent_topic ∷ data_on_readers ∷ []

-- A closure takes the entity and the status, which the events about data do not have, and changes
-- the world that it captures.
abbrev pub Closure : Type 0 → Type 0 → Type 0
Closure W P = ℕ → P → W → W

-- `Callbacks`: each field is the callback of one event.
abbrev pub Callbacks : Type 0 → Type 0 → Type 0
Callbacks W P = Event → Option (Closure W P)

-- `Inner`: the listener of the C library, the callbacks, and the pointer to them.
pub record Inner (W P : Type 0) : Type 0 where
  pub listener : Option ℕ
  pub callbacks : Option (Callbacks W P)
  pub raw_ptr : Option ℕ

-- A listener of the C library: its handle, the argument it passes, and the events that are set.
pub record CListener : Type 0 where
  pub handle : ℕ
  pub arg : ℕ
  pub events : List Event

-- The callbacks that stand behind raw pointers, and the listeners of the C library.
pub record Heap (W P : Type 0) : Type 0 where
  pub next_ptr : ℕ
  pub boxes : List (ℕ × Callbacks W P)
  pub listeners : List CListener

pub data Hooked (W P : Type 0) : Type 0 where
  hooked : Inner W P → Heap W P → Hooked W P
  panicked : Heap W P → Hooked W P

unfoldable pub delete_listener : ℕ → List CListener → List CListener
delete_listener l [] = []
delete_listener l (c ∷ cs) =
    let rest = delete_listener l cs in if c.handle == l then rest else c ∷ rest

abbrev pub delete_created : Option ℕ → List CListener → List CListener
delete_created none cs = cs
delete_created (some l) cs = delete_listener l cs

module _ {W P : Type 0} where
  abbrev pub no_callbacks : Callbacks W P
  no_callbacks event = none

  unfoldable pub new : Inner W P
  new = record { listener = none; callbacks = some no_callbacks; raw_ptr = none }

  abbrev pub is_set : Option (Closure W P) → Bool
  is_set none = false
  is_set (some callback) = true

  -- `register_callbacks`: the events whose callback is set.
  unfoldable pub registered : Callbacks W P → List Event → List Event
  registered callbacks [] = []
  registered callbacks (event ∷ events) =
      let rest = registered callbacks events in
      if is_set (callbacks event) then event ∷ rest else rest

  unfoldable pub register_callbacks : ℕ → ℕ → Callbacks W P → CListener
  register_callbacks l raw callbacks = record {
    handle = l;
    arg = raw;
    events = registered callbacks all_events;
  }

  -- `dds_create_listener` returns a handle or null.
  unfoldable pub hook_boxed : Option ℕ → Inner W P → Callbacks W P → Heap W P → Hooked W P
  hook_boxed none inner callbacks heap =
      panicked
        (record { next_ptr = suc heap.next_ptr; boxes = heap.boxes; listeners = heap.listeners })
  hook_boxed (some l) inner callbacks heap =
      hooked (record { listener = some l; callbacks = none; raw_ptr = some heap.next_ptr })
        (record {
          next_ptr = suc heap.next_ptr;
          boxes = (heap.next_ptr, callbacks) ∷ heap.boxes;
          listeners = register_callbacks l heap.next_ptr callbacks ∷ heap.listeners;
        })

  unfoldable pub hook_callbacks :
      Option (Callbacks W P) → Option ℕ → Inner W P → Heap W P → Hooked W P
  hook_callbacks none created inner heap = hooked inner heap
  hook_callbacks (some callbacks) created inner heap = hook_boxed created inner callbacks heap

  unfoldable pub hook : Option ℕ → Inner W P → Heap W P → Hooked W P
  hook created inner heap = hook_callbacks inner.callbacks created inner heap

  -- `From<&DdsListener>`: nothing is where it panics.
  unfoldable pub to_dds_listener : Inner W P → Option ℕ
  to_dds_listener inner = inner.listener

  unfoldable pub free_box : ℕ → List (ℕ × Callbacks W P) → List (ℕ × Callbacks W P)
  free_box raw [] = []
  free_box raw ((ptr, callbacks) ∷ boxes) =
      let rest = free_box raw boxes in if ptr == raw then rest else (ptr, callbacks) ∷ rest

  abbrev pub free_raw : Option ℕ → List (ℕ × Callbacks W P) → List (ℕ × Callbacks W P)
  free_raw none boxes = boxes
  free_raw (some raw) boxes = free_box raw boxes

  -- `Drop`.
  unfoldable pub drop_listener : Inner W P → Heap W P → Heap W P
  drop_listener inner heap = record {
    next_ptr = heap.next_ptr;
    boxes = free_raw inner.raw_ptr heap.boxes;
    listeners = delete_created inner.listener heap.listeners;
  }

  unfoldable pub get_box : ℕ → List (ℕ × Callbacks W P) → Option (Callbacks W P)
  get_box raw [] = none
  get_box raw ((ptr, callbacks) ∷ boxes) =
      let rest = get_box raw boxes in if ptr == raw then some callbacks else rest

  abbrev pub run : Option (Closure W P) → ℕ → P → W → W
  run none entity status w = w
  run (some callback) entity status w = callback entity status w

  abbrev pub run_boxed : Option (Callbacks W P) → Event → ℕ → P → W → Option W
  run_boxed none event entity status w = none
  run_boxed (some callbacks) event entity status w = some (run (callbacks event) entity status w)

  -- The function that the C library calls for an event. Nothing is where the pointer dangles.
  unfoldable pub call_closure : Event → Heap W P → ℕ → ℕ → P → W → Option W
  call_closure event heap arg entity status w =
      run_boxed (get_box arg heap.boxes) event entity status w

  unfoldable pub set_callback : Event → Option (Closure W P) → Callbacks W P → Callbacks W P
  set_callback event callback callbacks e = if event_eq e event then callback else callbacks e

  abbrev pub with_callbacks : Option (Callbacks W P) → Inner W P → Inner W P
  with_callbacks callbacks inner = record {
    listener = inner.listener;
    callbacks = callbacks;
    raw_ptr = inner.raw_ptr;
  }

  abbrev pub on_unhooked :
      (Callbacks W P → Callbacks W P) → Option (Callbacks W P) → Option (Callbacks W P)
  on_unhooked change none = none
  on_unhooked change (some callbacks) = some (change callbacks)

  -- The setters: nothing is set when the listener is hooked.
  unfoldable pub on_event : Event → Closure W P → Inner W P → Inner W P
  on_event event callback inner =
      with_callbacks (on_unhooked (set_callback event (some callback)) inner.callbacks) inner

  -- The new callback runs first, then the one before it.
  unfoldable pub chained : Closure W P → Option (Closure W P) → Closure W P
  chained callback previous entity status w = run previous entity status (callback entity status w)

  abbrev pub chain_on : Event → Closure W P → Callbacks W P → Callbacks W P
  chain_on event callback callbacks =
      set_callback event (some (chained callback (callbacks event))) callbacks

  -- `chain_callback!`.
  unfoldable pub chain_callback : Event → Closure W P → Inner W P → Inner W P
  chain_callback event callback inner =
      with_callbacks (on_unhooked (chain_on event callback) inner.callbacks) inner
