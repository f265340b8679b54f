-- ===== src/Listeners/Laws.antt =====
-- What the callbacks of cyclonedds/src/dds_listener.rs do once they are hooked.
use cyclonedds_rs.Common.{
  ℕ, ◌<◌, ◌==◌, false, false-true, List, [], ◌∷◌, true, false, ◌&&◌, ◌≡◌, refl, sym, ap, ◌∙◌,
  Option, none, some, ==_self, if◌then◌else◌, Bool-cases, inl, inr,
}
use cyclonedds_rs.Listeners.{
  CListener, Event, event_eq, all_events, Closure, Callbacks, Inner, Heap, Hooked, hooked, panicked,
  is_set, registered, register_callbacks, hook_boxed, hook_callbacks, hook, delete_listener,
  free_box, drop_listener, get_box, run, call_closure, set_callback, with_callbacks, on_unhooked,
  chained, chain_on, chain_callback,
}
use cyclonedds_rs.Listeners.Among.{
  same_event, registered_step, among_all, delete_listener_others, below_differs, AllOthers,
  is_event_among,
}

-- The listener of the C library with a handle.
abbrev find_listener : ℕ → List CListener → Option CListener
find_listener l [] = none
find_listener l (c ∷ cs) = let rest = find_listener l cs in if c.handle == l then some c else rest

module _ {W P : Type 0} where
  -- The C library calls the function that is registered for an event with the argument of the
  -- listener, and does nothing where none is registered.
  abbrev dispatch : Option CListener → Heap W P → Event → ℕ → P → W → Option W
  dispatch none heap event entity status w = none
  dispatch (some c) heap event entity status w =
      if is_event_among event c.events
      then call_closure event heap c.arg entity status w
      else some w

  -- What an event of an entity with that listener does. Nothing where there is no handle, no
  -- listener or no callbacks behind its argument.
  abbrev pub call_library : Option ℕ → Heap W P → Event → ℕ → P → W → Option W
  call_library none heap event entity status w = none
  call_library (some l) heap event entity status w =
      dispatch (find_listener l heap.listeners) heap event entity status w

  -- What an event does after hooking.
  abbrev pub call_after : Hooked W P → Event → ℕ → P → W → Option W
  call_after (hooked inner heap) event entity status w =
      call_library inner.listener heap event entity status w
  call_after (panicked heap) event entity status w = none

  -- The boxes and listeners that are left when the listener is dropped after hooking.
  abbrev pub dropped_after : Hooked W P → Heap W P
  dropped_after (hooked inner heap) = drop_listener inner heap
  dropped_after (panicked heap) = heap

  abbrev pub hook_again : Option ℕ → Hooked W P → Hooked W P
  hook_again created (hooked inner heap) = hook created inner heap
  hook_again created (panicked heap) = panicked heap

  -- The pointers in use are below the next one.
  abbrev pub AllBelow : ℕ → List (ℕ × Callbacks W P) → Type 0
  AllBelow n [] = Unit {0}
  AllBelow n ((ptr, callbacks) ∷ boxes) = (ptr < n) × AllBelow n boxes

  pub hook_unhooked :
      (created : Option ℕ) (inner : Inner W P) (callbacks : Callbacks W P) (heap : Heap W P)
      → inner.callbacks ≡ some callbacks
      → hook created inner heap ≡ hook_boxed created inner callbacks heap
  unfolding hook hook_callbacks
  hook_unhooked created inner callbacks heap h = ap (λ c. hook_callbacks c created inner heap) h

  registered_lem :
      (callbacks : Callbacks W P) (event : Event) (events : List Event)
      → is_event_among event (registered callbacks events)
        ≡ (is_event_among event events && is_set (callbacks event))
  unfolding registered is_event_among
  registered_lem callbacks event [] = refl
  registered_lem callbacks event (e ∷ events) = elim (Bool-cases (is_set (callbacks e))) [
    | inl t ↦ rw (t) (
        registered_step (event_eq event e) (is_event_among event events) (is_set (callbacks event))
          true _ (λ q. ap (λ x. is_set (callbacks x)) (sym (same_event event e q)) ∙ t)
          (registered_lem callbacks event events))
    | inr f ↦ rw (f) (
        registered_step (event_eq event e) (is_event_among event events) (is_set (callbacks event))
          false _ (λ q. ap (λ x. is_set (callbacks x)) (sym (same_event event e q)) ∙ f)
          (registered_lem callbacks event events))
  ]

  registered_all :
      (callbacks : Callbacks W P) (event : Event)
      → is_event_among event (registered callbacks all_events) ≡ is_set (callbacks event)
  unfolding is_event_among
  registered_all callbacks event =
      registered_lem callbacks event all_events ∙ among_all event (is_set (callbacks event))

  -- The listener of the C library has a function for an event exactly when its callback is set.
  pub register_callbacks_lem :
      (l raw : ℕ) (callbacks : Callbacks W P) (event : Event)
      → is_event_among event (register_callbacks l raw callbacks).events ≡ is_set (callbacks event)
  unfolding register_callbacks
  register_callbacks_lem l raw callbacks event = registered_all callbacks event

  unset_runs :
      (callback : Option (Closure W P)) (entity : ℕ) (status : P) (w : W)
      → is_set callback ≡ false
      → w ≡ run callback entity status w
  unset_runs none entity status w e = refl
  unset_runs (some callback) entity status w e = elim (false-true (sym e)) [ ]

  boxed_calls :
      (l : ℕ) (inner : Inner W P) (callbacks : Callbacks W P) (heap : Heap W P) (event : Event)
      (entity : ℕ) (status : P) (w : W)
      → call_after (hook_boxed (some l) inner callbacks heap) event entity status w
        ≡ some (run (callbacks event) entity status w)
  unfolding hook_boxed call_closure get_box register_callbacks
  boxed_calls l inner callbacks heap event entity status w =
      elim (Bool-cases (is_set (callbacks event))) [
        | inl t ↦ rw (==_self l, ==_self heap.next_ptr, registered_all callbacks event, t) refl
        | inr f ↦
            rw (==_self l, registered_all callbacks event, f)
              (ap some (unset_runs (callbacks event) entity status w f))
      ]

  pub hook_calls :
      (l : ℕ) (inner : Inner W P) (callbacks : Callbacks W P) (heap : Heap W P) (event : Event)
      (entity : ℕ) (status : P) (w : W)
      → inner.callbacks ≡ some callbacks
      → call_after (hook (some l) inner heap) event entity status w
        ≡ some (run (callbacks event) entity status w)
  hook_calls l inner callbacks heap event entity status w h =
      ap (λ k. call_after k event entity status w) (hook_unhooked (some l) inner callbacks heap h)
      ∙ boxed_calls l inner callbacks heap event entity status w

  chain_runs :
      (event other : Event) (callback : Closure W P) (callbacks : Callbacks W P) (entity : ℕ)
      (status : P) (w : W)
      → run (chain_on event callback callbacks other) entity status w
        ≡ run
            (callbacks other)
            entity
            status
            (if event_eq other event then callback entity status w else w)
  unfolding set_callback chained
  chain_runs event other callback callbacks entity status w =
      elim (Bool-cases (event_eq other event)) [
        | inl e ↦ rw (e) (
            ap (λ c. run c entity status (callback entity status w))
              (ap callbacks (same_event other event e)))
        | inr e ↦ rw (e) refl
      ]

  -- After a callback is chained to a listener that is not hooked and the listener is hooked, the C
  -- library's call of that event runs the new callback and then the one set before, if any, and its
  -- call of any other event does what it did before.
  pub chain_callback_lem :
      (event other : Event) (callback : Closure W P) (l : ℕ) (inner : Inner W P)
      (callbacks : Callbacks W P) (heap : Heap W P) (entity : ℕ) (status : P) (w : W)
      → inner.callbacks ≡ some callbacks
      → call_after (hook (some l) (chain_callback event callback inner) heap) other entity status w
        ≡ some (
            run
              (callbacks other)
              entity
              status
              (if event_eq other event then callback entity status w else w))
  unfolding chain_callback
  chain_callback_lem event other callback l inner callbacks heap entity status w h =
      hook_calls l (with_callbacks (on_unhooked (chain_on event callback) inner.callbacks) inner)
        (chain_on event callback callbacks) heap other entity status w
        (ap (on_unhooked (chain_on event callback)) h)
      ∙ ap some (chain_runs event other callback callbacks entity status w)

  free_box_fresh :
      (n : ℕ) (boxes : List (ℕ × Callbacks W P)) → AllBelow n boxes → free_box n boxes ≡ boxes
  unfolding free_box
  free_box_fresh n [] b = refl
  free_box_fresh n ((ptr, callbacks) ∷ boxes) b =
      rw (below_differs ptr n b.0) (ap (◌∷◌ (ptr, callbacks)) (free_box_fresh n boxes b.1))

  boxed_dropped :
      (l : ℕ) (inner : Inner W P) (callbacks : Callbacks W P) (heap : Heap W P)
      → AllBelow heap.next_ptr heap.boxes
      → AllOthers l heap.listeners
      → ((dropped_after (hook_boxed (some l) inner callbacks heap)).boxes ≡ heap.boxes)
        × ((dropped_after (hook_boxed (some l) inner callbacks heap)).listeners ≡ heap.listeners)
  unfolding hook_boxed drop_listener free_box delete_listener register_callbacks
  boxed_dropped l inner callbacks heap b o = (
    rw (==_self heap.next_ptr) (free_box_fresh heap.next_ptr heap.boxes b),
    rw (==_self l) (delete_listener_others l heap.listeners o),
  )

  -- A listener that is hooked and dropped leaves what was there before: the box of its callbacks and
  -- the listener of the C library are freed, and no others, provided that the pointer and the handle
  -- are new ones.
  pub drop_listener_lem :
      (l : ℕ) (inner : Inner W P) (callbacks : Callbacks W P) (heap : Heap W P)
      → inner.callbacks ≡ some callbacks
      → AllBelow heap.next_ptr heap.boxes
      → AllOthers l heap.listeners
      → ((dropped_after (hook (some l) inner heap)).boxes ≡ heap.boxes)
        × ((dropped_after (hook (some l) inner heap)).listeners ≡ heap.listeners)
  drop_listener_lem l inner callbacks heap h b o =
      let e = hook_unhooked (some l) inner callbacks heap h in
      let d = boxed_dropped l inner callbacks heap b o in
      (ap (λ k. (dropped_after k).boxes) e ∙ d.0, ap (λ k. (dropped_after k).listeners) e ∙ d.1)

  boxed_again :
      (created : Option ℕ) (l : ℕ) (inner : Inner W P) (callbacks : Callbacks W P) (heap : Heap W P)
      → hook_again created (hook_boxed (some l) inner callbacks heap)
        ≡ hook_boxed (some l) inner callbacks heap
  unfolding hook_boxed hook hook_callbacks
  boxed_again created l inner callbacks heap = refl

  -- A listener that is hooked again stays as it is: its callbacks are neither freed nor boxed again.
  pub hook_again_lem :
      (created : Option ℕ) (l : ℕ) (inner : Inner W P) (callbacks : Callbacks W P) (heap : Heap W P)
      → inner.callbacks ≡ some callbacks
      → hook_again created (hook (some l) inner heap) ≡ hook (some l) inner heap
  hook_again_lem created l inner callbacks heap h =
      let e = hook_unhooked (some l) inner callbacks heap h in
      ap (hook_again created) e ∙ boxed_again created l inner callbacks heap ∙ sym e
