-- ===== src/Writers/Building/Laws.antt =====
-- The listener of a writer that watches for absent readers, in cyclonedds/src/dds_writer.rs.
use cyclonedds_rs.Common.{ℕ, false, ◌≡◌, refl, sym, ap, ◌∙◌, if◌then◌else◌, Option, none, some}
use cyclonedds_rs.Error.{non_negative, negative, ok, err}
use cyclonedds_rs.Serdata.{returned, panicked}
use cyclonedds_rs.Listeners.{
  Event, publication_matched, event_eq, Closure, Callbacks, Inner, Heap, hook, hook_boxed, run,
  chain_callback, chain_on, on_unhooked, to_dds_listener,
}
use cyclonedds_rs.Listeners.Among.{AllOthers}
use cyclonedds_rs.Listeners.Laws.{
  call_library, call_after, dropped_after, AllBelow, chain_callback_lem, drop_listener_lem,
  hook_unhooked,
}
use cyclonedds_rs.MatchWatch.{MatchWatch, absent, new_at, update_at}
use cyclonedds_rs.Writers.Building.{
  create_chained, update_watch, WriterBuilder, Creation, created_writer, create_entity, after_hook,
  create_with_watch, unwrap_or_default, create_watched, create,
}

module _ {W P : Type 0} where
  abbrev call_listener : Option (Inner W P) → Heap W P → Event → ℕ → P → W → Option W
  call_listener none heap event entity status w = none
  call_listener (some inner) heap event entity status w =
      call_library inner.listener heap event entity status w

  -- What the C library's call of an event does once the writer is created. Nothing where there is no
  -- writer or no listener.
  abbrev pub call_created : Creation W P → Event → ℕ → P → W → Option W
  call_created panicked event entity status w = none
  call_created (returned (err e, heap)) event entity status w = none
  call_created (returned (ok writer, heap)) event entity status w =
      call_listener writer.listener heap event entity status w

  chained_callbacks :
      (update : Closure W P) (inner : Inner W P) (callbacks : Callbacks W P)
      → inner.callbacks ≡ some callbacks
      → (chain_callback publication_matched update inner).callbacks
        ≡ some (chain_on publication_matched update callbacks)
  unfolding chain_callback
  chained_callbacks update inner callbacks h =
      ap (on_unhooked (chain_on publication_matched update)) h

  after_hook_calls :
      (l n : ℕ) (watched : Option ℕ) (inner : Inner W P) (callbacks : Callbacks W P)
      (heap : Heap W P) (event : Event) (entity : ℕ) (status : P) (w : W)
      → call_created
          (after_hook (non_negative n) watched (hook_boxed (some l) inner callbacks heap))
          event
          entity
          status
          w
        ≡ call_after (hook_boxed (some l) inner callbacks heap) event entity status w
  unfolding hook_boxed create_entity to_dds_listener created_writer
  after_hook_calls l n watched inner callbacks heap event entity status w = refl

  hooked_calls :
      (l n : ℕ) (watched : Option ℕ) (inner : Inner W P) (callbacks : Callbacks W P)
      (heap : Heap W P) (event : Event) (entity : ℕ) (status : P) (w : W)
      → inner.callbacks ≡ some callbacks
      → call_created
          (after_hook (non_negative n) watched (hook (some l) inner heap))
          event
          entity
          status
          w
        ≡ call_after (hook (some l) inner heap) event entity status w
  hooked_calls l n watched inner callbacks heap event entity status w h =
      let e = hook_unhooked (some l) inner callbacks heap h in
      ap (λ k. call_created (after_hook (non_negative n) watched k) event entity status w) e
      ∙ after_hook_calls l n watched inner callbacks heap event entity status w
      ∙ ap (λ k. call_after k event entity status w) (sym e)

  create_chained_calls :
      (update : Closure W P) (n l timeout : ℕ) (inner : Inner W P) (callbacks : Callbacks W P)
      (heap : Heap W P) (event : Event) (entity : ℕ) (status : P) (w : W)
      → inner.callbacks ≡ some callbacks
      → call_created
          (create_chained update (non_negative n) (some l) inner (some timeout) heap)
          event
          entity
          status
          w
        ≡ some (
            run
              (callbacks event)
              entity
              status
              (if event_eq event publication_matched then update entity status w else w))
  unfolding create_chained
  create_chained_calls update n l timeout inner callbacks heap event entity status w h =
      hooked_calls l n (some timeout) (chain_callback publication_matched update inner)
        (chain_on publication_matched update callbacks) heap event entity status w
        (chained_callbacks update inner callbacks h)
      ∙ chain_callback_lem publication_matched event update l inner callbacks heap entity status w h

  -- The boxes and listeners that are left when the creation fails.
  abbrev pub left_by : Creation W P → Option (Heap W P)
  left_by panicked = none
  left_by (returned (ok writer, heap)) = none
  left_by (returned (err e, heap)) = some heap

  failed_hook :
      (l n : ℕ) (watched : Option ℕ) (inner : Inner W P) (callbacks : Callbacks W P)
      (heap : Heap W P)
      → left_by (after_hook (negative n) watched (hook_boxed (some l) inner callbacks heap))
        ≡ some (dropped_after (hook_boxed (some l) inner callbacks heap))
  unfolding hook_boxed create_entity to_dds_listener created_writer
  failed_hook l n watched inner callbacks heap = refl

  -- If the C library refuses the writer, the listener that was hooked for it is freed with it: the
  -- boxes and listeners left are those before.
  pub create_with_watch_frees :
      (update : Closure W P) (n l timeout : ℕ) (inner : Inner W P) (callbacks : Callbacks W P)
      (heap : Heap W P)
      → inner.callbacks ≡ some callbacks
      → AllBelow heap.next_ptr heap.boxes
      → AllOthers l heap.listeners
      → (after : Heap W P) × (left_by
            (create_chained update (negative n) (some l) inner (some timeout) heap)
          ≡ some after)
        × (after.boxes ≡ heap.boxes)
        × (after.listeners ≡ heap.listeners)
  unfolding create_chained
  create_with_watch_frees update n l timeout inner callbacks heap h b o =
      let chained = chain_callback publication_matched update inner in
      let cs = chain_on publication_matched update callbacks in
      let c = chained_callbacks update inner callbacks h in
      let e = hook_unhooked (some l) chained cs heap c in
      let d = drop_listener_lem l chained cs heap c b o in
      (
        dropped_after (hook (some l) chained heap),
        ap (λ k. left_by (after_hook (negative n) (some timeout) k)) e
            ∙ failed_hook l n (some timeout) chained cs heap
            ∙ ap (λ k. some (dropped_after k)) (sym e),
        d.0,
        d.1,
      )

module _ {U P : Type 0} (current_count now : P → ℕ) (start : ℕ) where
  -- What the writer itself does on an event.
  abbrev pub own_effect : Event → P → MatchWatch × U → MatchWatch × U
  own_effect event status w =
      if event_eq event publication_matched
      then (update_at w.0 (current_count status) (now status), w.1)
      else w

  -- The listener of a writer that is to watch for absent readers and is created is registered with
  -- the C library for what the writer needs: on a change of the number of matched readers it first
  -- updates the watch with that number and then calls the callback that the listener builder has for
  -- the event, if any; on every other event it calls what the builder has. The watch measures from
  -- the creation on. That holds whatever listener is given besides: it is ignored, as the
  -- documentation says.
  pub create_watched_lem :
      {Q : Type 0} (n l timeout : ℕ) (b : WriterBuilder Q (MatchWatch × U) P)
      (callbacks : Callbacks (MatchWatch × U) P) (heap : Heap (MatchWatch × U) P) (event : Event)
      (entity : ℕ) (status : P) (w : MatchWatch × U)
      → b.watch_timeout ≡ some timeout
      → (unwrap_or_default b.maybe_listener_builder).callbacks ≡ some callbacks
      → let result = create current_count now start (non_negative n) (some l) b heap in
        (call_created result.0 event entity status w
          ≡ some (run (callbacks event) entity status (own_effect event status w)))
        × (result.1 ≡ some (record { timeout = timeout; state = absent start false }))
  unfolding create create_with_watch new_at update_watch
  create_watched_lem n l timeout b callbacks heap event entity status w t h =
      let result : Option ℕ → Creation (MatchWatch × U) P × Option MatchWatch = λ o.
        create_watched current_count now start o (non_negative n) (some l) b.maybe_listener
          b.maybe_listener_builder heap in
      (
        ap (λ o. call_created (result o).0 event entity status w) t
            ∙ create_chained_calls (update_watch current_count now) n l timeout
                (unwrap_or_default b.maybe_listener_builder) callbacks heap event entity status w h,
        ap (λ o. (result o).1) t,
      )
