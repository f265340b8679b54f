-- ===== src/Readers/Building/Laws.antt =====
-- The listener of an asynchronous reader, in cyclonedds/src/dds_reader.rs and
-- cyclonedds/src/futures.rs.
use cyclonedds_rs.Common.{ℕ, suc, ◌+◌, false, ◌≡◌, refl, sym, ap, ◌∙◌, true, Option, none, some}
use cyclonedds_rs.Error.{ReturnCode, non_negative, ok, err}
use cyclonedds_rs.Serdata.{returned, panicked}
use cyclonedds_rs.Listeners.{
  Event, data_available, sample_lost, sample_rejected, liveliness_changed,
  requested_deadline_missed, requested_incompatible_qos, subscription_matched, liveliness_lost,
  offered_deadline_missed, offered_incompatible_qos, publication_matched, inconsistent_topic,
  data_on_readers, Closure, Callbacks, Inner, Heap, hook, hook_boxed, run, chain_callback, chain_on,
  chained, set_callback, on_unhooked, to_dds_listener,
}
use mathlib.Core.Path.{subst}
use cyclonedds_rs.Error
use cyclonedds_rs.MatchWatch.{MatchWatch, absent, new_at, update_at}
use cyclonedds_rs.MatchWatch.Watchdog.{register, reschedule}
use cyclonedds_rs.Futures.{
  AtomicWaker, new, matched_watch, on_data_available, on_requested_deadline_missed,
  on_subscription_matched,
}
use cyclonedds_rs.Futures.Closures.{
  Captured, woken_by, wake_closure, deadline_closure, matched_closure, share,
}
use cyclonedds_rs.Listeners.Laws.{call_library, call_after, hook_unhooked, hook_calls}
use cyclonedds_rs.Readers.Building.{
  ReaderBuilder, SharedClosures, Creation, created_reader, create_sync_or_async, after_hook,
  chain_shared, reader_closures, data_reader_listener, new_watch, create_async_with_watch,
  unwrap_or_default, create,
}

module _ {W P : Type 0} where
  -- What the closures of the reader do on an event.
  abbrev own_closure : SharedClosures W P → Option MatchWatch → Event → ℕ → P → W → W
  own_closure shared watch data_available = shared.wake
  own_closure shared watch requested_deadline_missed = shared.deadline_missed
  own_closure shared (some watch) subscription_matched = shared.update_watch
  own_closure shared watch other = λ entity status w. w

  abbrev watched_callbacks : Option MatchWatch → Closure W P → Callbacks W P → Callbacks W P
  watched_callbacks none update callbacks = callbacks
  watched_callbacks (some watch) update callbacks = chain_on subscription_matched update callbacks

  abbrev reader_callbacks : SharedClosures W P → Option MatchWatch → Callbacks W P → Callbacks W P
  reader_callbacks shared watch callbacks = watched_callbacks watch shared.update_watch (
      chain_on requested_deadline_missed shared.deadline_missed
        (chain_on data_available shared.wake callbacks))

  reader_callbacks_lem :
      (shared : SharedClosures W P) (watch : Option MatchWatch) (callbacks : Callbacks W P)
      (event : Event) (entity : ℕ) (status : P) (w : W)
      → run (reader_callbacks shared watch callbacks event) entity status w
        ≡ run (callbacks event) entity status (own_closure shared watch event entity status w)
  unfolding set_callback chained
  reader_callbacks_lem shared none callbacks data_available entity status w = refl
  reader_callbacks_lem shared none callbacks sample_lost entity status w = refl
  reader_callbacks_lem shared none callbacks sample_rejected entity status w = refl
  reader_callbacks_lem shared none callbacks liveliness_changed entity status w = refl
  reader_callbacks_lem shared none callbacks requested_deadline_missed entity status w = refl
  reader_callbacks_lem shared none callbacks requested_incompatible_qos entity status w = refl
  reader_callbacks_lem shared none callbacks subscription_matched entity status w = refl
  reader_callbacks_lem shared none callbacks liveliness_lost entity status w = refl
  reader_callbacks_lem shared none callbacks offered_deadline_missed entity status w = refl
  reader_callbacks_lem shared none callbacks offered_incompatible_qos entity status w = refl
  reader_callbacks_lem shared none callbacks publication_matched entity status w = refl
  reader_callbacks_lem shared none callbacks inconsistent_topic entity status w = refl
  reader_callbacks_lem shared none callbacks data_on_readers entity status w = refl
  reader_callbacks_lem shared (some watch) callbacks data_available entity status w = refl
  reader_callbacks_lem shared (some watch) callbacks sample_lost entity status w = refl
  reader_callbacks_lem shared (some watch) callbacks sample_rejected entity status w = refl
  reader_callbacks_lem shared (some watch) callbacks liveliness_changed entity status w = refl
  reader_callbacks_lem shared (some watch) callbacks requested_deadline_missed entity status w =
      refl
  reader_callbacks_lem shared (some watch) callbacks requested_incompatible_qos entity status w =
      refl
  reader_callbacks_lem shared (some watch) callbacks subscription_matched entity status w = refl
  reader_callbacks_lem shared (some watch) callbacks liveliness_lost entity status w = refl
  reader_callbacks_lem shared (some watch) callbacks offered_deadline_missed entity status w = refl
  reader_callbacks_lem shared (some watch) callbacks offered_incompatible_qos entity status w = refl
  reader_callbacks_lem shared (some watch) callbacks publication_matched entity status w = refl
  reader_callbacks_lem shared (some watch) callbacks inconsistent_topic entity status w = refl
  reader_callbacks_lem shared (some watch) callbacks data_on_readers entity status w = refl

  chain_callback_callbacks :
      (event : Event) (closure : Closure W P) (inner : Inner W P) (callbacks : Callbacks W P)
      → inner.callbacks ≡ some callbacks
      → (chain_callback event closure inner).callbacks ≡ some (chain_on event closure callbacks)
  unfolding chain_callback
  chain_callback_callbacks event closure inner callbacks h =
      ap (on_unhooked (chain_on event closure)) h

  listener_callbacks :
      (shared : SharedClosures W P) (watch : Option MatchWatch) (inner : Inner W P)
      (callbacks : Callbacks W P)
      → inner.callbacks ≡ some callbacks
      → (chain_shared shared inner watch).callbacks ≡ some (reader_callbacks shared watch callbacks)
  unfolding chain_shared
  listener_callbacks shared none inner callbacks h =
      chain_callback_callbacks requested_deadline_missed shared.deadline_missed _ _
        (chain_callback_callbacks data_available shared.wake inner callbacks h)
  listener_callbacks shared (some watch) inner callbacks h =
      chain_callback_callbacks subscription_matched shared.update_watch _ _ (
        chain_callback_callbacks requested_deadline_missed shared.deadline_missed _ _
          (chain_callback_callbacks data_available shared.wake inner callbacks h))

  abbrev call_listener : Option (Inner W P) → Heap W P → Event → ℕ → P → W → Option W
  call_listener none heap event entity status w = none
  call_listener (some inner) heap event entity status w =
      call_library inner.listener heap event entity status w

  -- What the C library's call of an event does once the reader is created. Nothing where there is no
  -- reader or no listener.
  abbrev pub call_created : Creation W P → Event → ℕ → P → W → Option W
  call_created panicked event entity status w = none
  call_created (returned (err e, heap)) event entity status w = none
  call_created (returned (ok reader, heap)) event entity status w =
      call_listener reader.listener heap event entity status w

  after_hook_calls :
      (l n : ℕ) (inner : Inner W P) (callbacks : Callbacks W P) (heap : Heap W P) (event : Event)
      (entity : ℕ) (status : P) (w : W)
      → call_created
          (after_hook (non_negative (suc n)) true (hook_boxed (some l) inner callbacks heap))
          event
          entity
          status
          w
        ≡ call_after (hook_boxed (some l) inner callbacks heap) event entity status w
  unfolding hook_boxed create_sync_or_async to_dds_listener created_reader
  after_hook_calls l n inner callbacks heap event entity status w = refl

  hooked_calls :
      (l n : ℕ) (inner : Inner W P) (callbacks : Callbacks W P) (heap : Heap W P) (event : Event)
      (entity : ℕ) (status : P) (w : W)
      → inner.callbacks ≡ some callbacks
      → call_created
          (after_hook (non_negative (suc n)) true (hook (some l) inner heap))
          event
          entity
          status
          w
        ≡ some (run (callbacks event) entity status w)
  hooked_calls l n inner callbacks heap event entity status w h =
      let e = hook_unhooked (some l) inner callbacks heap h in
      ap (λ k. call_created (after_hook (non_negative (suc n)) true k) event entity status w) e
      ∙ after_hook_calls l n inner callbacks heap event entity status w
      ∙ ap (λ k. call_after k event entity status w) (sym e)
      ∙ hook_calls l inner callbacks heap event entity status w h

abbrev updated : Option MatchWatch → ℕ → ℕ → Option MatchWatch
updated none count instant = none
updated (some watch) count instant = some (update_at watch count instant)

matched_effect :
    (aw : AtomicWaker) (watch : Option MatchWatch) (count instant : ℕ)
    → matched_watch aw watch count instant ≡ updated watch count instant
unfolding matched_watch
matched_effect aw none count instant = refl
matched_effect aw (some watch) count instant = refl

module _ {U : Type 0} (aw : AtomicWaker) where
  open aw use {take}

  abbrev awake : Captured aw U → Captured aw U
  awake w = record w {
    shared = record w.shared { waker = (take w.shared.waker).1 };
    woken = woken_by aw (take w.shared.waker).0 w.woken;
  }

  -- The state after the creation: a new slot, no error, and a watch, known to the watchdog, just when
  -- there is a timeout.
  abbrev pub Started : ℕ → Option ℕ → Captured aw U → Captured aw U → Type 0
  Started start none w w' =
      w' ≡ record w { shared = record { waker = aw.empty; pending_error = none; watch = none } }
  Started start (some timeout) w w' = w' ≡ record w {
    shared = record {
      waker = aw.empty;
      pending_error = none;
      watch = some (record { timeout = timeout; state = absent start false });
    };
    watchdog = register w.watched w.watchdog w.id;
  }

module _ {U P : Type 0} (aw : AtomicWaker) (current_count now : P → ℕ) (start : ℕ) where
  -- What the reader itself does on an event.
  abbrev pub own_effect : Option ℕ → Event → ℕ → P → Captured aw U → Captured aw U
  own_effect timeout data_available entity status w = awake aw w
  own_effect timeout requested_deadline_missed entity status w = awake aw (record w {
    shared = record w.shared { pending_error = some Error.requested_deadline_missed };
  })
  own_effect (some timeout) subscription_matched entity status w = record w {
    shared = record w.shared { watch = updated w.shared.watch (current_count status) (now status) };
    watchdog = record w.watchdog { generation = w.watchdog.generation + 1 };
  }
  own_effect timeout other entity status w = w

  closure_effect :
      (timeout : Option ℕ) (event : Event) (entity : ℕ) (status : P) (w : Captured aw U)
      → own_closure
          (reader_closures aw current_count now start)
          (new_watch start timeout)
          event
          entity
          status
          w
        ≡ own_effect timeout event entity status w
  unfolding reader_closures wake_closure deadline_closure matched_closure on_data_available
      on_requested_deadline_missed on_subscription_matched reschedule
  closure_effect none data_available entity status w = refl
  closure_effect none sample_lost entity status w = refl
  closure_effect none sample_rejected entity status w = refl
  closure_effect none liveliness_changed entity status w = refl
  closure_effect none requested_deadline_missed entity status w = refl
  closure_effect none requested_incompatible_qos entity status w = refl
  closure_effect none subscription_matched entity status w = refl
  closure_effect none liveliness_lost entity status w = refl
  closure_effect none offered_deadline_missed entity status w = refl
  closure_effect none offered_incompatible_qos entity status w = refl
  closure_effect none publication_matched entity status w = refl
  closure_effect none inconsistent_topic entity status w = refl
  closure_effect none data_on_readers entity status w = refl
  closure_effect (some timeout) data_available entity status w = refl
  closure_effect (some timeout) sample_lost entity status w = refl
  closure_effect (some timeout) sample_rejected entity status w = refl
  closure_effect (some timeout) liveliness_changed entity status w = refl
  closure_effect (some timeout) requested_deadline_missed entity status w = refl
  closure_effect (some timeout) requested_incompatible_qos entity status w = refl
  closure_effect (some timeout) subscription_matched entity status w =
      ap
        (λ watch. record w {
          shared = record w.shared { watch = watch };
          watchdog = record w.watchdog { generation = w.watchdog.generation + 1 };
        })
        (matched_effect aw w.shared.watch (current_count status) (now status))
  closure_effect (some timeout) liveliness_lost entity status w = refl
  closure_effect (some timeout) offered_deadline_missed entity status w = refl
  closure_effect (some timeout) offered_incompatible_qos entity status w = refl
  closure_effect (some timeout) publication_matched entity status w = refl
  closure_effect (some timeout) inconsistent_topic entity status w = refl
  closure_effect (some timeout) data_on_readers entity status w = refl

  share-Started :
      (timeout : Option ℕ) (w : Captured aw U)
      → Started aw start timeout w (share aw (new_watch start timeout) w)
  unfolding share new new_at
  share-Started none w = refl
  share-Started (some timeout) w = refl

  create_is_async :
      {Q : Type 0} (code : ReturnCode) (created : Option ℕ) (b : ReaderBuilder Q (Captured aw U) P)
      (heap : Heap (Captured aw U) P) (w : Captured aw U)
      → b.is_async ≡ true
      → create aw current_count now start code created b heap w ≡ (
        after_hook code true (
            hook created
              (chain_shared
                (reader_closures aw current_count now start)
                (unwrap_or_default b.maybe_listener_builder)
                (new_watch start b.absence_timeout))
              heap),
        share aw (new_watch start b.absence_timeout) w,
      )
  unfolding create create_async_with_watch data_reader_listener
  create_is_async code created b heap w a = rw (a) refl

  -- The listener of an asynchronous reader that is created is registered with the C library for what
  -- the reader needs: whatever its state is then, new data takes the waker out of the slot and wakes
  -- it, a missed deadline is noted as the pending error and wakes as well, and, if there is a timeout,
  -- a change of the number of matched writers updates the watch and reschedules the watchdog, in each
  -- case before the callback that the listener builder has for the event, if any; every other event
  -- calls what the builder has. The creation makes the shared state with an empty slot, no error and,
  -- if there is a timeout, a watch that measures from the creation on and is registered with the
  -- watchdog. A listener that is given besides is ignored.
  pub create_async_lem :
      {Q : Type 0} (l n : ℕ) (b : ReaderBuilder Q (Captured aw U) P)
      (callbacks : Callbacks (Captured aw U) P) (heap : Heap (Captured aw U) P) (event : Event)
      (entity : ℕ) (status : P) (before w : Captured aw U)
      → b.is_async ≡ true
      → (unwrap_or_default b.maybe_listener_builder).callbacks ≡ some callbacks
      → let result =
          create aw current_count now start (non_negative (suc n)) (some l) b heap before in
        (call_created result.0 event entity status w
          ≡ some (
              run
                (callbacks event)
                entity
                status
                (own_effect b.absence_timeout event entity status w)))
        × Started aw start b.absence_timeout before result.1
  create_async_lem l n b callbacks heap event entity status before w a h =
      let e = create_is_async (non_negative (suc n)) (some l) b heap before a in
      let closures = reader_closures aw current_count now start in
      let watch = new_watch start b.absence_timeout in
      (
        ap (λ r. call_created r.0 event entity status w) e
            ∙ hooked_calls l n
                (chain_shared closures (unwrap_or_default b.maybe_listener_builder) watch)
                (reader_callbacks closures watch callbacks) heap event entity status w
                (listener_callbacks closures watch (unwrap_or_default b.maybe_listener_builder)
                  callbacks h)
            ∙ ap some (reader_callbacks_lem closures watch callbacks event entity status w)
            ∙ ap (λ x. some (run (callbacks event) entity status x))
                (closure_effect b.absence_timeout event entity status w),
        subst (λ r. Started aw start b.absence_timeout before r.1) (sym e)
            (share-Started b.absence_timeout before),
      )
