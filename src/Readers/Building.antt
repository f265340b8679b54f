-- ===== src/Readers/Building.antt =====
-- cyclonedds/src/dds_reader.rs: `ReaderBuilder`, and how a reader is created with its listener, which
-- cyclonedds/src/futures.rs prepares for an asynchronous one.
pub mod Laws
use cyclonedds_rs.Common.{ℕ, zero, suc, Bool, true, false, Option, none, some, if◌then◌else◌}
use cyclonedds_rs.Error.{ReturnCode, non_negative, negative, from_code, Result, ok, err}
use cyclonedds_rs.Serdata.{Outcome, returned, panicked}
use cyclonedds_rs.MatchWatch.{MatchWatch, new_at}
use cyclonedds_rs.Futures.{AtomicWaker}
use cyclonedds_rs.Futures.Closures.{
  Captured, wake_closure, deadline_closure, matched_closure, share,
}
use cyclonedds_rs.Listeners
use cyclonedds_rs.Listeners.{
  data_available, requested_deadline_missed, subscription_matched, Closure, Inner, Heap, Hooked,
  hooked, hook, to_dds_listener, drop_listener, chain_callback,
}

pub record ReaderBuilder (Q W P : Type 0) : Type 0 where
  pub maybe_qos : Option Q
  pub maybe_listener : Option (Inner W P)
  pub maybe_listener_builder : Option (Inner W P)
  pub is_async : Bool
  pub absence_timeout : Option ℕ

-- The handle of the entity, its listener, and whether it is an asynchronous one.
pub record DdsReader (W P : Type 0) : Type 0 where
  pub entity : ℕ
  pub listener : Option (Inner W P)
  pub is_async : Bool

-- The closures of an asynchronous reader, which share its state.
pub record SharedClosures (W P : Type 0) : Type 0 where
  pub wake : Closure W P
  pub deadline_missed : Closure W P
  pub update_watch : Closure W P

module _ {Q W P : Type 0} where
  unfoldable pub new : ReaderBuilder Q W P
  new = record {
    maybe_qos = none;
    maybe_listener = none;
    maybe_listener_builder = none;
    is_async = false;
    absence_timeout = none;
  }

  unfoldable pub as_async : ReaderBuilder Q W P → ReaderBuilder Q W P
  as_async b = record b { is_async = true }

  unfoldable pub stop_when_no_writer : ReaderBuilder Q W P → ℕ → ReaderBuilder Q W P
  stop_when_no_writer b timeout = record b { is_async = true; absence_timeout = some timeout }

  unfoldable pub with_qos : ReaderBuilder Q W P → Q → ReaderBuilder Q W P
  with_qos b qos = record b { maybe_qos = some qos }

  unfoldable pub with_listener : ReaderBuilder Q W P → Inner W P → ReaderBuilder Q W P
  with_listener b listener = record b { maybe_listener = some listener }

  unfoldable pub with_listener_builder : ReaderBuilder Q W P → Inner W P → ReaderBuilder Q W P
  with_listener_builder b builder = record b { maybe_listener_builder = some builder }

abbrev pub Creation : Type 0 → Type 0 → Type 0
Creation W P = Outcome (Result (DdsReader W P) × Heap W P)

module _ {W P : Type 0} where
  abbrev pub drop_maybe : Option (Inner W P) → Heap W P → Heap W P
  drop_maybe none heap = heap
  drop_maybe (some inner) heap = drop_listener inner heap

  -- What `dds_create_reader` answers: a handle that is positive, or an error, 0 included. On an error
  -- the listener is dropped.
  unfoldable pub created_reader :
      ReturnCode → Option (Inner W P) → Bool → Heap W P → Result (DdsReader W P) × Heap W P
  created_reader (non_negative zero) listener is_async heap =
      (err (from_code (non_negative zero)), drop_maybe listener heap)
  created_reader (non_negative (suc w)) listener is_async heap =
      (ok (record { entity = suc w; listener = listener; is_async = is_async }), heap)
  created_reader (negative n) listener is_async heap =
      (err (from_code (negative n)), drop_maybe listener heap)

  abbrev pub checked_pointer : Option ℕ → Result (DdsReader W P) × Heap W P → Creation W P
  checked_pointer none created = panicked
  checked_pointer (some l) created = returned created

  unfoldable pub create_sync_or_async :
      ReturnCode → Option (Inner W P) → Bool → Heap W P → Creation W P
  create_sync_or_async code none is_async heap = returned (created_reader code none is_async heap)
  create_sync_or_async code (some listener) is_async heap =
      checked_pointer (to_dds_listener listener) (created_reader code (some listener) is_async heap)

  abbrev pub after_hook : ReturnCode → Bool → Hooked W P → Creation W P
  after_hook code is_async (hooked listener heap) =
      create_sync_or_async code (some listener) is_async heap
  after_hook code is_async (Hooked.panicked heap) = panicked

  abbrev pub chain_watch : Option MatchWatch → Closure W P → Inner W P → Inner W P
  chain_watch none update builder = builder
  chain_watch (some watch) update builder = chain_callback subscription_matched update builder

  unfoldable pub chain_shared : SharedClosures W P → Inner W P → Option MatchWatch → Inner W P
  chain_shared shared builder watch = chain_watch watch shared.update_watch (
      chain_callback requested_deadline_missed shared.deadline_missed
        (chain_callback data_available shared.wake builder))

  abbrev pub unwrap_or_default : Option (Inner W P) → Inner W P
  unwrap_or_default none = Listeners.new
  unwrap_or_default (some builder) = builder

  abbrev pub create_with :
      ReturnCode → Option ℕ → Option (Inner W P) → Option (Inner W P) → Heap W P → Creation W P
  create_with code created (some listener) builder heap =
      create_sync_or_async code (some listener) false heap
  create_with code created none (some builder) heap =
      after_hook code false (hook created builder heap)
  create_with code created none none heap = create_sync_or_async code none false heap

-- `absence_timeout.map(MatchWatch::new)`.
abbrev pub new_watch : ℕ → Option ℕ → Option MatchWatch
new_watch start none = none
new_watch start (some timeout) = some (new_at timeout start)

-- `current_count` and `now` read the number of matched writers and the time from what a callback is
-- given, and `start` is the time of the creation.
module _ {U P : Type 0} (aw : AtomicWaker) (current_count now : P → ℕ) (start : ℕ) where
  unfoldable pub reader_closures : SharedClosures (Captured aw U) P
  reader_closures = record {
    wake = wake_closure aw;
    deadline_missed = deadline_closure aw;
    update_watch = matched_closure aw current_count now;
  }

  -- The callbacks that wake the reader are chained, and the state that they share is made.
  unfoldable pub data_reader_listener :
      Inner (Captured aw U) P
      → Option MatchWatch
      → Captured aw U
      → Inner (Captured aw U) P × Captured aw U
  data_reader_listener builder watch w =
      (chain_shared reader_closures builder watch, share aw watch w)

  unfoldable pub create_async_with_watch :
      ReturnCode
      → Option ℕ
      → Inner (Captured aw U) P
      → Option ℕ
      → Heap (Captured aw U) P
      → Captured aw U
      → Creation (Captured aw U) P × Captured aw U
  create_async_with_watch code created builder timeout heap w =
      let (listener, w') = data_reader_listener builder (new_watch start timeout) w in
      (after_hook code true (hook created listener heap), w')

  unfoldable pub create_async :
      ReturnCode
      → Option ℕ
      → Heap (Captured aw U) P
      → Captured aw U
      → Creation (Captured aw U) P × Captured aw U
  create_async code created heap w = create_async_with_watch code created Listeners.new none heap w

  unfoldable pub create :
      {Q : Type 0}
      → ReturnCode
      → Option ℕ
      → ReaderBuilder Q (Captured aw U) P
      → Heap (Captured aw U) P
      → Captured aw U
      → Creation (Captured aw U) P × Captured aw U
  create code created b heap w =
      if b.is_async
      then create_async_with_watch code created (unwrap_or_default b.maybe_listener_builder)
          b.absence_timeout heap w
      else (create_with code created b.maybe_listener b.maybe_listener_builder heap, w)
