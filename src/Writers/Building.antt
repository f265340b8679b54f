-- ===== src/Writers/Building.antt =====
-- cyclonedds/src/dds_writer.rs: `WriterBuilder`, and how a writer is created with its listener.
pub mod Laws
use cyclonedds_rs.Common.{ℕ, Bool, true, false, Option, none, some}
use cyclonedds_rs.Error.{ReturnCode, non_negative, negative, from_code, Result, ok, err}
use cyclonedds_rs.Serdata.{Outcome, returned, panicked}
use cyclonedds_rs.MatchWatch.{MatchWatch, new_at, update_at}
use cyclonedds_rs.Writers.Loans.{zero_or_err}
use cyclonedds_rs.Listeners
use cyclonedds_rs.Listeners.{
  Event, publication_matched, Closure, Inner, Heap, Hooked, hooked, hook, to_dds_listener,
  drop_listener, chain_callback,
}

-- A listener is a hooked one or not; a listener builder is one that is not.
pub record WriterBuilder (Q W P : Type 0) : Type 0 where
  pub maybe_qos : Option Q
  pub maybe_listener : Option (Inner W P)
  pub maybe_listener_builder : Option (Inner W P)
  pub watch_timeout : Option ℕ

-- The handle of the entity, its listener, and the timeout of its watch.
pub record DdsWriter (W P : Type 0) : Type 0 where
  pub p : ℕ
  pub listener : Option (Inner W P)
  pub watched : Option ℕ

module _ {Q W P : Type 0} where
  unfoldable pub new : WriterBuilder Q W P
  new = record {
    maybe_qos = none;
    maybe_listener = none;
    maybe_listener_builder = none;
    watch_timeout = none;
  }

  unfoldable pub with_qos : WriterBuilder Q W P → Q → WriterBuilder Q W P
  with_qos b qos = record b { maybe_qos = some qos }

  unfoldable pub watch_reader_absence : WriterBuilder Q W P → ℕ → WriterBuilder Q W P
  watch_reader_absence b timeout = record b { watch_timeout = some timeout }

  unfoldable pub with_listener : WriterBuilder Q W P → Inner W P → WriterBuilder Q W P
  with_listener b listener = record b { maybe_listener = some listener }

  unfoldable pub with_listener_builder : WriterBuilder Q W P → Inner W P → WriterBuilder Q W P
  with_listener_builder b builder = record b { maybe_listener_builder = some builder }

-- The closure that a writer with a watch chains: the time of the call and the number of matched
-- readers are read from what the callback is given.
unfoldable pub update_watch :
    {U P : Type 0} → (P → ℕ) → (P → ℕ) → ℕ → P → MatchWatch × U → MatchWatch × U
update_watch current_count now entity status (watch, u) =
    (update_at watch (current_count status) (now status), u)

abbrev pub Creation : Type 0 → Type 0 → Type 0
Creation W P = Outcome (Result (DdsWriter W P) × Heap W P)

module _ {W P : Type 0} where
  abbrev pub drop_maybe : Option (Inner W P) → Heap W P → Heap W P
  drop_maybe none heap = heap
  drop_maybe (some inner) heap = drop_listener inner heap

  -- What `dds_create_writer` answers: a handle that is not negative, or an error. On an error the
  -- listener is dropped.
  unfoldable pub created_writer :
      ReturnCode → Option (Inner W P) → Option ℕ → Heap W P → Result (DdsWriter W P) × Heap W P
  created_writer (non_negative w) listener watched heap =
      (ok (record { p = w; listener = listener; watched = watched }), heap)
  created_writer (negative n) listener watched heap =
      (err (from_code (negative n)), drop_maybe listener heap)

  -- A listener that is not hooked has no pointer, where the code panics.
  abbrev pub checked_pointer : Option ℕ → Result (DdsWriter W P) × Heap W P → Creation W P
  checked_pointer none created = panicked
  checked_pointer (some l) created = returned created

  unfoldable pub create_entity :
      ReturnCode → Option (Inner W P) → Option ℕ → Heap W P → Creation W P
  create_entity code none watched heap = returned (created_writer code none watched heap)
  create_entity code (some listener) watched heap =
      checked_pointer (to_dds_listener listener) (created_writer code (some listener) watched heap)

  abbrev pub after_hook : ReturnCode → Option ℕ → Hooked W P → Creation W P
  after_hook code watched (hooked listener heap) = create_entity code (some listener) watched heap
  after_hook code watched (Hooked.panicked heap) = panicked

  abbrev pub chain_watch : Option ℕ → Closure W P → Inner W P → Inner W P
  chain_watch none update builder = builder
  chain_watch (some timeout) update builder = chain_callback publication_matched update builder

  -- `created` is what `dds_create_listener` returns.
  unfoldable pub create_chained :
      Closure W P → ReturnCode → Option ℕ → Inner W P → Option ℕ → Heap W P → Creation W P
  create_chained update code created builder timeout heap =
      after_hook code timeout (hook created (chain_watch timeout update builder) heap)

  abbrev pub unwrap_or_default : Option (Inner W P) → Inner W P
  unwrap_or_default none = Listeners.new
  unwrap_or_default (some builder) = builder

  abbrev pub create_with :
      ReturnCode → Option ℕ → Option (Inner W P) → Option (Inner W P) → Heap W P → Creation W P
  create_with code created (some listener) builder heap =
      create_entity code (some listener) none heap
  create_with code created none (some builder) heap =
      after_hook code none (hook created builder heap)
  create_with code created none none heap = create_entity code none none heap

  abbrev pub replace_listener :
      Result (Unit {0})
      → DdsWriter W P
      → Inner W P
      → Heap W P
      → Result (Unit {0}) × DdsWriter W P × Heap W P
  replace_listener (ok done) writer listener heap =
      (ok done, record writer { listener = some listener }, drop_maybe writer.listener heap)
  replace_listener (err e) writer listener heap = (err e, writer, drop_listener listener heap)

  abbrev pub checked_replacement :
      Option ℕ
      → Result (Unit {0}) × DdsWriter W P × Heap W P
      → Outcome (Result (Unit {0}) × DdsWriter W P × Heap W P)
  checked_replacement none replaced = panicked
  checked_replacement (some l) replaced = returned replaced

  -- `rc` is what `dds_set_listener` answers. The listener that is replaced is dropped, or else the
  -- new one.
  unfoldable pub set_listener :
      ReturnCode
      → DdsWriter W P
      → Inner W P
      → Heap W P
      → Outcome (Result (Unit {0}) × DdsWriter W P × Heap W P)
  set_listener rc writer listener heap =
      checked_replacement (to_dds_listener listener)
        (replace_listener (zero_or_err rc) writer listener heap)

-- `absence_timeout.map(MatchWatch::new)`.
abbrev pub new_watch : ℕ → Option ℕ → Option MatchWatch
new_watch start none = none
new_watch start (some timeout) = some (new_at timeout start)

-- `current_count` and `now` read the number of matched readers and the time from what a callback is
-- given, and `start` is the time of the creation. The watch that is made is returned with the writer.
module _ {U P : Type 0} (current_count now : P → ℕ) (start : ℕ) where
  unfoldable pub create_with_watch :
      ReturnCode
      → Option ℕ
      → Inner (MatchWatch × U) P
      → Option ℕ
      → Heap (MatchWatch × U) P
      → Creation (MatchWatch × U) P × Option MatchWatch
  create_with_watch code created builder timeout heap = (
    create_chained (update_watch current_count now) code created builder timeout heap,
    new_watch start timeout,
  )

  abbrev pub create_watched :
      Option ℕ
      → ReturnCode
      → Option ℕ
      → Option (Inner (MatchWatch × U) P)
      → Option (Inner (MatchWatch × U) P)
      → Heap (MatchWatch × U) P
      → Creation (MatchWatch × U) P × Option MatchWatch
  create_watched (some timeout) code created listener builder heap =
      create_with_watch code created (unwrap_or_default builder) (some timeout) heap
  create_watched none code created listener builder heap =
      (create_with code created listener builder heap, none)

  unfoldable pub create :
      {Q : Type 0}
      → ReturnCode
      → Option ℕ
      → WriterBuilder Q (MatchWatch × U) P
      → Heap (MatchWatch × U) P
      → Creation (MatchWatch × U) P × Option MatchWatch
  create code created b heap =
      create_watched b.watch_timeout code created b.maybe_listener b.maybe_listener_builder heap
