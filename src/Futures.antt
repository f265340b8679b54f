-- ===== src/Futures.antt =====
-- cyclonedds/src/futures.rs: the state that an asynchronous reader shares with the callbacks of its
-- listener, and the polls of the future that `read` returns. `AtomicWaker` of `futures_util` is the
-- parameter `AtomicWaker`; the function that reads from the entity is the number of samples or the
-- error that it returns. `last` bounds the instants, as in MatchWatch.
pub mod Polls
pub mod Closures
pub mod Threads
pub mod Wakeups
pub mod Examples
use cyclonedds_rs.Common.{ℕ, ◌≡◌, Option, none, some, Bool, true, false, if◌then◌else◌}
use cyclonedds_rs.Error.{
  DdsError, no_data, ReaderError, dds_error, requested_deadline_missed, reader_not_async,
  no_matched_writer,
}
use cyclonedds_rs.MatchWatch.{MatchWatch, update_at, is_absent_at, absence_deadline, mark_notified}

-- A slot for one waker: `wake` takes the waker registered last and wakes it.
pub record AtomicWaker : Type 1 where
  pub Waker : Type 0
  pub Slot : Type 0
  pub empty : Slot
  pub register : Slot → Waker → Slot
  pub take : Slot → Option Waker × Slot
  pub take-empty : take empty ≡ (none, empty)
  pub take-register : (s : Slot) (w : Waker) → take (register s w) ≡ (some w, empty)

pub data PollResult : Type 0 where
  pending : PollResult
  ready_ok : ℕ → PollResult
  ready_err : ReaderError → PollResult

pub data ReadNow : Type 0 where
  read_ok : ℕ → ReadNow
  read_err : DdsError → ReadNow

-- The statement of the future that comes next.
pub data Pc : Type 0 where
  registering : Pc
  taking : Pc
  reading : Pc
  checking : Pc
  returned : PollResult → Pc

module _ (aw : AtomicWaker) where
  open aw use {Waker, Slot, empty, register, take}

  pub record ReaderShared : Type 0 where
    pub waker : Slot
    pub pending_error : Option ReaderError
    pub watch : Option MatchWatch

  unfoldable pub new : Option MatchWatch → ReaderShared
  new watch = record { waker = empty; pending_error = none; watch = watch }

  absent_error : Option MatchWatch → ℕ → Option ReaderError
  absent_error none now = none
  absent_error (some watch) now =
      if is_absent_at watch now then some (no_matched_writer watch.timeout) else none

  unfoldable pub absent_writer_error : ReaderShared → ℕ → Option ReaderError
  unfolding absent_error
  absent_writer_error shared now = absent_error shared.watch now

  unfoldable pub is_writer_absent : ReaderShared → ℕ → Bool
  is_writer_absent shared now = elim shared.watch [ none ↦ false | some w ↦ is_absent_at w now ]

  -- A wake that reaches a waker: the waker woken, and the state after it.
  unfoldable pub wake : ReaderShared → Option Waker × ReaderShared
  wake shared = ((take shared.waker).0, record shared { waker = (take shared.waker).1 })

  notified_watch : Option MatchWatch → Option MatchWatch
  notified_watch none = none
  notified_watch (some w) = some (mark_notified w)

  unfoldable pub mark_absence : ReaderShared → ReaderShared
  unfolding notified_watch
  mark_absence shared = record shared { watch = notified_watch shared.watch }

  unfoldable pub notify_absence : ReaderShared → Option Waker × ReaderShared
  unfolding wake mark_absence
  notify_absence shared = wake (mark_absence shared)

  -- The callbacks of `data_reader_listener`.
  unfoldable pub on_data_available : ReaderShared → Option Waker × ReaderShared
  unfolding wake
  on_data_available shared = wake shared

  unfoldable pub set_pending_error : ReaderShared → ReaderShared
  set_pending_error shared = record shared { pending_error = some requested_deadline_missed }

  unfoldable pub on_requested_deadline_missed : ReaderShared → Option Waker × ReaderShared
  unfolding wake set_pending_error
  on_requested_deadline_missed shared = wake (set_pending_error shared)

  unfoldable pub matched_watch : Option MatchWatch → ℕ → ℕ → Option MatchWatch
  matched_watch none current_count now = none
  matched_watch (some w) current_count now = some (update_at w current_count now)

  unfoldable pub on_subscription_matched : ReaderShared → ℕ → ℕ → ReaderShared
  unfolding matched_watch
  on_subscription_matched shared current_count now = record shared {
    watch = matched_watch shared.watch current_count now;
  }

  pub no_sample : Option ReaderError → PollResult
  no_sample none = pending
  no_sample (some e) = ready_err e

  pub after_error : Option ReaderError → Pc
  after_error none = reading
  after_error (some e) = returned (ready_err e)

  -- The match on the result of the read.
  pub after_read : ReadNow → Pc
  after_read (read_ok len) = returned (ready_ok len)
  after_read (read_err no_data) = checking
  after_read (read_err e) = returned (ready_err (dds_error e))

  -- The next statement of a poll. No lock is held from one to the next.
  unfoldable pub resume : Pc → ReaderShared → Waker → ℕ → ReadNow → Pc × ReaderShared
  unfolding no_sample after_error after_read
  resume registering shared ctx now result =
      (taking, record shared { waker = register shared.waker ctx })
  resume taking shared ctx now result =
      (after_error shared.pending_error, record shared { pending_error = none })
  resume reading shared ctx now result = (after_read result, shared)
  resume checking shared ctx now result =
      (returned (no_sample (absent_writer_error shared now)), shared)
  resume (returned r) shared ctx now result = (returned r, shared)

  abbrev pub result_of : Pc → PollResult
  result_of (returned r) = r
  result_of other = pending

  -- A poll that nothing interrupts, which reaches its end in four statements.
  unfoldable pub poll : ReaderShared → Waker → ℕ → ReadNow → PollResult × ReaderShared
  unfolding resume
  poll shared ctx now result =
      let (pc1, shared1) = resume registering shared ctx now result in
      let (pc2, shared2) = resume pc1 shared1 ctx now result in
      let (pc3, shared3) = resume pc2 shared2 ctx now result in
      let (pc4, shared4) = resume pc3 shared3 ctx now result in (result_of pc4, shared4)

  pub data ReaderType : Type 0 where
    async : ReaderShared → ReaderType
    sync : ReaderType

  -- `read`, polled once.
  unfoldable pub poll_reader : ReaderType → Waker → ℕ → ReadNow → PollResult × ReaderType
  poll_reader (async shared) ctx now result =
      let (r, shared') = poll shared ctx now result in (r, async shared')
  poll_reader sync ctx now result = (ready_err reader_not_async, sync)
