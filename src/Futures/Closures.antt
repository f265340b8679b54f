-- ===== src/Futures/Closures.antt =====
-- cyclonedds/src/futures.rs: the closures that `data_reader_listener` chains, and the registration
-- with the watchdog, on the state that they capture. The wakers that were woken are kept, the last one
-- first.
use cyclonedds_rs.Common.{ℕ, List, ◌∷◌, Option, none, some}
use cyclonedds_rs.MatchWatch.{MatchWatch}
use cyclonedds_rs.MatchWatch.Watchdog.{Heap, WatchdogState, register, reschedule}
use cyclonedds_rs.Futures.{
  AtomicWaker, ReaderShared, on_data_available, on_requested_deadline_missed,
  on_subscription_matched,
}
use cyclonedds_rs.Futures
use cyclonedds_rs.Listeners.{Closure}

-- `id` is the address of the shared state, `watched` what stands behind the addresses that the
-- watchdog knows, and `user` what the callbacks of the user capture.
pub record Captured (aw : AtomicWaker) (U : Type 0) : Type 0 where
  pub shared : ReaderShared aw
  pub woken : List aw.Waker
  pub id : ℕ
  pub watched : Heap
  pub watchdog : WatchdogState
  pub user : U

module _ (aw : AtomicWaker) where
  open aw use {Waker}

  abbrev pub woken_by : Option Waker → List Waker → List Waker
  woken_by none woken = woken
  woken_by (some waker) woken = waker ∷ woken

module _ {U : Type 0} (aw : AtomicWaker) where
  open aw use {Waker}

  abbrev pub with_woken : Option Waker × ReaderShared aw → Captured aw U → Captured aw U
  with_woken (waker, shared) w = record w { shared = shared; woken = woken_by aw waker w.woken }

  -- The new shared state, which the watchdog gets to know if it has a watch.
  unfoldable pub share : Option MatchWatch → Captured aw U → Captured aw U
  share none w = record w { shared = Futures.new aw none }
  share (some watch) w = record w {
    shared = Futures.new aw (some watch);
    watchdog = register w.watched w.watchdog w.id;
  }

module _ {U P : Type 0} (aw : AtomicWaker) where
  unfoldable pub wake_closure : Closure (Captured aw U) P
  wake_closure entity status w = with_woken aw (on_data_available aw w.shared) w

  unfoldable pub deadline_closure : Closure (Captured aw U) P
  deadline_closure entity status w = with_woken aw (on_requested_deadline_missed aw w.shared) w

  -- The number of matched writers and the time of the call are read from what the callback is given.
  unfoldable pub matched_closure : (P → ℕ) → (P → ℕ) → Closure (Captured aw U) P
  matched_closure current_count now entity status w = record w {
    shared = on_subscription_matched aw w.shared (current_count status) (now status);
    watchdog = reschedule w.watchdog;
  }
