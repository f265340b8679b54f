-- ===== src/Futures/Threads.antt =====
-- A poll of the future of cyclonedds/src/futures.rs among the other threads: between any two of its
-- statements samples arrive, the callbacks of the listener run, the watchdog notifies and time passes.
-- A callback first changes something and then calls `wake`.
use cyclonedds_rs.Common.{ℕ, suc, ◌≤◌, ◌≡◌, ◌≢◌, Bool, true, false, List, [], Option}
use cyclonedds_rs.Error.{no_data}
use cyclonedds_rs.Futures.{
  AtomicWaker, ReadNow, read_ok, read_err, ReaderShared, wake, mark_absence, set_pending_error,
  on_subscription_matched, Pc, registering, reading, checking, resume,
}
use cyclonedds_rs.Futures.Closures.{woken_by}

-- `samples` are those that the entity holds, `calling` the callbacks that have made their change and
-- are still to call `wake`, `told` whether an absence was confirmed since the poll looked at the
-- watch, and `woken` the wakers that were woken since the poll began.
pub record World (aw : AtomicWaker) : Type 0 where
  pub shared : ReaderShared aw
  pub pc : Pc
  pub samples : ℕ
  pub calling : ℕ
  pub told : Bool
  pub now : ℕ
  pub woken : List aw.Waker

abbrev pub told_after : Pc → Bool → Bool
told_after checking told = false
told_after other told = told

module _ (aw : AtomicWaker) where
  open aw use {Waker}

  abbrev pub began : ReaderShared aw → ℕ → ℕ → Bool → ℕ → World aw
  began shared samples calling told now = record {
    shared = shared;
    pc = registering;
    samples = samples;
    calling = calling;
    told = told;
    now = now;
    woken = [];
  }

  -- The next statement of the poll, with what a read answers and leaves.
  unfoldable pub advance : Waker → ReadNow → ℕ → World aw → World aw
  advance ctx result left s =
      let (pc, shared) = resume aw s.pc s.shared ctx s.now result in
      record s { shared = shared; pc = pc; samples = left; told = told_after s.pc s.told }

  unfoldable pub woke : Option Waker × ReaderShared aw → ℕ → World aw → World aw
  woke (waker, shared) calling s = record s {
    shared = shared;
    woken = woken_by aw waker s.woken;
    calling = calling;
  }

  -- A read that answers that there is no data leaves no sample behind.
  pub data Step (ctx : Waker) (s : World aw) : World aw → Type 0 where
    runs : s.pc ≢ reading → Step ctx s (advance ctx (read_ok 0) s.samples s)
    reads :
        (result : ReadNow) (left : ℕ)
        → s.pc ≡ reading
        → (result ≡ read_err no_data → left ≡ 0)
        → Step ctx s (advance ctx result left s)
    tick : (n : ℕ) → s.now ≤ n → Step ctx s (record s { now = n })
    arrives : Step ctx s (record s { samples = suc s.samples; calling = suc s.calling })
    misses :
        Step ctx s (record s { shared = set_pending_error aw s.shared; calling = suc s.calling })
    confirms :
        Step ctx s
          (record s { shared = mark_absence aw s.shared; told = true; calling = suc s.calling })
    matches :
        (current_count : ℕ)
        → Step ctx s (record s { shared = on_subscription_matched aw s.shared current_count s.now })
    wakes : (n : ℕ) → s.calling ≡ suc n → Step ctx s (woke (wake aw s.shared) n s)

  pub data Reach (ctx : Waker) (s : World aw) : World aw → Type 0 where
    here : Reach ctx s s
    next : {t u : World aw} → Reach ctx s t → Step ctx t u → Reach ctx s u
