-- ===== src/MatchWatch/Watchdog/Threads.antt =====
-- The threads around the watchdog of cyclonedds/src/match_watch.rs, as steps that the lock makes
-- atomic: its thread (`run`), the listeners that update a watch and then call `reschedule`, the
-- readers that are registered and dropped, and the clock.
use cyclonedds_rs.Common.{ℕ, suc, ◌≤◌, ◌≡◌, List, [], ◌∷◌, Option, none, some, ◌==◌, if◌then◌else◌}
use cyclonedds_rs.MatchWatch.{MatchWatch, update_at}
use cyclonedds_rs.MatchWatch.Watchdog.{
  Heap, WatchdogState, register, reschedule, scan, Wait, go_on, wait_until, wait, wait_for_next,
  notify_absence,
}
use cyclonedds_rs.MatchWatch.Watchdog.Scan.{In}

-- Where the watchdog's thread stands in `run_once`.
pub data Pc : Type 0 where
  scanning : Pc
  notifying : List ℕ → ℕ → Option ℕ → Pc
  deciding : ℕ → Option ℕ → Pc
  waiting : Option ℕ → Pc

-- `pending` counts the listeners that have updated a watch and are still to call `reschedule`.
pub record World : Type 0 where
  pub state : WatchdogState
  pub heap : Heap
  pub now : ℕ
  pub pc : Pc
  pub pending : ℕ

-- `notify_one` reaches the thread if it waits, and is lost otherwise.
unfoldable pub signal : Pc → Pc
signal (waiting nearest) = scanning
signal scanning = scanning
signal (notifying expired seen nearest) = notifying expired seen nearest
signal (deciding seen nearest) = deciding seen nearest

unfoldable pub after_wait : Wait → Pc
after_wait go_on = scanning
after_wait (wait_until deadline) = waiting (some deadline)
after_wait wait = waiting none

unfoldable pub put : Heap → ℕ → Option MatchWatch → Heap
put heap i o j = if i == j then o else heap j

unfoldable pub initial : Heap → ℕ → World
initial heap now = record {
  state = record { entries = []; generation = 0 };
  heap = heap;
  now = now;
  pc = scanning;
  pending = 0;
}

module _ (last : ℕ) where
  unfoldable pub scanned : World → World
  scanned s =
      let found = scan last s.heap s.now s.state in
      record s {
        state = record { entries = found.kept; generation = s.state.generation };
        pc = notifying found.expired s.state.generation found.nearest;
      }

  pub data Step (s : World) : World → Type 0 where
    tick : (n : ℕ) → s.now ≤ n → Step s (record s { now = n })
    scans : s.pc ≡ scanning → Step s (scanned s)
    notifies :
        (i : ℕ) (expired : List ℕ) (seen : ℕ) (nearest : Option ℕ)
        → s.pc ≡ notifying (i ∷ expired) seen nearest
        → Step s (record s { heap = notify_absence s.heap i; pc = notifying expired seen nearest })
    panics :
        (i : ℕ) (expired : List ℕ) (seen : ℕ) (nearest : Option ℕ)
        → s.pc ≡ notifying (i ∷ expired) seen nearest
        → Step s (record s { heap = notify_absence s.heap i; pc = scanning })
    notified :
        (seen : ℕ) (nearest : Option ℕ)
        → s.pc ≡ notifying [] seen nearest
        → Step s (record s { pc = deciding seen nearest })
    decides :
        (seen : ℕ) (nearest : Option ℕ)
        → s.pc ≡ deciding seen nearest
        → Step s (record s { pc = after_wait (wait_for_next s.state s.now seen nearest) })
    wakes : (nearest : Option ℕ) → s.pc ≡ waiting nearest → Step s (record s { pc = scanning })
    registers : (i : ℕ) → Step s (record s { state = register s.heap s.state i; pc = signal s.pc })
    creates :
        (i : ℕ) (w : MatchWatch)
        → s.heap i ≡ none
        → ¬ In i s.state.entries
        → Step s (record s { heap = put s.heap i (some w) })
    updates :
        (i current_count : ℕ) (w : MatchWatch)
        → s.heap i ≡ some w
        → Step s (record s {
          heap = put s.heap i (some (update_at w current_count s.now));
          pending = suc s.pending;
        })
    reschedules :
        (p : ℕ)
        → s.pending ≡ suc p
        → Step s (record s { state = reschedule s.state; pc = signal s.pc; pending = p })
    drops : (i : ℕ) → Step s (record s { heap = put s.heap i none })

  pub data Reach (s : World) : World → Type 0 where
    here : Reach s s
    next : {t u : World} → Reach s t → Step t u → Reach s u
