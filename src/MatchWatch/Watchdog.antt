-- ===== src/MatchWatch/Watchdog.antt =====
-- cyclonedds/src/match_watch.rs, `Watchdog`: the resident thread that wakes readers whose writer
-- stays away. A weak reference is an address in a heap of watches, where a dropped object is
-- missing. `Instant::now()` is an argument; the generation, a u64, is not taken to wrap.
pub mod Scan
pub mod Sleep
pub mod Threads
use cyclonedds_rs.Common.{
  ℕ, ◌+◌, List, [], ◌∷◌, ◌++◌, Option, none, some, Bool, true, false, leb, ltb, ◌==◌, if◌then◌else◌,
}
use Prim.Native.Nat.{min}
use cyclonedds_rs.MatchWatch.{MatchWatch, absence_deadline, mark_notified}

abbrev pub Heap : Type 0
Heap = ℕ → Option MatchWatch

pub record WatchdogState : Type 0 where
  pub entries : List ℕ
  pub generation : ℕ

-- `retain(|w| w.strong_count() > 0)`.
retain_alive : Heap → List ℕ → List ℕ
retain_alive heap [] = []
retain_alive heap (i ∷ entries) =
    let rest = retain_alive heap entries in elim (heap i) [ none ↦ rest | some w ↦ i ∷ rest ]

unfoldable pub register : Heap → WatchdogState → ℕ → WatchdogState
unfolding retain_alive
register heap state entry = record {
  entries = retain_alive heap state.entries ++ entry ∷ [];
  generation = state.generation + 1;
}

unfoldable pub reschedule : WatchdogState → WatchdogState
reschedule state = record state { generation = state.generation + 1 }

-- The variables of the loop of `scan`, with the entries that it keeps.
pub record Found : Type 0 where
  pub kept : List ℕ
  pub expired : List ℕ
  pub nearest : Option ℕ

nearer : Option ℕ → ℕ → ℕ
nearer none deadline = deadline
nearer (some n) deadline = min n deadline

note_deadline : ℕ → Found → ℕ → Option ℕ → Found
unfolding nearer
note_deadline now found i none = found
note_deadline now found i (some deadline) =
    if leb deadline now
    then record found { expired = found.expired ++ i ∷ [] }
    else record found { nearest = some (nearer found.nearest deadline) }

scan_entry : ℕ → ℕ → Found → ℕ → Option MatchWatch → Found
unfolding note_deadline
scan_entry last now found i none = found
scan_entry last now found i (some watched) =
    note_deadline now (record found { kept = found.kept ++ i ∷ [] }) i
      (absence_deadline last watched)

scan_loop : ℕ → Heap → ℕ → Found → List ℕ → Found
scan_loop last heap now found [] = found
scan_loop last heap now found (i ∷ entries) =
    scan_loop last heap now (scan_entry last now found i (heap i)) entries

unfoldable pub scan : ℕ → Heap → ℕ → WatchdogState → Found
unfolding scan_loop scan_entry
scan last heap now state =
    scan_loop last heap now (record { kept = []; expired = []; nearest = none }) state.entries

-- What `wait_for_next` does, under its lock: it returns, or it waits with or without a limit.
pub data Wait : Type 0 where
  go_on : Wait
  wait_until : ℕ → Wait
  wait : Wait

wait_for : ℕ → Option ℕ → Wait
wait_for now none = wait
wait_for now (some deadline) = if ltb now deadline then wait_until deadline else go_on

unfoldable pub wait_for_next : WatchdogState → ℕ → ℕ → Option ℕ → Wait
unfolding wait_for
wait_for_next state now seen_generation nearest =
    if state.generation == seen_generation then wait_for now nearest else go_on

-- `notify_absence` of the watched object, if it still stands.
unfoldable pub notify_absence : Heap → ℕ → Heap
notify_absence heap i j =
    if i == j then (elim (heap j) [ none ↦ none | some w ↦ some (mark_notified w) ]) else heap j
