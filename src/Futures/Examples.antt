-- ===== src/Futures/Examples.antt =====
-- Concrete readers for the theorems on cyclonedds/src/futures.rs: wakers are numbers, a slot holds
-- at most one.
use cyclonedds_rs.Common.{ℕ, refl, Option, none, some, Bool, true, false}
use cyclonedds_rs.MatchWatch.{MatchWatch, absent, present}
use cyclonedds_rs.Futures.{AtomicWaker, pending, ReaderShared, Pc, reading, returned}
use cyclonedds_rs.Futures.Threads.{World, began}

abbrev pub slot_waker : AtomicWaker
slot_waker = record {
  Waker = ℕ;
  Slot = Option ℕ;
  empty = none;
  register = λ s w. some w;
  take = λ s. (s, none);
  take-empty = refl;
  take-register = λ s w. refl;
}

abbrev watch : MatchWatch
watch = record { timeout = 5; state = absent 10 false }

abbrev shared : ReaderShared slot_waker
shared = record { waker = none; pending_error = none; watch = some watch }

abbrev is_reading : Pc → Bool
is_reading reading = true
is_reading other = false

abbrev start : World slot_waker
start = began slot_waker shared 0 0 false 12

-- The poll registers its waker and finds no error; the number of matched writers becomes 1; the poll
-- reads and finds nothing, and the writer is there.
abbrev matched_shared : ReaderShared slot_waker
matched_shared = record shared {
  waker = some 7;
  watch = some (record { timeout = 5; state = present });
}

abbrev done_pending : World slot_waker
done_pending = record start { pc = returned pending; shared = matched_shared }
