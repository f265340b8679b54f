-- ===== src/Futures/Wakeups.antt =====
-- The future of cyclonedds/src/futures.rs does not lose a wake-up.
use cyclonedds_rs.Common.{ℕ, ◌≤◌, ◌≡◌, ◌⊎◌, Bool, false, List, [], ◌∷◌, none, some}
use cyclonedds_rs.Futures.{
  AtomicWaker, pending, ReaderShared, Pc, registering, taking, reading, checking, returned,
}
use cyclonedds_rs.Futures.Threads.{World}

module _ (aw : AtomicWaker) (ctx : aw.Waker) where
  open aw use {Waker, Slot, empty, register, take, take-register}

  abbrev pub Among : List Waker → Type 0
  Among [] = ⊥
  Among (w ∷ ws) = (w ≡ ctx) ⊎ Among ws

  -- The task was woken, or a callback is still to wake it.
  abbrev Soon : World aw → Type 0
  Soon s = Among s.woken ⊎ (1 ≤ s.calling)

  -- The task was woken, or its waker is in the slot.
  abbrev Armed : World aw → Type 0
  Armed s = Among s.woken ⊎ (take s.shared.waker ≡ (some ctx, empty))

  abbrev Settled : World aw → Type 0
  Settled s = ((s.shared.pending_error ≡ none) ⊎ Soon s)

  abbrev Emptied : World aw → Type 0
  Emptied s = Settled s × ((s.samples ≡ 0) ⊎ Soon s)

  abbrev Safe : World aw → Pc → Type 0
  Safe s registering = Unit
  Safe s taking = Armed s
  Safe s reading = Armed s × Settled s
  Safe s checking = Armed s × Emptied s
  Safe s (returned pending) = Armed s × Emptied s × ((s.told ≡ false) ⊎ Soon s)
  Safe s (returned other) = Unit

  abbrev moved : World aw → Pc × ReaderShared aw → ℕ → Bool → World aw
  moved s (pc, shared) left told = record s {
    shared = shared;
    pc = pc;
    samples = left;
    told = told;
  }
