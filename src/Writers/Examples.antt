-- ===== src/Writers/Examples.antt =====
-- Writers of cyclonedds/src/dds_writer.rs: a loan, a watch, and a log.
use cyclonedds_rs.Common.{ℕ, ◌+◌, ◌≡◌, refl, List, [], ◌∷◌, false, none, some}
use cyclonedds_rs.Error.{ReturnCode, non_negative}
use cyclonedds_rs.MatchWatch.{MatchWatch, present, absent, update_at}
use cyclonedds_rs.Listeners.{publication_matched, Callbacks, Heap}
use cyclonedds_rs.Writers.Loans.{
  Call, Calls, loan_call, uninitialized, publish_marked, return_loan, returns, as_mut_ptr,
  returned_twice,
}
use cyclonedds_rs.Writers.Building.{WriterBuilder, create}
use cyclonedds_rs.Writers.Building.Laws.{call_created, create_watched_lem}
use cyclonedds_rs.Writers.Absence.{
  AbsenceWatch, Event, matched, asked, steps, Alternates, nothing_logged, log-Alternates,
}

abbrev all_fine : Calls → Call → ReturnCode
all_fine calls call = non_negative 0

returned_twice_example :
    (returns 9 (publish_marked all_fine (uninitialized 9 4) (loan_call 4 ∷ [])).1
      ≡ 2 + returns 9 (loan_call 4 ∷ []))
    × (returns 9 (return_loan all_fine (uninitialized 9 4) (loan_call 4 ∷ [])).1
        ≡ 2 + returns 9 (loan_call 4 ∷ []))
unfolding as_mut_ptr
returned_twice_example = returned_twice all_fine 9 4 (uninitialized 9 4) (loan_call 4 ∷ []) refl

abbrev keep_status : Callbacks (MatchWatch × ℕ) ℕ
keep_status event = some (λ entity status w. (w.0, status))

abbrev watching : WriterBuilder ℕ (MatchWatch × ℕ) ℕ
watching = record {
  maybe_qos = none;
  maybe_listener = none;
  maybe_listener_builder =
      some (record { listener = none; callbacks = some keep_status; raw_ptr = none });
  watch_timeout = some 100;
}

abbrev empty_heap : Heap (MatchWatch × ℕ) ℕ
empty_heap = record { next_ptr = 0; boxes = []; listeners = [] }

abbrev no_reader : ℕ → ℕ
no_reader status = 0

abbrev at_status : ℕ → ℕ
at_status status = status

abbrev with_reader : MatchWatch
with_reader = record { timeout = 100; state = present }

-- The number of matched readers becomes 0 at 20.
create_watched_lem_example :
    let result = create no_reader at_status 10 (non_negative 5) (some 3) watching empty_heap in
    (call_created result.0 publication_matched 5 20 (with_reader, 0)
      ≡ some (update_at with_reader 0 20, 20))
    × (result.1 ≡ some (record { timeout = 100; state = absent 10 false }))
create_watched_lem_example =
    create_watched_lem no_reader at_status 10 5 3 100 watching keep_status empty_heap
      publication_matched 5 20 (with_reader, 0) refl refl

abbrev quiet : AbsenceWatch
quiet = record { watch = record { timeout = 10; state = present }; last_absent = false }

-- The readers go, stay away, and come back.
abbrev away_and_back : List Event
away_and_back = asked 1 ∷ matched 0 2 ∷ asked 5 ∷ asked 12 ∷ asked 13 ∷ matched 1 14 ∷ asked 15 ∷ []

log-Alternates_example :
    Alternates false (steps away_and_back quiet []).1 (steps away_and_back quiet []).0.last_absent
log-Alternates_example = log-Alternates away_and_back quiet [] (nothing_logged false)
