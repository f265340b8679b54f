-- ===== src/Readers/Examples.antt =====
-- Readers of cyclonedds/src/dds_reader.rs: two reads, and an asynchronous reader.
use cyclonedds_rs.Common.{
  ℕ, ◌+◌, ◌-◌, ◌≡◌, refl, ◌||◌, ◌==◌, [], ◌∷◌, true, false, none, some, replicate, arith,
}
use cyclonedds_rs.Error.{non_negative}
use cyclonedds_rs.Listeners.{subscription_matched, Callbacks, Heap}
use cyclonedds_rs.Samples.{Refs, SampleBuffer, default, iter_sample, is_valid_sample}
use cyclonedds_rs.Readers.{
  CdrAnswer, Answer, is_valid_first, readcdrn_from_entity_now, readn_from_entity_now,
}
use cyclonedds_rs.Readers.Reads.{
  shown, serdatas, size_of, readcdrn_from_entity_now_lem, readn_from_entity_now_lem,
}
use cyclonedds_rs.Readers.Building.{ReaderBuilder, create}
use cyclonedds_rs.Futures.Closures.{Captured}
use cyclonedds_rs.Futures.Examples.{slot_waker}
use cyclonedds_rs.Readers.Building.Laws.{call_created, own_effect, Started, create_async_lem}

-- The state is the number of references that are held.
abbrev counted : Refs ℕ
counted = record {
  addref = λ p s. s + 1;
  removeref = λ p s. s - 1;
  free = λ p s. s;
  removeref-addref = λ p s. omega arith;
}

abbrev three_samples : SampleBuffer ℕ
three_samples = record {
  buffer = replicate 3 default;
  sample_info = false ∷ false ∷ false ∷ [];
  size = 1;
}

abbrev two_received : ℕ → ℕ → CdrAnswer ℕ
two_received caps s = record {
  code = non_negative 2;
  received = 40 ∷ 41 ∷ [];
  infos = true ∷ true ∷ [];
  state = s;
}

readcdrn_from_entity_now_lem_example :
    serdatas (iter_sample (readcdrn_from_entity_now counted two_received three_samples 0).1)
    ≡ shown (readcdrn_from_entity_now counted two_received three_samples 0).0 (40 ∷ 41 ∷ [])
readcdrn_from_entity_now_lem_example =
    readcdrn_from_entity_now_lem counted two_received three_samples 0 (omega arith, omega arith)

abbrev gone : ℕ → ℕ → Answer ℕ ℕ
gone caps s = record {
  code = non_negative 1;
  filled = replicate 3 default;
  infos = false ∷ [];
  state = s;
}

readn_from_entity_now_lem_example :
    ((readn_from_entity_now gone three_samples 0).1.size
      ≡ size_of (readn_from_entity_now gone three_samples 0).0)
    × ((((readn_from_entity_now gone three_samples 0).1.size == 0)
          || is_valid_first (is_valid_sample (readn_from_entity_now gone three_samples 0).1 0))
        ≡ true)
readn_from_entity_now_lem_example = readn_from_entity_now_lem gone three_samples 0

abbrev keep_status : Callbacks (Captured slot_waker ℕ) ℕ
keep_status event = some (λ entity status w. record w { user = status })

abbrev waiting : ReaderBuilder ℕ (Captured slot_waker ℕ) ℕ
waiting = record {
  maybe_qos = none;
  maybe_listener = none;
  maybe_listener_builder =
      some (record { listener = none; callbacks = some keep_status; raw_ptr = none });
  is_async = true;
  absence_timeout = some 50;
}

abbrev empty_heap : Heap (Captured slot_waker ℕ) ℕ
empty_heap = record { next_ptr = 0; boxes = []; listeners = [] }

abbrev fresh : Captured slot_waker ℕ
fresh = record {
  shared = record { waker = none; pending_error = none; watch = none };
  woken = [];
  id = 4;
  watched = λ i. none;
  watchdog = record { entries = []; generation = 6 };
  user = 0;
}

abbrev one_writer_gone : ℕ → ℕ
one_writer_gone status = 0

abbrev at_status : ℕ → ℕ
at_status status = status

-- The number of matched writers becomes 0 at 20.
create_async_lem_example :
    let result =
      create slot_waker one_writer_gone at_status 10
        (non_negative 5)
        (some 3)
        waiting
        empty_heap
        fresh in
    (call_created result.0 subscription_matched 5 20 fresh
      ≡ some
          (record (own_effect slot_waker one_writer_gone at_status 10
            (some 50)
            subscription_matched
            5
            20
            fresh) { user = 20 }))
    × Started slot_waker 10 (some 50) fresh result.1
create_async_lem_example =
    create_async_lem slot_waker one_writer_gone at_status 10 3 4 waiting keep_status empty_heap
      subscription_matched 5 20 fresh fresh refl refl
