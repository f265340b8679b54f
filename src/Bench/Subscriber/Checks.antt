-- ===== src/Bench/Subscriber/Checks.antt =====
-- bench/src/bin/subscriber.rs: the samples after which there is no complaint.
use cyclonedds_rs.Common.{
  ℕ, zero, suc, ◌+◌, ◌<◌, ◌≡◌, inl, inr, none, some, true, false, List, [], ◌∷◌, ◌++◌, arith,
  bytes_eq_iff, Bool-cases,
}
use cyclonedds_rs.Bench.{BenchmarkMessage, make_message}
use cyclonedds_rs.Bench.Subscriber.{
  Received, Answer, taken, no_data, take_failed, ReceiveState, contains, falls_behind, count_sample,
  check_payload, measure, on_sample, on_samples,
}

-- The samples that the first answers hold.
abbrev pub items_of : List Answer → List Received
items_of [] = []
items_of (taken items ∷ rounds) = items ++ items_of rounds
items_of (no_data ∷ rounds) = items_of rounds
items_of (take_failed ∷ rounds) = items_of rounds

abbrev pub sequences : List Received → List ℕ
sequences [] = []
sequences (r ∷ items) = r.message.sequence ∷ sequences items

-- `n` numbers from `m` on.
abbrev pub range : ℕ → ℕ → List ℕ
range m zero = []
range m (suc n) = m ∷ range (suc m) n

-- No complaint so far.
abbrev pub IsFine : ReceiveState → Type 0
IsFine st = (st.duplicate ≡ 0) × (st.out_of_order ≡ 0) × (st.payload_error ≡ none)

-- The sample is valid and, if it belongs to the run, holds the bytes that were sent.
abbrev pub IsRight : ℕ → ℕ → Received → Type 0
IsRight total bytes r =
    (r.is_valid ≡ true)
    × (r.message.sequence < total
        → r.message.payload
          ≡ (make_message r.message.sequence bytes r.message.sent_monotonic_ns).payload)

abbrev pub AllRight : ℕ → ℕ → List Received → Type 0
AllRight total bytes [] = Unit
AllRight total bytes (r ∷ items) = IsRight total bytes r × AllRight total bytes items

module _ (warmup total bytes : ℕ) where
  count_sample-IsFine :
      (st : ReceiveState) (message : BenchmarkMessage)
      → IsFine (count_sample st message)
      → IsFine st
        × (contains message.sequence st.seen ≡ false)
        × (falls_behind st.last_sequence message.sequence ≡ false)
  unfolding count_sample
  count_sample-IsFine st message f = ground arith

  measure-IsFine :
      (st : ReceiveState) (r : Received) → IsFine (measure warmup total bytes st r) → IsFine st
  unfolding measure
  measure-IsFine st r f = ground arith

  check_payload-IsFine :
      (st : ReceiveState) (message : BenchmarkMessage)
      → IsFine (check_payload warmup total bytes st message)
      → IsFine st
        × (message.sequence < total
            → message.payload
              ≡ (make_message message.sequence bytes message.sent_monotonic_ns).payload)
  unfolding check_payload
  check_payload-IsFine st message f = ground (
    arith,
    bytes_eq_iff message.payload
        (make_message message.sequence bytes message.sent_monotonic_ns).payload,
  )

  -- What the checks leave alone.
  measure-same :
      (st : ReceiveState) (r : Received)
      → ((measure warmup total bytes st r).seen ≡ st.seen)
        × ((measure warmup total bytes st r).last_sequence ≡ st.last_sequence)
        × ((measure warmup total bytes st r).messages_received ≡ st.messages_received)
  unfolding measure
  measure-same st r = ground arith

  check_payload-same :
      (st : ReceiveState) (message : BenchmarkMessage)
      → ((check_payload warmup total bytes st message).seen ≡ st.seen)
        × ((check_payload warmup total bytes st message).last_sequence ≡ st.last_sequence)
        × ((check_payload warmup total bytes st message).messages_received ≡ st.messages_received)
  unfolding check_payload
  check_payload-same st message = ground arith

  valid-IsFine :
      (st : ReceiveState) (r : Received)
      → IsFine (
          measure warmup total bytes
            (check_payload warmup total bytes (count_sample st r.message) r.message)
            r)
      → IsFine st
        × (r.message.sequence < total
            → r.message.payload
              ≡ (make_message r.message.sequence bytes r.message.sent_monotonic_ns).payload)
        × (contains r.message.sequence st.seen ≡ false)
        × (falls_behind st.last_sequence r.message.sequence ≡ false)
  valid-IsFine st r f =
      let counted = count_sample st r.message in
      let checked = check_payload warmup total bytes counted r.message in
      let (f', right) = check_payload-IsFine counted r.message (measure-IsFine checked r f) in
      let (f'', fresh, order) = count_sample-IsFine st r.message f' in (f'', right, fresh, order)

  valid-same :
      (st : ReceiveState) (r : Received)
      → contains r.message.sequence st.seen ≡ false
      → let after =
          measure warmup total bytes
            (check_payload warmup total bytes (count_sample st r.message) r.message)
            r in
        (after.seen ≡ r.message.sequence ∷ st.seen)
        × (after.last_sequence ≡ some r.message.sequence)
        × (after.messages_received ≡ st.messages_received + 1)
  unfolding count_sample
  valid-same st r fresh =
      let counted = count_sample st r.message in
      ground (
        arith,
        check_payload-same counted r.message,
        measure-same (check_payload warmup total bytes counted r.message) r,
      )

  -- A sample after which there is no complaint.
  pub on_sample-IsFine :
      (st : ReceiveState) (r : Received)
      → IsFine (on_sample warmup total bytes st r)
      → IsFine st
        × IsRight total bytes r
        × (contains r.message.sequence st.seen ≡ false)
        × (falls_behind st.last_sequence r.message.sequence ≡ false)
        × ((on_sample warmup total bytes st r).seen ≡ r.message.sequence ∷ st.seen)
        × ((on_sample warmup total bytes st r).last_sequence ≡ some r.message.sequence)
        × ((on_sample warmup total bytes st r).messages_received ≡ st.messages_received + 1)
  unfolding on_sample
  on_sample-IsFine st r f = elim (Bool-cases r.is_valid) [
    | inl valid ↦
        let (f', right, fresh, order) = valid-IsFine st r (rw valid at f) in
        let same = valid-same st r fresh in
        (f', (valid, right), fresh, order, rw valid same.0, rw valid same.1, rw valid same.2)
    | inr invalid ↦ absurd (ground arith)
  ]

  pub on_samples-IsFine :
      (st : ReceiveState) (items : List Received)
      → IsFine (on_samples warmup total bytes st items)
      → IsFine st
  unfolding on_samples
  on_samples-IsFine st [] f = f
  on_samples-IsFine st (r ∷ items) f =
      (on_sample-IsFine st r (on_samples-IsFine (on_sample warmup total bytes st r) items f)).0
