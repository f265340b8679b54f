-- ===== src/Bench/Subscriber/Order.antt =====
-- bench/src/bin/subscriber.rs: what a record without complaint tells of the samples that came.
use cyclonedds_rs.Common.{
  ℕ, suc, ◌≡◌, refl, ap, ◌∙◌, ◌⊎◌, inl, inr, Option, none, some, true, List, [], ◌∷◌, ◌++◌, ltb,
  length, take, arith, Checked, accepted, rejected, rejected-accepted, i32_max, accepted-injective,
  if-accepted_else, none-some, sym, Bool-cases, leb, false-true,
}
use cyclonedds_rs.Bench.{BenchmarkCase, ResolvedCase}
use cyclonedds_rs.Bench.Latency.{LatencySummary, latency_summary}
use cyclonedds_rs.Bench.Results.{ok, ResultRecord}
use cyclonedds_rs.Bench.Subscriber.{
  Received, Answer, taken, no_data, take_failed, ReceiveState, initial, contains, on_sample,
  on_samples, receive_loop, missing_of, is_complete, record_of, recorded, received, receive,
  total_messages, ReceiveError, too_many_messages,
}
use cyclonedds_rs.Bench.Subscriber.Checks.{IsFine, AllRight, sequences, items_of, range}
use cyclonedds_rs.Bench.Subscriber.Rising.{IsBounded, on_samples-Rising, missing_none, Rising-range}

module _ (warmup total bytes : ℕ) where
  on_samples-append :
      (st : ReceiveState) (xs ys : List Received)
      → on_samples warmup total bytes st (xs ++ ys)
        ≡ on_samples warmup total bytes (on_samples warmup total bytes st xs) ys
  unfolding on_samples
  on_samples-append st [] ys = refl
  on_samples-append st (x ∷ xs) ys = on_samples-append (on_sample warmup total bytes st x) xs ys

  -- The loop has looked at the samples of the first answers.
  receive_loop-on_samples :
      (st after : ReceiveState) (rounds : List Answer)
      → receive_loop warmup total bytes st rounds ≡ accepted after
      → (n : ℕ) × (after ≡ on_samples warmup total bytes st (items_of (take n rounds)))
  unfolding receive_loop on_samples
  receive_loop-on_samples st after [] e = (0, sym (accepted-injective e))
  receive_loop-on_samples st after (taken items ∷ rounds) e =
      elim (Bool-cases (ltb (length st.seen) total)) [
        | inl more ↦
            let (n, same) =
              receive_loop-on_samples (on_samples warmup total bytes st items) after rounds
                (rw more at e) in
            (suc n, same ∙ sym (on_samples-append st items (items_of (take n rounds))))
        | inr done ↦ (0, sym (accepted-injective (rw done at e)))
      ]
  receive_loop-on_samples st after (no_data ∷ rounds) e =
      elim (Bool-cases (ltb (length st.seen) total)) [
        | inl more ↦
            let (n, same) = receive_loop-on_samples st after rounds (rw more at e) in (suc n, same)
        | inr done ↦ (0, sym (accepted-injective (rw done at e)))
      ]
  receive_loop-on_samples st after (take_failed ∷ rounds) e =
      elim (Bool-cases (ltb (length st.seen) total)) [
        | inl more ↦ absurd (rejected-accepted (rw more at e))
        | inr done ↦ (0, sym (accepted-injective (rw done at e)))
      ]

initial-IsBounded : IsBounded initial
unfolding contains
initial-IsBounded = ((λ k c. absurd (false-true c)), λ b e. absurd (none-some e))

-- Nothing is seen at the start.
from_start :
    (k : ℕ) (xs : List ℕ) → (contains k [] ≡ true) ⊎ (contains k xs ≡ true) → contains k xs ≡ true
unfolding contains
from_start k xs (inl c) = absurd (false-true c)
from_start k xs (inr c) = c

complete-IsFine :
    (st : ReceiveState) (missing : ℕ) → is_complete st missing ≡ true → (missing ≡ 0) × IsFine st
unfolding is_complete
complete-IsFine st missing c = ground arith

module _ (case_definition : BenchmarkCase) (resolved_case : ResolvedCase) where
  -- The samples of a state whose record is without complaint.
  complete_lem :
      (items : List Received)
      → is_complete
          (on_samples case_definition.warmup_messages
            (total_messages case_definition)
            resolved_case.payload_bytes
            initial
            items)
          (missing_of
            (total_messages case_definition)
            (on_samples case_definition.warmup_messages
              (total_messages case_definition)
              resolved_case.payload_bytes
              initial
              items).seen)
        ≡ true
      → (take (total_messages case_definition) (sequences items)
          ≡ range 0 (total_messages case_definition))
        × AllRight (total_messages case_definition) resolved_case.payload_bytes items
        × ((on_samples case_definition.warmup_messages
              (total_messages case_definition)
              resolved_case.payload_bytes
              initial
              items).messages_received
            ≡ length items)
  complete_lem items c =
      let total = total_messages case_definition in
      let st =
        on_samples case_definition.warmup_messages total resolved_case.payload_bytes initial
          items in
      let (m, f) = complete-IsFine st (missing_of total st.seen) c in
      let (rise, right, counted, from) =
        on_samples-Rising case_definition.warmup_messages total resolved_case.payload_bytes initial
          items initial-IsBounded f in
      (
        Rising-range total 0 (sequences items) rise (λ k a b.
            from_start k (sequences items) (from k (missing_none total st.seen k m (omega arith)))),
        right,
        omega arith,
      )

  recorded-record_of :
      (st : ReceiveState) (latency : Option (Option LatencySummary)) (r : ResultRecord)
      → recorded case_definition resolved_case st latency ≡ accepted r
      → (l : Option LatencySummary) × (r ≡ record_of case_definition resolved_case st l)
  unfolding recorded
  recorded-record_of st none r e = absurd (rejected-accepted e)
  recorded-record_of st (some l) r e = (l, sym (accepted-injective e))

  received-record_of :
      (end' : Checked ReceiveError ReceiveState) (r : ResultRecord)
      → received case_definition resolved_case end' ≡ accepted r
      → (st : ReceiveState) × (l : Option LatencySummary) × (end' ≡ accepted st)
        × (r ≡ record_of case_definition resolved_case st l)
  unfolding received
  received-record_of (rejected e') r e = absurd (rejected-accepted e)
  received-record_of (accepted st) r e =
      let (l, same) = recorded-record_of st (latency_summary st.latencies) r e in
      (st, l, refl, same)

  record_of_complete :
      (st : ReceiveState) (l : Option LatencySummary)
      → (record_of case_definition resolved_case st l).status ≡ ok
      → is_complete st (missing_of (total_messages case_definition) st.seen) ≡ true
  unfolding record_of
  record_of_complete st l e = ground arith

  received_of :
      (st : ReceiveState) (l : Option LatencySummary)
      → (record_of case_definition resolved_case st l).messages_received ≡ st.messages_received
  unfolding record_of
  received_of st l = refl

  -- When `receive` returns a record with the status ok, then, for the samples of some first answers of
  -- take_now: the sequence numbers begin with 0, 1, and so on up to the number of messages of the
  -- case; each sample is valid and, if it belongs to the run, holds the bytes that make_message gives;
  -- and messages_received is how many they are.
  pub receive_sound :
      (rounds : List Answer) (r : ResultRecord)
      → receive case_definition resolved_case rounds ≡ accepted r
      → r.status ≡ ok
      → (n : ℕ) × (take (total_messages case_definition) (sequences (items_of (take n rounds)))
          ≡ range 0 (total_messages case_definition))
        × AllRight
            (total_messages case_definition)
            resolved_case.payload_bytes
            (items_of (take n rounds))
        × (r.messages_received ≡ length (items_of (take n rounds)))
  unfolding receive
  receive_sound rounds r e s =
      let (st, l, looped, same) =
        received-record_of
          (receive_loop case_definition.warmup_messages (total_messages case_definition)
            resolved_case.payload_bytes initial rounds)
          r
          (if-accepted_else (leb (total_messages case_definition) i32_max) _ too_many_messages r
            e).1 in
      let (n, from) =
        receive_loop-on_samples case_definition.warmup_messages (total_messages case_definition)
          resolved_case.payload_bytes initial st rounds looped in
      let complete = record_of_complete st l (ap (λ (x : ResultRecord). x.status) (sym same) ∙ s) in
      let (taken', right, counted) =
        complete_lem (items_of (take n rounds)) (rw from at complete) in
      (
        n,
        taken',
        right,
        ap (λ (x : ResultRecord). x.messages_received) same
            ∙ received_of st l
            ∙ ap (λ (x : ReceiveState). x.messages_received) from
            ∙ counted,
      )
