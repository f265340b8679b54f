-- ===== src/Bench/Subscriber/Delivery.antt =====
-- bench/src/bin/subscriber.rs and publisher.rs: the record of a subscriber that is handed the messages
-- of the publisher in order, in whatever batches.
use cyclonedds_rs.Common.{
  ℕ, zero, suc, ◌+◌, ◌-◌, ◌*◌, ◌≤◌, ◌<◌, ◌≡◌, refl, ap, sym, ◌∙◌, Option, none, some, true, false,
  List, [], ◌∷◌, ◌++◌, ltb, length, arith, accepted, Bool-cases, ltb→ge, inl, inr,
}
use mathlib.Core.Path.{subst}
use cyclonedds_rs.Bench.{BenchmarkCase, BenchmarkMessage, ResolvedCase, make_message}
use cyclonedds_rs.Bench.Latency.{LatencySummary, latency_summary, u64_mod}
use cyclonedds_rs.Bench.Latency.Sorting.{AllBelow}
use cyclonedds_rs.Bench.Latency.Laws.{latency_summary-Summarizes}
use cyclonedds_rs.Bench.Publisher.{Round, Published, publish}
use cyclonedds_rs.Bench.Publisher.Laws.{messages_from, publish_lem, publish-limit}
use cyclonedds_rs.Bench.Results.{ok, ResultRecord}
use cyclonedds_rs.Bench.Subscriber.{
  Received, Answer, taken, no_data, take_failed, ReceiveState, initial, contains, on_sample,
  on_samples, receive_loop, missing_of, is_complete, record_of, recorded, received, receive,
  total_messages,
}
use cyclonedds_rs.Bench.Subscriber.Checks.{items_of}
use cyclonedds_rs.Bench.Subscriber.Clean.{IsClean, delivered, initial-IsClean, on_sample-IsClean}

cons-injective {ℓ} : {A : Type ℓ} {x y : A} {xs ys : List A} → x ∷ xs ≡ y ∷ ys → (x ≡ y) × (xs ≡ ys)
cons-injective h = (cc, cc)

cons-nil {ℓ} : {A : Type ℓ} {x : A} {xs : List A} → x ∷ xs ≡ [] → ⊥
cons-nil h = cc

-- The messages in order, the sample of each looked at at its instant.
abbrev pub deliver : (ℕ → ℕ) → ℕ → List BenchmarkMessage → List Received
deliver at k [] = []
deliver at k (m ∷ messages) = delivered (at k) m ∷ deliver at (suc k) messages

-- No answer is an error.
abbrev pub NoneFails : List Answer → Type 0
NoneFails [] = Unit
NoneFails (taken items ∷ rounds) = NoneFails rounds
NoneFails (no_data ∷ rounds) = NoneFails rounds
NoneFails (take_failed ∷ rounds) = ⊥

module _ (at : ℕ → ℕ) (sending : ℕ → Round) (bytes : ℕ) where
  samples_from : ℕ → ℕ → List Received
  samples_from k left = deliver at k (messages_from bytes sending k left)

  -- A first batch of the samples that are left, and the rest of them.
  samples_from-split :
      (k left : ℕ) (xs ys : List Received)
      → xs ++ ys ≡ samples_from k left
      → (n : ℕ) × (rest : ℕ) × (left ≡ n + rest)
        × (xs ≡ samples_from k n)
        × (ys ≡ samples_from (k + n) rest)
  unfolding samples_from
  samples_from-split k left [] ys e =
      (0, left, omega arith, refl, e ∙ ap (λ j. samples_from j left) (omega arith))
  samples_from-split k zero (x ∷ xs) ys e = absurd (cons-nil e)
  samples_from-split k (suc left) (x ∷ xs) ys e =
      let (head, tail) = cons-injective e in
      let (n, rest, l, a, b) = samples_from-split (suc k) left xs ys tail in
      (suc n, rest, omega arith, rw (head, a) refl, b ∙ ap (λ j. samples_from j rest) (omega arith))

  samples_none : (k left : ℕ) → [] ≡ samples_from k left → left ≡ 0
  unfolding samples_from
  samples_none k zero e = refl
  samples_none k (suc left) e = absurd (cons-nil (sym e))

  module _ (warmup total : ℕ) (in_time : (k : ℕ) → (sending k).sent_monotonic_ns ≤ at k)
      (in_range : (k : ℕ) → at k < u64_mod) where
    on_samples-IsClean :
        (left k : ℕ) (st : ReceiveState)
        → IsClean warmup bytes k st
        → k + left ≤ total
        → IsClean warmup bytes (k + left) (on_samples warmup total bytes st (samples_from k left))
    unfolding on_samples samples_from
    on_samples-IsClean zero k st c h = subst (λ j. IsClean warmup bytes j st) (omega arith) c
    on_samples-IsClean (suc left) k st c h =
        let sent = (sending k).sent_monotonic_ns in
        let after =
          on_sample warmup total bytes st (delivered (at k) (make_message k bytes sent)) in
        let next =
          on_sample-IsClean warmup total bytes k sent (at k) st c (omega arith) (in_time k)
            (in_range k) in
        subst
          (λ j.
            IsClean warmup bytes j
              (on_samples warmup total bytes after (samples_from (suc k) left)))
          (omega arith) (on_samples-IsClean left (suc k) after next (omega arith))

    all_seen :
        (k left : ℕ) (st : ReceiveState)
        → IsClean warmup bytes k st
        → k + left ≡ total
        → ltb (length st.seen) total ≡ false
        → IsClean warmup bytes total st
    all_seen k left st c h done =
        subst (λ j. IsClean warmup bytes j st)
          (omega (arith, c.seen_length, ltb→ge (length st.seen) total done)) c

    -- The loop ends in the clean state of all messages.
    receive_loop-IsClean :
        (rounds : List Answer) (k left : ℕ) (st : ReceiveState)
        → NoneFails rounds
        → IsClean warmup bytes k st
        → k + left ≡ total
        → items_of rounds ≡ samples_from k left
        → (after : ReceiveState) × (receive_loop warmup total bytes st rounds ≡ accepted after)
          × IsClean warmup bytes total after
    unfolding receive_loop
    receive_loop-IsClean [] k left st f c h e =
        (st, refl, subst (λ j. IsClean warmup bytes j st) (omega (arith, samples_none k left e)) c)
    receive_loop-IsClean (taken items ∷ rounds) k left st f c h e =
        elim (Bool-cases (ltb (length st.seen) total)) [
          | inl more ↦
              let (n, rest, l, first, then') =
                samples_from-split k left items (items_of rounds) e in
              let next = on_samples-IsClean n k st c (omega arith) in
              rw (more, first)
                (receive_loop-IsClean rounds (k + n) rest
                  (on_samples warmup total bytes st (samples_from k n)) f next (omega arith) then')
          | inr done ↦ rw done (st, refl, all_seen k left st c h done)
        ]
    receive_loop-IsClean (no_data ∷ rounds) k left st f c h e =
        elim (Bool-cases (ltb (length st.seen) total)) [
          | inl more ↦ rw more (receive_loop-IsClean rounds k left st f c h e)
          | inr done ↦ rw done (st, refl, all_seen k left st c h done)
        ]
    receive_loop-IsClean (take_failed ∷ rounds) k left st f c h e = absurd f

-- The summary counts so many latencies.
abbrev pub Counts : Option LatencySummary → ℕ → Type 0
Counts none n = n ≡ 0
Counts (some s) n = s.count ≡ n

latency_found :
    (values : List ℕ)
    → AllBelow (u64_mod - 1) values
    → (l : Option LatencySummary) × (latency_summary values ≡ some l) × Counts l (length values)
unfolding latency_summary
latency_found [] small = (none, refl, refl)
latency_found (v ∷ values) small =
    let (s, e, facts) = latency_summary-Summarizes v values small in (some s, e, facts.0)

missing_of-zero :
    (n k : ℕ) (seen : List ℕ)
    → ((j : ℕ) → contains j seen ≡ ltb j k)
    → n ≤ k
    → missing_of n seen ≡ 0
unfolding missing_of
missing_of-zero zero k seen c h = refl
missing_of-zero (suc n) k seen c h = ground (arith, c n, missing_of-zero n k seen c)

-- What the record says of a run in which nothing is lost.
abbrev pub IsComplete : ResultRecord → ℕ → ℕ → ℕ → Type 0
IsComplete r sent bytes measured =
    (r.status ≡ ok)
    × (r.error ≡ none)
    × (r.messages_received ≡ sent)
    × (r.bytes_received ≡ bytes)
    × (r.missing ≡ 0)
    × (r.duplicate ≡ 0)
    × (r.out_of_order ≡ 0)
    × Counts r.latency measured

IsComplete-same :
    (r : ResultRecord) (sent sent' bytes bytes' measured : ℕ)
    → sent ≡ sent'
    → bytes ≡ bytes'
    → IsComplete r sent bytes measured
    → IsComplete r sent' bytes' measured
IsComplete-same r sent sent' bytes bytes' measured s b c =
    (c.0, c.1, c.2 ∙ s, c.3 ∙ b, c.4, c.5, c.6, c.7)

module _ (case_definition : BenchmarkCase) (resolved_case : ResolvedCase) where
  abbrev total : ℕ
  total = total_messages case_definition

  abbrev bytes : ℕ
  bytes = resolved_case.payload_bytes

  record_of-IsComplete :
      (st : ReceiveState) (l : Option LatencySummary)
      → IsClean case_definition.warmup_messages bytes total st
      → Counts l (length st.latencies)
      → IsComplete
          (record_of case_definition resolved_case st l)
          total
          (total * bytes)
          case_definition.measured_messages
  unfolding record_of is_complete
  record_of-IsComplete st l c n =
      let none_missing = missing_of-zero total total st.seen c.seen (omega arith) in
      let complete : is_complete st (missing_of total st.seen) ≡ true =
        rw (none_missing, c.no_duplicate, c.in_order, c.no_error) refl in
      (
        rw complete refl,
        rw (c.no_error, none_missing) refl,
        c.received,
        c.bytes_received,
        none_missing,
        c.no_duplicate,
        c.in_order,
        counts l (c.measured ∙ omega arith) n,
      )
    where
      counts :
          (l : Option LatencySummary)
          → length st.latencies ≡ case_definition.measured_messages
          → Counts l (length st.latencies)
          → Counts l case_definition.measured_messages
      counts none e n = sym e ∙ n
      counts (some s) e n = n ∙ e

  received-IsComplete :
      (st : ReceiveState)
      → IsClean case_definition.warmup_messages bytes total st
      → (r : ResultRecord) × (received case_definition resolved_case (accepted st) ≡ accepted r)
        × IsComplete r total (total * bytes) case_definition.measured_messages
  unfolding received recorded
  received-IsComplete st c =
      let (l, e, n) = latency_found st.latencies c.bounded in
      (record_of case_definition resolved_case st l, rw e refl, record_of-IsComplete st l c n)

  -- When `publish` succeeds and `take_now` hands its messages on in order, each once, in whatever
  -- batches and without an error, and each is looked at at its sending or later and before 2^64, then
  -- `receive` returns a record with the status ok and without error, that counts as many messages and
  -- bytes as the publisher, none missing, duplicate or out of order, and whose summary counts the
  -- measured messages.
  pub nothing_lost :
      (now elapsed : ℕ) (sending : ℕ → Round) (p : Published) (at : ℕ → ℕ) (rounds : List Answer)
      → publish case_definition resolved_case now elapsed sending ≡ accepted p
      → NoneFails rounds
      → items_of rounds ≡ deliver at 0 p.messages
      → ((k : ℕ) → (sending k).sent_monotonic_ns ≤ at k)
      → ((k : ℕ) → at k < u64_mod)
      → (r : ResultRecord) × (receive case_definition resolved_case rounds ≡ accepted r)
        × IsComplete r p.messages_sent p.bytes_sent case_definition.measured_messages
  unfolding receive samples_from
  nothing_lost now elapsed sending p at rounds e f d o small =
      let (m, t, b, pace) = publish_lem case_definition resolved_case now elapsed sending p e in
      let (after, looped, clean) =
        receive_loop-IsClean at sending bytes case_definition.warmup_messages total o small rounds 0
          total initial f (initial-IsClean case_definition.warmup_messages bytes) (omega arith)
          (d ∙ ap (deliver at 0) (m ∙ ap (messages_from bytes sending 0) t)) in
      let (r, returned, complete) = received-IsComplete after clean in
      (
        r,
        rw (publish-limit case_definition resolved_case now elapsed sending p e, looped) returned,
        IsComplete-same r _ _ _ _ _ (sym t) (sym (b ∙ ap (λ k. k * bytes) t)) complete,
      )
