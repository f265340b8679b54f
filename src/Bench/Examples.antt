-- ===== src/Bench/Examples.antt =====
-- Concrete values at which the theorems on the benchmark are applied: a case of two messages of two
-- bytes, one of them to warm up, and a codec that writes the fields one after the other.
use cyclonedds_rs.Common.{
  ℕ, ◌+◌, ◌-◌, ◌*◌, ◌≤◌, ◌≡◌, refl, Option, none, some, true, false, List, [], ◌∷◌, length, take,
  leb, ltb, codes, accepted, bytes_eq, arith,
}
use cyclonedds_rs.Bench.{
  BenchmarkCase, BenchmarkMessage, ResolvedCase, throughput, fixed, below, make_message,
  payload_from,
}
use cyclonedds_rs.Bench.Boundary.{find_boundary_payload}
use cyclonedds_rs.Bench.Boundary.Laws.{Nearest, find_boundary_payload-Nearest}
use cyclonedds_rs.Bench.Latency.{LatencySummary, latency_summary, percentile, sort_unstable}
use cyclonedds_rs.Bench.Latency.Sorting.{count}
use cyclonedds_rs.Bench.Latency.Laws.{Summarizes, percentile_rank, latency_summary-Summarizes}
use cyclonedds_rs.Bench.Results.{ok, ResultRecord}
use cyclonedds_rs.Bench.Publisher.{
  Round, Published, publish, publish_loop, published, send, period_of,
}
use cyclonedds_rs.Bench.Publisher.Laws.{messages_from, PacedBy, publish_lem}
use cyclonedds_rs.Bench.Subscriber.{Answer, taken, no_data, receive}
use cyclonedds_rs.Bench.Subscriber.Checks.{items_of, sequences, AllRight}
use cyclonedds_rs.Bench.Subscriber.Order.{receive_sound}
use cyclonedds_rs.Bench.Subscriber.Clean.{delivered}
use cyclonedds_rs.Bench.Subscriber.Delivery.{IsComplete, nothing_lost}
use cyclonedds_rs.Bench.Runner.{run_cdr, cdr_recorded, cdr_record, cdr_loop, tally, message_eq}
use cyclonedds_rs.Bench.Runner.Lines.{line, receive_publisher_line, done_line}
use cyclonedds_rs.Bench.Runner.Lines.Done.{is_word, receive_publisher_line-done_line}

latency_summary-Summarizes_example :
    (s : LatencySummary) × (latency_summary (30 ∷ 10 ∷ 40 ∷ 20 ∷ []) ≡ some (some s))
    × Summarizes s (30 ∷ 10 ∷ 40 ∷ 20 ∷ [])
latency_summary-Summarizes_example = latency_summary-Summarizes 30 (10 ∷ 40 ∷ 20 ∷ []) (omega arith)

percentile_rank_example :
    (q : ℕ) × (percentile (sort_unstable (30 ∷ 10 ∷ 40 ∷ 20 ∷ [])) 50 ≡ some q)
    × (50 * 4 ≤ 100 * count (λ x. leb x q) (30 ∷ 10 ∷ 40 ∷ 20 ∷ []))
    × (100 * count (λ x. ltb x q) (30 ∷ 10 ∷ 40 ∷ 20 ∷ []) ≤ 50 * (4 - 1) + 99)
percentile_rank_example = percentile_rank (30 ∷ 10 ∷ 40 ∷ 20 ∷ []) 50 (omega arith) (omega arith)

-- The sizes of the message of the benchmark.
abbrev wire_size : ℕ → Option ℕ
wire_size n = some (24 + n)

find_boundary_payload-Nearest_example :
    (p : ℕ) × (find_boundary_payload wire_size (16 + 4) below 65535 ≡ some (accepted p))
    × Nearest below 24 65535 p
find_boundary_payload-Nearest_example =
    find_boundary_payload-Nearest wire_size 24 (λ n. refl) below 16 65535 (omega arith)
      (omega arith) (omega arith) (omega arith)

abbrev two_messages : BenchmarkCase
two_messages = record {
  id = codes "two";
  kind = throughput;
  transport = codes "udp";
  shm = false;
  payload = fixed 2;
  rate_hz = some 1000000;
  burst = 1;
  warmup_messages = 1;
  measured_messages = 1;
  timeout_seconds = 1;
}

abbrev resolved_two : ResolvedCase
resolved_two = record { definition = two_messages; payload_bytes = 2; serialized_bytes = 26 }

-- The second message is due 1000 ns after the first, and the publisher wakes up 7 ns late.
abbrev rounds : ℕ → Round
rounds sequence = record {
  now = 5000 + sequence;
  overslept = 7;
  sent_monotonic_ns = 50;
  written = true;
  ended_ns = 90;
}

abbrev published_two : Published
published_two = record {
  messages_sent = 2;
  bytes_sent = 4;
  elapsed_ns = 40;
  messages = make_message 0 2 50 ∷ make_message 1 2 50 ∷ [];
  sends = 5000 ∷ 6007 ∷ [];
}

two_published : publish two_messages resolved_two 5000 0 rounds ≡ accepted published_two
unfolding publish published publish_loop send make_message payload_from period_of
two_published = refl

publish_lem_example :
    (published_two.messages ≡ messages_from 2 rounds 0 2)
    × (published_two.messages_sent ≡ 2)
    × (published_two.bytes_sent ≡ 2 * 2)
    × PacedBy (period_of (some 1000000)) 5000 (5000 ∷ 6007 ∷ [])
publish_lem_example =
    publish_lem two_messages resolved_two 5000 0 rounds published_two two_published

-- The messages come in two calls of take_now, with an empty one between them.
abbrev batches : List Answer
batches =
    taken (delivered 100 (make_message 0 2 50) ∷ [])
    ∷ (no_data ∷ (taken (delivered 100 (make_message 1 2 50) ∷ []) ∷ []))

nothing_lost_example :
    (r : ResultRecord) × (receive two_messages resolved_two batches ≡ accepted r)
    × IsComplete r 2 4 1
nothing_lost_example =
    nothing_lost two_messages resolved_two 5000 0 rounds published_two (λ k. 100) batches
      two_published tt refl (λ k. omega arith) (λ k. omega arith)

record_of_two :
    (r : ResultRecord) × (receive two_messages resolved_two batches ≡ accepted r)
    × IsComplete r 2 4 1
record_of_two =
    nothing_lost two_messages resolved_two 5000 0 rounds published_two (λ k. 100) batches
      two_published tt refl (λ k. omega arith) (λ k. omega arith)

receive_sound_example :
    (n : ℕ) × (take 2 (sequences (items_of (take n batches))) ≡ 0 ∷ 1 ∷ [])
    × AllRight 2 2 (items_of (take n batches))
    × (record_of_two.0.messages_received ≡ length (items_of (take n batches)))
receive_sound_example =
    receive_sound two_messages resolved_two batches record_of_two.0 record_of_two.1
      record_of_two.2.0

abbrev serialize : BenchmarkMessage → Option (List ℕ)
serialize m = some (m.sequence ∷ m.sent_monotonic_ns ∷ m.payload)

abbrev deserialize : List ℕ → Option BenchmarkMessage
deserialize (sequence ∷ sent ∷ payload) =
    some (record { sequence = sequence; sent_monotonic_ns = sent; payload = payload })
deserialize _ = none

abbrev cdr_two : ResultRecord
cdr_two = record {
  status = ok;
  payload_bytes = 2;
  serialized_bytes = 4;
  elapsed_ns = 7;
  messages_sent = 1;
  messages_received = 1;
  bytes_sent = 4;
  bytes_received = 4;
  missing = 0;
  duplicate = 0;
  out_of_order = 0;
  latency = none;
  serialize_elapsed_ns = some 3;
  deserialize_elapsed_ns = some 4;
  roundtrip_ok = some true;
  error = none;
}

encoded_two :
    run_cdr serialize deserialize (λ k. (3, 4)) two_messages resolved_two ≡ accepted cdr_two
unfolding run_cdr cdr_recorded cdr_record cdr_loop tally message_eq make_message payload_from
    bytes_eq
encoded_two = refl

plain_run_id : is_word (codes "7-42") ≡ true
unfolding is_word
plain_run_id = refl

receive_publisher_line-done_line_example :
    receive_publisher_line (line (done_line (codes "7-42") 110 7205880 5)) (none, none)
    ≡ accepted (some 110, some 7205880)
receive_publisher_line-done_line_example =
    receive_publisher_line-done_line (codes "7-42") 110 7205880 5 (none, none) plain_run_id
      (omega arith) (omega arith)
