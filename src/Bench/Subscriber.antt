-- ===== src/Bench/Subscriber.antt =====
-- bench/src/bin/subscriber.rs: what the subscriber counts, and its record. `take_now` answers with the
-- samples of one call, with NoData or with another error; the list of the answers is that of the
-- rounds before the deadline. A sample has the instant at which `monotonic_ns` is read for it. The
-- counters are not taken to overflow.

pub mod Checks
mod Rising
pub mod Order
pub mod Clean
pub mod Delivery
use cyclonedds_rs.Common.{
  ℕ, zero, suc, ◌+◌, ◌-◌, ◌*◌, Option, none, some, Bool, true, false, not, ◌&&◌, List, [], ◌∷◌,
  ◌++◌, ltb, leb, ◌==◌, if◌then◌else◌, length, bytes_eq, Checked, accepted, rejected, i32_max,
}
use cyclonedds_rs.Bench.{BenchmarkCase, BenchmarkMessage, ResolvedCase, make_message}
use cyclonedds_rs.Bench.Latency.{LatencySummary, latency_summary}
use cyclonedds_rs.Bench.Results.{
  PayloadError, invalid_sample, payload_mismatch, negative_latency, RecordError, payload_error,
  missing_samples, Status, ok, error, ResultRecord,
}

-- An item of the sample buffer, and the clock when it is looked at.
pub record Received : Type 0 where
  pub message : BenchmarkMessage
  pub is_valid : Bool
  pub received_at : ℕ

pub data Answer : Type 0 where
  taken : List Received → Answer
  no_data : Answer
  take_failed : Answer

pub data ReceiveError : Type 0 where
  too_many_messages : ReceiveError
  dds_error : ReceiveError
  panicked : ReceiveError

-- The variables of the loop; `seen` is a set without order.
pub record ReceiveState : Type 0 where
  pub seen : List ℕ
  pub messages_received : ℕ
  pub bytes_received : ℕ
  pub duplicate : ℕ
  pub out_of_order : ℕ
  pub last_sequence : Option ℕ
  pub latencies : List ℕ
  pub measurement_started : Option ℕ
  pub measurement_ended : Option ℕ
  pub payload_error : Option PayloadError

abbrev pub initial : ReceiveState
initial = record {
  seen = [];
  messages_received = 0;
  bytes_received = 0;
  duplicate = 0;
  out_of_order = 0;
  last_sequence = none;
  latencies = [];
  measurement_started = none;
  measurement_ended = none;
  payload_error = none;
}

unfoldable pub contains : ℕ → List ℕ → Bool
contains sequence [] = false
contains sequence (s ∷ seen) = if sequence == s then true else contains sequence seen

-- `HashSet::insert`.
abbrev pub insert : ℕ → List ℕ → List ℕ
insert sequence seen = if contains sequence seen then seen else sequence ∷ seen

abbrev pub falls_behind : Option ℕ → ℕ → Bool
falls_behind none sequence = false
falls_behind (some previous) sequence = ltb sequence previous

unfoldable pub count_sample : ReceiveState → BenchmarkMessage → ReceiveState
unfolding contains
count_sample st message = record st {
  messages_received = st.messages_received + 1;
  bytes_received = st.bytes_received + length message.payload;
  seen = insert message.sequence st.seen;
  duplicate = if contains message.sequence st.seen then st.duplicate + 1 else st.duplicate;
  out_of_order =
      if falls_behind st.last_sequence message.sequence
      then st.out_of_order + 1
      else st.out_of_order;
  last_sequence = some message.sequence;
}

abbrev pub started_at : Option ℕ → ℕ → Option ℕ
started_at none now = some now
started_at (some start) now = some start

unfoldable pub measure_latency : ReceiveState → Received → ReceiveState
measure_latency st r =
    if ltb r.received_at r.message.sent_monotonic_ns
    then record st {
      measurement_started = started_at st.measurement_started r.received_at;
      measurement_ended = some r.received_at;
      payload_error = some (negative_latency r.message.sequence);
    }
    else record st {
      measurement_started = started_at st.measurement_started r.received_at;
      measurement_ended = some r.received_at;
      latencies = st.latencies ++ ((r.received_at - r.message.sent_monotonic_ns) ∷ []);
    }

module _ (warmup_messages total_messages payload_bytes : ℕ) where
  unfoldable pub check_payload : ReceiveState → BenchmarkMessage → ReceiveState
  check_payload st message =
      if ltb message.sequence total_messages
        && not (
            bytes_eq message.payload
              (make_message message.sequence payload_bytes message.sent_monotonic_ns).payload)
      then record st { payload_error = some (payload_mismatch message.sequence) }
      else st

  unfoldable pub measure : ReceiveState → Received → ReceiveState
  unfolding measure_latency
  measure st r =
      if leb warmup_messages r.message.sequence && ltb r.message.sequence total_messages
      then measure_latency st r
      else st

  unfoldable pub on_sample : ReceiveState → Received → ReceiveState
  unfolding measure check_payload count_sample
  on_sample st r =
      if r.is_valid
      then measure (check_payload (count_sample st r.message) r.message) r
      else record st { payload_error = some invalid_sample }

  unfoldable pub on_samples : ReceiveState → List Received → ReceiveState
  on_samples st [] = st
  on_samples st (r ∷ items) = on_samples (on_sample st r) items

  -- `while Instant::now() < deadline && seen.len() < total_messages`.
  unfoldable pub receive_loop : ReceiveState → List Answer → Checked ReceiveError ReceiveState
  receive_loop st [] = accepted st
  receive_loop st (taken items ∷ rounds) =
      let rest = receive_loop (on_samples st items) rounds in
      if ltb (length st.seen) total_messages then rest else accepted st
  receive_loop st (no_data ∷ rounds) =
      let rest = receive_loop st rounds in
      if ltb (length st.seen) total_messages then rest else accepted st
  receive_loop st (take_failed ∷ rounds) =
      if ltb (length st.seen) total_messages then rejected dds_error else accepted st

-- `(0..total_messages).filter(|sequence| !seen.contains(sequence)).count()`.
unfoldable pub missing_of : ℕ → List ℕ → ℕ
unfolding contains
missing_of zero seen = 0
missing_of (suc n) seen = (if contains n seen then 0 else 1) + missing_of n seen

abbrev pub elapsed_of : Option ℕ → Option ℕ → ℕ
elapsed_of none ended = 0
elapsed_of (some start) none = 0
elapsed_of (some start) (some end') = end' - start

abbrev pub error_of : Option PayloadError → ℕ → Option RecordError
error_of (some e) missing = some (payload_error e)
error_of none zero = none
error_of none (suc n) = some (missing_samples (suc n))

abbrev pub is_none : Option PayloadError → Bool
is_none none = true
is_none (some e) = false

unfoldable pub is_complete : ReceiveState → ℕ → Bool
is_complete st missing =
    missing == 0 && (st.duplicate == 0 && (st.out_of_order == 0 && is_none st.payload_error))

abbrev pub total_messages : BenchmarkCase → ℕ
total_messages c = c.warmup_messages + c.measured_messages

module _ (case_definition : BenchmarkCase) (resolved_case : ResolvedCase) where
  abbrev total : ℕ
  total = total_messages case_definition

  unfoldable pub record_of : ReceiveState → Option LatencySummary → ResultRecord
  unfolding is_complete missing_of
  record_of st latency = record {
    status = if is_complete st (missing_of total st.seen) then ok else error;
    payload_bytes = resolved_case.payload_bytes;
    serialized_bytes = resolved_case.serialized_bytes;
    elapsed_ns = elapsed_of st.measurement_started st.measurement_ended;
    messages_sent = total;
    messages_received = st.messages_received;
    bytes_sent = total * resolved_case.payload_bytes;
    bytes_received = st.bytes_received;
    missing = missing_of total st.seen;
    duplicate = st.duplicate;
    out_of_order = st.out_of_order;
    latency = latency;
    serialize_elapsed_ns = none;
    deserialize_elapsed_ns = none;
    roundtrip_ok = none;
    error = error_of st.payload_error (missing_of total st.seen);
  }

  unfoldable pub recorded :
      ReceiveState → Option (Option LatencySummary) → Checked ReceiveError ResultRecord
  recorded st none = rejected panicked
  recorded st (some latency) = accepted (record_of st latency)

  unfoldable pub received : Checked ReceiveError ReceiveState → Checked ReceiveError ResultRecord
  received (rejected e) = rejected e
  received (accepted st) = recorded st (latency_summary st.latencies)

  -- `receive`, from the conversion of the depth on, once the match and the start are there.
  unfoldable pub receive : List Answer → Checked ReceiveError ResultRecord
  unfolding recorded received
  receive rounds =
      if leb total i32_max
      then received (
          receive_loop case_definition.warmup_messages total resolved_case.payload_bytes initial
            rounds)
      else rejected too_many_messages
