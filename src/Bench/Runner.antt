-- ===== src/Bench/Runner.antt =====
-- bench/src/bin/runner.rs: the case that only encodes and decodes, and the record of a failed case.
-- The codec is a parameter, with `none` for its error; `clock sequence` holds the nanoseconds that the
-- two calls take for a message.
pub mod Lines
pub mod Roundtrips
use cyclonedds_rs.Common.{
  ℕ, zero, suc, ◌+◌, ◌*◌, Option, none, some, Bool, true, false, not, ◌&&◌, List, leb, ◌==◌,
  if◌then◌else◌, length, bytes_eq, Text, Checked, accepted, rejected,
}
use cyclonedds_rs.Bench.{
  BenchError, codec_failed, BenchmarkCase, BenchmarkMessage, ResolvedCase, make_message,
}
use cyclonedds_rs.Bench.Results.{
  RecordError, roundtrip_mismatch, case_failed, Status, ok, error, ResultRecord,
}

unfoldable pub failed_record : ResolvedCase → Text → ResultRecord
failed_record resolved_case e = record {
  status = error;
  payload_bytes = resolved_case.payload_bytes;
  serialized_bytes = resolved_case.serialized_bytes;
  elapsed_ns = 0;
  messages_sent = 0;
  messages_received = 0;
  bytes_sent = 0;
  bytes_received = 0;
  missing = 0;
  duplicate = 0;
  out_of_order = 0;
  latency = none;
  serialize_elapsed_ns = none;
  deserialize_elapsed_ns = none;
  roundtrip_ok = none;
  error = some (case_failed e);
}

-- The derived `==` of messages.
unfoldable pub message_eq : BenchmarkMessage → BenchmarkMessage → Bool
message_eq a b =
    a.sequence == b.sequence
    && (a.sent_monotonic_ns == b.sent_monotonic_ns && bytes_eq a.payload b.payload)

pub record CdrState : Type 0 where
  pub serialize_elapsed_ns : ℕ
  pub deserialize_elapsed_ns : ℕ
  pub roundtrip_ok : Bool
  pub serialized_bytes : ℕ

module _ (serialize : BenchmarkMessage → Option (List ℕ))
    (deserialize : List ℕ → Option BenchmarkMessage) (clock : ℕ → ℕ × ℕ) where
  -- The body of the loop once both calls of the codec have succeeded.
  unfoldable pub tally : ℕ → ℕ → BenchmarkMessage → List ℕ → BenchmarkMessage → CdrState → CdrState
  unfolding message_eq
  tally warmup sequence message encoded decoded st =
      let measured = leb warmup sequence in
      record {
        serialize_elapsed_ns =
            if measured
            then st.serialize_elapsed_ns + (clock sequence).0
            else st.serialize_elapsed_ns;
        deserialize_elapsed_ns =
            if measured
            then st.deserialize_elapsed_ns + (clock sequence).1
            else st.deserialize_elapsed_ns;
        roundtrip_ok =
            if measured && not (message_eq decoded message) then false else st.roundtrip_ok;
        serialized_bytes = length encoded;
      }

  -- `for sequence in 0..total`, with the rounds that are left.
  unfoldable pub cdr_loop : ℕ → ℕ → ℕ → ℕ → CdrState → Checked BenchError CdrState
  cdr_loop warmup bytes sequence zero st = accepted st
  cdr_loop warmup bytes sequence (suc left) st = elim (serialize (make_message sequence bytes 0)) [
    | none ↦ rejected codec_failed
    | some encoded ↦ elim (deserialize encoded) [
      | none ↦ rejected codec_failed
      | some decoded ↦
          cdr_loop warmup bytes (suc sequence) left
            (tally warmup sequence (make_message sequence bytes 0) encoded decoded st)
    ]
  ]

  unfoldable pub cdr_record : BenchmarkCase → ResolvedCase → CdrState → ResultRecord
  cdr_record case_definition resolved_case st = record {
    status = if st.roundtrip_ok then ok else error;
    payload_bytes = resolved_case.payload_bytes;
    serialized_bytes = st.serialized_bytes;
    elapsed_ns = st.serialize_elapsed_ns + st.deserialize_elapsed_ns;
    messages_sent = case_definition.measured_messages;
    messages_received = case_definition.measured_messages;
    bytes_sent = st.serialized_bytes * case_definition.measured_messages;
    bytes_received = st.serialized_bytes * case_definition.measured_messages;
    missing = 0;
    duplicate = 0;
    out_of_order = 0;
    latency = none;
    serialize_elapsed_ns = some st.serialize_elapsed_ns;
    deserialize_elapsed_ns = some st.deserialize_elapsed_ns;
    roundtrip_ok = some st.roundtrip_ok;
    error = if st.roundtrip_ok then none else some roundtrip_mismatch;
  }

  unfoldable pub cdr_recorded :
      BenchmarkCase → ResolvedCase → Checked BenchError CdrState → Checked BenchError ResultRecord
  unfolding cdr_record
  cdr_recorded c resolved (rejected e) = rejected e
  cdr_recorded c resolved (accepted st) = accepted (cdr_record c resolved st)

  unfoldable pub run_cdr : BenchmarkCase → ResolvedCase → Checked BenchError ResultRecord
  unfolding cdr_recorded
  run_cdr c resolved = cdr_recorded c resolved (
      cdr_loop c.warmup_messages resolved.payload_bytes 0 (c.warmup_messages + c.measured_messages)
        (record {
          serialize_elapsed_ns = 0;
          deserialize_elapsed_ns = 0;
          roundtrip_ok = true;
          serialized_bytes = resolved.serialized_bytes;
        }))
