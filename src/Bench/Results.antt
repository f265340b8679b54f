-- ===== src/Bench/Results.antt =====
-- bench/src/lib.rs: the record of a result, without the labels that are copied from the case, and
-- without the throughput, which is a float.
use cyclonedds_rs.Common.{ℕ, Option, Bool, Text}
use cyclonedds_rs.Bench.Latency.{LatencySummary}

-- What the subscriber notes of a sample.
pub data PayloadError : Type 0 where
  invalid_sample : PayloadError
  payload_mismatch : ℕ → PayloadError
  negative_latency : ℕ → PayloadError

-- The texts of the field `error`.
pub data RecordError : Type 0 where
  payload_error : PayloadError → RecordError
  missing_samples : ℕ → RecordError
  roundtrip_mismatch : RecordError
  child_unsuccessful : RecordError
  case_failed : Text → RecordError

pub data Status : Type 0 where
  ok error : Status

pub record ResultRecord : Type 0 where
  pub status : Status
  pub payload_bytes : ℕ
  pub serialized_bytes : ℕ
  pub elapsed_ns : ℕ
  pub messages_sent : ℕ
  pub messages_received : ℕ
  pub bytes_sent : ℕ
  pub bytes_received : ℕ
  pub missing : ℕ
  pub duplicate : ℕ
  pub out_of_order : ℕ
  pub latency : Option LatencySummary
  pub serialize_elapsed_ns : Option ℕ
  pub deserialize_elapsed_ns : Option ℕ
  pub roundtrip_ok : Option Bool
  pub error : Option RecordError
