-- ===== src/Bench.antt =====
-- bench/src/lib.rs: the cases of the benchmark, its message, and how a case is resolved. The texts of
-- names are lists of codes; `serde_json` has read the case file, and the CDR codec is a parameter,
-- `size_of payload_bytes`, the length of a serialized message or the error of the codec.
pub mod Boundary
pub mod Latency
pub mod Results
pub mod Subscriber
pub mod Publisher
pub mod Runner
mod Examples
use cyclonedds_rs.Common.{
  ℕ, zero, suc, ◌+◌, ◌%◌, Option, none, some, Bool, true, false, List, [], ◌∷◌, ◌==◌, if◌then◌else◌,
  bytes_eq, Text, Checked, accepted, rejected, on_accepted,
}

-- What the functions return as a boxed error.
pub data BenchError : Type 0 where
  unsupported_schema : ℕ → BenchError
  unknown_case : Text → BenchError
  codec_failed : BenchError
  boundary_overflow : BenchError
  no_value_below : BenchError
  aligned_overflow : BenchError

pub data CaseKind : Type 0 where
  latency throughput smoke cdr : CaseKind

pub data BoundaryRelation : Type 0 where
  below above : BoundaryRelation

pub data PayloadDefinition : Type 0 where
  fixed : ℕ → PayloadDefinition
  wire_boundary : BoundaryRelation → ℕ → PayloadDefinition

pub record BenchmarkCase : Type 0 where
  pub id : Text
  pub kind : CaseKind
  pub transport : Text
  pub shm : Bool
  pub payload : PayloadDefinition
  pub rate_hz : Option ℕ
  pub burst : ℕ
  pub warmup_messages : ℕ
  pub measured_messages : ℕ
  pub timeout_seconds : ℕ

pub record CaseFile : Type 0 where
  pub schema_version : ℕ
  pub cases : List BenchmarkCase

pub record ResolvedCase : Type 0 where
  pub definition : BenchmarkCase
  pub payload_bytes : ℕ
  pub serialized_bytes : ℕ

pub record BenchmarkMessage : Type 0 where
  pub sequence : ℕ
  pub sent_monotonic_ns : ℕ
  pub payload : List ℕ

abbrev pub case_schema_version : ℕ
case_schema_version = 1

abbrev pub usize_mod : ℕ
usize_mod = 18446744073709551616

-- The bytes from an index on, `left` of them.
unfoldable pub payload_from : ℕ → ℕ → ℕ → List ℕ
payload_from sequence index zero = []
payload_from sequence index (suc left) =
    ((index + sequence) % 251) ∷ payload_from sequence (suc index) left

unfoldable pub make_message : ℕ → ℕ → ℕ → BenchmarkMessage
make_message sequence payload_bytes sent_monotonic_ns = record {
  sequence = sequence;
  sent_monotonic_ns = sent_monotonic_ns;
  payload = payload_from sequence 0 payload_bytes;
}

-- What follows the reading of the file.
unfoldable pub load : CaseFile → Checked BenchError CaseFile
load file =
    if file.schema_version == case_schema_version
    then accepted file
    else rejected (unsupported_schema file.schema_version)

unfoldable pub find_case : List BenchmarkCase → Text → Checked BenchError BenchmarkCase
find_case [] case_id = rejected (unknown_case case_id)
find_case (c ∷ cases) case_id =
    if bytes_eq c.id case_id then accepted c else find_case cases case_id

unfoldable pub find : CaseFile → Text → Checked BenchError BenchmarkCase
unfolding find_case
find file case_id = find_case file.cases case_id
