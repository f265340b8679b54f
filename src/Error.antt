-- ===== src/Error.antt =====
-- cyclonedds-sys/src/dds_error.rs and cyclonedds/src/error.rs: the errors, and the return codes of
-- the C library that they stand for. A return code is an i32.
mod Codes
use cyclonedds_rs.Common.{ℕ, ◌-◌, ◌<◌, Bool, true, false, ltb, ◌==◌, if◌then◌else◌}

pub data DdsError : Type 0 where
  dds_ok : DdsError
  dds_error_code : DdsError
  unsupported : DdsError
  bad_parameter : DdsError
  precondition_not_met : DdsError
  out_of_resources : DdsError
  not_enabled : DdsError
  immutable_policy : DdsError
  inconsistent_policy : DdsError
  already_deleted : DdsError
  timeout : DdsError
  no_data : DdsError
  illegal_operation : DdsError
  not_allowed_by_security : DdsError

-- A return code: not negative, or the negative of a number that is not zero.
pub data ReturnCode : Type 0 where
  non_negative : ℕ → ReturnCode
  negative : ℕ → ReturnCode

-- `From<dds_return_t>`: `negative n` is the code -n.
unfoldable pub from_code : ReturnCode → DdsError
from_code (non_negative n) = dds_ok
from_code (negative n) =
    if n == 1
    then dds_error_code
    else if n == 2
    then unsupported
    else if n == 3
    then bad_parameter
    else if n == 4
    then precondition_not_met
    else if n == 5
    then out_of_resources
    else if n == 6
    then not_enabled
    else if n == 7
    then immutable_policy
    else if n == 8
    then inconsistent_policy
    else if n == 9
    then already_deleted
    else if n == 10
    then timeout
    else if n == 11
    then no_data
    else if n == 12
    then illegal_operation
    else if n == 13
    then not_allowed_by_security
    else dds_error_code

pub data ReaderError : Type 0 where
  requested_deadline_missed : ReaderError
  reader_not_async : ReaderError
  no_matched_writer : ℕ → ReaderError
  dds_error : DdsError → ReaderError

pub data Result {ℓ} (A : Type ℓ) : Type ℓ where
  ok : A → Result A
  err : DdsError → Result A

-- The operator `?`.
abbrev pub and_then {ℓ ℓ'} : {A : Type ℓ} {B : Type ℓ'} → Result A → (A → Result B) → Result B
and_then (ok a) next = next a
and_then (err e) next = err e
