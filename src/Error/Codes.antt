-- ===== src/Error/Codes.antt =====
-- The return codes of cyclonedds-sys/src/dds_error.rs against the table of the C library's errors.
use cyclonedds_rs.Common.{ℕ, ◌≡◌, ◌<◌, refl, arith}
use cyclonedds_rs.Error.{
  DdsError, dds_ok, dds_error_code, unsupported, bad_parameter, precondition_not_met,
  out_of_resources, not_enabled, immutable_policy, inconsistent_policy, already_deleted, timeout,
  no_data, illegal_operation, not_allowed_by_security, ReturnCode, non_negative, negative,
  from_code,
}

-- `DDS_RETCODE_*` of ddsrt/retcode.h.
abbrev pub code_of : DdsError → ReturnCode
code_of dds_ok = non_negative 0
code_of dds_error_code = negative 1
code_of unsupported = negative 2
code_of bad_parameter = negative 3
code_of precondition_not_met = negative 4
code_of out_of_resources = negative 5
code_of not_enabled = negative 6
code_of immutable_policy = negative 7
code_of inconsistent_policy = negative 8
code_of already_deleted = negative 9
code_of timeout = negative 10
code_of no_data = negative 11
code_of illegal_operation = negative 12
code_of not_allowed_by_security = negative 13

from_code-code_of : (e : DdsError) → from_code (code_of e) ≡ e
unfolding from_code
from_code-code_of dds_ok = refl
from_code-code_of dds_error_code = refl
from_code-code_of _ = refl

from_code_ok : (c : ReturnCode) → from_code c ≡ dds_ok → (n : ℕ) × (c ≡ non_negative n)
unfolding from_code
from_code_ok (non_negative n) e = (n, refl)
from_code_ok (negative n) e = ground arith

from_code_unknown : (n : ℕ) → 13 < n → from_code (negative n) ≡ dds_error_code
unfolding from_code
from_code_unknown n h = ground arith

-- Every error is read back from its own code; a code is read as success exactly when it is not
-- negative; and a code outside the table is read as the unspecified error.
pub from_code_lem :
    ((e : DdsError) → from_code (code_of e) ≡ e)
    × ((c : ReturnCode) → from_code c ≡ dds_ok → (n : ℕ) × (c ≡ non_negative n))
    × ((n : ℕ) → 13 < n → from_code (negative n) ≡ dds_error_code)
from_code_lem = (from_code-code_of, from_code_ok, from_code_unknown)
