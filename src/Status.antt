-- ===== src/Status.antt =====
-- cyclonedds/src/dds_api.rs: the set of status bits, and the functions that hand it to the C library
-- or take it from there. The operators of a u32 are written out, by the lowest bit first; a shift of
-- 32 or more is a panic. What the C library answers is an argument.
pub mod Bits
mod Examples
use cyclonedds_rs.Common.{
  ℕ, zero, suc, ◌+◌, ◌*◌, ◌/◌, ◌%◌, Option, none, some, Bool, true, false, not, ltb, ◌==◌,
  if◌then◌else◌,
}
use Prim.Native.Nat.{min, max}
use cyclonedds_rs.Error.{ReturnCode, non_negative, negative, from_code, Result, ok, err}

abbrev pub u32_bits : ℕ
u32_bits = 32

-- `|` and `&` of numbers of `width` bits.
unfoldable pub bit_or : ℕ → ℕ → ℕ → ℕ
bit_or zero a b = 0
bit_or (suc width) a b = max (a % 2) (b % 2) + 2 * bit_or width (a / 2) (b / 2)

unfoldable pub bit_and : ℕ → ℕ → ℕ → ℕ
bit_and zero a b = 0
bit_and (suc width) a b = min (a % 2) (b % 2) + 2 * bit_and width (a / 2) (b / 2)

-- `1 << id`, for an `id` below 32.
unfoldable pub one_shifted : ℕ → ℕ
one_shifted zero = 1
one_shifted (suc id) = 2 * one_shifted id

unfoldable pub mask_of : ℕ → Option ℕ
unfolding one_shifted
mask_of id = if ltb id u32_bits then some (one_shifted id) else none

abbrev pub with_mask {ℓ} : {A : Type ℓ} → Option ℕ → (ℕ → A) → Option A
with_mask none f = none
with_mask (some mask) f = some (f mask)

-- `DdsStatus::default`.
abbrev pub default : ℕ
default = 0

unfoldable pub set : ℕ → ℕ → Option ℕ
unfolding mask_of bit_or
set status id = with_mask (mask_of id) (λ mask. bit_or u32_bits status mask)

unfoldable pub is_set : ℕ → ℕ → Option Bool
unfolding mask_of bit_and
is_set status id = with_mask (mask_of id) (λ mask. not (bit_and u32_bits mask status == 0))

-- `dds_set_status_mask` and `dds_triggered`: the code that the C library returns.
unfoldable pub no_error : ReturnCode → Result {0} Unit
no_error (non_negative n) = ok tt
no_error (negative n) = err (from_code (negative n))

-- `dds_get_status_changes`: the code, and the bits that are written.
unfoldable pub dds_get_status_changes : ReturnCode → ℕ → Result ℕ
dds_get_status_changes (non_negative n) status = ok status
dds_get_status_changes (negative n) status = err (from_code (negative n))
