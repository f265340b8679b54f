-- ===== src/Builtin.antt =====
-- cyclonedds/src/dds_builtin.rs: the samples of the built-in topics, which the C library lends.
pub mod Loans
pub mod Properties
mod Examples
use cyclonedds_rs.Common.{
  ℕ, zero, suc, ◌%◌, ◌^◌, List, [], ◌∷◌, Option, none, some, ltb, ◌==◌, if◌then◌else◌, Bool, true,
  false, ◌&&◌,
}
use cyclonedds_rs.Error.{
  bad_parameter, no_data, ReturnCode, non_negative, negative, from_code, Result, ok, err,
}

-- The readers whose samples are lent, with how many; a read that succeeds adds one.
abbrev pub Lent : Type 0
Lent = List (ℕ × ℕ)

-- `BuiltinSamples`: a reader is the handle of its entity.
pub record BuiltinSamples : Type 0 where
  pub len : ℕ
  pub max : ℕ
  pub loaned_from : Option ℕ

unfoldable pub new : ℕ → BuiltinSamples
new len = record { len = 0; max = len % 2 ^ 32; loaned_from = none }

-- `dds_return_loan` of all the samples of a read.
unfoldable pub give_back : ℕ → ℕ → Lent → Lent
give_back reader count [] = []
give_back reader count ((r, n) ∷ lent) =
    let rest = give_back reader count lent in
    if (r == reader) && (n == count) then lent else (r, n) ∷ rest

unfoldable pub return_samples : Option ℕ → BuiltinSamples → Lent → BuiltinSamples × Lent
return_samples none c lent = (c, lent)
return_samples (some reader) c lent = (
  record { len = 0; max = c.max; loaned_from = none },
  if ltb 0 c.len then give_back reader c.len lent else lent,
)

unfoldable pub return_loan : BuiltinSamples → Lent → BuiltinSamples × Lent
return_loan c lent = return_samples c.loaned_from c lent

unfoldable pub clear : BuiltinSamples → Lent → BuiltinSamples × Lent
clear c lent = return_loan c lent

-- `Drop`: the samples go back before the arrays are freed.
unfoldable pub drop_samples : BuiltinSamples → Lent → Lent
drop_samples c lent = (return_loan c lent).1

-- The match on what `dds_read` or `dds_take` answers.
unfoldable pub receive : ReturnCode → ℕ → BuiltinSamples → Lent → Result ℕ × BuiltinSamples × Lent
receive (negative n) reader c lent = (err (from_code (negative n)), c, lent)
receive (non_negative zero) reader c lent = (err no_data, c, lent)
receive (non_negative (suc n)) reader c lent = (
  ok (suc n),
  record { len = suc n; max = c.max; loaned_from = some reader },
  (reader, suc n) ∷ lent,
)

unfoldable pub readn_from_entity_now :
    ReturnCode → ℕ → BuiltinSamples → Lent → Result ℕ × BuiltinSamples × Lent
readn_from_entity_now code reader c lent =
    if c.max == 0
    then (err bad_parameter, c, lent)
    else (let r = return_loan c lent in receive code reader r.0 r.1)
