-- ===== src/Builtin/Loans.antt =====
-- Every loan of a buffer in cyclonedds/src/dds_builtin.rs is given back once.
use cyclonedds_rs.Common.{
  ℕ, zero, suc, ◌%◌, ◌^◌, ◌≡◌, refl, ap, List, [], ◌∷◌, none, some, ◌==◌, ==_self, arith,
  Bool-cases, inl, inr, lt→ltb,
}
use cyclonedds_rs.Error.{ReturnCode, non_negative, negative}
use cyclonedds_rs.Builtin.{
  Lent, BuiltinSamples, new, give_back, return_samples, return_loan, clear, drop_samples, receive,
  readn_from_entity_now,
}

-- What a buffer does, in any order: reads of any reader, whatever the answer, and clears.
pub data Use : Type 0 where
  read_from : ReturnCode → ℕ → Use
  cleared : Use

unfoldable pub use_once : Use → BuiltinSamples × Lent → BuiltinSamples × Lent
use_once (read_from code reader) (c, lent) =
    let r = readn_from_entity_now code reader c lent in (r.1, r.2)
use_once cleared (c, lent) = clear c lent

unfoldable pub use_all : List Use → BuiltinSamples × Lent → BuiltinSamples × Lent
use_all [] s = s
use_all (u ∷ uses) s = use_all uses (use_once u s)

-- What is lent besides a buffer is `others`.
pub data IsHeld (others : Lent) : BuiltinSamples → Lent → Type 0 where
  free_buffer : (max : ℕ) → IsHeld others (record { len = 0; max = max; loaned_from = none }) others
  full_buffer :
      (max reader n : ℕ)
      → IsHeld others
          (record { len = suc n; max = max; loaned_from = some reader })
          ((reader, suc n) ∷ others)

give_back_first : (reader n : ℕ) (lent : Lent) → give_back reader n ((reader, n) ∷ lent) ≡ lent
unfolding give_back
give_back_first reader n lent = rw (==_self reader, ==_self n) refl

full_returned :
    (max reader n : ℕ) (others : Lent)
    → return_loan
        (record { len = suc n; max = max; loaned_from = some reader })
        ((reader, suc n) ∷ others)
      ≡ (record { len = 0; max = max; loaned_from = none }, others)
unfolding return_loan return_samples
full_returned max reader n others =
    rw (lt→ltb 0 (suc n) (omega arith), give_back_first reader (suc n) others) refl

-- A buffer that is given back.
abbrev IsFree : Lent → BuiltinSamples × Lent → Type 0
IsFree others s = (max : ℕ) × (s ≡ (record { len = 0; max = max; loaned_from = none }, others))

return_loan-IsFree :
    (others : Lent) (c : BuiltinSamples) (lent : Lent)
    → IsHeld others c lent
    → IsFree others (return_loan c lent)
return_loan-IsFree others _ _ (free_buffer max) = (max, unfold return_loan return_samples in refl)
return_loan-IsFree others _ _ (full_buffer max reader n) = (max, full_returned max reader n others)

received :
    (others : Lent) (code : ReturnCode) (reader max : ℕ)
    → IsHeld others
        (receive code reader (record { len = 0; max = max; loaned_from = none }) others).1
        (receive code reader (record { len = 0; max = max; loaned_from = none }) others).2
unfolding receive
received others (negative n) reader max = free_buffer max
received others (non_negative zero) reader max = free_buffer max
received others (non_negative (suc n)) reader max = full_buffer max reader n

receive-IsHeld :
    (others : Lent) (code : ReturnCode) (reader : ℕ) (s : BuiltinSamples × Lent)
    → IsFree others s
    → IsHeld others (receive code reader s.0 s.1).1 (receive code reader s.0 s.1).2
receive-IsHeld others code reader s f = rw (f.1) (received others code reader f.0)

read-IsHeld :
    (others : Lent) (code : ReturnCode) (reader : ℕ) (c : BuiltinSamples) (lent : Lent)
    → IsHeld others c lent
    → IsHeld others
        (readn_from_entity_now code reader c lent).1
        (readn_from_entity_now code reader c lent).2
unfolding readn_from_entity_now
read-IsHeld others code reader c lent h = elim (Bool-cases (c.max == 0)) [
  | inl e ↦ rw (e) h
  | inr e ↦
      rw (e) (
        receive-IsHeld others code reader (return_loan c lent) (return_loan-IsFree others c lent h))
]

free-IsHeld : (others : Lent) (s : BuiltinSamples × Lent) → IsFree others s → IsHeld others s.0 s.1
free-IsHeld others s f = rw (f.1) (free_buffer f.0)

use_once-IsHeld :
    (others : Lent) (u : Use) (s : BuiltinSamples × Lent)
    → IsHeld others s.0 s.1
    → IsHeld others (use_once u s).0 (use_once u s).1
unfolding use_once clear
use_once-IsHeld others (read_from code reader) (c, lent) h = read-IsHeld others code reader c lent h
use_once-IsHeld others cleared (c, lent) h =
    free-IsHeld others (return_loan c lent) (return_loan-IsFree others c lent h)

use_all-IsHeld :
    (others : Lent) (uses : List Use) (s : BuiltinSamples × Lent)
    → IsHeld others s.0 s.1
    → IsHeld others (use_all uses s).0 (use_all uses s).1
unfolding use_all
use_all-IsHeld others [] s h = h
use_all-IsHeld others (u ∷ uses) s h =
    use_all-IsHeld others uses (use_once u s) (use_once-IsHeld others u s h)

new-IsHeld : (others : Lent) (len : ℕ) → IsHeld others (new len) others
unfolding new
new-IsHeld others len = free_buffer (len % 2 ^ 32)

-- Whatever a buffer is used for, in whatever order, reads of any readers with any answers and clears:
-- once it is dropped, all that was lent to it is given back, each loan to the reader that it is
-- from, and what is lent to others is as it was.
pub loans_returned :
    (others : Lent) (len : ℕ) (uses : List Use)
    → drop_samples (use_all uses (new len, others)).0 (use_all uses (new len, others)).1 ≡ others
unfolding drop_samples
loans_returned others len uses =
    let s = use_all uses (new len, others) in
    let f =
      return_loan-IsFree others s.0 s.1
        (use_all-IsHeld others uses (new len, others) (new-IsHeld others len)) in
    ap (λ (r : BuiltinSamples × Lent). r.1) f.1
