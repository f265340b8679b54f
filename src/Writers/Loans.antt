-- ===== src/Writers/Loans.antt =====
-- cyclonedds/src/dds_writer.rs: `Loaned`, a sample that the C library lends, and `loan` and
-- `return_loan` of the writer.
use cyclonedds_rs.Common.{
  ℕ, suc, ◌+◌, List, [], ◌∷◌, ◌++◌, ◌≡◌, refl, Option, none, some, ◌==◌, if◌then◌else◌, arith,
  some-injective, none-some,
}
use cyclonedds_rs.Error.{ReturnCode, non_negative, negative, from_code, Result, ok, err}

pub data LoanedInner : Type 0 where
  uninitialized : ℕ → ℕ → LoanedInner
  initialized : ℕ → ℕ → LoanedInner
  empty : LoanedInner

-- The calls of the C library, with the entity and the pointer.
pub data Call : Type 0 where
  loan_call : ℕ → Call
  return_call : ℕ → ℕ → Call
  write_call : ℕ → ℕ → Call

-- The calls so far, in order.
abbrev pub Calls : Type 0
Calls = List Call

unfoldable pub as_mut_ptr : LoanedInner → Option ℕ
as_mut_ptr (uninitialized p entity) = some p
as_mut_ptr (initialized p entity) = some p
as_mut_ptr empty = none

-- `Drop`: the answer of the C library is not looked at.
unfoldable pub drop_loaned : LoanedInner → Calls → Calls
drop_loaned (uninitialized p entity) calls = calls ++ (return_call entity p ∷ [])
drop_loaned (initialized p entity) calls = calls ++ (return_call entity p ∷ [])
drop_loaned empty calls = calls

abbrev pub marked : LoanedInner → LoanedInner
marked (uninitialized p entity) = initialized p entity
marked (initialized p entity) = initialized p entity
marked empty = empty

-- The value that is consumed is dropped at the end.
unfoldable pub assume_init : LoanedInner → Calls → LoanedInner × Calls
assume_init loaned calls = (marked loaned, drop_loaned loaned calls)

abbrev pub zero_or_err : ReturnCode → Result (Unit {0})
zero_or_err (non_negative n) = if n == 0 then ok tt else err (from_code (non_negative n))
zero_or_err (negative n) = err (from_code (negative n))

abbrev pub succeeded : ReturnCode
succeeded = non_negative 0

-- How often a pointer is returned.
unfoldable pub returns : ℕ → Calls → ℕ
returns p [] = 0
returns p (loan_call entity ∷ calls) = returns p calls
returns p (write_call entity q ∷ calls) = returns p calls
returns p (return_call entity q ∷ calls) =
    let rest = returns p calls in if p == q then suc rest else rest

returns-append : (p : ℕ) (xs ys : Calls) → returns p (xs ++ ys) ≡ returns p xs + returns p ys
unfolding returns
returns-append p [] ys = omega arith
returns-append p (loan_call entity ∷ xs) ys = returns-append p xs ys
returns-append p (write_call entity q ∷ xs) ys = returns-append p xs ys
returns-append p (return_call entity q ∷ xs) ys = ground (arith, returns-append p xs ys)

returns_one : (p entity : ℕ) → returns p (return_call entity p ∷ []) ≡ 1
unfolding returns
returns_one p entity = ground arith

returns_write : (p q entity : ℕ) → returns p (write_call entity q ∷ []) ≡ 0
unfolding returns
returns_write p q entity = refl

returns_two :
    (p entity entity' : ℕ) (calls : Calls)
    → returns p ((calls ++ (return_call entity p ∷ [])) ++ (return_call entity' p ∷ []))
      ≡ 2 + returns p calls
returns_two p entity entity' calls = omega (
  arith,
  returns-append p (calls ++ (return_call entity p ∷ [])) (return_call entity' p ∷ []),
  returns-append p calls (return_call entity p ∷ []),
  returns_one p entity,
  returns_one p entity',
)

returns_around :
    (p entity : ℕ) (calls : Calls)
    → returns p (
        ((calls ++ (return_call entity p ∷ [])) ++ (write_call entity p ∷ []))
        ++ (return_call entity p ∷ []))
      ≡ 2 + returns p calls
returns_around p entity calls =
    let first = calls ++ (return_call entity p ∷ []) in
    omega (
      arith,
      returns-append p (first ++ (write_call entity p ∷ [])) (return_call entity p ∷ []),
      returns-append p first (write_call entity p ∷ []),
      returns-append p calls (return_call entity p ∷ []),
      returns_one p entity,
      returns_write p p entity,
    )

-- What the C library answers to a call, after the calls so far.
module _ (answer : Calls → Call → ReturnCode) where
  -- The call for a loan that is returned, and what it answers.
  unfoldable pub return_inner : LoanedInner → Calls → ReturnCode × Calls
  return_inner (uninitialized p entity) calls =
      (answer calls (return_call entity p), calls ++ (return_call entity p ∷ []))
  return_inner (initialized p entity) calls =
      (answer calls (write_call entity p), calls ++ (write_call entity p ∷ []))
  return_inner empty calls = (succeeded, calls)

  -- The buffer that is taken is dropped at the end.
  unfoldable pub return_loan : LoanedInner → Calls → Result (Unit {0}) × Calls
  return_loan loaned calls =
      let r = return_inner loaned calls in (zero_or_err r.0, drop_loaned loaned r.1)

  -- The pointer that the C library sets is not null when it answers 0; otherwise it panics, which
  -- is nothing.
  abbrev pub loaned_of : ReturnCode → Option ℕ → ℕ → Option (Result LoanedInner)
  loaned_of (negative n) p entity = some (err (from_code (negative n)))
  loaned_of (non_negative n) none entity =
      if n == 0 then none else some (err (from_code (non_negative n)))
  loaned_of (non_negative n) (some p) entity =
      some (if n == 0 then ok (uninitialized p entity) else err (from_code (non_negative n)))

  unfoldable pub loan : Option ℕ → ℕ → Calls → Option (Result LoanedInner) × Calls
  loan p entity calls =
      (loaned_of (answer calls (loan_call entity)) p entity, calls ++ (loan_call entity ∷ []))

  abbrev pub publish_marked : LoanedInner → Calls → Result (Unit {0}) × Calls
  publish_marked loaned calls =
      let filled = assume_init loaned calls in return_loan filled.0 filled.1

  -- A sample is lent, filled and marked, and the loan is returned, as the types prescribe. The
  -- pointer that the C library has lent is `p`.
  abbrev pub publish : ℕ → ℕ → Calls → Result (Unit {0}) × Calls
  publish p entity calls =
      let filled = assume_init (uninitialized p entity) calls in return_loan filled.0 filled.1

  -- Whatever the C library answers, a sample that is lent, marked as filled and handed to
  -- `return_loan` is returned to the C library before it is written, and once more after that: the
  -- value that `assume_init` consumes is dropped, although its pointer lives on.
  pub publish_returns_first :
      (p entity : ℕ) (calls : Calls)
      → (publish p entity calls).1
        ≡ ((calls ++ (return_call entity p ∷ [])) ++ (write_call entity p ∷ []))
          ++ (return_call entity p ∷ [])
  unfolding assume_init return_loan return_inner drop_loaned
  publish_returns_first p entity calls = refl

  publish_twice :
      (p : ℕ) (loaned : LoanedInner) (calls : Calls)
      → as_mut_ptr loaned ≡ some p
      → returns p (publish_marked loaned calls).1 ≡ 2 + returns p calls
  unfolding as_mut_ptr assume_init return_loan return_inner drop_loaned
  publish_twice p (uninitialized q entity) calls h =
      rw⁻¹ (some-injective h) (returns_around q entity calls)
  publish_twice p (initialized q entity) calls h =
      rw⁻¹ (some-injective h) (returns_around q entity calls)
  publish_twice p empty calls h = absurd (none-some h)

  -- Whatever the C library answers, a loan is returned to it twice: if it is marked as filled and
  -- then handed to `return_loan`, once by the drop in `assume_init` and once by that of the buffer,
  -- and if it is handed over unfilled, once by the call for it and once by the drop of the buffer.
  pub returned_twice :
      (p entity : ℕ) (loaned : LoanedInner) (calls : Calls)
      → as_mut_ptr loaned ≡ some p
      → (returns p (publish_marked loaned calls).1 ≡ 2 + returns p calls)
        × (returns p (return_loan (uninitialized p entity) calls).1 ≡ 2 + returns p calls)
  unfolding return_loan return_inner drop_loaned
  returned_twice p entity loaned calls h =
      (publish_twice p loaned calls h, returns_two p entity entity calls)
