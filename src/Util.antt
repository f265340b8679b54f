-- ===== src/Util.antt =====
-- cyclonedds/src/util.rs: the reader over a list of scatter gather buffers, and `read_exact` of
-- `std::io::Read`, through which `into_vec` drives it. A byte is a number.
pub mod Reading
pub mod IntoVec
mod Examples
use cyclonedds_rs.Common.{
  ℕ, zero, suc, ◌+◌, ◌-◌, List, [], ◌∷◌, ◌++◌, Option, none, some, length, get_elem?, take, drop,
  leb, ltb, ◌==◌, if◌then◌else◌,
}
use Prim.Native.Nat.{min}

pub record SgReader : Type 0 where
  pub sc_list : Option (List (List ℕ))
  pub slice_cursor : ℕ
  pub slice_offset : ℕ

unfoldable pub new : List (List ℕ) → SgReader
new sc_list = record { sc_list = some sc_list; slice_cursor = 0; slice_offset = 0 }

-- The slice is used up: the cursor moves on, and past the last slice the list is dropped.
next_slice : SgReader → List (List ℕ) → SgReader
next_slice r sc_list = record {
  sc_list = if leb (length sc_list) (r.slice_cursor + 1) then none else some sc_list;
  slice_cursor = r.slice_cursor + 1;
  slice_offset = 0;
}

-- One `read` from the slice under the cursor: the bytes copied, and the reader after it.
read_slice : SgReader → List (List ℕ) → List ℕ → ℕ → List ℕ × SgReader
unfolding next_slice
read_slice r sc_list source_slice read_buf_len =
    let source_slice_rem = length source_slice - r.slice_offset in
    let copy_length = min source_slice_rem read_buf_len in
    (
      take copy_length (drop r.slice_offset source_slice),
      (if copy_length == source_slice_rem
          then next_slice r sc_list
          else record r { slice_offset = r.slice_offset + copy_length }),
    )

-- `Read::read` into a buffer of `read_buf_len` bytes. It never fails.
unfoldable pub read : SgReader → ℕ → List ℕ × SgReader
unfolding read_slice
read r read_buf_len = elim r.sc_list [
  | none ↦ ([], r)
  | some sc_list ↦ elim (get_elem? sc_list r.slice_cursor) [
    | none ↦ ([], record r { sc_list = none })
    | some source_slice ↦ read_slice r sc_list source_slice read_buf_len
  ]
]

pub data IoResult : Type 0 where
  ok : List ℕ → IoResult
  unexpected_eof : IoResult

abbrev prepend : List ℕ → Option IoResult → Option IoResult
prepend bytes none = none
prepend bytes (some unexpected_eof) = some unexpected_eof
prepend bytes (some (ok rest)) = some (ok (bytes ++ rest))

-- `read_exact` of the standard library: read until the buffer is full, and stop at a read of
-- nothing. One unit of fuel for each read; `none` means that the fuel ran out.
read_exact : ℕ → SgReader → ℕ → Option IoResult
read_exact zero r n = none
read_exact (suc fuel) r zero = some (ok [])
read_exact (suc fuel) r (suc n) = elim (read r (suc n)).0 [
  | [] ↦ some unexpected_eof
  | b ∷ bs ↦ prepend (b ∷ bs) (read_exact fuel (read r (suc n)).1 (suc n - length (b ∷ bs)))
]

-- Each read but the last delivers a byte, so `size + 1` units of fuel are enough.
unfoldable pub into_vec : SgReader → ℕ → Option IoResult
unfolding read_exact
into_vec r size = read_exact (suc size) r size
