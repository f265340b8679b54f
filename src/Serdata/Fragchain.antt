-- ===== src/Serdata/Fragchain.antt =====
-- cyclonedds/src/serdata.rs: serdata from what the transport received, a chain of fragments
-- (`from_ser`) or a list of buffers (`from_ser_iov`). A fragment is the fields of `ddsi_rdata` that
-- the code reads, with the bytes that its payload pointer leads to; the chain is a list, whose first
-- element the code reads before its loop. `none` is the null pointer.
pub mod Gathering
pub mod Assembly
use cyclonedds_rs.Common.{
  ℕ, zero, suc, ◌+◌, ◌-◌, List, [], ◌∷◌, ◌++◌, Option, none, some, take, drop, leb, ltb, ◌==◌,
  if◌then◌else◌, not, ◌||◌,
}
use cyclonedds_rs.Util.{SgReader, IoResult, ok, unexpected_eof, into_vec}
use cyclonedds_rs.Util
use cyclonedds_rs.Stats.{
  DiscardedSamples, invalid_fragchain_reason, cdr_assembly_failed_reason, count_discarded_sample,
}
use cyclonedds_rs.Serdata.{Kind, SerData, Ddsi, new}

pub record Rdata : Type 0 where
  pub min : ℕ
  pub maxp1 : ℕ
  pub payload : List ℕ

-- `from_raw_parts(payload + frag_offset, n_bytes)`, the bytes of a fragment from `off` on.
abbrev slice_from : ℕ → Rdata → List ℕ
slice_from off f = take (f.maxp1 - off) (drop (off - f.min) f.payload)

-- The loop over the chain: the slices in order, or `none` where the chain is refused.
unfoldable pub gather : ℕ → List (List ℕ) → List Rdata → ℕ → Option (List (List ℕ))
gather off sg_list [] size = some sg_list
gather off sg_list (f ∷ fragchain) size =
    let skipped = gather off sg_list fragchain size in
    let taken = gather f.maxp1 (sg_list ++ slice_from off f ∷ []) fragchain size in
    if ltb off f.min
    then none
    else if ltb off f.maxp1
    then (if ltb size f.maxp1 then none else taken)
    else skipped

module _ {T : Type 0} (ddsi : Ddsi) where
  -- The end of both constructors: the buffers become the CDR, or the sample is discarded.
  assemble : DiscardedSamples → SerData T → Option IoResult → Option (SerData T) × DiscardedSamples
  assemble stats serdata (some (ok cdr)) = (some (record serdata { cdr = some cdr }), stats)
  assemble stats serdata _ = (none, count_discarded_sample cdr_assembly_failed_reason stats)

  from_sg_list :
      DiscardedSamples
      → SerData T
      → Option (List (List ℕ))
      → ℕ
      → Option (SerData T) × DiscardedSamples
  unfolding assemble
  from_sg_list stats serdata none size =
      (none, count_discarded_sample invalid_fragchain_reason stats)
  from_sg_list stats serdata (some sg_list) size =
      assemble stats serdata (into_vec (Util.new sg_list) size)

  pub serdata_from_fragchain :
      DiscardedSamples
      → Option ℕ
      → Kind
      → Rdata
      → List Rdata
      → ℕ
      → Option (SerData T) × DiscardedSamples
  unfolding from_sg_list gather
  serdata_from_fragchain stats sertype kind first rest size =
      if not (first.min == 0) || ltb first.maxp1 0
      then (none, count_discarded_sample invalid_fragchain_reason stats)
      else from_sg_list stats (new ddsi sertype kind) (gather 0 [] (first ∷ rest) size) size

  unfoldable pub serdata_from_ser_iov :
      DiscardedSamples → Option ℕ → Kind → List (List ℕ) → ℕ → Option (SerData T) × DiscardedSamples
  unfolding assemble
  serdata_from_ser_iov stats sertype kind iovs size =
      assemble stats (new ddsi sertype kind) (into_vec (Util.new iovs) size)
