-- ===== src/Bench/Boundary.antt =====
-- bench/src/lib.rs: the search for the payload whose serialized size stands next to a boundary. The
-- loops are on fuel, and `none` means that it ran out; `size_of` is the length of the serialized
-- message with a payload of that many bytes, `none` where the codec fails.
pub mod Laws
use cyclonedds_rs.Common.{
  ℕ, zero, suc, ◌+◌, ◌-◌, ◌*◌, ◌/◌, ◌%◌, Option, none, some, Bool, true, false, leb, ltb, ◌==◌,
  ◌&&◌, if◌then◌else◌, Checked, accepted, rejected,
}
use cyclonedds_rs.Bench.{
  BenchError, codec_failed, boundary_overflow, no_value_below, aligned_overflow, BoundaryRelation,
  below, above, PayloadDefinition, fixed, wire_boundary, BenchmarkCase, ResolvedCase, usize_mod,
}

abbrev pub Run : Type 0
Run = Option (Checked BenchError ℕ)

-- The operator `?` on a run.
abbrev pub then_run {ℓ} :
    {A : Type ℓ} → Run → (ℕ → Option (Checked BenchError A)) → Option (Checked BenchError A)
then_run none next = none
then_run (some (accepted n)) next = next n
then_run (some (rejected e)) next = some (rejected e)

abbrev pub middle : ℕ → ℕ → ℕ
middle low high = low + (high - low) / 2

-- `above == (serialized_bytes > wire_bytes)`.
abbrev pub on_side : BoundaryRelation → ℕ → ℕ → Bool
on_side above size wire_bytes = ltb wire_bytes size
on_side below size wire_bytes = leb size wire_bytes

-- `wire_bytes.max(1)`.
abbrev pub at_least_one : ℕ → ℕ
at_least_one zero = 1
at_least_one (suc n) = suc n

module _ (size_of : ℕ → Option ℕ) where
  -- `while size_at(high)? <= wire_bytes { high *= 2 }`.
  unfoldable pub raise : ℕ → ℕ → ℕ → Run
  raise zero wire_bytes high = none
  raise (suc fuel) wire_bytes high =
      let again = raise fuel wire_bytes (high * 2) in
      elim (size_of high) [
        | none ↦ some (rejected codec_failed)
        | some size ↦
            if leb size wire_bytes
            then (if ltb (high * 2) usize_mod then again else some (rejected boundary_overflow))
            else some (accepted high)
      ]

  -- `while low < high`.
  unfoldable pub bisect : ℕ → ℕ → ℕ → ℕ → Run
  bisect zero wire_bytes low high = none
  bisect (suc fuel) wire_bytes low high =
      let upper = bisect fuel wire_bytes (middle low high + 1) high in
      let lower = bisect fuel wire_bytes low (middle low high) in
      if ltb low high
      then elim (size_of (middle low high)) [
        | none ↦ some (rejected codec_failed)
        | some size ↦ if leb size wire_bytes then upper else lower
      ]
      else some (accepted low)

  unfoldable pub aligned_boundary_payload : ℕ → BoundaryRelation → ℕ → ℕ → Run
  aligned_boundary_payload zero relation wire_bytes payload_bytes = none
  aligned_boundary_payload (suc fuel) above wire_bytes payload_bytes =
      let next = aligned_boundary_payload fuel above wire_bytes (payload_bytes + 1) in
      elim (size_of payload_bytes) [
        | none ↦ some (rejected codec_failed)
        | some size ↦
            if (size % 4 == 0) && on_side above size wire_bytes
            then some (accepted payload_bytes)
            else (if ltb (payload_bytes + 1) usize_mod
                then next
                else some (rejected aligned_overflow))
      ]
  aligned_boundary_payload (suc fuel) below wire_bytes payload_bytes =
      let next = aligned_boundary_payload fuel below wire_bytes (payload_bytes - 1) in
      elim (size_of payload_bytes) [
        | none ↦ some (rejected codec_failed)
        | some size ↦
            if (size % 4 == 0) && on_side below size wire_bytes
            then some (accepted payload_bytes)
            else (if payload_bytes == 0 then some (rejected aligned_overflow) else next)
      ]

  unfoldable pub from_first_above : ℕ → BoundaryRelation → ℕ → ℕ → Run
  from_first_above fuel above wire_bytes first_above =
      aligned_boundary_payload fuel above wire_bytes first_above
  from_first_above fuel below wire_bytes first_above =
      if first_above == 0
      then some (rejected no_value_below)
      else aligned_boundary_payload fuel below wire_bytes (first_above - 1)

  unfoldable pub find_boundary_payload : ℕ → BoundaryRelation → ℕ → Run
  find_boundary_payload fuel relation wire_bytes =
      then_run (raise fuel wire_bytes (at_least_one wire_bytes)) (λ high.
        then_run (bisect fuel wire_bytes 0 high)
          (λ first_above. from_first_above fuel relation wire_bytes first_above))

  unfoldable pub payload_bytes_of : ℕ → PayloadDefinition → Run
  payload_bytes_of fuel (fixed bytes) = some (accepted bytes)
  payload_bytes_of fuel (wire_boundary relation wire_bytes) =
      find_boundary_payload fuel relation wire_bytes

  unfoldable pub resolved_with : BenchmarkCase → ℕ → Option ℕ → Checked BenchError ResolvedCase
  resolved_with c bytes none = rejected codec_failed
  resolved_with c bytes (some size) =
      accepted (record { definition = c; payload_bytes = bytes; serialized_bytes = size })

  unfoldable pub resolve : ℕ → BenchmarkCase → Option (Checked BenchError ResolvedCase)
  unfolding payload_bytes_of resolved_with
  resolve fuel c =
      then_run (payload_bytes_of fuel c.payload)
        (λ bytes. some (resolved_with c bytes (size_of bytes)))
