-- ===== src/Stats.antt =====
-- cyclonedds/src/stats.rs: the process-wide counters of discarded samples. The two static atomics
-- are the fields of a state that the constructors of serdata pass along; a u64 wraps.
use cyclonedds_rs.Common.{ℕ, ◌+◌, ◌%◌, ◌^◌}

pub data DiscardReason : Type 0 where
  invalid_fragchain_reason : DiscardReason
  cdr_assembly_failed_reason : DiscardReason

pub record DiscardedSamples : Type 0 where
  pub invalid_fragchain : ℕ
  pub cdr_assembly_failed : ℕ

abbrev pub u64 : ℕ → ℕ
u64 n = n % 2 ^ 64

unfoldable pub total : DiscardedSamples → ℕ
total s = u64 (s.invalid_fragchain + s.cdr_assembly_failed)

unfoldable pub count_discarded_sample : DiscardReason → DiscardedSamples → DiscardedSamples
count_discarded_sample invalid_fragchain_reason s = record s {
  invalid_fragchain = u64 (s.invalid_fragchain + 1);
}
count_discarded_sample cdr_assembly_failed_reason s = record s {
  cdr_assembly_failed = u64 (s.cdr_assembly_failed + 1);
}
