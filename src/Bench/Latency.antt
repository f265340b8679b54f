-- ===== src/Bench/Latency.antt =====
-- bench/src/lib.rs: the percentiles and the summary of the latencies. `none` is a panic, of an index
-- out of range or of a subtraction below 0; `sort_unstable` is an insertion sort here.
pub mod Sorting
pub mod Laws
use cyclonedds_rs.Common.{
  ℕ, zero, suc, ◌+◌, ◌-◌, ◌*◌, ◌/◌, ◌%◌, Option, none, some, Bool, true, false, List, [], ◌∷◌, leb,
  if◌then◌else◌, length, get_elem?,
}

pub record LatencySummary : Type 0 where
  pub count : ℕ
  pub min_ns : ℕ
  pub mean_ns : ℕ
  pub p50_ns : ℕ
  pub p95_ns : ℕ
  pub p99_ns : ℕ
  pub max_ns : ℕ

abbrev pub u64_mod : ℕ
u64_mod = 18446744073709551616

unfoldable pub insert : ℕ → List ℕ → List ℕ
insert v [] = v ∷ []
insert v (x ∷ xs) = if leb v x then v ∷ x ∷ xs else x ∷ insert v xs

unfoldable pub sort_unstable : List ℕ → List ℕ
sort_unstable [] = []
sort_unstable (v ∷ values) = insert v (sort_unstable values)

unfoldable pub sum : List ℕ → ℕ
sum [] = 0
sum (v ∷ values) = v + sum values

-- `((len - 1) * percentile).div_ceil(100)`.
unfoldable pub percentile : List ℕ → ℕ → Option ℕ
percentile [] p = none
percentile (v ∷ values) p = get_elem? (v ∷ values) ((length values * p + 99) / 100)

unfoldable pub last : List ℕ → Option ℕ
last [] = none
last (v ∷ []) = some v
last (v ∷ w ∷ values) = last (w ∷ values)

abbrev pub and_value {ℓ} : {A : Type ℓ} → Option ℕ → (ℕ → Option A) → Option A
and_value none next = none
and_value (some v) next = next v

-- The summary of the values once they are sorted.
unfoldable pub summary_of : List ℕ → Option LatencySummary
unfolding sum percentile last
summary_of values = and_value (get_elem? values 0) (λ smallest.
    and_value (percentile values 50) (λ p50. and_value (percentile values 95) (λ p95.
      and_value (percentile values 99) (λ p99. and_value (last values) (λ largest. some (record {
        count = length values;
        min_ns = smallest;
        mean_ns = sum values / length values % u64_mod;
        p50_ns = p50;
        p95_ns = p95;
        p99_ns = p99;
        max_ns = largest;
      }))))))

abbrev pub and_summary : Option LatencySummary → Option (Option LatencySummary)
and_summary none = none
and_summary (some s) = some (some s)

-- The outer option is a panic, the inner one the result.
unfoldable pub latency_summary : List ℕ → Option (Option LatencySummary)
unfolding sort_unstable summary_of
latency_summary [] = some none
latency_summary (v ∷ values) = and_summary (summary_of (sort_unstable (v ∷ values)))
