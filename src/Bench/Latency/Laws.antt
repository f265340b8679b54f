-- ===== src/Bench/Latency/Laws.antt =====
-- bench/src/lib.rs, `percentile` and `latency_summary`: the ranks of the percentiles, and the bounds of
-- the summary.
use cyclonedds_rs.Common.{
  ℕ, zero, suc, ◌+◌, ◌-◌, ◌*◌, ◌/◌, ◌%◌, ◌≤◌, ◌<◌, ◌≡◌, refl, ap, ◌∙◌, some, List, [], ◌∷◌, leb,
  ltb, length, get_elem?, arith,
}
use native.Mathlib.Nat.{le-div_iff_mul-le, div-le_of_le-mul, mul_comm}
use cyclonedds_rs.Bench.Latency.{
  LatencySummary, u64_mod, insert, sort_unstable, sum, percentile, last, summary_of,
  latency_summary, and_summary,
}
use cyclonedds_rs.Bench.Latency.Sorting.{
  AllAbove, AllBelow, IsSorted, count, sort-IsSorted, length-sort, count-sort, AllAbove-get,
  rank_bounds, get-in_range,
}

get_mono :
    (i j a b : ℕ) (xs : List ℕ)
    → IsSorted xs
    → i ≤ j
    → get_elem? xs i ≡ some a
    → get_elem? xs j ≡ some b
    → a ≤ b
get_mono i j a b [] s h e f = absurd (cc)
get_mono zero zero a b (x ∷ xs) s h e f = ground arith
get_mono zero (suc j) a b (x ∷ xs) s h e f = ground (arith, AllAbove-get x j b xs)
get_mono (suc i) zero a b (x ∷ xs) s h e f = absurd (omega arith)
get_mono (suc i) (suc j) a b (x ∷ xs) s h e f = get_mono i j a b xs s.1 (omega arith) e f

-- The index of a percentile.
abbrev index : ℕ → ℕ → ℕ
index n p = ((n - 1) * p + 99) / 100

index_in_range : (n p : ℕ) → 0 < n → p ≤ 100 → index n p < n
index_in_range zero p h b = elim h [ ]
index_in_range (suc n) p h b = grind arith

index_mono : (n p r : ℕ) → p ≤ r → index n p ≤ index n r
index_mono n p r h = grind arith

percentile_lem :
    (xs : List ℕ) (p : ℕ) → 0 < length xs → percentile xs p ≡ get_elem? xs (index (length xs) p)
unfolding percentile
percentile_lem [] p h = absurd (omega arith)
percentile_lem (x ∷ xs) p h = ap (λ n. get_elem? (x ∷ xs) ((n * p + 99) / 100)) (omega arith)

last_lem : (x : ℕ) (xs : List ℕ) → last (x ∷ xs) ≡ get_elem? (x ∷ xs) (length xs)
unfolding last
last_lem x [] = refl
last_lem x (y ∷ ys) = last_lem y ys

below_last :
    (b x : ℕ) (xs : List ℕ)
    → IsSorted (x ∷ xs)
    → get_elem? (x ∷ xs) (length xs) ≡ some b
    → AllBelow b (x ∷ xs)
below_last b x [] s e = ground arith
below_last b x (y ∷ ys) s e = let rest = below_last b y ys s.1 e in (omega arith, rest)

sum_bounds :
    (a b : ℕ) (xs : List ℕ)
    → AllAbove a xs
    → AllBelow b xs
    → (a * length xs ≤ sum xs) × (sum xs ≤ b * length xs)
unfolding sum
sum_bounds a b [] h k = (omega arith, omega arith)
sum_bounds a b (x ∷ xs) h k = grind (arith, sum_bounds a b xs h.1 k.1)

rank_le : (n p c : ℕ) → 0 < n → p ≤ 100 → suc (index n p) ≤ c → p * n ≤ 100 * c
rank_le zero p c h b r = elim h [ ]
rank_le (suc n) p c h b r = grind arith

rank_lt : (n p c : ℕ) → c ≤ index n p → 100 * c ≤ p * (n - 1) + 99
rank_lt n p c r = grind arith

-- A percentile of a list that is not empty is found.
percentile_found :
    (xs : List ℕ) (n p : ℕ)
    → length xs ≡ n
    → 0 < n
    → p ≤ 100
    → (q : ℕ) × (percentile xs p ≡ some q) × (get_elem? xs (index n p) ≡ some q)
percentile_found xs n p l h b =
    let (q, e) = get-in_range (index n p) xs (omega (arith, index_in_range n p h b)) in
    (q, percentile_lem xs p (omega arith) ∙ ap (λ k. get_elem? xs (index k p)) l ∙ e, e)

-- Of a list that is not empty, and for p of 100 at most, `percentile` of the sorted list is a value
-- that at least p percent of the values do not exceed, and below which p percent of the others lie
-- at most, rounded up.
pub percentile_rank :
    (values : List ℕ) (p : ℕ)
    → 0 < length values
    → p ≤ 100
    → (q : ℕ) × (percentile (sort_unstable values) p ≡ some q)
      × (p * length values ≤ 100 * count (λ x. leb x q) values)
      × (100 * count (λ x. ltb x q) values ≤ p * (length values - 1) + 99)
percentile_rank values p h b =
    let (q, e, g) =
      percentile_found (sort_unstable values) (length values) p (length-sort values) h b in
    let (le, lt) =
      rank_bounds (index (length values) p) q (sort_unstable values) (sort-IsSorted values) g in
    (
      q,
      e,
      rank_le (length values) p _ h b (rw (← count-sort (λ x. leb x q) values) le),
      rank_lt (length values) p _ (rw (← count-sort (λ x. ltb x q) values) lt),
    )

AllAbove-of_insert : (m v : ℕ) (xs : List ℕ) → AllAbove m (insert v xs) → AllAbove m (v ∷ xs)
unfolding insert
AllAbove-of_insert m v [] a = a
AllAbove-of_insert m v (x ∷ xs) a = ground (arith, AllAbove-of_insert m v xs)

AllBelow-of_insert : (m v : ℕ) (xs : List ℕ) → AllBelow m (insert v xs) → AllBelow m (v ∷ xs)
unfolding insert
AllBelow-of_insert m v [] a = a
AllBelow-of_insert m v (x ∷ xs) a = ground (arith, AllBelow-of_insert m v xs)

All-of_sort :
    (m k : ℕ) (xs : List ℕ)
    → AllAbove m (sort_unstable xs)
    → AllBelow k (sort_unstable xs)
    → AllAbove m xs × AllBelow k xs
unfolding sort_unstable
All-of_sort m k [] a b = (tt, tt)
All-of_sort m k (x ∷ xs) a b =
    let above = AllAbove-of_insert m x (sort_unstable xs) a in
    let below = AllBelow-of_insert k x (sort_unstable xs) b in
    let (rest, rest') = All-of_sort m k xs above.1 below.1 in ((above.0, rest), (below.0, rest'))

-- What a summary tells of the values: how many they are, bounds on all of them, and the order of the
-- figures.
abbrev pub Summarizes : LatencySummary → List ℕ → Type 0
Summarizes s values =
    (s.count ≡ length values)
    × (AllAbove s.min_ns values × AllBelow s.max_ns values)
    × ((s.min_ns ≤ s.p50_ns)
        × (s.p50_ns ≤ s.p95_ns)
        × (s.p95_ns ≤ s.p99_ns)
        × (s.p99_ns ≤ s.max_ns))
    × ((s.min_ns ≤ s.mean_ns) × (s.mean_ns ≤ s.max_ns))

mean_bounds :
    (a b n t : ℕ)
    → 0 < n
    → b < u64_mod
    → a * n ≤ t
    → t ≤ b * n
    → (a ≤ t / n % u64_mod) × (t / n % u64_mod ≤ b)
mean_bounds a b n t h u l r =
    let low = (le-div_iff_mul-le h).1 l in
    let high : t / n ≤ b = div-le_of_le-mul n (omega (arith, r, mul_comm n b)) in
    (omega arith, omega arith)

AllBelow-insert : (m v : ℕ) (xs : List ℕ) → v ≤ m → AllBelow m xs → AllBelow m (insert v xs)
unfolding insert
AllBelow-insert m v [] h b = (h, tt)
AllBelow-insert m v (x ∷ xs) h b = ground (arith, AllBelow-insert m v xs)

AllBelow-sort : (m : ℕ) (xs : List ℕ) → AllBelow m xs → AllBelow m (sort_unstable xs)
unfolding sort_unstable
AllBelow-sort m [] b = tt
AllBelow-sort m (x ∷ xs) b = AllBelow-insert m x (sort_unstable xs) b.0 (AllBelow-sort m xs b.1)

AllBelow-get : (m i q : ℕ) (xs : List ℕ) → AllBelow m xs → get_elem? xs i ≡ some q → q ≤ m
AllBelow-get m i q [] b e = absurd (cc)
AllBelow-get m zero q (x ∷ xs) b e = ground arith
AllBelow-get m (suc i) q (x ∷ xs) b e = AllBelow-get m i q xs b.1 e

-- The summary of a sorted list that is not empty.
summary_of-Summarizes :
    (x : ℕ) (xs : List ℕ)
    → IsSorted (x ∷ xs)
    → AllBelow (u64_mod - 1) (x ∷ xs)
    → (s : LatencySummary) × (summary_of (x ∷ xs) ≡ some s) × Summarizes s (x ∷ xs)
unfolding summary_of
summary_of-Summarizes x xs s small =
    let n = length (x ∷ xs) in
    let (q50, e50, g50) = percentile_found (x ∷ xs) n 50 refl (omega arith) (omega arith) in
    let (q95, e95, g95) = percentile_found (x ∷ xs) n 95 refl (omega arith) (omega arith) in
    let (q99, e99, g99) = percentile_found (x ∷ xs) n 99 refl (omega arith) (omega arith) in
    let (largest, g) = get-in_range (length xs) (x ∷ xs) (omega arith) in
    let bounded = below_last largest x xs s g in
    let lowest : AllAbove x (x ∷ xs) = (omega arith, s.0) in
    let sums = sum_bounds x largest (x ∷ xs) lowest bounded in
    let high = AllBelow-get (u64_mod - 1) (length xs) largest (x ∷ xs) small g in
    (
      record {
        count = n;
        min_ns = x;
        mean_ns = sum (x ∷ xs) / n % u64_mod;
        p50_ns = q50;
        p95_ns = q95;
        p99_ns = q99;
        max_ns = largest;
      },
      rw (e50, e95, e99, last_lem x xs, g) refl,
      (
        refl,
        (lowest, bounded),
        (
          AllAbove-get x _ q50 (x ∷ xs) lowest g50,
          get_mono (index n 50) (index n 95) q50 q95 (x ∷ xs) s (index_mono n 50 95 (omega arith))
              g50 g95,
          get_mono (index n 95) (index n 99) q95 q99 (x ∷ xs) s (index_mono n 95 99 (omega arith))
              g95 g99,
          AllBelow-get largest _ q99 (x ∷ xs) bounded g99,
        ),
        mean_bounds x largest n (sum (x ∷ xs)) (omega arith) (omega arith) sums.0 sums.1,
      ),
    )

-- The same for a list that is only known to be sorted and not empty.
summarized :
    (ys : List ℕ)
    → IsSorted ys
    → 0 < length ys
    → AllBelow (u64_mod - 1) ys
    → (s : LatencySummary) × (and_summary (summary_of ys) ≡ some (some s)) × Summarizes s ys
summarized [] s h small = absurd (omega arith)
summarized (x ∷ xs) s h small =
    let (summary, e, facts) = summary_of-Summarizes x xs s small in (summary, rw e refl, facts)

-- `latency_summary` of latencies below 2^64, one at least, does not panic and returns a summary whose
-- count is theirs, with the minimum below and the maximum above all of them, with minimum, 50, 95 and
-- 99 percent and maximum in order, and with the mean between minimum and maximum.
pub latency_summary-Summarizes :
    (v : ℕ) (values : List ℕ)
    → AllBelow (u64_mod - 1) (v ∷ values)
    → (s : LatencySummary) × (latency_summary (v ∷ values) ≡ some (some s))
      × Summarizes s (v ∷ values)
unfolding latency_summary
latency_summary-Summarizes v values small =
    let sorted = sort_unstable (v ∷ values) in
    let same = length-sort (v ∷ values) in
    let (s, e, facts) =
      summarized sorted (sort-IsSorted (v ∷ values)) (omega (arith, length-sort (v ∷ values)))
        (AllBelow-sort (u64_mod - 1) (v ∷ values) small) in
    let (above, below) = All-of_sort s.min_ns s.max_ns (v ∷ values) facts.1.0 facts.1.1 in
    (s, e, (facts.0 ∙ same, (above, below), facts.2, facts.3))
