-- ===== src/Bench/Latency/Sorting.antt =====
-- bench/src/lib.rs: what `sort_unstable` gives and leaves alone.
use cyclonedds_rs.Common.{
  ℕ, zero, suc, ◌+◌, ◌≤◌, ◌<◌, ◌≡◌, refl, ap, ◌∙◌, some, Bool, List, [], ◌∷◌, leb, ltb,
  if◌then◌else◌, length, get_elem?, arith,
}
use cyclonedds_rs.Bench.Latency.{insert, sort_unstable}

-- Every value is `m` at least.
abbrev pub AllAbove : ℕ → List ℕ → Type 0
AllAbove m [] = Unit
AllAbove m (x ∷ xs) = (m ≤ x) × AllAbove m xs

abbrev pub AllBelow : ℕ → List ℕ → Type 0
AllBelow m [] = Unit
AllBelow m (x ∷ xs) = (x ≤ m) × AllBelow m xs

abbrev pub IsSorted : List ℕ → Type 0
IsSorted [] = Unit
IsSorted (x ∷ xs) = AllAbove x xs × IsSorted xs

-- How many values pass a test.
abbrev pub count : (ℕ → Bool) → List ℕ → ℕ
count test [] = 0
count test (x ∷ xs) = (if test x then 1 else 0) + count test xs

AllAbove-trans : (m k : ℕ) (xs : List ℕ) → m ≤ k → AllAbove k xs → AllAbove m xs
AllAbove-trans m k [] h a = tt
AllAbove-trans m k (x ∷ xs) h a = (omega arith, AllAbove-trans m k xs h a.1)

AllBelow-trans : (m k : ℕ) (xs : List ℕ) → m ≤ k → AllBelow m xs → AllBelow k xs
AllBelow-trans m k [] h a = tt
AllBelow-trans m k (x ∷ xs) h a = (omega arith, AllBelow-trans m k xs h a.1)

AllAbove-insert : (m v : ℕ) (xs : List ℕ) → m ≤ v → AllAbove m xs → AllAbove m (insert v xs)
unfolding insert
AllAbove-insert m v [] h a = (h, tt)
AllAbove-insert m v (x ∷ xs) h a = ground (arith, AllAbove-insert m v xs)

insert-IsSorted : (v : ℕ) (xs : List ℕ) → IsSorted xs → IsSorted (insert v xs)
unfolding insert
insert-IsSorted v [] s = (tt, tt)
insert-IsSorted v (x ∷ xs) s =
    ground (arith, insert-IsSorted v xs, AllAbove-trans v x xs, AllAbove-insert x v xs)

pub sort-IsSorted : (xs : List ℕ) → IsSorted (sort_unstable xs)
unfolding sort_unstable
sort-IsSorted [] = tt
sort-IsSorted (x ∷ xs) = insert-IsSorted x (sort_unstable xs) (sort-IsSorted xs)

-- What sorting leaves alone.
length-insert : (v : ℕ) (xs : List ℕ) → length (insert v xs) ≡ suc (length xs)
unfolding insert
length-insert v [] = refl
length-insert v (x ∷ xs) = ground (arith, length-insert v xs)

pub length-sort : (xs : List ℕ) → length (sort_unstable xs) ≡ length xs
unfolding sort_unstable
length-sort [] = refl
length-sort (x ∷ xs) = length-insert x (sort_unstable xs) ∙ ap suc (length-sort xs)

count-insert :
    (test : ℕ → Bool) (v : ℕ) (xs : List ℕ) → count test (insert v xs) ≡ count test (v ∷ xs)
unfolding insert
count-insert test v [] = refl
count-insert test v (x ∷ xs) = ground (arith, count-insert test v xs)

pub count-sort : (test : ℕ → Bool) (xs : List ℕ) → count test (sort_unstable xs) ≡ count test xs
unfolding sort_unstable
count-sort test [] = refl
count-sort test (x ∷ xs) =
    count-insert test x (sort_unstable xs)
    ∙ ap (λ n. (if test x then 1 else 0) + n) (count-sort test xs)

-- An element of a sorted list has its rank.
pub AllAbove-get : (m i q : ℕ) (xs : List ℕ) → AllAbove m xs → get_elem? xs i ≡ some q → m ≤ q
AllAbove-get m i q [] a e = absurd (cc)
AllAbove-get m zero q (x ∷ xs) a e = ground arith
AllAbove-get m (suc i) q (x ∷ xs) a e = AllAbove-get m i q xs a.1 e

count_none : (q : ℕ) (xs : List ℕ) → AllAbove q xs → count (λ x. ltb x q) xs ≡ 0
count_none q [] a = refl
count_none q (x ∷ xs) a = ground (arith, count_none q xs)

pub rank_bounds :
    (i q : ℕ) (xs : List ℕ)
    → IsSorted xs
    → get_elem? xs i ≡ some q
    → (suc i ≤ count (λ x. leb x q) xs) × (count (λ x. ltb x q) xs ≤ i)
rank_bounds i q [] s e = absurd (cc)
rank_bounds zero q (x ∷ xs) s e = ground (arith, count_none q xs)
rank_bounds (suc i) q (x ∷ xs) s e = ground (arith, rank_bounds i q xs, AllAbove-get x i q xs)

pub get-in_range : (i : ℕ) (xs : List ℕ) → i < length xs → (q : ℕ) × (get_elem? xs i ≡ some q)
get-in_range i [] h = absurd (omega arith)
get-in_range zero (x ∷ xs) h = (x, refl)
get-in_range (suc i) (x ∷ xs) h = get-in_range i xs (omega arith)
