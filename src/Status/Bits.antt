-- ===== src/Status/Bits.antt =====
-- cyclonedds/src/dds_api.rs: a bit is set just when it has been set.
use cyclonedds_rs.Common.{
  ℕ, zero, suc, ◌+◌, ◌*◌, ◌/◌, ◌%◌, ◌≤◌, ◌<◌, ◌≡◌, refl, ap, ◌∙◌, some, Bool, true, false, not,
  ◌||◌, ◌==◌, lt→ltb, if◌then◌else◌, arith,
}
use Prim.Native.Nat.{max}
use cyclonedds_rs.Status.{u32_bits, bit_or, bit_and, one_shifted, default, set, is_set}

-- The bit of a number at an index.
bit : ℕ → ℕ → ℕ
bit n zero = n % 2
bit n (suc i) = bit (n / 2) i

bit-or : (width a b i : ℕ) → i < width → bit (bit_or width a b) i ≡ max (bit a i) (bit b i)
unfolding bit bit_or
bit-or zero a b i h = absurd (omega arith)
bit-or (suc width) a b zero h = omega arith
bit-or (suc width) a b (suc i) h =
    let e : (max (a % 2) (b % 2) + 2 * bit_or width (a / 2) (b / 2)) / 2
        ≡ bit_or width (a / 2) (b / 2) =
      omega arith in
    rw e (bit-or width (a / 2) (b / 2) i (omega arith))

bit_and-zero : (width b : ℕ) → bit_and width 0 b ≡ 0
unfolding bit_and
bit_and-zero zero b = refl
bit_and-zero (suc width) b = omega (arith, bit_and-zero width (b / 2))

-- Under the mask of one bit, that bit is left.
bit_and-one_shifted :
    (width i b : ℕ) → i < width → bit_and width (one_shifted i) b ≡ one_shifted i * bit b i
unfolding bit bit_and one_shifted
bit_and-one_shifted zero i b h = absurd (omega arith)
bit_and-one_shifted (suc width) zero b h = omega (arith, bit_and-zero width (b / 2))
bit_and-one_shifted (suc width) (suc i) b h =
    let e : 2 * one_shifted i / 2 ≡ one_shifted i = omega arith in
    rw e (grind (arith, bit_and-one_shifted width i (b / 2)))

bit-zero : (j : ℕ) → bit 0 j ≡ 0
unfolding bit
bit-zero zero = refl
bit-zero (suc j) = bit-zero j

bit-le : (n j : ℕ) → bit n j ≤ 1
unfolding bit
bit-le n zero = omega arith
bit-le n (suc j) = bit-le (n / 2) j

one_shifted_pos : (i : ℕ) → 1 ≤ one_shifted i
unfolding one_shifted
one_shifted_pos zero = omega arith
one_shifted_pos (suc i) = omega (arith, one_shifted_pos i)

bit-one_shifted : (i j : ℕ) → bit (one_shifted i) j ≡ (if i == j then 1 else 0)
unfolding bit one_shifted
bit-one_shifted zero zero = refl
bit-one_shifted zero (suc j) = ground (arith, bit-zero j)
bit-one_shifted (suc i) zero = ground arith
bit-one_shifted (suc i) (suc j) =
    let e : 2 * one_shifted i / 2 ≡ one_shifted i = omega arith in
    rw e (ground (arith, bit-one_shifted i j))

product-zero : (a b : ℕ) → 1 ≤ a → b ≤ 1 → (a * b == 0) ≡ (b == 0)
product-zero a zero h l = ground arith
product-zero a (suc zero) h l = ground arith
product-zero a (suc (suc b)) h l = absurd (omega arith)

is_set-bit : (status j : ℕ) → j < u32_bits → is_set status j ≡ some (not (bit status j == 0))
unfolding is_set
is_set-bit status j h =
    rw (lt→ltb j u32_bits h, bit_and-one_shifted u32_bits j status h)
      (ap (λ b. some (not b))
        (product-zero (one_shifted j) (bit status j) (one_shifted_pos j) (bit-le status j)))

max-test : (a : ℕ) (b : Bool) → (not (max a (if b then 1 else 0) == 0)) ≡ (b || not (a == 0))
max-test a true = ground arith
max-test a false = ground arith

-- For two ids below 32: `set` gives a status in which `is_set` finds the id that was set, and finds the
-- other just when it is the same or was set before; in the default status it finds none.
pub set-is_set :
    (status i j : ℕ)
    → i < u32_bits
    → j < u32_bits
    → (before : Bool) × (after : ℕ) × (is_set status j ≡ some before)
      × (set status i ≡ some after)
      × (is_set after j ≡ some (i == j || before))
      × (is_set default j ≡ some false)
unfolding set
set-is_set status i j h k = (
  not (bit status j == 0),
  bit_or u32_bits status (one_shifted i),
  is_set-bit status j k,
  rw (lt→ltb i u32_bits h) refl,
  is_set-bit (bit_or u32_bits status (one_shifted i)) j k
      ∙ ap (λ n. some (not (n == 0)))
          (bit-or u32_bits status (one_shifted i) j k
            ∙ ap (max (bit status j)) (bit-one_shifted i j))
      ∙ ap some (max-test (bit status j) (i == j)),
  is_set-bit 0 j k ∙ ap (λ n. some (not (n == 0))) (bit-zero j),
)
