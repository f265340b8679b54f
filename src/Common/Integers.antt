-- ===== src/Common/Integers.antt =====
-- The integers over the native numbers, and the saturating product of an i32 by a number.
use Prim.Native.Nat.{ℕ, zero, suc, ◌-◌, ◌*◌, min}

pub data ℤ : Type 0 where
  pos : ℕ → ℤ
  negsuc : ℕ → ℤ

abbrev pub i32_max : ℕ
i32_max = 2147483647

abbrev pub i64_max : ℕ
i64_max = 9223372036854775807

-- `negsuc n` is the number -1 - n.
abbrev pub saturating_mul : ℤ → ℕ → ℤ
saturating_mul (pos n) k = pos (min (n * k) i32_max)
saturating_mul (negsuc n) zero = pos 0
saturating_mul (negsuc n) (suc k) = negsuc (min (suc n * suc k - 1) i32_max)
