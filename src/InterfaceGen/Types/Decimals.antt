-- ===== src/InterfaceGen/Types/Decimals.antt =====
-- The decimal digits of a number determine it.
use cyclonedds_rs.Common.{
  Text, ℕ, zero, suc, ◌+◌, ◌-◌, ◌*◌, ◌/◌, ◌%◌, ◌≤◌, ◌<◌, ◌≡◌, refl, ap, ◌∙◌, [], ◌∷◌, ◌++◌, ltb,
  ltb→lt, ltb→ge, arith, Bool-cases, inl, inr,
}
use cyclonedds_rs.InterfaceGen.Types.{digits, decimal}

-- The number that decimal digits stand for.
unfoldable pub value_from : ℕ → Text → ℕ
value_from acc [] = acc
value_from acc (c ∷ text) = value_from (acc * 10 + (c - b'0')) text

value_from-append :
    (acc : ℕ) (xs ys : Text) → value_from acc (xs ++ ys) ≡ value_from (value_from acc xs) ys
unfolding value_from
value_from-append acc [] ys = refl
value_from-append acc (c ∷ xs) ys = value_from-append (acc * 10 + (c - b'0')) xs ys

value_from_digit : (acc d : ℕ) → value_from acc ((b'0' + d) ∷ []) ≡ acc * 10 + d
unfolding value_from
value_from_digit acc d = omega arith

digits_value : (fuel n : ℕ) → n < fuel → value_from 0 (digits fuel n) ≡ n
unfolding digits
digits_value zero n h = absurd (omega arith)
digits_value (suc fuel) n h = elim (Bool-cases (ltb n 10)) [
  | inl e ↦ rw (e) (value_from_digit 0 n ∙ omega arith)
  | inr e ↦ rw (e) (
      value_from-append 0 (digits fuel (n / 10)) ((b'0' + n % 10) ∷ [])
      ∙ ap (λ v. value_from v ((b'0' + n % 10) ∷ []))
          (digits_value fuel (n / 10) (let g = ltb→ge n 10 e in omega arith))
      ∙ value_from_digit (n / 10) (n % 10)
      ∙ omega arith)
]

pub decimal_value : (n : ℕ) → value_from 0 (decimal n) ≡ n
unfolding decimal
decimal_value n = digits_value (suc n) n (omega arith)

-- Every character of a number is a digit.
pub data AllDigits : Text → Type 0 where
  no_digits : AllDigits []
  one_digit : (c : ℕ) (text : Text) → b'0' ≤ c → c ≤ b'9' → AllDigits text → AllDigits (c ∷ text)

AllDigits-append : (xs ys : Text) → AllDigits xs → AllDigits ys → AllDigits (xs ++ ys)
AllDigits-append [] ys no_digits b = b
AllDigits-append (c ∷ xs) ys (one_digit _ _ l h a) b =
    one_digit c (xs ++ ys) l h (AllDigits-append xs ys a b)

digits-AllDigits : (fuel n : ℕ) → AllDigits (digits fuel n)
unfolding digits
digits-AllDigits zero n = no_digits
digits-AllDigits (suc fuel) n = elim (Bool-cases (ltb n 10)) [
  | inl e ↦
      rw (e)
        (one_digit (b'0' + n) [] (omega arith) (let l = ltb→lt n 10 e in omega arith) no_digits)
  | inr e ↦ rw (e) (
      AllDigits-append (digits fuel (n / 10)) _ (digits-AllDigits fuel (n / 10))
        (one_digit (b'0' + n % 10) [] (omega arith) (omega arith) no_digits))
]

pub decimal-AllDigits : (n : ℕ) → AllDigits (decimal n)
unfolding decimal
decimal-AllDigits n = digits-AllDigits (suc n) n
