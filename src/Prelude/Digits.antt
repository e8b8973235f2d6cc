-- ===== src/Prelude/Digits.antt =====
-- The binary digits of a number, and what the operations on them do to one digit.
use Prim.Native.Nat.{
  ℕ, zero, suc, ◌+◌, ◌-◌, ◌*◌, ◌/◌, ◌%◌, ◌^◌, ◌≤◌, ◌<◌, min, max, bit_and, bit_or, digits,
  bit_and-bitwise, bit_or-bitwise,
}
use mathlib.Core.Path.{◌≡◌, refl, ap, ◌∙◌}
use mathlib.Core.Logic.{◌≢◌}
use native.Mathlib.Omega.{arith}

-- The digit at a place, the lowest at 0.
abbrev pub digit : ℕ → ℕ → ℕ
digit zero n = n % 2
digit (suc i) n = digit i (n / 2)

pub digit_zero : (i : ℕ) → digit i 0 ≡ 0
digit_zero zero = refl
digit_zero (suc i) = digit_zero i

pub digit_le : (i n : ℕ) → digit i n ≤ 1
digit_le zero n = omega arith
digit_le (suc i) n = digit_le i (n / 2)

digit-suc : (i x d : ℕ) → d < 2 → digit (suc i) (x * 2 + d) ≡ digit i x
digit-suc i x d h = ap (digit i) (omega (arith, h))

and_digits :
    (i n a b : ℕ) → a ≤ n → digit i (digits (λ c. 0) min n a b) ≡ min (digit i a) (digit i b)
and_digits i zero zero b l = omega (arith, digit_zero i)
and_digits i zero (suc a) b l = absurd (omega (arith, l))
and_digits i (suc n) zero b l = omega (arith, digit_zero i)
and_digits zero (suc n) (suc a) b l = omega arith
and_digits (suc i) (suc n) (suc a) b l =
    digit-suc i (digits (λ c. 0) min n (suc a / 2) (b / 2)) (min (suc a % 2) (b % 2)) (omega arith)
    ∙ and_digits i n (suc a / 2) (b / 2) (omega (arith, l))

or_digits :
    (i n a b : ℕ) → a ≤ n → digit i (digits (λ c. c) max n a b) ≡ max (digit i a) (digit i b)
or_digits i zero zero b l = omega (arith, digit_zero i)
or_digits i zero (suc a) b l = absurd (omega (arith, l))
or_digits i (suc n) zero b l = omega (arith, digit_zero i)
or_digits zero (suc n) (suc a) b l = omega arith
or_digits (suc i) (suc n) (suc a) b l =
    digit-suc i (digits (λ c. c) max n (suc a / 2) (b / 2)) (max (suc a % 2) (b % 2)) (omega arith)
    ∙ or_digits i n (suc a / 2) (b / 2) (omega (arith, l))

pub digit-bit_and : (i a b : ℕ) → digit i (bit_and a b) ≡ min (digit i a) (digit i b)
digit-bit_and i a b = ap (digit i) (bit_and-bitwise a b) ∙ and_digits i a a b (omega arith)

pub digit-bit_or : (i a b : ℕ) → digit i (bit_or a b) ≡ max (digit i a) (digit i b)
digit-bit_or i a b = ap (digit i) (bit_or-bitwise a b) ∙ or_digits i a a b (omega arith)

-- The complement in a word of `k` digits.
pub digit-complement : (i k b : ℕ) → i < k → b < 2 ^ k → digit i (2 ^ k - 1 - b) ≡ 1 - digit i b
digit-complement i zero b l h = absurd (omega (arith, l))
digit-complement zero (suc k) b l h = omega (arith, h)
digit-complement (suc i) (suc k) b l h =
    ap (digit i) half ∙ digit-complement i k (b / 2) (omega (arith, l)) (omega (arith, h))
  where
    half : (2 ^ suc k - 1 - b) / 2 ≡ 2 ^ k - 1 - b / 2
    half = omega (arith, h)

pub digit-power_self : (i : ℕ) → digit i (2 ^ i) ≡ 1
digit-power_self zero = refl
digit-power_self (suc i) = ap (digit i) half ∙ digit-power_self i
  where
    half : 2 ^ suc i / 2 ≡ 2 ^ i
    half = omega arith

-- A power of two has no other digit.
pub digit-power : (i j : ℕ) → i ≢ j → digit i (2 ^ j) ≡ 0
digit-power zero zero n = absurd (n refl)
digit-power (suc i) zero n = digit_zero i
digit-power zero (suc j) n = omega arith
digit-power (suc i) (suc j) n = ap (digit i) half ∙ digit-power i j (λ e. n (ap suc e))
  where
    half : 2 ^ suc j / 2 ≡ 2 ^ j
    half = omega arith

-- Numbers with the same digits are the same.
digits_same : (n a b : ℕ) → a ≤ n → b ≤ n → ((i : ℕ) → digit i a ≡ digit i b) → a ≡ b
digits_same zero a b l m h = omega (arith, l, m)
digits_same (suc n) a b l m h =
    let halves : a / 2 ≡ b / 2 =
      digits_same n (a / 2) (b / 2) (omega (arith, l)) (omega (arith, m)) (λ i. h (suc i)) in
    omega (arith, halves, h 0)

pub digits-injective : (a b : ℕ) → ((i : ℕ) → digit i a ≡ digit i b) → a ≡ b
digits-injective a b h = digits_same (a + b) a b (omega arith) (omega arith) h
