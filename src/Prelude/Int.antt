-- ===== src/Prelude/Int.antt =====
-- Signed integers over the native numbers; `i64` differences wrap.
use Prim.Native.Nat.{ℕ, suc, ◌+◌, ◌-◌, ◌%◌, ◌≤◌, ◌<◌}
use mathlib.Core.Path.{◌≡◌}
use mathlib.Core.Bool.{Bool}
use native.Mathlib.Omega.{arith}
use mooncat.Prelude.Tests.{ltb, leb, if◌then◌else◌, ◌==◌}

-- `negsuc n` is -(n + 1).
pub data ℤ : Type 0 where
  pos : ℕ → ℤ
  negsuc : ℕ → ℤ

abbrev pub pos_part : ℤ → ℕ
pos_part (pos n) = n
pos_part (negsuc n) = 0

abbrev pub neg_part : ℤ → ℕ
neg_part (pos n) = 0
neg_part (negsuc n) = suc n

-- a - b, as an integer.
abbrev pub sub_ℕ : ℕ → ℕ → ℤ
sub_ℕ a b = if leb b a then pos (a - b) else negsuc (b - a - 1)

abbrev pub ltb_ℤ : ℤ → ℤ → Bool
ltb_ℤ a b = ltb (pos_part a + neg_part b) (pos_part b + neg_part a)

abbrev pub eqb_ℤ : ℤ → ℤ → Bool
eqb_ℤ a b = (pos_part a + neg_part b) == (pos_part b + neg_part a)

infix 50 ◌≤ℤ◌ ◌<ℤ◌
abbrev pub ◌≤ℤ◌ : ℤ → ℤ → Type 0
a ≤ℤ b = pos_part a + neg_part b ≤ pos_part b + neg_part a

abbrev pub ◌<ℤ◌ : ℤ → ℤ → Type 0
a <ℤ b = pos_part a + neg_part b < pos_part b + neg_part a

infixl 65 ◌-ℤ◌
unfoldable pub ◌-ℤ◌ : ℤ → ℤ → ℤ
a -ℤ b = sub_ℕ (pos_part a + neg_part b) (neg_part a + pos_part b)

abbrev pub i63 : ℕ
i63 = 9223372036854775808

-- The representative of an integer in the range of `i64`.
unfoldable pub wrap_i64 : ℤ → ℤ
wrap_i64 z =
    sub_ℕ
      ((pos_part z % 18446744073709551616
          + (18446744073709551616 - neg_part z % 18446744073709551616)
          + i63)
        % 18446744073709551616)
      i63

-- `a - b` on `i64`.
unfoldable pub sub_i64 : ℤ → ℤ → ℤ
sub_i64 a b = wrap_i64 (a -ℤ b)

abbrev pub FitsI64 : ℤ → Type 0
FitsI64 z = (pos_part z < i63) × (neg_part z ≤ i63)

pub wrap_i64_lem : (z : ℤ) → FitsI64 z → wrap_i64 z ≡ z
unfolding wrap_i64
wrap_i64_lem (pos n) h = ground arith
wrap_i64_lem (negsuc n) h = ground arith

-- Times of day in milliseconds since the epoch are far inside this range.
pub sub_i64_small : (a b : ℕ) → a < i63 → b < i63 → sub_i64 (pos a) (pos b) ≡ sub_ℕ a b
unfolding sub_i64 wrap_i64 ◌-ℤ◌
sub_i64_small a b h k = ground arith
