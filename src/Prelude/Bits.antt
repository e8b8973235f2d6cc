-- ===== src/Prelude/Bits.antt =====
-- When the exclusive or, and the or, of two numbers is zero.
use Prim.Native.Nat.{
  ℕ, zero, suc, ◌/◌, ◌%◌, ◌≤◌, max, bit_or, bit_xor, digits, differ, bit_or-bitwise,
  bit_xor-bitwise,
}
use mathlib.Core.Path.{◌≡◌, refl, sym, ◌∙◌}
use native.Mathlib.Omega.{arith}

differ-zero : (x y : ℕ) → differ x y ≡ 0 → x ≡ y
differ-zero zero y h = sym h
differ-zero (suc x) zero h = absurd (omega (arith, h))
differ-zero (suc x) (suc y) h = omega (arith, differ-zero x y h)

differ_self : (x : ℕ) → differ x x ≡ 0
differ_self zero = refl
differ_self (suc x) = differ_self x

max-zero : (x y : ℕ) → max x y ≡ 0 → (x ≡ 0) × (y ≡ 0)
max-zero x y h = omega arith

-- By the binary digits, of which `n` are to go.
xor_digits-zero : (n a b : ℕ) → a ≤ n → digits (λ c. c) differ n a b ≡ 0 → a ≡ b
xor_digits-zero zero zero b l h = sym h
xor_digits-zero zero (suc a) b l h = absurd (omega (arith, l))
xor_digits-zero (suc n) zero b l h = sym h
xor_digits-zero (suc n) (suc a) b l h = omega (
  arith,
  xor_digits-zero n (suc a / 2) (b / 2) (omega (arith, l)) (omega (arith, h)),
  differ-zero (suc a % 2) (b % 2) (omega (arith, h)),
)

xor_digits_self : (n a : ℕ) → a ≤ n → digits (λ c. c) differ n a a ≡ 0
xor_digits_self zero zero l = refl
xor_digits_self zero (suc a) l = absurd (omega (arith, l))
xor_digits_self (suc n) zero l = refl
xor_digits_self (suc n) (suc a) l =
    omega (arith, xor_digits_self n (suc a / 2) (omega (arith, l)), differ_self (suc a % 2))

or_digits-zero : (n a b : ℕ) → a ≤ n → digits (λ c. c) max n a b ≡ 0 → (a ≡ 0) × (b ≡ 0)
or_digits-zero zero zero b l h = (refl, h)
or_digits-zero zero (suc a) b l h = absurd (omega (arith, l))
or_digits-zero (suc n) zero b l h = (refl, h)
or_digits-zero (suc n) (suc a) b l h = omega (
  arith,
  or_digits-zero n (suc a / 2) (b / 2) (omega (arith, l)) (omega (arith, h)),
  max-zero (suc a % 2) (b % 2) (omega (arith, h)),
)

pub bit_xor-zero : (a b : ℕ) → bit_xor a b ≡ 0 → a ≡ b
bit_xor-zero a b h = xor_digits-zero a a b (omega arith) (sym (bit_xor-bitwise a b) ∙ h)

pub bit_xor_self : (a : ℕ) → bit_xor a a ≡ 0
bit_xor_self a = bit_xor-bitwise a a ∙ xor_digits_self a a (omega arith)

pub bit_or-zero : (a b : ℕ) → bit_or a b ≡ 0 → (a ≡ 0) × (b ≡ 0)
bit_or-zero a b h = or_digits-zero a a b (omega arith) (sym (bit_or-bitwise a b) ∙ h)
