-- ===== src/Prelude/Words.antt =====
-- Unsigned machine words: additions wrap, as a release build computes them.
use Prim.Native.Nat.{ℕ, ◌+◌, ◌%◌, ◌<◌, ◌-◌}
use mathlib.Core.Path.{◌≡◌}
use native.Mathlib.Omega.{arith}
use mooncat.Prelude.Tests.{leb, if◌then◌else◌}

abbrev pub u32_mod : ℕ
u32_mod = 4294967296

abbrev pub u64_mod : ℕ
u64_mod = 18446744073709551616

unfoldable pub add_u32 : ℕ → ℕ → ℕ
add_u32 a b = (a + b) % u32_mod

unfoldable pub add_u64 : ℕ → ℕ → ℕ
add_u64 a b = (a + b) % u64_mod

-- `u32::saturating_add`.
unfoldable pub saturating_add_u32 : ℕ → ℕ → ℕ
saturating_add_u32 a b = if leb u32_mod (a + b) then u32_mod - 1 else a + b

pub add_u32_lem : (a b : ℕ) → a + b < u32_mod → add_u32 a b ≡ a + b
unfolding add_u32
add_u32_lem a b h = omega arith

pub add_u64_lem : (a b : ℕ) → a + b < u64_mod → add_u64 a b ≡ a + b
unfolding add_u64
add_u64_lem a b h = omega arith
