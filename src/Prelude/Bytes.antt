-- ===== src/Prelude/Bytes.antt =====
-- Byte strings: equality, and taking a concatenation apart at known lengths.
use Prim.Native.Nat.{ℕ}
use mathlib.Core.Path.{◌≡◌, refl}
use mathlib.Core.Logic.{◌↔◌}
use mathlib.Core.Bool.{Bool, true, false, ◌&&◌}
use mathlib.Core.List.{List, [], ◌∷◌, ◌++◌}
use native.Mathlib.Omega.{arith}
use mooncat.Prelude.Tests.{◌==◌}
use mooncat.Prelude.Lists.{length}
use mooncat.Prelude.Assoc.{Eq}

abbrev bytes_beq : List ℕ → List ℕ → Bool
bytes_beq [] [] = true
bytes_beq [] (y ∷ ys) = false
bytes_beq (x ∷ xs) [] = false
bytes_beq (x ∷ xs) (y ∷ ys) = x == y && bytes_beq xs ys

pub bytes_beq_iff : (xs ys : List ℕ) → (bytes_beq xs ys ≡ true) ↔ (xs ≡ ys)
bytes_beq_iff [] [] = ground arith
bytes_beq_iff [] (y ∷ ys) = ground arith
bytes_beq_iff (x ∷ xs) [] = ground arith
bytes_beq_iff (x ∷ xs) (y ∷ ys) = ground (arith, bytes_beq_iff xs ys)

instance abbrev pub bytes_eq : Eq (List ℕ)
bytes_eq = record { beq = bytes_beq; beq_iff = bytes_beq_iff }

pub append-injective {ℓ} :
    {A : Type ℓ} (xs ys us vs : List A)
    → ◌≡◌ {A = ℕ} (length xs) (length ys)
    → xs ++ us ≡ ys ++ vs
    → (xs ≡ ys) × (us ≡ vs)
append-injective [] [] us vs l h = (refl, h)
append-injective [] (y ∷ ys) us vs l h = absurd (omega (arith, l))
append-injective (x ∷ xs) [] us vs l h = absurd (omega (arith, l))
append-injective (x ∷ xs) (y ∷ ys) us vs l h =
    let heads : x ≡ y = cc in
    let tails : xs ++ us ≡ ys ++ vs = cc in
    let both : (xs ≡ ys) × (us ≡ vs) = append-injective xs ys us vs (omega (arith, l)) tails in
    (let t : xs ≡ ys = both.0 in cc, both.1)
