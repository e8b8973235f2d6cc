-- ===== src/Prelude/Drop.antt =====
-- Dropping from the front of a list.
use Prim.Native.Nat.{ℕ, zero, suc, ◌+◌, ◌≤◌}
use mathlib.Core.Path.{◌≡◌, refl, sym, ap, ◌∙◌}
use mathlib.Core.List.{List, [], ◌∷◌, ◌++◌}
use native.Mathlib.Omega.{arith}
use mooncat.Prelude.Lists.{length, drop}

module _ {ℓ} {A : Type ℓ} where
  pub drop-[] : (k : ℕ) → drop {A = A} k [] ≡ []
  drop-[] zero = refl
  drop-[] (suc k) = refl

  pub drop-append : (k : ℕ) (xs ys : List A) → k ≤ length xs → drop k (xs ++ ys) ≡ drop k xs ++ ys
  drop-append zero xs ys h = refl
  drop-append (suc k) [] ys h = absurd (omega (arith, h))
  drop-append (suc k) (x ∷ xs) ys h = drop-append k xs ys (omega (arith, h))

  pub drop-drop : (j k : ℕ) (xs : List A) → drop j (drop k xs) ≡ drop (j + k) xs
  drop-drop j zero xs = ap (λ n. drop n xs) (omega arith)
  drop-drop j (suc k) [] = drop-[] j ∙ sym (drop-[] (j + suc k))
  drop-drop j (suc k) (x ∷ xs) = drop-drop j k xs ∙ ap (λ n. drop n (x ∷ xs)) (step j k)
    where
      step : (j k : ℕ) → suc (j + k) ≡ j + suc k
      step j k = omega arith

  pub drop_all : (k : ℕ) (xs : List A) → length xs ≤ k → drop k xs ≡ []
  drop_all zero [] h = refl
  drop_all zero (x ∷ xs) h = absurd (omega (arith, h))
  drop_all (suc k) [] h = refl
  drop_all (suc k) (x ∷ xs) h = drop_all k xs (omega (arith, h))
