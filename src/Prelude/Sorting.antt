-- ===== src/Prelude/Sorting.antt =====
-- Sorting by a numeric key, and what it keeps.
use Prim.Native.Nat.{ℕ, suc}
use mathlib.Core.Path.{◌≡◌, refl, ap, ◌∙◌}
use mathlib.Core.Logic.{inl, inr}
use mathlib.Core.Bool.{Bool, ◌||◌}
use mathlib.Core.List.{List, [], ◌∷◌}
use native.Mathlib.Omega.{arith}
use mooncat.Prelude.Tests.{leb, if◌then◌else◌, Bool-cases}
use mooncat.Prelude.Lists.{length, any_of, All}

-- `sort_by_key`, which is stable.
unfoldable pub insert_by {ℓ} : {A : Type ℓ} → (A → ℕ) → A → List A → List A
insert_by f x [] = x ∷ []
insert_by f x (y ∷ ys) =
    let rest = insert_by f x ys in if leb (f x) (f y) then x ∷ y ∷ ys else y ∷ rest

unfoldable pub sort_by {ℓ} : {A : Type ℓ} → (A → ℕ) → List A → List A
sort_by f [] = []
sort_by f (x ∷ xs) = insert_by f x (sort_by f xs)

module _ {A : Type 0} (f : A → ℕ) where
  All-insert_by : (P : A → Type 0) (x : A) (xs : List A) → P x → All P xs → All P (insert_by f x xs)
  unfolding insert_by
  All-insert_by P x [] h hs = (h, hs)
  All-insert_by P x (y ∷ ys) h hs = elim (Bool-cases (leb (f x) (f y))) [
    | inl e ↦ rw e (h, hs)
    | inr e ↦ rw e (hs.0, All-insert_by P x ys h hs.1)
  ]

  pub All-sort_by : (P : A → Type 0) (xs : List A) → All P xs → All P (sort_by f xs)
  unfolding sort_by
  All-sort_by P [] h = h
  All-sort_by P (x ∷ xs) h = All-insert_by P x (sort_by f xs) h.0 (All-sort_by P xs h.1)

  pub any_of-insert_by :
      (q : A → Bool) (x : A) (xs : List A) → any_of q (insert_by f x xs) ≡ any_of q (x ∷ xs)
  unfolding insert_by
  any_of-insert_by q x [] = refl
  any_of-insert_by q x (y ∷ ys) = ground (arith, any_of-insert_by q x ys)

  pub any_of-sort_by : (q : A → Bool) (xs : List A) → any_of q (sort_by f xs) ≡ any_of q xs
  unfolding sort_by
  any_of-sort_by q [] = refl
  any_of-sort_by q (x ∷ xs) =
      any_of-insert_by q x (sort_by f xs) ∙ ap (λ b. q x || b) (any_of-sort_by q xs)

  pub length-insert_by : (x : A) (xs : List A) → length (insert_by f x xs) ≡ suc (length xs)
  unfolding insert_by
  length-insert_by x [] = refl
  length-insert_by x (y ∷ ys) = ground (arith, length-insert_by x ys)
