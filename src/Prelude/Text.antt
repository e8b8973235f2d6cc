-- ===== src/Prelude/Text.antt =====
-- Lists of texts: in the order of `Ord` for `String`, and without adjacent repeats.
use Prim.Native.Nat.{Ordering}
use Prim.Native.String.{String, compare}
use mathlib.Core.Path.{◌≡◌, refl, ap, ◌∙◌}
use mathlib.Core.Bool.{Bool, true, false, ◌||◌}
use mathlib.Core.List.{List, [], ◌∷◌}
use native.Mathlib.Omega.{arith}
use text.Mathlib.Text.{◌==◌ as str_eq}
use text.Mathlib.TextEquality.{eq_iff}
use mooncat.Prelude.Tests.{if◌then◌else◌}
use mooncat.Prelude.Lists.{any_of}

abbrev not_gt : Ordering → Bool
not_gt Ordering.gt = false
not_gt _ = true

abbrev pub text_leb : String → String → Bool
text_leb s t = not_gt (compare s t)

unfoldable pub insert_text : String → List String → List String
insert_text x [] = x ∷ []
insert_text x (y ∷ ys) =
    let rest = insert_text x ys in if text_leb x y then x ∷ y ∷ ys else y ∷ rest

-- `Vec::sort`.
unfoldable pub sort_texts : List String → List String
sort_texts [] = []
sort_texts (x ∷ xs) = insert_text x (sort_texts xs)

unfoldable pub dedup_from : String → List String → List String
dedup_from x [] = x ∷ []
dedup_from x (y ∷ ys) = let rest = dedup_from y ys in if str_eq x y then rest else x ∷ rest

-- `Vec::dedup`: one of each run of equal texts.
unfoldable pub dedup : List String → List String
dedup [] = []
dedup (x ∷ xs) = dedup_from x xs

module _ (q : String → Bool) where
  any_of-insert_text :
      (x : String) (xs : List String) → any_of q (insert_text x xs) ≡ (q x || any_of q xs)
  unfolding insert_text
  any_of-insert_text x [] = refl
  any_of-insert_text x (y ∷ ys) = ground (arith, any_of-insert_text x ys)

  any_of-sort_texts : (xs : List String) → any_of q (sort_texts xs) ≡ any_of q xs
  unfolding sort_texts
  any_of-sort_texts [] = refl
  any_of-sort_texts (x ∷ xs) =
      any_of-insert_text x (sort_texts xs) ∙ ap (λ b. q x || b) (any_of-sort_texts xs)

  any_of-dedup_from :
      (x : String) (xs : List String) → any_of q (dedup_from x xs) ≡ (q x || any_of q xs)
  unfolding dedup_from
  any_of-dedup_from x [] = refl
  any_of-dedup_from x (y ∷ ys) = ground (arith, eq_iff x y, any_of-dedup_from y ys)

  any_of-dedup : (xs : List String) → any_of q (dedup xs) ≡ any_of q xs
  unfolding dedup
  any_of-dedup [] = refl
  any_of-dedup (x ∷ xs) = any_of-dedup_from x xs

  -- Sorting and removing repeats changes no answer to whether there is such a text.
  pub any_of-dedup-sort : (xs : List String) → any_of q (dedup (sort_texts xs)) ≡ any_of q xs
  any_of-dedup-sort xs = any_of-dedup (sort_texts xs) ∙ any_of-sort_texts xs
