-- ===== src/Domain/Names.antt =====
-- The order of texts (`Ord` for `String`), by code points: a strict total order.
use Prim.Native.Nat.{ℕ, Ordering, compare as compare_ℕ}
use Prim.Native.Char.{code}
use Prim.Native.String.{String, compare, then}
use Prim.Native.String.compare
use text.Mathlib.TextEquality.{path_by_compare}
use text.Mathlib.TextPositions.{compare_refl}
use mooncat.Prelude.{◌≡◌, ◌⊎◌, inl, inr, refl, sym, ap, ◌∙◌, arith}
use mooncat.Domain.Decimals.{IsOrder}

flip : Ordering → Ordering
flip Ordering.lt = Ordering.gt
flip Ordering.eq = Ordering.eq
flip Ordering.gt = Ordering.lt

flip-then : (a b : Ordering) → then (flip a) (flip b) ≡ flip (then a b)
unfolding flip
flip-then Ordering.lt b = refl
flip-then Ordering.eq b = refl
flip-then Ordering.gt b = refl

flip_number : (m n : ℕ) → compare_ℕ n m ≡ flip (compare_ℕ m n)
unfolding flip
flip_number m n = ground arith

flip_text : (s t : String) → compare t s ≡ flip (compare s t)
flip_text String.[] String.[] = compare.nil-nil ∙ unfold flip in sym (ap flip compare.nil-nil)
flip_text String.[] (String.◌∷◌ d t) =
    compare.cons-nil d t ∙ unfold flip in sym (ap flip (compare.nil-cons d t))
flip_text (String.◌∷◌ c s) String.[] =
    compare.nil-cons c s ∙ unfold flip in sym (ap flip (compare.cons-nil c s))
flip_text (String.◌∷◌ c s) (String.◌∷◌ d t) =
    compare.cons-cons d c t s
    ∙ ap (λ o. then o (compare t s)) (flip_number (code c) (code d))
    ∙ ap (then (flip (compare_ℕ (code c) (code d)))) (flip_text s t)
    ∙ flip-then (compare_ℕ (code c) (code d)) (compare s t)
    ∙ sym (ap flip (compare.cons-cons c d s t))

then_lt :
    (a b : Ordering)
    → then a b ≡ Ordering.lt
    → (a ≡ Ordering.lt) ⊎ ((a ≡ Ordering.eq) × (b ≡ Ordering.lt))
then_lt Ordering.lt b h = inl refl
then_lt Ordering.eq b h = inr (refl, h)
then_lt Ordering.gt b h = absurd (cc)

then_below :
    (l m n : ℕ) (p q r : Ordering)
    → then (compare_ℕ l m) p ≡ Ordering.lt
    → then (compare_ℕ m n) q ≡ Ordering.lt
    → (p ≡ Ordering.lt → q ≡ Ordering.lt → r ≡ Ordering.lt)
    → then (compare_ℕ l n) r ≡ Ordering.lt
then_below l m n p q r h k both = elim (then_lt (compare_ℕ l m) p h) [
  | inl a ↦ elim (then_lt (compare_ℕ m n) q k) [
    | inl b ↦ ap (λ o. then o r) (below l m n a b)
    | inr (b, _) ↦ ap (λ o. then o r) (below_eq l m n a b)
  ]
  | inr (a, p_lt) ↦ elim (then_lt (compare_ℕ m n) q k) [
    | inl b ↦ ap (λ o. then o r) (eq_below l m n a b)
    | inr (b, q_lt) ↦ ap (λ o. then o r) (eq_eq l m n a b) ∙ both p_lt q_lt
  ]
]
  where
    below :
        (l m n : ℕ)
        → compare_ℕ l m ≡ Ordering.lt
        → compare_ℕ m n ≡ Ordering.lt
        → compare_ℕ l n ≡ Ordering.lt
    below l m n a b = ground arith

    below_eq :
        (l m n : ℕ)
        → compare_ℕ l m ≡ Ordering.lt
        → compare_ℕ m n ≡ Ordering.eq
        → compare_ℕ l n ≡ Ordering.lt
    below_eq l m n a b = ground arith

    eq_below :
        (l m n : ℕ)
        → compare_ℕ l m ≡ Ordering.eq
        → compare_ℕ m n ≡ Ordering.lt
        → compare_ℕ l n ≡ Ordering.lt
    eq_below l m n a b = ground arith

    eq_eq :
        (l m n : ℕ)
        → compare_ℕ l m ≡ Ordering.eq
        → compare_ℕ m n ≡ Ordering.eq
        → compare_ℕ l n ≡ Ordering.eq
    eq_eq l m n a b = ground arith

lt_trans_text :
    (s t u : String)
    → compare s t ≡ Ordering.lt
    → compare t u ≡ Ordering.lt
    → compare s u ≡ Ordering.lt
lt_trans_text String.[] String.[] u h k = k
lt_trans_text String.[] (String.◌∷◌ d t) String.[] h k =
    let wrong : Ordering.gt ≡ Ordering.lt = sym (compare.cons-nil d t) ∙ k in absurd (cc)
lt_trans_text String.[] (String.◌∷◌ d t) (String.◌∷◌ e u) h k = compare.nil-cons e u
lt_trans_text (String.◌∷◌ c s) String.[] u h k =
    let wrong : Ordering.gt ≡ Ordering.lt = sym (compare.cons-nil c s) ∙ h in absurd (cc)
lt_trans_text (String.◌∷◌ c s) (String.◌∷◌ d t) String.[] h k =
    let wrong : Ordering.gt ≡ Ordering.lt = sym (compare.cons-nil d t) ∙ k in absurd (cc)
lt_trans_text (String.◌∷◌ c s) (String.◌∷◌ d t) (String.◌∷◌ e u) h k =
    compare.cons-cons c e s u
    ∙ then_below (code c) (code d) (code e) (compare s t) (compare t u) (compare s u)
        (sym (compare.cons-cons c d s t) ∙ h) (sym (compare.cons-cons d e t u) ∙ k)
        (lt_trans_text s t u)

pub text-IsOrder : IsOrder compare
unfolding flip
text-IsOrder = record {
  cmp_self = compare_refl;
  cmp_eq = path_by_compare;
  lt_flip = λ s t h. flip_text s t ∙ ap flip h;
  gt_flip = λ s t h. flip_text s t ∙ ap flip h;
  lt_trans = lt_trans_text;
}
