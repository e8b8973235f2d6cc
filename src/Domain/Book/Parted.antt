-- ===== src/Domain/Book/Parted.antt =====
-- Lists on which the comparisons of a search part: once one is not `lt`, all after it are `gt`.
use Prim.Native.Nat.{Ordering}
use mooncat.Prelude.{ℕ, zero, suc, ◌<◌, ◌≡◌, ◌≢◌, refl, List, [], ◌∷◌, arith, length, All}
use mooncat.Domain.Book.{order_at}
use mooncat.Domain.Book.Search.{Ascends}

module _ {A : Type 0} (f : A → Ordering) where
  abbrev pub Parted : List A → Type 0
  Parted [] = Unit
  Parted (x ∷ xs) = (f x ≢ Ordering.lt → All (λ m. f m ≡ Ordering.gt) xs) × Parted xs

  All-order_at :
      (r : Ordering) (xs : List A) (j : ℕ)
      → All (λ m. f m ≡ r) xs
      → j < length xs
      → order_at f xs j ≡ r
  All-order_at r [] j h k = absurd (omega arith)
  All-order_at r (x ∷ xs) zero h k = h.0
  All-order_at r (x ∷ xs) (suc j) h k = All-order_at r xs j h.1 (omega arith)

  up :
      (xs : List A) (i j : ℕ)
      → Parted xs
      → i < j
      → j < length xs
      → order_at f xs i ≢ Ordering.lt
      → order_at f xs j ≡ Ordering.gt
  up [] i j s h k n = absurd (omega arith)
  up (x ∷ xs) i zero s h k n = absurd (omega arith)
  up (x ∷ xs) zero (suc j) s h k n = All-order_at Ordering.gt xs j (s.0 n) (omega arith)
  up (x ∷ xs) (suc i) (suc j) s h k n = up xs i j s.1 (omega arith) (omega arith) n

  down :
      (xs : List A) (i j : ℕ) (r : Ordering)
      → Parted xs
      → i < j
      → j < length xs
      → order_at f xs i ≡ r
      → order_at f xs j ≢ Ordering.gt
      → r ≡ Ordering.lt
  down xs i j Ordering.lt s h k e n = refl
  down xs i j Ordering.eq s h k e n = absurd (n (up xs i j s h k (λ q. cc)))
  down xs i j Ordering.gt s h k e n = absurd (n (up xs i j s h k (λ q. cc)))

  pub Parted-Ascends : (xs : List A) → Parted xs → Ascends f xs
  Parted-Ascends xs s = record {
    lt_down = λ i j h k e. down xs i j _ s h k refl (λ q. cc);
    gt_up = λ i j h k e. up xs i j s h k (λ q. cc);
    eq_down = λ i j h k e. down xs i j _ s h k refl (λ q. cc);
    eq_up = λ i j h k e. up xs i j s h k (λ q. cc);
  }
