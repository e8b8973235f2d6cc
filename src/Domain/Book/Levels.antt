-- ===== src/Domain/Book/Levels.antt =====
-- One side of the book (`apply_side` of crates/domain/src/market.rs): its order, and its contents
-- after a list of updates.
use Prim.Native.Nat.{Ordering}
use mooncat.Prelude.{
  ◌≡◌, ◌≢◌, refl, ap, ◌∙◌, Bool, true, false, List, [], ◌∷◌, arith, if◌then◌else◌, All, All-weaken,
  subst,
}
use mooncat.Domain.Decimals.{Decimals, IsOrder, flip-IsOrder}
use mooncat.Domain.Book.{BookLevel, Found, present, absent, cmp_price, merge_at, apply_level}
use mooncat.Domain.Book.Parted.{Parted, Parted-Ascends}
use mooncat.Domain.Book.Search.{Ascends, next_place, scan_head, scan, binary_search_by-scan}

module _ (D : Decimals) (descending : Bool) where
  -- How the side compares two prices: `lt` for the better one.
  abbrev pub rank_price : D.Decimal → D.Decimal → Ordering
  rank_price a b = cmp_price D a b descending

module _ (D : Decimals) where
  pub rank_price-IsOrder : (descending : Bool) → IsOrder (rank_price D descending)
  unfolding cmp_price
  rank_price-IsOrder true = flip-IsOrder D.cmp D.cmp-IsOrder
  rank_price-IsOrder false = D.cmp-IsOrder

module _ (D : Decimals) (descending : Bool) where
  pub order : IsOrder (rank_price D descending)
  order = rank_price-IsOrder D descending

  -- Best price first, and each price at most once.
  abbrev pub IsSorted : List (BookLevel D) → Type 0
  IsSorted [] = Unit
  IsSorted (l ∷ ls) =
      All (λ m. rank_price D descending l.price m.price ≡ Ordering.lt) ls × IsSorted ls

  -- A level after one that is not below the price `p` is above it.
  pub above :
      (p : D.Decimal) (l m : BookLevel D) (r : Ordering)
      → rank_price D descending l.price p ≡ r
      → r ≢ Ordering.lt
      → rank_price D descending l.price m.price ≡ Ordering.lt
      → rank_price D descending m.price p ≡ Ordering.gt
  above p l m Ordering.lt e n h = absurd (n refl)
  above p l m Ordering.gt e n h = order.lt_flip _ _ (order.lt_trans _ _ _ (order.gt_flip _ _ e) h)
  above p l m Ordering.eq e n h =
      order.lt_flip _ _
        (subst (λ q. rank_price D descending q m.price ≡ Ordering.lt) (order.cmp_eq _ _ e) h)

  module _ (p : D.Decimal) where
    abbrev pub against : BookLevel D → Ordering
    against l = rank_price D descending l.price p

    IsSorted-Parted : (ls : List (BookLevel D)) → IsSorted ls → Parted against ls
    IsSorted-Parted [] s = tt
    IsSorted-Parted (l ∷ ls) s = (
      λ n.
          All-weaken (λ m. against m ≡ Ordering.gt)
            (λ m. rank_price D descending l.price m.price ≡ Ordering.lt)
            (λ m h. above p l m (against l) refl n h) ls s.0,
      IsSorted-Parted ls s.1,
    )

    IsSorted-Ascends : (ls : List (BookLevel D)) → IsSorted ls → Ascends against ls
    IsSorted-Ascends ls s = Parted-Ascends against ls (IsSorted-Parted ls s)

  -- The reference: a walk along the side up to the price of the update.
  abbrev pub upsert_head :
      Ordering
      → BookLevel D
      → List (BookLevel D)
      → BookLevel D
      → List (BookLevel D)
      → List (BookLevel D)
  upsert_head Ordering.lt l ls u rest = l ∷ rest
  upsert_head Ordering.eq l ls u rest =
      if D.is_zero u.qty then ls else record l { qty = u.qty } ∷ ls
  upsert_head Ordering.gt l ls u rest = if D.is_zero u.qty then l ∷ ls else u ∷ l ∷ ls

  unfoldable pub upsert : List (BookLevel D) → BookLevel D → List (BookLevel D)
  upsert [] u = if D.is_zero u.qty then [] else u ∷ []
  upsert (l ∷ ls) u = upsert_head (rank_price D descending l.price u.price) l ls u (upsert ls u)

  merge_at-next_place :
      (l : BookLevel D) (ls : List (BookLevel D)) (u : BookLevel D) (r : Found)
      → merge_at D (l ∷ ls) u (next_place r) ≡ l ∷ merge_at D ls u r
  unfolding merge_at
  merge_at-next_place l ls u (present p) = ground arith
  merge_at-next_place l ls u (absent p) = ground arith

  merge_at-scan_head :
      (l : BookLevel D) (ls : List (BookLevel D)) (u : BookLevel D) (q : Ordering) (r : Found)
      → merge_at D (l ∷ ls) u (scan_head q r) ≡ upsert_head q l ls u (merge_at D ls u r)
  merge_at-scan_head l ls u Ordering.lt r = merge_at-next_place l ls u r
  merge_at-scan_head l ls u Ordering.eq r = unfold merge_at in refl
  merge_at-scan_head l ls u Ordering.gt r = unfold merge_at in refl

  merge_at-scan :
      (ls : List (BookLevel D)) (u : BookLevel D)
      → merge_at D ls u (scan (against u.price) ls) ≡ upsert ls u
  unfolding upsert scan
  merge_at-scan [] u = unfold merge_at in refl
  merge_at-scan (l ∷ ls) u = rw (merge_at-scan_head l ls u, merge_at-scan ls u)

  -- On a sorted side the binary search, with the insertion, removal or overwrite at the place that
  -- it finds, does what a walk from the front does.
  pub apply_level-upsert :
      (ls : List (BookLevel D)) (u : BookLevel D)
      → IsSorted ls
      → apply_level D ls u descending ≡ upsert ls u
  unfolding apply_level
  apply_level-upsert ls u s =
      ap (merge_at D ls u)
        (binary_search_by-scan (against u.price) ls (IsSorted-Ascends u.price ls s))
      ∙ merge_at-scan ls u
