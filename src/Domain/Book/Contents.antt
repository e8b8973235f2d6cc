-- ===== src/Domain/Book/Contents.antt =====
-- What a side of the book holds after a list of absolute updates (`apply_side` of
-- crates/domain/src/market.rs).
use Prim.Native.Nat.{Ordering}
use mooncat.Prelude.{
  ◌≡◌, ◌≢◌, refl, sym, ap, ◌∙◌, Bool, true, false, List, [], ◌∷◌, Option, none, some, inl, inr,
  if◌then◌else◌, All, All-weaken, Bool-cases,
}
use mooncat.Domain.Decimals.{Decimals}
use mooncat.Domain.Book.{BookLevel, apply_side}
use mooncat.Domain.Book.Levels.{
  rank_price, order, above, IsSorted, upsert_head, upsert, apply_level-upsert,
}

module _ (D : Decimals) (descending : Bool) where
  abbrev held : Ordering → D.Decimal → Option D.Decimal → Option D.Decimal
  held Ordering.eq q rest = some q
  held _ q rest = rest

  -- The quantity that a side holds at a price.
  abbrev pub qty_at : List (BookLevel D) → D.Decimal → Option D.Decimal
  qty_at [] p = none
  qty_at (l ∷ ls) p = held (rank_price D descending l.price p) l.qty (qty_at ls p)

  -- What one update makes of the quantity at a price: its own quantity at its own price, nothing
  -- where that is zero, and no change at any other price.
  abbrev pub told : Ordering → D.Decimal → Option D.Decimal → Option D.Decimal
  told Ordering.eq q old = if D.is_zero q then none else some q
  told _ q old = old

  abbrev pub replayed : List (BookLevel D) → D.Decimal → Option D.Decimal → Option D.Decimal
  replayed [] p old = old
  replayed (u ∷ us) p old = replayed us p (told (rank_price D descending u.price p) u.qty old)

  none_of_above :
      (p : D.Decimal) (ls : List (BookLevel D))
      → All (λ m. rank_price D descending m.price p ≡ Ordering.gt) ls
      → qty_at ls p ≡ none
  none_of_above p [] h = refl
  none_of_above p (l ∷ ls) h = rw h.0 (none_of_above p ls h.1)

  none_past :
      (p : D.Decimal) (l : BookLevel D) (ls : List (BookLevel D))
      → IsSorted D descending (l ∷ ls)
      → rank_price D descending l.price p ≢ Ordering.lt
      → qty_at ls p ≡ none
  none_past p l ls s n = none_of_above p ls (
      All-weaken (λ m. rank_price D descending m.price p ≡ Ordering.gt)
        (λ m. rank_price D descending l.price m.price ≡ Ordering.lt)
        (λ m h. above D descending p l m _ refl n h) ls s.0)

  module _ (p : D.Decimal) (u : BookLevel D) where
    abbrev at_u : Ordering
    at_u = rank_price D descending u.price p

    pass :
        (r t : Ordering) (q : D.Decimal) (old : Option D.Decimal)
        → (r ≡ Ordering.eq → t ≡ Ordering.eq → ⊥)
        → held r q (told t u.qty old) ≡ told t u.qty (held r q old)
    pass Ordering.eq Ordering.eq q old h = absurd (h refl refl)
    pass Ordering.eq Ordering.lt q old h = refl
    pass Ordering.eq Ordering.gt q old h = refl
    pass Ordering.lt t q old h = refl
    pass Ordering.gt t q old h = refl

    apart :
        (l : BookLevel D)
        → rank_price D descending l.price u.price ≡ Ordering.lt
        → rank_price D descending l.price p ≡ Ordering.eq
        → at_u ≡ Ordering.eq
        → ⊥
    apart l e a b = cc ((order D descending).cmp_eq u.price p b)

    at_equal :
        (t : Ordering) (q : D.Decimal) (rest : Option D.Decimal) (z : Bool)
        → (t ≢ Ordering.lt → rest ≡ none)
        → D.is_zero u.qty ≡ z
        → (if z then rest else held t u.qty rest) ≡ told t u.qty (held t q rest)
    at_equal Ordering.lt q rest true n e = refl
    at_equal Ordering.lt q rest false n e = refl
    at_equal Ordering.eq q rest true n e = rw e (n (λ k. cc))
    at_equal Ordering.eq q rest false n e = rw e refl
    at_equal Ordering.gt q rest true n e = refl
    at_equal Ordering.gt q rest false n e = refl

    at_gap :
        (t : Ordering) (whole : Option D.Decimal) (z : Bool)
        → (t ≢ Ordering.lt → whole ≡ none)
        → D.is_zero u.qty ≡ z
        → (if z then whole else held t u.qty whole) ≡ told t u.qty whole
    at_gap Ordering.lt whole true n e = refl
    at_gap Ordering.lt whole false n e = refl
    at_gap Ordering.eq whole true n e = rw e (n (λ k. cc))
    at_gap Ordering.eq whole false n e = rw e refl
    at_gap Ordering.gt whole true n e = refl
    at_gap Ordering.gt whole false n e = refl

    qty_at-if :
        (b : Bool) (xs ys : List (BookLevel D))
        → qty_at (if b then xs else ys) p ≡ (if b then qty_at xs p else qty_at ys p)
    qty_at-if true xs ys = refl
    qty_at-if false xs ys = refl

    -- A level past one that is above the update is above the price of the update.
    whole_none :
        (l : BookLevel D) (ls : List (BookLevel D))
        → IsSorted D descending (l ∷ ls)
        → rank_price D descending l.price u.price ≡ Ordering.gt
        → at_u ≢ Ordering.lt
        → qty_at (l ∷ ls) p ≡ none
    whole_none l ls s e n =
        let above_p : rank_price D descending l.price p ≡ Ordering.gt =
          above D descending p u l at_u refl n ((order D descending).gt_flip _ _ e) in
        rw above_p (none_past p l ls s (λ k. cc))

    qty_at-upsert_head :
        (l : BookLevel D) (ls rest : List (BookLevel D)) (r : Ordering)
        → IsSorted D descending (l ∷ ls)
        → rank_price D descending l.price u.price ≡ r
        → qty_at rest p ≡ told at_u u.qty (qty_at ls p)
        → qty_at (upsert_head D descending r l ls u rest) p ≡ told at_u u.qty (qty_at (l ∷ ls) p)
    qty_at-upsert_head l ls rest Ordering.lt s e h =
        rw h (pass _ at_u l.qty (qty_at ls p) (apart l e))
    qty_at-upsert_head l ls rest Ordering.eq s e h =
        let same : rank_price D descending l.price p ≡ at_u =
          ap (λ x. rank_price D descending x p) ((order D descending).cmp_eq _ _ e) in
        qty_at-if (D.is_zero u.qty) ls (record l { qty = u.qty } ∷ ls)
        ∙ rw same (
            at_equal at_u l.qty (qty_at ls p) (D.is_zero u.qty)
              (λ n. none_past p l ls s (λ q. n (sym same ∙ q))) refl)
    qty_at-upsert_head l ls rest Ordering.gt s e h =
        qty_at-if (D.is_zero u.qty) (l ∷ ls) (u ∷ l ∷ ls)
        ∙ at_gap at_u (qty_at (l ∷ ls) p) (D.is_zero u.qty) (whole_none l ls s e) refl

    qty_at-upsert :
        (ls : List (BookLevel D))
        → IsSorted D descending ls
        → qty_at (upsert D descending ls u) p ≡ told at_u u.qty (qty_at ls p)
    unfolding upsert
    qty_at-upsert [] s =
        qty_at-if (D.is_zero u.qty) [] (u ∷ [])
        ∙ at_gap at_u none (D.is_zero u.qty) (λ n. refl) refl
    qty_at-upsert (l ∷ ls) s =
        qty_at-upsert_head l ls (upsert D descending ls u) _ s refl (qty_at-upsert ls s.1)

  module _ (u : BookLevel D) (P : BookLevel D → Type 0) where
    -- A predicate that the update and each overwritten level have holds of the whole side.
    All-upsert_head :
        (l : BookLevel D) (ls rest : List (BookLevel D)) (r : Ordering)
        → (D.is_zero u.qty ≡ false → P u)
        → (D.is_zero u.qty ≡ false → P l → P (record l { qty = u.qty }))
        → P l
        → All P ls
        → All P rest
        → All P (upsert_head D descending r l ls u rest)
    All-upsert_head l ls rest Ordering.lt pu pq pl pls pr = (pl, pr)
    All-upsert_head l ls rest Ordering.eq pu pq pl pls pr = elim (Bool-cases (D.is_zero u.qty)) [
      | inl z ↦ rw z pls
      | inr z ↦ rw z (pq z pl, pls)
    ]
    All-upsert_head l ls rest Ordering.gt pu pq pl pls pr = elim (Bool-cases (D.is_zero u.qty)) [
      | inl z ↦ rw z (pl, pls)
      | inr z ↦ rw z (pu z, (pl, pls))
    ]

    All-upsert :
        (ls : List (BookLevel D))
        → (D.is_zero u.qty ≡ false → P u)
        → ((l : BookLevel D) → D.is_zero u.qty ≡ false → P l → P (record l { qty = u.qty }))
        → All P ls
        → All P (upsert D descending ls u)
    unfolding upsert
    All-upsert [] pu pq h = elim (Bool-cases (D.is_zero u.qty)) [
      | inl z ↦ rw z tt
      | inr z ↦ rw z (pu z, tt)
    ]
    All-upsert (l ∷ ls) pu pq h =
        All-upsert_head l ls _ _ pu (pq l) h.0 h.1 (All-upsert ls pu pq h.1)

  module _ (u : BookLevel D) where
    IsSorted-upsert_head :
        (l : BookLevel D) (ls : List (BookLevel D)) (r : Ordering)
        → rank_price D descending l.price u.price ≡ r
        → IsSorted D descending (l ∷ ls)
        → IsSorted D descending (upsert D descending ls u)
        → IsSorted D descending (upsert_head D descending r l ls u (upsert D descending ls u))
    IsSorted-upsert_head l ls Ordering.lt e s t = (
      All-upsert u (λ m. rank_price D descending l.price m.price ≡ Ordering.lt) ls (λ z. e)
          (λ m z h. h) s.0,
      t,
    )
    IsSorted-upsert_head l ls Ordering.eq e s t = elim (Bool-cases (D.is_zero u.qty)) [
      | inl z ↦ rw z s.1
      | inr z ↦ rw z s
    ]
    IsSorted-upsert_head l ls Ordering.gt e s t = elim (Bool-cases (D.is_zero u.qty)) [
      | inl z ↦ rw z s
      | inr z ↦
          let before : rank_price D descending u.price l.price ≡ Ordering.lt =
            (order D descending).gt_flip _ _ e in
          rw z (
            (
              before,
              All-weaken (λ m. rank_price D descending u.price m.price ≡ Ordering.lt)
                  (λ m. rank_price D descending l.price m.price ≡ Ordering.lt)
                  (λ m h. (order D descending).lt_trans _ _ _ before h) ls s.0,
            ),
            s,
          )
    ]

    IsSorted-upsert :
        (ls : List (BookLevel D))
        → IsSorted D descending ls
        → IsSorted D descending (upsert D descending ls u)
    unfolding upsert
    IsSorted-upsert [] s = elim (Bool-cases (D.is_zero u.qty)) [
      | inl z ↦ rw z tt
      | inr z ↦ rw z (tt, tt)
    ]
    IsSorted-upsert (l ∷ ls) s =
        unfold upsert in IsSorted-upsert_head l ls _ refl s (IsSorted-upsert ls s.1)

  -- No level of the side holds a zero quantity.
  abbrev pub NoZeros : List (BookLevel D) → Type 0
  NoZeros ls = All (λ l. D.is_zero l.qty ≡ false) ls

  pub IsSorted-apply_side :
      (ls us : List (BookLevel D))
      → IsSorted D descending ls
      → IsSorted D descending (apply_side D ls us descending)
  unfolding apply_side
  IsSorted-apply_side ls [] s = s
  IsSorted-apply_side ls (u ∷ us) s =
      rw (apply_level-upsert D descending ls u s)
        (IsSorted-apply_side (upsert D descending ls u) us (IsSorted-upsert u ls s))

  pub NoZeros-apply_side :
      (ls us : List (BookLevel D))
      → IsSorted D descending ls
      → NoZeros ls
      → NoZeros (apply_side D ls us descending)
  unfolding apply_side
  NoZeros-apply_side ls [] s n = n
  NoZeros-apply_side ls (u ∷ us) s n = rw (apply_level-upsert D descending ls u s) (
      NoZeros-apply_side (upsert D descending ls u) us (IsSorted-upsert u ls s)
        (All-upsert u (λ l. D.is_zero l.qty ≡ false) ls (λ z. z) (λ l z h. z) n))

  -- On a sorted side the quantity at every price after a list of updates is the quantity of the last
  -- update of that price, nothing if that is zero, and the old quantity if there is none.
  pub qty_at-apply_side :
      (ls us : List (BookLevel D)) (p : D.Decimal)
      → IsSorted D descending ls
      → qty_at (apply_side D ls us descending) p ≡ replayed us p (qty_at ls p)
  unfolding apply_side
  qty_at-apply_side ls [] p s = refl
  qty_at-apply_side ls (u ∷ us) p s = rw (apply_level-upsert D descending ls u s) (
      qty_at-apply_side (upsert D descending ls u) us p (IsSorted-upsert u ls s)
      ∙ ap (replayed us p) (qty_at-upsert p u ls s))
