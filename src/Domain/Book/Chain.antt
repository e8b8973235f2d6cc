-- ===== src/Domain/Book/Chain.antt =====
-- `OrderBook::apply` of crates/domain/src/market.rs: the invariant that it keeps, and what the
-- sequence numbers let through.
use mooncat.Prelude.{◌≤◌, ◌<◌, ◌≡◌, ◌⊎◌, inl, inr, refl, true, false, arith, leb, Bool-cases}
use mooncat.Domain.Decimals.{Decimals}
use mooncat.Domain.Book.{
  OrderBook, BookDelta, ApplyOutcome, applied, stale, gap, apply_side, continues, apply,
}
use mooncat.Domain.Book.Levels.{IsSorted}
use mooncat.Domain.Book.Contents.{
  NoZeros, IsSorted-apply_side, NoZeros-apply_side, qty_at, replayed, qty_at-apply_side,
}

module _ (D : Decimals) where
  -- Both sides are sorted best price first, and hold no empty level.
  pub record IsValid (b : OrderBook D) : Type 0 where
    pub bids_sorted : IsSorted D true b.bids
    pub asks_sorted : IsSorted D false b.asks
    pub bids_full : NoZeros D true b.bids
    pub asks_full : NoZeros D false b.asks

  -- A delta that is taken up, at the sequence numbers that allow it.
  abbrev pub Follows : OrderBook D → BookDelta D → Type 0
  Follows b d =
      (b.last_update_id < d.last_update_id)
      × (((b.synced ≡ true) × (d.prev_update_id ≡ b.last_update_id))
          ⊎ ((b.synced ≡ false) × (d.prev_update_id ≤ b.last_update_id)))

  -- The book after a delta that is taken up.
  abbrev pub updated : OrderBook D → BookDelta D → OrderBook D
  updated b d = record b {
    bids = apply_side D b.bids d.bids true;
    asks = apply_side D b.asks d.asks false;
    last_update_id = d.last_update_id;
    ts = d.ts;
    synced = true;
  }

  -- The outcome, with the book that goes with it, in terms of the sequence numbers.
  abbrev pub Outcome : OrderBook D → BookDelta D → OrderBook D × ApplyOutcome → Type 0
  Outcome b d (c, applied) = Follows b d × (c ≡ updated b d)
  Outcome b d (c, stale) = (d.last_update_id ≤ b.last_update_id) × (c ≡ b)
  Outcome b d (c, gap expected got) =
      (b.last_update_id < d.last_update_id)
      × ¬ (Follows b d)
      × (c ≡ b)
      × (expected ≡ b.last_update_id)
      × (got ≡ d.prev_update_id)

  pub apply-Follows :
      (b : OrderBook D) (d : BookDelta D) → Follows b d → apply D b d ≡ (updated b d, applied)
  unfolding apply
  apply-Follows b d h = ground arith

  continues-Follows :
      (b : OrderBook D) (d : BookDelta D)
      → b.last_update_id < d.last_update_id
      → continues D b d ≡ true
      → Follows b d
  unfolding continues
  continues-Follows b d h k = ground arith

  not_Follows : (b : OrderBook D) (d : BookDelta D) → continues D b d ≡ false → ¬ (Follows b d)
  unfolding continues
  not_Follows b d h (k, l) = ground arith

  -- On every branch: what the sequence numbers say, and what the call makes of the book.
  pub apply-Outcome : (b : OrderBook D) (d : BookDelta D) → Outcome b d (apply D b d)
  unfolding apply
  apply-Outcome b d = elim (Bool-cases (leb d.last_update_id b.last_update_id)) [
    | inl old ↦ rw old (ground arith, refl)
    | inr new ↦ elim (Bool-cases (continues D b d)) [
      | inl c ↦ rw (new, c) (continues-Follows b d (ground arith) c, refl)
      | inr c ↦ rw (new, c) (ground arith, not_Follows b d c, refl, refl, refl)
    ]
  ]

  updated-IsValid : (b : OrderBook D) (d : BookDelta D) → IsValid b → IsValid (updated b d)
  updated-IsValid b d v = record {
    bids_sorted = IsSorted-apply_side D true b.bids d.bids v.bids_sorted;
    asks_sorted = IsSorted-apply_side D false b.asks d.asks v.asks_sorted;
    bids_full = NoZeros-apply_side D true b.bids d.bids v.bids_sorted v.bids_full;
    asks_full = NoZeros-apply_side D false b.asks d.asks v.asks_sorted v.asks_full;
  }

  -- A call on a valid book keeps both sides sorted best price first, without duplicates and without empty levels.
  pub apply-IsValid : (b : OrderBook D) (d : BookDelta D) → IsValid b → IsValid (apply D b d).0
  unfolding apply
  apply-IsValid b d v = elim (Bool-cases (leb d.last_update_id b.last_update_id)) [
    | inl old ↦ rw old v
    | inr new ↦ elim (Bool-cases (continues D b d)) [
      | inl c ↦ rw (new, c) (updated-IsValid b d v)
      | inr c ↦ rw (new, c) v
    ]
  ]

  -- A delta that follows a valid book is taken up, and at every price of either side the book then
  -- holds what the delta's last update of that price says, and what it held before at the others.
  pub apply_contents :
      (b : OrderBook D) (d : BookDelta D) (p : D.Decimal)
      → IsValid b
      → Follows b d
      → ((apply D b d).1 ≡ applied)
        × (qty_at D true (apply D b d).0.bids p ≡ replayed D true d.bids p (qty_at D true b.bids p))
        × (qty_at D false (apply D b d).0.asks p
            ≡ replayed D false d.asks p (qty_at D false b.asks p))
  apply_contents b d p v f = rw (apply-Follows b d f) (
    refl,
    qty_at-apply_side D true b.bids d.bids p v.bids_sorted,
    qty_at-apply_side D false b.asks d.asks p v.asks_sorted,
  )

  -- A delta that was taken up is stale when it comes again, and changes nothing then.
  pub apply_again :
      (b : OrderBook D) (d : BookDelta D)
      → (apply D b d).1 ≡ applied
      → apply D (apply D b d).0 d ≡ ((apply D b d).0, stale)
  unfolding apply
  apply_again b d h = ground arith

  pub apply_synced :
      (b : OrderBook D) (d : BookDelta D)
      → (apply D b d).1 ≡ applied
      → (apply D b d).0.synced ≡ true
  unfolding apply
  apply_synced b d h = ground arith
