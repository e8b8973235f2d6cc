-- ===== src/Domain/Order/Progress.antt =====
-- What a history of guarded status updates (crates/domain/src/order.rs) can do.
use mooncat.Prelude.{
  ◌≤◌, ◌<◌, ◌≡◌, refl, ◌⊎◌, ◌↔◌, true, false, List, [], ◌∷◌, arith, not, if◌then◌else◌,
}
use mooncat.Domain.Order.{OrderStatus, partially_filled, is_terminal, is_open, rank, can_advance_to}

-- A status under the guard: an update that is no legal successor is dropped.
abbrev pub guarded : OrderStatus → OrderStatus → OrderStatus
guarded s next = if can_advance_to s next then next else s

-- The status after a stream of venue updates, in any order and with repeats.
abbrev pub replayed : OrderStatus → List OrderStatus → OrderStatus
replayed s [] = s
replayed s (u ∷ us) = replayed (guarded s u) us

-- A status is open or terminal, never both.
pub is_open-eq-not-is_terminal : (s : OrderStatus) → is_open s ≡ not (is_terminal s)
unfolding is_open is_terminal
is_open-eq-not-is_terminal s = ground arith

guarded_keeps_terminal : (s u : OrderStatus) → is_terminal s ≡ true → guarded s u ≡ s
unfolding can_advance_to
guarded_keeps_terminal s u h = rw h

rank-guarded : (s u : OrderStatus) → rank s ≤ rank (guarded s u)
unfolding can_advance_to
rank-guarded s u = ground arith

-- Once an order has reached a terminal status, no stream of later updates changes it.
pub replayed_terminal :
    (s : OrderStatus) (us : List OrderStatus) → is_terminal s ≡ true → replayed s us ≡ s
replayed_terminal s [] h = refl
replayed_terminal s (u ∷ us) h = rw (guarded_keeps_terminal s u h) (replayed_terminal s us h)

-- No stream of updates, however reordered, moves an order backwards.
pub rank-replayed : (s : OrderStatus) (us : List OrderStatus) → rank s ≤ rank (replayed s us)
rank-replayed s [] = omega arith
rank-replayed s (u ∷ us) = omega (arith, rank-guarded s u, rank-replayed (guarded s u) us)

-- The guard lets an update through exactly when the order is open and the update has a higher
-- rank, or is one more partial fill of a partially filled order.
pub can_advance_to_iff :
    (s u : OrderStatus)
    → (can_advance_to s u ≡ true) ↔ (
        (is_terminal s ≡ false)
        × ((rank s < rank u) ⊎ ((s ≡ partially_filled) × (u ≡ partially_filled))))
unfolding can_advance_to
can_advance_to_iff s u = ground arith
