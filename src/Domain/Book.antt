-- ===== src/Domain/Book.antt =====
-- crates/domain/src/market.rs: the order book and the updates that keep it current.
pub mod Search
pub mod Parted
pub mod Levels
pub mod Contents
pub mod Chain
use Prim.Native.Nat.{Ordering}
use mooncat.Prelude.{
  ℕ, zero, suc, ◌+◌, ◌-◌, ◌/◌, ◌≤◌, ◌<◌, ◌≡◌, Bool, true, false, List, [], ◌∷◌, Option, none, some,
  leb, ◌==◌, if◌then◌else◌, length, get_elem?,
}
use mooncat.Domain.Decimals.{Decimals}
use mooncat.Domain.Ids.{Symbol}
use mooncat.Domain.Time.{Timestamp}

pub record BookLevel (D : Decimals) : Type 0 where
  pub price : D.Decimal
  pub qty : D.Decimal

pub record OrderBook (D : Decimals) : Type 0 where
  pub symbol : Option Symbol
  pub bids : List (BookLevel D)
  pub asks : List (BookLevel D)
  pub last_update_id : ℕ
  pub ts : Timestamp
  pub synced : Bool

pub record BookDelta (D : Decimals) : Type 0 where
  pub symbol : Symbol
  pub prev_update_id : ℕ
  pub last_update_id : ℕ
  pub bids : List (BookLevel D)
  pub asks : List (BookLevel D)
  pub ts : Timestamp

pub data ApplyOutcome : Type 0 where
  applied stale : ApplyOutcome
  gap : ℕ → ℕ → ApplyOutcome

-- What `slice::binary_search_by` returns: `Ok` and `Err` hold a position.
pub data Found : Type 0 where
  present absent : ℕ → Found

module _ {A : Type 0} (f : A → Ordering) where
  -- The comparison at an index; an index past the end is never read.
  abbrev pub order_at : List A → ℕ → Ordering
  order_at [] i = Ordering.gt
  order_at (x ∷ xs) zero = f x
  order_at (x ∷ xs) (suc i) = order_at xs i

  -- The halving loop of the standard library's `binary_search_by`, with fuel for its rounds.
  abbrev pub step_base : Ordering → ℕ → ℕ → ℕ
  step_base Ordering.gt base mid = base
  step_base _ base mid = mid

  unfoldable pub search_loop : ℕ → List A → ℕ → ℕ → ℕ
  search_loop zero xs base size = base
  search_loop (suc fuel) xs base size =
      let rest =
        search_loop fuel xs (step_base (order_at xs (base + size / 2)) base (base + size / 2))
          (size - size / 2) in
      if leb size 1 then base else rest

  abbrev pub verdict : Ordering → ℕ → Found
  verdict Ordering.eq base = present base
  verdict Ordering.lt base = absent (base + 1)
  verdict Ordering.gt base = absent base

  unfoldable pub binary_search_by : List A → Found
  binary_search_by [] = absent 0
  binary_search_by (x ∷ xs) =
      let base = search_loop (length (x ∷ xs)) (x ∷ xs) 0 (length (x ∷ xs)) in
      verdict (order_at (x ∷ xs) base) base

module _ {A : Type 0} where
  abbrev pub first : List A → Option A
  first [] = none
  first (x ∷ xs) = some x

  -- `Vec::remove` and `Vec::insert`.
  abbrev pub remove_at : List A → ℕ → List A
  remove_at [] i = []
  remove_at (x ∷ xs) zero = xs
  remove_at (x ∷ xs) (suc i) = x ∷ remove_at xs i

  abbrev pub insert_at : List A → ℕ → A → List A
  insert_at xs zero y = y ∷ xs
  insert_at [] (suc i) y = y ∷ []
  insert_at (x ∷ xs) (suc i) y = x ∷ insert_at xs i y

module _ (D : Decimals) where
  unfoldable pub cmp_price : D.Decimal → D.Decimal → Bool → Ordering
  cmp_price a b true = D.cmp b a
  cmp_price a b false = D.cmp a b

  -- `side[pos].qty = qty`.
  abbrev pub set_qty : List (BookLevel D) → ℕ → D.Decimal → List (BookLevel D)
  set_qty [] i q = []
  set_qty (l ∷ ls) zero q = record l { qty = q } ∷ ls
  set_qty (l ∷ ls) (suc i) q = l ∷ set_qty ls i q

  -- What one update does at the place that the search found.
  unfoldable pub merge_at : List (BookLevel D) → BookLevel D → Found → List (BookLevel D)
  merge_at side upd (present pos) =
      if D.is_zero upd.qty then remove_at side pos else set_qty side pos upd.qty
  merge_at side upd (absent pos) = if D.is_zero upd.qty then side else insert_at side pos upd

  unfoldable pub apply_level : List (BookLevel D) → BookLevel D → Bool → List (BookLevel D)
  apply_level side upd descending =
      merge_at side upd (binary_search_by (λ lvl. cmp_price lvl.price upd.price descending) side)

  unfoldable pub apply_side : List (BookLevel D) → List (BookLevel D) → Bool → List (BookLevel D)
  apply_side side [] descending = side
  apply_side side (upd ∷ updates) descending =
      apply_side (apply_level side upd descending) updates descending

  pub best_bid : OrderBook D → Option (BookLevel D)
  best_bid b = first b.bids

  pub best_ask : OrderBook D → Option (BookLevel D)
  best_ask b = first b.asks

  -- Whether a delta may follow the book's current update.
  unfoldable pub continues : OrderBook D → BookDelta D → Bool
  continues book delta =
      if book.synced
      then delta.prev_update_id == book.last_update_id
      else leb delta.prev_update_id book.last_update_id

  -- `OrderBook::apply`: the book after the call, and the outcome.
  unfoldable pub apply : OrderBook D → BookDelta D → OrderBook D × ApplyOutcome
  unfolding continues
  apply book delta =
      if leb delta.last_update_id book.last_update_id
      then (book, stale)
      else if continues book delta
      then (
        record book {
          bids = apply_side book.bids delta.bids true;
          asks = apply_side book.asks delta.asks false;
          last_update_id = delta.last_update_id;
          ts = delta.ts;
          synced = true;
        },
        applied,
      )
      else (book, gap book.last_update_id delta.prev_update_id)
