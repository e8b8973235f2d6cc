-- ===== src/Core/State.antt =====
-- crates/core/src/state.rs: the core's shared read-model. A candle series is newest first here, as in
-- Marketdata/Candles; a tape is oldest first. The locks guard one call each and leave no trace.
pub mod Books
pub mod Overlap
pub mod Keyed
use mooncat.Prelude.{
  ℕ, zero, suc, ◌+◌, ◌-◌, ◌≡◌, Bool, true, false, List, [], ◌∷◌, ◌++◌, Option, none, some, String,
  map, keep_if, any_of, if◌then◌else◌, length, drop, ltb,
}
use mooncat.Prelude.Int.{ltb_ℤ, eqb_ℤ}
use mooncat.Prelude.Text.{sort_texts, dedup}
use mathlib.Core.List.{reverse}
use mooncat.Prelude.Assoc.{get, put, remove, string_eq}
use mooncat.Domain.Decimals.{Decimals}
use mooncat.Domain.Ids.{Symbol, key}
use mooncat.Domain.Book.{OrderBook, BookDelta, ApplyOutcome, applied, stale, gap}
use mooncat.Domain.Book
use mooncat.Domain.Event.{
  MarketEvent, trade, book_snapshot, book_delta, candle, instruments, Payload, market, account,
  connection, Event,
}
use mooncat.Marketdata.Candles.{Candle, PublicTrade, newest}
use mooncat.Wire.Subscription.{Subscription, symbol_of}

abbrev pub history : ℕ
history = 600

abbrev pub tape_history : ℕ
tape_history = 4000

pub record MarketState (D : Decimals) : Type 0 where
  pub books : List (String × OrderBook D)
  pub candles : List (String × List (Candle D))
  pub tape : List (String × List (PublicTrade D))

-- `entry(key).or_default()`.
abbrev pub or_default {ℓ} : {A : Type ℓ} → Option (List A) → List A
or_default none = []
or_default (some xs) = xs

-- `while series.len() > keep { pop_front }`.
abbrev pub last_of {ℓ} : {A : Type ℓ} → ℕ → List A → List A
last_of keep xs = drop (length xs - keep) xs

module _ (D : Decimals) where
  unfoldable pub new_state : MarketState D
  new_state = record { books = []; candles = []; tape = [] }

  -- A bar on its series: it replaces the one of its open time, is dropped if older than the last, and
  -- is appended otherwise.
  unfoldable pub fold_bar : ℕ → List (Candle D) → Candle D → List (Candle D)
  fold_bar keep [] c = newest D keep (c ∷ [])
  fold_bar keep (last ∷ cs) c =
      if eqb_ℤ last.open_time.millis c.open_time.millis
      then c ∷ cs
      else if ltb_ℤ c.open_time.millis last.open_time.millis
      then last ∷ cs
      else newest D keep (c ∷ last ∷ cs)

  unfoldable pub fold_candle : MarketState D → Candle D → MarketState D
  fold_candle s c = record s {
    candles =
        put s.candles (key c.symbol)
          (fold_bar history (or_default (get s.candles (key c.symbol))) c);
  }

  unfoldable pub fold_trade : MarketState D → PublicTrade D → MarketState D
  fold_trade s t = record s {
    tape =
        put s.tape (key t.symbol)
          (last_of tape_history (or_default (get s.tape (key t.symbol)) ++ t ∷ []));
  }

  -- A book that a delta does not follow is dropped; any other outcome leaves the book of the call.
  abbrev pub keep_or_drop :
      List (String × OrderBook D)
      → String
      → OrderBook D × ApplyOutcome
      → List (String × OrderBook D)
  keep_or_drop books k (b, applied) = put books k b
  keep_or_drop books k (b, stale) = put books k b
  keep_or_drop books k (b, gap expected got) = remove books k

  abbrev pub fold_delta_on :
      List (String × OrderBook D) → BookDelta D → Option (OrderBook D) → List (String × OrderBook D)
  fold_delta_on books d none = books
  fold_delta_on books d (some b) = keep_or_drop books (key d.symbol) (Book.apply D b d)

  unfoldable pub fold_delta :
      List (String × OrderBook D) → BookDelta D → List (String × OrderBook D)
  fold_delta books d = fold_delta_on books d (get books (key d.symbol))

  abbrev pub fold_snapshot_of :
      List (String × OrderBook D) → OrderBook D → Option Symbol → List (String × OrderBook D)
  fold_snapshot_of books b none = books
  fold_snapshot_of books b (some symbol) = put books (key symbol) b

  unfoldable pub fold_snapshot :
      List (String × OrderBook D) → OrderBook D → List (String × OrderBook D)
  fold_snapshot books b = fold_snapshot_of books b b.symbol

  abbrev pub apply_market : MarketState D → MarketEvent D → MarketState D
  apply_market s (candle c) = fold_candle s c
  apply_market s (trade t) = fold_trade s t
  apply_market s (book_snapshot b) = record s { books = fold_snapshot s.books b }
  apply_market s (book_delta d) = record s { books = fold_delta s.books d }
  apply_market s (instruments symbol is) = s

  abbrev pub apply_payload : MarketState D → Payload D → MarketState D
  apply_payload s (market e) = apply_market s e
  apply_payload s (account e) = s
  apply_payload s (connection e) = s

  -- Fold one event into the read-model.
  unfoldable pub apply : MarketState D → Event D → MarketState D
  apply s e = apply_payload s e.payload

-- The keys of the instruments of some subscriptions, in order and each once.
unfoldable pub keys_of : List Subscription → List String
keys_of subs = dedup (sort_texts (map (λ s. key (symbol_of s)) subs))

-- `filter_map` by the lookup in a map.
abbrev pub cons_found {ℓ} : {A : Type ℓ} → Option A → List A → List A
cons_found none xs = xs
cons_found (some x) xs = x ∷ xs

unfoldable pub look_up_all {ℓ} : {A : Type ℓ} → List (String × A) → List String → List A
look_up_all m [] = []
look_up_all m (k ∷ ks) = cons_found (get m k) (look_up_all m ks)

abbrev pub flatten {ℓ} : {A : Type ℓ} → List (List A) → List A
flatten [] = []
flatten (xs ∷ xss) = xs ++ flatten xss

module _ (D : Decimals) where
  -- Oldest first.
  pub candles_for : MarketState D → List Subscription → List (Candle D)
  candles_for s subs = flatten (map reverse (look_up_all s.candles (keys_of subs)))

  pub tape_for : MarketState D → List Subscription → List (PublicTrade D)
  tape_for s subs = flatten (look_up_all s.tape (keys_of subs))

  -- The books that are live.
  unfoldable pub snapshots_for : MarketState D → List Subscription → List (OrderBook D)
  snapshots_for s subs =
      keep_if (λ (b : OrderBook D). b.synced) (look_up_all s.books (keys_of subs))
