-- ===== src/Marketdata/Candles.antt =====
-- crates/marketdata/src/candles.rs, with Candle, Bucketing and PublicTrade of
-- crates/domain/src/market.rs: building candles from the trade tape. A series is newest first here, so
-- `back` is the head and `pop_front` drops the end.
pub mod Shape
use Prim.Native.Nat.{Ordering}
use mooncat.Prelude.{
  ℕ, zero, suc, ◌+◌, ◌-◌, ◌%◌, Bool, true, false, not, ◌&&◌, List, [], ◌∷◌, Option, none, some,
  String, leb, ltb, ◌==◌, if◌then◌else◌, length, max, add_u32,
}
use mooncat.Prelude.Int.{ℤ, pos, negsuc, sub_i64, ltb_ℤ, eqb_ℤ}
use mooncat.Prelude.Assoc.{get, put, remove, string_eq}
use mooncat.Domain.Decimals.{Decimals}
use mooncat.Domain.Ids.{Symbol, key}
use mooncat.Domain.Order.{Side}
use mooncat.Domain.Time.{Timestamp, from_millis}

pub record PublicTrade (D : Decimals) : Type 0 where
  pub symbol : Symbol
  pub price : D.Decimal
  pub qty : D.Decimal
  pub taker_side : Side
  pub ts : Timestamp
  pub id : ℕ

pub data Bucketing : Type 0 where
  time : ℤ → Bucketing
  ticks : ℕ → Bucketing

pub record Candle (D : Decimals) : Type 0 where
  pub symbol : Symbol
  pub open_time : Timestamp
  pub bucketing : Bucketing
  pub open_price : D.Decimal
  pub high : D.Decimal
  pub low : D.Decimal
  pub close : D.Decimal
  pub volume : D.Decimal
  pub trades : ℕ
  pub closed : Bool

pub data Update (D : Decimals) : Type 0 where
  formed : Candle D → Update D
  rolled : Candle D → Candle D → Update D
  ignored : Update D

pub record CandleSet (D : Decimals) : Type 0 where
  pub bucketing : Bucketing
  pub capacity : ℕ
  pub series : List (String × List (Candle D))

abbrev pub default_capacity : ℕ
default_capacity = 1200

-- A degenerate bucketing is clamped.
unfoldable pub clamp : Bucketing → Bucketing
clamp (time interval_ms) = time (if ltb_ℤ interval_ms (pos 1) then pos 1 else interval_ms)
clamp (ticks count) = ticks (max count 1)

-- `i64::rem_euclid` by a positive number.
abbrev pub rem_euclid : ℤ → ℕ → ℕ
rem_euclid (pos n) k = n % k
rem_euclid (negsuc n) k = k - 1 - n % k

abbrev pub magnitude : ℤ → ℕ
magnitude (pos n) = n
magnitude (negsuc n) = suc n

-- The start of the interval that a time lies in.
unfoldable pub bucket_start : Timestamp → ℤ → Timestamp
bucket_start ts interval_ms =
    from_millis (sub_i64 ts.millis (pos (rem_euclid ts.millis (magnitude interval_ms))))

module _ (D : Decimals) where
  abbrev pub pick : Ordering → D.Decimal → D.Decimal → D.Decimal
  pick Ordering.lt a b = b
  pick _ a b = a

  -- `Ord::max` and `Ord::min`.
  unfoldable pub max_dec : D.Decimal → D.Decimal → D.Decimal
  max_dec a b = pick (D.cmp a b) a b

  unfoldable pub min_dec : D.Decimal → D.Decimal → D.Decimal
  min_dec a b = pick (D.cmp a b) b a

  unfoldable pub new : Bucketing → ℕ → CandleSet D
  new bucketing capacity = record {
    bucketing = clamp bucketing;
    capacity = max capacity 1;
    series = [];
  }

  -- The forming bar with one more print.
  unfoldable pub extended : Candle D → PublicTrade D → Candle D
  extended c trade = record c {
    high = max_dec c.high trade.price;
    low = min_dec c.low trade.price;
    close = trade.price;
    volume = D.add c.volume trade.qty;
    trades = add_u32 c.trades 1;
  }

  abbrev pub complete_at_once : Bucketing → Bool
  complete_at_once (time interval_ms) = false
  complete_at_once (ticks count) = leb count 1

  -- A new bar on a print; a one-tick bar is complete at once.
  unfoldable pub opened_on : PublicTrade D → Timestamp → Bucketing → Candle D
  opened_on trade open_time bucketing = record {
    symbol = trade.symbol;
    open_time = open_time;
    bucketing = bucketing;
    open_price = trade.price;
    high = trade.price;
    low = trade.price;
    close = trade.price;
    volume = trade.qty;
    trades = 1;
    closed = complete_at_once bucketing;
  }

  abbrev pub closed_back : List (Candle D) → List (Candle D)
  closed_back [] = []
  closed_back (c ∷ cs) = record c { closed = true } ∷ cs

  -- `while series.len() > capacity { pop_front }`.
  abbrev pub newest : ℕ → List (Candle D) → List (Candle D)
  newest zero cs = []
  newest (suc n) [] = []
  newest (suc n) (c ∷ cs) = c ∷ newest n cs

  abbrev pub roll_update : List (Candle D) → Candle D → Update D
  roll_update [] opened = formed opened
  roll_update (previous ∷ cs) opened = rolled previous opened

  -- Close whatever was forming and start a new bar on this print.
  unfoldable pub roll :
      List (Candle D) → PublicTrade D → Timestamp → Bucketing → ℕ → List (Candle D) × Update D
  roll series trade open_time bucketing capacity =
      let opened = opened_on trade open_time bucketing in
      (newest capacity (opened ∷ closed_back series), roll_update (closed_back series) opened)

  -- Time bars: the clock decides where one bar ends and the next begins.
  unfoldable pub fold_time :
      List (Candle D) → PublicTrade D → ℤ → Bucketing → ℕ → List (Candle D) × Update D
  fold_time [] trade interval_ms bucketing capacity =
      roll [] trade (bucket_start trade.ts interval_ms) bucketing capacity
  fold_time (c ∷ cs) trade interval_ms bucketing capacity =
      if ltb_ℤ (bucket_start trade.ts interval_ms).millis c.open_time.millis
      then (c ∷ cs, ignored)
      else if eqb_ℤ (bucket_start trade.ts interval_ms).millis c.open_time.millis
      then (extended c trade ∷ cs, formed (extended c trade))
      else roll (c ∷ cs) trade (bucket_start trade.ts interval_ms) bucketing capacity

  abbrev pub filled : Candle D → ℕ → Candle D
  filled c count = if leb count c.trades then record c { closed = true } else c

  -- Tick bars: the print count decides.
  unfoldable pub fold_ticks :
      List (Candle D) → PublicTrade D → ℕ → Bucketing → ℕ → List (Candle D) × Update D
  fold_ticks [] trade count bucketing capacity = roll [] trade trade.ts bucketing capacity
  fold_ticks (c ∷ cs) trade count bucketing capacity =
      if not c.closed && ltb c.trades count
      then (filled (extended c trade) count ∷ cs, formed (filled (extended c trade) count))
      else roll (c ∷ cs) trade trade.ts bucketing capacity

  abbrev pub fold : Bucketing → List (Candle D) → PublicTrade D → ℕ → List (Candle D) × Update D
  fold (time interval_ms) series trade capacity =
      fold_time series trade interval_ms (time interval_ms) capacity
  fold (ticks count) series trade capacity = fold_ticks series trade count (ticks count) capacity

  abbrev pub or_empty : Option (List (Candle D)) → List (Candle D)
  or_empty none = []
  or_empty (some cs) = cs

  -- Fold one trade into its bar.
  unfoldable pub on_trade : CandleSet D → PublicTrade D → CandleSet D × Update D
  on_trade s trade =
      let (cs, out) =
        fold s.bucketing (or_empty (get s.series (key trade.symbol))) trade s.capacity in
      (record s { series = put s.series (key trade.symbol) cs }, out)

  -- The candle currently forming, if any.
  abbrev pub back : List (Candle D) → Option (Candle D)
  back [] = none
  back (c ∷ cs) = some c

  unfoldable pub forming : CandleSet D → String → Option (Candle D)
  forming s k = back (or_empty (get s.series k))

  unfoldable pub clear : CandleSet D → Symbol → CandleSet D
  clear s symbol = record s { series = remove s.series (key symbol) }
