-- ===== src/Binance/Wire.antt =====
-- crates/binance/src/wire.rs: the venue's messages, and what they become. JSON is parsed by a
-- third-party package; a record here is what it fills in.
pub mod Listed
pub mod Sequence
use mooncat.Prelude.{
  ℕ, zero, suc, ◌-◌, Bool, true, false, List, [], ◌∷◌, Option, none, some, String, map,
  if◌then◌else◌,
}
use mooncat.Prelude.Int.{ℤ}
use mooncat.Prelude.Assoc.{string_eq}
use mooncat.Domain.Decimals.{Decimals}
use mooncat.Domain.Ids.{ExchangeId, binance, MarketKind, Symbol, concat}
use mooncat.Domain.Time.{Timestamp, from_millis}
use mooncat.Domain.Order.{Side, buy, sell}
use mooncat.Domain.Book.{BookLevel, BookDelta, OrderBook}
use mooncat.Domain.Instrument.{Instrument}
use mooncat.Marketdata.Candles.{PublicTrade}
use mooncat.Exchange.Error.{Error, malformed}

abbrev pub unwrap_or {ℓ} : {A : Type ℓ} → Option A → A → A
unwrap_or none x = x
unwrap_or (some y) x = y

abbrev pub or {ℓ} : {A : Type ℓ} → Option A → Option A → Option A
or none o = o
or (some y) o = some y

pub data Checked {ℓ} (A : Type ℓ) : Type ℓ where
  ok : A → Checked A
  err : Error → Checked A

module _ (D : Decimals) where
  pub record RawLevel : Type 0 where
    pub raw_price : D.Decimal
    pub raw_qty : D.Decimal

  unfoldable pub into_level : RawLevel → BookLevel D
  into_level r = record { price = r.raw_price; qty = r.raw_qty }

  unfoldable pub levels : List RawLevel → List (BookLevel D)
  levels rs = map into_level rs

  pub record AggTrade : Type 0 where
    pub symbol : String
    pub agg_id : ℕ
    pub price : D.Decimal
    pub qty : D.Decimal
    pub trade_time : ℤ
    pub buyer_is_maker : Bool

  -- `AggTrade::into_domain`: the venue says who made the market, and the tape who took it.
  unfoldable pub trade_of : AggTrade → Symbol → PublicTrade D
  trade_of t s = record {
    symbol = s;
    price = t.price;
    qty = t.qty;
    taker_side = if t.buyer_is_maker then sell else buy;
    ts = from_millis t.trade_time;
    id = t.agg_id;
  }

  pub record DepthUpdate : Type 0 where
    pub symbol : String
    pub first_update_id : ℕ
    pub final_update_id : ℕ
    pub prev_final_update_id : Option ℕ
    pub bids : List RawLevel
    pub asks : List RawLevel
    pub event_time : ℤ

  -- `DepthUpdate::into_domain`; `saturating_sub` stops at 0.
  unfoldable pub delta_of : DepthUpdate → Symbol → BookDelta D
  delta_of u s = record {
    symbol = s;
    prev_update_id = unwrap_or u.prev_final_update_id (u.first_update_id - 1);
    last_update_id = u.final_update_id;
    bids = levels u.bids;
    asks = levels u.asks;
    ts = from_millis u.event_time;
  }

  pub record DepthSnapshot : Type 0 where
    pub last_update_id : ℕ
    pub bids : List RawLevel
    pub asks : List RawLevel

  -- `DepthSnapshot::into_domain`: a book that has not joined the stream.
  unfoldable pub book_of : DepthSnapshot → Symbol → Timestamp → OrderBook D
  book_of d s ts = record {
    symbol = some s;
    bids = levels d.bids;
    asks = levels d.asks;
    last_update_id = d.last_update_id;
    ts = ts;
    synced = false;
  }

  pub data Filter : Type 0 where
    price_filter : (tick_size : D.Decimal) → Filter
    lot_size : (step_size min_qty : D.Decimal) → Filter
    min_notional_filter : (min_notional notional : Option D.Decimal) → Filter
    notional_filter : (min_notional : Option D.Decimal) → Filter
    other_filter : Filter

  pub record SymbolInfo : Type 0 where
    pub symbol : String
    pub status : Option String
    pub contract_status : Option String
    pub base_asset : String
    pub quote_asset : String
    pub margin_asset : Option String
    pub filters : List Filter

  -- The variables of the loop over the filters.
  pub record Terms : Type 0 where
    pub tick_size : Option D.Decimal
    pub step_size : Option D.Decimal
    pub min_qty : Option D.Decimal
    pub min_notional : D.Decimal

  abbrev pub read_filter : Terms → Filter → Terms
  read_filter v (price_filter t) = record v { tick_size = some t }
  read_filter v (lot_size s q) = record v { step_size = some s; min_qty = some q }
  read_filter v (min_notional_filter a b) = record v {
    min_notional = unwrap_or (or a b) D.zero_dec;
  }
  read_filter v (notional_filter a) = record v { min_notional = unwrap_or a D.zero_dec }
  read_filter v other_filter = v

  unfoldable pub read_filters : Terms → List Filter → Terms
  read_filters v [] = v
  read_filters v (f ∷ fs) = read_filters (read_filter v f) fs

  abbrev pub no_terms : Terms
  no_terms = record {
    tick_size = none;
    step_size = none;
    min_qty = none;
    min_notional = D.zero_dec;
  }

  abbrev pub missing : SymbolInfo → String → Checked (Instrument D)
  missing i what = err (malformed (concat i.symbol (concat " has no " (concat what " filter"))))

  abbrev pub is_trading : Option String → Bool
  is_trading none = false
  is_trading (some s) = string_eq.beq s "TRADING"

  abbrev pub instrument_with :
      SymbolInfo
      → MarketKind
      → D.Decimal
      → Option D.Decimal
      → Option D.Decimal
      → Option D.Decimal
      → Checked (Instrument D)
  instrument_with i m notional none step min = missing i "PRICE_FILTER"
  instrument_with i m notional (some tick) none min = missing i "LOT_SIZE"
  instrument_with i m notional (some tick) (some step) none = missing i "LOT_SIZE"
  instrument_with i m notional (some tick) (some step) (some min) = ok (record {
    symbol = record { exchange = binance; market = m; raw = i.symbol };
    base = i.base_asset;
    quote = i.quote_asset;
    margin_asset = unwrap_or i.margin_asset i.quote_asset;
    tick_size = tick;
    step_size = step;
    min_qty = min;
    min_notional = notional;
    trading = is_trading (or i.status i.contract_status);
  })

  -- `SymbolInfo::into_domain`.
  unfoldable pub instrument_of : SymbolInfo → MarketKind → Checked (Instrument D)
  instrument_of i m =
      let v = read_filters no_terms i.filters in
      instrument_with i m v.min_notional v.tick_size v.step_size v.min_qty
