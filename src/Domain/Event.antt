-- ===== src/Domain/Event.antt =====
-- crates/domain/src/event.rs: the vocabulary of the event bus.
use mooncat.Prelude.{Bool, true, false, List, Option, none, some, String}
use mooncat.Domain.Decimals.{Decimals}
use mooncat.Domain.Ids.{Symbol}
use mooncat.Domain.Time.{Timestamp}
use mooncat.Domain.Book.{OrderBook, BookDelta}
use mooncat.Domain.Order.Record.{Order, Fill}
use mooncat.Domain.Account.{Balance, Position}
use mooncat.Domain.Instrument.{Instrument}
use mooncat.Marketdata.Candles.{PublicTrade, Candle}

pub data MarketEvent (D : Decimals) : Type 0 where
  trade : PublicTrade D → MarketEvent D
  book_snapshot : OrderBook D → MarketEvent D
  book_delta : BookDelta D → MarketEvent D
  candle : Candle D → MarketEvent D
  instruments : Symbol → List (Instrument D) → MarketEvent D

pub data AccountEvent (D : Decimals) : Type 0 where
  order_update : Order D → AccountEvent D
  fill : Fill D → AccountEvent D
  balances : List (Balance D) → AccountEvent D
  positions : List (Position D) → AccountEvent D

pub data ConnectionEvent : Type 0 where
  connecting ready : ConnectionEvent
  resyncing disconnected : String → ConnectionEvent

pub data Payload (D : Decimals) : Type 0 where
  market : MarketEvent D → Payload D
  account : AccountEvent D → Payload D
  connection : ConnectionEvent → Payload D

pub record Event (D : Decimals) : Type 0 where
  pub at : Timestamp
  pub payload : Payload D

module _ (D : Decimals) where
  -- The instrument that a market event concerns, if it is exactly one.
  abbrev pub symbol_of_market : MarketEvent D → Option Symbol
  symbol_of_market (trade t) = some t.symbol
  symbol_of_market (book_snapshot b) = b.symbol
  symbol_of_market (book_delta d) = some d.symbol
  symbol_of_market (candle c) = some c.symbol
  symbol_of_market (instruments s is) = none

  abbrev pub payload_is_private : Payload D → Bool
  payload_is_private (account e) = true
  payload_is_private (market e) = false
  payload_is_private (connection e) = false

  -- Whether an event must not reach an unauthenticated consumer.
  unfoldable pub is_private : Event D → Bool
  is_private e = payload_is_private e.payload
