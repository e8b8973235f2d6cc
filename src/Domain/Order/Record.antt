-- ===== src/Domain/Order/Record.antt =====
-- crates/domain/src/order.rs: the records of orders and fills.
use mooncat.Prelude.{Bool, Option, String}
use mooncat.Domain.Decimals.{Decimals}
use mooncat.Domain.Ids.{Symbol}
use mooncat.Domain.Time.{Timestamp}
use mooncat.Domain.Order.{Side, OrderType, OrderStatus, is_open}
use mooncat.Marketdata.Candles.{max_dec}

pub data TimeInForce : Type 0 where
  gtc ioc fok post_only : TimeInForce

pub data PositionSide : Type 0 where
  both long short : PositionSide

pub record NewOrder (D : Decimals) : Type 0 where
  pub client_id : String
  pub symbol : Symbol
  pub side : Side
  pub order_type : OrderType
  pub qty : D.Decimal
  pub price : Option D.Decimal
  pub trigger_price : Option D.Decimal
  pub tif : TimeInForce
  pub position_side : PositionSide
  pub reduce_only : Bool

pub record Order (D : Decimals) : Type 0 where
  pub client_id : String
  pub venue_id : Option String
  pub symbol : Symbol
  pub side : Side
  pub order_type : OrderType
  pub status : OrderStatus
  pub qty : D.Decimal
  pub filled_qty : D.Decimal
  pub price : Option D.Decimal
  pub trigger_price : Option D.Decimal
  pub avg_price : D.Decimal
  pub tif : TimeInForce
  pub position_side : PositionSide
  pub reduce_only : Bool
  pub created_at : Timestamp
  pub updated_at : Timestamp

pub record Fill (D : Decimals) : Type 0 where
  pub client_id : String
  pub symbol : Symbol
  pub trade_id : String
  pub side : Side
  pub price : D.Decimal
  pub qty : D.Decimal
  pub fee : D.Decimal
  pub fee_asset : String
  pub is_maker : Bool
  pub ts : Timestamp

-- Quantity still open, and nothing below zero.
pub remaining_qty : (D : Decimals) → Order D → D.Decimal
remaining_qty D o = max_dec D (D.sub o.qty o.filled_qty) D.zero_dec

pub order_is_open : (D : Decimals) → Order D → Bool
order_is_open D o = is_open o.status
