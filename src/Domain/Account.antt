-- ===== src/Domain/Account.antt =====
-- crates/domain/src/account.rs: balances, and positions on derivatives.
use mooncat.Prelude.{Bool, Option, String}
use mooncat.Domain.Decimals.{Decimals}
use mooncat.Domain.Ids.{Symbol}
use mooncat.Domain.Time.{Timestamp}
use mooncat.Domain.Order.Record.{PositionSide}

pub record Balance (D : Decimals) : Type 0 where
  pub asset : String
  pub free : D.Decimal
  pub locked : D.Decimal

pub balance_total : (D : Decimals) → Balance D → D.Decimal
balance_total D b = D.add b.free b.locked

pub data MarginMode : Type 0 where
  cross isolated : MarginMode

pub record Position (D : Decimals) : Type 0 where
  pub symbol : Symbol
  pub side : PositionSide
  pub qty : D.Decimal
  pub entry_price : D.Decimal
  pub mark_price : D.Decimal
  pub unrealized_pnl : D.Decimal
  pub leverage : D.Decimal
  pub margin_mode : MarginMode
  pub liquidation_price : Option D.Decimal
  pub updated_at : Timestamp

pub is_flat : (D : Decimals) → Position D → Bool
is_flat D p = D.is_zero p.qty

-- The value at the mark, in quote currency.
pub notional : (D : Decimals) → Position D → D.Decimal
notional D p = D.mul p.qty p.mark_price
