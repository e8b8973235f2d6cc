-- ===== src/Domain/Instrument.antt =====
-- crates/domain/src/instrument.rs: what the venue asks of an order's price and quantity.
pub mod Snapped
use Prim.Native.Nat.{Ordering}
use mooncat.Prelude.{Bool, true, false, not, ◌&&◌, Option, none, some, String, if◌then◌else◌}
use mooncat.Domain.Decimals.{Decimals}
use mooncat.Domain.Ids.{Symbol}

pub record Instrument (D : Decimals) : Type 0 where
  pub symbol : Symbol
  pub base : String
  pub quote : String
  pub margin_asset : String
  pub tick_size : D.Decimal
  pub step_size : D.Decimal
  pub min_qty : D.Decimal
  pub min_notional : D.Decimal
  pub trading : Bool

pub data OrderCheck : Type 0 where
  not_trading qty_below_min qty_off_step price_off_tick notional_below_min : OrderCheck

abbrev pub is_lt : Ordering → Bool
is_lt Ordering.lt = true
is_lt _ = false

module _ (D : Decimals) where
  -- `a < b` on decimals.
  abbrev pub less : D.Decimal → D.Decimal → Bool
  less a b = is_lt (D.cmp a b)

  -- Down to a multiple of the grid, towards zero; a zero grid is no constraint.
  unfoldable pub round_to_grid : D.Decimal → D.Decimal → D.Decimal
  round_to_grid value grid =
      if D.is_zero grid then value else D.mul (D.trunc (D.div value grid)) grid

  unfoldable pub round_price : Instrument D → D.Decimal → D.Decimal
  round_price i price = round_to_grid price i.tick_size

  unfoldable pub round_qty : Instrument D → D.Decimal → D.Decimal
  round_qty i qty = round_to_grid qty i.step_size

  -- `!grid.is_zero() && !(value % grid).is_zero()`.
  abbrev pub off_grid : D.Decimal → D.Decimal → Bool
  off_grid value grid = not (D.is_zero grid) && not (D.is_zero (D.rem value grid))

  -- `Instrument::check`; `none` is its `Ok`.
  unfoldable pub check : Instrument D → D.Decimal → D.Decimal → Option OrderCheck
  check i price qty =
      if not i.trading
      then some not_trading
      else if less qty i.min_qty
      then some qty_below_min
      else if off_grid qty i.step_size
      then some qty_off_step
      else if off_grid price i.tick_size
      then some price_off_tick
      else if not (D.is_zero i.min_notional) && less (D.mul price qty) i.min_notional
      then some notional_below_min
      else none
