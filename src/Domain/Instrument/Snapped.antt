-- ===== src/Domain/Instrument/Snapped.antt =====
-- `Instrument::check` of crates/domain/src/instrument.rs after `round_price` and `round_qty`.
use mooncat.Prelude.{◌≡◌, ◌⊎◌, true, false, Option, none, some}
use mooncat.Domain.Decimals.{Decimals}
use mooncat.Domain.Instrument.{
  Instrument, OrderCheck, not_trading, qty_below_min, qty_off_step, price_off_tick,
  notional_below_min, less,
}

module _ (D : Decimals) where
  -- What the code relies on: a whole number of increments leaves no remainder.
  pub record IsExact : Type 0 where
    pub trunc_again : (a : D.Decimal) → D.trunc (D.trunc a) ≡ D.trunc a
    pub whole_rem :
        (a grid : D.Decimal)
        → D.trunc a ≡ a
        → D.is_zero grid ≡ false
        → D.rem (D.mul a grid) grid ≡ D.zero_dec

  -- What an order with a rounded price and quantity is still refused for.
  abbrev pub Left : Instrument D → D.Decimal → D.Decimal → Option OrderCheck → Type 0
  Left i price qty none =
      (i.trading ≡ true)
      × (less D qty i.min_qty ≡ false)
      × ((D.is_zero i.min_notional ≡ true) ⊎ (less D (D.mul price qty) i.min_notional ≡ false))
  Left i price qty (some not_trading) = i.trading ≡ false
  Left i price qty (some qty_below_min) = (i.trading ≡ true) × (less D qty i.min_qty ≡ true)
  Left i price qty (some qty_off_step) = ⊥
  Left i price qty (some price_off_tick) = ⊥
  Left i price qty (some notional_below_min) =
      (i.trading ≡ true)
      × (less D qty i.min_qty ≡ false)
      × (D.is_zero i.min_notional ≡ false)
      × (less D (D.mul price qty) i.min_notional ≡ true)
