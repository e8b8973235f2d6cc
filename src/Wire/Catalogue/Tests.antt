-- ===== src/Wire/Catalogue/Tests.antt =====
-- Concrete runs of crates/wire/src/catalogue.rs, with terms that are whole numbers.
use mooncat.Prelude.{ℕ, ◌≡◌, ◌<◌, refl, true, List, [], ◌∷◌, some, none, arith, length, String, ap}
use mooncat.Domain.Decimals.{Decimals, nat_decimals}
use mooncat.Prelude.Assoc.{get, put}
use mooncat.Domain.Ids.{binance, spot, exchange_str}
use mooncat.Domain.Instrument.{Instrument}
use mooncat.Wire.Catalogue.{
  Market, new, replace, insert_name, sort_names, dedup_run, dedup_names, changes, same_terms,
  is_tradable, listed,
}
use mooncat.Domain.Book.{binary_search_by, search_loop}
use mooncat.Wire.Catalogue.Walk.{walk, walk-replace}

abbrev D : Decimals
D = nat_decimals

abbrev listing : String → ℕ → Instrument D
listing raw tick = record {
  symbol = record { exchange = binance; market = spot; raw = raw };
  base = raw;
  quote = "USDT";
  margin_asset = "USDT";
  tick_size = tick;
  step_size = 1;
  min_qty = 1;
  min_notional = 5;
  trading = true;
}

abbrev market : Market
market = (binance, spot)

-- Out of order, and with a repeat.
abbrev incoming : List (Instrument D)
incoming =
    listing "ETHUSDT" 2 ∷ listing "BTCUSDT" 1 ∷ listing "ETHUSDT" 3 ∷ listing "ADAUSDT" 1 ∷ []

sorted_run :
    dedup_names D (sort_names D incoming)
    ≡ listing "ADAUSDT" 1 ∷ listing "BTCUSDT" 1 ∷ listing "ETHUSDT" 2 ∷ []
unfolding dedup_names dedup_run sort_names insert_name
sorted_run = refl

-- A tick size that moved, a new name, and one that went.
changes_run :
    changes D
      (listing "ADAUSDT" 1 ∷ listing "BTCUSDT" 1 ∷ [])
      (listing "BTCUSDT" 7 ∷ listing "ETHUSDT" 2 ∷ [])
    ≡ record {
      added = (listing "ETHUSDT" 2).symbol ∷ [];
      removed = (listing "ADAUSDT" 1).symbol ∷ [];
      altered = (listing "BTCUSDT" 7).symbol ∷ [];
    }
unfolding changes same_terms get put
changes_run = refl

unlisted_run :
    is_tradable D
      (replace D (new D) market incoming).0
      (record (listing "BTCUSDT" 1).symbol { raw = "XRPUSDT" })
    ≡ some "XRPUSDT is not listed on binance"
unfolding is_tradable exchange_str get put listed replace dedup_names dedup_run sort_names
    insert_name binary_search_by search_loop
unlisted_run = refl

three : length (dedup_names D (sort_names D incoming)) < 4
three = omega (arith, ap length sorted_run)

walk-replace_example :
    walk D 4 (replace D (new D) market incoming).0 market none
    ≡ some (dedup_names D (sort_names D incoming))
walk-replace_example = walk-replace D (new D) market incoming 4 three
