-- ===== src/Domain/Ids.antt =====
-- crates/domain/src/ids.rs: venue, market and instrument identity.
use Prim.Native.Char.{code}
use mooncat.Prelude.{ℕ, zero, suc, ◌≡◌, refl, ap, String, Bool, true, false, arith}

pub data ExchangeId : Type 0 where
  binance bybit : ExchangeId

pub data MarketKind : Type 0 where
  spot linear_perp inverse_perp : MarketKind

unfoldable pub exchange_str : ExchangeId → String
exchange_str binance = "binance"
exchange_str bybit = "bybit"

unfoldable pub market_str : MarketKind → String
market_str spot = "spot"
market_str linear_perp = "linear_perp"
market_str inverse_perp = "inverse_perp"

-- Whether the market carries positions, leverage and a margin mode.
pub has_positions : MarketKind → Bool
has_positions spot = false
has_positions linear_perp = true
has_positions inverse_perp = true

pub record Symbol : Type 0 where
  pub exchange : ExchangeId
  pub market : MarketKind
  pub raw : String

-- Concatenation, as `format!` makes it.
abbrev pub concat : String → String → String
concat String.[] t = t
concat (String.◌∷◌ c s) t = String.◌∷◌ c (concat s t)

-- `format!("{}:{}:{}", exchange, market, raw)`.
joined : ExchangeId → MarketKind → String → String
unfolding exchange_str market_str
joined e m r = concat (exchange_str e) (concat ":" (concat (market_str m) (concat ":" r)))

unfoldable pub key : Symbol → String
unfolding joined
key s = joined s.exchange s.market s.raw

-- The code point at an index; 0 past the end.
code_at : String → ℕ → ℕ
code_at String.[] n = 0
code_at (String.◌∷◌ c s) zero = code c
code_at (String.◌∷◌ c s) (suc n) = code_at s n

joined-injective :
    (e f : ExchangeId) (m n : MarketKind) (r q : String)
    → joined e m r ≡ joined f n q
    → (e ≡ f) × (m ≡ n) × (r ≡ q)
unfolding joined code_at
joined-injective binance binance spot spot r q h = (refl, refl, cc)
joined-injective binance binance linear_perp linear_perp r q h = (refl, refl, cc)
joined-injective binance binance inverse_perp inverse_perp r q h = (refl, refl, cc)
joined-injective bybit bybit spot spot r q h = (refl, refl, cc)
joined-injective bybit bybit linear_perp linear_perp r q h = (refl, refl, cc)
joined-injective bybit bybit inverse_perp inverse_perp r q h = (refl, refl, cc)
joined-injective e f m n r q h =
    absurd
      (omega (arith, ap (λ s. code_at s 1) h, ap (λ s. code_at s 6) h, ap (λ s. code_at s 8) h))

-- Two instruments with one key are the same instrument: the same ticker on two markets or two
-- venues never collides.
pub key-injective : (s t : Symbol) → key s ≡ key t → s ≡ t
unfolding key
key-injective s t h =
    ground (arith, joined-injective s.exchange t.exchange s.market t.market s.raw t.raw h)
