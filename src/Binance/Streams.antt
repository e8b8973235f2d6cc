-- ===== src/Binance/Streams.antt =====
-- crates/binance/src/{streams,endpoints}.rs: what the venue calls a subscription, where it is reached,
-- and which depths it serves. Lower case and the printing of numbers are the standard library's, and
-- parameters.
pub mod Depths
use mooncat.Prelude.{
  ℕ, ◌≤◌, ◌≡◌, refl, Bool, true, false, List, [], ◌∷◌, Option, none, some, String, leb, map,
  if◌then◌else◌, any_of, arith,
}
use mooncat.Prelude.Int.{ℤ, pos, eqb_ℤ}
use mooncat.Domain.Ids.{MarketKind, spot, linear_perp, inverse_perp, concat}
use mooncat.Exchange.Error.{Error, malformed, unsupported}
use mooncat.Wire.Subscription.{Subscription, trades, book, candles}
use mooncat.Binance.Wire.{Checked, ok, err}

-- What the code calls on texts and numbers.
pub record Texts : Type 0 where
  pub to_lowercase : String → String
  pub show_i64 : ℤ → String
  pub show_u64 : ℕ → String

abbrev pub intervals : List (ℕ × String)
intervals =
    (60000, "1m")
    ∷ (180000, "3m")
    ∷ (300000, "5m")
    ∷ (900000, "15m")
    ∷ (1800000, "30m")
    ∷ (3600000, "1h")
    ∷ (7200000, "2h")
    ∷ (14400000, "4h")
    ∷ (21600000, "6h")
    ∷ (28800000, "8h")
    ∷ (43200000, "12h")
    ∷ (86400000, "1d")
    ∷ []

-- A `match` on the first number that fits.
abbrev pub look_up : ℤ → List (ℕ × String) → Option String
look_up ms [] = none
look_up ms ((n, name) ∷ rest) = if eqb_ℤ ms (pos n) then some name else look_up ms rest

module _ (T : Texts) where
  abbrev pub named : ℤ → Option String → Checked String
  named ms (some name) = ok name
  named ms none =
      err (
        malformed
          (concat "binance publishes no candle interval of " (concat (T.show_i64 ms) " ms")))

  unfoldable pub interval_name : ℤ → Checked String
  interval_name ms = named ms (look_up ms intervals)

  abbrev pub candle_stream : String → Checked String → Checked String
  candle_stream raw (ok name) = ok (concat raw (concat "@kline_" name))
  candle_stream raw (err e) = err e

  unfoldable pub stream_name : Subscription → Checked String
  stream_name (trades s) = ok (concat (T.to_lowercase s.raw) "@aggTrade")
  stream_name (book s) = ok (concat (T.to_lowercase s.raw) "@depth@100ms")
  stream_name (candles s interval_ms) =
      candle_stream (T.to_lowercase s.raw) (interval_name interval_ms)

  abbrev pub cons_ok : Checked String → Checked (List String) → Checked (List String)
  cons_ok (err e) ns = err e
  cons_ok (ok n) (err e) = err e
  cons_ok (ok n) (ok ns) = ok (n ∷ ns)

  -- The names of all, or the first refusal: `collect` into a `Result`.
  unfoldable pub stream_names : List Subscription → Checked (List String)
  stream_names [] = ok []
  stream_names (s ∷ ss) = cons_ok (stream_name s) (stream_names ss)

  abbrev pub quoted : String → String
  quoted s = concat "\"" (concat s "\"")

  abbrev pub commas : List String → String
  commas [] = ""
  commas (s ∷ []) = s
  commas (s ∷ t ∷ ss) = concat s (concat "," (commas (t ∷ ss)))

  -- A SUBSCRIBE or UNSUBSCRIBE frame.
  unfoldable pub control_frame : String → List String → ℕ → String
  control_frame method streams id = concat "{\"method\":\"" (
      concat method (
        concat "\",\"params\":["
          (concat (commas (map quoted streams)) (concat "],\"id\":" (concat (T.show_u64 id) "}")))))

pub record Endpoints : Type 0 where
  pub rest : String
  pub ws : String
  pub exchange_info : String
  pub depth : String

abbrev pub spot_endpoints : Endpoints
spot_endpoints = record {
  rest = "https://api.binance.com";
  ws = "wss://stream.binance.com:9443/ws";
  exchange_info = "/api/v3/exchangeInfo";
  depth = "/api/v3/depth";
}

abbrev pub usd_m : Endpoints
usd_m = record {
  rest = "https://fapi.binance.com";
  ws = "wss://fstream.binance.com/ws";
  exchange_info = "/fapi/v1/exchangeInfo";
  depth = "/fapi/v1/depth";
}

unfoldable pub for_market : MarketKind → Checked Endpoints
for_market spot = ok spot_endpoints
for_market linear_perp = ok usd_m
for_market inverse_perp = err (unsupported "coin-margined futures" inverse_perp)

abbrev pub first_from : ℕ → List ℕ → ℕ
first_from requested [] = 5000
first_from requested (l ∷ ls) = if leb requested l then l else first_from requested ls

-- The depths that the venue serves.
abbrev pub limits : List ℕ
limits = 5 ∷ 10 ∷ 20 ∷ 50 ∷ 100 ∷ 500 ∷ 1000 ∷ 5000 ∷ []

unfoldable pub legal_depth_limit : ℕ → ℕ
legal_depth_limit requested = first_from requested limits

module _ (T : Texts) where
  pub exchange_info_url : Endpoints → String
  exchange_info_url e = concat e.rest e.exchange_info

  pub depth_url : Endpoints → String → ℕ → String
  depth_url e symbol limit =
      concat e.rest
        (concat e.depth (concat "?symbol=" (concat symbol (concat "&limit=" (T.show_u64 limit)))))
