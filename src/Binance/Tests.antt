-- ===== src/Binance/Tests.antt =====
-- Concrete runs of crates/binance/src, with prices and quantities that are whole numbers.
use mooncat.Prelude.{
  ℕ, ◌≡◌, ◌⊎◌, ◌≤◌, any_of, ◌==◌, max, ltb, refl, add_u64, true, false, List, [], ◌∷◌, some, none,
  arith,
}
use mooncat.Prelude.Int.{pos}
use mooncat.Prelude.Assoc.{get, put, string_eq}
use mooncat.Domain.Decimals.{Decimals, nat_decimals}
use mooncat.Domain.Ids.{Symbol, binance, spot, key, exchange_str, market_str}
use mooncat.Domain.Time.{from_millis, age_millis_from}
use mooncat.Domain.Book.{
  OrderBook, apply, apply_level, apply_side, binary_search_by, cmp_price, continues, merge_at,
  search_loop,
}
use mooncat.Core.State.{new_state}
use mooncat.Marketdata.Books.{
  book, on_delta, install_snapshot, new, feed, absorb, buffer, fresh_entry, hold, install,
  installed, replay, request_snapshot,
}
use mooncat.Binance.Wire.{
  RawLevel, DepthUpdate, DepthSnapshot, Filter, price_filter, lot_size, other_filter, SymbolInfo,
  instrument_of, read_filters, err, book_of, delta_of, into_level, levels,
}
use mooncat.Marketdata.Books.Replay.{Reaches}
use mooncat.Exchange.Error.{malformed}
use mooncat.Wire.Subscription.{candles}
use mooncat.Binance.Wire.Listed.{listing, instrument_of-listing}
use mooncat.Binance.Wire.Sequence.{deltas_of, book_of-replay}
use mooncat.Binance.Streams.{
  Texts, legal_depth_limit, limits, control_frame, stream_name, interval_name,
}
use mooncat.Binance.Rest.{
  answer, unreadable, get_json, retryable, retryable-get_json, instruments_of,
}
use mooncat.Binance.Streams.Depths.{Least, legal_depth_limit-Least}
use mooncat.Binance.Connector.{
  Input, Env, connected, text, fetched, depth_update, run, step, on_connected, on_arm, decode,
  on_update, announced, new_task,
}
use mooncat.Binance.Connector.Heard.{heard}
use mooncat.Binance.Connector.Served.{run-mirrored}

abbrev D : Decimals
D = nat_decimals

abbrev texts : Texts
texts = record { to_lowercase = λ s. s; show_i64 = λ i. "0"; show_u64 = λ n. "0" }

abbrev env : Env D
env = record { market_kind = spot; at = λ i. from_millis (pos 5); sink_closed = false }

abbrev raw : ℕ → ℕ → RawLevel D
raw p q = record { raw_price = p; raw_qty = q }

abbrev btc : Symbol
btc = record { exchange = binance; market = spot; raw = "BTCUSDT" }

abbrev depth : ℕ → ℕ → List (RawLevel D) → Input D
depth first last bids = text (
    depth_update (record {
      symbol = "BTCUSDT";
      first_update_id = first;
      final_update_id = last;
      prev_final_update_id = none;
      bids = bids;
      asks = [];
      event_time = pos 6;
    }))

-- The first update asks for a snapshot, which joins at the second.
abbrev history : List (Env D × Input D)
history =
    (env, connected true)
    ∷ (env, depth 9 12 (raw 99 4 ∷ []))
    ∷ (
      env,
      fetched (
          book_of D
            (record { last_update_id = 10; bids = raw 99 1 ∷ raw 98 2 ∷ []; asks = raw 101 3 ∷ [] })
            btc (from_millis (pos 4))),
    )
    ∷ (env, depth 13 15 (raw 98 0 ∷ []))
    ∷ []

abbrev live_book : OrderBook D
live_book = record {
  symbol = some btc;
  bids = record { price = 99; qty = 4 } ∷ [];
  asks = record { price = 101; qty = 3 } ∷ [];
  last_update_id = 15;
  ts = from_millis (pos 6);
  synced = true;
}

joined : book D (run D texts (new_task D) history).0.books (key btc) ≡ some live_book
unfolding book get put run step new_task on_connected on_arm decode on_update on_delta
    install_snapshot book_of new key delta_of feed announced into_level levels apply apply_level
    apply_side binary_search_by cmp_price continues merge_at search_loop exchange_str market_str
    age_millis_from absorb buffer fresh_entry hold install installed replay request_snapshot add_u64
joined = refl

run-mirrored_example :
    get (heard D (new_state D) (run D texts (new_task D) history).1).books (key btc)
    ≡ some live_book
run-mirrored_example = run-mirrored D texts history (new_state D) (key btc) live_book joined

-- Two updates on spot, of which the first ends at the snapshot.
abbrev update : ℕ → ℕ → DepthUpdate D
update first last = record {
  symbol = "BTCUSDT";
  first_update_id = first;
  final_update_id = last;
  prev_final_update_id = none;
  bids = [];
  asks = [];
  event_time = pos 6;
}

abbrev at_ten : DepthSnapshot D
at_ten = record { last_update_id = 10; bids = raw 99 1 ∷ []; asks = [] }

book_of-replay_example :
    Reaches D
      (replay D
        (book_of D at_ten btc (from_millis (pos 4)))
        (deltas_of D btc (update 8 10 ∷ update 11 15 ∷ [])))
      (max 10 15)
      (ltb 10 15)
book_of-replay_example =
    book_of-replay D spot at_ten btc (from_millis (pos 4)) 7 (update 8 10 ∷ update 11 15 ∷ [])
      (omega arith) ((refl, refl, omega arith), ((refl, refl, omega arith), tt))

-- Listed twice over: the later price filter counts.
abbrev info : List (Filter D) → SymbolInfo D
info filters = record {
  symbol = "BTCUSDT";
  status = some "TRADING";
  contract_status = none;
  base_asset = "BTC";
  quote_asset = "USDT";
  margin_asset = none;
  filters = filters;
}

abbrev two_prices : List (Filter D)
two_prices = price_filter 5 ∷ lot_size 2 4 ∷ other_filter ∷ price_filter 7 ∷ []

instrument_of-listing_example :
    instrument_of D (info two_prices) spot
    ≡ listing D (info two_prices) spot (some 7) (some (2, 4)) none
instrument_of-listing_example = instrument_of-listing D (info two_prices) spot

legal_depth_limit-Least_example :
    ((21 ≤ legal_depth_limit 21) ⊎ (legal_depth_limit 21 ≡ 5000))
    × (any_of (λ m. m == legal_depth_limit 21) limits ≡ true)
    × Least 21 (legal_depth_limit 21) limits
legal_depth_limit-Least_example = legal_depth_limit-Least 21

snapped_run : legal_depth_limit 101 ≡ 500
unfolding legal_depth_limit
snapped_run = refl

refused_run :
    stream_name texts (candles btc (pos 45000))
    ≡ err (malformed "binance publishes no candle interval of 0 ms")
unfolding stream_name interval_name
refused_run = refl

frame_run :
    control_frame texts "SUBSCRIBE" ("a" ∷ "b" ∷ []) 7
    ≡ "{\"method\":\"SUBSCRIBE\",\"params\":[\"a\",\"b\"],\"id\":0}"
unfolding control_frame
frame_run = refl

retryable-get_json_example :
    retryable texts (get_json {A = ℕ} texts (λ body. unreadable "eof") (answer 418 "banned")) ≡ true
retryable-get_json_example =
    retryable-get_json texts (λ body. unreadable "eof") (answer 418 "banned")

skipped_run :
    instruments_of D texts (info [] ∷ info two_prices ∷ []) spot
    ≡ instruments_of D texts (info two_prices ∷ []) spot
unfolding instruments_of instrument_of read_filters
skipped_run = refl
