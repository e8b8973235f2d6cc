-- ===== src/Exchange/Caps.antt =====
-- crates/exchange/src/caps.rs: what a venue offers on one market, as a mask of flags.
pub mod Granted
pub mod Tests
use Prim.Native.Nat.{bit_and, bit_or}
use mooncat.Prelude.{
  ℕ, ◌-◌, ◌^◌, Bool, List, [], ◌∷◌, Option, none, some, String, ◌==◌, if◌then◌else◌, map, keep_if,
}
use mooncat.Domain.Ids.{MarketKind, concat}
use mooncat.Exchange.Error.{Error, unsupported}

pub record Caps : Type 0 where
  pub mask : ℕ

-- `Self(1 << i)`.
abbrev pub flag : ℕ → Caps
flag i = record { mask = 2 ^ i }

abbrev pub limit : Caps
limit = flag 0

abbrev pub market : Caps
market = flag 1

abbrev pub stop_market : Caps
stop_market = flag 2

abbrev pub stop_limit : Caps
stop_limit = flag 3

abbrev pub take_profit : Caps
take_profit = flag 4

abbrev pub trailing_stop : Caps
trailing_stop = flag 5

abbrev pub post_only : Caps
post_only = flag 6

abbrev pub ioc : Caps
ioc = flag 7

abbrev pub fok : Caps
fok = flag 8

abbrev pub reduce_only : Caps
reduce_only = flag 9

abbrev pub amend_in_place : Caps
amend_in_place = flag 10

abbrev pub cancel_all : Caps
cancel_all = flag 11

abbrev pub client_order_id : Caps
client_order_id = flag 12

abbrev pub batch_orders : Caps
batch_orders = flag 13

abbrev pub hedge_mode : Caps
hedge_mode = flag 14

abbrev pub isolated_margin : Caps
isolated_margin = flag 15

abbrev pub set_leverage : Caps
set_leverage = flag 16

abbrev pub liquidation_price : Caps
liquidation_price = flag 17

abbrev pub funding : Caps
funding = flag 18

abbrev pub book_deltas : Caps
book_deltas = flag 19

abbrev pub book_depth_choice : Caps
book_depth_choice = flag 20

abbrev pub liquidation_feed : Caps
liquidation_feed = flag 21

abbrev pub candle_history : Caps
candle_history = flag 22

abbrev pub trade_history : Caps
trade_history = flag 23

abbrev pub mark_price : Caps
mark_price = flag 24

abbrev pub wallet_transfer : Caps
wallet_transfer = flag 25

abbrev pub user_stream : Caps
user_stream = flag 26

abbrev pub key_expiry : Caps
key_expiry = flag 27

abbrev pub testnet : Caps
testnet = flag 28

-- `Caps::NONE`.
abbrev pub no_caps : Caps
no_caps = record { mask = 0 }

unfoldable pub contains : Caps → Caps → Bool
contains c other = bit_and c.mask other.mask == other.mask

unfoldable pub union : Caps → Caps → Caps
union c other = record { mask = bit_or c.mask other.mask }

-- `!` is the complement in 64 bits.
unfoldable pub without : Caps → Caps → Caps
without c other = record { mask = bit_and c.mask (2 ^ 64 - 1 - other.mask) }

pub is_empty : Caps → Bool
is_empty c = c.mask == 0

-- `none` is `Ok`.
unfoldable pub require : Caps → Caps → String → MarketKind → Option Error
require c needed what market = if contains c needed then none else some (unsupported what market)

abbrev all_flags : List (Caps × String)
all_flags =
    (limit, "limit")
    ∷ (market, "market")
    ∷ (stop_market, "stop_market")
    ∷ (stop_limit, "stop_limit")
    ∷ (take_profit, "take_profit")
    ∷ (trailing_stop, "trailing_stop")
    ∷ (post_only, "post_only")
    ∷ (ioc, "ioc")
    ∷ (fok, "fok")
    ∷ (reduce_only, "reduce_only")
    ∷ (amend_in_place, "amend_in_place")
    ∷ (cancel_all, "cancel_all")
    ∷ (client_order_id, "client_order_id")
    ∷ (batch_orders, "batch_orders")
    ∷ (hedge_mode, "hedge_mode")
    ∷ (isolated_margin, "isolated_margin")
    ∷ (set_leverage, "set_leverage")
    ∷ (liquidation_price, "liquidation_price")
    ∷ (funding, "funding")
    ∷ (book_deltas, "book_deltas")
    ∷ (book_depth_choice, "book_depth_choice")
    ∷ (liquidation_feed, "liquidation_feed")
    ∷ (candle_history, "candle_history")
    ∷ (trade_history, "trade_history")
    ∷ (mark_price, "mark_price")
    ∷ (wallet_transfer, "wallet_transfer")
    ∷ (user_stream, "user_stream")
    ∷ (key_expiry, "key_expiry")
    ∷ (testnet, "testnet")
    ∷ []

unfoldable pub names : Caps → List String
names c =
    map (λ (f : Caps × String). f.1) (keep_if (λ (f : Caps × String). contains c f.0) all_flags)

-- `join(" | ")`.
abbrev joined : String → List String → String
joined s [] = s
joined s (t ∷ ts) = concat s (concat " | " (joined t ts))

abbrev text_of : List String → String
text_of [] = ""
text_of (s ∷ ss) = joined s ss

-- `Display`.
pub shown : Caps → String
shown c = if is_empty c then "none" else text_of (names c)

abbrev pub union_all : Caps → List Caps → Caps
union_all c [] = c
union_all c (f ∷ fs) = union_all (union c f) fs

unfoldable pub all_known : Caps
all_known = union_all no_caps (
    limit ∷ market ∷ stop_market ∷ stop_limit ∷ take_profit ∷ trailing_stop ∷ post_only ∷ ioc ∷ fok
    ∷ reduce_only ∷ amend_in_place ∷ cancel_all ∷ client_order_id ∷ batch_orders ∷ hedge_mode
    ∷ isolated_margin ∷ set_leverage ∷ liquidation_price ∷ funding ∷ book_deltas ∷ book_depth_choice
    ∷ liquidation_feed ∷ candle_history ∷ trade_history ∷ mark_price ∷ wallet_transfer ∷ user_stream
    ∷ key_expiry ∷ testnet ∷ [])

unfoldable pub binance_spot : Caps
binance_spot = union_all limit (
    market ∷ stop_limit ∷ post_only ∷ ioc ∷ fok ∷ cancel_all ∷ client_order_id ∷ book_deltas
    ∷ book_depth_choice ∷ candle_history ∷ trade_history ∷ wallet_transfer ∷ user_stream ∷ testnet
    ∷ [])

unfoldable pub binance_usdm : Caps
binance_usdm = union_all binance_spot (
    amend_in_place ∷ stop_market ∷ take_profit ∷ trailing_stop ∷ reduce_only ∷ batch_orders
    ∷ hedge_mode ∷ isolated_margin ∷ set_leverage ∷ liquidation_price ∷ funding ∷ liquidation_feed
    ∷ mark_price ∷ [])
