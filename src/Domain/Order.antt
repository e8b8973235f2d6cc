-- ===== src/Domain/Order.antt =====
-- crates/domain/src/order.rs: the states of an order, and which may follow which.
pub mod Progress
pub mod Record
use mooncat.Prelude.{ℕ, ◌≡◌, Bool, true, false, ◌&&◌, ◌||◌, ltb, ◌==◌, if◌then◌else◌}

pub data Side : Type 0 where
  buy sell : Side

pub opposite : Side → Side
opposite buy = sell
opposite sell = buy

pub data OrderType : Type 0 where
  limit market stop_market stop_limit take_profit_market take_profit_limit : OrderType

pub needs_price : OrderType → Bool
needs_price limit = true
needs_price stop_limit = true
needs_price take_profit_limit = true
needs_price _ = false

pub needs_trigger_price : OrderType → Bool
needs_trigger_price stop_market = true
needs_trigger_price stop_limit = true
needs_trigger_price take_profit_market = true
needs_trigger_price take_profit_limit = true
needs_trigger_price _ = false

pub data OrderStatus : Type 0 where
  pending new partially_filled filled canceled rejected expired : OrderStatus

unfoldable pub is_terminal : OrderStatus → Bool
is_terminal filled = true
is_terminal canceled = true
is_terminal rejected = true
is_terminal expired = true
is_terminal _ = false

pub is_open : OrderStatus → Bool
is_open pending = true
is_open new = true
is_open partially_filled = true
is_open _ = false

-- Rank used to reject out-of-order venue updates.
pub rank : OrderStatus → ℕ
rank pending = 0
rank new = 1
rank partially_filled = 2
rank filled = 3
rank canceled = 3
rank rejected = 3
rank expired = 3

-- Whether `next` is a legal successor.
pub can_advance_to : OrderStatus → OrderStatus → Bool
unfolding is_terminal rank
can_advance_to s next =
    if is_terminal s
    then false
    else ltb (rank s) (rank next) || (rank next == rank s && rank next == 2)
