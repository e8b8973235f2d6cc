-- ===== src/Exchange/Limits.antt =====
-- crates/exchange/src/limits.rs: staying inside what the venue will accept. An `Instant` and a
-- `Duration` are numbers of nanoseconds; counters are `u32`, and their sums wrap.
pub mod Windows
pub mod Budget
pub mod Retry
pub mod Storm
use mooncat.Prelude.{
  ℕ, suc, ◌+◌, ◌-◌, ◌*◌, ◌/◌, ◌%◌, ◌≡◌, Bool, true, false, List, [], ◌∷◌, Option, none, some,
  String, ltb, leb, ◌==◌, if◌then◌else◌, max, keep_if, not, u32_mod, add_u32, add_u64,
  saturating_add_u32,
}

pub record Window : Type 0 where
  pub limit : ℕ
  pub span : ℕ
  pub used : ℕ
  pub started : ℕ

abbrev pub new_window : ℕ → ℕ → ℕ → Window
new_window limit span now = record { limit = limit; span = span; used = 0; started = now }

-- Whole spans are jumped, and `spans as u32` truncates.
unfoldable pub roll : Window → ℕ → Window
roll w now =
    if leb w.span (now - w.started)
    then record w {
      used = 0;
      started = w.started + w.span * ((now - w.started) / max w.span 1 % u32_mod);
    }
    else w

-- How long until `cost` would fit, or zero if it fits now.
unfoldable pub wait_for : Window → ℕ → ℕ → ℕ
wait_for w cost now = if leb (add_u32 w.used cost) w.limit then 0 else w.started + w.span - now

unfoldable pub charge : Window → ℕ → Window
charge w cost = record w { used = saturating_add_u32 w.used cost }

pub remaining : Window → ℕ
remaining w = w.limit - w.used

pub data Kind : Type 0 where
  request order : Kind

pub record Profile : Type 0 where
  pub weight_per_minute : ℕ
  pub orders_per_10s : ℕ
  pub orders_per_minute : ℕ
  pub orders_per_day : ℕ

abbrev pub binance_spot : Profile
binance_spot = record {
  weight_per_minute = 6000;
  orders_per_10s = 100;
  orders_per_minute = 1200;
  orders_per_day = 200000;
}

abbrev pub binance_usdm : Profile
binance_usdm = record {
  weight_per_minute = 2400;
  orders_per_10s = 300;
  orders_per_minute = 1200;
  orders_per_day = 200000;
}

pub data Decision : Type 0 where
  send : Decision
  wait : ℕ → String → Decision

pub record RateLimiter : Type 0 where
  pub weight : Window
  pub orders_10s : Window
  pub orders_1m : Window
  pub orders_1d : Window
  pub headroom_permille : ℕ
  pub deferred : ℕ

abbrev pub default_headroom_permille : ℕ
default_headroom_permille = 50

abbrev pub seconds : ℕ → ℕ
seconds n = n * 1000000000

unfoldable pub new : Profile → ℕ → RateLimiter
new p now = record {
  weight = new_window p.weight_per_minute (seconds 60) now;
  orders_10s = new_window p.orders_per_10s (seconds 10) now;
  orders_1m = new_window p.orders_per_minute (seconds 60) now;
  orders_1d = new_window p.orders_per_day (seconds 86400) now;
  headroom_permille = default_headroom_permille;
  deferred = 0;
}

-- `RateLimiter::roll`.
unfoldable pub roll_all : RateLimiter → ℕ → RateLimiter
roll_all r now = record r {
  weight = roll r.weight now;
  orders_10s = roll r.orders_10s now;
  orders_1m = roll r.orders_1m now;
  orders_1d = roll r.orders_1d now;
}

-- A cost inflated by the headroom.
unfoldable pub with_headroom : RateLimiter → ℕ → ℕ
with_headroom r weight =
    add_u32 weight (max (r.weight.limit * r.headroom_permille % u32_mod / 1000) 1)

-- The waits that each budget asks for.
abbrev pub budgets : RateLimiter → Kind → ℕ → ℕ → List (String × ℕ)
budgets r request effective now = ("weight", wait_for r.weight effective now) ∷ []
budgets r order effective now =
    ("weight", wait_for r.weight effective now)
    ∷ ("orders_10s", wait_for r.orders_10s 1 now)
    ∷ ("orders_1m", wait_for r.orders_1m 1 now)
    ∷ ("orders_1d", wait_for r.orders_1d 1 now)
    ∷ []

-- `max_by_key` on the waits; of equal ones it returns the last.
abbrev pub longer : String × ℕ → Option (String × ℕ) → String × ℕ
longer b none = b
longer b (some c) = if leb b.1 c.1 then c else b

unfoldable pub longest : List (String × ℕ) → Option (String × ℕ)
longest [] = none
longest (b ∷ bs) = some (longer b (longest bs))

abbrev pub charge_orders : RateLimiter → Kind → RateLimiter
charge_orders r request = r
charge_orders r order = record r {
  orders_10s = charge r.orders_10s 1;
  orders_1m = charge r.orders_1m 1;
  orders_1d = charge r.orders_1d 1;
}

abbrev pub decide : RateLimiter → Kind → ℕ → Option (String × ℕ) → RateLimiter × Decision
decide r kind weight (some (budget, w)) =
    (record r { deferred = add_u64 r.deferred 1 }, wait w budget)
decide r kind weight none =
    (charge_orders (record r { weight = charge r.weight weight }) kind, send)

-- Ask whether a request may go out, charging it if so; the windows have been rolled.
unfoldable pub check_rolled : RateLimiter → Kind → ℕ → ℕ → RateLimiter × Decision
check_rolled r kind weight now =
    decide r kind weight
      (longest (keep_if (λ b. not (b.1 == 0)) (budgets r kind (with_headroom r weight) now)))

unfoldable pub check : RateLimiter → Kind → ℕ → ℕ → RateLimiter × Decision
check r kind weight now = check_rolled (roll_all r now) kind weight now

-- Adopt the venue's own count of the weight used, upward only.
unfoldable pub observe_used : RateLimiter → ℕ → ℕ → RateLimiter
observe_used r venue_used now =
    let r' = roll_all r now in
    if ltb r'.weight.used venue_used
    then record r' { weight = record r'.weight { used = venue_used } }
    else r'

-- `ends_at.checked_sub(span).unwrap_or(now)`, with the origin of the clock at 0.
abbrev pub push_end : Window → Option ℕ → ℕ → Window
push_end w none now = w
push_end w (some after) now = record w {
  started = if leb w.span (now + after) then now + after - w.span else now;
}

unfoldable pub observe_rejection : RateLimiter → Option ℕ → ℕ → RateLimiter
observe_rejection r retry_after now = record r {
  weight = push_end (record r.weight { used = r.weight.limit }) retry_after now;
}
