-- ===== src/Exchange/Tests.antt =====
-- Concrete runs of the rate limiter (crates/exchange/src/limits.rs), with times in nanoseconds.
use mooncat.Prelude.{ℕ, ◌≡◌, arith, add_u32}
use mooncat.Exchange.Limits.{
  Window, RateLimiter, order, new, binance_usdm, roll, wait_for, check, with_headroom,
}
use mooncat.Exchange.Limits.Windows.{wait_for_enough}
use mooncat.Exchange.Limits.Storm.{Within, check-Within}

abbrev window : Window
window = record { limit = 100; span = 60; used = 90; started = 1000 }

wait_for_enough_example : ◌≡◌ {A = ℕ} (wait_for (roll window 1060) 20 1060) 0
wait_for_enough_example =
    wait_for_enough window 20 1010 1060 (omega arith) (omega arith)
      (unfold wait_for add_u32 in omega arith) (omega arith) (omega arith)

abbrev limiter : RateLimiter
limiter = new binance_usdm 0

-- A venue that allows 100 per window, of which five are the headroom.
abbrev tight : ℕ → RateLimiter
tight used = record {
  weight = record { limit = 100; span = 60; used = used; started = 0 };
  orders_10s = record { limit = 10; span = 10; used = 0; started = 0 };
  orders_1m = record { limit = 20; span = 60; used = 0; started = 0 };
  orders_1d = record { limit = 50; span = 86400; used = 0; started = 0 };
  headroom_permille = 50;
  deferred = 0;
}

check-Within_example : Within (check (tight 90) order 20 5).0
check-Within_example =
    check-Within (tight 90) order 20 5 (unfold with_headroom add_u32 in omega arith) (
      unfold with_headroom add_u32 in
      (
        (omega arith, omega arith, omega arith, omega arith, omega arith),
        (omega arith, omega arith, omega arith, omega arith, omega arith),
        (omega arith, omega arith, omega arith, omega arith, omega arith),
        (omega arith, omega arith, omega arith, omega arith, omega arith),
      ))
