-- ===== src/Exchange/Limits/Storm.antt =====
-- However fast requests come, `RateLimiter::check` of crates/exchange/src/limits.rs keeps every
-- window within its limit.
use mooncat.Prelude.{
  ℕ, ◌+◌, ◌-◌, ◌*◌, ◌/◌, ◌≤◌, ◌<◌, ◌≡◌, refl, arith, leb, max, if◌then◌else◌, u32_mod,
  saturating_add_u32,
}
use mooncat.Exchange.Limits.{
  Window, RateLimiter, Kind, request, order, Decision, send, wait, roll, charge, charge_orders,
  roll_all, with_headroom, check_rolled, check, observe_used,
}
use mooncat.Exchange.Limits.Windows.{roll_aligned}
use mooncat.Exchange.Limits.Budget.{OrderWindows, Open, check_rolled_send, sent_state}
use mooncat.Exchange.Limits.Retry.{limit-roll, with_headroom-roll_all, waited}

-- A window within its limit, on a clock that has not run 2^32 spans since, with room for the cost
-- in a `u32`.
abbrev pub Sound : ℕ → ℕ → Window → Type 0
Sound now cost w =
    (0 < w.span)
    × (w.started ≤ now)
    × ((now - w.started) / w.span < u32_mod)
    × (w.used ≤ w.limit)
    × (w.limit + cost < u32_mod)

abbrev pub AllSound : RateLimiter → ℕ → ℕ → Type 0
AllSound r now cost =
    Sound now cost r.weight
    × Sound now 1 r.orders_10s
    × Sound now 1 r.orders_1m
    × Sound now 1 r.orders_1d

-- Every window is within its limit.
abbrev pub Within : RateLimiter → Type 0
Within r =
    (r.weight.used ≤ r.weight.limit)
    × (r.orders_10s.used ≤ r.orders_10s.limit)
    × (r.orders_1m.used ≤ r.orders_1m.limit)
    × (r.orders_1d.used ≤ r.orders_1d.limit)

used-roll : (w : Window) (now : ℕ) → w.used ≤ w.limit → (roll w now).used ≤ (roll w now).limit
unfolding roll
used-roll w now h = ground arith

span-roll : (w : Window) (now : ℕ) → (roll w now).span ≡ w.span
unfolding roll
span-roll w now = ground arith

roll-Open : (w : Window) (now cost : ℕ) → Sound now cost w → Open now cost (roll w now)
roll-Open w now cost s =
    let aligned : ((roll w now).started ≡ w.started + w.span * ((now - w.started) / w.span))
        × ((roll w now).started ≤ now)
        × (now < (roll w now).started + w.span)
        × ((roll w now).used ≡ (if leb w.span (now - w.started) then 0 else w.used)) =
      roll_aligned w now s.0 s.1 s.2 in
    (
      omega (arith, span-roll w now, s.0),
      aligned.1,
      omega (arith, span-roll w now, aligned.2),
      omega (arith, limit-roll w now, used-roll w now s.3, s.4),
    )

used-charge :
    (w : Window) (cost : ℕ) → w.used + cost ≤ w.limit → (charge w cost).used ≤ (charge w cost).limit
unfolding charge saturating_add_u32
used-charge w cost h = ground arith

Within-charged :
    (r : RateLimiter) (kind : Kind) (weight : ℕ)
    → Within r
    → r.weight.used + weight ≤ r.weight.limit
    → OrderWindows r kind (λ w. w.used + 1 ≤ w.limit)
    → Within (charge_orders (record r { weight = charge r.weight weight }) kind)
Within-charged r request weight v h s = (used-charge r.weight weight h, v.1, v.2, v.3)
Within-charged r order weight v h s = (
  used-charge r.weight weight h,
  used-charge r.orders_10s 1 s.0,
  used-charge r.orders_1m 1 s.1,
  used-charge r.orders_1d 1 s.2,
)

check_rolled-Within :
    (r : RateLimiter) (kind : Kind) (weight now : ℕ)
    → weight ≤ with_headroom r weight
    → Open now (with_headroom r weight) r.weight
    → OrderWindows r kind (Open now 1)
    → Within r
    → Within (check_rolled r kind weight now).0
check_rolled-Within r kind weight now l o s v = by_decision (check_rolled r kind weight now).1 refl
  where
    by_decision :
        (d : Decision)
        → (check_rolled r kind weight now).1 ≡ d
        → Within (check_rolled r kind weight now).0
    by_decision send h =
        let fits : (r.weight.used + with_headroom r weight ≤ r.weight.limit)
            × OrderWindows r kind (λ w. w.used + 1 ≤ w.limit) =
          check_rolled_send r kind weight now o s h in
        rw (sent_state r kind weight now h)
          (Within-charged r kind weight v (omega (arith, fits.0)) fits.1)
    by_decision (wait d b) h = rw (waited r weight now now kind d b h).1 v

roll-Windows :
    (r : RateLimiter) (kind : Kind) (now cost : ℕ)
    → AllSound r now cost
    → OrderWindows (roll_all r now) kind (Open now 1)
unfolding roll_all
roll-Windows r request now cost s = tt
roll-Windows r order now cost s = (
  roll-Open r.orders_10s now 1 s.1,
  roll-Open r.orders_1m now 1 s.2,
  roll-Open r.orders_1d now 1 s.3,
)

roll-Within : (r : RateLimiter) (now cost : ℕ) → AllSound r now cost → Within (roll_all r now)
unfolding roll_all
roll-Within r now cost s = (
  used-roll r.weight now s.0.3,
  used-roll r.orders_10s now s.1.3,
  used-roll r.orders_1m now s.2.3,
  used-roll r.orders_1d now s.3.3,
)

-- If every window is sound, and weight and headroom together do not overflow, a check of any kind,
-- sent or refused, leaves every window within its limit.
pub check-Within :
    (r : RateLimiter) (kind : Kind) (weight now : ℕ)
    → weight ≤ with_headroom r weight
    → AllSound r now (with_headroom r weight)
    → Within (check r kind weight now).0
unfolding check
check-Within r kind weight now l s =
    let same : with_headroom (roll_all r now) weight ≡ with_headroom r weight =
      with_headroom-roll_all r weight now in
    check_rolled-Within (roll_all r now) kind weight now (rw same l)
      (rw same (unfold roll_all in roll-Open r.weight now (with_headroom r weight) s.0))
      (roll-Windows r kind now (with_headroom r weight) s)
      (roll-Within r now (with_headroom r weight) s)

-- The venue's own count is adopted if it is higher than the window's, and never lowers it.
pub observe_used-max :
    (r : RateLimiter) (venue_used now : ℕ)
    → (observe_used r venue_used now).weight.used ≡ max (roll r.weight now).used venue_used
unfolding observe_used roll_all
observe_used-max r venue_used now = ground arith
