-- ===== src/Exchange/Limits/Budget.antt =====
-- What `RateLimiter::check` of crates/exchange/src/limits.rs lets through.
use mooncat.Prelude.{
  ℕ, ◌+◌, ◌≤◌, ◌<◌, ◌≡◌, refl, sym, ap, ◌∙◌, Bool, true, not, List, [], ◌∷◌, Option, none, some,
  String, arith, ◌==◌, max, u32_mod, Bool-cases, Option-cases, inl, inr, keep_if,
}
use mooncat.Exchange.Limits.{
  Window, RateLimiter, Kind, request, order, send, charge, with_headroom, budgets, longer, longest,
  charge_orders, decide, check_rolled,
}
use mooncat.Exchange.Limits.Windows.{wait_for-zero}

abbrev pub waits : String × ℕ → Bool
waits b = not (b.1 == 0)

-- The longest of some waits, and zero if there is none.
abbrev pub wait_of : Option (String × ℕ) → ℕ
wait_of none = 0
wait_of (some b) = b.1

abbrev pub max_wait : List (String × ℕ) → ℕ
max_wait [] = 0
max_wait (b ∷ bs) = max b.1 (max_wait bs)

wait_of-longer :
    (b : String × ℕ) (o : Option (String × ℕ)) → wait_of (some (longer b o)) ≡ max b.1 (wait_of o)
wait_of-longer b none = omega arith
wait_of-longer b (some d) = ground arith

pub wait_of-longest : (bs : List (String × ℕ)) → wait_of (longest (keep_if waits bs)) ≡ max_wait bs
unfolding longest
wait_of-longest [] = refl
wait_of-longest (b ∷ bs) = elim (Bool-cases (b.1 == 0)) [
  | inl z ↦ rw z (wait_of-longest bs ∙ zero_first b.1 (max_wait bs) z)
  | inr p ↦ rw p (wait_of-longer b (longest (keep_if waits bs)) ∙ ap (max b.1) (wait_of-longest bs))
]
  where
    zero_first : (n m : ℕ) → (n == 0) ≡ true → m ≡ max n m
    zero_first n m h = ground arith

-- The windows that a request of a kind draws on.
abbrev pub OrderWindows : RateLimiter → Kind → (Window → Type 0) → Type 0
OrderWindows r request P = Unit
OrderWindows r order P = P r.orders_10s × P r.orders_1m × P r.orders_1d

-- `now` lies in the current span of the window, and its count is no overflow away from the cost.
abbrev pub Open : ℕ → ℕ → Window → Type 0
Open now cost w =
    (0 < w.span) × (w.started ≤ now) × (now < w.started + w.span) × (w.used + cost < u32_mod)

send_waits :
    (r : RateLimiter) (kind : Kind) (weight now : ℕ)
    → (check_rolled r kind weight now).1 ≡ send
    → max_wait (budgets r kind (with_headroom r weight) now) ≡ 0
unfolding check_rolled
send_waits r kind weight now h =
    elim (Option-cases (longest (keep_if waits (budgets r kind (with_headroom r weight) now)))) [
      | inl idle ↦
          sym (wait_of-longest (budgets r kind (with_headroom r weight) now)) ∙ ap wait_of idle
      | inr (b, e) ↦ absurd (not_sent b (ap (λ o. (decide r kind weight o).1) (sym e) ∙ h))
    ]
  where
    not_sent : (b : String × ℕ) → (decide r kind weight (some b)).1 ≡ send → ⊥
    not_sent (n, w) k = cc

-- If the windows are open, what is sent fits: with the headroom on top, the weight stays within its limit, and so does the
-- count of each order window for an order.
pub check_rolled_send :
    (r : RateLimiter) (kind : Kind) (weight now : ℕ)
    → Open now (with_headroom r weight) r.weight
    → OrderWindows r kind (Open now 1)
    → (check_rolled r kind weight now).1 ≡ send
    → (r.weight.used + with_headroom r weight ≤ r.weight.limit)
      × OrderWindows r kind (λ w. w.used + 1 ≤ w.limit)
check_rolled_send r request weight now o s h =
    let z : max_wait (budgets r request (with_headroom r weight) now) ≡ 0 =
      send_waits r request weight now h in
    (wait_for-zero r.weight (with_headroom r weight) now o.2 o.3 (omega (arith, z)), tt)
check_rolled_send r order weight now o s h =
    let z : max_wait (budgets r order (with_headroom r weight) now) ≡ 0 =
      send_waits r order weight now h in
    (
      wait_for-zero r.weight (with_headroom r weight) now o.2 o.3 (omega (arith, z)),
      (
        wait_for-zero r.orders_10s 1 now s.0.2 s.0.3 (omega (arith, z)),
        wait_for-zero r.orders_1m 1 now s.1.2 s.1.3 (omega (arith, z)),
        wait_for-zero r.orders_1d 1 now s.2.2 s.2.3 (omega (arith, z)),
      ),
    )

pub sent_state :
    (r : RateLimiter) (kind : Kind) (weight now : ℕ)
    → (check_rolled r kind weight now).1 ≡ send
    → (check_rolled r kind weight now).0
      ≡ charge_orders (record r { weight = charge r.weight weight }) kind
unfolding check_rolled
sent_state r kind weight now h =
    from_longest (longest (keep_if waits (budgets r kind (with_headroom r weight) now))) h
  where
    from_longest :
        (o : Option (String × ℕ))
        → (decide r kind weight o).1 ≡ send
        → (decide r kind weight o).0
          ≡ charge_orders (record r { weight = charge r.weight weight }) kind
    from_longest none k = refl
    from_longest (some (n, w)) k = cc
