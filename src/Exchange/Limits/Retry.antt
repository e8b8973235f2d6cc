-- ===== src/Exchange/Limits/Retry.antt =====
-- After the wait that `RateLimiter::check` of crates/exchange/src/limits.rs asks for, the same
-- request goes out.
use mooncat.Prelude.{
  ℕ, ◌+◌, ◌≤◌, ◌<◌, ◌≡◌, refl, sym, ap, ◌∙◌, Option, none, some, String, arith, u32_mod, add_u64,
  keep_if,
}
use mooncat.Exchange.Limits.{
  Window, RateLimiter, Kind, send, wait, roll, roll_all, with_headroom, budgets, longest, decide,
  check_rolled,
}
use mooncat.Exchange.Limits.Budget.{waits, wait_of, max_wait, wait_of-longest}

pub limit-roll : (w : Window) (now : ℕ) → (roll w now).limit ≡ w.limit
unfolding roll
limit-roll w now = ground arith

pub with_headroom-roll_all :
    (r : RateLimiter) (weight later : ℕ)
    → with_headroom (roll_all r later) weight ≡ with_headroom r weight
unfolding with_headroom roll_all
with_headroom-roll_all r weight later = rw (limit-roll r.weight later) refl

-- A window that has started, can hold the cost at all, and does not overflow by it.
abbrev pub Usable : ℕ → ℕ → Window → Type 0
Usable now cost w = (0 < w.span) × (w.started ≤ now) × (w.used + cost < u32_mod) × (cost ≤ w.limit)

module _ (r : RateLimiter) (weight now later : ℕ) where
  pub waited :
      (kind : Kind) (d : ℕ) (b : String)
      → (check_rolled r kind weight now).1 ≡ wait d b
      → (max_wait (budgets r kind (with_headroom r weight) now) ≡ d)
        × ((check_rolled r kind weight now).0 ≡ record r { deferred = add_u64 r.deferred 1 })
  unfolding check_rolled
  waited kind d b h =
      from_longest (longest (keep_if waits (budgets r kind (with_headroom r weight) now))) refl h
    where
      from_longest :
          (o : Option (String × ℕ))
          → longest (keep_if waits (budgets r kind (with_headroom r weight) now)) ≡ o
          → (decide r kind weight o).1 ≡ wait d b
          → (max_wait (budgets r kind (with_headroom r weight) now) ≡ d)
            × ((decide r kind weight o).0 ≡ record r { deferred = add_u64 r.deferred 1 })
      from_longest none e k = absurd (not_waiting k)
        where
          not_waiting : send ≡ wait d b → ⊥
          not_waiting k = cc
      from_longest (some (n, w)) e k = (
        sym (wait_of-longest (budgets r kind (with_headroom r weight) now)) ∙ ap wait_of e ∙ cc,
        refl,
      )
