-- ===== src/Exchange/Limits/Windows.antt =====
-- One counted window of crates/exchange/src/limits.rs.
use native.Mathlib.Nat.{div-add-mod, mod-lt, mod-eq_of_lt, div-eq_of_lt}
use mooncat.Prelude.{
  ℕ, ◌+◌, ◌-◌, ◌*◌, ◌/◌, ◌%◌, ◌≤◌, ◌<◌, ◌≡◌, ◌⊎◌, refl, arith, leb, if◌then◌else◌, max, u32_mod,
  add_u32_lem, Bool-cases, inl, inr, leb-false→lt,
}
use mooncat.Exchange.Limits.{Window, roll, wait_for}

-- A roll lands on the venue's window: a whole number of spans from the old start, with `now` inside
-- it. The count is kept if the window is still the same, and starts over if it is another one.
pub roll_aligned :
    (w : Window) (now : ℕ)
    → 0 < w.span
    → w.started ≤ now
    → (now - w.started) / w.span < u32_mod
    → ((roll w now).started ≡ w.started + w.span * ((now - w.started) / w.span))
      × ((roll w now).started ≤ now)
      × (now < (roll w now).started + w.span)
      × ((roll w now).used ≡ (if leb w.span (now - w.started) then 0 else w.used))
unfolding roll
roll_aligned w now p s u =
    let parts : w.span * ((now - w.started) / w.span) + (now - w.started) % w.span
        ≡ now - w.started =
      div-add-mod (now - w.started) w.span in
    let small : (now - w.started) % w.span < w.span = mod-lt (now - w.started) p in
    let same : max w.span 1 ≡ w.span = omega arith in
    elim (Bool-cases (leb w.span (now - w.started))) [
      | inl over ↦
          rw (over, same, mod-eq_of_lt u)
            (refl, omega (arith, parts), omega (arith, parts, small), refl)
      | inr within ↦
          let none_passed : (now - w.started) / w.span ≡ 0 =
            div-eq_of_lt (leb-false→lt _ _ within) in
          rw (within, none_passed) (omega arith, s, omega (arith, leb-false→lt _ _ within), refl)
    ]

-- A wait of zero means that the cost fits, and so does the charge of anything up to it.
pub wait_for-zero :
    (w : Window) (cost now : ℕ)
    → now < w.started + w.span
    → w.used + cost < u32_mod
    → wait_for w cost now ≡ 0
    → w.used + cost ≤ w.limit
unfolding wait_for
wait_for-zero w cost now n o h = ground (arith, add_u32_lem w.used cost o)

-- What is waited for is the end of the window, and no more.
pub wait_for-le :
    (w : Window) (cost now : ℕ)
    → (wait_for w cost now ≡ 0) ⊎ (now + wait_for w cost now ≡ w.started + w.span)
unfolding wait_for
wait_for-le w cost now = ground arith

-- After the wait the window has turned over, or the cost fitted all along: it fits then.
pub wait_for_enough :
    (w : Window) (cost now later : ℕ)
    → 0 < w.span
    → w.started ≤ now
    → now + wait_for w cost now ≤ later
    → w.used + cost < u32_mod
    → cost ≤ w.limit
    → wait_for (roll w later) cost later ≡ 0
unfolding roll wait_for
wait_for_enough w cost now later p s e o f =
    ground (arith, add_u32_lem w.used cost o, add_u32_lem 0 cost (omega arith))
