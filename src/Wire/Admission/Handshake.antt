-- ===== src/Wire/Admission/Handshake.antt =====
-- crates/wire/src/admission.rs: how many guesses an address gets (`admit`, `handshake_failed`).
use mooncat.Prelude.{
  ◌%◌, ℕ, suc, ◌+◌, ◌-◌, ◌≤◌, ◌<◌, ◌≡◌, refl, List, [], ◌∷◌, none, some, arith, ltb, leb, All,
  Bool-cases, subst, inl, inr, add_u32, false,
}
use mooncat.Prelude.Assoc.{get, put, get-put_self, nat_eq}
use mooncat.Wire.Admission.{
  Gatekeeper, Window, Admit, ok, banned, admit, admit_window, handshake_failed, count_failure,
  window_or_new,
}

-- The attempts that get through when an address keeps failing, at the times given.
abbrev try_on : Gatekeeper × Admit → ℕ → ℕ → (Gatekeeper → ℕ) → ℕ
try_on (g, ok) peer t k = suc (k (handshake_failed g peer t).0)
try_on (g, banned u) peer t k = k g

unfoldable pub tries : Gatekeeper → ℕ → List ℕ → ℕ
tries g peer [] = 0
tries g peer (t ∷ ts) = try_on (admit g peer t) peer t (λ g'. tries g' peer ts)

-- The record of an address that has failed `n` times since `start` and is not banned, or is
-- banned for the rest of the minute.
abbrev Counting : ℕ → ℕ → Window → Type 0
Counting start n w =
    (w.banned_until ≡ none)
    × (w.failures ≡ n)
    × (n < 5)
    × (start ≤ w.started)
    × (w.started < start + 60000)

abbrev BannedOut : ℕ → Window → Type 0
BannedOut start w = (u : ℕ) × (w.banned_until ≡ some u) × (start + 60000 ≤ u)

abbrev InMinute : ℕ → ℕ → Type 0
InMinute start t = (start ≤ t) × (t < start + 60000)

admit_window-Counting :
    (start n t : ℕ) (w : Window) → Counting start n w → admit_window w t ≡ (w, ok)
unfolding admit_window
admit_window-Counting start n t w c = rw c.0 refl

admit_window-BannedOut :
    (start t : ℕ) (w : Window) (b : BannedOut start w)
    → InMinute start t
    → admit_window w t ≡ (w, banned b.0)
unfolding admit_window
admit_window-BannedOut start t w (u, e, h) m = rw e (ground arith)

-- No failure inside the minute resets the count.
not_old :
    (start n t : ℕ) (w : Window)
    → Counting start n w
    → InMinute start t
    → ltb 60000 (t - w.started) ≡ false
not_old start n t w (b, f, l, s, s') m = ground arith

count_failure-Counting :
    (start n t : ℕ) (w : Window)
    → Counting start n w
    → InMinute start t
    → n < 4
    → Counting start (suc n) (count_failure w t).0
unfolding count_failure add_u32
count_failure-Counting start n t w c m l =
    let fits : leb 5 ((n + 1) % 4294967296) ≡ false = ground arith in
    rw (not_old start n t w c m, c.1, fits) (c.0, omega arith, omega arith, c.3, c.4)

count_failure-BannedOut :
    (start t : ℕ) (w : Window)
    → Counting start 4 w
    → InMinute start t
    → BannedOut start (count_failure w t).0
unfolding count_failure add_u32
count_failure-BannedOut start t w c m =
    rw (not_old start 4 t w c m, c.1) (t + 60000, refl, omega (arith, m))

module _ (start peer : ℕ) where
  tries-BannedOut :
      (g : Gatekeeper) (w : Window) (ts : List ℕ)
      → get g.attempts peer ≡ some w
      → BannedOut start w
      → All (InMinute start) ts
      → tries g peer ts ≡ 0
  unfolding tries admit
  tries-BannedOut g w [] e b m = refl
  tries-BannedOut g w (t ∷ ts) e b m =
      rw (e, admit_window-BannedOut start t w b m.0)
        (tries-BannedOut (record g { attempts = put g.attempts peer w }) w ts
          (get-put_self g.attempts peer w) b m.1)

  -- What is left of the minute after a failure that is counted on the record of the address.
  abbrev fail_on : Gatekeeper → Window → ℕ → Gatekeeper
  fail_on g w t = record g { attempts = put g.attempts peer (count_failure w t).0 }

  failed_step :
      (g : Gatekeeper) (w : Window) (t : ℕ)
      → get g.attempts peer ≡ some w
      → (handshake_failed g peer t).0 ≡ fail_on g w t
  unfolding handshake_failed
  failed_step g w t e = rw e refl

  abbrev seen : Gatekeeper → Window → Gatekeeper
  seen g w = record g { attempts = put g.attempts peer w }

  tries-Counting :
      (g : Gatekeeper) (w : Window) (n : ℕ) (ts : List ℕ)
      → get g.attempts peer ≡ some w
      → Counting start n w
      → All (InMinute start) ts
      → tries g peer ts + n ≤ 5
  unfolding tries admit
  tries-Counting g w n [] e c m = omega (arith, c)
  tries-Counting g w n (t ∷ ts) e c m =
      rw
        (
          e,
          admit_window-Counting start n t w c,
          failed_step (seen g w) w t (get-put_self g.attempts peer w),
        )
        (elim (Bool-cases (ltb n 4)) [
          | inl few ↦ omega (
            arith,
            tries-Counting (fail_on (seen g w) w t) (count_failure w t).0 (suc n) ts
                (get-put_self _ peer _) (count_failure-Counting start n t w c m.0 (ground arith))
                m.1,
          )
          | inr last ↦
              let n4 : ◌≡◌ {A = ℕ} n 4 = ground arith in
              omega (
                arith,
                n4,
                tries-BannedOut (fail_on (seen g w) w t) (count_failure w t).0 ts
                    (get-put_self _ peer _)
                    (count_failure-BannedOut start t w (subst (λ k. Counting start k w) n4 c) m.0)
                    m.1,
              )
        ])

  -- An address with no record gets at most five attempts through in any minute that begins with
  -- its first one, however many it makes, if all of them fail.
  pub tries_le :
      (g : Gatekeeper) (ts : List ℕ)
      → get g.attempts peer ≡ none
      → All (InMinute start) ts
      → tries g peer ts ≤ 5
  unfolding tries admit
  tries_le g [] e m = omega arith
  tries_le g (t ∷ ts) e m =
      let w : Window = window_or_new none t in
      let first : (handshake_failed g peer t).0 ≡ fail_on g w t =
        unfold handshake_failed in rw e refl in
      rw (e, first)
        (omega (
          arith,
          tries-Counting (fail_on g w t) (count_failure w t).0 1 ts (get-put_self _ peer _)
              (count_failure-Counting start 0 t w (refl, refl, omega arith, m.0.0, m.0.1) m.0
                (omega arith))
              m.1,
        ))
