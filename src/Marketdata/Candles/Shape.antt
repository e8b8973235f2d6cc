-- ===== src/Marketdata/Candles/Shape.antt =====
-- What a series of candles of crates/marketdata/src/candles.rs looks like after any tape.
use mooncat.Prelude.{
  ℕ, zero, suc, ◌+◌, ◌≤◌, ◌<◌, ◌≡◌, refl, sym, ◌∙◌, true, false, not, ◌&&◌, List, [], ◌∷◌, leb, ltb,
  length, add_u32, add_u32_lem, u32_mod, arith, All, All-weaken, Bool-cases, inl, inr,
}
use mooncat.Prelude.Int.{ℤ, ltb_ℤ, eqb_ℤ, ◌<ℤ◌}
use mooncat.Domain.Decimals.{Decimals}
use mooncat.Domain.Time.{Timestamp}
use mooncat.Marketdata.Candles.{
  PublicTrade, Candle, Bucketing, ticks, time, extended, opened_on, newest, roll, fold_time,
  fold_ticks, filled, fold, bucket_start,
}

module _ (D : Decimals) where
  -- The series of one instrument after a tape of its trades.
  abbrev pub fold_all : Bucketing → ℕ → List (Candle D) → List (PublicTrade D) → List (Candle D)
  fold_all bucketing capacity series [] = series
  fold_all bucketing capacity series (t ∷ ts) =
      fold_all bucketing capacity (fold D bucketing series t capacity).0 ts

  All-newest :
      (P : Candle D → Type 0) (n : ℕ) (cs : List (Candle D)) → All P cs → All P (newest D n cs)
  All-newest P zero cs h = tt
  All-newest P (suc n) [] h = tt
  All-newest P (suc n) (c ∷ cs) h = (h.0, All-newest P n cs h.1)

  length-newest : (n : ℕ) (cs : List (Candle D)) → length (newest D n cs) ≤ n
  length-newest zero cs = omega arith
  length-newest (suc n) [] = omega arith
  length-newest (suc n) (c ∷ cs) = omega (arith, length-newest n cs)

  -- Every bar but the newest is closed and has exactly `count` prints; the newest has at least one, at
  -- most `count`, and is closed exactly when it is full.
  abbrev Full : ℕ → Candle D → Type 0
  Full count c = (c.closed ≡ true) × (◌≡◌ {A = ℕ} c.trades count)

  abbrev Filling : ℕ → Candle D → Type 0
  Filling count c = (1 ≤ c.trades) × (c.trades ≤ count) × (c.closed ≡ leb count c.trades)

  abbrev pub TickShape : ℕ → List (Candle D) → Type 0
  TickShape count [] = Unit
  TickShape count (c ∷ cs) = Filling count c × All (Full count) cs

  TickShape-newest :
      (count n : ℕ) (cs : List (Candle D)) → TickShape count cs → TickShape count (newest D n cs)
  TickShape-newest count zero cs h = tt
  TickShape-newest count (suc n) [] h = tt
  TickShape-newest count (suc n) (c ∷ cs) h = (h.0, All-newest (Full count) n cs h.1)

  filled-Filling :
      (count : ℕ) (c : Candle D) (t : PublicTrade D)
      → c.trades < count
      → count < u32_mod
      → c.closed ≡ false
      → Filling count (filled D (extended D c t) count)
  unfolding extended
  filled-Filling count c t l m o =
      let one_more : add_u32 c.trades 1 ≡ c.trades + 1 =
        add_u32_lem c.trades 1 (omega (arith, l, m)) in
      elim (Bool-cases (leb count (c.trades + 1))) [
        | inl full ↦ rw (one_more, full) (omega arith, omega (arith, l), sym full)
        | inr more ↦ rw (one_more, more) (omega arith, omega (arith, l), o ∙ sym more)
      ]

  -- A bar that has no room is full.
  no_room :
      (count : ℕ) (c : Candle D)
      → Filling count c
      → (not c.closed && ltb c.trades count) ≡ false
      → Full count (record c { closed = true })
  no_room count c (p, q, o) e = (
    refl,
    elim (Bool-cases c.closed) [
      | inl done ↦ ground (arith, p, q, sym o ∙ done)
      | inr live ↦ ground (arith, p, q, live, e)
    ],
  )

  opened-Filling :
      (count : ℕ) (t : PublicTrade D) (at : Timestamp)
      → 1 ≤ count
      → Filling count (opened_on D t at (ticks count))
  unfolding opened_on
  opened-Filling count t at h = (omega arith, h, refl)

  fold_ticks-TickShape :
      (count capacity : ℕ) (cs : List (Candle D)) (t : PublicTrade D)
      → 1 ≤ count
      → count < u32_mod
      → TickShape count cs
      → TickShape count (fold_ticks D cs t count (ticks count) capacity).0
  unfolding fold_ticks roll
  fold_ticks-TickShape count capacity [] t p m h =
      TickShape-newest count capacity _ (opened-Filling count t t.ts p, tt)
  fold_ticks-TickShape count capacity (c ∷ cs) t p m h =
      elim (Bool-cases (not c.closed && ltb c.trades count)) [
        | inl e ↦ rw e (filled-Filling count c t (ground (arith, e)) m (ground (arith, e)), h.1)
        | inr e ↦ rw e (
            TickShape-newest count capacity _
              (opened-Filling count t t.ts p, (no_room count c h.0 e, h.1)))
      ]

  -- For a count between 1 and 2^32 - 1, whatever the tape: if it holds before, then after the tape,
  -- in a tick series, every bar but the newest is closed and has exactly the number of prints of a
  -- bar, and the newest has at least one and is closed exactly when it is full.
  pub fold_all-TickShape :
      (count capacity : ℕ) (cs : List (Candle D)) (ts : List (PublicTrade D))
      → 1 ≤ count
      → count < u32_mod
      → TickShape count cs
      → TickShape count (fold_all (ticks count) capacity cs ts)
  fold_all-TickShape count capacity cs [] p m h = h
  fold_all-TickShape count capacity cs (t ∷ ts) p m h =
      fold_all-TickShape count capacity (fold_ticks D cs t count (ticks count) capacity).0 ts p m
        (fold_ticks-TickShape count capacity cs t p m h)

  -- Every bar is past the ones before it, and every bar but the newest is closed.
  abbrev Before : Candle D → Candle D → Type 0
  Before c d = (d.open_time.millis <ℤ c.open_time.millis) × (d.closed ≡ true)

  abbrev pub TimeShape : List (Candle D) → Type 0
  TimeShape [] = Unit
  TimeShape (c ∷ cs) = All (Before c) cs × TimeShape cs

  TimeShape-newest : (n : ℕ) (cs : List (Candle D)) → TimeShape cs → TimeShape (newest D n cs)
  TimeShape-newest zero cs h = tt
  TimeShape-newest (suc n) [] h = tt
  TimeShape-newest (suc n) (c ∷ cs) h = (All-newest (Before c) n cs h.0, TimeShape-newest n cs h.1)

  fold_time-TimeShape :
      (interval : ℤ) (capacity : ℕ) (cs : List (Candle D)) (t : PublicTrade D)
      → TimeShape cs
      → TimeShape (fold_time D cs t interval (time interval) capacity).0
  unfolding fold_time roll
  fold_time-TimeShape interval capacity [] t h = TimeShape-newest capacity _ (tt, tt)
  fold_time-TimeShape interval capacity (c ∷ cs) t h =
      elim (Bool-cases (ltb_ℤ (bucket_start t.ts interval).millis c.open_time.millis)) [
        | inl old ↦ rw old h
        | inr not_old ↦
            elim (Bool-cases (eqb_ℤ (bucket_start t.ts interval).millis c.open_time.millis)) [
              | inl same ↦ rw (not_old, same) (unfold extended in h)
              | inr later ↦
                  let past : c.open_time.millis <ℤ (bucket_start t.ts interval).millis =
                    ground (arith, not_old, later) in
                  rw (not_old, later)
                    (TimeShape-newest capacity _ (
                      (
                        ((unfold opened_on in past), refl),
                        All-weaken
                            (Before (opened_on D t (bucket_start t.ts interval) (time interval)))
                            (Before c)
                            (λ d (early, shut).
                              ((unfold opened_on in omega (arith, early, past)), shut))
                            cs h.0,
                      ),
                      h,
                    ))
            ]
      ]

  -- Whatever the tape, with prints out of order or replayed, the bars of a time series are in strictly
  -- ascending order of their opening times, and every bar but the newest is closed.
  pub fold_all-TimeShape :
      (interval : ℤ) (capacity : ℕ) (cs : List (Candle D)) (ts : List (PublicTrade D))
      → TimeShape cs
      → TimeShape (fold_all (time interval) capacity cs ts)
  fold_all-TimeShape interval capacity cs [] h = h
  fold_all-TimeShape interval capacity cs (t ∷ ts) h =
      fold_all-TimeShape interval capacity (fold_time D cs t interval (time interval) capacity).0 ts
        (fold_time-TimeShape interval capacity cs t h)
