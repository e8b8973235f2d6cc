-- ===== src/Terminal/Clock.antt =====
-- crates/terminal/src/clock.rs: the time of day of a stamp, in UTC.
use mooncat.Prelude.{ℕ, ◌+◌, ◌*◌, ◌/◌, ◌%◌, ◌<◌, ◌≡◌, arith}
use mooncat.Prelude.Int.{ℤ, pos, negsuc}
use mooncat.Marketdata.Candles.{rem_euclid}

abbrev pub ms_per_day : ℕ
ms_per_day = 86400000

-- Hours, minutes, seconds and milliseconds of a time of day.
unfoldable pub parts_of_day : ℕ → ℕ × ℕ × ℕ × ℕ
parts_of_day of_day =
    let seconds = of_day / 1000 in (seconds / 3600, seconds / 60 % 60, seconds % 60, of_day % 1000)

unfoldable pub parts : ℤ → ℕ × ℕ × ℕ × ℕ
parts millis = parts_of_day (rem_euclid millis ms_per_day)

rem_euclid-lt : (z : ℤ) → rem_euclid z ms_per_day < ms_per_day
rem_euclid-lt (pos n) = omega arith
rem_euclid-lt (negsuc n) = omega arith

-- Of any stamp, also one before the epoch, the parts lie in the ranges of a clock, and add up to the
-- stamp's place in its day.
pub parts_range :
    (millis : ℤ)
    → ((parts millis).0 < 24)
      × ((parts millis).1 < 60)
      × ((parts millis).2 < 60)
      × ((parts millis).3 < 1000)
      × ((((parts millis).0 * 60 + (parts millis).1) * 60 + (parts millis).2) * 1000
            + (parts millis).3
          ≡ rem_euclid millis ms_per_day)
unfolding parts parts_of_day
parts_range millis = of_day (rem_euclid millis ms_per_day) (rem_euclid-lt millis)
  where
    of_day :
        (d : ℕ)
        → d < 86400000
        → (d / 1000 / 3600 < 24)
          × (d / 1000 / 60 % 60 < 60)
          × (d / 1000 % 60 < 60)
          × (d % 1000 < 1000)
          × (((d / 1000 / 3600 * 60 + d / 1000 / 60 % 60) * 60 + d / 1000 % 60) * 1000 + d % 1000
              ≡ d)
    of_day d h = (omega arith, omega arith, omega arith, omega arith, omega arith)
