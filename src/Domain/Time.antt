-- ===== src/Domain/Time.antt =====
-- crates/domain/src/time.rs: milliseconds since the Unix epoch, signed.
use mooncat.Prelude.{Bool}
use mooncat.Prelude.Int.{ℤ, pos, sub_i64, eqb_ℤ}

pub record Timestamp : Type 0 where
  pub millis : ℤ

abbrev pub from_millis : ℤ → Timestamp
from_millis ms = record { millis = ms }

abbrev pub zero_time : Timestamp
zero_time = from_millis (pos 0)

pub is_zero : Timestamp → Bool
is_zero t = eqb_ℤ t.millis (pos 0)

-- Signed age of a stamp against a reference clock.
unfoldable pub age_millis_from : Timestamp → Timestamp → ℤ
age_millis_from t now = sub_i64 now.millis t.millis
