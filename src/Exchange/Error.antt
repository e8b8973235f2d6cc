-- ===== src/Exchange/Error.antt =====
-- crates/exchange/src/lib.rs: what a connector can fail with.
use mooncat.Prelude.{ℕ, Bool, true, false, Option, String}
use mooncat.Domain.Ids.{MarketKind}

pub data Error : Type 0 where
  transport : String → Error
  rejected : (code message : String) → Error
  rate_limited : (retry_after_ms : Option ℕ) → Error
  auth malformed : String → Error
  unsupported : (what : String) (market : MarketKind) → Error

-- Whether the same request could succeed later.
unfoldable pub is_retryable : Error → Bool
is_retryable (transport s) = true
is_retryable (rate_limited ms) = true
is_retryable e = false
