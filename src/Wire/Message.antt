-- ===== src/Wire/Message.antt =====
-- crates/wire/src/lib.rs: the messages of the terminal protocol. A token is the list of its bytes; the
-- text of a failure is left out.
use mooncat.Prelude.{ℕ, Bool, true, false, List}
use mooncat.Domain.Decimals.{Decimals}
use mooncat.Domain.Event.{Event}
use mooncat.Wire.Subscription.{Subscription}

abbrev pub protocol_version : ℕ
protocol_version = 2

pub data ErrorCode : Type 0 where
  protocol_mismatch unauthorized not_authenticated malformed too_large : ErrorCode

-- Whether the connection is dropped after the error.
unfoldable pub is_fatal : ErrorCode → Bool
is_fatal protocol_mismatch = true
is_fatal unauthorized = true
is_fatal not_authenticated = true
is_fatal malformed = false
is_fatal too_large = true

pub data ClientMsg : Type 0 where
  hello : ℕ → List ℕ → ClientMsg
  subscribe unsubscribe : List Subscription → ClientMsg
  ping : ℕ → ClientMsg

pub data ServerMsg (D : Decimals) : Type 0 where
  welcome pong : ℕ → ServerMsg D
  event : Event D → ServerMsg D
  failed : ErrorCode → ServerMsg D
