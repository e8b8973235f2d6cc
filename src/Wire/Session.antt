-- ===== src/Wire/Session.antt =====
-- crates/wire/src/session.rs: one terminal's connection.
pub mod Privacy
pub mod Tests
use Prim.Native.Nat.{bit_or, bit_xor}
use mooncat.Prelude.{
  ℕ, ◌≡◌, Bool, true, false, not, ◌&&◌, ◌||◌, List, [], ◌∷◌, ◌++◌, Option, none, some, ◌==◌,
  if◌then◌else◌, length, keep_if, any_of,
}
use mooncat.Domain.Decimals.{Decimals}
use mooncat.Domain.Ids.{Symbol}
use mooncat.Domain.Event.{Event, Payload, market, account, connection, symbol_of_market, is_private}
use mooncat.Wire.Message.{
  protocol_version, ErrorCode, protocol_mismatch, unauthorized, not_authenticated, is_fatal,
  ClientMsg, hello, subscribe, unsubscribe, ping, ServerMsg, welcome, pong, failed,
}
use mooncat.Wire.Subscription.{Subscription, symbol_of, contains, insert_all, same_symbol}

-- The core's shared secret, by its bytes.
pub record Auth : Type 0 where
  pub token : List ℕ

-- The loop of `verify`: `zip` stops with the shorter list.
unfoldable pub differences : ℕ → List ℕ → List ℕ → ℕ
differences diff [] ys = diff
differences diff (x ∷ xs) [] = diff
differences diff (x ∷ xs) (y ∷ ys) = differences (bit_or diff (bit_xor x y)) xs ys

-- Compares without a stop at the first difference.
unfoldable pub verify : Auth → List ℕ → Bool
verify a candidate =
    if not (length a.token == length candidate) then false else differences 0 a.token candidate == 0

pub record Session : Type 0 where
  pub authenticated : Bool
  pub subscriptions : List Subscription

abbrev pub new : Session
new = record { authenticated = false; subscriptions = [] }

pub record Reaction (D : Decimals) : Type 0 where
  pub reply : ServerMsg D
  pub close : Bool

module _ (D : Decimals) where
  unfoldable pub may_receive : Session → Event D → Bool
  may_receive s e = s.authenticated || not (is_private D e)

  abbrev pub watches : List Subscription → Option Symbol → Bool
  watches subs none = true
  watches subs (some symbol) = any_of (λ t. same_symbol (symbol_of t) symbol) subs

  abbrev pub asked_for : List Subscription → Payload D → Bool
  asked_for subs (market e) = watches subs (symbol_of_market D e)
  asked_for subs (account e) = true
  asked_for subs (connection e) = true

  -- Privacy first, then what was subscribed to.
  unfoldable pub wants : Session → Event D → Bool
  unfolding may_receive
  wants s e = if not (may_receive s e) then false else asked_for s.subscriptions e.payload

  abbrev pub fail : ErrorCode → Reaction D
  fail code = record { reply = failed code; close = is_fatal code }

  abbrev pub handle_hello : Session → ℕ → Bool → Session × Reaction D
  handle_hello s protocol verified =
      if not (protocol == protocol_version)
      then (s, fail protocol_mismatch)
      else if not verified
      then (s, fail unauthorized)
      else (
        record s { authenticated = true },
        record { reply = welcome protocol_version; close = false },
      )

  abbrev pub guarded : Session → Session × Reaction D → Session × Reaction D
  guarded s out = if not s.authenticated then (s, fail not_authenticated) else out

  -- `Session::handle`: the session after the message, and what is to be done.
  unfoldable pub handle : Session → ClientMsg → Auth → Session × Reaction D
  unfolding is_fatal
  handle s (hello protocol token) auth = handle_hello s protocol (verify auth token)
  handle s (subscribe subs) auth = guarded s (
    record s { subscriptions = insert_all s.subscriptions subs },
    record { reply = pong 0; close = false },
  )
  handle s (unsubscribe subs) auth = guarded s (
    record s { subscriptions = keep_if (λ held. not (contains subs held)) s.subscriptions },
    record { reply = pong 0; close = false },
  )
  handle s (ping nonce) auth = guarded s (s, record { reply = pong nonce; close = false })
