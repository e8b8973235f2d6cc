-- ===== src/Terminal/Tests.antt =====
-- Concrete runs of the terminal's feed (crates/terminal/src/feed.rs) behind the core's loop
-- (crates/core/src/server.rs).
use mooncat.Prelude.{ℕ, ◌+◌, ◌*◌, ◌<◌, ◌≡◌, refl, true, List, [], ◌∷◌, ◌++◌, some, String}
use mooncat.Prelude.Int.{pos, negsuc}
use mooncat.Prelude.Assoc.{get, put, string_eq}
use mooncat.Domain.Ids.{key}
use mooncat.Domain.Time.{from_millis}
use mooncat.Domain.Book.{BookDelta, apply as apply_delta}
use mooncat.Domain.Event.{Event, market, book_snapshot, book_delta}
use mooncat.Domain.Tests.{D, btc, seeded, next}
use mooncat.Wire.Subscription.{Subscription, book, symbol_of, same}
use mooncat.Wire.Message.{ErrorCode}
use mooncat.Wire.Session.{Session}
use mooncat.Core.State.{new_state, apply, fold_snapshot, fold_delta}
use mooncat.Core.State.Keyed.{fed}
use mooncat.Terminal.Feed.{default_state}
use mooncat.Terminal.Feed.Received.{receive}
use mooncat.Terminal.Feed.Mirror.{subscribed, late_join}
use mooncat.Terminal.Clock.{parts, parts_of_day, parts_range, ms_per_day}
use mooncat.Marketdata.Candles.{rem_euclid}

-- The snapshot at update 10 is in the core before the terminal connects.
abbrev earlier : List (Event D)
earlier = record { at = from_millis (pos 1); payload = market (book_snapshot seeded) } ∷ []

-- The update to 12 is in the core's book, and waits in the terminal's queue.
abbrev queue : List (Event D)
queue = record { at = from_millis (pos 2); payload = market (book_delta next) } ∷ []

abbrev following : BookDelta D
following = record next { prev_update_id = 12; last_update_id = 13 }

abbrev rest : List (Event D)
rest = record { at = from_millis (pos 3); payload = market (book_delta following) } ∷ []

abbrev terminal_session : Session
terminal_session = record { authenticated = true; subscriptions = [] }

abbrev lag_text : ℕ → String
lag_text missed = "terminal fell behind"

abbrev describe : ErrorCode → String
describe code = "refused by the core"

abbrev wanted : List Subscription
wanted = book btc ∷ []

held :
    get (fed D (new_state D) (earlier ++ queue)).books (key btc)
    ≡ some (apply_delta D seeded next).0
unfolding fed new_state apply fold_snapshot fold_delta get put key apply_delta
held = refl

late_join_example :
    get
      (receive D lag_text describe wanted (pos 9) (default_state D) (
        subscribed D lag_text describe wanted
          (pos 9)
          (record { token = [] })
          (from_millis (pos 8))
          (fed D (new_state D) (earlier ++ queue))
          terminal_session
          wanted
          (queue ++ rest))).books
      (key btc)
    ≡ get (fed D (new_state D) ((earlier ++ queue) ++ rest)).books (key btc)
unfolding symbol_of
late_join_example =
    late_join D lag_text describe wanted (pos 9) (record { token = [] }) (from_millis (pos 8))
      earlier queue rest terminal_session wanted (book btc) (apply_delta D seeded next).0
      (default_state D) refl (unfold same in unfold key in refl) held (unfold apply_delta in refl)

-- 2023-11-14T22:13:20Z, and a second before the epoch.
parts_run : parts (pos 1700000000123) ≡ (22, 13, 20, 123)
unfolding parts parts_of_day
parts_run = refl

parts_before_epoch_run : parts (negsuc 999) ≡ (23, 59, 59, 0)
unfolding parts parts_of_day
parts_before_epoch_run = refl

parts_range_example :
    ((parts (negsuc 999)).0 < 24)
    × ((parts (negsuc 999)).1 < 60)
    × ((parts (negsuc 999)).2 < 60)
    × ((parts (negsuc 999)).3 < 1000)
    × ((((parts (negsuc 999)).0 * 60 + (parts (negsuc 999)).1) * 60 + (parts (negsuc 999)).2) * 1000
          + (parts (negsuc 999)).3
        ≡ rem_euclid (negsuc 999) ms_per_day)
parts_range_example = parts_range (negsuc 999)
