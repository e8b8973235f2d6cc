-- ===== src/Core/Server.antt =====
-- crates/core/src/server.rs: the loop that serves one terminal, as a step for each thing that it waits
-- for. Frames of the WebSocket itself (pings, closing, text) are I/O. `lag_text` is the text of the
-- notice to a terminal that fell behind.
pub mod Handover
use mooncat.Prelude.{ℕ, Bool, true, false, List, [], ◌∷◌, ◌++◌, map, String, if◌then◌else◌}
use mooncat.Domain.Decimals.{Decimals}
use mooncat.Domain.Time.{Timestamp}
use mooncat.Domain.Event.{
  Event, market, connection, trade, candle, book_snapshot, resyncing, MarketEvent,
}
use mooncat.Marketdata.Candles.{Candle, PublicTrade}
use mooncat.Domain.Book.{OrderBook}
use mooncat.Wire.Subscription.{Subscription}
use mooncat.Wire.Message.{ClientMsg, ServerMsg, event, failed, malformed}
use mooncat.Wire.Session.{Auth, Session, Reaction, handle, wants}
use mooncat.Core.State.{MarketState, candles_for, tape_for, snapshots_for}

pub data Input (D : Decimals) : Type 0 where
  message : ClientMsg → Input D
  undecodable : Input D
  fanned : Event D → Input D
  lagged : ℕ → Input D

-- The session after a step, what was sent, and whether the connection is closed.
pub record Served (D : Decimals) : Type 0 where
  pub session : Session
  pub sent : List (ServerMsg D)
  pub closed : Bool

module _ (D : Decimals) (lag_text : ℕ → String) where
  abbrev pub stamped : Timestamp → MarketEvent D → ServerMsg D
  stamped now e = event (record { at = now; payload = market e })

  -- The current state of what a session subscribed to: prints, bars, then books.
  unfoldable pub handover : MarketState D → List Subscription → Timestamp → List (ServerMsg D)
  handover state subs now =
      map (λ (t : PublicTrade D). stamped now (trade t)) (tape_for D state subs)
      ++ (map (λ (c : Candle D). stamped now (candle c)) (candles_for D state subs)
          ++ map (λ (b : OrderBook D). stamped now (book_snapshot b)) (snapshots_for D state subs))

  -- The reply goes out first; a connection that stays open then gets the state.
  abbrev pub answer : MarketState D → Session × Reaction D → Timestamp → Served D
  answer state (s, r) now =
      if r.close then record { session = s; sent = r.reply ∷ []; closed = true } else record {
        session = s;
        sent = r.reply ∷ handover state s.subscriptions now;
        closed = false;
      }

  unfoldable pub step : Auth → MarketState D → Session → Input D → Timestamp → Served D
  step auth state s (message msg) now = answer state (handle D s msg auth) now
  step auth state s undecodable now =
      answer state (s, record { reply = failed malformed; close = false }) now
  step auth state s (fanned e) now = record {
    session = s;
    sent = if wants D s e then event e ∷ [] else [];
    closed = false;
  }
  step auth state s (lagged missed) now = record {
    session = s;
    sent = event (record { at = now; payload = connection (resyncing (lag_text missed)) }) ∷ [];
    closed = false;
  }
