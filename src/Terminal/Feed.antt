-- ===== src/Terminal/Feed.antt =====
-- crates/terminal/src/feed.rs: the terminal's connection to a core, and what the screen reads of it.
-- `now` is the wall clock at the call. `describe` is the text of a failure: its code and message as they
-- are printed. A candle series is newest first.
pub mod Books
pub mod Received
pub mod Handed
pub mod Mirror
use mooncat.Prelude.{
  ℕ, zero, suc, Bool, true, false, List, [], ◌∷◌, Option, none, some, String, if◌then◌else◌, take,
  add_u64,
}
use mooncat.Prelude.Int.{ℤ}
use mooncat.Prelude.Assoc.{get, put, remove, string_eq}
use mooncat.Domain.Decimals.{Decimals}
use mooncat.Domain.Ids.{Symbol, key, concat}
use mooncat.Domain.Book.{OrderBook, BookDelta, ApplyOutcome, applied, stale, gap}
use mooncat.Domain.Book
use mooncat.Domain.Event.{
  MarketEvent, trade, book_snapshot, book_delta, candle, instruments, Payload, market, account,
  connection, ConnectionEvent, connecting, ready, resyncing, disconnected, Event,
}
use mooncat.Marketdata.Candles.{Candle, PublicTrade}
use mooncat.Core.State.{fold_bar, or_default}
use mooncat.Wire.Subscription.{Subscription}
use mooncat.Wire.Message.{
  ErrorCode, is_fatal, ClientMsg, subscribe, ServerMsg, welcome, pong, event, failed,
}

abbrev pub log_depth : ℕ
log_depth = 300

abbrev pub tape_depth : ℕ
tape_depth = 4000

abbrev pub candle_depth : ℕ
candle_depth = 900

pub data Status : Type 0 where
  connecting_to live : Status
  refused lost : String → Status

unfoldable pub label : Status → String
label connecting_to = "connecting"
label live = "live"
label (refused why) = concat "refused: " why
label (lost why) = concat "reconnecting: " why

pub data LogLevel : Type 0 where
  info warn : LogLevel

pub record LogLine : Type 0 where
  pub at : ℤ
  pub text : String
  pub level : LogLevel

pub record FeedState (D : Decimals) : Type 0 where
  pub status : Status
  pub books : List (String × OrderBook D)
  pub trades : List (String × ℕ)
  pub tape : List (String × List (PublicTrade D))
  pub candles : List (String × List (Candle D))
  pub core_note : Option String
  pub log : List LogLine

-- A line that repeats the newest one is left out.
abbrev pub repeats : List LogLine → String → Bool
repeats [] text = false
repeats (l ∷ ls) text = string_eq.beq l.text text

unfoldable pub push_line : List LogLine → LogLine → List LogLine
push_line log line = if repeats log line.text then log else take log_depth (line ∷ log)

abbrev pub level_of : Status → LogLevel
level_of live = info
level_of _ = warn

abbrev pub count_or_zero : Option ℕ → ℕ
count_or_zero none = 0
count_or_zero (some n) = n

module _ (D : Decimals) where
  abbrev pub default_state : FeedState D
  default_state = record {
    status = connecting_to;
    books = [];
    trades = [];
    tape = [];
    candles = [];
    core_note = none;
    log = [];
  }

  unfoldable pub push_log : FeedState D → ℤ → LogLevel → String → FeedState D
  push_log s now level text = record s {
    log = push_line s.log (record { at = now; text = text; level = level });
  }

  unfoldable pub set_status : FeedState D → ℤ → Status → FeedState D
  set_status s now status =
      push_log (record s { status = status }) now (level_of status) (label status)

  -- A note on the core's health, with its line in the log.
  unfoldable pub note : FeedState D → ℤ → LogLevel → String → FeedState D
  note s now level text = push_log (record s { core_note = some text }) now level text

  abbrev pub on_snapshot : FeedState D → OrderBook D → Option Symbol → FeedState D
  on_snapshot s b none = s
  on_snapshot s b (some symbol) = record s { books = put s.books (key symbol) b }

  abbrev pub on_outcome : FeedState D → ℤ → Symbol → OrderBook D × ApplyOutcome → FeedState D
  on_outcome s now symbol (b, applied) = record s { books = put s.books (key symbol) b }
  on_outcome s now symbol (b, stale) = record s { books = put s.books (key symbol) b }
  on_outcome s now symbol (b, gap expected got) =
      note (record s { books = remove s.books (key symbol) }) now warn
        (concat (key symbol) " desynced, waiting for a snapshot")

  abbrev pub on_delta : FeedState D → ℤ → BookDelta D → Option (OrderBook D) → FeedState D
  on_delta s now d none = s
  on_delta s now d (some b) = on_outcome s now d.symbol (Book.apply D b d)

  unfoldable pub on_print : FeedState D → PublicTrade D → FeedState D
  on_print s t = record s {
    trades = put s.trades (key t.symbol) (add_u64 (count_or_zero (get s.trades (key t.symbol))) 1);
    tape = put s.tape (key t.symbol) (take tape_depth (t ∷ or_default (get s.tape (key t.symbol))));
  }

  unfoldable pub on_candle : FeedState D → Candle D → FeedState D
  on_candle s c = record s {
    candles =
        put s.candles (key c.symbol)
          (fold_bar D candle_depth (or_default (get s.candles (key c.symbol))) c);
  }

  abbrev pub on_market : FeedState D → ℤ → MarketEvent D → FeedState D
  on_market s now (book_snapshot b) = on_snapshot s b b.symbol
  on_market s now (book_delta d) = on_delta s now d (get s.books (key d.symbol))
  on_market s now (trade t) = on_print s t
  on_market s now (candle c) = on_candle s c
  on_market s now (instruments symbol is) = s

  abbrev pub on_connection : FeedState D → ℤ → ConnectionEvent → FeedState D
  on_connection s now (resyncing reason) = note s now info reason
  on_connection s now ready = push_log (record s { core_note = none }) now info "core feed ready"
  on_connection s now (disconnected reason) =
      note s now warn (concat "core lost its venue feed: " reason)
  on_connection s now connecting = s

  abbrev pub on_payload : FeedState D → ℤ → Payload D → FeedState D
  on_payload s now (market e) = on_market s now e
  on_payload s now (connection e) = on_connection s now e
  on_payload s now (account e) = s

  -- `apply`: fold one event of the core into what the screen reads.
  unfoldable pub apply : FeedState D → ℤ → Event D → FeedState D
  apply s now e = on_payload s now e.payload

pub data Refusal : Type 0 where
  fatal transient : String → Refusal

-- What a message makes the client do next.
pub data Next : Type 0 where
  listen : Next
  say : ClientMsg → Next
  leave : Refusal → Next

-- How a session ends: by a refusal, or closed by the core.
pub data SessionEnd : Type 0 where
  failed_with : Refusal → SessionEnd
  closed : SessionEnd

module _ (D : Decimals) (describe : ErrorCode → String) where
  abbrev pub refusal : ErrorCode → Refusal
  refusal code = if is_fatal code then fatal (describe code) else transient (describe code)

  -- One decoded message, in `session`.
  unfoldable pub on_message : FeedState D → ℤ → List Subscription → ServerMsg D → FeedState D × Next
  on_message s now subs (welcome protocol) = (set_status D s now live, say (subscribe subs))
  on_message s now subs (failed code) = (s, leave (refusal code))
  on_message s now subs (pong nonce) = (s, listen)
  on_message s now subs (event e) = (apply D s now e, listen)

  -- The end of a session, in `run`; the flag says whether the client connects again.
  unfoldable pub ended : FeedState D → ℤ → SessionEnd → FeedState D × Bool
  ended s now (failed_with (fatal why)) = (set_status D s now (refused why), false)
  ended s now (failed_with (transient why)) =
      (record (set_status D s now (lost why)) { books = [] }, true)
  ended s now closed =
      (record (set_status D s now (lost "core closed the connection")) { books = [] }, true)
