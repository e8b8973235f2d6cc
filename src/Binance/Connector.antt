-- ===== src/Binance/Connector.antt =====
-- crates/binance/src/lib.rs: the task that owns the socket. A step is one arm of its `select!`, or one
-- move of the loop around it; what the task waits for is the step's input. Its effects come out as a
-- list: an event to the sink, a frame to the socket, a fetch that is started. The clock is read anew at
-- each call of `now`: `at i` is the reading of the i-th place of a step.
pub mod Heard
pub mod Mirror
pub mod Served
use mooncat.Prelude.{
  ℕ, zero, suc, ◌+◌, ◌*◌, Bool, true, false, not, List, [], ◌∷◌, ◌++◌, Option, none, some, String,
  map, keep_if, if◌then◌else◌, min, add_u64,
}
use mooncat.Prelude.Int.{ℤ, pos}
use mooncat.Prelude.Assoc.{string_eq}
use mooncat.Prelude.Text.{text_leb}
use mooncat.Domain.Decimals.{Decimals}
use mooncat.Domain.Ids.{MarketKind, Symbol, binance, key, concat}
use mooncat.Domain.Time.{Timestamp}
use mooncat.Domain.Book.{OrderBook, BookDelta}
use mooncat.Domain.Event.{
  Event, Payload, market, connection, MarketEvent, trade, book_snapshot, book_delta, candle,
  ConnectionEvent, connecting, ready, resyncing, disconnected,
}
use mooncat.Marketdata.Candles.{
  PublicTrade, Candle, CandleSet, Update, formed, rolled, ignored, on_trade, ticks,
  default_capacity,
}
use mooncat.Marketdata.Candles
use mooncat.Marketdata.Books.{
  BookSet, Outcome, Need, nothing, snapshot, default_resync_cooldown_ms, on_delta, install_snapshot,
  book, snapshot_failed, stale_symbols, reset,
}
use mooncat.Marketdata.Books
use mooncat.Binance.Wire.{AggTrade, DepthUpdate, trade_of, delta_of}
use mooncat.Binance.Streams.{Texts, control_frame}

abbrev pub backoff_start : ℕ
backoff_start = 500

abbrev pub backoff_max : ℕ
backoff_max = 30000

abbrev pub stale_after_ms : ℤ
stale_after_ms = pos 30000

-- `BTreeSet`: ascending, each name once.
unfoldable pub enter : List String → String → List String
enter [] s = s ∷ []
enter (t ∷ ts) s =
    let rest = enter ts s in
    if string_eq.beq s t then t ∷ ts else if text_leb s t then s ∷ t ∷ ts else t ∷ rest

abbrev pub enter_all : List String → List String → List String
enter_all ts [] = ts
enter_all ts (s ∷ ss) = enter_all (enter ts s) ss

abbrev pub leave_all : List String → List String → List String
leave_all ts [] = ts
leave_all ts (s ∷ ss) = leave_all (keep_if (λ t. not (string_eq.beq t s)) ts) ss

-- What the task does to the world around it.
pub data Effect (D : Decimals) : Type 0 where
  emit : Event D → Effect D
  write : String → Effect D
  fetch : Symbol → Effect D

pub data Phase : Type 0 where
  dialing live sleeping stopped : Phase

-- Why the read loop returned.
pub data Exit : Type 0 where
  shutdown : Exit
  reconnect : String → Exit

pub data Command : Type 0 where
  subscribe unsubscribe : List String → Command

module _ (D : Decimals) where
  pub record Task : Type 0 where
    pub active : List String
    pub books : BookSet D
    pub candles : CandleSet D
    pub backoff : ℕ
    pub frame_id : ℕ
    pub phase : Phase

  unfoldable pub new_task : Task
  new_task = record {
    active = [];
    books = Books.new D default_resync_cooldown_ms;
    candles = Candles.new D (ticks 25) default_capacity;
    backoff = backoff_start;
    frame_id = 0;
    phase = dialing;
  }

  -- A stream frame, parsed; `unknown` is every other text.
  pub data Frame : Type 0 where
    agg_trade : AggTrade D → Frame
    depth_update : DepthUpdate D → Frame
    unknown : Frame

  pub data Decoded : Type 0 where
    print : PublicTrade D → Decoded
    delta : BookDelta D → Decoded

  unfoldable pub decode : Frame → MarketKind → Option Decoded
  decode (agg_trade t) m =
      some (print (trade_of D t (record { exchange = binance; market = m; raw = t.symbol })))
  decode (depth_update u) m =
      some (delta (delta_of D u (record { exchange = binance; market = m; raw = u.symbol })))
  decode unknown m = none

  -- What the task waits for. `written` says whether the write to the socket succeeds.
  pub data Input : Type 0 where
    connected : (written : Bool) → Input
    connect_failed : (reason : String) → Input
    slept : Input
    command : Option Command → (written : Bool) → Input
    text : Frame → Input
    ping : (written : Bool) → Input
    closed stream_ended other_message tick : Input
    socket_error : (reason : String) → Input
    fetched : OrderBook D → Input
    failed : Symbol → Input

  -- `sink_closed` is what the sink says when the loop asks it.
  pub record Env : Type 0 where
    pub market_kind : MarketKind
    pub at : ℕ → Timestamp
    pub sink_closed : Bool

  abbrev pub event : Timestamp → Payload D → Effect D
  event now p = emit (record { at = now; payload = p })

  abbrev pub connection_event : Timestamp → ConnectionEvent → Effect D
  connection_event now e = event now (connection e)

  -- After the loss of a connection, or its failure.
  abbrev pub lost : Env → Task → String → Task × List (Effect D)
  lost v t reason = (
    record t { books = reset D t.books; phase = if v.sink_closed then stopped else sleeping },
    connection_event (v.at 8) (disconnected reason) ∷ [],
  )

  abbrev pub exit : Env → Task → List (Effect D) → Exit → Task × List (Effect D)
  exit v t out shutdown = (record t { phase = stopped }, out)
  exit v t out (reconnect reason) = let (t', more) = lost v t reason in (t', out ++ more)

  -- Redraw: a boundary yields the bar that became final and the one that forms.
  unfoldable pub fold : Update D → List (Candle D)
  fold (formed c) = c ∷ []
  fold (rolled done opened) = done ∷ opened ∷ []
  fold ignored = []

  unfoldable pub on_print : Env → Task → PublicTrade D → Task × List (Effect D)
  on_print v t p =
      let (cs, u) = on_trade D t.candles p in
      (
        record t { candles = cs },
        map (λ (c : Candle D). event (v.at 0) (market (candle c))) (fold u)
            ++ event (v.at 1) (market (trade p)) ∷ [],
      )

  abbrev pub whole_book : Timestamp → Option (OrderBook D) → List (Effect D)
  whole_book now none = []
  whole_book now (some b) = event now (market (book_snapshot b)) ∷ []

  -- What consumers hear of a delta: the whole book when it only just became usable, the delta itself
  -- when it may be forwarded.
  unfoldable pub announced : Timestamp → BookDelta D → BookSet D → Outcome → List (Effect D)
  announced now d s out =
      if out.attached
      then whole_book now (book D s (key d.symbol))
      else if out.forward
      then event now (market (book_delta d)) ∷ []
      else []

  abbrev pub wanted : Timestamp → Need → List (Effect D)
  wanted now nothing = []
  wanted now (snapshot s) =
      connection_event now (resyncing (concat "rebuilding book for " (key s))) ∷ fetch s ∷ []

  -- `on_delta`.
  unfoldable pub on_update : Env → Task → BookDelta D → Task × List (Effect D)
  on_update v t d =
      let (s, out) = on_delta D t.books d (v.at 0) in
      (record t { books = s }, announced (v.at 1) d s out ++ wanted (v.at 2) out.need)

  abbrev pub on_text : Env → Task → Option Decoded → Task × List (Effect D)
  on_text v t none = (t, [])
  on_text v t (some (print p)) = on_print v t p
  on_text v t (some (delta d)) = on_update v t d

  abbrev pub on_fetched : Env → Task → OrderBook D → Task × List (Effect D)
  on_fetched v t snap =
      let (s, joined) = install_snapshot D t.books snap (v.at 0) in
      (record t { books = s }, whole_book (v.at 1) joined)

  abbrev pub frozen : Timestamp → Symbol → Effect D
  frozen now s = connection_event now (resyncing (concat (key s) " has not updated in 30s"))

  module _ (T : Texts) where
    -- A control frame, of which the write may fail.
    abbrev pub control : Env → Task → String → List String → Bool → String → Task × List (Effect D)
    control v t method names written reason =
        let t' = record t { frame_id = add_u64 t.frame_id 1 } in
        let out = write (control_frame T method names t'.frame_id) ∷ [] in
        if written then (t', out) else exit v t' out (reconnect reason)

    unfoldable pub on_command : Env → Task → Option Command → Bool → Task × List (Effect D)
    on_command v t none written = exit v t [] shutdown
    on_command v t (some (subscribe names)) written =
        control v (record t { active = enter_all t.active names }) "SUBSCRIBE" names written
          "subscribe write failed"
    on_command v t (some (unsubscribe names)) written =
        control v (record t { active = leave_all t.active names }) "UNSUBSCRIBE" names written
          "unsubscribe write failed"

    abbrev pub announce_ready : Env → Task → Task × List (Effect D)
    announce_ready v t = (t, connection_event (v.at 0) ready ∷ [])

    abbrev pub rearmed : Env → Task → List String → Bool → Task × List (Effect D)
    rearmed v t [] written = announce_ready v t
    rearmed v t (n ∷ ns) written =
        let t' = record t { frame_id = add_u64 t.frame_id 1 } in
        let out = write (control_frame T "SUBSCRIBE" (n ∷ ns) t'.frame_id) ∷ [] in
        if written
        then (t', out ++ connection_event (v.at 0) ready ∷ [])
        else exit v t' out (reconnect "failed to resubscribe")

    -- The socket is up: what was asked for before is asked for again.
    unfoldable pub on_connected : Env → Task → Bool → Task × List (Effect D)
    on_connected v t written =
        rearmed v (record t { backoff = backoff_start; frame_id = 0; phase = live }) t.active
          written

    -- One arm of the read loop.
    unfoldable pub on_arm : Env → Task → Input → Task × List (Effect D)
    on_arm v t (command c written) = on_command v t c written
    on_arm v t (text f) = on_text v t (decode f v.market_kind)
    on_arm v t (ping written) =
        if written then (t, []) else exit v t [] (reconnect "pong write failed")
    on_arm v t closed = exit v t [] (reconnect "server closed")
    on_arm v t stream_ended = exit v t [] (reconnect "stream ended")
    on_arm v t (socket_error reason) = exit v t [] (reconnect reason)
    on_arm v t (fetched snap) = on_fetched v t snap
    on_arm v t (failed s) = (record t { books = snapshot_failed D t.books s }, [])
    on_arm v t tick =
        (t, map (λ s. frozen (v.at 1) s) (stale_symbols D t.books (v.at 0) stale_after_ms))
    on_arm v t _ = (t, [])

    -- The task begins by dialing.
    pub start : Env → Task × List (Effect D)
    start v = (new_task, connection_event (v.at 0) connecting ∷ [])

    -- One move, in each phase of the loop around it.
    abbrev pub move : Env → Task → Phase → Input → Task × List (Effect D)
    move v t dialing (connected written) = on_connected v t written
    move v t dialing (connect_failed reason) = lost v t reason
    move v t sleeping slept = (
      record t { backoff = min (t.backoff * 2) backoff_max; phase = dialing },
      connection_event (v.at 0) connecting ∷ [],
    )
    move v t live i = on_arm v t i
    move v t _ _ = (t, [])

    unfoldable pub step : Env → Task → Input → Task × List (Effect D)
    step v t i = move v t t.phase i

    -- The task, and all that it did, after some inputs.
    unfoldable pub run : Task → List (Env × Input) → Task × List (Effect D)
    run t [] = (t, [])
    run t ((v, i) ∷ is) =
        let (t', out) = step v t i in let (t'', rest) = run t' is in (t'', out ++ rest)
