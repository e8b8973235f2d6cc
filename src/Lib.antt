-- ===== src/Lib.antt =====
-- A trading core and its desktop terminal, in one workspace: the core keeps order books current
-- from the venue's streams, answers the terminal over a WebSocket and trades within the venue's
-- limits. This library models the parts that decide what is shown, sent and executed.
--
-- Parts, and how they interact. A venue stream yields book updates; `BookSet` turns snapshots and
-- updates into live books (Marketdata), each an `OrderBook` (Domain). What changes is put into
-- envelopes and sent to terminals; a terminal is admitted, its commands are authorised by role and
-- executed at most once, and its liveness is judged by pings (Wire). Requests to the venue pass the
-- rate limiter first (Exchange).
--
-- Files and sources:
--   Prelude             Boolean tests, wrapping u32 and u64 sums, i64 differences, lists measured by
--                       native numbers, maps as association lists.
--   Domain/Decimals     `rust_decimal::Decimal`, a parameter: its order, zero test and arithmetic, with
--                       the laws that `Ord` documents; whole numbers meet them.
--   Domain/Ids          crates/domain/src/ids.rs (ExchangeId, MarketKind, Symbol, Symbol::key).
--   Domain/Event        crates/domain/src/event.rs, with the records of crates/domain/src/order.rs
--                       (Order/Record), account.rs (Account) and instrument.rs (Instrument).
--   Domain/Registry     crates/domain/src/registry.rs (SymbolRegistry::intern, resolve).
--   Domain/Time         crates/domain/src/time.rs (Timestamp; i64 milliseconds, wrapping).
--   Domain/Order        crates/domain/src/order.rs (OrderStatus::rank, is_terminal, can_advance_to).
--   Domain/Book         crates/domain/src/market.rs (OrderBook::apply, apply_side, cmp_price); the
--                       standard library's binary search is written out as its halving loop. Book/Search
--                       is about the search, Book/Levels about one update of a side, Book/Contents about a
--                       list of them, Book/Chain about a whole delta.
--   Marketdata/Books    crates/marketdata/src/books.rs (BookSet::on_delta, install_snapshot, book, stale,
--                       snapshot_failed, reset; Entry::buffer, request_snapshot). `feed` and `install` are
--                       on_delta and install_snapshot on the entry of one symbol.
--   Marketdata/Candles  crates/marketdata/src/candles.rs (CandleSet::on_trade, fold_time, fold_ticks, roll,
--                       extend), a series newest first.
--   Wire/Channel, Envelope   crates/wire/src/envelope.rs (Channel, accept_client, accept_server, gate,
--                       unknown_reason, SkipCounters).
--   Wire/Event          crates/wire/src/event.rs (ServerEvent::channel, is_delta, is_private, AckStatus).
--   Wire/Command        crates/wire/src/command.rs (Command::channel, retryable, min_role, Role).
--   Wire/Idempotency    crates/wire/src/idempotency.rs (ReqRing::admit, complete, evict_if_full).
--   Wire/Heartbeat      crates/wire/src/heartbeat.rs (Heartbeat::on_send, on_pong, is_dead, due).
--   Wire/Admission      crates/wire/src/admission.rs (Gatekeeper::admit, handshake_failed, open, close,
--                       revoke_device, expire_windows; authorize).
--   Wire/Resume         crates/wire/src/resume.rs (Ring::push, since; ResumeLog::record, resume).
--   Wire/Batch          crates/wire/src/batch.rs (Batcher::push, flush_due, flush; msgpack_array); the
--                       serialiser is a parameter.
--   Wire/Frame          crates/wire/src/frame.rs (encode, decode, inflate); zstd is a parameter, of which the
--                       code relies on reading back what was compressed.
--   Wire/Subscription   crates/wire/src/subscription.rs (Subscriptions::subscribe, activate, unsubscribe,
--                       wants), with Subscription of crates/exchange/src/lib.rs.
--   Wire/Message        crates/wire/src/lib.rs (ClientMsg, ServerMsg, ErrorCode).
--   Wire/Session        crates/wire/src/session.rs (Auth::verify, Session::handle, wants, may_receive).
--   Wire/Auth           crates/wire/src/auth.rs (DeviceRegistry, Transcript, DeviceId); Ed25519 and SHA-256
--                       are a parameter, `Crypto`, without laws.
--   Wire/Audit          crates/wire/src/audit.rs (redact, should_audit, record, Outcome).
--   Wire/Keystore       crates/wire/src/keystore.rs (EncryptedFile::store, load, delete); the cipher is a
--                       parameter, of which the code relies on opening what was sealed.
--   Wire/Catalogue      crates/wire/src/catalogue.rs (Catalogue::replace, page, get, is_tradable, same_terms);
--                       Catalogue/Walk reads a market page by page. Domain/Names is the order of texts.
--   Exchange/Limits     crates/exchange/src/limits.rs (Window::roll, wait_for, charge;
--                       RateLimiter::check, observe_used, observe_rejection).
--   Exchange/Error      crates/exchange/src/lib.rs (Error::is_retryable).
--   Exchange/Caps       crates/exchange/src/caps.rs (Caps); Prelude/Digits is about single bits.
--   Binance/Wire        crates/binance/src/wire.rs (into_domain of each message).
--   Binance/Streams     crates/binance/src/{streams,endpoints}.rs.
--   Binance/Rest        crates/binance/src/lib.rs (get_json, fetch_snapshot, instruments).
--   Binance/Connector   crates/binance/src/lib.rs (socket_task, pump, on_delta, fold, decode), one step for
--                       each thing that the task waits for. Connector/Served joins it with Marketdata/Books
--                       and Core/State.
--   Core/State          crates/core/src/state.rs (MarketState::apply, fold_candle, snapshots_for). State/Books
--                       has the specification of one instrument's book under the events, which the core
--                       and the terminal both refine; State/Overlap is about events that come again.
--   Core/Config         crates/core/src/config.rs (split_args, Config::assemble, validate).
--   Core/Server         crates/core/src/server.rs (session), one step for each thing that it waits for.
--   Terminal/Feed       crates/terminal/src/feed.rs (apply, session, run, set_status, push_log). Feed/Mirror
--                       joins it with Core/Server and Wire/Session.
--   Terminal/Clock      crates/terminal/src/clock.rs (parts).
--
-- Conventions. A method that changes `&mut self` is a function from the old state to the new one, with
-- its result beside it. A `HashMap` is an association list; where the code's result depends on no order
-- of the map, neither does a theorem. Counters are native numbers with their wrap-around written out
-- (release arithmetic). An `Instant` is a number on one monotonic clock, in milliseconds for Wire and
-- nanoseconds for Exchange; `duration_since` stops at 0, as the standard library documents.
--
-- Bounds and fuel. The binary search has the length of the side as fuel; each round halves it. The
-- eviction loop of the ring has the length of its queue, the session cap the number of sessions: each
-- round drops one; so it is for the trimming of a resume ring. Reading a market page by page has fuel for
-- one page more than there are instruments, as each page but the last has one at least. The replay and `apply_side` recurse on
-- their lists.
--
-- Not modelled: logging and the atomics of the counters (they are plain numbers here); the payloads of
-- the wire's commands and events; serialisation; storage, TLS, sockets and the
-- drawing of the terminal.
pub mod Prelude
pub mod Domain
pub mod Marketdata
pub mod Wire
pub mod Exchange
pub mod Binance
pub mod Core
pub mod Terminal
