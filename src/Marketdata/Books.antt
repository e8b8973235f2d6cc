-- ===== src/Marketdata/Books.antt =====
-- crates/marketdata/src/books.rs: a set of order books across snapshots, gaps and reconnects.
-- `entries` is the map by symbol key; a method returns the new set and its result.
pub mod Replay
pub mod Mirror
pub mod Invariant
pub mod Requests
pub mod Named
use mooncat.Prelude.{
  ℕ, ◌≡◌, Bool, true, false, not, ◌&&◌, keep_if, map, List, [], ◌∷◌, ◌++◌, Option, none, some,
  String, leb, if◌then◌else◌, length,
}
use mooncat.Prelude.Int.{ℤ, pos, ltb_ℤ}
use mooncat.Prelude.Assoc.{get, put, string_eq}
use mooncat.Domain.Decimals.{Decimals}
use mooncat.Domain.Ids.{Symbol, key}
use mooncat.Domain.Time.{Timestamp, zero_time, age_millis_from}
use mooncat.Domain.Book.{OrderBook, BookDelta, ApplyOutcome, applied, stale, gap, apply}

abbrev pub default_resync_cooldown_ms : ℤ
default_resync_cooldown_ms = pos 1000

abbrev pub max_buffered : ℕ
max_buffered = 4096

abbrev pub request_deadline_ms : ℤ
request_deadline_ms = pos 10000

-- What the caller must do after feeding an update in.
pub data Need : Type 0 where
  nothing : Need
  snapshot : Symbol → Need

pub record Outcome : Type 0 where
  pub need : Need
  pub forward : Bool
  pub attached : Bool

pub record Entry (D : Decimals) : Type 0 where
  pub symbol : Symbol
  pub book : Option (OrderBook D)
  pub buffered : List (BookDelta D)
  pub awaiting : Bool
  pub requested_at : Option Timestamp
  pub updated_at : Timestamp

pub record BookSet (D : Decimals) : Type 0 where
  pub entries : List (String × Entry D)
  pub cooldown_ms : ℤ

module _ (D : Decimals) where
  unfoldable pub new : ℤ → BookSet D
  new cooldown_ms = record { entries = []; cooldown_ms = cooldown_ms }

  -- `Entry::buffer`.
  unfoldable pub buffer : Entry D → BookDelta D → Entry D
  buffer e delta =
      if leb max_buffered (length e.buffered)
      then record e { buffered = delta ∷ []; awaiting = false; requested_at = none }
      else record e { buffered = e.buffered ++ delta ∷ [] }

  -- `since_request.is_some_and(|age| age < bound)`.
  abbrev pub requested_within : Option Timestamp → Timestamp → ℤ → Bool
  requested_within none now bound = false
  requested_within (some at) now bound = ltb_ℤ (age_millis_from at now) bound

  -- `Entry::request_snapshot`.
  unfoldable pub request_snapshot : Entry D → Timestamp → ℤ → Entry D × Need
  request_snapshot e now cooldown_ms =
      if e.awaiting && requested_within e.requested_at now request_deadline_ms
      then (e, nothing)
      else if not e.awaiting && requested_within e.requested_at now cooldown_ms
      then (e, nothing)
      else (record e { awaiting = true; requested_at = some now }, snapshot e.symbol)

  abbrev pub silent : Outcome
  silent = record { need = nothing; forward = false; attached = false }

  -- The delta is held back, and a snapshot asked for if one may be.
  unfoldable pub hold : Entry D → BookDelta D → Timestamp → ℤ → Entry D × Outcome
  unfolding buffer request_snapshot
  hold e delta now cooldown_ms =
      let (e', need) = request_snapshot (buffer e delta) now cooldown_ms in
      (e', record { need = need; forward = false; attached = false })

  -- What follows from the outcome of `book.apply(&delta)`.
  unfoldable pub absorb :
      Entry D
      → OrderBook D
      → BookDelta D
      → Timestamp
      → ℤ
      → OrderBook D × ApplyOutcome
      → Entry D × Outcome
  absorb e b delta now cooldown_ms (b', applied) = (
    record e { book = some b'; updated_at = now },
    record { need = nothing; forward = b.synced; attached = not b.synced },
  )
  absorb e b delta now cooldown_ms (b', stale) = (record e { book = some b' }, silent)
  absorb e b delta now cooldown_ms (b', gap expected got) =
      hold (record e { book = none }) delta now cooldown_ms

  -- `on_delta` on the entry of the delta's symbol.
  unfoldable pub feed :
      Entry D → Option (OrderBook D) → BookDelta D → Timestamp → ℤ → Entry D × Outcome
  feed e none delta now cooldown_ms = hold e delta now cooldown_ms
  feed e (some b) delta now cooldown_ms = absorb e b delta now cooldown_ms (apply D b delta)

  unfoldable pub fresh_entry : Symbol → Entry D
  fresh_entry s = record {
    symbol = s;
    book = none;
    buffered = [];
    awaiting = false;
    requested_at = none;
    updated_at = zero_time;
  }

  abbrev pub or_fresh : Option (Entry D) → Symbol → Entry D
  or_fresh none s = fresh_entry s
  or_fresh (some e) s = e

  unfoldable pub on_delta : BookSet D → BookDelta D → Timestamp → BookSet D × Outcome
  on_delta s delta now =
      let e = or_fresh (get s.entries (key delta.symbol)) delta.symbol in
      let (e', out) = feed e e.book delta now s.cooldown_ms in
      (record s { entries = put s.entries (key delta.symbol) e' }, out)

  -- The replay loop of `install_snapshot`; `none` means that a delta exposed a gap.
  abbrev pub go_on : OrderBook D × ApplyOutcome → Option (OrderBook D)
  go_on (b, gap expected got) = none
  go_on (b, applied) = some b
  go_on (b, stale) = some b

  abbrev pub replay_rest :
      Option (OrderBook D) → (OrderBook D → Option (OrderBook D)) → Option (OrderBook D)
  replay_rest none k = none
  replay_rest (some b) k = k b

  unfoldable pub replay : OrderBook D → List (BookDelta D) → Option (OrderBook D)
  replay b [] = some b
  replay b (d ∷ ds) = replay_rest (go_on (apply D b d)) (λ b'. replay b' ds)

  abbrev pub published : OrderBook D → Option (OrderBook D)
  published b = if b.synced then some b else none

  -- `install_snapshot` on the entry of the snapshot's symbol, given what the replay came to.
  unfoldable pub installed :
      Entry D → Option (OrderBook D) → Timestamp → Entry D × Option (OrderBook D)
  installed e none now = (record e { awaiting = false; buffered = []; book = none }, none)
  installed e (some b) now =
      (record e { awaiting = false; buffered = []; updated_at = now; book = some b }, published b)

  unfoldable pub install : Entry D → OrderBook D → Timestamp → Entry D × Option (OrderBook D)
  install e snap now = installed e (replay snap e.buffered) now

  abbrev pub install_found :
      BookSet D
      → Option (Entry D)
      → String
      → OrderBook D
      → Timestamp
      → BookSet D × Option (OrderBook D)
  install_found s none k snap now = (s, none)
  install_found s (some e) k snap now =
      let (e', out) = install e snap now in (record s { entries = put s.entries k e' }, out)

  abbrev pub install_at :
      BookSet D → Option Symbol → OrderBook D → Timestamp → BookSet D × Option (OrderBook D)
  install_at s none snap now = (s, none)
  install_at s (some sym) snap now = install_found s (get s.entries (key sym)) (key sym) snap now

  unfoldable pub install_snapshot :
      BookSet D → OrderBook D → Timestamp → BookSet D × Option (OrderBook D)
  install_snapshot s snap now = install_at s snap.symbol snap now

  abbrev pub usable : Option (OrderBook D) → Option (OrderBook D)
  usable none = none
  usable (some b) = published b

  abbrev pub entry_book : Option (Entry D) → Option (OrderBook D)
  entry_book none = none
  entry_book (some e) = usable e.book

  -- The book of an instrument, if it has joined the stream.
  unfoldable pub book : BookSet D → String → Option (OrderBook D)
  book s k = entry_book (get s.entries k)

  abbrev pub has_book : Option (OrderBook D) → Bool
  has_book none = false
  has_book (some b) = true

  -- Symbols whose book has not moved for `max_age_ms`.
  unfoldable pub stale_symbols : BookSet D → Timestamp → ℤ → List Symbol
  stale_symbols s now max_age_ms =
      map (λ (p : String × Entry D). p.1.symbol)
        (keep_if (λ p. has_book p.1.book && ltb_ℤ max_age_ms (age_millis_from p.1.updated_at now))
          s.entries)

  abbrev pub failed_found : BookSet D → Option (Entry D) → String → BookSet D
  failed_found s none k = s
  failed_found s (some e) k = record s { entries = put s.entries k (record e { awaiting = false }) }

  unfoldable pub snapshot_failed : BookSet D → Symbol → BookSet D
  snapshot_failed s sym = failed_found s (get s.entries (key sym)) (key sym)

  unfoldable pub reset : BookSet D → BookSet D
  reset s = record s { entries = [] }
