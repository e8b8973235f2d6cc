-- ===== src/Marketdata/Books/Invariant.antt =====
-- The invariant of an entry of the set (crates/marketdata/src/books.rs).
use mooncat.Prelude.{
  ◌≤◌, ◌≡◌, refl, ◌∙◌, List, [], ◌∷◌, Option, none, some, arith, length, length-append,
}
use mooncat.Prelude.Int.{ℤ}
use mooncat.Domain.Decimals.{Decimals}
use mooncat.Domain.Time.{Timestamp}
use mooncat.Domain.Book.{OrderBook, BookDelta, ApplyOutcome, applied, stale, gap, apply}
use mooncat.Domain.Book.Chain.{IsValid, apply-IsValid}
use mooncat.Marketdata.Books.{
  Entry, hold, absorb, feed, buffer, request_snapshot, replay, replay_rest, go_on, installed,
  install, max_buffered,
}

module _ (D : Decimals) where
  -- The invariant of an entry: its book is valid, and nothing is buffered while there is one.
  abbrev ValidBook : Option (OrderBook D) → Type 0
  ValidBook none = Unit
  ValidBook (some b) = IsValid D b

  abbrev Drained : Option (OrderBook D) → List (BookDelta D) → Type 0
  Drained none ds = Unit
  Drained (some b) ds = ds ≡ []

  pub record EntryInv (e : Entry D) : Type 0 where
    pub valid : ValidBook e.book
    pub drained : Drained e.book e.buffered
    pub bounded : length e.buffered ≤ max_buffered

  -- `buffer` starts over at the limit, so the backlog never passes it.
  buffer_bounded :
      (e : Entry D) (d : BookDelta D)
      → length e.buffered ≤ max_buffered
      → length (buffer D e d).buffered ≤ max_buffered
  unfolding buffer
  buffer_bounded e d h = ground (arith, length-append e.buffered (d ∷ []))

  requested_buffered :
      (e : Entry D) (now : Timestamp) (c : ℤ) → (request_snapshot D e now c).0.buffered ≡ e.buffered
  unfolding request_snapshot
  requested_buffered e now c = ground arith

  requested_book :
      (e : Entry D) (now : Timestamp) (c : ℤ) → (request_snapshot D e now c).0.book ≡ e.book
  unfolding request_snapshot
  requested_book e now c = ground arith

  buffer_book : (e : Entry D) (d : BookDelta D) → (buffer D e d).book ≡ e.book
  unfolding buffer
  buffer_book e d = ground arith

  hold-EntryInv :
      (e : Entry D) (d : BookDelta D) (now : Timestamp) (c : ℤ)
      → e.book ≡ none
      → length e.buffered ≤ max_buffered
      → EntryInv (hold D e d now c).0
  unfolding hold
  hold-EntryInv e d now c n h =
      let gone : (request_snapshot D (buffer D e d) now c).0.book ≡ none =
        requested_book (buffer D e d) now c ∙ buffer_book e d ∙ n in
      record {
        valid = rw gone tt;
        drained = rw gone tt;
        bounded = rw (requested_buffered (buffer D e d) now c) (buffer_bounded e d h);
      }

  absorb-EntryInv :
      (e : Entry D) (b : OrderBook D) (d : BookDelta D) (now : Timestamp) (c : ℤ)
      (r : OrderBook D × ApplyOutcome)
      → IsValid D r.0
      → e.buffered ≡ []
      → EntryInv (absorb D e b d now c r).0
  unfolding absorb
  absorb-EntryInv e b d now c (b', applied) v h = record {
    valid = v;
    drained = h;
    bounded = rw h (omega arith);
  }
  absorb-EntryInv e b d now c (b', stale) v h = record {
    valid = v;
    drained = h;
    bounded = rw h (omega arith);
  }
  absorb-EntryInv e b d now c (b', gap x y) v h =
      hold-EntryInv (record e { book = none }) d now c refl (rw h (omega arith))

  feed-EntryInv_at :
      (e : Entry D) (o : Option (OrderBook D)) (d : BookDelta D) (now : Timestamp) (c : ℤ)
      → e.book ≡ o
      → ValidBook o
      → Drained o e.buffered
      → length e.buffered ≤ max_buffered
      → EntryInv (feed D e o d now c).0
  unfolding feed
  feed-EntryInv_at e none d now c h v g l = hold-EntryInv e d now c h l
  feed-EntryInv_at e (some b) d now c h v g l =
      absorb-EntryInv e b d now c (apply D b d) (apply-IsValid D b d v) g

  -- A delta keeps an entry's invariant: its book is valid, nothing is buffered while it has a book,
  -- and the backlog is within its limit.
  pub feed-EntryInv :
      (e : Entry D) (d : BookDelta D) (now : Timestamp) (c : ℤ)
      → EntryInv e
      → EntryInv (feed D e e.book d now c).0
  feed-EntryInv e d now c i = feed-EntryInv_at e e.book d now c refl i.valid i.drained i.bounded

  go_on-IsValid : (r : OrderBook D × ApplyOutcome) → IsValid D r.0 → ValidBook (go_on D r)
  go_on-IsValid (b, applied) v = v
  go_on-IsValid (b, stale) v = v
  go_on-IsValid (b, gap x y) v = tt

  replay_rest-ValidBook :
      (o : Option (OrderBook D)) (k : OrderBook D → Option (OrderBook D))
      → ValidBook o
      → ((b : OrderBook D) → IsValid D b → ValidBook (k b))
      → ValidBook (replay_rest D o k)
  replay_rest-ValidBook none k v h = tt
  replay_rest-ValidBook (some b) k v h = h b v

  replay-ValidBook :
      (b : OrderBook D) (ds : List (BookDelta D)) → IsValid D b → ValidBook (replay D b ds)
  unfolding replay
  replay-ValidBook b [] v = v
  replay-ValidBook b (d ∷ ds) v =
      replay_rest-ValidBook (go_on D (apply D b d)) (λ b'. replay D b' ds)
        (go_on-IsValid (apply D b d) (apply-IsValid D b d v)) (λ b' v'. replay-ValidBook b' ds v')

  installed-EntryInv :
      (e : Entry D) (o : Option (OrderBook D)) (now : Timestamp)
      → ValidBook o
      → EntryInv (installed D e o now).0
  unfolding installed
  installed-EntryInv e none now v = record { valid = tt; drained = tt; bounded = omega arith }
  installed-EntryInv e (some b) now v = record { valid = v; drained = refl; bounded = omega arith }

  -- A valid snapshot establishes the invariant, whatever was buffered.
  pub install-EntryInv :
      (e : Entry D) (snap : OrderBook D) (now : Timestamp)
      → IsValid D snap
      → EntryInv (install D e snap now).0
  unfolding install
  install-EntryInv e snap now v =
      installed-EntryInv e (replay D snap e.buffered) now (replay-ValidBook snap e.buffered v)
