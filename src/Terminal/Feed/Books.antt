-- ===== src/Terminal/Feed/Books.antt =====
-- The books of crates/terminal/src/feed.rs: the terminal does to each instrument's book what the core's
-- read-model does.
use mooncat.Prelude.{
  ◌≡◌, refl, sym, ap, ◌∙◌, true, false, Option, none, some, inl, inr, String, Bool-cases,
  if◌then◌else◌,
}
use mooncat.Prelude.Int.{ℤ}
use mooncat.Prelude.Assoc.{get, string_eq, get-put, get-remove}
use mooncat.Domain.Decimals.{Decimals}
use mooncat.Domain.Ids.{Symbol, key}
use mooncat.Domain.Book.{OrderBook, BookDelta, ApplyOutcome, applied, stale, gap}
use mooncat.Domain.Book
use mooncat.Domain.Event.{
  trade, book_snapshot, book_delta, candle, instruments, Payload, market, account, connection,
  Event, connecting, ready, resyncing, disconnected,
}
use mooncat.Core.State.Books.{update, after, touch, snap_touch, survivor, under_update}
use mooncat.Terminal.Feed.{
  FeedState, on_snapshot, on_outcome, on_delta, on_print, on_candle, on_payload, apply, note,
  push_log,
}

module _ (D : Decimals) where
  get-on_outcome :
      (s : FeedState D) (now : ℤ) (symbol : Symbol) (k : String) (r : OrderBook D × ApplyOutcome)
      → get (on_outcome D s now symbol r).books k
        ≡ (if string_eq.beq (key symbol) k then survivor D r else get s.books k)
  unfolding note push_log
  get-on_outcome s now symbol k (b, applied) = get-put s.books (key symbol) k b
  get-on_outcome s now symbol k (b, stale) = get-put s.books (key symbol) k b
  get-on_outcome s now symbol k (b, gap expected got) = get-remove s.books (key symbol) k

  get-on_delta :
      (s : FeedState D) (now : ℤ) (k : String) (d : BookDelta D)
      → get (on_delta D s now d (get s.books (key d.symbol))).books k
        ≡ after D (get s.books k) (touch D k (market (book_delta d)))
  get-on_delta s now k d =
      under_update D s.books k d (get (on_delta D s now d (get s.books (key d.symbol))).books k)
        (same (get s.books (key d.symbol)) refl) (apart (get s.books (key d.symbol)))
    where
      same :
          (o : Option (OrderBook D))
          → get s.books (key d.symbol) ≡ o
          → string_eq.beq (key d.symbol) k ≡ true
          → get (on_delta D s now d o).books k ≡ after D o (update d)
      same none q e = ap (get s.books) (sym ((string_eq.beq_iff (key d.symbol) k).0 e)) ∙ q
      same (some b) q e = get-on_outcome s now d.symbol k (Book.apply D b d) ∙ (rw e)

      apart :
          (o : Option (OrderBook D))
          → string_eq.beq (key d.symbol) k ≡ false
          → get (on_delta D s now d o).books k ≡ get s.books k
      apart none e = refl
      apart (some b) e = get-on_outcome s now d.symbol k (Book.apply D b d) ∙ (rw e)

  get-on_snapshot :
      (s : FeedState D) (k : String) (b : OrderBook D) (symbol : Option Symbol)
      → get (on_snapshot D s b symbol).books k ≡ after D (get s.books k) (snap_touch D k b symbol)
  get-on_snapshot s k b none = refl
  get-on_snapshot s k b (some symbol) = elim (Bool-cases (string_eq.beq (key symbol) k)) [
    | inl e ↦ rw e (get-put s.books (key symbol) k b ∙ (rw e))
    | inr e ↦ rw e (get-put s.books (key symbol) k b ∙ (rw e))
  ]

  -- The terminal does to each key what the specification says.
  pub get-apply :
      (s : FeedState D) (now : ℤ) (e : Event D) (k : String)
      → get (apply D s now e).books k ≡ after D (get s.books k) (touch D k e.payload)
  unfolding apply on_print on_candle note push_log
  get-apply s now e k = of_payload e.payload
    where
      of_payload :
          (p : Payload D)
          → get (on_payload D s now p).books k ≡ after D (get s.books k) (touch D k p)
      of_payload (market (book_snapshot b)) = get-on_snapshot s k b b.symbol
      of_payload (market (book_delta d)) = get-on_delta s now k d
      of_payload (market (trade t)) = refl
      of_payload (market (candle c)) = refl
      of_payload (market (instruments symbol is)) = refl
      of_payload (account x) = refl
      of_payload (connection connecting) = refl
      of_payload (connection ready) = refl
      of_payload (connection (resyncing reason)) = refl
      of_payload (connection (disconnected reason)) = refl
