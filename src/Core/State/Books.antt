-- ===== src/Core/State/Books.antt =====
-- The books of crates/core/src/state.rs by instrument: what one event makes of the book under a key.
use mooncat.Prelude.{
  ◌≡◌, refl, sym, ap, ◌∙◌, Bool, true, false, List, Option, none, some, inl, inr, String,
  Bool-cases, if◌then◌else◌,
}
use mooncat.Prelude.Assoc.{get, string_eq, get-put, get-remove}
use mooncat.Domain.Decimals.{Decimals}
use mooncat.Domain.Ids.{Symbol, key}
use mooncat.Domain.Book.{OrderBook, BookDelta, ApplyOutcome, applied, stale, gap}
use mooncat.Domain.Book
use mooncat.Domain.Event.{
  trade, book_snapshot, book_delta, candle, instruments, Payload, market, account, connection,
  Event,
}
use mooncat.Core.State.{
  MarketState, keep_or_drop, fold_delta_on, fold_delta, fold_snapshot_of, fold_snapshot,
  fold_candle, fold_trade, apply,
}

-- What an event is to one instrument's book.
pub data Touch (D : Decimals) : Type 0 where
  snap : OrderBook D → Touch D
  update : BookDelta D → Touch D
  other : Touch D

module _ (D : Decimals) where
  abbrev pub on_key : Bool → Touch D → Touch D
  on_key true t = t
  on_key false t = other

  abbrev pub snap_touch : String → OrderBook D → Option Symbol → Touch D
  snap_touch k b none = other
  snap_touch k b (some symbol) = on_key (string_eq.beq (key symbol) k) (snap b)

  abbrev pub touch : String → Payload D → Touch D
  touch k (market (book_snapshot b)) = snap_touch k b b.symbol
  touch k (market (book_delta d)) = on_key (string_eq.beq (key d.symbol) k) (update d)
  touch k (market (trade t)) = other
  touch k (market (candle c)) = other
  touch k (market (instruments symbol is)) = other
  touch k (account e) = other
  touch k (connection e) = other

  -- A book that a delta does not follow is gone.
  abbrev pub survivor : OrderBook D × ApplyOutcome → Option (OrderBook D)
  survivor (b, applied) = some b
  survivor (b, stale) = some b
  survivor (b, gap expected got) = none

  -- The specification: the book of an instrument after an event.
  abbrev pub after : Option (OrderBook D) → Touch D → Option (OrderBook D)
  after o (snap b) = some b
  after none (update d) = none
  after (some b) (update d) = survivor (Book.apply D b d)
  after o other = o

  get-keep_or_drop :
      (m : List (String × OrderBook D)) (j k : String) (r : OrderBook D × ApplyOutcome)
      → get (keep_or_drop D m j r) k ≡ (if string_eq.beq j k then survivor r else get m k)
  get-keep_or_drop m j k (b, applied) = get-put m j k b
  get-keep_or_drop m j k (b, stale) = get-put m j k b
  get-keep_or_drop m j k (b, gap expected got) = get-remove m j k

  -- What is under one key after an update under another, or the same.
  abbrev pub updated_under :
      List (String × OrderBook D) → String → BookDelta D → Option (OrderBook D)
  updated_under m k d = after (get m k) (on_key (string_eq.beq (key d.symbol) k) (update d))

  pub under_update :
      (m : List (String × OrderBook D)) (k : String) (d : BookDelta D) (x : Option (OrderBook D))
      → (string_eq.beq (key d.symbol) k ≡ true → x ≡ after (get m (key d.symbol)) (update d))
      → (string_eq.beq (key d.symbol) k ≡ false → x ≡ get m k)
      → x ≡ updated_under m k d
  under_update m k d x same apart = elim (Bool-cases (string_eq.beq (key d.symbol) k)) [
    | inl e ↦
        rw e
          (same e ∙ ap (λ j. after (get m j) (update d)) ((string_eq.beq_iff (key d.symbol) k).0 e))
    | inr e ↦ rw e (apart e)
  ]

  get-fold_delta :
      (m : List (String × OrderBook D)) (k : String) (d : BookDelta D)
      → get (fold_delta D m d) k ≡ updated_under m k d
  unfolding fold_delta
  get-fold_delta m k d =
      under_update m k d (get (fold_delta D m d) k) (same (get m (key d.symbol)) refl)
        (apart (get m (key d.symbol)))
    where
      same :
          (o : Option (OrderBook D))
          → get m (key d.symbol) ≡ o
          → string_eq.beq (key d.symbol) k ≡ true
          → get (fold_delta_on D m d o) k ≡ after o (update d)
      same none q e = ap (get m) (sym ((string_eq.beq_iff (key d.symbol) k).0 e)) ∙ q
      same (some b) q e = get-keep_or_drop m (key d.symbol) k (Book.apply D b d) ∙ (rw e)

      apart :
          (o : Option (OrderBook D))
          → string_eq.beq (key d.symbol) k ≡ false
          → get (fold_delta_on D m d o) k ≡ get m k
      apart none e = refl
      apart (some b) e = get-keep_or_drop m (key d.symbol) k (Book.apply D b d) ∙ (rw e)

  get-fold_snapshot :
      (m : List (String × OrderBook D)) (k : String) (b : OrderBook D)
      → get (fold_snapshot D m b) k ≡ after (get m k) (snap_touch k b b.symbol)
  unfolding fold_snapshot
  get-fold_snapshot m k b = of_symbol b.symbol
    where
      of_symbol :
          (s : Option Symbol)
          → get (fold_snapshot_of D m b s) k ≡ after (get m k) (snap_touch k b s)
      of_symbol none = refl
      of_symbol (some s) = elim (Bool-cases (string_eq.beq (key s) k)) [
        | inl e ↦ rw e (get-put m (key s) k b ∙ (rw e))
        | inr e ↦ rw e (get-put m (key s) k b ∙ (rw e))
      ]

  -- The read-model does to each key what the specification says.
  pub get-apply :
      (s : MarketState D) (e : Event D) (k : String)
      → get (apply D s e).books k ≡ after (get s.books k) (touch k e.payload)
  unfolding apply fold_trade fold_candle
  get-apply s e k = of_payload e.payload
    where
      of_payload :
          (p : Payload D)
          → get (apply D s (record e { payload = p })).books k ≡ after (get s.books k) (touch k p)
      of_payload (market (book_snapshot b)) = get-fold_snapshot s.books k b
      of_payload (market (book_delta d)) = get-fold_delta s.books k d
      of_payload (market (trade t)) = refl
      of_payload (market (candle c)) = refl
      of_payload (market (instruments symbol is)) = refl
      of_payload (account x) = refl
      of_payload (connection x) = refl
