-- ===== src/Binance/Connector/Heard.antt =====
-- What the core (crates/core/src/state.rs) makes of what the connector of crates/binance/src/lib.rs sends:
-- the announcement of one delta.
use mooncat.Prelude.{
  ◌≡◌, refl, sym, ap, ◌∙◌, Bool, true, false, List, [], ◌∷◌, ◌++◌, Option, none, some, inl, inr,
  String, Bool-cases, arith, if◌then◌else◌, All,
}
use mooncat.Prelude.Int.{ℤ}
use mooncat.Prelude.Assoc.{get, string_eq}
use mooncat.Domain.Decimals.{Decimals}
use mooncat.Domain.Ids.{key}
use mooncat.Domain.Time.{Timestamp}
use mooncat.Domain.Book.{OrderBook, BookDelta, ApplyOutcome, applied, stale, gap}
use mooncat.Domain.Book
use mooncat.Marketdata.Books.{BookSet, Entry, Outcome, usable, book, on_delta, hold, absorb, feed}
use mooncat.Marketdata.Books.Mirror.{on_delta-mirrored, applied_to}
use mooncat.Marketdata.Books.Named.{
  About, Named, book-held, book-Named, Named-on_delta, fed, entry_of, entry_of-book,
}
use mooncat.Core.State.{MarketState, apply}
use mooncat.Core.State.Books.{
  Touch, snap, update, other, on_key, snap_touch, touch, after, survivor, get-apply,
}
use mooncat.Binance.Connector.{Effect, emit, write, fetch, announced, whole_book}

module _ (D : Decimals) where
  -- The core's state after the effects of the connector; the sink delivers in order.
  unfoldable pub heard : MarketState D → List (Effect D) → MarketState D
  heard s [] = s
  heard s (emit e ∷ es) = heard (apply D s e) es
  heard s (write f ∷ es) = heard s es
  heard s (fetch y ∷ es) = heard s es

  abbrev pub touch_of : String → Effect D → Touch D
  touch_of k (emit e) = touch D k e.payload
  touch_of k (write f) = other
  touch_of k (fetch y) = other

  -- One instrument's book after the effects.
  abbrev pub after_all : String → Option (OrderBook D) → List (Effect D) → Option (OrderBook D)
  after_all k o [] = o
  after_all k o (e ∷ es) = after_all k (after D o (touch_of k e)) es

  pub get-heard :
      (s : MarketState D) (es : List (Effect D)) (k : String)
      → get (heard s es).books k ≡ after_all k (get s.books k) es
  unfolding heard
  get-heard s [] k = refl
  get-heard s (emit e ∷ es) k =
      get-heard (apply D s e) es k ∙ ap (λ o. after_all k o es) (get-apply D s e k)
  get-heard s (write f ∷ es) k = get-heard s es k
  get-heard s (fetch y ∷ es) k = get-heard s es k

  pub heard-append :
      (s : MarketState D) (es fs : List (Effect D)) → heard s (es ++ fs) ≡ heard (heard s es) fs
  unfolding heard
  heard-append s [] fs = refl
  heard-append s (emit e ∷ es) fs = heard-append (apply D s e) es fs
  heard-append s (write f ∷ es) fs = heard-append s es fs
  heard-append s (fetch y ∷ es) fs = heard-append s es fs

  -- Effects that say nothing of a book.
  abbrev pub Quiet : Effect D → Type 0
  Quiet e = (k : String) → touch_of k e ≡ other

  pub after_all-Quiet :
      (k : String) (o : Option (OrderBook D)) (es : List (Effect D))
      → All Quiet es
      → after_all k o es ≡ o
  after_all-Quiet k o [] q = refl
  after_all-Quiet k o (e ∷ es) q =
      ap (λ t. after_all k (after D o t) es) (q.0 k) ∙ after_all-Quiet k o es q.1

  -- The core has the book of every instrument that the connector has one of.
  pub record Mirrors (b : BookSet D) (s : MarketState D) : Type 0 where
    pub named : Named D b
    pub same : (k : String) (x : OrderBook D) → book D b k ≡ some x → get s.books k ≡ some x

  -- A step that leaves the books, and says nothing of them.
  pub quiet_step :
      (b : BookSet D) (s : MarketState D) (es : List (Effect D))
      → All Quiet es
      → Mirrors b s
      → Mirrors b (heard s es)
  quiet_step b s es q m = record {
    named = m.named;
    same = λ k x h. get-heard s es k ∙ after_all-Quiet k (get s.books k) es q ∙ m.same k x h;
  }

  -- What an announcement does to one instrument's book.
  abbrev Told : BookSet D → String → Option (OrderBook D) → List (Effect D) → Type 0
  Told b k mine es = (x : OrderBook D) → book D b k ≡ some x → after_all k mine es ≡ some x

  pub snap_of :
      (k j : String) (now : Timestamp) (mine : Option (OrderBook D)) (y : OrderBook D)
      → About D j y
      → after_all k mine (whole_book D now (some y)) ≡ (if string_eq.beq j k then some y else mine)
  snap_of k j now mine y (symbol, p, q) =
      ap (λ o. after D mine (snap_touch D k y o)) p
      ∙ ap (λ i. after D mine (on_key D (string_eq.beq i k) (snap y))) q
      ∙ by_test (string_eq.beq j k)
    where
      by_test : (t : Bool) → after D mine (on_key D t (snap y)) ≡ (if t then some y else mine)
      by_test true = refl
      by_test false = refl

  -- A delta that the set lets through continues the book that it has.
  forward_applied :
      (e : Entry D) (o : Option (OrderBook D)) (d : BookDelta D) (now : Timestamp) (cooldown_ms : ℤ)
      → (feed D e o d now cooldown_ms).1.forward ≡ true
      → (c : OrderBook D) × (o ≡ some c) × (c.synced ≡ true) × ((Book.apply D c d).1 ≡ applied)
  unfolding feed absorb hold
  forward_applied e none d now cooldown_ms h = absurd (ground arith)
  forward_applied e (some c) d now cooldown_ms h = of_outcome (Book.apply D c d) refl h
    where
      of_outcome :
          (r : OrderBook D × ApplyOutcome)
          → Book.apply D c d ≡ r
          → (absorb D e c d now cooldown_ms r).1.forward ≡ true
          → (a : OrderBook D) × (some c ≡ some a)
            × (a.synced ≡ true)
            × ((Book.apply D a d).1 ≡ applied)
      of_outcome (b, applied) q k = (c, refl, k, ap (λ x. x.1) q)
      of_outcome (b, stale) q k = absurd (cc)
      of_outcome (b, gap m n) q k = absurd (ground arith)

  survivor_applied :
      (c : OrderBook D) (d : BookDelta D)
      → (Book.apply D c d).1 ≡ applied
      → survivor D (Book.apply D c d) ≡ some (Book.apply D c d).0
  survivor_applied c d h = of_outcome (Book.apply D c d) h
    where
      of_outcome : (r : OrderBook D × ApplyOutcome) → r.1 ≡ applied → survivor D r ≡ some r.0
      of_outcome (b, applied) q = refl
      of_outcome (b, stale) q = refl
      of_outcome (b, gap m n) q = absurd (cc)

  -- What is forwarded does to the core's copy what it did to the set's.
  told_forward :
      (b : BookSet D) (mine : Option (OrderBook D)) (d : BookDelta D) (now : Timestamp)
      (x : OrderBook D)
      → ((y : OrderBook D) → book D b (key d.symbol) ≡ some y → mine ≡ some y)
      → (fed D b d now).1.forward ≡ true
      → applied_to D mine d ≡ some x
      → after D mine (update d) ≡ some x
  told_forward b mine d now x a f h =
      let (c, p, q, r) =
        forward_applied (entry_of D b d) (entry_of D b d).book d now b.cooldown_ms f in
      let usable_now : book D b (key d.symbol) ≡ some c =
        book-held D b (key d.symbol)
        ∙ ap (usable D) (sym (entry_of-book D b d) ∙ p)
        ∙ ap (λ t. if t then some c else none) q in
      let mine_is : mine ≡ some c = a c usable_now in
      ap (λ o. after D o (update d)) mine_is
      ∙ survivor_applied c d r
      ∙ sym (ap (λ o. applied_to D o d) mine_is)
      ∙ h

  outcome_fed :
      (b : BookSet D) (d : BookDelta D) (now : Timestamp)
      → (on_delta D b d now).1 ≡ (fed D b d now).1
  unfolding on_delta
  outcome_fed b d now = refl

  -- The announcement of a delta, to the copy of its own instrument.
  pub told_same :
      (b : BookSet D) (mine : Option (OrderBook D)) (d : BookDelta D) (now later : Timestamp)
      (x : OrderBook D)
      → Named D b
      → ((y : OrderBook D) → book D b (key d.symbol) ≡ some y → mine ≡ some y)
      → book D (on_delta D b d now).0 (key d.symbol) ≡ some x
      → after_all
          (key d.symbol)
          mine
          (announced D later d (on_delta D b d now).0 (on_delta D b d now).1)
        ≡ some x
  unfolding announced
  told_same b mine d now later x n a h =
      by_outcome (on_delta D b d now).1 refl (on_delta-mirrored D mine b d now a x h)
    where
      same_key : string_eq.beq (key d.symbol) (key d.symbol) ≡ true
      same_key = (string_eq.beq_iff (key d.symbol) (key d.symbol)).1 refl

      by_outcome :
          (out : Outcome)
          → (on_delta D b d now).1 ≡ out
          → (if out.attached
              then book D (on_delta D b d now).0 (key d.symbol)
              else if out.forward
              then applied_to D mine d
              else mine)
            ≡ some x
          → after_all (key d.symbol) mine (announced D later d (on_delta D b d now).0 out) ≡ some x
      by_outcome out q f = elim (Bool-cases out.attached) [
        | inl t ↦ rw t (
            ap (λ o. after_all (key d.symbol) mine (whole_book D later o)) h
            ∙ snap_of (key d.symbol) (key d.symbol) later mine x (
                book-Named D (on_delta D b d now).0 (key d.symbol) x (Named-on_delta D b d now n) h)
            ∙ ap (λ i. if i then some x else mine) same_key)
        | inr t ↦ elim (Bool-cases out.forward) [
          | inl w ↦
              rw (t, w)
                (ap (λ i. after D mine (on_key D i (update d))) same_key
                  ∙ told_forward b mine d now x a
                      (ap (λ (o : Outcome). o.forward) (sym (outcome_fed b d now) ∙ q) ∙ w)
                      (rw (t, w) at f))
          | inr w ↦ rw (t, w) (rw (t, w) at f)
        ]
      ]
