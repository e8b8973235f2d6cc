-- ===== src/Core/State/Keyed.antt =====
-- The books of crates/core/src/state.rs stand under the keys of their instruments.
use mooncat.Prelude.{
  ◌≡◌, refl, sym, ap, ◌∙◌, Bool, true, false, List, [], ◌∷◌, ◌++◌, Option, none, some, inl, inr,
  String, Bool-cases,
}
use mooncat.Prelude.Assoc.{get, string_eq}
use mooncat.Domain.Decimals.{Decimals}
use mooncat.Domain.Ids.{Symbol, key}
use mooncat.Domain.Book.{OrderBook, BookDelta, ApplyOutcome, applied, stale, gap}
use mooncat.Domain.Book
use mooncat.Domain.Book.Chain.{Outcome, apply-Outcome}
use mooncat.Domain.Event.{
  Event, Payload, market, account, connection, trade, book_snapshot, book_delta, candle,
  instruments,
}
use mooncat.Core.State.{MarketState, new_state, apply}
use mooncat.Core.State.Books.{snap, update, on_key, snap_touch, touch, after, survivor, get-apply}

module _ (D : Decimals) where
  -- The read-model after some events.
  unfoldable pub fed : MarketState D → List (Event D) → MarketState D
  fed s [] = s
  fed s (e ∷ es) = fed (apply D s e) es

  pub fed-append :
      (s : MarketState D) (es fs : List (Event D)) → fed s (es ++ fs) ≡ fed (fed s es) fs
  unfolding fed
  fed-append s [] fs = refl
  fed-append s (e ∷ es) fs = fed-append (apply D s e) es fs

  -- A book is about the instrument of its key.
  abbrev pub About : String → OrderBook D → Type 0
  About k b = (symbol : Symbol) × (b.symbol ≡ some symbol) × (key symbol ≡ k)

  abbrev pub Keyed : MarketState D → Type 0
  Keyed s = (k : String) (b : OrderBook D) → get s.books k ≡ some b → About k b

  survivor-symbol :
      (a : OrderBook D) (d : BookDelta D) (b : OrderBook D)
      → survivor D (Book.apply D a d) ≡ some b
      → b.symbol ≡ a.symbol
  survivor-symbol a d b = of_outcome (Book.apply D a d) (apply-Outcome D a d)
    where
      of_outcome :
          (r : OrderBook D × ApplyOutcome)
          → Outcome D a d r
          → survivor D r ≡ some b
          → b.symbol ≡ a.symbol
      of_outcome (x, applied) o e = cc
      of_outcome (x, stale) o e = cc
      of_outcome (x, gap m n) o e = absurd (cc)

  -- Under a key, events bring in only books that are about it.
  About-snap :
      (k : String) (o : Option (OrderBook D)) (c b : OrderBook D) (s : Option Symbol)
      → ((a : OrderBook D) → o ≡ some a → About k a)
      → c.symbol ≡ s
      → after D o (snap_touch D k c s) ≡ some b
      → About k b
  About-snap k o c b none h q e = h b e
  About-snap k o c b (some symbol) h q e = elim (Bool-cases (string_eq.beq (key symbol) k)) [
    | inl same ↦
        let it : after D o (on_key D true (snap c)) ≡ some b =
          ap (λ x. after D o (on_key D x (snap c))) (sym same) ∙ e in
        (
          symbol,
          ap (λ (y : OrderBook D). y.symbol) (the_book b (sym it)) ∙ q,
          (string_eq.beq_iff (key symbol) k).0 same,
        )
    | inr apart ↦ h b (ap (λ x. after D o (on_key D x (snap c))) (sym apart) ∙ e)
  ]
    where
      the_book : (y : OrderBook D) → some y ≡ some c → y ≡ c
      the_book y p = cc

  About-update :
      (k : String) (o : Option (OrderBook D)) (d : BookDelta D) (x : Bool) (b : OrderBook D)
      → ((a : OrderBook D) → o ≡ some a → About k a)
      → after D o (on_key D x (update d)) ≡ some b
      → About k b
  About-update k o d false b h e = h b e
  About-update k none d true b h e = absurd (cc)
  About-update k (some a) d true b h e =
      let (symbol, p, q) = h a refl in (symbol, survivor-symbol a d b e ∙ p, q)

  About-after :
      (k : String) (o : Option (OrderBook D)) (p : Payload D) (b : OrderBook D)
      → ((a : OrderBook D) → o ≡ some a → About k a)
      → after D o (touch D k p) ≡ some b
      → About k b
  About-after k o (market (book_snapshot c)) b h e = About-snap k o c b c.symbol h refl e
  About-after k o (market (book_delta d)) b h e =
      About-update k o d (string_eq.beq (key d.symbol) k) b h e
  About-after k o (market (trade t)) b h e = h b e
  About-after k o (market (candle c)) b h e = h b e
  About-after k o (market (instruments s is)) b h e = h b e
  About-after k o (account x) b h e = h b e
  About-after k o (connection x) b h e = h b e

  Keyed-apply : (s : MarketState D) (e : Event D) → Keyed s → Keyed (apply D s e)
  Keyed-apply s e h k b g =
      About-after k (get s.books k) e.payload b (h k) (sym (get-apply D s e k) ∙ g)

  pub Keyed-fed : (s : MarketState D) (es : List (Event D)) → Keyed s → Keyed (fed s es)
  unfolding fed
  Keyed-fed s [] h = h
  Keyed-fed s (e ∷ es) h = Keyed-fed (apply D s e) es (Keyed-apply s e h)

  pub new-Keyed : Keyed (new_state D)
  unfolding new_state get
  new-Keyed k b g = absurd (cc)
