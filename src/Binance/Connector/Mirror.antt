-- ===== src/Binance/Connector/Mirror.antt =====
-- The core (crates/core/src/state.rs) has the books that the connector of crates/binance/src/lib.rs has,
-- through everything that happens to the socket.
use mooncat.Prelude.{
  ◌≡◌, ◌⊎◌, refl, sym, ap, ◌∙◌, subst, Bool, true, false, List, [], ◌∷◌, ◌++◌, map, Option, none,
  some, inl, inr, String, Bool-cases, if◌then◌else◌, All,
}
use mooncat.Prelude.Assoc.{get, string_eq}
use mooncat.Domain.Decimals.{Decimals}
use mooncat.Domain.Ids.{Symbol, key}
use mooncat.Domain.Time.{Timestamp}
use mooncat.Domain.Book.{OrderBook, BookDelta}
use mooncat.Domain.Event.{market, candle}
use mooncat.Marketdata.Candles.{Candle, PublicTrade, on_trade}
use mooncat.Marketdata.Books.{
  BookSet, Entry, Outcome, Need, nothing, snapshot, usable, book, on_delta, install, install_found,
  install_at, install_snapshot, snapshot_failed, reset,
}
use mooncat.Marketdata.Books.Named.{
  About, held, Named, fed, of_usable, book-held, book-Named, held-on_delta, Named-on_delta,
  held-put, install-published, Named-install_snapshot, About-install, held-snapshot_failed,
}
use mooncat.Core.State.{MarketState}
use mooncat.Core.State.Books.{update, on_key, after}
use mooncat.Binance.Connector.{
  Effect, Task, Env, Exit, shutdown, reconnect, exit, on_update, on_print, fold, announced,
  whole_book, wanted, on_fetched, event,
}
use mooncat.Binance.Connector.Heard.{
  heard, get-heard, heard-append, after_all, Quiet, Mirrors, quiet_step, snap_of, told_same,
}

module _ (D : Decimals) where
  -- An announcement leaves the copies of other instruments.
  told_apart :
      (b : BookSet D) (k : String) (mine : Option (OrderBook D)) (d : BookDelta D) (now : Timestamp)
      (out : Outcome)
      → Named D b
      → string_eq.beq (key d.symbol) k ≡ false
      → after_all D k mine (announced D now d b out) ≡ mine
  unfolding announced
  told_apart b k mine d now out n apart = elim (Bool-cases out.attached) [
    | inl t ↦ rw t (whole (book D b (key d.symbol)) refl)
    | inr t ↦ elim (Bool-cases out.forward) [
      | inl w ↦ rw (t, w) (ap (λ i. after D mine (on_key D i (update d))) apart)
      | inr w ↦ rw (t, w) refl
    ]
  ]
    where
      whole :
          (o : Option (OrderBook D))
          → book D b (key d.symbol) ≡ o
          → after_all D k mine (whole_book D now o) ≡ mine
      whole none h = refl
      whole (some y) h =
          snap_of D k (key d.symbol) now mine y (book-Named D b (key d.symbol) y n h)
          ∙ ap (λ i. if i then some y else mine) apart

  announced_step :
      (b : BookSet D) (s : MarketState D) (d : BookDelta D) (now later : Timestamp)
      → Mirrors D b s
      → Mirrors D
          (on_delta D b d now).0
          (heard D s (announced D later d (on_delta D b d now).0 (on_delta D b d now).1))
  announced_step b s d now later m = record {
    named = Named-on_delta D b d now m.named;
    same = λ k x h. get-heard D s es k ∙ at_key k x h (Bool-cases (string_eq.beq (key d.symbol) k));
  }
    where
      b' : BookSet D
      b' = (on_delta D b d now).0

      es : List (Effect D)
      es = announced D later d (on_delta D b d now).0 (on_delta D b d now).1

      at_key :
          (k : String) (x : OrderBook D)
          → book D (on_delta D b d now).0 k ≡ some x
          → (string_eq.beq (key d.symbol) k ≡ true) ⊎ (string_eq.beq (key d.symbol) k ≡ false)
          → after_all D k (get s.books k) es ≡ some x
      at_key k x h (inl e) =
          subst
            (λ j.
              (x : OrderBook D)
              → book D (on_delta D b d now).0 j ≡ some x
              → after_all D j (get s.books j) es ≡ some x)
            ((string_eq.beq_iff (key d.symbol) k).0 e)
            (λ y g.
              told_same D b (get s.books (key d.symbol)) d now later y m.named
                (m.same (key d.symbol)) g)
            x h
      at_key k x h (inr e) =
          told_apart (on_delta D b d now).0 k (get s.books k) d later (on_delta D b d now).1
            (Named-on_delta D b d now m.named) e
          ∙ m.same k x (
              book-held D b k
              ∙ ap (λ i. usable D (if i then (fed D b d now).0.book else held D b k)) (sym e)
              ∙ ap (usable D) (sym (held-on_delta D b d now k))
              ∙ sym (book-held D (on_delta D b d now).0 k)
              ∙ h)

  wanted-Quiet : (now : Timestamp) (n : Need) → All (Quiet D) (wanted D now n)
  wanted-Quiet now nothing = tt
  wanted-Quiet now (snapshot y) = (λ k. refl, (λ k. refl, tt))

  pub map-Quiet :
      {A : Type 0} (f : A → Effect D) (xs : List A)
      → ((x : A) → Quiet D (f x))
      → All (Quiet D) (map f xs)
  map-Quiet f [] h = tt
  map-Quiet f (x ∷ xs) h = (h x, map-Quiet f xs h)

  append-Quiet :
      (es fs : List (Effect D)) → All (Quiet D) es → All (Quiet D) fs → All (Quiet D) (es ++ fs)
  append-Quiet [] fs h k = k
  append-Quiet (e ∷ es) fs h k = (h.0, append-Quiet es fs h.1 k)

  pub update_step :
      (v : Env D) (t : Task D) (d : BookDelta D) (s : MarketState D)
      → Mirrors D t.books s
      → Mirrors D (on_update D v t d).0.books (heard D s (on_update D v t d).1)
  unfolding on_update
  update_step v t d s m =
      let (b', out) = on_delta D t.books d (v.at 0) in
      subst (Mirrors D b')
        (sym (heard-append D s (announced D (v.at 1) d b' out) (wanted D (v.at 2) out.need)))
        (quiet_step D b' (heard D s (announced D (v.at 1) d b' out)) (wanted D (v.at 2) out.need)
          (wanted-Quiet (v.at 2) out.need) (announced_step t.books s d (v.at 0) (v.at 1) m))

  pub print_step :
      (v : Env D) (t : Task D) (p : PublicTrade D) (s : MarketState D)
      → Mirrors D t.books s
      → Mirrors D (on_print D v t p).0.books (heard D s (on_print D v t p).1)
  unfolding on_print
  print_step v t p s m =
      quiet_step D t.books s _
        (append-Quiet _ _
          (map-Quiet (λ (c : Candle D). event D (v.at 0) (market (candle c)))
            (fold D (on_trade D t.candles p).1) (λ c k. refl))
          (λ k. refl, tt))
        m

  -- What is published of a snapshot, to the copy of one instrument.
  told_found :
      (b : BookSet D) (symbol : Symbol) (o : Option (Entry D)) (snap : OrderBook D)
      (now later : Timestamp) (mine : Option (OrderBook D)) (k : String) (x : OrderBook D)
      → get b.entries (key symbol) ≡ o
      → snap.symbol ≡ some symbol
      → ((y : OrderBook D) → book D b k ≡ some y → mine ≡ some y)
      → book D (install_found D b o (key symbol) snap now).0 k ≡ some x
      → after_all D k mine (whole_book D later (install_found D b o (key symbol) snap now).1)
        ≡ some x
  told_found b symbol none snap now later mine k x g q a h = a x h
  told_found b symbol (some e) snap now later mine k x g q a h =
      by_key (string_eq.beq (key symbol) k) refl (install D e snap now).1 refl
    where
      usable_at :
          (i : Bool)
          → string_eq.beq (key symbol) k ≡ i
          → usable D (if i then (install D e snap now).0.book else held D b k) ≡ some x
      usable_at i r =
          ap (λ j. usable D (if j then (install D e snap now).0.book else held D b k)) (sym r)
          ∙ ap (usable D) (sym (held-put D b (key symbol) k (install D e snap now).0))
          ∙ sym (book-held D (install_found D b (some e) (key symbol) snap now).0 k)
          ∙ h

      about : (y : OrderBook D) → (install D e snap now).1 ≡ some y → About D (key symbol) y
      about y r =
          About-install D symbol e snap now y q
            (of_usable D (install D e snap now).0.book y (sym (install-published D e snap now) ∙ r))

      by_key :
          (i : Bool)
          → string_eq.beq (key symbol) k ≡ i
          → (o : Option (OrderBook D)) → (install D e snap now).1 ≡ o
          → after_all D k mine (whole_book D later o) ≡ some x
      by_key true r o w =
          let it : (install D e snap now).1 ≡ some x =
            install-published D e snap now ∙ usable_at true r in
          ap (λ z. after_all D k mine (whole_book D later z)) (sym w ∙ it)
          ∙ snap_of D k (key symbol) later mine x (about x it)
          ∙ ap (λ i. if i then some x else mine) r
      by_key false r none w = a x (book-held D b k ∙ usable_at false r)
      by_key false r (some y) w =
          snap_of D k (key symbol) later mine y (about y w)
          ∙ ap (λ i. if i then some y else mine) r
          ∙ a x (book-held D b k ∙ usable_at false r)

  pub fetched_step :
      (v : Env D) (t : Task D) (snap : OrderBook D) (s : MarketState D)
      → Mirrors D t.books s
      → Mirrors D (on_fetched D v t snap).0.books (heard D s (on_fetched D v t snap).1)
  unfolding install_snapshot
  fetched_step v t snap s m = record {
    named = Named-install_snapshot D t.books snap (v.at 0) m.named;
    same = λ k x h.
        get-heard D s (on_fetched D v t snap).1 k
        ∙ told_fetched t.books snap (v.at 0) (v.at 1) (get s.books k) k x (m.same k) h;
  }
    where
      told_fetched :
          (b : BookSet D) (snap : OrderBook D) (now later : Timestamp) (mine : Option (OrderBook D))
          (k : String) (x : OrderBook D)
          → ((y : OrderBook D) → book D b k ≡ some y → mine ≡ some y)
          → book D (install_snapshot D b snap now).0 k ≡ some x
          → after_all D k mine (whole_book D later (install_snapshot D b snap now).1) ≡ some x
      told_fetched b snap now later mine k x a h = of_symbol snap.symbol refl h
        where
          of_symbol :
              (o : Option Symbol)
              → snap.symbol ≡ o
              → book D (install_at D b o snap now).0 k ≡ some x
              → after_all D k mine (whole_book D later (install_at D b o snap now).1) ≡ some x
          of_symbol none q g = a x g
          of_symbol (some symbol) q g =
              told_found b symbol (get b.entries (key symbol)) snap now later mine k x refl q a g

  pub failed_step :
      (b : BookSet D) (y : Symbol) (s : MarketState D)
      → Mirrors D b s
      → Mirrors D (snapshot_failed D b y) s
  failed_step b y s m = record {
    named = λ k x h. m.named k x (sym (held-snapshot_failed D b y k) ∙ h);
    same = λ k x h. m.same k x (
        book-held D b k
        ∙ ap (usable D) (sym (held-snapshot_failed D b y k))
        ∙ sym (book-held D (snapshot_failed D b y) k)
        ∙ h);
  }

  -- Without books there is nothing to mirror.
  pub reset_step : (b : BookSet D) (s : MarketState D) → Mirrors D (reset D b) s
  unfolding reset
  reset_step b s = record {
    named = λ k x h. absurd (unfold get in cc);
    same = λ k x h. absurd (unfold get book in cc);
  }

  pub exit_step :
      (v : Env D) (t : Task D) (out : List (Effect D)) (e : Exit) (s : MarketState D)
      → All (Quiet D) out
      → Mirrors D t.books s
      → Mirrors D (exit D v t out e).0.books (heard D s (exit D v t out e).1)
  exit_step v t out shutdown s q m = quiet_step D t.books s out q m
  exit_step v t out (reconnect reason) s q m = reset_step t.books _
