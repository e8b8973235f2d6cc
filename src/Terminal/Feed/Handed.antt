-- ===== src/Terminal/Feed/Handed.antt =====
-- The handover of crates/core/src/server.rs, at the terminal: it has each live book that it watches.
use mooncat.Prelude.{
  ℕ, ◌≡◌, ◌≢◌, refl, sym, ap, ◌∙◌, Bool, true, false, ◌||◌, List, [], ◌∷◌, ◌++◌, Option, none, some,
  inl, inr, String, any_of, map, keep_if, Bool-cases, Option-cases, if◌then◌else◌,
}
use mooncat.Prelude.Int.{ℤ}
use mooncat.Prelude.Assoc.{get, string_eq}
use mooncat.Prelude.Text.{sort_texts, dedup, any_of-dedup-sort}
use mooncat.Domain.Decimals.{Decimals}
use mooncat.Domain.Ids.{key}
use mooncat.Domain.Time.{Timestamp}
use mooncat.Domain.Book.{OrderBook}
use mooncat.Domain.Event.{market, trade, candle, book_snapshot}
use mooncat.Marketdata.Candles.{Candle, PublicTrade}
use mooncat.Wire.Subscription.{Subscription, symbol_of}
use mooncat.Wire.Message.{ErrorCode, ServerMsg}
use mooncat.Core.State.{
  MarketState, look_up_all, cons_found, keys_of, snapshots_for, tape_for, candles_for,
}
use mooncat.Core.State.Books.{after, on_key, snap, snap_touch}
use mooncat.Core.State.Keyed.{Keyed, About}
use mooncat.Core.Server.{handover, stamped}
use mooncat.Core.Server.Handover.{Watches}
use mooncat.Terminal.Feed.{FeedState, on_message}
use mooncat.Terminal.Feed.Received.{receive, receive-append, get-event}

module _ (D : Decimals) (lag_text : ℕ → String) (describe : ErrorCode → String)
    (subs : List Subscription) (now : ℤ) where
  -- Prints and bars leave the books alone.
  get-prints :
      (t : Timestamp) (k : String) (xs : List (PublicTrade D)) (st : FeedState D)
      → get
          (receive D lag_text describe subs now st
            (map (λ (x : PublicTrade D). stamped D lag_text t (trade x)) xs)).books
          k
        ≡ get st.books k
  unfolding receive
  get-prints t k [] st = refl
  get-prints t k (x ∷ xs) st =
      get-prints t k xs (on_message D describe st now subs (stamped D lag_text t (trade x))).0
      ∙ get-event D lag_text describe subs now st (record { at = t; payload = market (trade x) }) k

  get-bars :
      (t : Timestamp) (k : String) (xs : List (Candle D)) (st : FeedState D)
      → get
          (receive D lag_text describe subs now st
            (map (λ (x : Candle D). stamped D lag_text t (candle x)) xs)).books
          k
        ≡ get st.books k
  unfolding receive
  get-bars t k [] st = refl
  get-bars t k (x ∷ xs) st =
      get-bars t k xs (on_message D describe st now subs (stamped D lag_text t (candle x))).0
      ∙ get-event D lag_text describe subs now st (record { at = t; payload = market (candle x) }) k

  -- The books of some keys, of which `b` is the one under `k`.
  abbrev live_books : MarketState D → List String → List (OrderBook D)
  live_books m ks = keep_if (λ (b : OrderBook D). b.synced) (look_up_all m.books ks)

  module _ (m : MarketState D) (t : Timestamp) (k : String) (b : OrderBook D) (keyed : Keyed D m)
      (held : get m.books k ≡ some b) (ready : b.synced ≡ true) where
    abbrev books_sent : List (OrderBook D) → List (ServerMsg D)
    books_sent bs = map (λ (x : OrderBook D). stamped D lag_text t (book_snapshot x)) bs

    abbrev Handed : List String → Type 0
    Handed ks =
        (st : FeedState D)
        → get (receive D lag_text describe subs now st (books_sent (live_books m ks))).books k
          ≡ (if any_of (λ j. string_eq.beq j k) ks then some b else get st.books k)

    -- A key without the book is another one.
    not_here : (j : String) → get m.books j ≢ some b → string_eq.beq j k ≡ false
    not_here j h = elim (Bool-cases (string_eq.beq j k)) [
      | inl e ↦ absurd (h (ap (get m.books) ((string_eq.beq_iff j k).0 e) ∙ held))
      | inr e ↦ e
    ]

    Handed-none :
        (j : String) (ks : List String) → get m.books j ≡ none → Handed ks → Handed (j ∷ ks)
    unfolding look_up_all
    Handed-none j ks none_there ih st = rw (none_there, not_here j (λ e. absurd (cc))) (ih st)

    Handed-waiting :
        (j : String) (ks : List String) (c : OrderBook D)
        → get m.books j ≡ some c
        → c.synced ≡ false
        → Handed ks
        → Handed (j ∷ ks)
    unfolding look_up_all
    Handed-waiting j ks c there waiting ih st = rw (there, waiting, not_here j apart) (ih st)
      where
        apart : get m.books j ≢ some b
        apart e = let same : c ≡ b = cc in absurd (cc)

    snap_touch_lem :
        (j : String) (c : OrderBook D)
        → About D j c
        → snap_touch D k c c.symbol ≡ on_key D (string_eq.beq j k) (snap c)
    snap_touch_lem j c (symbol, p, q) =
        ap (snap_touch D k c) p ∙ ap (λ i. on_key D (string_eq.beq i k) (snap c)) q

    get-snapshot :
        (j : String) (c : OrderBook D) (st : FeedState D)
        → get m.books j ≡ some c
        → get (on_message D describe st now subs (stamped D lag_text t (book_snapshot c))).0.books k
          ≡ (if string_eq.beq j k then some b else get st.books k)
    get-snapshot j c st there =
        get-event D lag_text describe subs now st
          (record { at = t; payload = market (book_snapshot c) }) k
        ∙ ap (after D (get st.books k)) (snap_touch_lem j c (keyed j c there))
        ∙ on_either (string_eq.beq j k) refl
      where
        on_either :
            (x : Bool)
            → string_eq.beq j k ≡ x
            → after D (get st.books k) (on_key D x (snap c))
              ≡ (if x then some b else get st.books k)
        on_either true e = sym there ∙ ap (get m.books) ((string_eq.beq_iff j k).0 e) ∙ held
        on_either false e = refl

    Handed-live :
        (j : String) (ks : List String) (c : OrderBook D)
        → get m.books j ≡ some c
        → c.synced ≡ true
        → Handed ks
        → Handed (j ∷ ks)
    unfolding look_up_all receive
    Handed-live j ks c there live ih st =
        let st' = (on_message D describe st now subs (stamped D lag_text t (book_snapshot c))).0 in
        ap (λ bs. get (receive D lag_text describe subs now st (books_sent bs)).books k) served
        ∙ ih st'
        ∙ ap (λ o. if any_of (λ i. string_eq.beq i k) ks then some b else o)
            (get-snapshot j c st there)
        ∙ merged (string_eq.beq j k) (any_of (λ i. string_eq.beq i k) ks) (get st.books k)
      where
        served : live_books m (j ∷ ks) ≡ c ∷ live_books m ks
        served =
            ap
              (λ o. keep_if (λ (x : OrderBook D). x.synced) (cons_found o (look_up_all m.books ks)))
              there
            ∙ ap (λ x. if x then c ∷ live_books m ks else live_books m ks) live

        merged :
            (x y : Bool) (o : Option (OrderBook D))
            → (if y then some b else (if x then some b else o)) ≡ (if x || y then some b else o)
        merged true true o = refl
        merged true false o = refl
        merged false true o = refl
        merged false false o = refl

    handed : (ks : List String) → Handed ks
    unfolding look_up_all receive
    handed [] = λ st. refl
    handed (j ∷ ks) = elim (Option-cases (get m.books j)) [
      | inl e ↦ Handed-none j ks e (handed ks)
      | inr (c, e) ↦ elim (Bool-cases c.synced) [
        | inl live ↦ Handed-live j ks c e live (handed ks)
        | inr waiting ↦ Handed-waiting j ks c e waiting (handed ks)
      ]
    ]

    any_of-keys :
        (watched : List Subscription)
        → any_of (λ j. string_eq.beq j k) (map (λ s. key (symbol_of s)) watched)
          ≡ any_of (λ s. string_eq.beq (key (symbol_of s)) k) watched
    any_of-keys [] = refl
    any_of-keys (s ∷ ss) = ap (λ x. string_eq.beq (key (symbol_of s)) k || x) (any_of-keys ss)

    -- A terminal that is handed the state has the book, if it watches the instrument.
    pub get-handover :
        (watched : List Subscription) (st : FeedState D)
        → Watches D watched k
        → get (receive D lag_text describe subs now st (handover D lag_text m watched t)).books k
          ≡ some b
    unfolding handover snapshots_for keys_of
    get-handover watched st w =
        let prints =
          map (λ (x : PublicTrade D). stamped D lag_text t (trade x)) (tape_for D m watched) in
        let bars =
          map (λ (x : Candle D). stamped D lag_text t (candle x)) (candles_for D m watched) in
        let ks = dedup (sort_texts (map (λ s. key (symbol_of s)) watched)) in
        let whole = books_sent (live_books m ks) in
        let st' =
          receive D lag_text describe subs now (receive D lag_text describe subs now st prints)
            bars in
        ap (λ (x : FeedState D). get x.books k)
          (receive-append D lag_text describe subs now st prints (bars ++ whole)
            ∙ receive-append D lag_text describe subs now
                (receive D lag_text describe subs now st prints) bars whole)
        ∙ handed ks st'
        ∙ ap (λ x. if x then some b else get st'.books k)
            (any_of-dedup-sort (λ j. string_eq.beq j k) (map (λ s. key (symbol_of s)) watched)
              ∙ any_of-keys watched
              ∙ w)
