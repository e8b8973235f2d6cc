-- ===== src/Marketdata/Books/Named.antt =====
-- The books of crates/marketdata/src/books.rs stand under the keys of their instruments.
use mooncat.Prelude.{
  ◌≡◌, refl, sym, ap, ◌∙◌, Bool, true, false, List, [], ◌∷◌, Option, none, some, inl, inr, String,
  Bool-cases, arith, if◌then◌else◌,
}
use mooncat.Prelude.Int.{ℤ}
use mooncat.Prelude.Assoc.{get, put, string_eq, get-put}
use mooncat.Domain.Decimals.{Decimals}
use mooncat.Domain.Ids.{Symbol, key}
use mooncat.Domain.Time.{Timestamp}
use mooncat.Domain.Book.{OrderBook, BookDelta, ApplyOutcome, applied, stale, gap, apply}
use mooncat.Domain.Book.Chain.{Outcome, apply-Outcome}
use mooncat.Marketdata.Books.{
  BookSet, Entry, usable, entry_book, book, or_fresh, fresh_entry, on_delta, hold, absorb, feed,
  go_on, replay_rest, replay, installed, install, install_found, install_at, install_snapshot,
  failed_found, snapshot_failed, published,
}
use mooncat.Marketdata.Books

module _ (D : Decimals) where
  -- A book is about the instrument of a key.
  abbrev pub About : String → OrderBook D → Type 0
  About k b = (symbol : Symbol) × (b.symbol ≡ some symbol) × (key symbol ≡ k)

  -- The book under a key, whether it has joined the stream or not.
  abbrev pub held_by : Option (Entry D) → Option (OrderBook D)
  held_by none = none
  held_by (some e) = e.book

  abbrev pub held : BookSet D → String → Option (OrderBook D)
  held s k = held_by (get s.entries k)

  abbrev pub Named : BookSet D → Type 0
  Named s = (k : String) (b : OrderBook D) → held s k ≡ some b → About k b

  pub book-held : (s : BookSet D) (k : String) → book D s k ≡ usable D (held s k)
  unfolding book
  book-held s k = of_entry (get s.entries k)
    where
      of_entry : (o : Option (Entry D)) → entry_book D o ≡ usable D (held_by o)
      of_entry none = refl
      of_entry (some e) = refl

  pub of_usable : (o : Option (OrderBook D)) (b : OrderBook D) → usable D o ≡ some b → o ≡ some b
  of_usable none b e = cc
  of_usable (some c) b e = ground arith

  pub book-Named :
      (s : BookSet D) (k : String) (b : OrderBook D) → Named s → book D s k ≡ some b → About k b
  book-Named s k b n h = n k b (of_usable (held s k) b (sym (book-held s k) ∙ h))

  pub held-put :
      (s : BookSet D) (j k : String) (e : Entry D)
      → held (record s { entries = put s.entries j e }) k
        ≡ (if string_eq.beq j k then e.book else held s k)
  held-put s j k e = ap held_by (get-put s.entries j k e) ∙ by_test (string_eq.beq j k)
    where
      by_test :
          (t : Bool)
          → held_by (if t then some e else get s.entries k) ≡ (if t then e.book else held s k)
      by_test true = refl
      by_test false = refl

  -- A book put under a key that it is about leaves every book under its own.
  Named-put :
      (s : BookSet D) (j : String) (e : Entry D)
      → Named s
      → ((b : OrderBook D) → e.book ≡ some b → About j b)
      → Named (record s { entries = put s.entries j e })
  Named-put s j e n h k b g = elim (Bool-cases (string_eq.beq j k)) [
    | inl y ↦
        let (symbol, p, q) =
          h b (ap (λ x. if x then e.book else held s k) (sym y) ∙ sym (held-put s j k e) ∙ g) in
        (symbol, p, q ∙ (string_eq.beq_iff j k).0 y)
    | inr m ↦ n k b (ap (λ x. if x then e.book else held s k) (sym m) ∙ sym (held-put s j k e) ∙ g)
  ]

  symbol_kept :
      (a : OrderBook D) (d : BookDelta D) (r : OrderBook D × ApplyOutcome)
      → Outcome D a d r
      → r.0.symbol ≡ a.symbol
  symbol_kept a d (b, applied) o = ap (λ (x : OrderBook D). x.symbol) o.1
  symbol_kept a d (b, stale) o = ap (λ (x : OrderBook D). x.symbol) o.1
  symbol_kept a d (b, gap m n) o = ap (λ (x : OrderBook D). x.symbol) o.2

  apply-symbol : (a : OrderBook D) (d : BookDelta D) → (apply D a d).0.symbol ≡ a.symbol
  apply-symbol a d = symbol_kept a d (apply D a d) (apply-Outcome D a d)

  hold-book :
      (e : Entry D) (d : BookDelta D) (now : Timestamp) (cooldown_ms : ℤ)
      → (hold D e d now cooldown_ms).0.book ≡ e.book
  unfolding hold
  hold-book e d now cooldown_ms = ground arith

  same_book : (b c : OrderBook D) → some b ≡ some c → b ≡ c
  same_book b c h = cc

  -- The instrument of a book does not change.
  About-absorb :
      (k : String) (e : Entry D) (a : OrderBook D) (d : BookDelta D) (now : Timestamp)
      (cooldown_ms : ℤ) (r : OrderBook D × ApplyOutcome) (b : OrderBook D)
      → r.0.symbol ≡ a.symbol
      → About k a
      → (absorb D e a d now cooldown_ms r).0.book ≡ some b
      → About k b
  unfolding absorb
  About-absorb k e a d now cooldown_ms (c, applied) b q (symbol, p, h) g =
      (symbol, ap (λ (x : OrderBook D). x.symbol) (same_book b c (sym g)) ∙ q ∙ p, h)
  About-absorb k e a d now cooldown_ms (c, stale) b q (symbol, p, h) g =
      (symbol, ap (λ (x : OrderBook D). x.symbol) (same_book b c (sym g)) ∙ q ∙ p, h)
  About-absorb k e a d now cooldown_ms (c, gap m n) b q h g =
      let none_left : none ≡ some b =
        sym (hold-book (record e { book = none }) d now cooldown_ms) ∙ g in
      absurd (cc)

  About-feed :
      (k : String) (e : Entry D) (o : Option (OrderBook D)) (d : BookDelta D) (now : Timestamp)
      (cooldown_ms : ℤ) (b : OrderBook D)
      → e.book ≡ o
      → ((a : OrderBook D) → o ≡ some a → About k a)
      → (feed D e o d now cooldown_ms).0.book ≡ some b
      → About k b
  unfolding feed
  About-feed k e none d now cooldown_ms b q h g =
      let none_left : none ≡ some b = sym q ∙ sym (hold-book e d now cooldown_ms) ∙ g in absurd (cc)
  About-feed k e (some a) d now cooldown_ms b q h g =
      About-absorb k e a d now cooldown_ms (apply D a d) b (apply-symbol a d) (h a refl) g

  abbrev pub entry_of : BookSet D → BookDelta D → Entry D
  entry_of s d = or_fresh D (get s.entries (key d.symbol)) d.symbol

  abbrev pub fed : BookSet D → BookDelta D → Timestamp → Entry D × Books.Outcome
  fed s d now = feed D (entry_of s d) (entry_of s d).book d now s.cooldown_ms

  pub entry_of-book :
      (s : BookSet D) (d : BookDelta D) → (entry_of s d).book ≡ held s (key d.symbol)
  entry_of-book s d = of_entry (get s.entries (key d.symbol))
    where
      of_entry : (o : Option (Entry D)) → (or_fresh D o d.symbol).book ≡ held_by o
      of_entry none = unfold fresh_entry in refl
      of_entry (some e) = refl

  pub held-on_delta :
      (s : BookSet D) (d : BookDelta D) (now : Timestamp) (k : String)
      → held (on_delta D s d now).0 k
        ≡ (if string_eq.beq (key d.symbol) k then (fed s d now).0.book else held s k)
  unfolding on_delta
  held-on_delta s d now k = held-put s (key d.symbol) k (fed s d now).0

  pub Named-on_delta :
      (s : BookSet D) (d : BookDelta D) (now : Timestamp) → Named s → Named (on_delta D s d now).0
  unfolding on_delta
  Named-on_delta s d now n = Named-put s (key d.symbol) (fed s d now).0 n (λ b g.
      About-feed (key d.symbol) (entry_of s d) (entry_of s d).book d now s.cooldown_ms b refl
        (λ a h. n (key d.symbol) a (sym (entry_of-book s d) ∙ h)) g)

  go_on-symbol :
      (a : OrderBook D) (r : OrderBook D × ApplyOutcome) (b : OrderBook D)
      → r.0.symbol ≡ a.symbol
      → go_on D r ≡ some b
      → b.symbol ≡ a.symbol
  go_on-symbol a (c, applied) b q h = ap (λ (x : OrderBook D). x.symbol) (same_book b c (sym h)) ∙ q
  go_on-symbol a (c, stale) b q h = ap (λ (x : OrderBook D). x.symbol) (same_book b c (sym h)) ∙ q
  go_on-symbol a (c, gap m n) b q h = absurd (cc)

  replay-symbol :
      (a : OrderBook D) (ds : List (BookDelta D)) (b : OrderBook D)
      → replay D a ds ≡ some b
      → b.symbol ≡ a.symbol
  unfolding replay
  replay-symbol a [] b h = ap (λ (x : OrderBook D). x.symbol) (same_book b a (sym h))
  replay-symbol a (d ∷ ds) b h = of_step (go_on D (apply D a d)) refl (λ c. replay-symbol c ds b) h
    where
      of_step :
          (o : Option (OrderBook D))
          → go_on D (apply D a d) ≡ o
          → ((c : OrderBook D) → replay D c ds ≡ some b → b.symbol ≡ c.symbol)
          → replay_rest D o (λ c. replay D c ds) ≡ some b
          → b.symbol ≡ a.symbol
      of_step none q ih e = absurd (cc)
      of_step (some c) q ih e = ih c e ∙ go_on-symbol a (apply D a d) c (apply-symbol a d) q

  -- What a snapshot is installed as is what is published of it, if it has joined the stream.
  pub install-published :
      (e : Entry D) (snap : OrderBook D) (now : Timestamp)
      → (install D e snap now).1 ≡ usable D (install D e snap now).0.book
  unfolding install installed
  install-published e snap now = of_replay (replay D snap e.buffered)
    where
      of_replay :
          (o : Option (OrderBook D))
          → (installed D e o now).1 ≡ usable D (installed D e o now).0.book
      of_replay none = refl
      of_replay (some b) = refl

  pub About-install :
      (symbol : Symbol) (e : Entry D) (snap : OrderBook D) (now : Timestamp) (b : OrderBook D)
      → snap.symbol ≡ some symbol
      → (install D e snap now).0.book ≡ some b
      → About (key symbol) b
  unfolding install installed
  About-install symbol e snap now b q g = of_replay (replay D snap e.buffered) refl g
    where
      of_replay :
          (o : Option (OrderBook D))
          → replay D snap e.buffered ≡ o
          → (installed D e o now).0.book ≡ some b
          → About (key symbol) b
      of_replay none h k = absurd (cc)
      of_replay (some c) h k = (symbol, replay-symbol snap e.buffered b (h ∙ k) ∙ q, refl)

  Named-install_snapshot_on :
      (s : BookSet D) (symbol : Symbol) (o : Option (Entry D)) (snap : OrderBook D)
      (now : Timestamp)
      → snap.symbol ≡ some symbol
      → Named s
      → Named (install_found D s o (key symbol) snap now).0
  Named-install_snapshot_on s symbol none snap now q n = n
  Named-install_snapshot_on s symbol (some e) snap now q n =
      Named-put s (key symbol) (install D e snap now).0 n
        (λ b g. About-install symbol e snap now b q g)

  pub Named-install_snapshot :
      (s : BookSet D) (snap : OrderBook D) (now : Timestamp)
      → Named s
      → Named (install_snapshot D s snap now).0
  unfolding install_snapshot
  Named-install_snapshot s snap now n = of_symbol snap.symbol refl
    where
      of_symbol : (o : Option Symbol) → snap.symbol ≡ o → Named (install_at D s o snap now).0
      of_symbol none q = n
      of_symbol (some symbol) q =
          Named-install_snapshot_on s symbol (get s.entries (key symbol)) snap now q n

  -- A failed fetch leaves every book.
  pub held-snapshot_failed :
      (s : BookSet D) (y : Symbol) (k : String) → held (snapshot_failed D s y) k ≡ held s k
  unfolding snapshot_failed
  held-snapshot_failed s y k = of_entry (get s.entries (key y)) refl
    where
      of_entry :
          (o : Option (Entry D))
          → get s.entries (key y) ≡ o
          → held (failed_found D s o (key y)) k ≡ held s k
      of_entry none h = refl
      of_entry (some e) h =
          held-put s (key y) k (record e { awaiting = false })
          ∙ by_test (string_eq.beq (key y) k) refl
        where
          by_test :
              (t : Bool) → string_eq.beq (key y) k ≡ t → (if t then e.book else held s k) ≡ held s k
          by_test true r = sym (ap held_by h) ∙ ap (held s) ((string_eq.beq_iff (key y) k).0 r)
          by_test false r = refl
