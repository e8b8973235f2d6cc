-- ===== src/Marketdata/Books/Mirror.antt =====
-- A consumer that follows `on_delta` and `install_snapshot` of crates/marketdata/src/books.rs: its
-- copy of an instrument's book is the core's book whenever that is live.
use mooncat.Prelude.{
  ◌≡◌, refl, sym, ap, subst, ◌∙◌, true, Option, none, some, arith, if◌then◌else◌, Bool-cases, inl,
  inr,
}
use mooncat.Prelude.Int.{ℤ}
use mooncat.Domain.Decimals.{Decimals}
use mooncat.Domain.Time.{Timestamp}
use mooncat.Domain.Book.{OrderBook, BookDelta, ApplyOutcome, applied, stale, gap, apply}
use mooncat.Prelude.Assoc.{get, get-put_self, string_eq}
use mooncat.Domain.Ids.{Symbol, key}
use mooncat.Marketdata.Books.{
  BookSet, usable, entry_book, book, fresh_entry, or_fresh, on_delta, Entry, Outcome, hold, absorb,
  feed, replay, installed, install,
}

module _ (D : Decimals) where
  abbrev pub applied_to : Option (OrderBook D) → BookDelta D → Option (OrderBook D)
  applied_to none d = none
  applied_to (some c) d = some (apply D c d).0

  -- What a consumer holds after an outcome of `on_delta`: the whole book when it is attached, the
  -- forwarded delta applied to its own copy, or no change.
  abbrev pub consume : Option (OrderBook D) → Entry D → BookDelta D → Outcome → Option (OrderBook D)
  consume mine e d out =
      if out.attached then e.book else if out.forward then applied_to mine d else mine

  -- The consumer's copy is the entry's book, if that has joined the stream.
  abbrev pub AgreesOn : Option (OrderBook D) → Option (OrderBook D) → Type 0
  AgreesOn mine none = Unit
  AgreesOn mine (some b) = b.synced ≡ true → mine ≡ some b

  abbrev pub Agrees : Option (OrderBook D) → Entry D → Type 0
  Agrees mine e = AgreesOn mine e.book

  book-hold :
      (e : Entry D) (d : BookDelta D) (now : Timestamp) (cooldown_ms : ℤ)
      → (hold D e d now cooldown_ms).0.book ≡ e.book
  unfolding hold
  book-hold e d now cooldown_ms = ground arith

  AgreesOn-none : (mine o : Option (OrderBook D)) → o ≡ none → AgreesOn mine o
  AgreesOn-none mine o h = rw h tt

  stale_unchanged :
      (b : OrderBook D) (d : BookDelta D) (c : OrderBook D) → apply D b d ≡ (c, stale) → c ≡ b
  unfolding apply
  stale_unchanged b d c h = ground arith

  absorb-Agrees :
      (mine : Option (OrderBook D)) (e : Entry D) (b : OrderBook D) (d : BookDelta D)
      (now : Timestamp) (cooldown_ms : ℤ) (r : OrderBook D × ApplyOutcome)
      → apply D b d ≡ r
      → AgreesOn mine (some b)
      → Agrees
          (consume mine (absorb D e b d now cooldown_ms r).0 d (absorb D e b d now cooldown_ms r).1)
          (absorb D e b d now cooldown_ms r).0
  unfolding absorb
  absorb-Agrees mine e b d now cooldown_ms (c, applied) h a = elim (Bool-cases b.synced) [
    | inl s ↦ λ k. rw (s, a s) (ap (λ q. some q.0) h)
    | inr s ↦ λ k. rw s refl
  ]
  absorb-Agrees mine e b d now cooldown_ms (c, stale) h a =
      subst (λ x. x.synced ≡ true → mine ≡ some x) (sym (stale_unchanged b d c h)) a
  absorb-Agrees mine e b d now cooldown_ms (c, gap x y) h a =
      AgreesOn-none _ _ (book-hold (record e { book = none }) d now cooldown_ms)

  feed-Agrees :
      (mine : Option (OrderBook D)) (e : Entry D) (o : Option (OrderBook D)) (d : BookDelta D)
      (now : Timestamp) (cooldown_ms : ℤ)
      → e.book ≡ o
      → AgreesOn mine o
      → Agrees
          (consume mine (feed D e o d now cooldown_ms).0 d (feed D e o d now cooldown_ms).1)
          (feed D e o d now cooldown_ms).0
  unfolding feed
  feed-Agrees mine e none d now cooldown_ms h a =
      AgreesOn-none _ _ (book-hold e d now cooldown_ms ∙ h)
  feed-Agrees mine e (some b) d now cooldown_ms h a =
      absorb-Agrees mine e b d now cooldown_ms _ refl a

  -- A consumer that takes the whole book when one attaches, applies what is forwarded, and ignores
  -- the rest, holds the core's book after every delta, if it did before.
  pub feed-mirrored :
      (mine : Option (OrderBook D)) (e : Entry D) (d : BookDelta D) (now : Timestamp)
      (cooldown_ms : ℤ)
      → Agrees mine e
      → Agrees
          (consume mine
            (feed D e e.book d now cooldown_ms).0
            d
            (feed D e e.book d now cooldown_ms).1)
          (feed D e e.book d now cooldown_ms).0
  feed-mirrored mine e d now cooldown_ms a = feed-Agrees mine e e.book d now cooldown_ms refl a

  -- What a consumer holds after `install_snapshot`: the published book, or what it had.
  abbrev pub receive : Option (OrderBook D) → Option (OrderBook D) → Option (OrderBook D)
  receive mine none = mine
  receive mine (some b) = some b

  installed-Agrees :
      (mine : Option (OrderBook D)) (e : Entry D) (o : Option (OrderBook D)) (now : Timestamp)
      → Agrees (receive mine (installed D e o now).1) (installed D e o now).0
  unfolding installed
  installed-Agrees mine e none now = tt
  installed-Agrees mine e (some b) now = λ k. rw k refl

  -- Whatever it held before, a consumer that takes the published book agrees with the core after a
  -- snapshot is installed.
  pub install-mirrored :
      (mine : Option (OrderBook D)) (e : Entry D) (snap : OrderBook D) (now : Timestamp)
      → Agrees (receive mine (install D e snap now).1) (install D e snap now).0
  unfolding install
  install-mirrored mine e snap now = installed-Agrees mine e (replay D snap e.buffered) now

  -- The two readings of agreement: on an entry's book, and on what the set hands out.
  to_AgreesOn :
      (mine o : Option (OrderBook D))
      → ((b : OrderBook D) → usable D o ≡ some b → mine ≡ some b)
      → AgreesOn mine o
  to_AgreesOn mine none h = tt
  to_AgreesOn mine (some b) h = λ k. h b (rw k refl)

  of_AgreesOn :
      (mine o : Option (OrderBook D))
      → AgreesOn mine o
      → (b : OrderBook D) → usable D o ≡ some b
      → mine ≡ some b
  of_AgreesOn mine none a b h = cc
  of_AgreesOn mine (some c) a b h = ground arith

  -- What a consumer of the set holds after a delta: the instrument's book from the set when it is
  -- attached, the forwarded delta applied to its own copy, or no change.
  abbrev pub follow :
      Option (OrderBook D) → BookDelta D → BookSet D × Outcome → Option (OrderBook D)
  follow mine d (s, out) =
      if out.attached
      then book D s (key d.symbol)
      else if out.forward
      then applied_to mine d
      else mine

  attached_usable :
      (mine : Option (OrderBook D)) (o : Option (OrderBook D)) (b : OrderBook D)
      → usable D o ≡ some b
      → o ≡ some b
  attached_usable mine none b h = cc
  attached_usable mine (some c) b h = ground arith

  fed : BookSet D → BookDelta D → Timestamp → Entry D × Outcome
  fed s d now =
      let e = or_fresh D (get s.entries (key d.symbol)) d.symbol in
      feed D e e.book d now s.cooldown_ms

  book-on_delta :
      (s : BookSet D) (d : BookDelta D) (now : Timestamp)
      → book D (on_delta D s d now).0 (key d.symbol) ≡ usable D (fed s d now).0.book
  unfolding book on_delta fed
  book-on_delta s d now = rw (get-put_self s.entries (key d.symbol) (fed s d now).0)

  book_or_fresh :
      (o : Option (Entry D)) (sym : Symbol) → usable D (or_fresh D o sym).book ≡ entry_book D o
  unfolding fresh_entry
  book_or_fresh none sym = refl
  book_or_fresh (some e) sym = refl

  consume-usable :
      (mine : Option (OrderBook D)) (x : Entry D × Outcome) (d : BookDelta D) (b : OrderBook D)
      → AgreesOn (consume mine x.0 d x.1) x.0.book
      → usable D x.0.book ≡ some b
      → (if x.1.attached
          then usable D x.0.book
          else if x.1.forward
          then applied_to mine d
          else mine)
        ≡ some b
  consume-usable mine x d b a h = elim (Bool-cases x.1.attached) [
    | inl t ↦ rw t h
    | inr f ↦ rw f (rw f at (of_AgreesOn (consume mine x.0 d x.1) x.0.book a b h))
  ]

  outcome-on_delta :
      (s : BookSet D) (d : BookDelta D) (now : Timestamp) → (on_delta D s d now).1 ≡ (fed s d now).1
  unfolding on_delta fed
  outcome-on_delta s d now = refl

  follow-fed :
      (mine : Option (OrderBook D)) (s : BookSet D) (d : BookDelta D) (now : Timestamp)
      (b : OrderBook D)
      → (if (fed s d now).1.attached
          then usable D (fed s d now).0.book
          else if (fed s d now).1.forward
          then applied_to mine d
          else mine)
        ≡ some b
      → follow mine d (on_delta D s d now) ≡ some b
  follow-fed mine s d now b h = rw (outcome-on_delta s d now, book-on_delta s d now) h

  pub on_delta-mirrored :
      (mine : Option (OrderBook D)) (s : BookSet D) (d : BookDelta D) (now : Timestamp)
      → ((b : OrderBook D) → book D s (key d.symbol) ≡ some b → mine ≡ some b)
      → (b : OrderBook D) → book D (on_delta D s d now).0 (key d.symbol) ≡ some b
      → follow mine d (on_delta D s d now) ≡ some b
  on_delta-mirrored mine s d now a b h =
      let e : Entry D = or_fresh D (get s.entries (key d.symbol)) d.symbol in
      let before : AgreesOn mine e.book = to_AgreesOn mine e.book (λ c k.
        a c (unfold book in (sym (book_or_fresh (get s.entries (key d.symbol)) d.symbol) ∙ k))) in
      let at_entry : usable D (fed s d now).0.book ≡ some b = sym (book-on_delta s d now) ∙ h in
      unfold fed in
      follow-fed mine s d now b (
        consume-usable mine (fed s d now) d b (feed-mirrored mine e d now s.cooldown_ms before)
          at_entry)
