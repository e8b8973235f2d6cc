-- ===== src/Core/Server/Handover.antt =====
-- What the loop of crates/core/src/server.rs sends a terminal, and what it does to the terminal's books.
use mooncat.Prelude.{
  ◌≡◌, refl, sym, ap, ◌∙◌, Bool, true, false, not, ◌||◌, List, Option, none, some, inl, inr, String,
  any_of, map, Bool-cases, if◌then◌else◌,
}
use mooncat.Prelude.Assoc.{string_eq}
use mooncat.Domain.Decimals.{Decimals}
use mooncat.Domain.Ids.{Symbol, key}
use mooncat.Domain.Book.{OrderBook}
use mooncat.Domain.Event.{
  Event, Payload, market, account, connection, trade, book_snapshot, book_delta, candle,
  instruments, is_private, payload_is_private,
}
use mooncat.Wire.Subscription.{Subscription, symbol_of}
use mooncat.Wire.Session.{Session, wants, may_receive, asked_for, watches}
use mooncat.Core.State.Books.{Touch, other, on_key, snap_touch, touch, snap, update}

module _ (D : Decimals) where
  abbrev pub touches : String → List (Event D) → List (Touch D)
  touches k es = map (λ (e : Event D). touch D k e.payload) es

  -- A session with a subscription for the instrument of a key.
  abbrev pub Watches : List Subscription → String → Type 0
  Watches subs k = any_of (λ t. string_eq.beq (key (symbol_of t)) k) subs ≡ true

  unasked :
      (subs : List Subscription) (k : String) (s : Symbol) (t : Touch D)
      → Watches subs k
      → watches D subs (some s) ≡ false
      → on_key D (string_eq.beq (key s) k) t ≡ other
  unasked subs k s t w h = elim (Bool-cases (string_eq.beq (key s) k)) [
    | inl e ↦ absurd (clash ((string_eq.beq_iff (key s) k).0 e))
    | inr e ↦ rw e refl
  ]
    where
      clash : key s ≡ k → ⊥
      clash p =
          let wrong : true ≡ false =
            sym w ∙ ap (λ j. any_of (λ t. string_eq.beq (key (symbol_of t)) j) subs) (sym p) ∙ h in
          absurd (cc)

  unasked_snap :
      (subs : List Subscription) (k : String) (b : OrderBook D) (s : Option Symbol)
      → Watches subs k
      → watches D subs s ≡ false
      → snap_touch D k b s ≡ other
  unasked_snap subs k b none w h = refl
  unasked_snap subs k b (some s) w h = unasked subs k s (snap b) w h

  unasked_market :
      (subs : List Subscription) (k : String) (p : Payload D)
      → Watches subs k
      → asked_for D subs p ≡ false
      → touch D k p ≡ other
  unasked_market subs k (market (book_snapshot b)) w h = unasked_snap subs k b b.symbol w h
  unasked_market subs k (market (book_delta d)) w h = unasked subs k d.symbol (update d) w h
  unasked_market subs k (market (trade t)) w h = refl
  unasked_market subs k (market (candle c)) w h = refl
  unasked_market subs k (market (instruments s is)) w h = refl
  unasked_market subs k (account x) w h = refl
  unasked_market subs k (connection x) w h = refl

  unsent :
      (b : Bool) (subs : List Subscription) (k : String) (p : Payload D)
      → Watches subs k
      → (if not (b || not (payload_is_private D p)) then false else asked_for D subs p) ≡ false
      → touch D k p ≡ other
  unsent true subs k p w h = unasked_market subs k p w h
  unsent false subs k (market x) w h = unasked_market subs k (market x) w h
  unsent false subs k (account x) w h = refl
  unsent false subs k (connection x) w h = refl

  -- What a session that watches an instrument is not sent is nothing to its book.
  pub unwanted :
      (s : Session) (k : String) (e : Event D)
      → Watches s.subscriptions k
      → wants D s e ≡ false
      → touch D k e.payload ≡ other
  unfolding wants may_receive is_private
  unwanted s k e w h = unsent s.authenticated s.subscriptions k e.payload w h
