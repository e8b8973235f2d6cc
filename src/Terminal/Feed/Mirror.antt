-- ===== src/Terminal/Feed/Mirror.antt =====
-- The core's loop (crates/core/src/server.rs) against the terminal's feed (crates/terminal/src/feed.rs):
-- what a terminal that joins late shows.
use mooncat.Prelude.{
  ℕ, ◌≡◌, inr, sym, ap, ◌∙◌, true, false, not, refl, List, [], ◌++◌, if◌then◌else◌, some, String,
  ◌∷◌,
}
use mooncat.Prelude.Int.{ℤ}
use mooncat.Prelude.Assoc.{get, string_eq}
use mooncat.Domain.Decimals.{Decimals}
use mooncat.Domain.Ids.{key}
use mooncat.Domain.Time.{Timestamp}
use mooncat.Domain.Book.{OrderBook}
use mooncat.Domain.Event.{Event}
use mooncat.Wire.Subscription.{Subscription, symbol_of, contains, insert_all}
use mooncat.Wire.Subscription.Inert.{contains_wanted, contains-insert_all}
use mooncat.Wire.Message.{ErrorCode, ServerMsg, subscribe, pong, not_authenticated}
use mooncat.Wire.Session.{Auth, Session, handle, fail}
use mooncat.Core.State.{MarketState, new_state}
use mooncat.Core.State.Books.{touch}
use mooncat.Core.State.Keyed.{Keyed, fed, fed-append, Keyed-fed, new-Keyed}
use mooncat.Core.State.Overlap.{after_all, after_all-append, after_all_again}
use mooncat.Core.Server.{handover, answer, step, message, Served}
use mooncat.Core.Server.Handover.{touches, Watches}
use mooncat.Terminal.Feed.{FeedState, on_message}
use mooncat.Terminal.Feed.Received.{receive, stream, receive-append, get-stream, get-fed}
use mooncat.Terminal.Feed.Handed.{get-handover}

module _ (D : Decimals) (lag_text : ℕ → String) (describe : ErrorCode → String)
    (subs : List Subscription) (now : ℤ) (auth : Auth) (t : Timestamp) where
  -- What a session sends on a subscribe request, and for the events that follow.
  abbrev pub subscribed :
      MarketState D → Session → List Subscription → List (Event D) → List (ServerMsg D)
  subscribed core s requested events =
      let served = step D lag_text auth core s (message (subscribe requested)) t in
      served.sent ++ stream D lag_text describe subs now auth core served.session t events

  touches-append :
      (k : String) (es fs : List (Event D))
      → touches D k (es ++ fs) ≡ touches D k es ++ touches D k fs
  touches-append k [] fs = refl
  touches-append k (e ∷ es) fs = ap (λ us. touch D k e.payload ∷ us) (touches-append k es fs)

  -- What a session that is let in holds after a subscribe request, and is sent.
  served-subscribe :
      (core : MarketState D) (s : Session) (requested : List Subscription)
      → s.authenticated ≡ true
      → step D lag_text auth core s (message (subscribe requested)) t ≡ record {
        session = record s { subscriptions = insert_all s.subscriptions requested };
        sent = pong 0 ∷ handover D lag_text core (insert_all s.subscriptions requested) t;
        closed = false;
      }
  unfolding step handle
  served-subscribe core s requested e =
      ap
        (λ a.
          answer D lag_text core
            (if not a then (s, fail D not_authenticated) else (
              record s { subscriptions = insert_all s.subscriptions requested },
              record { reply = pong 0; close = false },
            ))
            t)
        e

  module _ (core : MarketState D) (k : String) (b : OrderBook D) (keyed : Keyed D core)
      (held : get core.books k ≡ some b) (live : b.synced ≡ true) where
    -- After the handover, the terminal follows the specification from the core's book on.
    get-subscribed :
        (s : Session) (requested : List Subscription) (es : List (Event D)) (st : FeedState D)
        → s.authenticated ≡ true
        → Watches D (insert_all s.subscriptions requested) k
        → get (receive D lag_text describe subs now st (subscribed core s requested es)).books k
          ≡ after_all D (some b) (touches D k es)
    unfolding receive on_message
    get-subscribed s requested es st e w =
        let joined = insert_all s.subscriptions requested in
        let s' = record s { subscriptions = joined } in
        let handed = handover D lag_text core joined t in
        let later = stream D lag_text describe subs now auth core s' t es in
        ap
          (λ (v : Served D).
            get
              (receive D lag_text describe subs now st
                (v.sent ++ stream D lag_text describe subs now auth core v.session t es)).books
              k)
          (served-subscribe core s requested e)
        ∙ ap (λ (y : FeedState D). get y.books k)
            (receive-append D lag_text describe subs now st handed later)
        ∙ get-stream D lag_text describe subs now auth core s' t k es
            (receive D lag_text describe subs now st handed) w
        ∙ ap (λ o. after_all D o (touches D k es))
            (get-handover D lag_text describe subs now core t k b keyed held live joined st w)

  -- A terminal subscribes to an instrument whose book the core holds live, while events that are
  -- already in the core's books wait in its queue. After the handover, the queue and any further
  -- events it shows for the instrument exactly the book that the core then holds, or none if the core
  -- holds none.
  pub late_join :
      (earlier queue rest : List (Event D)) (s : Session) (requested : List Subscription)
      (x : Subscription) (b : OrderBook D) (st : FeedState D)
      → s.authenticated ≡ true
      → contains requested x ≡ true
      → get (fed D (new_state D) (earlier ++ queue)).books (key (symbol_of x)) ≡ some b
      → b.synced ≡ true
      → get
          (receive D lag_text describe subs now st
            (subscribed (fed D (new_state D) (earlier ++ queue)) s requested (queue ++ rest))).books
          (key (symbol_of x))
        ≡ get (fed D (new_state D) ((earlier ++ queue) ++ rest)).books (key (symbol_of x))
  late_join earlier queue rest s requested x b st let_in wanted held live =
      let k = key (symbol_of x) in
      let before = fed D (new_state D) earlier in
      let core = fed D (new_state D) (earlier ++ queue) in
      let watched : Watches D (insert_all s.subscriptions requested) k =
        contains_wanted (insert_all s.subscriptions requested) x
          (contains-insert_all s.subscriptions requested x (inr wanted)) in
      let led : after_all D (get before.books k) (touches D k queue) ≡ some b =
        sym (get-fed D lag_text describe subs now before k queue)
        ∙ ap (λ (m : MarketState D). get m.books k) (sym (fed-append D (new_state D) earlier queue))
        ∙ held in
      get-subscribed core k b (Keyed-fed D (new_state D) (earlier ++ queue) (new-Keyed D)) held live
        s requested (queue ++ rest) st let_in watched
      ∙ ap (after_all D (some b)) (touches-append k queue rest)
      ∙ after_all-append D (some b) (touches D k queue) (touches D k rest)
      ∙ ap (λ o. after_all D o (touches D k rest))
          (after_all_again D (touches D k queue) (get before.books k) b led ∙ sym held)
      ∙ sym (get-fed D lag_text describe subs now core k rest)
      ∙ ap (λ (m : MarketState D). get m.books k)
          (sym (fed-append D (new_state D) (earlier ++ queue) rest))
