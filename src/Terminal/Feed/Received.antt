-- ===== src/Terminal/Feed/Received.antt =====
-- What a terminal (crates/terminal/src/feed.rs) makes of the messages that the core's loop
-- (crates/core/src/server.rs) sends it, and what the core's read-model makes of the same events.
use mooncat.Prelude.{ℕ, ◌≡◌, refl, ap, ◌∙◌, List, [], ◌∷◌, ◌++◌, inl, inr, String, Bool-cases}
use mooncat.Prelude.Int.{ℤ}
use mooncat.Prelude.Assoc.{get, string_eq}
use mooncat.Domain.Decimals.{Decimals}
use mooncat.Domain.Time.{Timestamp}
use mooncat.Domain.Event.{Event}
use mooncat.Wire.Subscription.{Subscription}
use mooncat.Wire.Message.{ErrorCode, ServerMsg, event}
use mooncat.Wire.Session.{Auth, Session, wants}
use mooncat.Core.State.{MarketState, apply as fold_in}
use mooncat.Core.State.Books.{touch, after, get-apply as get-fold_in}
use mooncat.Core.State.Keyed.{fed}
use mooncat.Core.State.Overlap.{after_all}
use mooncat.Core.Server.{step, fanned}
use mooncat.Core.Server.Handover.{touches, Watches, unwanted}
use mooncat.Terminal.Feed.{FeedState, on_message}
use mooncat.Terminal.Feed.Books.{get-apply}

module _ (D : Decimals) (lag_text : ℕ → String) (describe : ErrorCode → String)
    (subs : List Subscription) (now : ℤ) where
  -- The terminal after some messages of the core.
  unfoldable pub receive : FeedState D → List (ServerMsg D) → FeedState D
  receive st [] = st
  receive st (m ∷ ms) = receive (on_message D describe st now subs m).0 ms

  pub receive-append :
      (st : FeedState D) (ms ns : List (ServerMsg D))
      → receive st (ms ++ ns) ≡ receive (receive st ms) ns
  unfolding receive
  receive-append st [] ns = refl
  receive-append st (m ∷ ms) ns = receive-append (on_message D describe st now subs m).0 ms ns

  -- What the loop sends for events that come over the fan-out.
  unfoldable pub stream :
      Auth → MarketState D → Session → Timestamp → List (Event D) → List (ServerMsg D)
  stream auth state s t [] = []
  stream auth state s t (e ∷ es) =
      (step D lag_text auth state s (fanned e) t).sent ++ stream auth state s t es

  pub get-event :
      (st : FeedState D) (e : Event D) (k : String)
      → get (on_message D describe st now subs (event e)).0.books k
        ≡ after D (get st.books k) (touch D k e.payload)
  unfolding on_message
  get-event st e k = get-apply D st now e k

  get-sent :
      (auth : Auth) (state : MarketState D) (s : Session) (t : Timestamp) (k : String) (e : Event D)
      (st : FeedState D)
      → Watches D s.subscriptions k
      → get (receive st (step D lag_text auth state s (fanned e) t).sent).books k
        ≡ after D (get st.books k) (touch D k e.payload)
  unfolding step receive
  get-sent auth state s t k e st w = elim (Bool-cases (wants D s e)) [
    | inl sent ↦ rw sent (get-event st e k)
    | inr unsent ↦ rw (unsent, unwanted D s k e w unsent) refl
  ]

  -- To a watched instrument the stream is what the events are to the core.
  pub get-stream :
      (auth : Auth) (state : MarketState D) (s : Session) (t : Timestamp) (k : String)
      (es : List (Event D)) (st : FeedState D)
      → Watches D s.subscriptions k
      → get (receive st (stream auth state s t es)).books k
        ≡ after_all D (get st.books k) (touches D k es)
  unfolding stream
  get-stream auth state s t k [] st w = unfold receive in refl
  get-stream auth state s t k (e ∷ es) st w =
      let sent = (step D lag_text auth state s (fanned e) t).sent in
      ap (λ (x : FeedState D). get x.books k) (receive-append st sent (stream auth state s t es))
      ∙ get-stream auth state s t k es (receive st sent) w
      ∙ ap (λ o. after_all D o (touches D k es)) (get-sent auth state s t k e st w)

  pub get-fed :
      (s : MarketState D) (k : String) (es : List (Event D))
      → get (fed D s es).books k ≡ after_all D (get s.books k) (touches D k es)
  unfolding fed
  get-fed s k [] = refl
  get-fed s k (e ∷ es) =
      get-fed (fold_in D s e) k es ∙ ap (λ o. after_all D o (touches D k es)) (get-fold_in D s e k)
