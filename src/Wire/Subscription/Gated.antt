-- ===== src/Wire/Subscription/Gated.antt =====
-- The gate of crates/wire/src/subscription.rs: nothing is delivered that may not be subscribed to.
use mooncat.Prelude.{◌≡◌, Bool, List, [], ◌∷◌, Option, none, String, All}
use mooncat.Domain.Ids.{Symbol}
use mooncat.Domain.Registry.{SymbolRegistry}
use mooncat.Wire.Subscription.{
  Subscription, Subscriptions, symbol_of, subscribe, activate, unsubscribe,
}

-- What a session does with its subscriptions.
pub data Request : Type 0 where
  ask : (requested : List Subscription) (replace : Bool) (registry : SymbolRegistry) → Request
  announce : Request
  leave : List Subscription → Request

module _ (is_tradable : Symbol → Option String) where
  abbrev pub answered : Subscriptions → Request → Subscriptions
  answered s (ask requested replace registry) =
      (subscribe is_tradable s requested replace registry).0
  answered s announce = activate s
  answered s (leave subs) = (unsubscribe s subs).0

  abbrev pub answered_all : Subscriptions → List Request → Subscriptions
  answered_all s [] = s
  answered_all s (r ∷ rs) = answered_all (answered s r) rs

  abbrev Passed : Subscription → Type 0
  Passed sub = is_tradable (symbol_of sub) ≡ none

  record Gated (s : Subscriptions) : Type 0 where
    active : All Passed s.active
    pending : All Passed s.pending
