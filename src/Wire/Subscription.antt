-- ===== src/Wire/Subscription.antt =====
-- crates/wire/src/subscription.rs, with Subscription of crates/exchange/src/lib.rs: what a session asked
-- for, and what it therefore receives. A set is a list without repeats. `is_tradable` is a parameter,
-- as the code takes it; `none` is its `Ok`. An event is seen by the instrument that it is about, if it
-- is a market event about one.
pub mod Gated
pub mod Inert
use mooncat.Prelude.{
  ℕ, ◌≡◌, ◌↔◌, refl, sym, ap, Bool, true, false, not, ◌&&◌, ◌||◌, List, [], ◌∷◌, ◌++◌, Option, none,
  some, String, map, keep_if, any_of, if◌then◌else◌, arith,
}
use mooncat.Prelude.Int.{ℤ, eqb_ℤ}
use mooncat.Prelude.Assoc.{get, put, string_eq}
use mooncat.Domain.Ids.{Symbol, key}
use mooncat.Domain.Registry.{SymbolRegistry, intern}

pub data Subscription : Type 0 where
  trades book : Symbol → Subscription
  candles : Symbol → ℤ → Subscription

unfoldable pub symbol_of : Subscription → Symbol
symbol_of (trades s) = s
symbol_of (book s) = s
symbol_of (candles s interval_ms) = s

-- Equality of instruments, by their keys, which are one to one.
abbrev pub same_symbol : Symbol → Symbol → Bool
same_symbol s t = string_eq.beq (key s) (key t)

-- The derived equality.
unfoldable pub same : Subscription → Subscription → Bool
same (trades s) (trades t) = same_symbol s t
same (book s) (book t) = same_symbol s t
same (candles s i) (candles t j) = same_symbol s t && eqb_ℤ i j
same _ _ = false

abbrev pub contains : List Subscription → Subscription → Bool
contains subs s = any_of (λ t. same t s) subs

-- `HashSet::insert` and `HashSet::remove`.
abbrev pub insert : List Subscription → Subscription → List Subscription
insert subs s = if contains subs s then subs else subs ++ s ∷ []

abbrev pub without : List Subscription → Subscription → List Subscription
without subs s = keep_if (λ t. not (same t s)) subs

pub record Assigned : Type 0 where
  pub assigned : List (Symbol × ℕ)
  pub rejected : List (Symbol × String)
  pub dropped : List Symbol

pub record Subscriptions : Type 0 where
  pub active : List Subscription
  pub pending : List Subscription
  pub ids : List (String × ℕ)

unfoldable pub new : Subscriptions
new = record { active = []; pending = []; ids = [] }

-- The state that the loop of `subscribe` carries.
pub record Progress : Type 0 where
  pub subs : Subscriptions
  pub registry : SymbolRegistry
  pub assigned : List (Symbol × ℕ)
  pub rejected : List (Symbol × String)

abbrev pub take_on : Progress → Subscription → SymbolRegistry × ℕ → Progress
take_on p sub (registry, id) = record {
  subs = record p.subs {
    ids = put p.subs.ids (key (symbol_of sub)) id;
    pending = if contains p.subs.active sub then p.subs.pending else insert p.subs.pending sub;
  };
  registry = registry;
  assigned = p.assigned ++ (symbol_of sub, id) ∷ [];
  rejected = p.rejected;
}

abbrev pub consider_as : Progress → Subscription → Option String → Progress
consider_as p sub (some why) = record p { rejected = p.rejected ++ (symbol_of sub, why) ∷ [] }
consider_as p sub none = take_on p sub (intern p.registry (symbol_of sub))

-- With `replace`, only what is requested again is kept.
unfoldable pub replaced : Subscriptions → List Subscription → Subscriptions × List Symbol
replaced s requested = (
  record s {
    active = keep_if (contains requested) s.active;
    pending = keep_if (contains requested) s.pending;
  },
  map symbol_of (keep_if (λ g. not (contains requested g)) s.active),
)

module _ (is_tradable : Symbol → Option String) where
  unfoldable pub consider : Progress → Subscription → Progress
  consider p sub = consider_as p sub (is_tradable (symbol_of sub))

  unfoldable pub consider_all : Progress → List Subscription → Progress
  consider_all p [] = p
  consider_all p (sub ∷ subs) = consider_all (consider p sub) subs

  abbrev pub start : Subscriptions → List Subscription → Bool → Subscriptions × List Symbol
  start s requested true = replaced s requested
  start s requested false = (s, [])

  -- Take a subscribe request, assigning ids but not yet delivering anything.
  unfoldable pub subscribe :
      Subscriptions
      → List Subscription
      → Bool
      → SymbolRegistry
      → Subscriptions × SymbolRegistry × Assigned
  subscribe s requested replace registry =
      let (s', dropped) = start s requested replace in
      let p =
        consider_all (record { subs = s'; registry = registry; assigned = []; rejected = [] })
          requested in
      (
        p.subs,
        p.registry,
        record { assigned = p.assigned; rejected = p.rejected; dropped = dropped },
      )

abbrev pub insert_all : List Subscription → List Subscription → List Subscription
insert_all active [] = active
insert_all active (s ∷ ss) = insert_all (insert active s) ss

-- Mark everything pending as announced.
unfoldable pub activate : Subscriptions → Subscriptions
activate s = record s { active = insert_all s.active s.pending; pending = [] }

-- `active.remove(sub) || pending.remove(sub)`: pending is left alone if active had it.
unfoldable pub drop_one : Subscriptions → Subscription → Subscriptions × Bool
drop_one s sub =
    if contains s.active sub
    then (record s { active = without s.active sub }, true)
    else (record s { pending = without s.pending sub }, contains s.pending sub)

abbrev pub note_removed : Bool → Symbol → List Symbol → List Symbol
note_removed true s ss = s ∷ ss
note_removed false s ss = ss

unfoldable pub unsubscribe : Subscriptions → List Subscription → Subscriptions × List Symbol
unsubscribe s [] = (s, [])
unsubscribe s (sub ∷ subs) =
    let (s', had) = drop_one s sub in
    let (s'', removed) = unsubscribe s' subs in (s'', note_removed had (symbol_of sub) removed)

unfoldable pub id_of : Subscriptions → Symbol → Option ℕ
id_of s symbol = get s.ids (key symbol)

-- Whether this session is sent an event about an instrument, or about none.
unfoldable pub wants : Subscriptions → Option Symbol → Bool
wants s none = true
wants s (some symbol) = any_of (λ t. same_symbol (symbol_of t) symbol) s.active
