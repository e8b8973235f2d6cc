-- ===== src/Wire/Subscription/Inert.antt =====
-- The ordering rule of crates/wire/src/subscription.rs: no frame before its id is announced.
use mooncat.Prelude.{
  ◌≡◌, ◌⊎◌, refl, sym, ap, ◌∙◌, Bool, true, false, ◌&&◌, ◌||◌, List, [], ◌∷◌, ◌++◌, Option, none,
  some, String, keep_if, any_of, if◌then◌else◌, arith, All, Bool-cases, Option-cases, subst, inl,
  inr,
}
use mooncat.Domain.Ids.{Symbol, key, key-injective}
use mooncat.Prelude.Int.{ℤ, pos, negsuc, eqb_ℤ}
use mooncat.Prelude.Assoc.{beq_self, string_eq}
use mooncat.Domain.Registry.{SymbolRegistry}
use mooncat.Wire.Subscription.{
  Subscription, trades, book, candles, Subscriptions, symbol_of, same_symbol, same, contains,
  insert, insert_all, Progress, consider, consider_all, replaced, start, subscribe, activate, wants,
}

module _ (is_tradable : Symbol → Option String) where
  consider-active :
      (p : Progress) (sub : Subscription) → (consider is_tradable p sub).subs.active ≡ p.subs.active
  unfolding consider
  consider-active p sub = elim (Option-cases (is_tradable (symbol_of sub))) [
    | inl e ↦ rw e refl
    | inr (why, e) ↦ rw e refl
  ]

  consider_all-active :
      (p : Progress) (subs : List Subscription)
      → (consider_all is_tradable p subs).subs.active ≡ p.subs.active
  unfolding consider_all
  consider_all-active p [] = refl
  consider_all-active p (sub ∷ subs) =
      consider_all-active (consider is_tradable p sub) subs ∙ consider-active p sub

  keeps_wanting :
      (f g : Subscription → Bool) (subs : List Subscription)
      → any_of f (keep_if g subs) ≡ true
      → any_of f subs ≡ true
  keeps_wanting f g [] h = h
  keeps_wanting f g (s ∷ ss) h = ground (arith, h, keeps_wanting f g ss)

  -- Whatever is subscribed to, no event passes that did not pass before: a subscription is inert until
  -- it is activated.
  pub wants-subscribe :
      (s : Subscriptions) (requested : List Subscription) (replace : Bool)
      (registry : SymbolRegistry) (event : Option Symbol)
      → wants (subscribe is_tradable s requested replace registry).0 event ≡ true
      → wants s event ≡ true
  unfolding wants subscribe
  wants-subscribe s requested replace registry none h = refl
  wants-subscribe s requested true registry (some symbol) h =
      keeps_wanting _ (contains requested) s.active (
        sym (
          ap (any_of (λ t. same_symbol (symbol_of t) symbol)) (
            consider_all-active
              (record {
                subs = (replaced s requested).0;
                registry = registry;
                assigned = [];
                rejected = [];
              })
              requested
            ∙ (unfold replaced in refl)))
        ∙ h)
  wants-subscribe s requested false registry (some symbol) h =
      sym (
        ap (any_of (λ t. same_symbol (symbol_of t) symbol)) (
          consider_all-active
            (record { subs = s; registry = registry; assigned = []; rejected = [] }) requested))
      ∙ h

same_self : (s : Subscription) → same s s ≡ true
unfolding same
same_self (trades s) = beq_self (key s)
same_self (book s) = beq_self (key s)
same_self (candles s i) = rw (beq_self (key s)) (eqb_self i)
  where
    eqb_self : (i : ℤ) → eqb_ℤ i i ≡ true
    eqb_self i = ground arith

eqb_ℤ-eq : (i j : ℤ) → eqb_ℤ i j ≡ true → i ≡ j
eqb_ℤ-eq (pos m) (pos n) h = ap pos (ground (arith, h))
eqb_ℤ-eq (pos m) (negsuc n) h = absurd (ground (arith, h))
eqb_ℤ-eq (negsuc m) (pos n) h = absurd (ground (arith, h))
eqb_ℤ-eq (negsuc m) (negsuc n) h = ap negsuc (ground (arith, h))

same_symbol-eq : (s t : Symbol) → same_symbol s t ≡ true → s ≡ t
same_symbol-eq s t h = key-injective s t ((string_eq.beq_iff (key s) (key t)).0 h)

both : (a b : Bool) → (a && b) ≡ true → (a ≡ true) × (b ≡ true)
both true b h = (refl, h)
both false b h = absurd (ground (arith, h))

same-eq : (t s : Subscription) → same t s ≡ true → t ≡ s
unfolding same
same-eq (trades t) (trades s) h = ap trades (same_symbol-eq t s h)
same-eq (trades t) (book s) h = absurd (ground (arith, h))
same-eq (trades t) (candles s i) h = absurd (ground (arith, h))
same-eq (book t) (trades s) h = absurd (ground (arith, h))
same-eq (book t) (book s) h = ap book (same_symbol-eq t s h)
same-eq (book t) (candles s i) h = absurd (ground (arith, h))
same-eq (candles t j) (trades s) h = absurd (ground (arith, h))
same-eq (candles t j) (book s) h = absurd (ground (arith, h))
same-eq (candles t j) (candles s i) h =
    let (k, l) = both _ _ h in
    ap (λ u. candles u j) (same_symbol-eq t s k) ∙ ap (candles s) (eqb_ℤ-eq j i l)

-- The same subscription is about the same instrument.
same-symbol_of :
    (t s : Subscription) → same t s ≡ true → same_symbol (symbol_of t) (symbol_of s) ≡ true
same-symbol_of t s h =
    ap (λ u. same_symbol (symbol_of u) (symbol_of s)) (same-eq t s h) ∙ beq_self (key (symbol_of s))

pub contains_wanted :
    (subs : List Subscription) (s : Subscription)
    → contains subs s ≡ true
    → any_of (λ t. same_symbol (symbol_of t) (symbol_of s)) subs ≡ true
contains_wanted [] s h = h
contains_wanted (t ∷ ts) s h = elim (Bool-cases (same t s)) [
  | inl e ↦ rw (same-symbol_of t s e) refl
  | inr e ↦
      or_right (same_symbol (symbol_of t) (symbol_of s))
        (contains_wanted ts s (sym (ap (λ b. b || contains ts s) e) ∙ h))
]
  where
    or_right : (a : Bool) {b : Bool} → b ≡ true → (a || b) ≡ true
    or_right true h = refl
    or_right false h = h

contains-append :
    (subs : List Subscription) (s x : Subscription)
    → contains (subs ++ s ∷ []) x ≡ (contains subs x || same s x)
contains-append [] s x = ground arith
contains-append (t ∷ ts) s x = ground (arith, contains-append ts s x)

contains-insert_self :
    (subs : List Subscription) (s : Subscription) → contains (insert subs s) s ≡ true
contains-insert_self subs s = elim (Bool-cases (contains subs s)) [
  | inl e ↦ rw e e
  | inr e ↦ rw (e, contains-append subs s s, e, same_self s) refl
]

contains-insert :
    (subs : List Subscription) (s x : Subscription)
    → contains subs x ≡ true
    → contains (insert subs s) x ≡ true
contains-insert subs s x h = elim (Bool-cases (contains subs s)) [
  | inl e ↦ rw e h
  | inr e ↦ rw (e, contains-append subs s x, h) refl
]

pub contains-insert_all :
    (active pending : List Subscription) (x : Subscription)
    → (contains active x ≡ true) ⊎ (contains pending x ≡ true)
    → contains (insert_all active pending) x ≡ true
contains-insert_all active [] x (inl h) = h
contains-insert_all active [] x (inr h) = absurd (ground (arith, h))
contains-insert_all active (s ∷ ss) x (inl h) =
    contains-insert_all (insert active s) ss x (inl (contains-insert active s x h))
contains-insert_all active (s ∷ ss) x (inr h) = elim (Bool-cases (same s x)) [
  | inl e ↦ contains-insert_all (insert active s) ss x (
      inl (
        subst (λ y. contains (insert active s) y ≡ true) (same-eq s x e)
          (contains-insert_self active s)))
  | inr e ↦
      contains-insert_all (insert active s) ss x (inr (sym (ap (λ b. b || contains ss x) e) ∙ h))
]

-- Active, or waiting to be announced.
abbrev Held : Progress → Subscription → Type 0
Held p x = (contains p.subs.active x ≡ true) ⊎ (contains p.subs.pending x ≡ true)

module _ (is_tradable : Symbol → Option String) where
  consider-Held :
      (p : Progress) (sub x : Subscription) → Held p x → Held (consider is_tradable p sub) x
  unfolding consider
  consider-Held p sub x h = elim (Option-cases (is_tradable (symbol_of sub))) [
    | inr (why, e) ↦ rw e h
    | inl e ↦ rw e (still_held (contains p.subs.active sub) h)
  ]
    where
      still_held :
          (b : Bool)
          → Held p x
          → (contains p.subs.active x ≡ true)
            ⊎ (contains (if b then p.subs.pending else insert p.subs.pending sub) x ≡ true)
      still_held b (inl h) = inl h
      still_held true (inr h) = inr h
      still_held false (inr h) = inr (contains-insert p.subs.pending sub x h)

  consider-Held_self :
      (p : Progress) (sub : Subscription)
      → is_tradable (symbol_of sub) ≡ none
      → Held (consider is_tradable p sub) sub
  unfolding consider
  consider-Held_self p sub e = elim (Bool-cases (contains p.subs.active sub)) [
    | inl a ↦ rw e (inl a)
    | inr a ↦ rw (e, a) (inr (contains-insert_self p.subs.pending sub))
  ]

  consider_all-Held :
      (p : Progress) (subs : List Subscription) (x : Subscription)
      → Held p x
      → Held (consider_all is_tradable p subs) x
  unfolding consider_all
  consider_all-Held p [] x h = h
  consider_all-Held p (sub ∷ subs) x h =
      consider_all-Held (consider is_tradable p sub) subs x (consider-Held p sub x h)

  -- What is held is wanted once it is activated.
  Held-wanted :
      (p : Progress) (x : Subscription)
      → Held p x
      → wants (activate p.subs) (some (symbol_of x)) ≡ true
  unfolding wants activate
  Held-wanted p x h =
      contains_wanted (insert_all p.subs.active p.subs.pending) x (contains-insert_all _ _ x h)

  consider_all-wanted :
      (p : Progress) (subs : List Subscription)
      → All
          (λ x.
            is_tradable (symbol_of x) ≡ none
            → wants (activate (consider_all is_tradable p subs).subs) (some (symbol_of x)) ≡ true)
          subs
  unfolding consider_all
  consider_all-wanted p [] = tt
  consider_all-wanted p (sub ∷ subs) = (
    λ e.
        Held-wanted (consider_all is_tradable (consider is_tradable p sub) subs) sub
          (consider_all-Held (consider is_tradable p sub) subs sub (consider-Held_self p sub e)),
    consider_all-wanted (consider is_tradable p sub) subs,
  )

  -- Once a subscribe request is announced, the events of every requested instrument that is tradable
  -- pass, whether the request replaced the old set or added to it, and whatever else it asked for.
  pub wants-activate :
      (s : Subscriptions) (requested : List Subscription) (replace : Bool)
      (registry : SymbolRegistry)
      → All
          (λ x.
            is_tradable (symbol_of x) ≡ none
            → wants
                (activate (subscribe is_tradable s requested replace registry).0)
                (some (symbol_of x))
              ≡ true)
          requested
  unfolding subscribe
  wants-activate s requested replace registry =
      consider_all-wanted
        (record {
          subs = (start is_tradable s requested replace).0;
          registry = registry;
          assigned = [];
          rejected = [];
        })
        requested
