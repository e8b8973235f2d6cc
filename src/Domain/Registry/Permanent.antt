-- ===== src/Domain/Registry/Permanent.antt =====
-- What an id of crates/domain/src/registry.rs stands for, now and later.
use mooncat.Prelude.{
  ◌↔◌, ==_iff, subst, All, ℕ, zero, suc, ◌+◌, ◌%◌, ◌≤◌, ◌<◌, ◌≡◌, refl, sym, ap, ◌∙◌, List, [], ◌∷◌,
  ◌++◌, Option, none, some, arith, String, ◌==◌, length, get_elem?, u32_mod, Bool-cases,
  Option-cases, inl, inr, length-append,
}
use mooncat.Prelude.Assoc.{get, put, get-put, string_eq}
use mooncat.Domain.Ids.{Symbol, key, key-injective}
use mooncat.Domain.Registry.{SymbolRegistry, found, foreign_epoch, intern, resolve, known_or}

-- Each key maps to the index of a symbol with that key.
abbrev Indexed : SymbolRegistry → String → Option ℕ → Type 0
Indexed r k none = Unit
Indexed r k (some id) = (s : Symbol) × (get_elem? r.symbols id ≡ some s) × (key s ≡ k)

pub record Inv (r : SymbolRegistry) : Type 0 where
  pub indexed : (k : String) → Indexed r k (get r.by_key k)

get_elem?-append :
    (xs ys : List Symbol) (i : ℕ) (s : Symbol)
    → get_elem? xs i ≡ some s
    → get_elem? (xs ++ ys) i ≡ some s
get_elem?-append [] ys i s h = absurd (ground (arith, h))
get_elem?-append (x ∷ xs) ys zero s h = h
get_elem?-append (x ∷ xs) ys (suc i) s h = get_elem?-append xs ys i s h

get_elem?-last : (xs : List Symbol) (s : Symbol) → get_elem? (xs ++ s ∷ []) (length xs) ≡ some s
get_elem?-last [] s = refl
get_elem?-last (x ∷ xs) s = get_elem?-last xs s

-- The index of a symbol stays where it is when another one is added.
kept_index :
    (r : SymbolRegistry) (s : Symbol) (k : String) (o : Option ℕ) (m : List (String × ℕ))
    → Indexed r k o
    → Indexed (record r { symbols = r.symbols ++ s ∷ []; by_key = m }) k o
kept_index r s k none m h = tt
kept_index r s k (some id) m (t, e, f) = (t, get_elem?-append r.symbols (s ∷ []) id t e, f)

known_or-found : (o : Option Symbol) (id : ℕ) (t : Symbol) → known_or o id ≡ found t → o ≡ some t
known_or-found none id t h = absurd (ground (arith, h))
known_or-found (some s) id t h = ground (arith, h)

-- What an id resolves to is the symbol at its index, in the registry's own epoch.
resolve_iff :
    (r : SymbolRegistry) (id epoch : ℕ) (t : Symbol)
    → (resolve r id epoch ≡ found t)
      ↔ ((◌≡◌ {A = ℕ} epoch r.epoch) × (get_elem? r.symbols id ≡ some t))
unfolding resolve
resolve_iff r id epoch t = (to, λ (e, g). rw ((==_iff epoch r.epoch).1 e, g) refl)
  where
    to :
        resolve r id epoch ≡ found t
        → (◌≡◌ {A = ℕ} epoch r.epoch) × (get_elem? r.symbols id ≡ some t)
    to h = elim (Bool-cases (epoch == r.epoch)) [
      | inl e ↦
          let here : resolve r id epoch ≡ known_or (get_elem? r.symbols id) id = rw e refl in
          ((==_iff epoch r.epoch).0 e, known_or-found _ id t (sym here ∙ h))
      | inr e ↦
          let foreign : resolve r id epoch ≡ foreign_epoch id epoch r.epoch = rw e refl in
          absurd (ground (arith, sym foreign ∙ h))
    ]

abbrev next_id : SymbolRegistry → ℕ
next_id r = length r.symbols % u32_mod

abbrev extended : SymbolRegistry → Symbol → SymbolRegistry
extended r s = record r { symbols = r.symbols ++ s ∷ []; by_key = put r.by_key (key s) (next_id r) }

module _ (r : SymbolRegistry) (s : Symbol) where
  intern_known : (id : ℕ) → get r.by_key (key s) ≡ some id → intern r s ≡ (r, id)
  unfolding intern
  intern_known id e = rw e refl

  intern_new : get r.by_key (key s) ≡ none → intern r s ≡ (extended r s, next_id r)
  unfolding intern
  intern_new e = rw e refl

  new_index : length r.symbols < u32_mod → get_elem? (r.symbols ++ s ∷ []) (next_id r) ≡ some s
  new_index small =
      let same : length r.symbols % u32_mod ≡ length r.symbols = omega (arith, small) in
      ap (get_elem? (r.symbols ++ s ∷ [])) same ∙ get_elem?-last r.symbols s

  extended-Inv : length r.symbols < u32_mod → Inv r → Inv (extended r s)
  extended-Inv small i = record {
    indexed = λ k. elim (Bool-cases (string_eq.beq (key s) k)) [
      | inl same ↦
          rw (get-put r.by_key (key s) k (next_id r), same)
            (s, new_index small, (string_eq.beq_iff (key s) k).0 same)
      | inr other ↦
          rw (get-put r.by_key (key s) k (next_id r), other)
            (kept_index r s k (get r.by_key k) (put r.by_key (key s) (next_id r)) (i.indexed k))
    ];
  }

  -- Interning keeps the map and the list together, while the ids do not wrap.
  pub intern-Inv : length r.symbols < u32_mod → Inv r → Inv (intern r s).0
  intern-Inv small i = elim (Option-cases (get r.by_key (key s))) [
    | inr (id, e) ↦ rw (intern_known id e) i
    | inl e ↦ rw (intern_new e) (extended-Inv small i)
  ]

  -- An id that resolves goes on resolving to the same symbol, whatever is interned later.
  pub resolve-intern_keeps :
      (id epoch : ℕ) (t : Symbol)
      → resolve r id epoch ≡ found t
      → resolve (intern r s).0 id epoch ≡ found t
  resolve-intern_keeps id epoch t h = elim (Option-cases (get r.by_key (key s))) [
    | inr (j, e) ↦ rw (intern_known j e) h
    | inl e ↦
        let (here, at) = (resolve_iff r id epoch t).0 h in
        rw (intern_new e) (
          (resolve_iff (extended r s) id epoch t).1
            (here, get_elem?-append r.symbols (s ∷ []) id t at))
  ]

  -- The id that a symbol gets resolves to it in the same epoch, whether it is new or was known.
  pub resolve-intern :
      length r.symbols < u32_mod → Inv r → resolve (intern r s).0 (intern r s).1 r.epoch ≡ found s
  resolve-intern small i = elim (Option-cases (get r.by_key (key s))) [
    | inr (id, e) ↦
        let (t, at, same) = subst (Indexed r (key s)) e (i.indexed (key s)) in
        rw (intern_known id e)
          ((resolve_iff r id r.epoch s).1 (refl, at ∙ ap some (key-injective t s same)))
    | inl e ↦
        rw (intern_new e)
          ((resolve_iff (extended r s) (next_id r) r.epoch s).1 (refl, new_index small))
  ]

  epoch-intern : (intern r s).0.epoch ≡ r.epoch
  epoch-intern = elim (Option-cases (get r.by_key (key s))) [
    | inr (id, e) ↦ rw (intern_known id e) refl
    | inl e ↦ rw (intern_new e) refl
  ]

  length-intern : length (intern r s).0.symbols ≤ length r.symbols + 1
  length-intern = elim (Option-cases (get r.by_key (key s))) [
    | inr (id, e) ↦ rw (intern_known id e) (omega arith)
    | inl e ↦ rw (intern_new e) (omega (arith, length-append r.symbols (s ∷ [])))
  ]

-- Interning one symbol after another, with the ids that they get.
abbrev pub intern_all : SymbolRegistry → List Symbol → SymbolRegistry × List (Symbol × ℕ)
intern_all r [] = (r, [])
intern_all r (s ∷ ss) =
    let (r', id) = intern r s in let (r'', ids) = intern_all r' ss in (r'', (s, id) ∷ ids)

keeps_all :
    (r : SymbolRegistry) (ss : List Symbol) (id epoch : ℕ) (t : Symbol)
    → resolve r id epoch ≡ found t
    → resolve (intern_all r ss).0 id epoch ≡ found t
keeps_all r [] id epoch t h = h
keeps_all r (s ∷ ss) id epoch t h =
    keeps_all (intern r s).0 ss id epoch t (resolve-intern_keeps r s id epoch t h)

-- Every id that was ever given out resolves, in its own epoch, to the symbol it was given to, at any
-- later time; so two symbols never share an id. The registry holds fewer than 2^32 symbols.
pub intern_all-resolve :
    (r : SymbolRegistry) (ss : List Symbol)
    → Inv r
    → length r.symbols + length ss < u32_mod
    → All (λ p. resolve (intern_all r ss).0 p.1 r.epoch ≡ found p.0) (intern_all r ss).1
intern_all-resolve r [] i small = tt
intern_all-resolve r (s ∷ ss) i small = (
  keeps_all (intern r s).0 ss (intern r s).1 r.epoch s
      (resolve-intern r s (omega (arith, small)) i),
  subst
      (λ e.
        All (λ p. resolve (intern_all r (s ∷ ss)).0 p.1 e ≡ found p.0)
          (intern_all (intern r s).0 ss).1)
      (epoch-intern r s)
      (intern_all-resolve (intern r s).0 ss (intern-Inv r s (omega (arith, small)) i)
        (omega (arith, small, length-intern r s))),
)
