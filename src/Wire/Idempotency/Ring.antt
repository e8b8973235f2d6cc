-- ===== src/Wire/Idempotency/Ring.antt =====
-- The invariant of the request ring (crates/wire/src/idempotency.rs) under requests whose new ids
-- ascend, and what it remembers.
use mooncat.Prelude.{
  ℕ, zero, suc, ◌+◌, ◌≤◌, ◌<◌, ◌≡◌, ◌≢◌, ◌⊎◌, inl, inr, refl, sym, ◌∙◌, List, [], ◌∷◌, ◌++◌, Option,
  none, some, arith, ltb, max, length, All, All-append, All-weaken, subst, Bool-cases, ltb→lt,
  ltb-false→le, ltb-false→le, u64_mod, add_u64_lem, ℕ_discrete,
}
use mooncat.Prelude.Assoc.{get, put, nat_eq, get-put, get-remove, get-put_self, beq_ne}
use mooncat.Wire.Idempotency.{
  ReqRing, Record, running, drop_oldest, evict_loop, evict_if_full, claim, raised, floor_of,
  seen_req_capacity,
}

-- Each id is below all that follow it.
abbrev pub Ascending : List ℕ → Type 0
Ascending [] = Unit
Ascending (x ∷ xs) = All (λ y. x < y) xs × Ascending xs

abbrev pub Top : Option ℕ → List ℕ → Type 0
Top none xs = xs ≡ []
Top (some h) xs = All (λ y. y ≤ h) xs

-- Past every id admitted so far.
abbrev pub Above : Option ℕ → ℕ → Type 0
Above none p = Unit
Above (some h) p = h < p

-- The eviction floor is at most one past the highest id.
abbrev pub Reach : Option ℕ → ℕ → Type 0
Reach none f = f ≡ 0
Reach (some h) f = f ≤ h + 1

Reach-Above : (o : Option ℕ) (f p : ℕ) → Reach o f → Above o p → f ≤ p
Reach-Above none f p h a = omega arith
Reach-Above (some t) f p h a = omega arith

Reach-raised : (o : Option ℕ) (f p : ℕ) → Reach o f → Reach (some (raised o p)) f
Reach-raised none f p h = omega arith
Reach-raised (some t) f p h = omega arith

Reach-Top : (o : Option ℕ) (x : ℕ) (xs : List ℕ) → Top o (x ∷ xs) → Reach o (x + 1)
Reach-Top none x xs t = cc
Reach-Top (some h) x xs t = omega arith

Ascending-append :
    (xs : List ℕ) (p : ℕ) → Ascending xs → All (λ y. y < p) xs → Ascending (xs ++ p ∷ [])
Ascending-append [] p a h = (tt, tt)
Ascending-append (x ∷ xs) p a h =
    (All-append (λ y. x < y) xs (p ∷ []) a.0 (h.0, tt), Ascending-append xs p a.1 h.1)

Top-below : (o : Option ℕ) (xs : List ℕ) (p : ℕ) → Top o xs → Above o p → All (λ y. y < p) xs
Top-below none xs p t a = rw t tt
Top-below (some h) xs p t a = All-weaken (λ y. y < p) (λ y. y ≤ h) (λ y k. omega arith) xs t

Top-append :
    (o : Option ℕ) (xs : List ℕ) (p : ℕ) → Top o xs → Top (some (raised o p)) (xs ++ p ∷ [])
Top-append none xs p t = rw t (omega arith, tt)
Top-append (some h) xs p t =
    All-append (λ y. y ≤ max h p) xs (p ∷ [])
      (All-weaken (λ y. y ≤ max h p) (λ y. y ≤ h) (λ y k. omega arith) xs t) (omega arith, tt)

Top-tail : (o : Option ℕ) (x : ℕ) (xs : List ℕ) → Top o (x ∷ xs) → Top o xs
Top-tail none x xs t = cc
Top-tail (some h) x xs t = t.1

module _ {Body : Type 0} where
  pub record Inv (r : ReqRing Body) : Type 0 where
    pub ascending : Ascending r.order
    pub floor_le : All (λ y. floor_of r.evicted_below ≤ y) r.order
    pub small : All (λ y. y + 1 < u64_mod) r.order
    pub top : Top r.high_water r.order
    pub reach : Reach r.high_water (floor_of r.evicted_below)

  -- A request that has a record, or whose record is gone for being too old.
  abbrev pub Known : ReqRing Body → ℕ → Type 0
  Known r q = (get r.records q ≢ none) ⊎ (q < floor_of r.evicted_below)

  drop_oldest-Inv : (r : ReqRing Body) (xs : List ℕ) → r.order ≡ xs → Inv r → Inv (drop_oldest xs r)
  drop_oldest-Inv r [] e v = v
  drop_oldest-Inv r (x ∷ xs) e v =
      let a : Ascending (x ∷ xs) = subst Ascending e v.ascending in
      let m : All (λ y. y + 1 < u64_mod) (x ∷ xs) = subst (All (λ y. y + 1 < u64_mod)) e v.small in
      record {
        ascending = a.1;
        floor_le =
            rw (add_u64_lem x 1 m.0)
              (All-weaken (λ y. x + 1 ≤ y) (λ y. x < y) (λ y k. omega arith) xs a.0);
        small = m.1;
        top = Top-tail r.high_water x xs (subst (Top r.high_water) e v.top);
        reach =
            rw (add_u64_lem x 1 m.0)
              (Reach-Top r.high_water x xs (subst (Top r.high_water) e v.top));
      }

  drop_oldest-Known :
      (r : ReqRing Body) (xs : List ℕ) (q : ℕ)
      → r.order ≡ xs
      → Inv r
      → Known r q
      → Known (drop_oldest xs r) q
  drop_oldest-Known r [] q e v k = k
  drop_oldest-Known r (x ∷ xs) q e v k =
      let m : All (λ y. y + 1 < u64_mod) (x ∷ xs) = subst (All (λ y. y + 1 < u64_mod)) e v.small in
      let f : All (λ y. floor_of r.evicted_below ≤ y) (x ∷ xs) =
        subst (All (λ y. floor_of r.evicted_below ≤ y)) e v.floor_le in
      elim (ℕ_discrete x q) [
        | yes same ↦ inr (rw (add_u64_lem x 1 m.0) (omega arith))
        | no other ↦ elim k [
          | inl held ↦
              inl (λ g. held (sym (get-remove r.records x q ∙ rw (beq_ne x q other) refl) ∙ g))
          | inr old ↦ inr (rw (add_u64_lem x 1 m.0) (omega (arith, f.0)))
        ]
      ]

  evict_loop-Inv : (fuel : ℕ) (r : ReqRing Body) → Inv r → Inv (evict_loop fuel r)
  unfolding evict_loop
  evict_loop-Inv zero r v = v
  evict_loop-Inv (suc fuel) r v = elim (Bool-cases (ltb seen_req_capacity (length r.order))) [
    | inl over ↦
        rw over (evict_loop-Inv fuel (drop_oldest r.order r) (drop_oldest-Inv r r.order refl v))
    | inr fits ↦ rw fits v
  ]

  evict_loop-Known :
      (fuel : ℕ) (r : ReqRing Body) (q : ℕ) → Inv r → Known r q → Known (evict_loop fuel r) q
  unfolding evict_loop
  evict_loop-Known zero r q v k = k
  evict_loop-Known (suc fuel) r q v k = elim (Bool-cases (ltb seen_req_capacity (length r.order))) [
    | inl over ↦ rw over (
        evict_loop-Known fuel (drop_oldest r.order r) q (drop_oldest-Inv r r.order refl v)
          (drop_oldest-Known r r.order q refl v k))
    | inr fits ↦ rw fits k
  ]

  length-drop_oldest :
      (r : ReqRing Body) (xs : List ℕ)
      → r.order ≡ xs
      → seen_req_capacity < length xs
      → length (drop_oldest xs r).order + 1 ≡ length xs
  length-drop_oldest r [] e h = absurd (omega arith)
  length-drop_oldest r (x ∷ xs) e h = omega arith

  -- The eviction loop ends within its fuel, and leaves no more than the capacity.
  length-evict_loop :
      (fuel : ℕ) (r : ReqRing Body)
      → length r.order ≤ fuel
      → length (evict_loop fuel r).order ≤ seen_req_capacity
  unfolding evict_loop
  length-evict_loop zero r h = omega arith
  length-evict_loop (suc fuel) r h = elim (Bool-cases (ltb seen_req_capacity (length r.order))) [
    | inl over ↦ rw over (
        length-evict_loop fuel (drop_oldest r.order r)
          (omega (arith, length-drop_oldest r r.order refl (ltb→lt _ _ over))))
    | inr fits ↦ rw fits (ltb-false→le _ _ fits)
  ]

  pub put_known :
      (m : List (ℕ × Record Body)) (req q : ℕ) (v : Record Body)
      → req ≡ q
      → get (put m req v) q ≢ none
  put_known m req q v same g = cc (get-put_self m req v)

  -- The ring with a new request in it, before the eviction.
  abbrev entered : ReqRing Body → ℕ → ReqRing Body
  entered r req = record r {
    records = put r.records req running;
    order = r.order ++ req ∷ [];
    high_water = some (raised r.high_water req);
  }

  entered-Inv :
      (r : ReqRing Body) (req : ℕ)
      → Inv r
      → Above r.high_water req
      → req + 1 < u64_mod
      → Inv (entered r req)
  entered-Inv r req v a s = record {
    ascending =
        Ascending-append r.order req v.ascending (Top-below r.high_water r.order req v.top a);
    floor_le =
        All-append (λ y. floor_of r.evicted_below ≤ y) r.order (req ∷ []) v.floor_le
          (Reach-Above r.high_water (floor_of r.evicted_below) req v.reach a, tt);
    small = All-append (λ y. y + 1 < u64_mod) r.order (req ∷ []) v.small (s, tt);
    top = Top-append r.high_water r.order req v.top;
    reach = Reach-raised r.high_water (floor_of r.evicted_below) req v.reach;
  }

  entered-Known : (r : ReqRing Body) (req q : ℕ) → Known r q → Known (entered r req) q
  entered-Known r req q k = elim k [
    | inr old ↦ inr old
    | inl held ↦ inl (elim (ℕ_discrete req q) [
      | yes same ↦ put_known r.records req q running same
      | no other ↦
          λ g. held (sym (get-put r.records req q running ∙ rw (beq_ne req q other) refl) ∙ g)
    ])
  ]

  pub claim-Inv :
      (r : ReqRing Body) (req : ℕ)
      → Inv r
      → Above r.high_water req
      → req + 1 < u64_mod
      → Inv (claim r req)
  unfolding claim evict_if_full
  claim-Inv r req v a s = evict_loop-Inv _ (entered r req) (entered-Inv r req v a s)

  pub claim-Known :
      (r : ReqRing Body) (req q : ℕ)
      → Inv r
      → Above r.high_water req
      → req + 1 < u64_mod
      → (q ≡ req) ⊎ Known r q
      → Known (claim r req) q
  unfolding claim evict_if_full
  claim-Known r req q v a s k =
      evict_loop-Known _ (entered r req) q (entered-Inv r req v a s) (elim k [
        | inl same ↦ inl (put_known r.records req q running (sym same))
        | inr old ↦ entered-Known r req q old
      ])

  -- However many requests come, the ring remembers no more than its capacity.
  pub length-claim : (r : ReqRing Body) (req : ℕ) → length (claim r req).order ≤ seen_req_capacity
  unfolding claim evict_if_full
  length-claim r req = length-evict_loop _ (entered r req) (omega arith)
