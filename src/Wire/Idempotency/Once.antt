-- ===== src/Wire/Idempotency/Once.antt =====
-- A retried request is executed at most once, and is answered with the acknowledgement that the
-- first execution gave (crates/wire/src/idempotency.rs).
use mooncat.Prelude.{
  ℕ, ◌+◌, ◌≤◌, ◌<◌, ◌≡◌, ◌⊎◌, inl, inr, refl, sym, ap, ◌∙◌, Bool, true, false, List, [], ◌∷◌,
  Option, none, some, arith, if◌then◌else◌, ◌==◌, Bool-cases, Option-cases, u64_mod, lt→ltb, ltb→lt,
  subst, ℕ_discrete, ◌&&◌,
}
use mooncat.Prelude.Assoc.{get, nat_eq, get-put, get-put_self, beq_ne}
use mooncat.Wire.Event.{ServerEvent}
use mooncat.Wire.Idempotency.{
  new, ReqRing, Record, running, answered, Admission, fresh, in_flight, replay, too_old, admit,
  admit_record, complete, settle, is_last_word, claim, below_floor, floor_of,
}
use mooncat.Wire.Idempotency.Ring.{Inv, Known, Above, claim-Inv, claim-Known, put_known}

-- A request arrives, or its handler finishes with an acknowledgement.
pub data Op (Body : Type 0) : Type 0 where
  arrive : ℕ → Op Body
  finish : ℕ → ServerEvent Body → Op Body

below_floor_lem : (o : Option ℕ) (p : ℕ) → p < floor_of o → below_floor o p ≡ true
below_floor_lem none p h = absurd (omega arith)
below_floor_lem (some f) p h = lt→ltb _ _ h

ran_bounded : (b : Bool) → ◌≤◌ (if b then 1 else 0) 1
ran_bounded true = omega arith
ran_bounded false = omega arith

both_false : (b : Bool) → ◌≡◌ {A = ℕ} (if b && false then 1 else 0) 0
both_false true = refl
both_false false = refl

module _ {Body : Type 0} where
  abbrev pub after : ReqRing Body → Op Body → ReqRing Body
  after r (arrive q) = (admit r q).0
  after r (finish q ack) = complete r q ack

  abbrev pub is_fresh : Admission Body → Bool
  is_fresh fresh = true
  is_fresh in_flight = false
  is_fresh (replay ack) = false
  is_fresh (too_old floor) = false

  -- How often a history runs the command of the request `q`: once for each fresh admission.
  abbrev pub ran : ℕ → ReqRing Body → Op Body → ℕ
  ran q r (arrive p) = if p == q && is_fresh (admit r p).1 then 1 else 0
  ran q r (finish p ack) = 0

  unfoldable pub executions : ℕ → ReqRing Body → List (Op Body) → ℕ
  executions q r [] = 0
  executions q r (op ∷ ops) = ran q r op + executions q (after r op) ops

  -- An arrival repeats an id, or has one above all ids so far.
  abbrev pub Orderly : ReqRing Body → Op Body → Type 0
  Orderly r (arrive p) = Known r p ⊎ (Above r.high_water p × (p + 1 < u64_mod))
  Orderly r (finish p ack) = Unit

  abbrev pub Monotone : ReqRing Body → List (Op Body) → Type 0
  Monotone r [] = Unit
  Monotone r (op ∷ ops) = Orderly r op × Monotone (after r op) ops

  admit-Known :
      (r : ReqRing Body) (p : ℕ)
      → Known r p
      → ((admit r p).0 ≡ r) × (is_fresh (admit r p).1 ≡ false)
  unfolding admit
  admit-Known r p k = elim (Option-cases (get r.records p)) [
    | inl gone ↦ elim k [
      | inl held ↦ absurd (held gone)
      | inr old ↦ rw (gone, below_floor_lem r.evicted_below p old) (refl, refl)
    ]
    | inr (rec, e) ↦ rw e (remembered rec)
  ]
    where
      remembered :
          (rec : Record Body)
          → ((admit_record r p (some rec)).0 ≡ r)
            × (is_fresh (admit_record r p (some rec)).1 ≡ false)
      remembered running = (refl, refl)
      remembered (answered ack) = (refl, refl)

  -- A request that is not known is claimed, if its id is past all others.
  admit_new :
      (r : ReqRing Body) (p : ℕ)
      → get r.records p ≡ none
      → below_floor r.evicted_below p ≡ false
      → admit r p ≡ (claim r p, fresh)
  unfolding admit
  admit_new r p g f = rw (g, f) refl

  arrival_cases :
      (r : ReqRing Body) (p : ℕ)
      → (Known r p) ⊎ ((get r.records p ≡ none) × (below_floor r.evicted_below p ≡ false))
  arrival_cases r p = elim (Option-cases (get r.records p)) [
    | inr (rec, e) ↦ inl (inl (λ g. cc))
    | inl gone ↦ elim (Bool-cases (below_floor r.evicted_below p)) [
      | inl old ↦ inl (inr (old_floor r.evicted_below p old))
      | inr new ↦ inr (gone, new)
    ]
  ]
    where
      old_floor : (o : Option ℕ) (p : ℕ) → below_floor o p ≡ true → p < floor_of o
      old_floor none p h = cc
      old_floor (some f) p h = ltb→lt _ _ h

  complete-Inv :
      (r : ReqRing Body) (q : ℕ) (ack : ServerEvent Body) → Inv r → Inv (complete r q ack)
  unfolding complete
  complete-Inv r q ack v = elim (Bool-cases (is_last_word ack)) [
    | inl f ↦ rw f (settle-Inv (get r.records q))
    | inr n ↦ rw n v
  ]
    where
      settle-Inv : (o : Option (Record Body)) → Inv (settle r q ack o)
      settle-Inv none = v
      settle-Inv (some old) = record {
        ascending = v.ascending;
        floor_le = v.floor_le;
        small = v.small;
        top = v.top;
        reach = v.reach;
      }

  settle-Known :
      (r : ReqRing Body) (q p : ℕ) (ack : ServerEvent Body) (o : Option (Record Body))
      → Known r p
      → Known (settle r q ack o) p
  settle-Known r q p ack none k = k
  settle-Known r q p ack (some old) k = elim k [
    | inr below ↦ inr below
    | inl held ↦ elim (ℕ_discrete q p) [
      | yes same ↦ inl (put_known r.records q p (answered ack) same)
      | no other ↦
          inl (λ g.
            held (sym (get-put r.records q p (answered ack) ∙ rw (beq_ne q p other) refl) ∙ g))
    ]
  ]

  complete-Known :
      (r : ReqRing Body) (q p : ℕ) (ack : ServerEvent Body) → Known r p → Known (complete r q ack) p
  unfolding complete
  complete-Known r q p ack k = elim (Bool-cases (is_last_word ack)) [
    | inl f ↦ rw f (settle-Known r q p ack (get r.records q) k)
    | inr n ↦ rw n k
  ]

  after-Inv : (r : ReqRing Body) (op : Op Body) → Inv r → Orderly r op → Inv (after r op)
  after-Inv r (finish q ack) v m = complete-Inv r q ack v
  after-Inv r (arrive p) v m = elim (arrival_cases r p) [
    | inl known ↦ rw (admit-Known r p known).0 v
    | inr new ↦ elim m [
      | inl known ↦ rw (admit-Known r p known).0 v
      | inr past ↦
          rw (ap (λ x. x.0) (admit_new r p new.0 new.1), after) (claim-Inv r p v past.0 past.1)
    ]
  ]

  after-Known :
      (r : ReqRing Body) (op : Op Body) (q : ℕ)
      → Inv r
      → Orderly r op
      → Known r q
      → Known (after r op) q
  after-Known r (finish p ack) q v m k = complete-Known r p q ack k
  after-Known r (arrive p) q v m k = elim (arrival_cases r p) [
    | inl known ↦ rw (admit-Known r p known).0 k
    | inr new ↦ elim m [
      | inl known ↦ rw (admit-Known r p known).0 k
      | inr past ↦
          rw (ap (λ x. x.0) (admit_new r p new.0 new.1), after)
            (claim-Known r p q v past.0 past.1 (inr k))
    ]
  ]

  Known-not_run : (r : ReqRing Body) (op : Op Body) (q : ℕ) → Known r q → ran q r op ≡ 0
  Known-not_run r (finish p ack) q k = refl
  Known-not_run r (arrive p) q k = elim (ℕ_discrete p q) [
    | yes same ↦
        rw (subst (λ x. is_fresh (admit r x).1 ≡ false) (sym same) (admit-Known r q k).1)
          (both_false (p == q))
    | no other ↦ rw (beq_ne p q other) refl
  ]

  Known-never_run :
      (r : ReqRing Body) (ops : List (Op Body)) (q : ℕ)
      → Inv r
      → Monotone r ops
      → Known r q
      → executions q r ops ≡ 0
  unfolding executions
  Known-never_run r [] q v m k = refl
  Known-never_run r (op ∷ ops) q v m k = omega (
    arith,
    Known-not_run r op q k,
    Known-never_run (after r op) ops q (after-Inv r op v m.0) m.1 (after-Known r op q v m.0 k),
  )

  -- One operation runs the command of `q` at most once, and `q` is known if it does.
  ran_once :
      (r : ReqRing Body) (op : Op Body) (q : ℕ)
      → Inv r
      → Orderly r op
      → (ran q r op ≡ 0) ⊎ ((ran q r op ≤ 1) × Known (after r op) q)
  ran_once r (finish p ack) q v m = inl refl
  ran_once r (arrive p) q v m = elim (arrival_cases r p) [
    | inl known ↦ inl (rw ((admit-Known r p known).1, ran) (both_false (p == q)))
    | inr new ↦ elim (ℕ_discrete p q) [
      | no other ↦ inl (rw (beq_ne p q other) refl)
      | yes same ↦ elim m [
        | inl known ↦ inl (rw ((admit-Known r p known).1, ran) (both_false (p == q)))
        | inr past ↦ inr (
          ran_bounded (p == q && is_fresh (admit r p).1),
          rw (ap (λ x. x.0) (admit_new r p new.0 new.1), after)
              (claim-Known r p q v past.0 past.1 (inl (sym same))),
        )
      ]
    ]
  ]

  -- From a ring that meets its invariant, whatever the retries, and whenever the handlers finish, the
  -- command of a request runs at most once, as long as ids that are new come in ascending order.
  pub executions-le-one :
      (r : ReqRing Body) (ops : List (Op Body)) (q : ℕ)
      → Inv r
      → Monotone r ops
      → executions q r ops ≤ 1
  unfolding executions
  executions-le-one r [] q v m = omega arith
  executions-le-one r (op ∷ ops) q v m = elim (ran_once r op q v m.0) [
    | inl idle ↦
        omega (arith, idle, executions-le-one (after r op) ops q (after-Inv r op v m.0) m.1)
    | inr (once, k) ↦
        omega (arith, once, Known-never_run (after r op) ops q (after-Inv r op v m.0) m.1 k)
  ]

  pub new-Inv : Inv (new {Body = Body})
  new-Inv = record { ascending = tt; floor_le = tt; small = tt; top = refl; reach = refl }

  -- The final acknowledgement of a running request is what every retry gets, word for word, and a
  -- retry changes nothing.
  pub admit-complete :
      (r : ReqRing Body) (q : ℕ) (ack : ServerEvent Body) (rec : Record Body)
      → get r.records q ≡ some rec
      → is_last_word ack ≡ true
      → admit (complete r q ack) q ≡ (complete r q ack, replay ack)
  unfolding admit complete
  admit-complete r q ack rec h f = rw (f, h, get-put_self r.records q (answered ack)) refl

  -- An acknowledgement that is not final, or of a request that has no record, is not kept.
  pub complete_ignored :
      (r : ReqRing Body) (q : ℕ) (ack : ServerEvent Body)
      → (is_last_word ack ≡ false) ⊎ (get r.records q ≡ none)
      → complete r q ack ≡ r
  unfolding complete
  complete_ignored r q ack (inl f) = rw f refl
  complete_ignored r q ack (inr h) = elim (Bool-cases (is_last_word ack)) [
    | inl f ↦ rw f (rw h refl)
    | inr f ↦ rw f refl
  ]
