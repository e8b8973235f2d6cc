-- ===== src/Wire/Admission/Sessions.antt =====
-- crates/wire/src/admission.rs: the sessions of a device (`open`, `revoke_device`), and `authorize`.
use mooncat.Prelude.{
  sort_by, any_of-insert_by, length-insert_by, All-keep_if, length-keep_if, ◌||◌, ℕ, zero, suc, ◌≤◌,
  ◌<◌, ◌≡◌, refl, ap, ◌∙◌, List, [], ◌∷◌, none, some, arith, ltb, All, map, Bool-cases, inl, inr,
  if◌then◌else◌, true, false, sym, length, keep_if, any_of, ◌==◌, Bool, All-weaken, ◌↔◌,
  Option-cases,
}
use mooncat.Prelude.Assoc.{put, remove, nat_eq}
use mooncat.Wire.Command.{Command, Role, role_rank, min_role}
use mooncat.Wire.Admission.{
  Gatekeeper, LiveSession, is_of, sessions_of, oldest_of, cap_loop, open_session, revoke_device,
  remove_all, authorize, granted, earlier, older, max_sessions,
}

abbrev Sessions : Type 0
Sessions = List (ℕ × LiveSession)

-- Each session stands under its own id.
abbrev pub Keyed : Sessions → Type 0
Keyed m = All (λ p. ◌≡◌ {A = ℕ} p.1.id p.0) m

abbrev of_device : ℕ → Sessions → Sessions
of_device d m = keep_if (is_of d) m

module _ (P : ℕ × LiveSession → Type 0) where
  -- What is left after a removal is not of the removed key.
  All-remove : (m : Sessions) (k : ℕ) → All P m → All (λ p. P p × ((p.0 == k) ≡ false)) (remove m k)
  unfolding remove
  All-remove [] k h = h
  All-remove ((j, s) ∷ m) k h = elim (Bool-cases (j == k)) [
    | inl e ↦ rw e (All-remove m k h.1)
    | inr e ↦ rw e ((h.0, e), All-remove m k h.1)
  ]

module _ (d : ℕ) where
  -- Every session of the device stands in the list of ids.
  abbrev Doomed : List ℕ → ℕ × LiveSession → Type 0
  Doomed ids p = is_of d p ≡ true → any_of (λ i. p.0 == i) ids ≡ true

  none_kept : (m : Sessions) → All (Doomed []) m → of_device d m ≡ []
  none_kept [] h = refl
  none_kept (p ∷ m) h = elim (Bool-cases (is_of d p)) [
    | inl e ↦ absurd (ground (arith, h.0 e))
    | inr e ↦ rw e (none_kept m h.1)
  ]

  remove_all-Doomed :
      (m : Sessions) (ids : List ℕ) → All (Doomed ids) m → of_device d (remove_all m ids) ≡ []
  remove_all-Doomed m [] h = none_kept m h
  remove_all-Doomed m (i ∷ ids) h = remove_all-Doomed (remove m i) ids (
      All-weaken (Doomed ids) (λ p. Doomed (i ∷ ids) p × ((p.0 == i) ≡ false))
        (λ p (q, n) o. ground (arith, q o)) (remove m i) (All-remove (Doomed (i ∷ ids)) m i h))

  wider :
      (p : ℕ × LiveSession) (m : Sessions) (k : ℕ)
      → any_of (λ i. k == i) (sessions_of m d) ≡ true
      → any_of (λ i. k == i) (sessions_of (p ∷ m) d) ≡ true
  unfolding sessions_of sort_by
  wider p m k h = elim (Bool-cases (is_of d p)) [
    | inl e ↦
        rw e
          (any_of-insert_by (λ id. id) (λ i. k == i) p.1.id (sessions_of m d) ∙ ground (arith, h))
    | inr e ↦ rw e h
  ]

  head-Doomed :
      (p : ℕ × LiveSession) (m : Sessions)
      → ◌≡◌ {A = ℕ} p.1.id p.0
      → Doomed (sessions_of (p ∷ m) d) p
  unfolding sessions_of sort_by
  head-Doomed p m k o =
      rw (o, k) (any_of-insert_by (λ id. id) (λ i. p.0 == i) p.0 (sessions_of m d) ∙ ground arith)

  All-Doomed : (m : Sessions) → Keyed m → All (Doomed (sessions_of m d)) m
  All-Doomed [] h = tt
  All-Doomed (p ∷ m) h = (
    head-Doomed p m h.0,
    All-weaken (Doomed (sessions_of (p ∷ m) d)) (Doomed (sessions_of m d))
        (λ q f o. wider p m q.0 (f o)) m (All-Doomed m h.1),
  )

  -- Once a device is revoked it has no session, where each session stands under its id.
  pub sessions_of-revoke_device :
      (g : Gatekeeper) → Keyed g.sessions → sessions_of (revoke_device g d).0.sessions d ≡ []
  unfolding revoke_device sessions_of sort_by
  sessions_of-revoke_device g h =
      ap (λ m. sort_by (λ id. id) (map (λ (p : ℕ × LiveSession). p.1.id) m))
        (remove_all-Doomed g.sessions (sessions_of g.sessions d) (All-Doomed g.sessions h))

  -- Removing a key that the device has leaves it fewer sessions.
  shrink_le : (m : Sessions) (k : ℕ) → length (of_device d (remove m k)) ≤ length (of_device d m)
  unfolding remove
  shrink_le [] k = omega arith
  shrink_le ((j, s) ∷ m) k = ground (arith, shrink_le m k)

  shrink :
      (m : Sessions) (k : ℕ)
      → any_of (λ p. p.0 == k) (of_device d m) ≡ true
      → length (of_device d (remove m k)) < length (of_device d m)
  unfolding remove
  shrink [] k h = ground (arith, h)
  shrink ((j, s) ∷ m) k h = ground (arith, h, shrink m k, shrink_le m k)

-- The id of whichever of two sessions is picked is found.
found_first :
    (rest : Bool) (j : ℕ) (t s : LiveSession)
    → ◌≡◌ {A = ℕ} t.id j
    → some t ≡ some s
    → (◌||◌ (j == s.id) rest) ≡ true
found_first rest j t s k h = let i : ◌≡◌ {A = ℕ} s.id j = cc in rw i (ground arith)

found_either :
    (b rest : Bool) (j : ℕ) (t o s : LiveSession)
    → ◌≡◌ {A = ℕ} t.id j
    → some (if b then t else o) ≡ some s
    → (some o ≡ some s → rest ≡ true)
    → (◌||◌ (j == s.id) rest) ≡ true
found_either true rest j t o s k h r = found_first rest j t s k h
found_either false rest j t o s k h r = rw (r h) (ground arith)

oldest_of-any :
    (m : Sessions) (s : LiveSession)
    → Keyed m
    → oldest_of m ≡ some s
    → any_of (λ p. p.0 == s.id) m ≡ true
unfolding oldest_of
oldest_of-any [] s k h = absurd (ground (arith, h))
oldest_of-any ((j, t) ∷ m) s k h = elim (Option-cases (oldest_of m)) [
  | inl e ↦ found_first _ j t s k.0 (sym (ap (λ x. some (earlier t x)) e) ∙ h)
  | inr (o, e) ↦
      found_either (older t o) _ j t o s k.0 (sym (ap (λ x. some (earlier t x)) e) ∙ h)
        (λ e'. oldest_of-any m s k.1 (e ∙ e'))
]

oldest_of-none : (m : Sessions) → oldest_of m ≡ none → ◌≡◌ {A = ℕ} (length m) 0
unfolding oldest_of
oldest_of-none [] h = refl
oldest_of-none ((j, t) ∷ m) h = absurd (ground (arith, h))

length-sessions_of : (m : Sessions) (d : ℕ) → length (sessions_of m d) ≡ length (of_device d m)
unfolding sessions_of sort_by
length-sessions_of [] d = refl
length-sessions_of (p ∷ m) d = elim (Bool-cases (is_of d p)) [
  | inl e ↦
      rw e (length-insert_by (λ id. id) p.1.id (sessions_of m d) ∙ ap suc (length-sessions_of m d))
  | inr e ↦ rw e (length-sessions_of m d)
]

Keyed-remove : (m : Sessions) (i : ℕ) → Keyed m → Keyed (remove m i)
Keyed-remove m i h =
    All-weaken (λ p. ◌≡◌ {A = ℕ} p.1.id p.0) (λ p. (◌≡◌ {A = ℕ} p.1.id p.0) × ((p.0 == i) ≡ false))
      (λ p q. q.0) (remove m i) (All-remove (λ p. ◌≡◌ {A = ℕ} p.1.id p.0) m i h)

Keyed-put :
    (m : Sessions) (i : ℕ) (s : LiveSession) → ◌≡◌ {A = ℕ} s.id i → Keyed m → Keyed (put m i s)
unfolding put
Keyed-put [] i s e h = (e, tt)
Keyed-put ((j, t) ∷ m) i s e h = elim (Bool-cases (j == i)) [
  | inl b ↦ rw b (e, h.1)
  | inr b ↦ rw b (h.0, Keyed-put m i s e h.1)
]

module _ (d : ℕ) where
  -- The loop ends with at most four sessions, with fuel for every session of the device.
  cap_loop-length :
      (fuel : ℕ) (m : Sessions)
      → Keyed m
      → length (of_device d m) ≤ fuel
      → length (sessions_of (cap_loop fuel m d).0 d) ≤ 4
  unfolding cap_loop
  cap_loop-length zero m k h = omega (arith, length-sessions_of m d)
  cap_loop-length (suc fuel) m k h =
      elim (Bool-cases (ltb max_sessions (length (sessions_of m d)))) [
        | inr few ↦ rw few (ground arith)
        | inl many ↦ elim (Option-cases (oldest_of (of_device d m))) [
          | inl e ↦
              absurd (ground (arith, length-sessions_of m d, oldest_of-none (of_device d m) e))
          | inr (s, e) ↦
              rw (many, e)
                (cap_loop-length fuel (remove m s.id) (Keyed-remove m s.id k) (
                  omega (
                    arith,
                    shrink d m s.id (
                        oldest_of-any (of_device d m) s
                          (All-keep_if (λ p. ◌≡◌ {A = ℕ} p.1.id p.0) (is_of d) m k) e),
                  )))
        ]
      ]

  Keyed-cap_loop : (fuel : ℕ) (m : Sessions) → Keyed m → Keyed (cap_loop fuel m d).0
  unfolding cap_loop
  Keyed-cap_loop zero m k = k
  Keyed-cap_loop (suc fuel) m k = elim (Bool-cases (ltb max_sessions (length (sessions_of m d)))) [
    | inr few ↦ rw few k
    | inl many ↦ elim (Option-cases (oldest_of (of_device d m))) [
      | inl e ↦ rw (many, e) k
      | inr (s, e) ↦ rw (many, e) (Keyed-cap_loop fuel (remove m s.id) (Keyed-remove m s.id k))
    ]
  ]

  -- After a session is opened its device has at most four, if each session stands under its id, as
  -- each then still does.
  pub sessions_of-open_session :
      (g : Gatekeeper) (peer : ℕ) (role : Role) (now : ℕ)
      → Keyed g.sessions
      → (length (sessions_of (open_session g d peer role now).0.sessions d) ≤ 4)
        × Keyed (open_session g d peer role now).0.sessions
  unfolding open_session
  sessions_of-open_session g peer role now k =
      let kept : Keyed (put g.sessions g.next_session _) =
        Keyed-put g.sessions g.next_session _ refl k in
      (cap_loop-length _ _ kept (length-keep_if (is_of d) _), Keyed-cap_loop _ _ kept)

-- A role may run a command exactly when it ranks at least as high as the command demands.
pub authorize_iff :
    (r : Role) (c : Command) → (authorize r c ≡ granted) ↔ (role_rank (min_role c) ≤ role_rank r)
unfolding authorize
authorize_iff r c = ground arith
