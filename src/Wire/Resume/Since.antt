-- ===== src/Wire/Resume/Since.antt =====
-- What a ring of crates/wire/src/resume.rs gives back (`since`).
use mooncat.Prelude.{
  drop-[], drop-drop, drop_all, ℕ, zero, suc, ◌+◌, ◌-◌, ◌≤◌, ◌<◌, ◌≡◌, refl, sym, ap, ◌∙◌, true,
  false, List, [], ◌∷◌, Option, none, some, arith, leb, ltb, ◌==◌, length, keep_if, map, drop,
  add_u64, u64_mod, add_u64_lem, length-drop, Bool-cases, Option-cases, inl, inr,
}
use mooncat.Wire.Event.{ServerEvent}
use mooncat.Wire.Resume.{Sent, Ring, since, since_oldest, front, resume_window}
use mooncat.Wire.Resume.History.{History, events, numbered, Tracks, drop-numbered, length-numbered}

module _ {Body : Type 0} where
  keep_after :
      (after n : ℕ) (h : History Body)
      → keep_if (λ s. ltb after s.seq) (numbered n h) ≡ drop (after + 1 - n) (numbered n h)
  keep_after after n [] = sym (drop-[] (after + 1 - n))
  keep_after after n ((t, f) ∷ h) = elim (Bool-cases (ltb after n)) [
    | inl kept ↦
        let whole : ◌≡◌ {A = ℕ} (after + 1 - n) 0 = ground (arith, kept) in
        let rest : ◌≡◌ {A = ℕ} (after + 1 - suc n) 0 = ground (arith, kept) in
        rw (kept, whole)
          (ap (λ (xs : List (Sent Body)). record { seq = n; at = t; event = f } ∷ xs)
            (keep_after after (suc n) h ∙ ap (λ k. drop k (numbered (suc n) h)) rest))
    | inr gone ↦
        let one_more : after + 1 - n ≡ suc (after + 1 - suc n) = ground (arith, gone) in
        rw (gone, one_more) (keep_after after (suc n) h)
  ]

  map-drop :
      (k : ℕ) (xs : List (Sent Body))
      → map (λ (s : Sent Body). s.event) (drop k xs) ≡ drop k (map (λ (s : Sent Body). s.event) xs)
  map-drop zero xs = refl
  map-drop (suc k) [] = refl
  map-drop (suc k) (x ∷ xs) = map-drop k xs

  events-numbered :
      (n : ℕ) (h : History Body) → map (λ (s : Sent Body). s.event) (numbered n h) ≡ events h
  events-numbered n [] = refl
  events-numbered n ((t, f) ∷ h) = ap (λ xs. f ∷ xs) (events-numbered (suc n) h)

  front_seq :
      (j n : ℕ) (h : History Body) (o : Sent Body)
      → front (drop j (numbered n h)) ≡ some o
      → o.seq ≡ n + j
  front_seq zero n [] o e = absurd (ground (arith, e))
  front_seq zero n ((t, f) ∷ h) o e = let first : ◌≡◌ {A = ℕ} n o.seq = cc in omega (arith, first)
  front_seq (suc j) n [] o e = absurd (ground (arith, e))
  front_seq (suc j) n ((t, f) ∷ h) o e = omega (arith, front_seq j (suc n) h o e)

  -- What a ring holds after a number is the history after it, if the ring reaches back that far.
  kept_missed :
      (r : Ring Body) (h : History Body) (k : ℕ)
      → Tracks r h
      → length h - r.capacity ≤ k
      → map (λ (s : Sent Body). s.event) (keep_if (λ s. ltb k s.seq) r.entries) ≡ drop k (events h)
  kept_missed r h k t l =
      let j : ℕ = length h - r.capacity in
      let as_numbered : drop j (numbered 1 h) ≡ numbered (1 + j) (drop j h) = drop-numbered j 1 h in
      ap (λ xs. map (λ (s : Sent Body). s.event) (keep_if (λ s. ltb k s.seq) xs))
        (t.held ∙ as_numbered)
      ∙ ap (map (λ (s : Sent Body). s.event)) (
          keep_after k (1 + j) (drop j h)
          ∙ ap (drop (k + 1 - (1 + j))) (sym as_numbered)
          ∙ drop-drop (k + 1 - (1 + j)) j (numbered 1 h)
          ∙ ap (λ n. drop n (numbered 1 h)) (omega (arith, l)))
      ∙ map-drop k (numbered 1 h)
      ∙ ap (drop k) (events-numbered 1 h)

  length-events : (h : History Body) → length (events h) ≡ length h
  length-events [] = refl
  length-events (p ∷ h) = ap suc (length-events h)

  since_oldest-exact :
      (r : Ring Body) (h : History Body) (k now : ℕ) (o : Option (Sent Body))
      (es : List (ServerEvent Body))
      → length h + 2 < u64_mod
      → Tracks r h
      → k ≤ length h
      → front r.entries ≡ o
      → since_oldest r.entries o k now ≡ some es
      → es ≡ drop k (events h)
  since_oldest-exact r h k now none es small t l f e = absurd (ground (arith, e))
  since_oldest-exact r h k now (some o) es small t l f e =
      elim (Bool-cases (ltb (add_u64 k 1) o.seq)) [
        | inl far ↦
            let no : since_oldest r.entries (some o) k now ≡ none = rw far refl in
            absurd (ground (arith, sym no ∙ e))
        | inr near ↦ elim (Bool-cases (ltb resume_window (now - o.at))) [
          | inl old ↦
              let no : since_oldest r.entries (some o) k now ≡ none = rw (near, old) refl in
              absurd (ground (arith, sym no ∙ e))
          | inr recent ↦
              let given : since_oldest r.entries (some o) k now
                  ≡ some (map (λ (s : Sent Body). s.event) (keep_if (λ s. ltb k s.seq) r.entries)) =
                rw (near, recent) refl in
              let same : es
                  ≡ map (λ (s : Sent Body). s.event) (keep_if (λ s. ltb k s.seq) r.entries) =
                cc in
              same
              ∙ kept_missed r h k t (
                  ground (
                    arith,
                    near,
                    add_u64_lem k 1 (omega (arith, l, small)),
                    front_seq (length h - r.capacity) 1 h o (ap front (sym t.held) ∙ f),
                  ))
        ]
      ]

  -- What a ring gives back is exactly what was sent after the number asked for, in order: no event
  -- is missing or repeated, however much of the history the ring has dropped.
  pub since-exact :
      (r : Ring Body) (h : History Body) (k now : ℕ) (es : List (ServerEvent Body))
      → length h + 2 < u64_mod
      → Tracks r h
      → since r k now ≡ some es
      → es ≡ drop k (events h)
  unfolding since
  since-exact r h k now es small t e = elim (Bool-cases (add_u64 k 1 == r.next_seq)) [
    | inl done ↦
        let nothing_left : since r k now ≡ some [] = rw done refl in
        let empty : es ≡ [] = cc in empty ∙ sym (drop_all k (events h) (up_to_date done))
    | inr more ↦ elim (Bool-cases (leb r.next_seq k)) [
      | inl ahead ↦
          let no : since r k now ≡ none = rw (more, ahead) refl in
          absurd (ground (arith, sym no ∙ e))
      | inr behind ↦
          let same : since r k now ≡ since_oldest r.entries (front r.entries) k now =
            rw (more, behind) refl in
          since_oldest-exact r h k now (front r.entries) es small t (ground (arith, behind, t.next))
            refl (sym same ∙ e)
    ]
  ]
    where
      up_to_date : (add_u64 k 1 == r.next_seq) ≡ true → length (events h) ≤ k
      up_to_date d = unfold add_u64 in ground (arith, d, t.next, length-events h)

  front-none : (xs : List (Sent Body)) → front xs ≡ none → ◌≡◌ {A = ℕ} (length xs) 0
  front-none [] e = refl
  front-none (x ∷ xs) e = absurd (ground (arith, e))

  -- A ring that tracks a history of fewer than 2^64 - 2 events and still holds what was sent after the number asked for gives it back, if the oldest
  -- event that it holds is within the window; a terminal that missed nothing gets an empty answer
  -- whatever the age.
  pub since_reaches :
      (r : Ring Body) (h : History Body) (k now : ℕ)
      → length h + 2 < u64_mod
      → Tracks r h
      → k ≤ length h
      → length h ≤ k + r.capacity
      → ((o : Sent Body) → front r.entries ≡ some o → k < length h → now - o.at ≤ resume_window)
      → since r k now ≡ some (drop k (events h))
  unfolding since
  since_reaches r h k now small t l c young = elim (Bool-cases (add_u64 k 1 == r.next_seq)) [
    | inl done ↦
        rw done
          (ap some (sym (drop_all k (events h) (omega (arith, length-events h, caught_up done)))))
    | inr more ↦
        let missing : k < length h =
          ground (arith, more, t.next, add_u64_lem k 1 (omega (arith, l, small))) in
        let behind : leb r.next_seq k ≡ false = ground (arith, missing, t.next) in
        elim (Option-cases (front r.entries)) [
          | inl e ↦ absurd (
              omega (
                arith,
                front-none r.entries e,
                ap length t.held,
                length-drop (length h - r.capacity) (numbered 1 h),
                length-numbered 1 h,
              ))
          | inr (o, e) ↦
              let near : ltb (add_u64 k 1) o.seq ≡ false = ground (
                arith,
                add_u64_lem k 1 (omega (arith, l, small)),
                front_seq (length h - r.capacity) 1 h o (ap front (sym t.held) ∙ e),
              ) in
              let recent : ltb resume_window (now - o.at) ≡ false =
                ground (arith, young o e missing) in
              rw (more, behind, e, near, recent) (ap some (kept_missed r h k t (omega (arith, c))))
        ]
  ]
    where
      caught_up : (add_u64 k 1 == r.next_seq) ≡ true → length h ≤ k
      caught_up d = unfold add_u64 in ground (arith, d, t.next)
