-- ===== src/Wire/Resume/History.antt =====
-- A ring of crates/wire/src/resume.rs against the whole history of what was sent on its channel.
use mooncat.Prelude.{
  drop-[], drop-append, drop-drop, drop_all, ℕ, zero, suc, ◌+◌, ◌-◌, ◌≤◌, ◌<◌, ◌≡◌, refl, sym, ap,
  ◌∙◌, false, List, [], ◌∷◌, ◌++◌, arith, ltb, length, map, drop, add_u64, u64_mod, length-append,
  length-drop, Bool-cases, inl, inr,
}
use mooncat.Wire.Event.{ServerEvent}
use mooncat.Wire.Resume.{Sent, Ring, new_ring, trim_loop, pop_front, push}

no_more : (capacity : ℕ) → ltb capacity 0 ≡ false
no_more capacity = ground arith

-- What was sent, oldest first, each with its time.
abbrev pub History : Type 0 → Type 0
History Body = List (ℕ × ServerEvent Body)

module _ {Body : Type 0} where
  abbrev pub events : History Body → List (ServerEvent Body)
  events h = map (λ (p : ℕ × ServerEvent Body). p.1) h

  -- The history numbered from `n`.
  abbrev pub numbered : ℕ → History Body → List (Sent Body)
  numbered n [] = []
  numbered n ((at, e) ∷ h) = record { seq = n; at = at; event = e } ∷ numbered (suc n) h

  -- The ring holds the end of the history, as much as its capacity allows, under its numbers.
  pub record Tracks (r : Ring Body) (h : History Body) : Type 0 where
    pub next : r.next_seq ≡ length h + 1
    pub held : r.entries ≡ drop (length h - r.capacity) (numbered 1 h)

  drop_one : (n : ℕ) (xs : List (Sent Body)) → drop n (pop_front xs) ≡ drop (suc n) xs
  drop_one n [] = drop-[] n
  drop_one n (x ∷ xs) = refl

  trim_loop-drop :
      (fuel capacity : ℕ) (xs : List (Sent Body))
      → length xs ≤ fuel
      → trim_loop fuel capacity xs ≡ drop (length xs - capacity) xs
  unfolding trim_loop
  trim_loop-drop zero capacity [] h = sym (drop-[] (0 - capacity))
  trim_loop-drop zero capacity (x ∷ xs) h = absurd (omega (arith, h))
  trim_loop-drop (suc fuel) capacity [] h = rw (no_more capacity) (sym (drop-[] (0 - capacity)))
  trim_loop-drop (suc fuel) capacity (x ∷ xs) h =
      elim (Bool-cases (ltb capacity (suc (length xs)))) [
        | inl e ↦ rw e (
            trim_loop-drop fuel capacity xs (omega (arith, h))
            ∙ ap (λ n. drop n (x ∷ xs))
                (let past : suc (length xs - capacity) ≡ suc (length xs) - capacity =
                    ground (arith, e) in
                  past))
        | inr e ↦
            let fits : ◌≡◌ {A = ℕ} (suc (length xs) - capacity) 0 = ground (arith, e) in
            rw (e, fits) refl
      ]

  pub numbered-append :
      (n : ℕ) (h : History Body) (at : ℕ) (e : ServerEvent Body)
      → numbered n (h ++ (at, e) ∷ [])
        ≡ numbered n h ++ record { seq = n + length h; at = at; event = e } ∷ []
  numbered-append n [] at e = ap (λ k. record { seq = k; at = at; event = e } ∷ []) (omega arith)
  numbered-append n ((t, f) ∷ h) at e =
      ap (λ (xs : List (Sent Body)). record { seq = n; at = t; event = f } ∷ xs)
        (numbered-append (suc n) h at e
          ∙ ap (λ k. numbered (suc n) h ++ record { seq = k; at = at; event = e } ∷ [])
              (omega arith))

  pub drop-numbered :
      (k n : ℕ) (h : History Body) → drop k (numbered n h) ≡ numbered (n + k) (drop k h)
  drop-numbered zero n h = ap (λ m. numbered m h) (omega arith)
  drop-numbered (suc k) n [] = refl
  drop-numbered (suc k) n ((t, f) ∷ h) =
      drop-numbered k (suc n) h ∙ ap (λ m. numbered m (drop k h)) (omega arith)

  pub length-numbered : (n : ℕ) (h : History Body) → length (numbered n h) ≡ length h
  length-numbered n [] = refl
  length-numbered n ((t, f) ∷ h) = ap suc (length-numbered (suc n) h)

  -- The ring after one more event.
  grown_held :
      (r : Ring Body) (h : History Body) (at : ℕ) (e : ServerEvent Body)
      → Tracks r h
      → r.entries ++ record { seq = r.next_seq; at = at; event = e } ∷ []
        ≡ drop (length h - r.capacity) (numbered 1 (h ++ (at, e) ∷ []))
  grown_held r h at e t =
      ap (λ xs. xs ++ record { seq = r.next_seq; at = at; event = e } ∷ []) t.held
      ∙ sym (
          drop-append (length h - r.capacity) (numbered 1 h) _ (omega (arith, length-numbered 1 h)))
      ∙ ap
          (λ k.
            drop (length h - r.capacity)
              (numbered 1 h ++ record { seq = k; at = at; event = e } ∷ []))
          (omega (arith, t.next))
      ∙ ap (drop (length h - r.capacity)) (sym (numbered-append 1 h at e))

  pushed_held :
      (r : Ring Body) (h : History Body) (at : ℕ) (e : ServerEvent Body)
      → Tracks r h
      → (push r e at).0.entries
        ≡ drop (length (h ++ (at, e) ∷ []) - r.capacity) (numbered 1 (h ++ (at, e) ∷ []))
  unfolding push
  pushed_held r h at e t = elim (Bool-cases (ltb 0 r.capacity)) [
    | inl some_room ↦
        let grown : List (Sent Body) =
          r.entries ++ record { seq = r.next_seq; at = at; event = e } ∷ [] in
        let whole : List (Sent Body) = numbered 1 (h ++ (at, e) ∷ []) in
        let j : ℕ = length h - r.capacity in
        rw some_room (
          trim_loop-drop (length grown) r.capacity grown (omega arith)
          ∙ ap (λ xs. drop (length xs - r.capacity) xs) (grown_held r h at e t)
          ∙ drop-drop (length (drop j whole) - r.capacity) j whole
          ∙ ap (λ n. drop n whole)
              (omega (
                arith,
                length-drop j whole,
                length-numbered 1 (h ++ (at, e) ∷ []),
                length-append h ((at, e) ∷ []),
              )))
    | inr no_room ↦ rw no_room (
        t.held
        ∙ drop_all _ (numbered 1 h) (ground (arith, no_room, length-numbered 1 h))
        ∙ sym (
            drop_all _ (numbered 1 (h ++ (at, e) ∷ []))
              (ground (arith, no_room, length-numbered 1 (h ++ (at, e) ∷ [])))))
  ]

  pub new_ring-Tracks : (capacity : ℕ) → Tracks (new_ring capacity) []
  unfolding new_ring
  new_ring-Tracks capacity = record { next = omega arith; held = sym (drop-[] (0 - capacity)) }

  -- One more event keeps the ring at the end of the history, and its number is its place in it.
  pub push-Tracks :
      (r : Ring Body) (h : History Body) (at : ℕ) (e : ServerEvent Body)
      → length h + 2 < u64_mod
      → Tracks r h
      → Tracks (push r e at).0 (h ++ (at, e) ∷ [])
  unfolding push
  push-Tracks r h at e small t = record {
    next = unfold add_u64 in omega (arith, t.next, length-append h ((at, e) ∷ []));
    held = pushed_held r h at e t;
  }
