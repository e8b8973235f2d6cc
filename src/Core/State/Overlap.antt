-- ===== src/Core/State/Overlap.antt =====
-- The overlap of crates/core/src/state.rs: a session is handed the current book, and then gets events
-- that were queued before and are already in it.
use mooncat.Prelude.{
  ◌≤◌, ◌≡◌, refl, ap, ◌∙◌, Bool, true, false, List, [], ◌∷◌, ◌++◌, Option, none, some, inl, inr, ℕ,
  arith, any_of, All, Bool-cases,
}
use mooncat.Domain.Decimals.{Decimals}
use mooncat.Domain.Book.{OrderBook, BookDelta, ApplyOutcome, applied, stale, gap, apply}
use mooncat.Domain.Book.Chain.{Outcome, apply-Outcome}
use mooncat.Core.State.Books.{Touch, snap, update, other, after, survivor}

module _ (D : Decimals) where
  -- The book of an instrument after some events.
  abbrev pub after_all : Option (OrderBook D) → List (Touch D) → Option (OrderBook D)
  after_all o [] = o
  after_all o (t ∷ ts) = after_all (after D o t) ts

  pub after_all-append :
      (o : Option (OrderBook D)) (ts us : List (Touch D))
      → after_all o (ts ++ us) ≡ after_all (after_all o ts) us
  after_all-append o [] us = refl
  after_all-append o (t ∷ ts) us = after_all-append (after D o t) ts us

  abbrev is_snap : Touch D → Bool
  is_snap (snap b) = true
  is_snap (update d) = false
  is_snap other = false

  -- An update that a book at update `n` has behind it.
  abbrev Behind : ℕ → Touch D → Type 0
  Behind n (snap b) = ⊥
  Behind n (update d) = d.last_update_id ≤ n
  Behind n other = Unit

  -- What a whole book was published in does not depend on the book before.
  settled :
      (ts : List (Touch D)) (o o' : Option (OrderBook D))
      → any_of is_snap ts ≡ true
      → after_all o ts ≡ after_all o' ts
  settled [] o o' h = cc
  settled (snap b ∷ ts) o o' h = refl
  settled (update d ∷ ts) o o' h = settled ts (after D o (update d)) (after D o' (update d)) h
  settled (other ∷ ts) o o' h = settled ts (after D o other) (after D o' other) h

  -- A book that outlives a delta is at or past both.
  abbrev Outlives : OrderBook D → BookDelta D → OrderBook D × ApplyOutcome → Type 0
  Outlives b d r =
      (c : OrderBook D)
      → survivor D r ≡ some c
      → (b.last_update_id ≤ c.last_update_id) × (d.last_update_id ≤ c.last_update_id)

  outlives : (b : OrderBook D) (d : BookDelta D) → Outlives b d (apply D b d)
  outlives b d = of_outcome (apply D b d) (apply-Outcome D b d)
    where
      of_outcome : (r : OrderBook D × ApplyOutcome) → Outcome D b d r → Outlives b d r
      of_outcome (x, applied) h c e = ground (arith, ap (λ (y : OrderBook D). y.last_update_id) h.1)
      of_outcome (x, stale) h c e = ground (arith, ap (λ (y : OrderBook D). y.last_update_id) h.1)
      of_outcome (x, gap m n) h c e = cc

  -- Without a whole book among the events, the book at the end was there at the start, and has them
  -- all behind it.
  all-Behind :
      (ts : List (Touch D)) (o : Option (OrderBook D)) (b : OrderBook D)
      → any_of is_snap ts ≡ false
      → after_all o ts ≡ some b
      → (a : OrderBook D) × (o ≡ some a)
        × (a.last_update_id ≤ b.last_update_id)
        × All (Behind b.last_update_id) ts
  all-Behind [] o b h e = (b, e, omega arith, tt)
  all-Behind (snap c ∷ ts) o b h e = absurd (cc)
  all-Behind (other ∷ ts) o b h e =
      let (a, p, l, rest) = all-Behind ts o b h e in (a, p, l, (tt, rest))
  all-Behind (update d ∷ ts) none b h e =
      let (a, p, l, rest) = all-Behind ts none b h e in absurd (cc)
  all-Behind (update d ∷ ts) (some a) b h e =
      let (c, p, l, rest) = all-Behind ts (survivor D (apply D a d)) b h e in
      let (x, y) = outlives a d c p in (a, refl, omega arith, (omega arith, rest))

  behind_stale :
      (b : OrderBook D) (d : BookDelta D)
      → d.last_update_id ≤ b.last_update_id
      → apply D b d ≡ (b, stale)
  unfolding apply
  behind_stale b d h = ground arith

  unmoved :
      (ts : List (Touch D)) (b : OrderBook D)
      → All (Behind b.last_update_id) ts
      → after_all (some b) ts ≡ some b
  unmoved [] b h = refl
  unmoved (snap c ∷ ts) b h = absurd h.0
  unmoved (other ∷ ts) b h = unmoved ts b h.1
  unmoved (update d ∷ ts) b h = rw (behind_stale b d h.0) (unmoved ts b h.1)

  -- The overlap resolves itself: whatever led to a book, going through it again from that book ends
  -- at it.
  pub after_all_again :
      (ts : List (Touch D)) (o : Option (OrderBook D)) (b : OrderBook D)
      → after_all o ts ≡ some b
      → after_all (some b) ts ≡ some b
  after_all_again ts o b e = elim (Bool-cases (any_of is_snap ts)) [
    | inl whole ↦ settled ts (some b) o whole ∙ e
    | inr none_whole ↦ let (a, p, l, rest) = all-Behind ts o b none_whole e in unmoved ts b rest
  ]
