-- ===== src/Binance/Wire/Sequence.antt =====
-- The two ways in which the venue numbers its depth updates, and what `DepthUpdate::into_domain` of
-- crates/binance/src/wire.rs makes of them.
use mooncat.Prelude.{
  ℕ, suc, ◌-◌, ◌≤◌, ◌<◌, ◌≡◌, refl, ap, ◌∙◌, List, [], ◌∷◌, map, none, some, arith, max, ltb, subst,
}
use mooncat.Domain.Decimals.{Decimals}
use mooncat.Domain.Ids.{Symbol, MarketKind, spot, linear_perp, inverse_perp}
use mooncat.Domain.Time.{Timestamp}
use mooncat.Domain.Book.{BookDelta}
use mooncat.Marketdata.Books.{replay}
use mooncat.Marketdata.Books.Replay.{Unbroken, last_of, Reaches, replay_joins}
use mooncat.Binance.Wire.{DepthUpdate, DepthSnapshot, delta_of, book_of, unwrap_or}

module _ (D : Decimals) where
  -- The venue's rule for the update that follows update `p`: on spot its first id is the next one; the
  -- perpetuals name `p` outright.
  abbrev pub Next : MarketKind → ℕ → DepthUpdate D → Type 0
  Next spot p u =
      (u.prev_final_update_id ≡ none)
      × (u.first_update_id ≡ suc p)
      × (u.first_update_id ≤ u.final_update_id)
  Next linear_perp p u = (u.prev_final_update_id ≡ some p) × (p < u.final_update_id)
  Next inverse_perp p u = (u.prev_final_update_id ≡ some p) × (p < u.final_update_id)

  abbrev pub Sequenced : MarketKind → ℕ → List (DepthUpdate D) → Type 0
  Sequenced m p [] = Unit
  Sequenced m p (u ∷ us) = Next m p u × Sequenced m u.final_update_id us

  delta_of-Next :
      (m : MarketKind) (p : ℕ) (u : DepthUpdate D) (s : Symbol)
      → Next m p u
      → ((delta_of D u s).prev_update_id ≡ p) × (p < (delta_of D u s).last_update_id)
  unfolding delta_of
  delta_of-Next spot p u s (q, f, l) =
      (ap (λ o. unwrap_or o (u.first_update_id - 1)) q ∙ omega (arith, f), omega (arith, f, l))
  delta_of-Next linear_perp p u s (q, l) = (ap (λ o. unwrap_or o (u.first_update_id - 1)) q, l)
  delta_of-Next inverse_perp p u s (q, l) = (ap (λ o. unwrap_or o (u.first_update_id - 1)) q, l)

  abbrev pub deltas_of : Symbol → List (DepthUpdate D) → List (BookDelta D)
  deltas_of s us = map (λ u. delta_of D u s) us

  deltas_of-Unbroken :
      (m : MarketKind) (p : ℕ) (us : List (DepthUpdate D)) (s : Symbol)
      → Sequenced m p us
      → Unbroken D p (deltas_of s us)
  unfolding delta_of
  deltas_of-Unbroken m p [] s h = tt
  deltas_of-Unbroken m p (u ∷ us) s h =
      let (q, l) = delta_of-Next m p u s h.0 in
      (q, l, deltas_of-Unbroken m u.final_update_id us s h.1)

  -- The id of the last update.
  abbrev pub last_id : ℕ → List (DepthUpdate D) → ℕ
  last_id p [] = p
  last_id p (u ∷ us) = last_id u.final_update_id us

  last_id-last_of :
      (p : ℕ) (us : List (DepthUpdate D)) (s : Symbol) → last_of D p (deltas_of s us) ≡ last_id p us
  unfolding delta_of
  last_id-last_of p [] s = refl
  last_id-last_of p (u ∷ us) s = last_id-last_of u.final_update_id us s

  -- On either market, an unbroken stream of updates that starts at or before a snapshot is replayed
  -- onto it without a gap. The book is then at the later of the two, and live exactly if the stream
  -- goes past the snapshot.
  pub book_of-replay :
      (m : MarketKind) (d : DepthSnapshot D) (s : Symbol) (ts : Timestamp) (p : ℕ)
      (us : List (DepthUpdate D))
      → p ≤ d.last_update_id
      → Sequenced m p us
      → Reaches D
          (replay D (book_of D d s ts) (deltas_of s us))
          (max d.last_update_id (last_id p us))
          (ltb d.last_update_id (last_id p us))
  unfolding book_of
  book_of-replay m d s ts p us l h =
      subst
        (λ n.
          Reaches D (replay D (book_of D d s ts) (deltas_of s us)) (max d.last_update_id n)
            (ltb d.last_update_id n))
        (last_id-last_of p us s)
        (replay_joins D (book_of D d s ts) p (deltas_of s us) refl l
          (deltas_of-Unbroken m p us s h))
