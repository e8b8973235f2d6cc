-- ===== src/Marketdata/Books/Replay.antt =====
-- The replay of buffered deltas onto a snapshot (`install_snapshot` of
-- crates/marketdata/src/books.rs): when it joins the stream, and when the snapshot is too old.
use mooncat.Prelude.{
  ℕ, ◌≤◌, ◌<◌, ◌≡◌, refl, sym, ◌∙◌, Bool, true, false, List, [], ◌∷◌, Option, none, some, arith,
  ltb, leb, max, lt→ltb, leb→le, leb-false→lt, Bool-cases, inl, inr,
}
use mooncat.Domain.Decimals.{Decimals}
use mooncat.Domain.Book.{OrderBook, BookDelta, applied, stale, gap, apply, continues}
use mooncat.Domain.Book.Chain.{updated, apply-Follows}
use mooncat.Marketdata.Books.{replay}

module _ (D : Decimals) where
  -- An unbroken piece of the venue's stream, after update `p`.
  abbrev pub Unbroken : ℕ → List (BookDelta D) → Type 0
  Unbroken p [] = Unit
  Unbroken p (d ∷ ds) =
      (d.prev_update_id ≡ p) × (p < d.last_update_id) × Unbroken d.last_update_id ds

  abbrev pub last_of : ℕ → List (BookDelta D) → ℕ
  last_of p [] = p
  last_of p (d ∷ ds) = last_of d.last_update_id ds

  -- The replay came through, to a book at an update id, synced or not.
  abbrev pub Reaches : Option (OrderBook D) → ℕ → Bool → Type 0
  Reaches none n s = ⊥
  Reaches (some b) n s = (b.last_update_id ≡ n) × (b.synced ≡ s)

  last_of-le : (p : ℕ) (ds : List (BookDelta D)) → Unbroken p ds → p ≤ last_of p ds
  last_of-le p [] h = omega arith
  last_of-le p (d ∷ ds) h = omega (arith, last_of-le d.last_update_id ds h.2)

  replay_on_applied :
      (b c : OrderBook D) (d : BookDelta D) (ds : List (BookDelta D))
      → apply D b d ≡ (c, applied)
      → replay D b (d ∷ ds) ≡ replay D c ds
  unfolding replay
  replay_on_applied b c d ds h = rw h refl

  replay_on_stale :
      (b c : OrderBook D) (d : BookDelta D) (ds : List (BookDelta D))
      → apply D b d ≡ (c, stale)
      → replay D b (d ∷ ds) ≡ replay D c ds
  unfolding replay
  replay_on_stale b c d ds h = rw h refl

  replay_on_gap :
      (b c : OrderBook D) (d : BookDelta D) (ds : List (BookDelta D)) (x y : ℕ)
      → apply D b d ≡ (c, gap x y)
      → replay D b (d ∷ ds) ≡ none
  unfolding replay
  replay_on_gap b c d ds x y h = rw h refl

  apply_stale :
      (b : OrderBook D) (d : BookDelta D)
      → d.last_update_id ≤ b.last_update_id
      → apply D b d ≡ (b, stale)
  unfolding apply
  apply_stale b d h = ground arith

  apply_ahead :
      (b : OrderBook D) (d : BookDelta D)
      → b.last_update_id < d.prev_update_id
      → d.prev_update_id < d.last_update_id
      → apply D b d ≡ (b, gap b.last_update_id d.prev_update_id)
  unfolding apply continues
  apply_ahead b d h k = ground arith

  replay_synced :
      (b : OrderBook D) (p : ℕ) (ds : List (BookDelta D))
      → b.synced ≡ true
      → b.last_update_id ≡ p
      → Unbroken p ds
      → Reaches (replay D b ds) (last_of p ds) true
  replay_synced b p [] s e u = unfold replay in (e, s)
  replay_synced b p (d ∷ ds) s e u =
      rw
        (replay_on_applied b (updated D b d) d ds
          (apply-Follows D b d (omega (arith, u.1, e), inl (s, u.0 ∙ sym e))))
        (replay_synced (updated D b d) d.last_update_id ds refl refl u.2)

  reach_max :
      (o : Option (OrderBook D)) (n m : ℕ)
      → n < m
      → Reaches o m true
      → Reaches o (max n m) (ltb n m)
  reach_max none n m h r = absurd r
  reach_max (some b) n m h r = (omega (arith, r.0), r.1 ∙ sym (lt→ltb n m h))

  -- An unbroken stream that starts at or before the snapshot replays without a gap, and leaves the
  -- book at the later of the two. The book has joined exactly when the stream goes past the snapshot.
  pub replay_joins :
      (b : OrderBook D) (p : ℕ) (ds : List (BookDelta D))
      → b.synced ≡ false
      → p ≤ b.last_update_id
      → Unbroken p ds
      → Reaches
          (replay D b ds)
          (max b.last_update_id (last_of p ds))
          (ltb b.last_update_id (last_of p ds))
  replay_joins b p [] s e u =
      unfold replay in (omega arith, s ∙ sym (not_past b.last_update_id p e))
    where
      not_past : (n m : ℕ) → m ≤ n → ltb n m ≡ false
      not_past n m h = ground arith
  replay_joins b p (d ∷ ds) s e u = elim (Bool-cases (leb d.last_update_id b.last_update_id)) [
    | inl old ↦
        rw (replay_on_stale b b d ds (apply_stale b d (leb→le _ _ old)))
          (replay_joins b d.last_update_id ds s (leb→le _ _ old) u.2)
    | inr new ↦
        let past : b.last_update_id < d.last_update_id = leb-false→lt _ _ new in
        rw
          (replay_on_applied b (updated D b d) d ds
            (apply-Follows D b d (past, inr (s, omega (arith, u.0)))))
          (reach_max _ b.last_update_id (last_of d.last_update_id ds)
            (omega (arith, last_of-le d.last_update_id ds u.2))
            (replay_synced (updated D b d) d.last_update_id ds refl refl u.2))
  ]

  -- A stream that starts after an unsynced snapshot is refused at its first delta.
  pub replay_too_old :
      (b : OrderBook D) (d : BookDelta D) (ds : List (BookDelta D))
      → b.last_update_id < d.prev_update_id
      → d.prev_update_id < d.last_update_id
      → replay D b (d ∷ ds) ≡ none
  replay_too_old b d ds h k = replay_on_gap b b d ds _ _ (apply_ahead b d h k)
