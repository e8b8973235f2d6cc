-- ===== src/Marketdata/Books/Requests.antt =====
-- When a snapshot is asked for (`request_snapshot` of crates/marketdata/src/books.rs).
use mooncat.Prelude.{
  ℕ, ◌+◌, ◌≤◌, ◌<◌, ◌≡◌, refl, sym, ap, ◌∙◌, true, false, List, [], ◌∷◌, ◌++◌, none, some, arith,
  length, length-append, suc, leb, map, Bool-cases, inl, inr,
}
use mathlib.Core.List.{append-nil, append_assoc}
use mooncat.Prelude.Int.{ℤ}
use mooncat.Domain.Decimals.{Decimals}
use mooncat.Domain.Time.{Timestamp}
use mooncat.Domain.Book.{BookDelta}
use mooncat.Marketdata.Books.{
  Entry, Need, nothing, snapshot, buffer, request_snapshot, requested_within, hold, feed,
  max_buffered, request_deadline_ms,
}

module _ (D : Decimals) where
  -- Feeding a run of deltas to an entry: the entry after them, and the requests made on the way.
  abbrev requests : Need → ℕ → ℕ
  requests nothing n = n
  requests (snapshot s) n = suc n

  pub feed_all : Entry D → List (BookDelta D × Timestamp) → ℤ → Entry D × ℕ
  feed_all e [] c = (e, 0)
  feed_all e ((d, now) ∷ ds) c =
      let (e', out) = feed D e e.book d now c in
      let (e'', n) = feed_all e' ds c in (e'', requests out.need n)

  -- Every delta of the run comes within both bounds of the request made at `at`.
  abbrev pub AllWithin : Timestamp → ℤ → List (BookDelta D × Timestamp) → Type 0
  AllWithin at c [] = Unit
  AllWithin at c ((d, now) ∷ ds) =
      (requested_within D (some at) now request_deadline_ms ≡ true)
      × (requested_within D (some at) now c ≡ true)
      × AllWithin at c ds

  request_refused :
      (e : Entry D) (at now : Timestamp) (c : ℤ)
      → e.requested_at ≡ some at
      → requested_within D (some at) now request_deadline_ms ≡ true
      → requested_within D (some at) now c ≡ true
      → request_snapshot D e now c ≡ (e, nothing)
  unfolding request_snapshot
  request_refused e at now c r h k = elim (Bool-cases e.awaiting) [
    | inl w ↦ rw w (rw r (rw h refl))
    | inr w ↦ rw w (rw r (rw k refl))
  ]

  buffer_room :
      (e : Entry D) (d : BookDelta D)
      → length e.buffered < max_buffered
      → buffer D e d ≡ record e { buffered = e.buffered ++ d ∷ [] }
  unfolding buffer
  buffer_room e d h = rw (lt→leb_false _ _ h) refl
    where
      lt→leb_false : (a b : ℕ) → a < b → leb b a ≡ false
      lt→leb_false a b h = ground arith

  feed_quiet :
      (e : Entry D) (d : BookDelta D) (at now : Timestamp) (c : ℤ)
      → e.book ≡ none
      → e.requested_at ≡ some at
      → length e.buffered < max_buffered
      → requested_within D (some at) now request_deadline_ms ≡ true
      → requested_within D (some at) now c ≡ true
      → feed D e e.book d now c ≡ (
        record e { buffered = e.buffered ++ d ∷ [] },
        record { need = nothing; forward = false; attached = false },
      )
  feed_quiet e d at now c n r l h k =
      ap (λ o. feed D e o d now c) n
      ∙ (unfold feed hold in
          rw (buffer_room e d l) (
            rw (request_refused (record e { buffered = e.buffered ++ d ∷ [] }) at now c r h k)
              refl))

  -- Within the cooldown and the deadline of a request, a run of deltas for an entry without a book
  -- makes no further request and keeps every delta, as long as the backlog has room for them.
  pub feed_all_quiet :
      (e : Entry D) (ds : List (BookDelta D × Timestamp)) (at : Timestamp) (c : ℤ)
      → e.book ≡ none
      → e.requested_at ≡ some at
      → length e.buffered + length ds ≤ max_buffered
      → AllWithin at c ds
      → ((feed_all e ds c).1 ≡ 0)
        × ((feed_all e ds c).0.buffered
            ≡ e.buffered ++ map (λ (p : BookDelta D × Timestamp). p.0) ds)
  unfolding feed_all
  feed_all_quiet e [] at c n r l w = (refl, sym (append-nil e.buffered))
  feed_all_quiet e ((d, now) ∷ ds) at c n r l w =
      let next : Entry D = record e { buffered = e.buffered ++ d ∷ [] } in
      let quiet : feed D e e.book d now c
          ≡ (next, record { need = nothing; forward = false; attached = false }) =
        feed_quiet e d at now c n r (omega arith) w.0 w.1 in
      let rest : ((feed_all next ds c).1 ≡ 0)
          × ((feed_all next ds c).0.buffered
              ≡ next.buffered ++ map (λ (p : BookDelta D × Timestamp). p.0) ds) =
        feed_all_quiet next ds at c n r (omega (arith, length-append e.buffered (d ∷ []))) w.2 in
      rw quiet (rest.0, rest.1 ∙ append_assoc e.buffered (d ∷ []) _)
