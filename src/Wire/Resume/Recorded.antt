-- ===== src/Wire/Resume/Recorded.antt =====
-- `ResumeLog` of crates/wire/src/resume.rs: each ring tracks what was sent on its channel.
use mooncat.Prelude.{
  append-nil, append_assoc, ℕ, ◌+◌, ◌<◌, ◌≡◌, refl, sym, ap, ◌∙◌, Bool, true, false, [], ◌∷◌, ◌++◌,
  Option, none, some, arith, ◌==◌, ==_iff, if◌then◌else◌, length, keep_if, u64_mod, subst,
  Bool-cases, inl, inr, length-keep_if, length-append,
}
use mooncat.Prelude.Assoc.{get, get-put, nat_eq}
use mooncat.Wire.Channel.{Channel}
use mooncat.Wire.Event.{ServerEvent, channel}
use mooncat.Wire.Resume.{Ring, ResumeLog, ring_capacity, ring_or_new, push, record_event}
use mooncat.Wire.Resume.History.{History, Tracks, new_ring-Tracks, push-Tracks}

module _ {Body : Type 0} where
  -- The part of the history that went out on a channel.
  abbrev pub on_channel : ℕ → History Body → History Body
  on_channel c h = keep_if (λ (p : ℕ × ServerEvent Body). (channel p.1).number == c) h

  -- A ring, or the absence of one, for what was sent on its channel.
  abbrev pub RingTracks : Option (Ring Body) → History Body → Type 0
  RingTracks none h = h ≡ []
  RingTracks (some r) h = Tracks r h

  -- Every ring of the log tracks its channel.
  abbrev pub LogTracks : ResumeLog Body → History Body → Type 0
  LogTracks log h = (c : ℕ) → RingTracks (get log.rings c) (on_channel c h)

  -- Everything that is sent is recorded, at its time.
  abbrev pub record_all : ResumeLog Body → History Body → ResumeLog Body
  record_all log [] = log
  record_all log ((at, e) ∷ h) = record_all (record_event log e at).0 h

  on_channel-append :
      (c : ℕ) (h : History Body) (p : ℕ × ServerEvent Body)
      → on_channel c (h ++ p ∷ [])
        ≡ (if (channel p.1).number == c then on_channel c h ++ p ∷ [] else on_channel c h)
  on_channel-append c [] p = refl
  on_channel-append c (q ∷ h) p = elim (Bool-cases ((channel q.1).number == c)) [
    | inl in_front ↦ rw in_front (
        ap (λ xs. q ∷ xs) (on_channel-append c h p)
        ∙ cons_if ((channel p.1).number == c) q (on_channel c h) p)
    | inr not_in ↦ rw not_in (on_channel-append c h p)
  ]
    where
      cons_if :
          (b : Bool) (q : ℕ × ServerEvent Body) (xs : History Body) (p : ℕ × ServerEvent Body)
          → q ∷ (if b then xs ++ p ∷ [] else xs) ≡ (if b then q ∷ xs ++ p ∷ [] else q ∷ xs)
      cons_if true q xs p = refl
      cons_if false q xs p = refl

  Tracks-or_new :
      (o : Option (Ring Body)) (c : Channel) (h : History Body)
      → RingTracks o h
      → Tracks (ring_or_new o c) h
  Tracks-or_new none c h e = rw e (new_ring-Tracks (ring_capacity c))
  Tracks-or_new (some r) c h t = t

  record_event-LogTracks :
      (log : ResumeLog Body) (h : History Body) (at : ℕ) (e : ServerEvent Body)
      → length h + 2 < u64_mod
      → LogTracks log h
      → LogTracks (record_event log e at).0 (h ++ (at, e) ∷ [])
  unfolding record_event
  record_event-LogTracks log h at e small t c = elim (Bool-cases ((channel e).number == c)) [
    | inl same ↦
        let here : (channel e).number ≡ c = (==_iff _ _).0 same in
        rw
          (
            get-put log.rings (channel e).number c
                (push (ring_or_new (get log.rings (channel e).number) (channel e)) e at).0,
            same,
            on_channel-append c h (at, e),
            same,
          )
          (subst
            (λ m.
              Tracks (push (ring_or_new (get log.rings (channel e).number) (channel e)) e at).0
                (on_channel m h ++ (at, e) ∷ []))
            here
            (push-Tracks _ (on_channel (channel e).number h) at e
              (omega (
                arith,
                small,
                length-keep_if
                    (λ (p : ℕ × ServerEvent Body). (channel p.1).number == (channel e).number) h,
              ))
              (Tracks-or_new _ (channel e) _ (t (channel e).number))))
    | inr other ↦
        rw
          (
            get-put log.rings (channel e).number c
                (push (ring_or_new (get log.rings (channel e).number) (channel e)) e at).0,
            other,
            on_channel-append c h (at, e),
            other,
          )
          (t c)
  ]

  -- Recording a history into a new log makes it track that history.
  pub record_all-LogTracks :
      (log : ResumeLog Body) (before h : History Body)
      → length before + length h + 1 < u64_mod
      → LogTracks log before
      → LogTracks (record_all log h) (before ++ h)
  record_all-LogTracks log before [] small t = subst (LogTracks log) (sym (append-nil before)) t
  record_all-LogTracks log before ((at, e) ∷ h) small t =
      subst (LogTracks (record_all (record_event log e at).0 h))
        (append_assoc before ((at, e) ∷ []) h)
        (record_all-LogTracks (record_event log e at).0 (before ++ (at, e) ∷ []) h
          (omega (arith, small, length-append before ((at, e) ∷ [])))
          (record_event-LogTracks log before at e (omega (arith, small)) t))
