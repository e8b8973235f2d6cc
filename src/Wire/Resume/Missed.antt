-- ===== src/Wire/Resume/Missed.antt =====
-- `ResumeLog` of crates/wire/src/resume.rs: what a terminal is given back, against everything that
-- was sent in the core's lifetime.
use mooncat.Prelude.{
  All-sort_by, any_of-sort_by, All-weaken, ℕ, ◌+◌, ◌<◌, ◌≡◌, refl, sym, ◌∙◌, true, List, [], ◌∷◌,
  Option, none, some, arith, ◌==◌, if◌then◌else◌, length, drop, u64_mod, All, any_of, subst,
  Bool-cases, inl, inr, ◌⊎◌, length-keep_if,
}
use mooncat.Prelude.Assoc.{get, nat_eq}
use mooncat.Wire.Channel.{Channel, resumable}
use mooncat.Wire.Event.{ServerEvent, channel}
use mooncat.Wire.Resume.{
  Ring, ResumeLog, Resumed, resumed, new, record_event, collect, add_found, since_in, sorted,
  resume,
}
use mooncat.Wire.Resume.History.{History, events}
use mooncat.Wire.Resume.Since.{since-exact}
use mooncat.Wire.Resume.Recorded.{
  on_channel, RingTracks, LogTracks, record_all, record_all-LogTracks,
}

module _ {Body : Type 0} where
  -- What was sent on a channel after a number.
  abbrev pub missed : History Body → Channel × ℕ → List (ServerEvent Body)
  missed h (c, k) = drop k (events (on_channel c.number h))

  -- The events of a replayed channel are exactly what one of the acknowledgements missed.
  abbrev pub Answered :
      History Body → List (Channel × ℕ) → Channel × List (ServerEvent Body) → Type 0
  Answered h [] p = ⊥
  Answered h ((c, k) ∷ acks) p = ((p.0 ≡ c) × (p.1 ≡ missed h (c, k))) ⊎ Answered h acks p

  -- An acknowledgement that missed nothing, or whose channel is replayed or named as lost.
  abbrev pub Accounted : History Body → Resumed Body → Channel × ℕ → Type 0
  Accounted h a (c, k) =
      (missed h (c, k) ≡ [])
      ⊎ ((any_of (λ (p : Channel × List (ServerEvent Body)). p.0.number == c.number) a.replay
            ≡ true)
          ⊎ (any_of (λ (l : Channel). l.number == c.number) a.lost ≡ true))

  add_found-Answered :
      (h : History Body) (c : Channel) (k : ℕ) (acks : List (Channel × ℕ))
      (o : Option (List (ServerEvent Body))) (rest : Resumed Body)
      → ((es : List (ServerEvent Body)) → o ≡ some es → es ≡ missed h (c, k))
      → All (Answered h ((c, k) ∷ acks)) rest.replay
      → All (Answered h ((c, k) ∷ acks)) (add_found c o rest).replay
  add_found-Answered h c k acks none rest exact all = all
  add_found-Answered h c k acks (some []) rest exact all = all
  add_found-Answered h c k acks (some (e ∷ es)) rest exact all =
      (inl (refl, exact (e ∷ es) refl), all)

  since_in-exact :
      (o : Option (Ring Body)) (h : History Body) (k now : ℕ) (es : List (ServerEvent Body))
      → length h + 2 < u64_mod
      → RingTracks o h
      → since_in o k now ≡ some es
      → es ≡ drop k (events h)
  since_in-exact none h k now es small t e = absurd (ground (arith, e))
  since_in-exact (some r) h k now es small t e = since-exact r h k now es small t e

  on_channel-small :
      (h : History Body) (c : ℕ) → length h + 2 < u64_mod → length (on_channel c h) + 2 < u64_mod
  on_channel-small h c s =
      omega (arith, s, length-keep_if (λ (p : ℕ × ServerEvent Body). (channel p.1).number == c) h)

  -- What the log gives back for one acknowledgement.
  abbrev found_for : ResumeLog Body → Channel × ℕ → ℕ → Option (List (ServerEvent Body))
  found_for log (c, k) now = if resumable c then since_in (get log.rings c.number) k now else none

  found_for-exact :
      (log : ResumeLog Body) (h : History Body) (c : Channel) (k now : ℕ)
      → length h + 2 < u64_mod
      → LogTracks log h
      → (es : List (ServerEvent Body)) → found_for log (c, k) now ≡ some es
      → es ≡ missed h (c, k)
  found_for-exact log h c k now small t es e = elim (Bool-cases (resumable c)) [
    | inl can ↦
        let given : found_for log (c, k) now ≡ since_in (get log.rings c.number) k now =
          rw can refl in
        since_in-exact _ (on_channel c.number h) k now es (on_channel-small h c.number small)
          (t c.number) (sym given ∙ e)
    | inr cannot ↦
        let no : found_for log (c, k) now ≡ none = rw cannot refl in
        absurd (ground (arith, sym no ∙ e))
  ]

  collect_head :
      (log : ResumeLog Body) (c : Channel) (k : ℕ) (acks : List (Channel × ℕ)) (now : ℕ)
      → collect log ((c, k) ∷ acks) now
        ≡ add_found c (found_for log (c, k) now) (collect log acks now)
  unfolding collect
  collect_head log c k acks now = elim (Bool-cases (resumable c)) [
    | inl can ↦ rw can refl
    | inr cannot ↦ rw cannot refl
  ]

  collect-Answered :
      (log : ResumeLog Body) (h : History Body) (acks : List (Channel × ℕ)) (now : ℕ)
      → length h + 2 < u64_mod
      → LogTracks log h
      → All (Answered h acks) (collect log acks now).replay
  collect-Answered log h [] now small t = unfold collect in tt
  collect-Answered log h ((c, k) ∷ acks) now small t =
      subst (λ (a : Resumed Body). All (Answered h ((c, k) ∷ acks)) a.replay)
        (sym (collect_head log c k acks now))
        (add_found-Answered h c k acks _ (collect log acks now)
          (found_for-exact log h c k now small t)
          (All-weaken (Answered h ((c, k) ∷ acks)) (Answered h acks) (λ p a. inr a) _
            (collect-Answered log h acks now small t)))

  -- What is in front of an answer does not take anything out of it.
  Accounted-add_found :
      (h : History Body) (c : Channel) (o : Option (List (ServerEvent Body))) (rest : Resumed Body)
      (a : Channel × ℕ)
      → Accounted h rest a
      → Accounted h (add_found c o rest) a
  Accounted-add_found h c none rest a (inl e) = inl e
  Accounted-add_found h c none rest a (inr (inl e)) = inr (inl e)
  Accounted-add_found h c none rest a (inr (inr e)) = inr (inr (ground (arith, e)))
  Accounted-add_found h c (some []) rest a r = r
  Accounted-add_found h c (some (x ∷ xs)) rest a (inl e) = inl e
  Accounted-add_found h c (some (x ∷ xs)) rest a (inr (inl e)) = inr (inl (ground (arith, e)))
  Accounted-add_found h c (some (x ∷ xs)) rest a (inr (inr e)) = inr (inr e)

  add_found-Accounted :
      (h : History Body) (c : Channel) (k : ℕ) (o : Option (List (ServerEvent Body)))
      (rest : Resumed Body)
      → ((es : List (ServerEvent Body)) → o ≡ some es → es ≡ missed h (c, k))
      → Accounted h (add_found c o rest) (c, k)
  add_found-Accounted h c k none rest exact = inr (inr (ground arith))
  add_found-Accounted h c k (some []) rest exact = inl (sym (exact [] refl))
  add_found-Accounted h c k (some (e ∷ es)) rest exact = inr (inl (ground arith))

  collect-Accounted :
      (log : ResumeLog Body) (h : History Body) (acks : List (Channel × ℕ)) (now : ℕ)
      → length h + 2 < u64_mod
      → LogTracks log h
      → All (Accounted h (collect log acks now)) acks
  collect-Accounted log h [] now small t = tt
  collect-Accounted log h ((c, k) ∷ acks) now small t =
      subst (λ (a : Resumed Body). All (Accounted h a) ((c, k) ∷ acks))
        (sym (collect_head log c k acks now))
        (
          add_found-Accounted h c k _ (collect log acks now)
              (found_for-exact log h c k now small t),
          All-weaken (Accounted h (add_found c (found_for log (c, k) now) (collect log acks now)))
              (Accounted h (collect log acks now))
              (λ a r. Accounted-add_found h c _ (collect log acks now) a r) acks
              (collect-Accounted log h acks now small t),
        )

  sorted-Accounted :
      (h : History Body) (a : Resumed Body) (p : Channel × ℕ)
      → Accounted h a p
      → Accounted h (sorted a) p
  unfolding sorted
  sorted-Accounted h a p (inl e) = inl e
  sorted-Accounted h a p (inr (inl e)) = inr (inl (any_of-sort_by _ _ a.replay ∙ e))
  sorted-Accounted h a p (inr (inr e)) = inr (inr (any_of-sort_by _ _ a.lost ∙ e))

  epoch-record_all :
      (log : ResumeLog Body) (h : History Body) → (record_all log h).epoch ≡ log.epoch
  unfolding record_event
  epoch-record_all log [] = refl
  epoch-record_all log ((at, e) ∷ h) = epoch-record_all (record_event log e at).0 h

  resume_here :
      (log : ResumeLog Body) (acks : List (Channel × ℕ)) (now : ℕ) {epoch : ℕ}
      → ◌≡◌ {A = ℕ} log.epoch epoch
      → resume log epoch acks now ≡ resumed (sorted (collect log acks now))
  unfolding resume
  resume_here log acks now {epoch} e =
      let same : (epoch == log.epoch) ≡ true = ground (arith, e) in rw same refl

  -- A terminal of this core's epoch that resumes after any history of fewer than 2^64 - 2 events gets, for each channel it names,
  -- exactly the events that were sent on that channel after the last one it saw, in order, unless it
  -- missed none or is told that the channel is lost; and no other events.
  pub resume_exact :
      (epoch : ℕ) (h : History Body) (acks : List (Channel × ℕ)) (now : ℕ)
      → length h + 2 < u64_mod
      → (a : Resumed Body) × (resume (record_all (new epoch) h) epoch acks now ≡ resumed a)
        × All (Answered h acks) a.replay
        × All (Accounted h a) acks
  unfolding new
  resume_exact epoch h acks now small =
      let log : ResumeLog Body = record_all (new epoch) h in
      let tracks : LogTracks log h =
        record_all-LogTracks (new epoch) [] h (omega (arith, small))
          (λ c. unfold new get in refl) in
      (
        sorted (collect log acks now),
        resume_here log acks now (epoch-record_all (new epoch) h),
        (unfold sorted in
            All-sort_by (λ (p : Channel × List (ServerEvent Body)). p.0.number) (Answered h acks)
              (collect log acks now).replay (collect-Answered log h acks now small tracks)),
        All-weaken (Accounted h (sorted (collect log acks now)))
            (Accounted h (collect log acks now))
            (λ p r. sorted-Accounted h (collect log acks now) p r) acks
            (collect-Accounted log h acks now small tracks),
      )
