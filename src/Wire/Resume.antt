-- ===== src/Wire/Resume.antt =====
-- crates/wire/src/resume.rs: picking a session back up after a break. An `Instant` is a number of
-- milliseconds; the rings are a map by channel number.
pub mod History
pub mod Since
pub mod Recorded
pub mod Missed
use mooncat.Prelude.{
  sort_by, ℕ, zero, suc, ◌+◌, ◌-◌, Bool, true, false, not, List, [], ◌∷◌, ◌++◌, Option, none, some,
  leb, ltb, ◌==◌, if◌then◌else◌, length, keep_if, map, add_u64, ◌||◌,
}
use mooncat.Prelude.Assoc.{get, put, nat_eq}
use mooncat.Wire.Channel.{Channel, resumable}
use mooncat.Wire.Event.{ServerEvent, channel}

abbrev pub resume_window : ℕ
resume_window = 120000

-- Events retained for each channel.
unfoldable pub ring_capacity : Channel → ℕ
ring_capacity c =
    if c.number == 1
    then 8192
    else if c.number == 2
    then 2048
    else if c.number == 4
    then 16384
    else if c.number == 5
    then 4096
    else if c.number == 10
    then 512
    else if c.number == 6 || c.number == 7
    then 256
    else 0

pub data Impossible : Type 0 where
  epoch_changed : ℕ → ℕ → Impossible
  window_exceeded unknown_session : Impossible

-- A sequence number, when it was given, and the event.
pub record Sent (Body : Type 0) : Type 0 where
  pub seq : ℕ
  pub at : ℕ
  pub event : ServerEvent Body

pub record Ring (Body : Type 0) : Type 0 where
  pub capacity : ℕ
  pub entries : List (Sent Body)
  pub next_seq : ℕ

pub record Resumed (Body : Type 0) : Type 0 where
  pub replay : List (Channel × List (ServerEvent Body))
  pub lost : List Channel

-- `Result<Resumed, Impossible>`.
pub data Answer (Body : Type 0) : Type 0 where
  resumed : Resumed Body → Answer Body
  impossible : Impossible → Answer Body

pub record ResumeLog (Body : Type 0) : Type 0 where
  pub epoch : ℕ
  pub rings : List (ℕ × Ring Body)

module _ {Body : Type 0} where
  unfoldable pub new_ring : ℕ → Ring Body
  new_ring capacity = record { capacity = capacity; entries = []; next_seq = 1 }

  -- `while entries.len() > capacity { pop_front }`, with the length as fuel.
  abbrev pub pop_front : List (Sent Body) → List (Sent Body)
  pop_front [] = []
  pop_front (x ∷ xs) = xs

  unfoldable pub trim_loop : ℕ → ℕ → List (Sent Body) → List (Sent Body)
  trim_loop zero capacity xs = xs
  trim_loop (suc fuel) capacity xs =
      let rest = trim_loop fuel capacity (pop_front xs) in
      if ltb capacity (length xs) then rest else xs

  unfoldable pub push : Ring Body → ServerEvent Body → ℕ → Ring Body × ℕ
  push r sent now =
      let grown = r.entries ++ record { seq = r.next_seq; at = now; event = sent } ∷ [] in
      (
        record r {
          entries =
              if ltb 0 r.capacity then trim_loop (length grown) r.capacity grown else r.entries;
          next_seq = add_u64 r.next_seq 1;
        },
        r.next_seq,
      )

  abbrev pub since_oldest :
      List (Sent Body) → Option (Sent Body) → ℕ → ℕ → Option (List (ServerEvent Body))
  since_oldest entries none after_seq now = none
  since_oldest entries (some oldest) after_seq now =
      if ltb (add_u64 after_seq 1) oldest.seq
      then none
      else if ltb resume_window (now - oldest.at)
      then none
      else some (map (λ (s : Sent Body). s.event) (keep_if (λ s. ltb after_seq s.seq) entries))

  abbrev pub front : List (Sent Body) → Option (Sent Body)
  front [] = none
  front (x ∷ xs) = some x

  -- Everything after `after_seq`, or `none` if the history no longer reaches that far.
  unfoldable pub since : Ring Body → ℕ → ℕ → Option (List (ServerEvent Body))
  since r after_seq now =
      if add_u64 after_seq 1 == r.next_seq
      then some []
      else if leb r.next_seq after_seq
      then none
      else since_oldest r.entries (front r.entries) after_seq now

  unfoldable pub new : ℕ → ResumeLog Body
  new epoch = record { epoch = epoch; rings = [] }

  abbrev pub ring_or_new : Option (Ring Body) → Channel → Ring Body
  ring_or_new none c = new_ring (ring_capacity c)
  ring_or_new (some r) c = r

  -- Record an outgoing event and return the sequence it was given.
  unfoldable pub record_event : ResumeLog Body → ServerEvent Body → ℕ → ResumeLog Body × ℕ
  record_event log sent now =
      let (r, seq) =
        push (ring_or_new (get log.rings (channel sent).number) (channel sent)) sent now in
      (record log { rings = put log.rings (channel sent).number r }, seq)

  abbrev pub next_of : Option (Ring Body) → ℕ
  next_of none = 1
  next_of (some r) = r.next_seq

  unfoldable pub next_seq_of : ResumeLog Body → Channel → ℕ
  next_seq_of log c = next_of (get log.rings c.number)

  abbrev pub since_in : Option (Ring Body) → ℕ → ℕ → Option (List (ServerEvent Body))
  since_in none last_seen now = none
  since_in (some r) last_seen now = since r last_seen now

  -- What one acknowledgement adds to the answer, in front of what the others add.
  abbrev pub add_found : Channel → Option (List (ServerEvent Body)) → Resumed Body → Resumed Body
  add_found c (some []) rest = rest
  add_found c (some (e ∷ es)) rest = record rest { replay = (c, e ∷ es) ∷ rest.replay }
  add_found c none rest = record rest { lost = c ∷ rest.lost }

  -- The loop over the acknowledgements, before the lists are sorted.
  unfoldable pub collect : ResumeLog Body → List (Channel × ℕ) → ℕ → Resumed Body
  collect log [] now = record { replay = []; lost = [] }
  collect log ((c, last_seen) ∷ acks) now =
      let rest = collect log acks now in
      if resumable c
      then add_found c (since_in (get log.rings c.number) last_seen now) rest
      else record rest { lost = c ∷ rest.lost }

  unfoldable pub sorted : Resumed Body → Resumed Body
  sorted a = record {
    replay = sort_by (λ (p : Channel × List (ServerEvent Body)). p.0.number) a.replay;
    lost = sort_by (λ (c : Channel). c.number) a.lost;
  }

  -- Answer a resume request.
  unfoldable pub resume : ResumeLog Body → ℕ → List (Channel × ℕ) → ℕ → Answer Body
  resume log their_epoch acks now =
      if their_epoch == log.epoch
      then resumed (sorted (collect log acks now))
      else impossible (epoch_changed their_epoch log.epoch)
