-- ===== src/Wire/Tests.antt =====
-- Concrete runs of the wire model (crates/wire/src).
use mooncat.Prelude.{
  ℕ, ◌≤◌, ◌≡◌, ◌+◌, ◌*◌, refl, true, List, [], ◌∷◌, none, some, arith, inl, inr, length,
}
use mooncat.Prelude.Assoc.{get, put, nat_eq}
use mooncat.Wire.Channel.{account}
use mooncat.Wire.Event.{ServerEvent, command_ack, done, is_final}
use mooncat.Wire.Command.{trader, viewer}
use mooncat.Wire.Envelope.{ClientEnvelope, SkipCounters}
use mooncat.Wire.Idempotency.{
  ReqRing, admit, complete, running, claim, evict_loop, evict_if_full, new as new_ring,
}
use mooncat.Wire.Idempotency.Once.{
  Op, arrive, finish, executions, executions-le-one, new-Inv, Monotone,
}
use mooncat.Wire.Heartbeat.{Heartbeat, is_dead, new as new_heartbeat}
use mooncat.Wire.Heartbeat.Liveness.{send_all, beats, last_time, OnTime, detection_time, Inv}
use mooncat.Wire.Admission.{Gatekeeper, LiveSession, new as new_gate, open_session, sessions_of}
use mooncat.Wire.Admission.Handshake.{tries, tries_le}
use mooncat.Wire.Admission.Sessions.{Keyed, sessions_of-open_session}
use mooncat.Prelude.{All, drop}
use mooncat.Wire.Channel.{tape}
use mooncat.Wire.Event.{event, fill, trades}
use mooncat.Wire.Resume.{Resumed, resume, resumed, Ring, since, new as new_log}
use mooncat.Wire.Resume.Since.{since_reaches}
use mooncat.Wire.Resume.Recorded.{record_all}
use mooncat.Wire.Resume.History.{History, Tracks, events}
use mooncat.Wire.Resume.Missed.{Answered, Accounted, resume_exact}
use mooncat.Wire.Batch.{new as new_batcher}
use mooncat.Wire.Batch.Conserved.{Op as BatchOp, offer, due, close, Inv as BatchInv}
use mooncat.Prelude.{zero, suc, Option}
use mooncat.Wire.Frame.Trip.{take}
use mooncat.Prelude.{String, false, false, if◌then◌else◌}
use mooncat.Domain.Ids.{Symbol, binance, key, spot}
use mooncat.Domain.Registry.{new as new_registry}
use mooncat.Wire.Subscription.{
  Subscription, Subscriptions, consider, consider_all, book, trades as trades_of, symbol_of,
  same_symbol, subscribe, wants,
}
use mooncat.Wire.Subscription.{new as new_subscriptions}
use mooncat.Wire.Subscription.Gated.{Request, ask, announce}
use mooncat.Wire.Subscription.Inert.{wants-subscribe}

-- A request with a retry while it runs, its acknowledgement, a retry after it, and a new request.
abbrev ack : ServerEvent ℕ
ack = command_ack 7 done 0

abbrev retries : List (Op ℕ)
retries = arrive 7 ∷ arrive 7 ∷ finish 7 ack ∷ arrive 7 ∷ arrive 8 ∷ []

retries_run : ◌≡◌ {A = ℕ} (executions 7 new_ring retries) 1
unfolding executions admit claim evict_if_full evict_loop complete is_final get put
retries_run = refl

retries-Monotone : Monotone new_ring retries
unfolding admit claim evict_if_full evict_loop complete is_final get put
retries-Monotone = (
  inr (tt, omega arith),
  (
    inl (inl (λ k. absurd (ground (arith, k)))),
    (tt, (inl (inl (λ k. absurd (ground (arith, k)))), (inr (omega arith, omega arith), tt))),
  ),
)

executions-le-one_example : executions 7 new_ring retries ≤ 1
executions-le-one_example = executions-le-one new_ring retries 7 new-Inv retries-Monotone

-- The ring while request 7 runs.
abbrev busy : ReqRing ℕ
busy = record {
  order = 7 ∷ [];
  records = (7, running) ∷ [];
  high_water = some 7;
  evicted_below = none;
}

detection_time_example :
    OnTime (new_heartbeat 2000 3) (100 ∷ beats 2000 100 3)
    × (is_dead (send_all (new_heartbeat 2000 3) (100 ∷ beats 2000 100 3)) ≡ true)
    × (last_time 100 (beats 2000 100 3) ≡ 100 + 2000 * 3)
detection_time_example = detection_time 2000 3 100 (omega arith)

-- A heartbeat that has missed two pings.
abbrev slow : Heartbeat
slow = record (new_heartbeat 2000 3) {
  in_flight = some (3, 4000);
  recently_sent = 1 ∷ 2 ∷ 3 ∷ [];
  next_nonce = 4;
  consecutive_misses = 2;
}

slow-Inv : Inv slow
unfolding new_heartbeat
slow-Inv = record {
  sent = (omega arith, (omega arith, (omega arith, tt)));
  awaited = omega arith;
  bounded = omega arith;
}

-- Seven failures within a second from one address, and none from another.
tries_le_example : tries new_gate 1 (0 ∷ 100 ∷ 200 ∷ 300 ∷ 400 ∷ 500 ∷ 600 ∷ []) ≤ 5
tries_le_example =
    tries_le 0 1 new_gate (0 ∷ 100 ∷ 200 ∷ 300 ∷ 400 ∷ 500 ∷ 600 ∷ []) (unfold get in refl) (
      (omega arith, omega arith),
      (
        (omega arith, omega arith),
        (
          (omega arith, omega arith),
          (
            (omega arith, omega arith),
            (
              (omega arith, omega arith),
              ((omega arith, omega arith), ((omega arith, omega arith), tt)),
            ),
          ),
        ),
      ),
    )

abbrev session_at : ℕ → ℕ × LiveSession
session_at n = (n, record { id = n; device = 5; peer = 1; role = trader; opened_at = n })

-- A device at its cap, and another device.
abbrev full : Gatekeeper
full = record {
  attempts = [];
  sessions =
      session_at 1
      ∷ session_at 2
      ∷ session_at 3
      ∷ session_at 4
      ∷ (6, record { id = 6; device = 9; peer = 1; role = viewer; opened_at = 2 })
      ∷ [];
  next_session = 7;
}

full-Keyed : Keyed full.sessions
full-Keyed = (refl, (refl, (refl, (refl, (refl, tt)))))

sessions_of-open_session_example :
    (length (sessions_of (open_session full 5 1 trader 10).0.sessions 5) ≤ 4)
    × Keyed (open_session full 5 1 trader 10).0.sessions
sessions_of-open_session_example = sessions_of-open_session 5 full 1 trader 10 full-Keyed

abbrev envelope : ClientEnvelope ℕ
envelope = record { channel = account; req = 3; ver = 0; msg = 42 }

abbrev counters : SkipCounters
counters = record {
  skipped_future_version = 2;
  skipped_unknown_channel = 1;
  skipped_unknown_variant = 0;
}

-- Two events on the account channel and one on the tape.
abbrev sent : History ℕ
sent = (10, ack) ∷ (20, event fill 1) ∷ (30, event trades 2) ∷ []

resume_exact_example :
    (a : Resumed ℕ) × (resume (record_all (new_log 3) sent) 3 ((account, 1) ∷ (tape, 1) ∷ []) 40
      ≡ resumed a)
    × All (Answered sent ((account, 1) ∷ (tape, 1) ∷ [])) a.replay
    × All (Accounted sent a) ((account, 1) ∷ (tape, 1) ∷ [])
resume_exact_example = resume_exact 3 sent ((account, 1) ∷ (tape, 1) ∷ []) 40 (omega arith)

-- A ring of two after three events.
abbrev ring : Ring ℕ
ring = record {
  capacity = 2;
  entries =
      record { seq = 2; at = 20; event = event fill 1 }
      ∷ record { seq = 3; at = 30; event = event trades 2 }
      ∷ [];
  next_seq = 4;
}

ring-Tracks : Tracks ring sent
ring-Tracks = record { next = omega arith; held = refl }

since_reaches_example : since ring 1 40 ≡ some (drop 1 (events sent))
since_reaches_example =
    since_reaches ring sent 1 40 (omega arith) ring-Tracks (omega arith) (omega arith)
      (λ o e missing. let first : ◌≡◌ {A = ℕ} 20 o.at = cc in omega (arith, first))

-- Three quotes and a closing connection.
abbrev quotes : List BatchOp
quotes =
    offer tape (1 ∷ []) 0 ∷ offer tape (2 ∷ 3 ∷ []) 1 ∷ due 3 ∷ offer tape (4 ∷ []) 6 ∷ close ∷ []

-- A compressor for runs of zeros: their number stands for them.
abbrev zeros : ℕ → List ℕ
zeros zero = []
zeros (suc n) = 0 ∷ zeros n

abbrev count_one : Option ℕ → Option ℕ
count_one none = none
count_one (some n) = some (suc n)

abbrev run_of_zeros : List ℕ → Option ℕ
run_of_zeros [] = some 0
run_of_zeros (zero ∷ xs) = count_one (run_of_zeros xs)
run_of_zeros (suc b ∷ xs) = none

abbrev as_run : Option ℕ → Option (List ℕ)
as_run none = none
as_run (some n) = some (n ∷ [])

abbrev squeeze : List ℕ → Option (List ℕ)
squeeze body = as_run (run_of_zeros body)

abbrev unsqueeze : List ℕ → ℕ → Option (List ℕ)
unsqueeze (m ∷ []) n = some (take n (zeros m))
unsqueeze _ n = none

abbrev instrument : String → Symbol
instrument raw = record { exchange = binance; market = spot; raw = raw }

-- Only one instrument is tradable.
abbrev listed : Symbol → Option String
listed s = if same_symbol s (instrument "BTCUSDT") then none else some "unknown instrument"

abbrev wanted : List Subscription
wanted = book (instrument "BTCUSDT") ∷ trades_of (instrument "NOSUCH") ∷ []

-- A session that receives one book and asks for a tape of the same instrument.
abbrev watching : Subscriptions
watching = record { active = book (instrument "BTCUSDT") ∷ []; pending = []; ids = [] }

wants-subscribe_example : wants watching (some (instrument "BTCUSDT")) ≡ true
unfolding key symbol_of
wants-subscribe_example =
    wants-subscribe listed watching wanted false (new_registry 1) (some (instrument "BTCUSDT"))
      (unfold wants subscribe consider_all consider in refl)

abbrev session : List Request
session = ask wanted false (new_registry 1) ∷ announce ∷ []
