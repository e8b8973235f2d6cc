-- ===== src/Wire/Heartbeat.antt =====
-- crates/wire/src/heartbeat.rs: noticing that the other end is gone. An `Instant` is a number of
-- milliseconds on one monotonic clock, and a `Duration` is a number of milliseconds.
pub mod Liveness
use mooncat.Prelude.{
  ℕ, suc, ◌+◌, ◌-◌, ◌*◌, ◌≡◌, Bool, true, false, ◌||◌, List, [], ◌∷◌, ◌++◌, Option, none, some, leb,
  ltb, ◌==◌, if◌then◌else◌, length, drop, any_of, add_u32, add_u64,
}

abbrev pub ping_interval : ℕ
ping_interval = 2000

abbrev pub misses_before_drop : ℕ
misses_before_drop = 3

abbrev pub detection_bound : ℕ
detection_bound = ping_interval * misses_before_drop

pub data PongOutcome : Type 0 where
  matched : ℕ → PongOutcome
  stale unknown : PongOutcome

pub record Heartbeat : Type 0 where
  pub interval : ℕ
  pub misses_allowed : ℕ
  -- The nonce of the ping that awaits an answer, and when it was sent.
  pub in_flight : Option (ℕ × ℕ)
  pub recently_sent : List ℕ
  pub next_nonce : ℕ
  pub consecutive_misses : ℕ
  pub last_activity : Option ℕ
  pub rtt : Option ℕ

unfoldable pub new : ℕ → ℕ → Heartbeat
new interval misses_allowed = record {
  interval = interval;
  misses_allowed = misses_allowed;
  in_flight = none;
  recently_sent = [];
  next_nonce = 1;
  consecutive_misses = 0;
  last_activity = none;
  rtt = none;
}

abbrev pub after_interval : Option ℕ → ℕ → Option ℕ
after_interval none interval = none
after_interval (some t) interval = some (t + interval)

unfoldable pub next_due : Heartbeat → Option ℕ
next_due h = after_interval h.last_activity h.interval

abbrev pub none_or_past : Option ℕ → ℕ → Bool
none_or_past none now = true
none_or_past (some due) now = leb due now

unfoldable pub due : Heartbeat → ℕ → Bool
unfolding next_due
due h now = none_or_past (next_due h) now

abbrev pub missed : Option (ℕ × ℕ) → ℕ → ℕ
missed none misses = misses
missed (some ping) misses = add_u32 misses 1

-- How much history is kept to name a stale nonce.
abbrev pub kept : Heartbeat → ℕ
kept h = (h.misses_allowed + 1) * 4

abbrev pub trim : ℕ → List ℕ → List ℕ
trim keep xs = if ltb keep (length xs) then drop (length xs - keep) xs else xs

-- Record that a ping goes out, and return its nonce.
unfoldable pub on_send : Heartbeat → ℕ → Heartbeat × ℕ
on_send h now = (
  record h {
    consecutive_misses = missed h.in_flight h.consecutive_misses;
    next_nonce = add_u64 h.next_nonce 1;
    in_flight = some (h.next_nonce, now);
    last_activity = some now;
    recently_sent = trim (kept h) (h.recently_sent ++ h.next_nonce ∷ []);
  },
  h.next_nonce,
)

unfoldable pub contains : List ℕ → ℕ → Bool
contains xs n = any_of (λ x. x == n) xs

abbrev pub late : Heartbeat → ℕ → Heartbeat × PongOutcome
late h nonce = (h, if contains h.recently_sent nonce then stale else unknown)

abbrev pub pong_in_flight : Heartbeat → ℕ → ℕ → Option (ℕ × ℕ) → Heartbeat × PongOutcome
pong_in_flight h nonce now none = late h nonce
pong_in_flight h nonce now (some (sent_nonce, sent_at)) =
    if sent_nonce == nonce
    then (
      record h { in_flight = none; consecutive_misses = 0; rtt = some (now - sent_at) },
      matched (now - sent_at),
    )
    else late h nonce

-- Record an answer.
unfoldable pub on_pong : Heartbeat → ℕ → ℕ → Heartbeat × PongOutcome
on_pong h nonce now = pong_in_flight h nonce now h.in_flight

-- Whether the peer has missed enough pings to be considered gone.
unfoldable pub is_dead : Heartbeat → Bool
is_dead h = leb h.misses_allowed h.consecutive_misses

-- Any traffic at all counts as liveness.
unfoldable pub saw_traffic : Heartbeat → ℕ → Heartbeat
saw_traffic h now = record h { last_activity = some now }
