-- ===== src/Wire/Heartbeat/Liveness.antt =====
-- What the heartbeat of crates/wire/src/heartbeat.rs detects, and when.
use mooncat.Prelude.{
  ℕ, zero, suc, ◌+◌, ◌-◌, ◌*◌, ◌≤◌, ◌<◌, ◌≡◌, refl, ap, ◌∙◌, inl, inr, true, false, List, [], ◌∷◌,
  ◌++◌, Option, none, some, arith, ltb, leb, length, length-drop, All, All-append, All-drop,
  All-weaken, Bool-cases, u32_mod, u64_mod, add_u32_lem, add_u64_lem, le→leb,
}
use mooncat.Wire.Heartbeat.{
  Heartbeat, new, on_send, on_pong, pong_in_flight, matched, unknown, is_dead, due, missed, kept,
  trim, contains,
}

-- A peer that answers nothing: a ping goes out at each of the times.
abbrev pub send_all : Heartbeat → List ℕ → Heartbeat
send_all h [] = h
send_all h (t ∷ ts) = send_all (on_send h t).0 ts

-- With a ping in flight each further one that goes out adds a miss.
misses-send_all :
    (h : Heartbeat) (ts : List ℕ) (p : ℕ × ℕ)
    → h.in_flight ≡ some p
    → h.consecutive_misses + length ts < u32_mod
    → (send_all h ts).consecutive_misses ≡ h.consecutive_misses + length ts
unfolding on_send
misses-send_all h [] p e l = omega arith
misses-send_all h (t ∷ ts) p e l =
    let one : missed h.in_flight h.consecutive_misses ≡ h.consecutive_misses + 1 =
      rw e (add_u32_lem _ _ (omega arith)) in
    misses-send_all (on_send h t).0 ts (h.next_nonce, t) refl (omega (arith, one))
    ∙ omega (arith, one)

misses_allowed-send_all :
    (h : Heartbeat) (ts : List ℕ) → (send_all h ts).misses_allowed ≡ h.misses_allowed
unfolding on_send
misses_allowed-send_all h [] = refl
misses_allowed-send_all h (t ∷ ts) = misses_allowed-send_all (on_send h t).0 ts

add_zero_left : (n : ℕ) → 0 + n ≡ n
add_zero_left n = omega arith

-- A silent peer is dropped at exactly the ping after the allowed number of misses: after the first
-- ping and `n` more (`n` below 2^32), without an answer, it counts as dead exactly if `n` reaches the allowance.
pub is_dead-send_all :
    (interval allowed t : ℕ) (ts : List ℕ)
    → length ts < u32_mod
    → is_dead (send_all (new interval allowed) (t ∷ ts)) ≡ leb allowed (length ts)
unfolding is_dead new on_send
is_dead-send_all interval allowed t ts l =
    rw
      (
        misses_allowed-send_all (on_send (new interval allowed) t).0 ts,
        misses-send_all (on_send (new interval allowed) t).0 ts (1, t) refl (omega arith),
      )
      (ap (leb allowed) (add_zero_left (length ts)))

-- The times at which further pings fall due after one at `t`, if nothing else arrives.
abbrev pub beats : ℕ → ℕ → ℕ → List ℕ
beats interval t zero = []
beats interval t (suc n) = (t + interval) ∷ beats interval (t + interval) n

abbrev pub last_time : ℕ → List ℕ → ℕ
last_time t [] = t
last_time t (u ∷ us) = last_time u us

-- Each ping goes out when the heartbeat says that it is due.
abbrev pub OnTime : Heartbeat → List ℕ → Type 0
OnTime h [] = Unit
OnTime h (t ∷ ts) = (due h t ≡ true) × OnTime (on_send h t).0 ts

length-beats : (interval t n : ℕ) → length (beats interval t n) ≡ n
length-beats interval t zero = refl
length-beats interval t (suc n) = ap suc (length-beats interval (t + interval) n)

last_time-beats : (interval t n : ℕ) → last_time t (beats interval t n) ≡ t + interval * n
last_time-beats interval t zero = omega arith
last_time-beats interval t (suc n) = last_time-beats interval (t + interval) n ∙ omega arith

OnTime-beats :
    (h : Heartbeat) (t n : ℕ) → h.last_activity ≡ some t → OnTime h (beats h.interval t n)
unfolding due on_send
OnTime-beats h t zero e = tt
OnTime-beats h t (suc n) e = (
  rw e (le→leb _ _ (omega arith)),
  OnTime-beats (on_send h (t + h.interval)).0 (t + h.interval) n refl,
)

-- A peer that never answers is found dead at the ping that falls due `interval * allowed` after the
-- first one, and every ping on the way goes out on time, if the allowance is below 2^32.
pub detection_time :
    (interval allowed t : ℕ)
    → allowed < u32_mod
    → OnTime (new interval allowed) (t ∷ beats interval t allowed)
      × (is_dead (send_all (new interval allowed) (t ∷ beats interval t allowed)) ≡ true)
      × (last_time t (beats interval t allowed) ≡ t + interval * allowed)
detection_time interval allowed t l = (
  (unfold due new in refl, on_time),
  is_dead-send_all interval allowed t (beats interval t allowed)
        (omega (arith, length-beats interval t allowed))
      ∙ le→leb _ _ (omega (arith, length-beats interval t allowed)),
  last_time-beats interval t allowed,
)
  where
    on_time : OnTime (on_send (new interval allowed) t).0 (beats interval t allowed)
    on_time = unfold new on_send in OnTime-beats (on_send (new interval allowed) t).0 t allowed refl

-- A ping that is answered by its own nonce clears the misses and measures the round trip, whatever
-- the heartbeat had been through.
pub on_pong-on_send :
    (h : Heartbeat) (t u : ℕ)
    → on_pong (on_send h t).0 (on_send h t).1 u ≡ (
      record (on_send h t).0 { in_flight = none; consecutive_misses = 0; rtt = some (u - t) },
      matched (u - t),
    )
unfolding on_pong on_send
on_pong-on_send h t u = ground arith

abbrev Awaits : Option (ℕ × ℕ) → (ℕ → Type 0) → Type 0
Awaits none P = Unit
Awaits (some (n, t)) P = P n

-- Every nonce that is remembered has been given out, and the memory is bounded.
pub record Inv (h : Heartbeat) : Type 0 where
  pub sent : All (λ n. n < h.next_nonce) h.recently_sent
  pub awaited : Awaits h.in_flight (λ n. n < h.next_nonce)
  pub bounded : length h.recently_sent ≤ kept h

new-Inv : (interval allowed : ℕ) → Inv (new interval allowed)
unfolding new
new-Inv interval allowed = record { sent = tt; awaited = tt; bounded = omega arith }

length-trim : (keep : ℕ) (xs : List ℕ) → length (trim keep xs) ≤ keep
length-trim keep xs = ground (arith, length-drop (length xs - keep) xs)

All-trim : (P : ℕ → Type 0) (keep : ℕ) (xs : List ℕ) → All P xs → All P (trim keep xs)
All-trim P keep xs h = elim (Bool-cases (ltb keep (length xs))) [
  | inl over ↦ rw over (All-drop P (length xs - keep) xs h)
  | inr fits ↦ rw fits h
]

-- Sending a ping keeps the invariant (nonces below the next one, memory bounded) as long as the nonce
-- counter does not wrap.
pub on_send-Inv :
    (h : Heartbeat) (now : ℕ) → h.next_nonce + 1 < u64_mod → Inv h → Inv (on_send h now).0
unfolding on_send
on_send-Inv h now l v = record {
  sent = rw (add_u64_lem h.next_nonce 1 l) (
      All-trim (λ n. n < h.next_nonce + 1) (kept h) (h.recently_sent ++ h.next_nonce ∷ [])
        (All-append (λ n. n < h.next_nonce + 1) h.recently_sent (h.next_nonce ∷ [])
          (All-weaken (λ n. n < h.next_nonce + 1) (λ n. n < h.next_nonce) (λ n k. omega arith)
            h.recently_sent v.sent)
          (omega arith, tt)));
  awaited = rw (add_u64_lem h.next_nonce 1 l) (omega arith);
  bounded = length-trim (kept h) (h.recently_sent ++ h.next_nonce ∷ []);
}

not_contained : (xs : List ℕ) (n m : ℕ) → All (λ x. x < m) xs → m ≤ n → contains xs n ≡ false
unfolding contains
not_contained [] n m h l = refl
not_contained (x ∷ xs) n m h l = ground (arith, not_contained xs n m h.1 l)

-- The answer to a nonce that was never sent is unknown, and changes nothing.
pub on_pong_unsent :
    (h : Heartbeat) (nonce now : ℕ)
    → Inv h
    → h.next_nonce ≤ nonce
    → on_pong h nonce now ≡ (h, unknown)
unfolding on_pong
on_pong_unsent h nonce now v l = unsent h.in_flight v.awaited
  where
    unsent :
        (o : Option (ℕ × ℕ))
        → Awaits o (λ n. n < h.next_nonce)
        → pong_in_flight h nonce now o ≡ (h, unknown)
    unsent none a = rw (not_contained h.recently_sent nonce h.next_nonce v.sent l)
    unsent (some (n, t)) a =
        ground (arith, not_contained h.recently_sent nonce h.next_nonce v.sent l)
