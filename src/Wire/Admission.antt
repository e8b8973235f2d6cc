-- ===== src/Wire/Admission.antt =====
-- crates/wire/src/admission.rs: who gets in, how often they may try, and what they may do inside.
-- An address, a device and a session are numbers; an `Instant` is a number of milliseconds.
pub mod Handshake
pub mod Sessions
use mooncat.Prelude.{
  sort_by, ℕ, zero, suc, ◌+◌, ◌-◌, ◌≡◌, Bool, true, false, not, ◌&&◌, ◌||◌, List, [], ◌∷◌, ◌++◌,
  Option, none, some, map, leb, ltb, ◌==◌, if◌then◌else◌, length, keep_if, add_u32, add_u64,
}
use mooncat.Prelude.Assoc.{get, put, remove, nat_eq}
use mooncat.Wire.Command.{Command, Role, role_rank, min_role}

abbrev pub hello_attempts_per_min : ℕ
hello_attempts_per_min = 5

abbrev pub ban_duration : ℕ
ban_duration = 60000

abbrev pub max_sessions : ℕ
max_sessions = 4

-- `Result<(), Forbidden>`.
pub data Authorized : Type 0 where
  granted : Authorized
  forbidden : Role → Role → Authorized

unfoldable pub authorize : Role → Command → Authorized
authorize role command =
    if leb (role_rank (min_role command)) (role_rank role)
    then granted
    else forbidden (min_role command) role

pub data Admit : Type 0 where
  ok : Admit
  banned : ℕ → Admit

pub record LiveSession : Type 0 where
  pub id : ℕ
  pub device : ℕ
  pub peer : ℕ
  pub role : Role
  pub opened_at : ℕ

pub data CloseReason : Type 0 where
  revoked too_many_sessions : CloseReason

pub record Closed : Type 0 where
  pub id : ℕ
  pub reason : CloseReason

pub record Window : Type 0 where
  pub failures : ℕ
  pub started : ℕ
  pub banned_until : Option ℕ

pub record Gatekeeper : Type 0 where
  pub attempts : List (ℕ × Window)
  pub sessions : List (ℕ × LiveSession)
  pub next_session : ℕ

abbrev pub new : Gatekeeper
new = record { attempts = []; sessions = []; next_session = 1 }

-- What `admit` makes of the record of an address; `none` leaves the map as it is.
abbrev pub admit_ban : Window → ℕ → Option ℕ → Window × Admit
admit_ban w now none = (w, ok)
admit_ban w now (some until) =
    if ltb now until
    then (w, banned until)
    else (record { failures = 0; started = now; banned_until = none }, ok)

unfoldable pub admit_window : Window → ℕ → Window × Admit
admit_window w now = admit_ban w now w.banned_until

abbrev pub admit_found : Gatekeeper → ℕ → ℕ → Option Window → Gatekeeper × Admit
admit_found g peer now none = (g, ok)
admit_found g peer now (some w) =
    let (w', a) = admit_window w now in (record g { attempts = put g.attempts peer w' }, a)

-- May this address attempt a handshake?
unfoldable pub admit : Gatekeeper → ℕ → ℕ → Gatekeeper × Admit
admit g peer now = admit_found g peer now (get g.attempts peer)

abbrev pub refreshed : Window → ℕ → Window
refreshed w now =
    if ltb ban_duration (now - w.started) then record w { failures = 0; started = now } else w

-- A failure on the record of an address.
unfoldable pub count_failure : Window → ℕ → Window × Admit
count_failure w now =
    let w' = refreshed w now in
    let failures = add_u32 w'.failures 1 in
    if leb hello_attempts_per_min failures
    then (
      record w' { failures = failures; banned_until = some (now + ban_duration) },
      banned (now + ban_duration),
    )
    else (record w' { failures = failures }, ok)

abbrev pub window_or_new : Option Window → ℕ → Window
window_or_new none now = record { failures = 0; started = now; banned_until = none }
window_or_new (some w) now = w

unfoldable pub handshake_failed : Gatekeeper → ℕ → ℕ → Gatekeeper × Admit
handshake_failed g peer now =
    let (w, a) = count_failure (window_or_new (get g.attempts peer) now) now in
    (record g { attempts = put g.attempts peer w }, a)

unfoldable pub handshake_succeeded : Gatekeeper → ℕ → Gatekeeper
handshake_succeeded g peer = record g { attempts = remove g.attempts peer }

abbrev pub is_of : ℕ → ℕ × LiveSession → Bool
is_of device p = p.1.device == device

-- Every live session of a device, by id.
unfoldable pub sessions_of : List (ℕ × LiveSession) → ℕ → List ℕ
sessions_of m device =
    sort_by (λ id. id) (map (λ (p : ℕ × LiveSession). p.1.id) (keep_if (is_of device) m))

-- The order of `(opened_at, id)`.
abbrev pub older : LiveSession → LiveSession → Bool
older a b = ltb a.opened_at b.opened_at || (a.opened_at == b.opened_at && leb a.id b.id)

abbrev pub earlier : LiveSession → Option LiveSession → LiveSession
earlier a none = a
earlier a (some b) = if older a b then a else b

-- `min_by_key` over the sessions of a device.
unfoldable pub oldest_of : List (ℕ × LiveSession) → Option LiveSession
oldest_of [] = none
oldest_of ((k, s) ∷ m) = some (earlier s (oldest_of m))

abbrev pub closing :
    ℕ
    → (List (ℕ × LiveSession) → List (ℕ × LiveSession) × List Closed)
    → List (ℕ × LiveSession)
    → List (ℕ × LiveSession) × List Closed
closing id k m =
    let (m', closed) = k (remove m id) in
    (m', record { id = id; reason = too_many_sessions } ∷ closed)

abbrev pub close_oldest :
    Option LiveSession
    → List (ℕ × LiveSession)
    → (List (ℕ × LiveSession) → List (ℕ × LiveSession) × List Closed)
    → List (ℕ × LiveSession) × List Closed
close_oldest none m k = (m, [])
close_oldest (some s) m k = closing s.id k m

-- The loop of `open`, on fuel.
unfoldable pub cap_loop : ℕ → List (ℕ × LiveSession) → ℕ → List (ℕ × LiveSession) × List Closed
cap_loop zero m device = (m, [])
cap_loop (suc fuel) m device =
    let rest =
      close_oldest (oldest_of (keep_if (is_of device) m)) m (λ m'. cap_loop fuel m' device) in
    if ltb max_sessions (length (sessions_of m device)) then rest else (m, [])

unfoldable pub open_session : Gatekeeper → ℕ → ℕ → Role → ℕ → Gatekeeper × ℕ × List Closed
open_session g device peer role now =
    let id = g.next_session in
    let m =
      put g.sessions id
        (record { id = id; device = device; peer = peer; role = role; opened_at = now }) in
    let (m', closed) = cap_loop (length m) m device in
    (record g { sessions = m'; next_session = add_u64 id 1 }, id, closed)

abbrev pub is_there : Option LiveSession → Bool
is_there none = false
is_there (some s) = true

unfoldable pub close : Gatekeeper → ℕ → Gatekeeper × Bool
close g id = (record g { sessions = remove g.sessions id }, is_there (get g.sessions id))

abbrev pub remove_all : List (ℕ × LiveSession) → List ℕ → List (ℕ × LiveSession)
remove_all m [] = m
remove_all m (id ∷ ids) = remove_all (remove m id) ids

unfoldable pub revoke_device : Gatekeeper → ℕ → Gatekeeper × List Closed
revoke_device g device =
    let doomed = sessions_of g.sessions device in
    (
      record g { sessions = remove_all g.sessions doomed },
      map (λ id. record { id = id; reason = revoked }) doomed,
    )

abbrev pub still_banned : Option ℕ → ℕ → Bool
still_banned none now = false
still_banned (some until) now = ltb now until

unfoldable pub expire_windows : Gatekeeper → ℕ → Gatekeeper × ℕ
expire_windows g now =
    let kept =
      keep_if
        (λ (p : ℕ × Window).
          still_banned p.1.banned_until now || leb (now - p.1.started) ban_duration)
        g.attempts in
    (record g { attempts = kept }, length g.attempts - length kept)
