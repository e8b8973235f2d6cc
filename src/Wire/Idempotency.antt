-- ===== src/Wire/Idempotency.antt =====
-- crates/wire/src/idempotency.rs: the ring of remembered requests that makes a retry safe.
pub mod Ring
pub mod Once
use mooncat.Prelude.{
  ℕ, zero, suc, ◌+◌, ◌≡◌, Bool, true, false, List, [], ◌∷◌, ◌++◌, Option, none, some, leb, ltb, max,
  if◌then◌else◌, length, add_u64,
}
use mooncat.Prelude.Assoc.{get, put, remove, nat_eq}
use mooncat.Wire.Event.{ServerEvent, command_ack, event, is_final}

abbrev pub seen_req_capacity : ℕ
seen_req_capacity = 4096

-- What to do with an arriving command.
pub data Admission (Body : Type 0) : Type 0 where
  fresh in_flight : Admission Body
  replay : ServerEvent Body → Admission Body
  too_old : ℕ → Admission Body

pub data Record (Body : Type 0) : Type 0 where
  running : Record Body
  answered : ServerEvent Body → Record Body

-- `order` is oldest first; `records` is the map by request id.
pub record ReqRing (Body : Type 0) : Type 0 where
  pub order : List ℕ
  pub records : List (ℕ × Record Body)
  pub high_water : Option ℕ
  pub evicted_below : Option ℕ

-- `high_water.map_or(req, |h| h.max(req))`.
abbrev pub raised : Option ℕ → ℕ → ℕ
raised none req = req
raised (some h) req = max h req

-- Below the eviction floor, if there is one.
abbrev pub below_floor : Option ℕ → ℕ → Bool
below_floor none req = false
below_floor (some floor) req = ltb req floor

abbrev pub floor_of : Option ℕ → ℕ
floor_of none = 0
floor_of (some floor) = floor

module _ {Body : Type 0} where
  abbrev pub new : ReqRing Body
  new = record { order = []; records = []; high_water = none; evicted_below = none }

  -- One round of the loop of `evict_if_full`.
  abbrev pub drop_oldest : List ℕ → ReqRing Body → ReqRing Body
  drop_oldest [] r = r
  drop_oldest (oldest ∷ rest) r = record r {
    order = rest;
    records = remove r.records oldest;
    evicted_below = some (add_u64 oldest 1);
  }

  -- `while order.len() > SEEN_REQ_CAPACITY`, with the length as fuel.
  unfoldable pub evict_loop : ℕ → ReqRing Body → ReqRing Body
  evict_loop zero r = r
  evict_loop (suc fuel) r =
      let rest = evict_loop fuel (drop_oldest r.order r) in
      if ltb seen_req_capacity (length r.order) then rest else r

  unfoldable pub evict_if_full : ReqRing Body → ReqRing Body
  evict_if_full r = evict_loop (length r.order) r

  -- The request is recorded as running.
  unfoldable pub claim : ReqRing Body → ℕ → ReqRing Body
  claim r req = evict_if_full (record r {
    records = put r.records req running;
    order = r.order ++ req ∷ [];
    high_water = some (raised r.high_water req);
  })

  abbrev pub admit_record : ReqRing Body → ℕ → Option (Record Body) → ReqRing Body × Admission Body
  admit_record r req (some running) = (r, in_flight)
  admit_record r req (some (answered ack)) = (r, replay ack)
  admit_record r req none =
      if below_floor r.evicted_below req
      then (r, too_old (floor_of r.evicted_below))
      else (claim r req, fresh)

  -- Decide what to do with an arriving request, recording it if it is new.
  unfoldable pub admit : ReqRing Body → ℕ → ReqRing Body × Admission Body
  admit r req = admit_record r req (get r.records req)

  abbrev pub is_last_word : ServerEvent Body → Bool
  is_last_word (command_ack req status detail) = is_final status
  is_last_word (event k b) = true

  abbrev pub settle : ReqRing Body → ℕ → ServerEvent Body → Option (Record Body) → ReqRing Body
  settle r req ack none = r
  settle r req ack (some old) = record r { records = put r.records req (answered ack) }

  -- Record the final acknowledgement of a request.
  unfoldable pub complete : ReqRing Body → ℕ → ServerEvent Body → ReqRing Body
  complete r req ack = if is_last_word ack then settle r req ack (get r.records req) else r
