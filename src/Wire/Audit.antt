-- ===== src/Wire/Audit.antt =====
-- crates/wire/src/audit.rs: what is recorded of a command, and what never is. `rmpv::Value` is its
-- maps, arrays and texts, with any other value as an opaque number; the serialiser that yields a value
-- is a parameter.
pub mod Redacted
use mooncat.Prelude.{
  ℕ, ◌≡◌, Bool, true, false, not, ◌&&◌, ◌||◌, List, [], ◌∷◌, Option, none, some, String, ltb,
  if◌then◌else◌, any_of,
}
use mooncat.Prelude.Int.{ℤ}
use mooncat.Prelude.Assoc.{string_eq}
use mooncat.Wire.Event.{AckStatus, accepted, done, rejected, failed}
use mooncat.Wire.Command.{
  Command, Role, role_rank, min_role, viewer, enroll, rotate_device_key, resume,
}

abbrev pub never_record : List String
never_record = "code" ∷ "passphrase" ∷ "secret" ∷ "token" ∷ "sig" ∷ "sig_new" ∷ []

abbrev pub redacted : String
redacted = "<redacted>"

mutual
  pub data Value : Type 0 where
    nil : Value
    text : String → Value
    scalar : ℕ → Value
    array : Items → Value
    dict : Entries → Value

  pub data Items : Type 0 where
    no_items : Items
    item : Value → Items → Items

  pub data Entries : Type 0 where
    no_entries : Entries
    entry : Value → Value → Entries → Entries

-- `Value::as_str`.
abbrev pub as_str : Value → Option String
as_str (text s) = some s
as_str nil = none
as_str (scalar n) = none
as_str (array xs) = none
as_str (dict es) = none

abbrev pub listed : Option String → Bool
listed none = false
listed (some name) = any_of (λ s. string_eq.beq s name) never_record

-- Whether the value under a key is never recorded.
abbrev pub sensitive : Value → Bool
sensitive k = listed (as_str k)

unfoldable mutual
  pub redact : Value → Value
  redact nil = nil
  redact (text s) = text s
  redact (scalar n) = scalar n
  redact (array xs) = array (redact_items xs)
  redact (dict es) = dict (redact_entries es)

  pub redact_items : Items → Items
  redact_items no_items = no_items
  redact_items (item v xs) = item (redact v) (redact_items xs)

  pub redact_entries : Entries → Entries
  redact_entries no_entries = no_entries
  redact_entries (entry k v es) =
      entry k (if sensitive k then text redacted else redact v) (redact_entries es)

pub data Outcome : Type 0 where
  started succeeded : Outcome
  refused failed_with : String → Outcome

abbrev or_empty : Option String → String
or_empty none = ""
or_empty (some s) = s

pub from_ack : AckStatus → Option String → Outcome
from_ack accepted detail = started
from_ack done detail = succeeded
from_ack rejected detail = refused (or_empty detail)
from_ack failed detail = failed_with (or_empty detail)

abbrev always : Command → Bool
always enroll = true
always rotate_device_key = true
always resume = true
always _ = false

-- Whether a command is recorded at all.
unfoldable pub should_audit : Command → Bool
should_audit c = if always c then true else ltb (role_rank viewer) (role_rank (min_role c))

pub record AuditRecord : Type 0 where
  pub at_ms : ℤ
  pub session : ℕ
  pub device : ℕ
  pub peer : ℕ
  pub role : Role
  pub req : ℕ
  pub command : String
  pub body : Value
  pub outcome : Outcome

-- The loop of `split_tagged`: the last entry of a name counts.
abbrev pub split_entry : Value → Value → Option String × Value → Bool → Bool → Option String × Value
split_entry k v (t, d) true _ = (as_str v, d)
split_entry k v (t, d) false true = (t, v)
split_entry k v (t, d) false false = (t, d)

abbrev named : Value → String → Bool
named k s = elim (as_str k) [ none ↦ false | some name ↦ string_eq.beq name s ]

unfoldable pub split_entries : Entries → Option String × Value → Option String × Value
split_entries no_entries acc = acc
split_entries (entry k v es) acc =
    split_entries es (split_entry k v acc (named k "t") (named k "d"))

unfoldable pub split_tagged : Value → Option String × Value
split_tagged (dict es) = split_entries es (none, nil)
split_tagged v = (none, v)

-- The tags of the closed list of commands; any other is "unknown".
abbrev tags : List String
tags =
    "hello" ∷ "enroll" ∷ "resume" ∷ "rotate_device_key" ∷ "ping" ∷ "pong" ∷ "bye" ∷ "subscribe"
    ∷ "unsubscribe" ∷ "subscriptions_get" ∷ "book_resync_request" ∷ "tape_backfill"
    ∷ "candle_history" ∷ "place_order" ∷ "cancel_order" ∷ "amend_order" ∷ "cancel_all"
    ∷ "move_orders" ∷ "split_order" ∷ "orders_snapshot_request" ∷ "order_status_request"
    ∷ "close_position" ∷ "flatten_all" ∷ "set_protection" ∷ "set_volume_stop" ∷ "set_panic"
    ∷ "set_immune" ∷ "account_snapshot_request" ∷ "set_leverage" ∷ "set_margin_mode"
    ∷ "set_position_mode" ∷ "transfer_asset" ∷ "transferable_assets_refresh" ∷ "confirm_risk_limit"
    ∷ "api_key_status_request" ∷ "convert_dust" ∷ "settings_get" ∷ "settings_set"
    ∷ "auto_leverage_set" ∷ "profit_reset" ∷ "emu_trades" ∷ "core_restart" ∷ "alert_upsert"
    ∷ "alert_delete" ∷ "alerts_snapshot_request" ∷ "chart_annotations_request"
    ∷ "news_history_request" ∷ "report_schema_request" ∷ "report_sync_request" ∷ "report_page_ack"
    ∷ "report_check_rows" ∷ "report_set_rows_deleted" ∷ "report_query" ∷ []

unfoldable pub static_tag : String → String
static_tag tag = if any_of (λ s. string_eq.beq s tag) tags then tag else "unknown"

abbrev or_unknown : Option String → String
or_unknown none = "unknown"
or_unknown (some s) = s

-- `record`: the value is what the serialiser makes of the command, if it does.
unfoldable pub record_of :
    (Command → Option Value) → Command → ℤ → ℕ → ℕ → ℕ → Role → ℕ → Outcome → Option AuditRecord
record_of encode command at_ms session device peer role req outcome =
    let made : Option AuditRecord = elim (encode command) [
      | none ↦ none
      | some v ↦ some (record {
        at_ms = at_ms;
        session = session;
        device = device;
        peer = peer;
        role = role;
        req = req;
        command = static_tag (or_unknown (split_tagged v).0);
        body = redact (split_tagged v).1;
        outcome = outcome;
      })
    ] in
    if not (should_audit command) then none else made
