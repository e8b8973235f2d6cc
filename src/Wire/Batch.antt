-- ===== src/Wire/Batch.antt =====
-- crates/wire/src/batch.rs: merging many small messages into one frame. `rmp_serde::to_vec_named` is a
-- third-party function, and a parameter: `none` stands for its error. A byte is a number.
pub mod Conserved
pub mod Header
use mooncat.Prelude.{
  ℕ, zero, suc, ◌+◌, ◌-◌, ◌/◌, ◌%◌, Bool, true, false, not, ◌&&◌, List, [], ◌∷◌, ◌++◌, Option, none,
  some, leb, ltb, ◌==◌, if◌then◌else◌, length,
}
use mooncat.Wire.Channel.{Channel, class}
use mooncat.Wire.Envelope.{ServerEnvelope}

abbrev pub batch_flush_ms : ℕ
batch_flush_ms = 5

abbrev pub batch_flush_bytes : ℕ
batch_flush_bytes = 65536

abbrev pub batch_max_items : ℕ
batch_max_items = 256

abbrev pub never_batch_above_class : ℕ
never_batch_above_class = 1

pub data FlushReason : Type 0 where
  urgent deadline bytes items requested : FlushReason

pub record Batch : Type 0 where
  pub body : List ℕ
  pub is_array : Bool
  pub count : ℕ
  pub reason : FlushReason

pub record Batcher : Type 0 where
  pub parts : List (List ℕ)
  pub size : ℕ
  pub opened_at : Option ℕ

abbrev pub new : Batcher
new = record { parts = []; size = 0; opened_at = none }

abbrev pub is_empty : List (List ℕ) → Bool
is_empty [] = true
is_empty (p ∷ ps) = false

abbrev pub deadline_of : Option ℕ → Option ℕ
deadline_of none = none
deadline_of (some t) = some (t + batch_flush_ms)

abbrev pub is_due : Option ℕ → ℕ → Bool
is_due none now = false
is_due (some d) now = leb d now

-- All parts, one after the other.
abbrev pub joined : List (List ℕ) → List ℕ
joined [] = []
joined (p ∷ ps) = p ++ joined ps

-- The header of a MessagePack array; on up to 15 elements the bits of `0x90 | n` do not overlap.
unfoldable pub array_header : ℕ → List ℕ
array_header n =
    if leb n 15
    then (144 + n) ∷ []
    else if leb n 65535
    then 220 ∷ n / 256 % 256 ∷ n % 256 ∷ []
    else 221 ∷ n / 16777216 % 256 ∷ n / 65536 % 256 ∷ n / 256 % 256 ∷ n % 256 ∷ []

unfoldable pub msgpack_array : List (List ℕ) → List ℕ
msgpack_array parts = array_header (length parts) ++ joined parts

-- The batch of `take`; one message goes out as itself.
unfoldable pub batch_of : List (List ℕ) → FlushReason → Batch
batch_of (p ∷ []) reason = record { body = p; is_array = false; count = 1; reason = reason }
batch_of parts reason = record {
  body = msgpack_array parts;
  is_array = true;
  count = length parts;
  reason = reason;
}

unfoldable pub take : Batcher → FlushReason → Batcher × Batch
take b reason = (record { parts = []; size = 0; opened_at = none }, batch_of b.parts reason)

abbrev pub taken : Batcher → FlushReason → Batcher × Option Batch
taken b reason = let (b', out) = take b reason in (b', some out)

-- Which bound a push has reached, if any.
unfoldable pub reached : Batcher → ℕ → Option FlushReason
reached b now =
    if leb batch_max_items (length b.parts)
    then some items
    else if leb batch_flush_bytes b.size
    then some bytes
    else if is_due (deadline_of b.opened_at) now
    then some deadline
    else none

-- The message joins what is held.
unfoldable pub add : Batcher → List ℕ → ℕ → Batcher
add b encoded now = record {
  parts = b.parts ++ encoded ∷ [];
  size = b.size + length encoded;
  opened_at = if is_empty b.parts then some now else b.opened_at;
}

abbrev pub close_on : Option FlushReason → Batcher → Batcher × Option Batch
close_on none b = (b, none)
close_on (some reason) b = taken b reason

-- The rest of `push` once the message is encoded.
unfoldable pub push_encoded : Batcher → Channel → List ℕ → ℕ → Batcher × Option Batch
push_encoded b channel encoded now =
    if leb (class channel) never_batch_above_class
    then (b, some (record { body = encoded; is_array = false; count = 1; reason = urgent }))
    else close_on (reached (add b encoded now) now) (add b encoded now)

-- `Result<Option<Batch>, CodecError>`.
pub data Pushed : Type 0 where
  pushed : Option Batch → Pushed
  codec_error : Pushed

module _ {Msg : Type 0} (encode : ServerEnvelope Msg → Option (List ℕ)) where
  abbrev pub push_result : Batcher → Channel → ℕ → Option (List ℕ) → Batcher × Pushed
  push_result b channel now none = (b, codec_error)
  push_result b channel now (some encoded) =
      let (b', out) = push_encoded b channel encoded now in (b', pushed out)

  -- Offer a message; a batch comes back when one is ready to be written.
  unfoldable pub push : Batcher → ServerEnvelope Msg → ℕ → Batcher × Pushed
  push b env now = push_result b env.channel now (encode env)

unfoldable pub flush_due : Batcher → ℕ → Batcher × Option Batch
flush_due b now =
    if not (is_empty b.parts) && is_due (deadline_of b.opened_at) now
    then taken b deadline
    else (b, none)

unfoldable pub flush : Batcher → Batcher × Option Batch
flush b = if not (is_empty b.parts) then taken b requested else (b, none)
