-- ===== src/Wire/Envelope.antt =====
-- crates/wire/src/envelope.rs: envelopes, and which of them a receiver acts on.
pub mod Gate
use mooncat.Prelude.{ℕ, ◌+◌, Bool, true, false, ltb, if◌then◌else◌, String, add_u64}
use mooncat.Wire.Channel.{Channel, is_known}

abbrev pub known_ver : ℕ
known_ver = 0

pub record ClientEnvelope (Msg : Type 0) : Type 0 where
  pub channel : Channel
  pub req : ℕ
  pub ver : ℕ
  pub msg : Msg

pub record ServerEnvelope (Msg : Type 0) : Type 0 where
  pub channel : Channel
  pub seq : ℕ
  pub ver : ℕ
  pub msg : Msg

-- An envelope whose header parsed but whose message did not; `tag` is the message's `t`.
pub record UnknownEnvelope : Type 0 where
  pub channel : Channel
  pub ver : ℕ
  pub tag : String

pub data Incoming (T : Type 0) : Type 0 where
  known : T → Incoming T
  unknown : UnknownEnvelope → Incoming T

pub data Skipped : Type 0 where
  unknown_channel : Channel → Skipped
  future_version : Channel → ℕ → Skipped
  unknown_variant : Channel → String → Skipped

pub data Verdict (T : Type 0) : Type 0 where
  accepted : T → Verdict T
  skipped : Skipped → Verdict T

-- The channel is checked before the version.
unfoldable pub gate : {T : Type 0} → Channel → ℕ → T → Verdict T
gate channel ver env =
    if is_known channel
    then if ltb known_ver ver then skipped (future_version channel ver) else accepted env
    else skipped (unknown_channel channel)

unfoldable pub unknown_reason : UnknownEnvelope → Skipped
unknown_reason env =
    if is_known env.channel
    then if ltb known_ver env.ver
      then future_version env.channel env.ver
      else unknown_variant env.channel env.tag
    else unknown_channel env.channel

module _ {Msg : Type 0} where
  unfoldable pub accept_client : Incoming (ClientEnvelope Msg) → Verdict (ClientEnvelope Msg)
  accept_client (known env) = gate env.channel env.ver env
  accept_client (unknown env) = skipped (unknown_reason env)

  unfoldable pub accept_server : Incoming (ServerEnvelope Msg) → Verdict (ServerEnvelope Msg)
  accept_server (known env) = gate env.channel env.ver env
  accept_server (unknown env) = skipped (unknown_reason env)

-- What a peer chose not to act on.
pub record SkipCounters : Type 0 where
  pub skipped_future_version : ℕ
  pub skipped_unknown_channel : ℕ
  pub skipped_unknown_variant : ℕ

unfoldable pub record_skip : SkipCounters → Skipped → SkipCounters
record_skip c (future_version channel ver) = record c {
  skipped_future_version = add_u64 c.skipped_future_version 1;
}
record_skip c (unknown_channel channel) = record c {
  skipped_unknown_channel = add_u64 c.skipped_unknown_channel 1;
}
record_skip c (unknown_variant channel tag) = record c {
  skipped_unknown_variant = add_u64 c.skipped_unknown_variant 1;
}

unfoldable pub total : SkipCounters → ℕ
total c =
    add_u64 (add_u64 c.skipped_future_version c.skipped_unknown_channel) c.skipped_unknown_variant
