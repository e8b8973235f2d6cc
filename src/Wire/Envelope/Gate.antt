-- ===== src/Wire/Envelope/Gate.antt =====
-- What a receiver acts on, and how it counts the rest (crates/wire/src/envelope.rs).
use mooncat.Prelude.{◌+◌, ◌≤◌, ◌<◌, ◌≡◌, ◌↔◌, arith, add_u64, u64_mod}
use mooncat.Wire.Channel.{is_known}
use mooncat.Wire.Envelope.{
  ClientEnvelope, Incoming, known, unknown, accepted, Skipped, unknown_channel, future_version,
  unknown_variant, gate, accept_client, SkipCounters, record_skip, total,
}

module _ {Msg : Type 0} where
  -- A client envelope is acted on exactly when its message was understood, its channel is one of the
  -- twelve known ones and its schema version is 0; it is then passed on unchanged.
  pub accept_client_iff :
      (i : Incoming (ClientEnvelope Msg)) (env : ClientEnvelope Msg)
      → (accept_client i ≡ accepted env)
        ↔ ((i ≡ known env) × (env.channel.number ≤ 11) × (env.ver ≡ 0))
  unfolding accept_client gate is_known
  accept_client_iff (known e) env = ground arith
  accept_client_iff (unknown u) env = ground arith

-- Every envelope that is skipped is counted once, whatever the reason.
pub total-record_skip :
    (c : SkipCounters) (s : Skipped)
    → c.skipped_future_version + c.skipped_unknown_channel + c.skipped_unknown_variant + 1 < u64_mod
    → total (record_skip c s) ≡ total c + 1
unfolding total record_skip add_u64
total-record_skip c (unknown_channel ch) h = omega arith
total-record_skip c (future_version ch v) h = omega arith
total-record_skip c (unknown_variant ch t) h = omega arith
