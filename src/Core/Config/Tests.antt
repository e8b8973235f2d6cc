-- ===== src/Core/Config/Tests.antt =====
-- Concrete runs of crates/core/src/config.rs, on a host whose addresses are numbers: 0 is loopback.
use mooncat.Prelude.{ℕ, ◌≡◌, refl, true, [], ◌∷◌, some, none, ◌==◌}
use mooncat.Domain.Ids.{spot, linear_perp}
use mooncat.Core.Config.{
  Host, Config, FileConfig, good, bad, assemble, gathered, validate, split_args, split_from,
  byte_len, parse_env_addr,
}
use mooncat.Core.Config.Guarded.{Guarded, assemble-Guarded}

abbrev host : Host
host = record {
  Addr = ℕ;
  is_loopback = λ a. a == 0;
  parse_addr = λ s. bad "no address";
  show_addr = λ a. "1.2.3.4:8787";
  default_bind = 0;
  exists = λ p. true;
  env = λ name. none;
  to_uppercase = λ s. s;
}

abbrev file : FileConfig host
file = record {
  bind = some 7;
  metrics_bind = none;
  token = some "0123456789abcdef";
  markets = none;
  tickers = none;
  tls = some (record { cert = "cert.pem"; key = "key.pem" });
}

abbrev served : Config host
served = record {
  bind = 7;
  metrics_bind = none;
  token = "0123456789abcdef";
  markets = spot ∷ linear_perp ∷ [];
  tickers = "ETHUSDT" ∷ [];
  tls = some (record { cert = "cert.pem"; key = "key.pem" });
}

assembled : assemble host file none ("ETHUSDT" ∷ []) ≡ good served
unfolding assemble gathered validate byte_len parse_env_addr
assembled = refl

assemble-Guarded_example : Guarded host served
assemble-Guarded_example = assemble-Guarded host file none ("ETHUSDT" ∷ []) served assembled

-- A public address without TLS is refused.
plain_run :
    assemble host (record file { tls = none }) (some "core.toml") []
    ≡ bad
        "refusing to serve 1.2.3.4:8787 without TLS: the token would cross the network in the clear. Either bind to loopback, or add a [tls] section to core.toml"
unfolding assemble gathered validate byte_len parse_env_addr
plain_run = refl

-- Both spellings of the flag.
split_run :
    split_args ("--config" ∷ "a.toml" ∷ "BTCUSDT" ∷ "--config=b.toml" ∷ [])
    ≡ good (record { path = some "b.toml"; rest = "BTCUSDT" ∷ [] })
unfolding split_args split_from
split_run = refl
