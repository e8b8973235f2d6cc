-- ===== src/Core/Config.antt =====
-- crates/core/src/config.rs: what the core starts with. The environment, the file system, socket
-- addresses and upper case are the standard library's, and parameters; the TOML file is parsed by a
-- third-party package.
pub mod Guarded
pub mod Tests
use Prim.Native.Char.{len_utf8}
use mooncat.Prelude.{
  ℕ, ◌+◌, Bool, true, false, not, ◌&&◌, List, [], ◌∷◌, ◌++◌, Option, none, some, String, ltb, map,
  if◌then◌else◌,
}
use mooncat.Prelude.Assoc.{string_eq}
use mooncat.Domain.Ids.{MarketKind, spot, linear_perp, concat}

-- A value, or the text of the error that ends the start.
pub data Loaded {ℓ} (A : Type ℓ) : Type ℓ where
  good : A → Loaded A
  bad : String → Loaded A

pub record Host : Type 1 where
  pub Addr : Type 0
  pub is_loopback : Addr → Bool
  pub parse_addr : String → Loaded Addr
  pub show_addr : Addr → String
  -- What the literal of the default bind address parses to.
  pub default_bind : Addr
  pub exists : String → Bool
  pub env : String → Option String
  pub to_uppercase : String → String

abbrev pub min_token_len : ℕ
min_token_len = 16

abbrev pub default_config_path : String
default_config_path = "config.toml"

pub record Tls : Type 0 where
  pub cert : String
  pub key : String

-- The arguments, split.
pub record Args : Type 0 where
  pub path : Option String
  pub rest : List String

-- What is left of a text behind a prefix.
abbrev pub behind : String → String → Option String
behind String.[] s = some s
behind (String.◌∷◌ c p) String.[] = none
behind (String.◌∷◌ c p) (String.◌∷◌ d s) =
    if string_eq.beq (String.◌∷◌ c "") (String.◌∷◌ d "") then behind p s else none

-- One argument that is not `--config` by itself.
abbrev pub other_arg : Args → String → Option String → Option String → Loaded Args
other_arg a s (some path) flag = good (record a { path = some path })
other_arg a s none (some r) = bad (concat "unknown flag `" (concat s "`"))
other_arg a s none none = good (record a { rest = a.rest ++ s ∷ [] })

abbrev pub one_arg : Args → String → Loaded Args
one_arg a s = other_arg a s (behind "--config=" s) (behind "--" s)

unfoldable pub split_from : Args → List String → Loaded Args
split_from a [] = good a
split_from a (s ∷ []) =
    if string_eq.beq s "--config" then bad "--config needs a path" else one_arg a s
split_from a (s ∷ t ∷ ts) =
    let skipped : Loaded Args = split_from (record a { path = some t }) ts in
    let next : Loaded Args = elim (one_arg a s) [
      | bad e ↦ bad e
      | good b ↦ split_from b (t ∷ ts)
    ] in
    if string_eq.beq s "--config" then skipped else next

-- `split_args`: the `--config` path out of the arguments; the rest are tickers.
pub split_args : List String → Loaded Args
split_args args = split_from (record { path = none; rest = [] }) args

-- `str::len`: the bytes of a text.
unfoldable pub byte_len : String → ℕ
byte_len String.[] = 0
byte_len (String.◌∷◌ c s) = len_utf8 c + byte_len s

abbrev pub then_do {ℓ κ} : {A : Type ℓ} {B : Type κ} → Loaded A → (A → Loaded B) → Loaded B
then_do (bad e) f = bad e
then_do (good x) f = f x

abbrev pub or_else {ℓ} : {A : Type ℓ} → Option A → A → A
or_else none x = x
or_else (some y) x = y

abbrev pub none_in {ℓ} : {A : Type ℓ} → List A → Bool
none_in [] = true
none_in (x ∷ xs) = false

abbrev pub no_tls : Option Tls → Bool
no_tls none = true
no_tls (some t) = false

module _ (H : Host) where
  pub record Config : Type 0 where
    pub bind : H.Addr
    pub metrics_bind : Option H.Addr
    pub token : String
    pub markets : List MarketKind
    pub tickers : List String
    pub tls : Option Tls

  pub record FileConfig : Type 0 where
    pub bind : Option H.Addr
    pub metrics_bind : Option H.Addr
    pub token : Option String
    pub markets : Option (List MarketKind)
    pub tickers : Option (List String)
    pub tls : Option Tls

  abbrev pub parsed_env : String → String → Loaded H.Addr → Loaded (Option H.Addr)
  parsed_env name raw (good a) = good (some a)
  parsed_env name raw (bad e) =
      bad (concat name (concat " `" (concat raw (concat "` is not an address: " e))))

  abbrev pub env_addr : String → Option String → Loaded (Option H.Addr)
  env_addr name none = good none
  env_addr name (some raw) = parsed_env name raw (H.parse_addr raw)

  unfoldable pub parse_env_addr : String → Loaded (Option H.Addr)
  parse_env_addr name = env_addr name (H.env name)

  abbrev pub where_to_put : Option String → String
  where_to_put none = "create config.toml with a [tls] section"
  where_to_put (some p) = concat "add a [tls] section to " p

  abbrev pub missing_tls : Option Tls → Option String
  missing_tls none = none
  missing_tls (some t) =
      if not (H.exists t.cert)
      then some (concat "TLS certificate not found: " t.cert)
      else if not (H.exists t.key)
      then some (concat "TLS private key not found: " t.key)
      else none

  -- `Config::validate`; `none` is its `Ok`.
  unfoldable pub validate : Config → Option String → Option String
  validate c source =
      if none_in c.markets
      then some "`markets` is empty: the core would subscribe to nothing"
      else if not (H.is_loopback c.bind) && no_tls c.tls
      then some (
          concat "refusing to serve " (
            concat (H.show_addr c.bind) (
              concat
                " without TLS: the token would cross the network in the clear. Either bind to loopback, or "
                (where_to_put source))))
      else missing_tls c.tls

  abbrev pub token_of : Option String → Option String → Loaded String
  token_of (some t) e = good t
  token_of none (some t) = good t
  token_of none none =
      bad
        "no token: set `token` in the config file or MOON_TOKEN — a core without one would serve anyone"

  abbrev pub bind_of : Option H.Addr → Loaded H.Addr
  bind_of (some a) = good a
  bind_of none = then_do (parse_env_addr "MOON_BIND") (λ a. good (or_else a H.default_bind))

  abbrev pub metrics_bind_of : Option H.Addr → Loaded (Option H.Addr)
  metrics_bind_of (some a) = good (some a)
  metrics_bind_of none = parse_env_addr "MOON_METRICS_BIND"

  abbrev pub tickers_of : List String → Option (List String) → List String
  tickers_of [] file = or_else file ("BTCUSDT" ∷ [])
  tickers_of (t ∷ ts) file = t ∷ ts

  abbrev pub with_tickers :
      FileConfig → List String → String → H.Addr → Option H.Addr → Loaded Config
  with_tickers file tickers token bind metrics_bind =
      if none_in tickers
      then bad "no tickers: the core would connect and stream nothing"
      else good (record {
        bind = bind;
        metrics_bind = metrics_bind;
        token = token;
        markets = or_else file.markets (spot ∷ linear_perp ∷ []);
        tickers = map H.to_uppercase tickers;
        tls = file.tls;
      })

  abbrev pub with_addresses : FileConfig → List String → String → Loaded Config
  with_addresses file args token = then_do (bind_of file.bind) (λ bind.
      then_do (metrics_bind_of file.metrics_bind)
        (λ metrics_bind. with_tickers file (tickers_of args file.tickers) token bind metrics_bind))

  abbrev pub with_token : FileConfig → List String → String → Loaded Config
  with_token file args token =
      if ltb (byte_len token) min_token_len
      then bad "token is shorter than 16 characters"
      else with_addresses file args token

  -- The configuration before it is checked.
  unfoldable pub gathered : FileConfig → List String → Loaded Config
  gathered file args =
      then_do (token_of file.token (H.env "MOON_TOKEN")) (λ token. with_token file args token)

  abbrev pub checked : Config → Option String → Loaded Config
  checked c none = good c
  checked c (some e) = bad e

  -- `Config::assemble`.
  unfoldable pub assemble : FileConfig → Option String → List String → Loaded Config
  assemble file source args = then_do (gathered file args) (λ c. checked c (validate c source))
