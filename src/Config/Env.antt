-- ===== src/Config/Env.antt =====
-- How the environment and the arguments change the configuration: src/config.rs and src/main.rs.
pub mod Laws
use cyclone_dds_ws_bridge.Base.{
  Bytes, List, Option, Result, [], err, if◌then◌else◌, leb, list_eq, map_ok, nat_eq, none, ok,
  pair_eq, some, ℕ, ◌&&◌, ◌*◌, ◌+◌, ◌-◌, ◌==◌, ◌^◌, ◌∷◌,
}
use cyclone_dds_ws_bridge.Base.Text.{codes}
use cyclone_dds_ws_bridge.Config.{Config, default_config}
use cyclone_dds_ws_bridge.Qos.Normalize.{policy_eq}

pub data ConfigError : Type 0 where
  -- The path, and the text of the error of the system.
  file_read : Bytes → Bytes → ConfigError
  parse : Bytes → ConfigError
  invalid_env_var : Bytes → Bytes → ConfigError

-- The value of a decimal digit.
abbrev pub digit : ℕ → Option ℕ
digit c = if leb 48 c && leb c 57 then some (c - 48) else none

-- The number that digits stand for, unless it exceeds the largest number of the type.
unfoldable pub from_digits : ℕ → Bytes → ℕ → Option ℕ
from_digits largest [] n = some n
from_digits largest (c ∷ cs) n = elim (digit c) [
  | none ↦ none
  | some k ↦
      let rest = from_digits largest cs (10 * n + k) in
      if leb (10 * n + k) largest then rest else none
]

-- `str::parse` of an unsigned number: a sign `+` may stand before the digits.
unfoldable pub parse_unsigned : ℕ → Bytes → Option ℕ
parse_unsigned largest [] = none
parse_unsigned largest (c ∷ []) = from_digits largest (c ∷ []) 0
parse_unsigned largest (c ∷ d ∷ cs) =
    if c == 43 then from_digits largest (d ∷ cs) 0 else from_digits largest (c ∷ d ∷ cs) 0

-- `std::env::var`: the value of a variable that is set to valid Unicode.
abbrev pub Env : Type 0
Env = Bytes → Option Bytes

abbrev pub port_var : Bytes
port_var = codes "DDS_BRIDGE_WS_PORT"

abbrev pub domain_var : Bytes
domain_var = codes "DDS_BRIDGE_DDS_DOMAIN"

abbrev pub with_addr : Option Bytes → Config → Config
with_addr none c = c
with_addr (some val) c = record c { websocket = record c.websocket { addr = val } }

abbrev pub number_or_error : Bytes → Bytes → Option ℕ → Result ConfigError ℕ
number_or_error name val none = err (invalid_env_var name val)
number_or_error name val (some n) = ok n

-- `val.parse().map_err(..)?` of a variable that may be set, or the number there was.
abbrev pub overridden : ℕ → Bytes → Option Bytes → ℕ → Result ConfigError ℕ
overridden largest name none n = ok n
overridden largest name (some val) n = number_or_error name val (parse_unsigned largest val)

abbrev pub with_uri : Option Bytes → Config → Config
with_uri none c = c
with_uri (some val) c = record c { dds = record c.dds { cyclonedds_uri = some val } }

abbrev pub with_domain : Env → Config → Result ConfigError ℕ → Result ConfigError Config
with_domain env c (err e) = err e
with_domain env c (ok n) =
    ok (with_uri (env (codes "CYCLONEDDS_URI")) (record c { dds = record c.dds { domain_id = n } }))

abbrev pub with_port : Env → Config → Result ConfigError ℕ → Result ConfigError Config
with_port env c (err e) = err e
with_port env c (ok n) =
    with_domain env (record c { websocket = record c.websocket { port = n } })
      (overridden (2 ^ 32 - 1) domain_var (env domain_var) c.dds.domain_id)

unfoldable pub apply_env_overrides : Env → Config → Result ConfigError Config
apply_env_overrides env config =
    let c = with_addr (env (codes "DDS_BRIDGE_WS_ADDR")) config in
    with_port env c (overridden (2 ^ 16 - 1) port_var (env port_var) c.websocket.port)

-- `Config::from_defaults`
unfoldable pub from_defaults : Env → Result ConfigError Config
from_defaults env = apply_env_overrides env default_config

-- `parse_verbosity`: the loop over the arguments but the first.
unfoldable pub verbosity_in : List Bytes → Option Bytes
verbosity_in [] = none
verbosity_in (arg ∷ args) =
    let rest = verbosity_in args in
    if arg == codes "-vv"
    then some (codes "trace")
    else if arg == codes "-v"
    then some (codes "debug")
    else rest

unfoldable pub parse_verbosity : List Bytes → Option Bytes
parse_verbosity [] = none
parse_verbosity (program ∷ args) = verbosity_in args

-- `args.windows(2).find(|w| w[0] == "--config")`, the path.
unfoldable pub config_path : List Bytes → Option Bytes
config_path [] = none
config_path (arg ∷ []) = none
config_path (arg ∷ next_arg ∷ args) =
    let rest = config_path (next_arg ∷ args) in
    if arg == codes "--config" then some next_arg else rest

abbrev pub with_level : Option Bytes → Config → Config
with_level none c = c
with_level (some level) c = record c { logging = record { level = level } }

abbrev pub and_overrides : Env → Result ConfigError Config → Result ConfigError Config
and_overrides env (err e) = err e
and_overrides env (ok c) = apply_env_overrides env c

-- `read_toml` is what the file system and the crate `toml` make of a path.
abbrev pub base_config :
    (Bytes → Result ConfigError Config) → Env → Option Bytes → Result ConfigError Config
base_config read_toml env none = from_defaults env
base_config read_toml env (some path) = and_overrides env (read_toml path)

unfoldable pub load_config_from_args :
    (Bytes → Result ConfigError Config) → Env → List Bytes → Result ConfigError Config
load_config_from_args read_toml env args =
    map_ok (with_level (parse_verbosity args)) (base_config read_toml env (config_path args))

-- `Config::load`
unfoldable pub load : (Bytes → Result ConfigError Config) → Env → Bytes → Result ConfigError Config
load read_toml env path = and_overrides env (read_toml path)
