-- ===== src/Main.antt =====
-- The program of src/main.rs: its health check, and its start up to the server and the poll loop.
pub mod Laws
use cyclone_dds_ws_bridge.Base.{
  Bool, Bytes, List, Result, err, false, if◌then◌else◌, length, list_eq, nat_eq, ok, pair_eq, take,
  ℕ, ◌++◌, ◌==◌, ◌∷◌,
}
use cyclone_dds_ws_bridge.Base.Int.{ℤ}
use cyclone_dds_ws_bridge.Base.Text.{codes, decimal}
use cyclone_dds_ws_bridge.Bridge.{BridgeInner, try_create_bridge}
use cyclone_dds_ws_bridge.Config.{Config, default_config}
use cyclone_dds_ws_bridge.Config.Env.{ConfigError, Env, load_config_from_args}
use cyclone_dds_ws_bridge.Dds.Api.{Dds}
use cyclone_dds_ws_bridge.Dds.Errors.{DdsError}
use cyclone_dds_ws_bridge.Qos.Normalize.{policy_eq}
use cyclone_dds_ws_bridge.Ws.Server.{crlf}

-- What comes of the request that `run_healthcheck` makes of an address.
pub data Probe : Type 0 where
  invalid_address connect_error write_error read_error : Probe
  response : Bytes → Probe

unfoldable pub starts_with : Bytes → Bytes → Bool
starts_with text start = take (length start) text == start

-- The exit code.
unfoldable pub exit_code : Probe → ℕ
exit_code (response text) = if starts_with text (codes "HTTP/1.1 200") then 0 else 1
exit_code _ = 1

abbrev pub config_or_default : Result ConfigError Config → Config
config_or_default (ok c) = c
config_or_default (err e) = default_config

-- A server that listens on every address is asked on the local one.
unfoldable pub health_host : Config → Bytes
health_host c = if c.websocket.addr == codes "0.0.0.0" then codes "127.0.0.1" else c.websocket.addr

unfoldable pub health_request : Bytes → Bytes
health_request host =
    codes "GET /health HTTP/1.1"
    ++ (crlf
        ++ (codes "Host: " ++ (host ++ (crlf ++ (codes "Connection: close" ++ (crlf ++ crlf))))))

unfoldable pub health_address : Config → Bytes
health_address c = health_host c ++ (codes ":" ++ decimal c.websocket.port)

-- `probe` is the parsing of the address, the connection, the write and the read.
unfoldable pub run_healthcheck :
    (Bytes → Result ConfigError Config) → Env → (Bytes → Bytes → Probe) → List Bytes → ℕ
run_healthcheck read_toml env probe args =
    let c = config_or_default (load_config_from_args read_toml env args) in
    exit_code (probe (health_address c) (health_request (health_host c)))

-- `args.get(1) == Some("healthcheck")`
abbrev pub asks_health : List Bytes → Bool
asks_health (program ∷ arg ∷ args) = arg == codes "healthcheck"
asks_health _ = false

module _ (d : Dds) where
  -- The process exits with a code, or spawns the poll loop and the server on a bridge.
  pub data Start : Type 0 where
    exits : ℕ → Start
    serves : BridgeInner d → Start

  unfoldable pub bridge_started : Result DdsError (BridgeInner d) → Start
  bridge_started (err e) = exits 1
  bridge_started (ok s) = serves s

  unfoldable pub config_loaded :
      (ℕ → d.World → ℤ × d.World) → ℕ → d.World → Result ConfigError Config → Start
  config_loaded dds_create_participant default_domain w (err e) = exits 1
  config_loaded dds_create_participant default_domain w (ok config) =
      bridge_started (try_create_bridge d dds_create_participant default_domain config w)

  -- `main` up to the spawns.
  unfoldable pub main :
      (ℕ → d.World → ℤ × d.World)
      → ℕ
      → (Bytes → Result ConfigError Config)
      → Env
      → (Bytes → Bytes → Probe)
      → List Bytes
      → d.World
      → Start
  main dds_create_participant default_domain read_toml env probe args w =
      if asks_health args
      then exits (run_healthcheck read_toml env probe args)
      else config_loaded dds_create_participant default_domain w
          (load_config_from_args read_toml env args)
