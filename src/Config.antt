-- ===== src/Config.antt =====
-- The configuration of src/config.rs.
pub mod Env
use cyclone_dds_ws_bridge.Base.{Bytes, Option, none, ℕ, ◌*◌}
use cyclone_dds_ws_bridge.Base.Text.{codes}

pub record WebSocketConfig : Type 0 where
  pub addr : Bytes
  pub port : ℕ
  pub max_connections : ℕ
  pub idle_timeout_secs : ℕ

pub record DdsConfig : Type 0 where
  pub domain_id : ℕ
  pub cyclonedds_uri : Option Bytes

pub record BridgeConfig : Type 0 where
  pub max_payload_size : ℕ
  pub session_buffer_size : ℕ

pub record LoggingConfig : Type 0 where
  pub level : Bytes

pub record Config : Type 0 where
  pub websocket : WebSocketConfig
  pub dds : DdsConfig
  pub bridge : BridgeConfig
  pub logging : LoggingConfig

abbrev pub default_max_payload_size : ℕ
default_max_payload_size = 4 * 1024 * 1024

-- `Config::default`
unfoldable pub default_config : Config
default_config = record {
  websocket = record {
    addr = codes "127.0.0.1";
    port = 9876;
    max_connections = 64;
    idle_timeout_secs = 30;
  };
  dds = record { domain_id = 0; cyclonedds_uri = none };
  bridge = record { max_payload_size = default_max_payload_size; session_buffer_size = 256 };
  logging = record { level = codes "info" };
}
