-- ===== src/Protocol/Errors.antt =====
-- `ProtocolError` of src/protocol.rs, with the texts that `thiserror` derives for `Display`.
use Prim.Native.Nat.{max}
use cyclone_dds_ws_bridge.Base.{Bytes, length, ℕ, ◌++◌}
use cyclone_dds_ws_bridge.Base.Text.{codes, decimal, hex_u16, hex_u8}

pub data ProtocolError : Type 0 where
  bad_magic : ℕ → ℕ → ProtocolError
  unsupported_version : (got max : ℕ) → ProtocolError
  invalid_msg_type : ℕ → ProtocolError
  truncated : (expected got : ℕ) → ProtocolError
  payload_too_large : (size max : ℕ) → ProtocolError
  reserved_request_id : ProtocolError
  invalid_write_mode : ℕ → ProtocolError
  invalid_utf8 : Bytes → ProtocolError
  invalid_key_type_hint : ℕ → ProtocolError
  invalid_error_code : ℕ → ProtocolError
  invalid_qos_policy_id : ℕ → ProtocolError
  invalid_qos_value : Bytes → ProtocolError
  duplicate_qos_policy : ℕ → ProtocolError
  string_too_long : (length max : ℕ) → ProtocolError
  trailing_bytes : ℕ → ProtocolError

-- `to_string`
pub protocol_error_text : ProtocolError → Bytes
protocol_error_text (bad_magic a b) =
    codes "bad magic: expected [0x44, 0x42], got ["
    ++ (hex_u8 a ++ (codes ", " ++ (hex_u8 b ++ codes "]")))
protocol_error_text (unsupported_version got max) =
    codes "unsupported protocol version "
    ++ (decimal got ++ (codes "; bridge supports up to version " ++ decimal max))
protocol_error_text (invalid_msg_type v) = codes "invalid msg_type: " ++ hex_u8 v
protocol_error_text (truncated expected got) =
    codes "truncated message: expected "
    ++ (decimal expected ++ (codes " bytes, got " ++ decimal got))
protocol_error_text (payload_too_large size max) =
    codes "payload too large: "
    ++ (decimal size ++ (codes " bytes exceeds maximum " ++ decimal max))
protocol_error_text reserved_request_id =
    codes "request_id 0 is reserved for bridge-initiated messages"
protocol_error_text (invalid_write_mode v) = codes "invalid write mode: " ++ hex_u8 v
protocol_error_text (invalid_utf8 text) = codes "invalid UTF-8: " ++ text
protocol_error_text (invalid_key_type_hint v) = codes "invalid key type hint: " ++ hex_u8 v
protocol_error_text (invalid_error_code v) = codes "invalid error code: " ++ hex_u16 v
protocol_error_text (invalid_qos_policy_id v) = codes "invalid QoS policy id: " ++ hex_u8 v
protocol_error_text (invalid_qos_value text) = codes "invalid QoS value: " ++ text
protocol_error_text (duplicate_qos_policy v) = codes "duplicate QoS policy id: " ++ hex_u8 v
protocol_error_text (string_too_long length max) =
    codes "string too long: "
    ++ (decimal length ++ (codes " bytes exceeds maximum " ++ decimal max))
protocol_error_text (trailing_bytes n) =
    codes "unexpected " ++ (decimal n ++ codes " trailing bytes")
