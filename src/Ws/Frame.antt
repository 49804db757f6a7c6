-- ===== src/Ws/Frame.antt =====
-- `process_binary_frame` of src/ws/session.rs.
pub mod Laws
use cyclone_dds_ws_bridge.Base.{
  Bytes, List, Option, Result, [], drop, err, if◌then◌else◌, length, ltb, ok, some, take, ℕ, ◌++◌,
  ◌+◌, ◌∷◌,
}
use cyclone_dds_ws_bridge.Base.Buf.{Buf}
use cyclone_dds_ws_bridge.Base.Text.{codes, decimal}
use cyclone_dds_ws_bridge.Bridge.{BridgeInner}
use cyclone_dds_ws_bridge.Bridge.Handler.Requests.{handle_message}
use cyclone_dds_ws_bridge.Dds.Api.{Dds}
use cyclone_dds_ws_bridge.Protocol.Codes.{ErrorCode, MsgType}
use cyclone_dds_ws_bridge.Protocol.Errors.{ProtocolError, protocol_error_text}
use cyclone_dds_ws_bridge.Protocol.Header.{
  Header, build_message, header_size, parse_header, protocol_version, validate_client_header,
}
use cyclone_dds_ws_bridge.Protocol.Serialize.{serialize_error}

-- The text of the reply to a frame that ends before its payload does.
unfoldable pub incomplete_text : Header → ℕ → Bytes
incomplete_text header got =
    codes "incomplete message: expected "
    ++ (decimal (header_size + header.payload_length) ++ (codes " bytes, got " ++ decimal got))

module _ ⦃b : Buf⦄ where
  unfoldable pub make_parse_error : ℕ → Bytes → Bytes
  make_parse_error request_id message =
      build_message MsgType.error request_id (
        serialize_error
          (record { error_code = ErrorCode.invalid_message; error_message = message }))

module _ ⦃b : Buf⦄ {d : Dds} where
  -- After the header is accepted.
  unfoldable pub process_payload :
      ℕ → Bytes → Header → BridgeInner d → Option (List Bytes) × BridgeInner d
  process_payload session_id frame header s =
      if ltb (length frame) (header_size + header.payload_length)
      then (
        some (make_parse_error header.request_id (incomplete_text header (length frame)) ∷ []),
        s,
      )
      else handle_message session_id header.msg_type header.request_id
          (take header.payload_length (drop header_size frame)) s

  unfoldable pub process_validated :
      ℕ
      → Bytes
      → Header
      → Result ProtocolError (Unit {0})
      → BridgeInner d
      → Option (List Bytes) × BridgeInner d
  process_validated session_id frame header (err e) s =
      (some (make_parse_error header.request_id (protocol_error_text e) ∷ []), s)
  process_validated session_id frame header (ok u) s = process_payload session_id frame header s

  unfoldable pub process_header :
      ℕ
      → Bytes
      → ℕ
      → Result ProtocolError Header
      → BridgeInner d
      → Option (List Bytes) × BridgeInner d
  process_header session_id frame max_payload_size (err e) s =
      (some (make_parse_error 0 (protocol_error_text e) ∷ []), s)
  process_header session_id frame max_payload_size (ok header) s =
      process_validated session_id frame header
        (validate_client_header header protocol_version max_payload_size) s

  unfoldable pub process_binary_frame :
      ℕ → Bytes → ℕ → BridgeInner d → Option (List Bytes) × BridgeInner d
  process_binary_frame session_id frame max_payload_size s =
      if ltb (length frame) header_size
      then (some (make_parse_error 0 (codes "message too short") ∷ []), s)
      else process_header session_id frame max_payload_size (parse_header frame) s
