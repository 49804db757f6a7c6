-- ===== src/Protocol/Header.antt =====
-- The message header of src/protocol.rs. The arrays are indexed by their bytes, with no `Buf`.
pub mod Laws
use cyclone_dds_ws_bridge.Base.{
  Bytes, Result, [], err, if◌then◌else◌, length, list_eq, ltb, nat_eq, not, ok, pair_eq, ℕ, ◌%◌,
  ◌++◌, ◌==◌, ◌^◌, ◌||◌, ◌∷◌,
}
use cyclone_dds_ws_bridge.Base.Words.{from_le_bytes, to_le_bytes}
use cyclone_dds_ws_bridge.Protocol.Codes.{MsgType, msg_type_u8}
use cyclone_dds_ws_bridge.Protocol.Errors.{
  ProtocolError, bad_magic, invalid_msg_type, payload_too_large, reserved_request_id, truncated,
  unsupported_version,
}

pub record Header : Type 0 where
  pub version : ℕ
  pub msg_type : MsgType
  pub request_id : ℕ
  pub payload_length : ℕ

abbrev pub protocol_version : ℕ
protocol_version = 0x01

abbrev pub header_size : ℕ
header_size = 12

unfoldable pub msg_type_from_u8 : ℕ → Result ProtocolError MsgType
msg_type_from_u8 val =
    if val == 0x01
    then ok MsgType.subscribe
    else if val == 0x02
    then ok MsgType.unsubscribe
    else if val == 0x03
    then ok MsgType.write
    else if val == 0x04
    then ok MsgType.dispose
    else if val == 0x05
    then ok MsgType.write_dispose
    else if val == 0x10
    then ok MsgType.create_writer
    else if val == 0x11
    then ok MsgType.delete_writer
    else if val == 0x0f
    then ok MsgType.ping
    else if val == 0x80
    then ok MsgType.ok
    else if val == 0xc0
    then ok MsgType.data_sample
    else if val == 0xc1
    then ok MsgType.data_disposed
    else if val == 0xc2
    then ok MsgType.data_no_writers
    else if val == 0xfe
    then ok MsgType.error
    else if val == 0x8f
    then ok MsgType.pong
    else err (invalid_msg_type val)

-- The header of a message whose type byte is known.
header_of : Result ProtocolError MsgType → ℕ → Bytes → Bytes → Result ProtocolError Header
header_of (err e) version id len = err e
header_of (ok t) version id len = ok (record {
  version = version;
  msg_type = t;
  request_id = from_le_bytes id;
  payload_length = from_le_bytes len;
})

-- Twelve bytes or more; fewer are refused.
unfoldable pub parse_header : Bytes → Result ProtocolError Header
unfolding header_of
parse_header (m0 ∷ m1 ∷ v ∷ t ∷ i0 ∷ i1 ∷ i2 ∷ i3 ∷ l0 ∷ l1 ∷ l2 ∷ l3 ∷ rest) =
    if not (m0 == 0x44) || not (m1 == 0x42)
    then err (bad_magic m0 m1)
    else header_of (msg_type_from_u8 t) v (i0 ∷ i1 ∷ i2 ∷ i3 ∷ []) (l0 ∷ l1 ∷ l2 ∷ l3 ∷ [])
parse_header bytes = err (truncated header_size (length bytes))

unfoldable pub serialize_header : Header → Bytes
serialize_header h =
    0x44
    ∷ 0x42
    ∷ h.version
    ∷ msg_type_u8 h.msg_type
    ∷ (to_le_bytes 4 h.request_id ++ to_le_bytes 4 h.payload_length)

-- Build a complete message (header + payload).
unfoldable pub build_message : MsgType → ℕ → Bytes → Bytes
build_message msg_type request_id payload =
    serialize_header (record {
      version = protocol_version;
      msg_type = msg_type;
      request_id = request_id;
      payload_length = length payload % 2 ^ 32;
    })
    ++ payload

unfoldable pub validate_client_header : Header → ℕ → ℕ → Result ProtocolError (Unit {0})
validate_client_header header max_version max_payload_size =
    if ltb max_version header.version
    then err (unsupported_version header.version max_version)
    else if ltb max_payload_size header.payload_length
    then err (payload_too_large header.payload_length max_payload_size)
    else if header.request_id == 0
    then err reserved_request_id
    else ok tt
