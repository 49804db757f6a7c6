-- ===== src/Protocol/Header/Laws.antt =====
-- What the header functions guarantee.
use cyclone_dds_ws_bridge.Base.{
  Bytes, arith, drop, length, ok, refl, ℕ, ◌%◌, ◌++◌, ◌+◌, ◌^◌, ◌↔◌, ◌≡◌, ◌≢◌, ◌≤◌,
}
use cyclone_dds_ws_bridge.Base.Words.{IsByte, IsU32, from_le_bytes-to_le_bytes, to_le_bytes}
use cyclone_dds_ws_bridge.Protocol.Codes.{MsgType, msg_type_u8}
use cyclone_dds_ws_bridge.Protocol.Header.{
  Header, build_message, header_size, msg_type_from_u8, parse_header, protocol_version,
  serialize_header, validate_client_header,
}

pub record IsHeader (h : Header) : Type 0 where
  pub version_u8 : IsByte h.version
  pub request_id_u32 : IsU32 h.request_id
  pub payload_length_u32 : IsU32 h.payload_length

msg_type_from_u8-msg_type_u8 : (t : MsgType) → msg_type_from_u8 (msg_type_u8 t) ≡ ok t
unfolding msg_type_from_u8 msg_type_u8
msg_type_from_u8-msg_type_u8 MsgType.ping = refl
msg_type_from_u8-msg_type_u8 _ = refl

-- The type byte determines the message type, and no other byte is accepted.
msg_type_from_u8-eq-ok : (v : ℕ) (t : MsgType) → msg_type_from_u8 v ≡ ok t → msg_type_u8 t ≡ v
unfolding msg_type_from_u8 msg_type_u8
msg_type_from_u8-eq-ok v t h = ground arith

-- A header whose fields fit their widths is read back, whatever bytes follow it.
parse_header-serialize_header :
    (h : Header) (rest : Bytes) → IsHeader h → parse_header (serialize_header h ++ rest) ≡ ok h
unfolding parse_header serialize_header to_le_bytes
parse_header-serialize_header h rest v =
    rw
      (
        msg_type_from_u8-msg_type_u8 h.msg_type,
        from_le_bytes-to_le_bytes 4 h.request_id v.request_id_u32,
        from_le_bytes-to_le_bytes 4 h.payload_length v.payload_length_u32,
      )
      refl

-- Everything that `build_message` makes starts with a header that carries the version, the type
-- and the request id it was given and the length of the payload, and the payload follows, if the
-- id and the length fit in 32 bits.
pub parse_header-build_message :
    (t : MsgType) (id : ℕ) (payload : Bytes)
    → IsU32 id
    → IsU32 (length payload)
    → (parse_header (build_message t id payload)
        ≡ ok (record {
          version = protocol_version;
          msg_type = t;
          request_id = id;
          payload_length = length payload;
        }))
      × (drop header_size (build_message t id payload) ≡ payload)
unfolding build_message
parse_header-build_message t id payload i l =
    let small : length payload % 2 ^ 32 ≡ length payload = omega arith in
    rw small (
      parse_header-serialize_header _ payload
          (record { version_u8 = omega arith; request_id_u32 = i; payload_length_u32 = l }),
      unfold serialize_header to_le_bytes in refl,
    )

-- A client header is accepted exactly when its version is supported, its payload is within the
-- limit and its request id is not 0.
pub validate_client_header_iff :
    (h : Header) (max_version max_payload_size : ℕ)
    → (validate_client_header h max_version max_payload_size ≡ ok tt)
      ↔ ((h.version ≤ max_version) × (h.payload_length ≤ max_payload_size) × (h.request_id ≢ 0))
unfolding validate_client_header
validate_client_header_iff h max_version max_payload_size = ground arith

pub length-build_message :
    (t : MsgType) (id : ℕ) (payload : Bytes)
    → length (build_message t id payload) ≡ header_size + length payload
unfolding build_message serialize_header to_le_bytes
length-build_message t id payload = omega arith
