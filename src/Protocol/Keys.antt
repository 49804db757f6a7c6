-- ===== src/Protocol/Keys.antt =====
-- Key descriptors of src/protocol.rs.
pub mod RoundTrip
use cyclone_dds_ws_bridge.Base.{
  Bytes, List, Result, [], err, if◌then◌else◌, length, list_eq, nat_eq, ok, pair_eq, suc, zero, ℕ,
  ◌%◌, ◌==◌, ◌∷◌,
}
use cyclone_dds_ws_bridge.Base.Buf.{Buf}
use cyclone_dds_ws_bridge.Protocol.Errors.{ProtocolError, invalid_key_type_hint}
use cyclone_dds_ws_bridge.Protocol.Reader.{
  Reader, ensure, ensure_byte, lift, pure, u32_le, u8, ◌>>=◌, ◌>>◌,
}

pub data KeyTypeHint : Type 0 where
  opaque uuid int32 int64 string : KeyTypeHint

-- `as u8`
unfoldable pub hint_u8 : KeyTypeHint → ℕ
hint_u8 opaque = 0x00
hint_u8 uuid = 0x01
hint_u8 int32 = 0x02
hint_u8 int64 = 0x03
hint_u8 string = 0x04

unfoldable pub key_type_hint_from_u8 : ℕ → Result ProtocolError KeyTypeHint
key_type_hint_from_u8 val =
    if val == 0x00
    then ok opaque
    else if val == 0x01
    then ok uuid
    else if val == 0x02
    then ok int32
    else if val == 0x03
    then ok int64
    else if val == 0x04
    then ok string
    else err (invalid_key_type_hint val)

pub record KeyField : Type 0 where
  pub offset : ℕ
  pub size : ℕ
  pub type_hint : KeyTypeHint

pub record KeyDescriptors : Type 0 where
  pub keys : List KeyField

module _ ⦃b : Buf⦄ where
  -- One round of the loop of `parse_key_descriptors`.
  unfoldable pub parse_key_field : Reader KeyField
  parse_key_field = do
    ensure 9
    offset ← u32_le
    size ← u32_le
    tag ← u8
    type_hint ← lift (key_type_hint_from_u8 tag)
    pure (record { offset = offset; size = size; type_hint = type_hint })

  -- The loop, `for _ in 0..key_count`.
  unfoldable pub parse_key_fields : ℕ → Reader (List KeyField)
  parse_key_fields zero = pure []
  parse_key_fields (suc n) = do key ← parse_key_field; keys ← parse_key_fields n; pure (key ∷ keys)

  unfoldable pub parse_key_descriptors : Reader KeyDescriptors
  parse_key_descriptors = do
    ensure_byte
    key_count ← u8
    keys ← parse_key_fields key_count
    pure (record { keys = keys })

  unfoldable pub serialize_key_fields : List KeyField → Bytes → Bytes
  serialize_key_fields [] buf = buf
  serialize_key_fields (key ∷ keys) buf =
      serialize_key_fields keys
        (b.put_u8 (b.put_u32_le (b.put_u32_le buf key.offset) key.size) (hint_u8 key.type_hint))

  unfoldable pub serialize_key_descriptors : KeyDescriptors → Bytes → Bytes
  serialize_key_descriptors kd buf =
      serialize_key_fields kd.keys (b.put_u8 buf (length kd.keys % 256))
