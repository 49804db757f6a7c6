-- ===== src/Protocol/Keys/RoundTrip.antt =====
-- Reading key descriptors back.
use cyclone_dds_ws_bridge.Base.{
  All, Bytes, List, [], append-nil, append_assoc, arith, length, length-append, ok, refl, sym, ◌%◌,
  ◌++◌, ◌<◌, ◌∷◌, ◌≡◌, ◌≤◌,
}
use cyclone_dds_ws_bridge.Base.Buf.{Buf}
use cyclone_dds_ws_bridge.Base.Words.{IsU32, length-to_le_bytes, to_le_bytes}
use cyclone_dds_ws_bridge.Protocol.Keys.{
  KeyDescriptors, KeyField, KeyTypeHint, hint_u8, key_type_hint_from_u8, opaque,
  parse_key_descriptors, parse_key_field, parse_key_fields, serialize_key_descriptors,
  serialize_key_fields,
}
use cyclone_dds_ws_bridge.Protocol.Reader.{lift}
use cyclone_dds_ws_bridge.Protocol.Reader.Laws.{
  Reads, Reads-bind, Reads-last, Reads-map, ensure-Reads, ensure_byte-Reads, pure-Reads,
  u32_le-Reads, u8-Reads,
}

pub record IsKeyField (k : KeyField) : Type 0 where
  pub offset_u32 : IsU32 k.offset
  pub size_u32 : IsU32 k.size

-- The count of keys is one byte.
pub record IsKeyDescriptors (kd : KeyDescriptors) : Type 0 where
  pub few : length kd.keys ≤ 255
  pub fields : All IsKeyField kd.keys

key_type_hint_from_u8-hint_u8 : (h : KeyTypeHint) → key_type_hint_from_u8 (hint_u8 h) ≡ ok h
unfolding key_type_hint_from_u8 hint_u8
key_type_hint_from_u8-hint_u8 opaque = refl
key_type_hint_from_u8-hint_u8 _ = refl

hint_u8-lt : (h : KeyTypeHint) → hint_u8 h < 256
unfolding hint_u8
hint_u8-lt opaque = omega arith
hint_u8-lt _ = omega arith

abbrev pub key_field_bytes : KeyField → Bytes
key_field_bytes k =
    to_le_bytes 4 k.offset ++ (to_le_bytes 4 k.size ++ to_le_bytes 1 (hint_u8 k.type_hint))

abbrev pub key_fields_bytes : List KeyField → Bytes
key_fields_bytes [] = []
key_fields_bytes (k ∷ ks) = key_field_bytes k ++ key_fields_bytes ks

unfoldable pub key_descriptors_bytes : KeyDescriptors → Bytes
key_descriptors_bytes kd = to_le_bytes 1 (length kd.keys % 256) ++ key_fields_bytes kd.keys

module _ ⦃b : Buf⦄ where
  serialize_key_fields-append :
      (ks : List KeyField) (buf : Bytes) → serialize_key_fields ks buf ≡ buf ++ key_fields_bytes ks
  unfolding serialize_key_fields
  serialize_key_fields-append [] buf = sym (append-nil buf)
  serialize_key_fields-append (k ∷ ks) buf =
      simp (serialize_key_fields-append ks, b.put_u8_lem, b.put_u32_le_lem, append_assoc)

  pub serialize_key_descriptors-append :
      (kd : KeyDescriptors) (buf : Bytes)
      → serialize_key_descriptors kd buf ≡ buf ++ key_descriptors_bytes kd
  unfolding serialize_key_descriptors key_descriptors_bytes
  serialize_key_descriptors-append kd buf =
      simp (serialize_key_fields-append, b.put_u8_lem, append_assoc)

  hint-Reads : (h : KeyTypeHint) → Reads (lift (key_type_hint_from_u8 (hint_u8 h))) [] h
  unfolding lift
  hint-Reads h = record { at = λ rest. rw (key_type_hint_from_u8-hint_u8 h, lift) }

  parse_key_field-Reads :
      (k : KeyField) → IsKeyField k → Reads parse_key_field (key_field_bytes k) k
  unfolding parse_key_field
  parse_key_field-Reads k v =
      ensure-Reads 9
        (omega (
          arith,
          length-append (to_le_bytes 4 k.offset)
              (to_le_bytes 4 k.size ++ to_le_bytes 1 (hint_u8 k.type_hint)),
          length-append (to_le_bytes 4 k.size) (to_le_bytes 1 (hint_u8 k.type_hint)),
          length-to_le_bytes,
        ))
        (Reads-bind _ (u32_le-Reads k.offset v.offset_u32) (
          Reads-bind _ (u32_le-Reads k.size v.size_u32) (
            Reads-last _ (u8-Reads _ (hint_u8-lt k.type_hint))
              (Reads-map _ (hint-Reads k.type_hint)))))

  parse_key_fields-Reads :
      (ks : List KeyField)
      → All IsKeyField ks
      → Reads (parse_key_fields (length ks)) (key_fields_bytes ks) ks
  unfolding parse_key_fields
  parse_key_fields-Reads [] v = pure-Reads []
  parse_key_fields-Reads (k ∷ ks) v =
      Reads-bind _ (parse_key_field-Reads k v.0) (Reads-map _ (parse_key_fields-Reads ks v.1))

  pub parse_key_descriptors-Reads :
      (kd : KeyDescriptors)
      → IsKeyDescriptors kd
      → Reads parse_key_descriptors (key_descriptors_bytes kd) kd
  unfolding parse_key_descriptors key_descriptors_bytes
  parse_key_descriptors-Reads kd v =
      let small : length kd.keys % 256 ≡ length kd.keys = omega (arith, v.few) in
      rw small (
        ensure_byte-Reads
          (omega (
            arith,
            length-append (to_le_bytes 1 (length kd.keys)) (key_fields_bytes kd.keys),
            length-to_le_bytes,
          ))
          (Reads-bind _ (u8-Reads (length kd.keys) (omega (arith, v.few)))
            (Reads-map _ (parse_key_fields-Reads kd.keys v.fields))))

  -- Key descriptors (at most 255 keys, with offsets and sizes of 32 bits) are read back as they
  -- were written, and the reader stops where they end.
  parse_key_descriptors-serialize_key_descriptors :
      (kd : KeyDescriptors) (rest : Bytes)
      → IsKeyDescriptors kd
      → parse_key_descriptors (serialize_key_descriptors kd [] ++ rest) ≡ ok (kd, rest)
  parse_key_descriptors-serialize_key_descriptors kd rest v =
      rw serialize_key_descriptors-append ((parse_key_descriptors-Reads kd v).at rest)
