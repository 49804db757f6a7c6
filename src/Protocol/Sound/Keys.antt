-- ===== src/Protocol/Sound/Keys.antt =====
-- What `parse_key_descriptors` of src/protocol.rs has taken.
use cyclone_dds_ws_bridge.Base.{
  All, [], ap, append-nil, arith, length, ok, refl, suc, zero, ℕ, ◌%◌, ◌∷◌, ◌≡◌,
}
use cyclone_dds_ws_bridge.Base.Buf.{Buf}
use cyclone_dds_ws_bridge.Base.Words.{to_le_bytes}
use cyclone_dds_ws_bridge.Protocol.Keys.{
  KeyTypeHint, hint_u8, key_type_hint_from_u8, opaque, parse_key_descriptors, parse_key_field,
  parse_key_fields,
}
use cyclone_dds_ws_bridge.Protocol.Keys.RoundTrip.{
  IsKeyDescriptors, IsKeyField, key_descriptors_bytes, key_field_bytes, key_fields_bytes,
}
use cyclone_dds_ws_bridge.Protocol.Reader.Accepts.{
  Accepts, Accepts-bind, ensure-Accepts, ensure_byte-Accepts, pure-Accepts, u32_le-Accepts,
  u8-Accepts,
}
use cyclone_dds_ws_bridge.Protocol.Reader.Strings.{lift_value-Accepts}

key_type_hint_from_u8-eq-ok :
    (v : ℕ) (h : KeyTypeHint) → key_type_hint_from_u8 v ≡ ok h → v ≡ hint_u8 h
unfolding key_type_hint_from_u8 hint_u8
key_type_hint_from_u8-eq-ok v opaque e = ground arith
key_type_hint_from_u8-eq-ok v _ e = ground arith

module _ ⦃b : Buf⦄ where
  parse_key_field-Accepts :
      Accepts 0 parse_key_field (λ k u s. IsKeyField k × (u ≡ key_field_bytes k))
  unfolding parse_key_field
  parse_key_field-Accepts = ensure-Accepts 9 _ (
      u32_le-Accepts 5 _ _ λ offset offset_u32. u32_le-Accepts 1 _ _ λ size size_u32.
        u8-Accepts 0 _ _ λ tag small.
          Accepts-bind {P = λ hint u s. (u ≡ []) × (tag ≡ hint_u8 hint)} _ _
            (lift_value-Accepts (key_type_hint_from_u8 tag) _
              λ hint s e. (refl, key_type_hint_from_u8-eq-ok tag hint e))
            λ hint u s (no_bytes, same). pure-Accepts _ _ λ r. (
              record { offset_u32 = offset_u32; size_u32 = size_u32 },
              rw (no_bytes, append-nil (to_le_bytes 1 tag), same),
            ))

  parse_key_fields-Accepts :
      (n : ℕ)
      → Accepts 0
          (parse_key_fields n)
          (λ ks u s. All IsKeyField ks × (u ≡ key_fields_bytes ks) × (length ks ≡ n))
  unfolding parse_key_fields
  parse_key_fields-Accepts zero = pure-Accepts [] _ λ s. (tt, refl, refl)
  parse_key_fields-Accepts (suc n) = Accepts-bind _ _ parse_key_field-Accepts λ k u s (valid, used).
      Accepts-bind _ _ (parse_key_fields-Accepts n) λ ks v s' (valids, used', count).
        pure-Accepts (k ∷ ks) _ λ r. ((valid, valids), rw (append-nil v, used, used'), ap suc count)

  -- Key descriptors that are read are valid, and the bytes used are those that the writer appends.
  pub parse_key_descriptors-Accepts :
      Accepts 0 parse_key_descriptors
        (λ kd u s. IsKeyDescriptors kd × (u ≡ key_descriptors_bytes kd))
  unfolding parse_key_descriptors key_descriptors_bytes
  parse_key_descriptors-Accepts = ensure_byte-Accepts _ (
      u8-Accepts 0 _ _ λ count small.
        Accepts-bind _ _ (parse_key_fields-Accepts count) λ ks u s (valids, used, size).
          let wrapped : length ks % 256 ≡ count = omega arith in
          pure-Accepts (record { keys = ks }) _
            λ r. (record { few = omega arith; fields = valids }, rw (append-nil u, wrapped, used)))
