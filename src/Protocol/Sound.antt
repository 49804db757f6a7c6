-- ===== src/Protocol/Sound.antt =====
-- What the parsers of src/protocol.rs for the clients' messages accept.
mod Keys
use cyclone_dds_ws_bridge.Base.{
  Bool-cases, Bytes, Result-cases, [], append-nil, append_assoc, arith, inl, inr, length, list_eq,
  nat_eq, ok, pair_eq, refl, ℕ, ◌%◌, ◌++◌, ◌==◌, ◌^◌, ◌↔◌, ◌∙◌, ◌∷◌, ◌≡◌,
}
use cyclone_dds_ws_bridge.Base.Buf.{Buf}
use cyclone_dds_ws_bridge.Base.Words.{AllBytes, to_le_bytes}
use cyclone_dds_ws_bridge.Protocol.Keys.RoundTrip.{key_descriptors_bytes}
use cyclone_dds_ws_bridge.Protocol.Messages.{
  SubscribePayload, WriteMode, by_topic_name, by_writer_id,
}
use cyclone_dds_ws_bridge.Protocol.Parse.{
  parse_subscribe, parse_write_mode, run, subscribe_reader, topic_name_reader, writer_id_reader,
}
use cyclone_dds_ws_bridge.Protocol.Reader.{Reader}
use cyclone_dds_ws_bridge.Protocol.Reader.Accepts.{
  Accepts, Accepts-bind, ensure-Accepts, u32_le-Accepts,
}
use cyclone_dds_ws_bridge.Protocol.Reader.Laws.{string_bytes}
use cyclone_dds_ws_bridge.Protocol.Reader.Strings.{
  no_trailing-Accepts, read_bool-Accepts, read_string-Accepts, rest_bytes-Accepts, slice-Accepts,
}
use cyclone_dds_ws_bridge.Protocol.RoundTrip.Requests.{
  IsSubscribePayload, IsWriteMode, parse_write_mode-serialize_write_mode,
  serialize_topic_name_mode-append, serialize_writer_id_mode-append,
}
use cyclone_dds_ws_bridge.Protocol.Serialize.{serialize_write_mode}
use cyclone_dds_ws_bridge.Protocol.Sound.Keys.{parse_key_descriptors-Accepts}
use cyclone_dds_ws_bridge.Qos.RoundTrip.{qos_bytes}
use cyclone_dds_ws_bridge.Qos.Sound.{parse_qos-Accepts}

-- What stands before and after the mode byte of a WRITE payload.
abbrev mode_tag : WriteMode → ℕ
mode_tag (by_topic_name m) = 0
mode_tag (by_writer_id m) = 1

abbrev mode_bytes : WriteMode → Bytes
mode_bytes (by_topic_name m) =
    string_bytes m.topic_name
    ++ (string_bytes m.type_name
        ++ (qos_bytes m.qos ++ (key_descriptors_bytes m.key_descriptors ++ m.content)))
mode_bytes (by_writer_id m) =
    to_le_bytes 4 m.writer_id
    ++ (to_le_bytes 4 (length m.key_bytes % 2 ^ 32) ++ (m.key_bytes ++ m.content))

abbrev IsMode : ℕ → WriteMode → Bytes → Bytes → Type 0
IsMode tag m u s = IsWriteMode m × (u ++ s ≡ mode_bytes m) × (mode_tag m ≡ tag)

module _ ⦃b : Buf⦄ where
  topic_name_reader-Accepts : Accepts 0 topic_name_reader (IsMode 0)
  unfolding topic_name_reader
  topic_name_reader-Accepts =
      Accepts-bind _ _ read_string-Accepts λ topic_name u s (topic_text, used).
        Accepts-bind _ _ read_string-Accepts λ type_name u' s' (type_text, used').
          Accepts-bind _ _ parse_qos-Accepts λ qos u'' s'' (qos_valid, used'').
            Accepts-bind _ _ parse_key_descriptors-Accepts λ keys v r (keys_valid, last).
              rest_bytes-Accepts _ _ λ content. (
                record {
                  topic_text = topic_text;
                  type_text = type_text;
                  qos_valid = qos_valid;
                  keys_valid = keys_valid;
                },
                rw (used, used', used'', last) (simp (append_assoc, append-nil)),
                refl,
              )

  writer_id_reader-Accepts : Accepts 0 writer_id_reader (IsMode 1)
  unfolding writer_id_reader
  writer_id_reader-Accepts = ensure-Accepts 8 _ (
      u32_le-Accepts 4 _ _ λ writer_id id_u32. u32_le-Accepts 0 _ _ λ key_len len_u32.
        ensure-Accepts key_len _ (
          slice-Accepts key_len _ _ λ key_bytes size all. rest_bytes-Accepts _ _ λ content.
            let wrapped : length key_bytes % 2 ^ 32 ≡ key_len = omega arith in
            (
              record { id_u32 = id_u32; key_length_u32 = omega arith },
              rw wrapped (simp (append_assoc, append-nil)),
              refl,
            )))

  run-eq-ok :
      {A : Type 0} (m : Reader A) (s : Bytes) {a : A}
      → run m s ≡ ok a
      → (rest : Bytes) × (m s ≡ ok (a, rest))
  unfolding run
  run-eq-ok m s h = elim (Result-cases (m s)) [
    | inl ((c, rest), e) ↦ let same = rw (e, run) at h in (rest, e ∙ (cc))
    | inr (error, e) ↦ let same = rw (e, run) at h in cc
  ]

  run-IsMode :
      (tag : ℕ) (m : Reader WriteMode) (s : Bytes) {a : WriteMode}
      → Accepts 0 m (IsMode tag)
      → AllBytes s
      → run m s ≡ ok a
      → IsWriteMode a × (s ≡ mode_bytes a) × (mode_tag a ≡ tag)
  run-IsMode tag m s {a} r bytes h =
      let (rest, read) = run-eq-ok m s h in
      let (u, split, bytes', (valid, same, tagged)) = r.at s a rest bytes (omega arith) read in
      (valid, split ∙ same, tagged)

  serialize_write_mode_lem : (m : WriteMode) → serialize_write_mode m ≡ mode_tag m ∷ mode_bytes m
  unfolding to_le_bytes
  serialize_write_mode_lem (by_topic_name m) = serialize_topic_name_mode-append m
  serialize_write_mode_lem (by_writer_id m) = serialize_writer_id_mode-append m

  tagged_bytes :
      (tag : ℕ) (s : Bytes) (m : WriteMode)
      → IsWriteMode m × (s ≡ mode_bytes m) × (mode_tag m ≡ tag)
      → IsWriteMode m × (tag ∷ s ≡ serialize_write_mode m)
  tagged_bytes tag s m (valid, same, tagged) =
      (valid, rw (serialize_write_mode_lem, tagged, ← same))

  accepted_mode :
      (s : Bytes) (m : WriteMode)
      → AllBytes s
      → parse_write_mode s ≡ ok m
      → IsWriteMode m × (s ≡ serialize_write_mode m)
  unfolding parse_write_mode
  accepted_mode [] m bytes h = cc
  accepted_mode (mode ∷ s) m bytes h = elim (Bool-cases (mode == 0)) [
    | inl zero_tag ↦
        let tag : mode ≡ 0 = ground arith in
        rw tag (
          tagged_bytes 0 s m
            (run-IsMode 0 topic_name_reader s topic_name_reader-Accepts bytes.1 (rw zero_tag at h)))
    | inr other ↦ elim (Bool-cases (mode == 1)) [
      | inl one_tag ↦
          let tag : mode ≡ 1 = ground arith in
          rw tag (
            tagged_bytes 1 s m (
              run-IsMode 1 writer_id_reader s writer_id_reader-Accepts bytes.1
                (rw (other, one_tag) at h)))
      | inr unknown ↦ let refused = rw (other, unknown) at h in cc
    ]
  ]

  -- On bytes, `parse_write_mode`, which reads the payloads of WRITE, DISPOSE and WRITE_DISPOSE,
  -- yields a mode exactly if the mode is valid (texts in UTF-8 and not too long, a valid QoS set,
  -- keys, ids and lengths within their widths) and the bytes are what `serialize_write_mode`
  -- writes for it: by writer id that is with the length of the key and the key bytes before the
  -- content, which docs/protocol.md leaves out.
  pub parse_write_mode-eq-ok_iff :
      (s : Bytes) (m : WriteMode)
      → AllBytes s
      → (parse_write_mode s ≡ ok m) ↔ (IsWriteMode m × (s ≡ serialize_write_mode m))
  parse_write_mode-eq-ok_iff s m bytes =
      (accepted_mode s m bytes, λ (valid, e). rw e (parse_write_mode-serialize_write_mode m valid))

  subscribe_reader-Accepts : Accepts 0 subscribe_reader (λ p u s. IsSubscribePayload p)
  unfolding subscribe_reader
  subscribe_reader-Accepts =
      Accepts-bind _ _ read_string-Accepts λ topic_name u s (topic_text, used).
        Accepts-bind _ _ read_string-Accepts λ type_name u' s' (type_text, used').
          Accepts-bind _ _ parse_qos-Accepts λ qos u'' s'' (qos_valid, used'').
            Accepts-bind _ _ read_bool-Accepts λ is_keyed w r' keyed.
              Accepts-bind _ _ parse_key_descriptors-Accepts λ keys v r (keys_valid, last).
                no_trailing-Accepts _ _ (record {
                  topic_text = topic_text;
                  type_text = type_text;
                  qos_valid = qos_valid;
                  keys_valid = keys_valid;
                })

  -- A SUBSCRIBE payload that is accepted holds valid texts, policies and keys.
  parse_subscribe-IsSubscribePayload :
      (s : Bytes) (p : SubscribePayload)
      → AllBytes s
      → parse_subscribe s ≡ ok p
      → IsSubscribePayload p
  unfolding parse_subscribe
  parse_subscribe-IsSubscribePayload s p bytes h =
      let (rest, read) = run-eq-ok subscribe_reader s h in
      let (u, split, bytes', valid) =
        subscribe_reader-Accepts.at s p rest bytes (omega arith) read in
      valid
