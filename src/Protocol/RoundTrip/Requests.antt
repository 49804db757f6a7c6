-- ===== src/Protocol/RoundTrip/Requests.antt =====
-- Round trips of the messages that clients send.
use cyclone_dds_ws_bridge.Base.{
  Bytes, [], append_assoc, arith, err, if◌then◌else◌, leb, length, ok, refl, ◌%◌, ◌++◌, ◌^◌, ◌∷◌,
  ◌≡◌,
}
use cyclone_dds_ws_bridge.Base.Buf.{Buf}
use cyclone_dds_ws_bridge.Base.Words.{IsU32, from_le_bytes-to_le_bytes, to_le_bytes}
use cyclone_dds_ws_bridge.Protocol.Errors.{trailing_bytes}
use cyclone_dds_ws_bridge.Protocol.Keys.RoundTrip.{
  IsKeyDescriptors, key_descriptors_bytes, parse_key_descriptors-Reads,
  serialize_key_descriptors-append,
}
use cyclone_dds_ws_bridge.Protocol.Messages.{
  CreateWriterPayload, DeleteWriterPayload, SubscribePayload, TopicNameMode, UnsubscribePayload,
  WriteMode, WriterIdMode, by_topic_name, by_writer_id,
}
use cyclone_dds_ws_bridge.Protocol.Parse.{
  create_writer_reader, parse_create_writer, parse_delete_writer, parse_subscribe,
  parse_unsubscribe, parse_write_mode, run, subscribe_reader, topic_name_reader, unsubscribe_reader,
  writer_id_reader,
}
use cyclone_dds_ws_bridge.Protocol.Reader.{check_no_trailing}
use cyclone_dds_ws_bridge.Protocol.Reader.Laws.{
  IsText, lengths, read_string-Reads, slice-Reads, string_bytes, u32_le-Reads, write_string-append,
}
use cyclone_dds_ws_bridge.Protocol.RoundTrip.Parses.{
  Parses-bind, Parses-end, Parses-ensure, Parses-last, Parses-rest, bool_byte, read_bool-Reads,
  run_lem,
}
use cyclone_dds_ws_bridge.Protocol.Serialize.{
  serialize_create_writer, serialize_delete_writer, serialize_subscribe, serialize_unsubscribe,
  serialize_write_mode,
}
use cyclone_dds_ws_bridge.Qos.RoundTrip.{parse_qos-Reads, qos_bytes, serialize_qos-append}
use cyclone_dds_ws_bridge.Qos.Valid.{IsQosSet}

-- What SUBSCRIBE and CREATE_WRITER can carry.
pub record IsSubscribePayload (p : SubscribePayload) : Type 0 where
  pub topic_text : IsText p.topic_name
  pub type_text : IsText p.type_name
  pub qos_valid : IsQosSet p.qos
  pub keys_valid : IsKeyDescriptors p.key_descriptors

pub record IsCreateWriterPayload (p : CreateWriterPayload) : Type 0 where
  pub topic_text : IsText p.topic_name
  pub type_text : IsText p.type_name
  pub qos_valid : IsQosSet p.qos
  pub keys_valid : IsKeyDescriptors p.key_descriptors

pub record IsTopicNameMode (m : TopicNameMode) : Type 0 where
  pub topic_text : IsText m.topic_name
  pub type_text : IsText m.type_name
  pub qos_valid : IsQosSet m.qos
  pub keys_valid : IsKeyDescriptors m.key_descriptors

pub record IsWriterIdMode (m : WriterIdMode) : Type 0 where
  pub id_u32 : IsU32 m.writer_id
  pub key_length_u32 : IsU32 (length m.key_bytes)

abbrev pub IsWriteMode : WriteMode → Type 0
IsWriteMode (by_topic_name m) = IsTopicNameMode m
IsWriteMode (by_writer_id m) = IsWriterIdMode m

module _ ⦃b : Buf⦄ where
  serialize_subscribe-append :
      (p : SubscribePayload)
      → serialize_subscribe p
        ≡ string_bytes p.topic_name
          ++ (string_bytes p.type_name
              ++ (qos_bytes p.qos
                  ++ (bool_byte p.is_keyed ++ key_descriptors_bytes p.key_descriptors)))
  unfolding serialize_subscribe
  serialize_subscribe-append p = simp (
    write_string-append, serialize_qos-append, b.put_u8_lem, serialize_key_descriptors-append,
    append_assoc,
  )

  -- A SUBSCRIBE payload with valid texts, policies and keys is read back as it was written.
  pub parse_subscribe-serialize_subscribe :
      (p : SubscribePayload) → IsSubscribePayload p → parse_subscribe (serialize_subscribe p) ≡ ok p
  unfolding parse_subscribe subscribe_reader
  parse_subscribe-serialize_subscribe p v = rw serialize_subscribe-append (
      run_lem (
        Parses-bind _ (read_string-Reads p.topic_name v.topic_text) (
          Parses-bind _ (read_string-Reads p.type_name v.type_text) (
            Parses-bind _ (parse_qos-Reads p.qos v.qos_valid) (
              Parses-bind _ (read_bool-Reads p.is_keyed) (
                Parses-last _ (parse_key_descriptors-Reads p.key_descriptors v.keys_valid)
                  (Parses-end p)))))))

  serialize_create_writer-append :
      (p : CreateWriterPayload)
      → serialize_create_writer p
        ≡ string_bytes p.topic_name
          ++ (string_bytes p.type_name
              ++ (qos_bytes p.qos
                  ++ (bool_byte p.is_keyed ++ key_descriptors_bytes p.key_descriptors)))
  unfolding serialize_create_writer
  serialize_create_writer-append p = simp (
    write_string-append, serialize_qos-append, b.put_u8_lem, serialize_key_descriptors-append,
    append_assoc,
  )

  -- A CREATE_WRITER payload with valid texts, policies and keys is read back as it was written.
  parse_create_writer-serialize_create_writer :
      (p : CreateWriterPayload)
      → IsCreateWriterPayload p
      → parse_create_writer (serialize_create_writer p) ≡ ok p
  unfolding parse_create_writer create_writer_reader
  parse_create_writer-serialize_create_writer p v = rw serialize_create_writer-append (
      run_lem (
        Parses-bind _ (read_string-Reads p.topic_name v.topic_text) (
          Parses-bind _ (read_string-Reads p.type_name v.type_text) (
            Parses-bind _ (parse_qos-Reads p.qos v.qos_valid) (
              Parses-bind _ (read_bool-Reads p.is_keyed) (
                Parses-last _ (parse_key_descriptors-Reads p.key_descriptors v.keys_valid)
                  (Parses-end p)))))))

  serialize_unsubscribe-append :
      (p : UnsubscribePayload)
      → serialize_unsubscribe p ≡ string_bytes p.topic_name ++ string_bytes p.type_name
  unfolding serialize_unsubscribe
  serialize_unsubscribe-append p = simp (write_string-append, append_assoc)

  -- An UNSUBSCRIBE payload with valid texts is read back as it was written.
  pub parse_unsubscribe-serialize_unsubscribe :
      (p : UnsubscribePayload)
      → IsText p.topic_name
      → IsText p.type_name
      → parse_unsubscribe (serialize_unsubscribe p) ≡ ok p
  unfolding parse_unsubscribe unsubscribe_reader
  parse_unsubscribe-serialize_unsubscribe p u v = rw serialize_unsubscribe-append (
      run_lem (
        Parses-bind _ (read_string-Reads p.topic_name u)
          (Parses-last _ (read_string-Reads p.type_name v) (Parses-end p))))

  pub serialize_topic_name_mode-append :
      (m : TopicNameMode)
      → serialize_write_mode (by_topic_name m)
        ≡ to_le_bytes 1 0x00
          ++ (string_bytes m.topic_name
              ++ (string_bytes m.type_name
                  ++ (qos_bytes m.qos ++ (key_descriptors_bytes m.key_descriptors ++ m.content))))
  unfolding serialize_write_mode
  serialize_topic_name_mode-append m = simp (
    write_string-append, serialize_qos-append, b.put_u8_lem, b.put_slice_lem,
    serialize_key_descriptors-append, append_assoc,
  )

  topic_name_tag :
      (s : Bytes) → parse_write_mode (to_le_bytes 1 0x00 ++ s) ≡ run topic_name_reader s
  unfolding parse_write_mode to_le_bytes
  topic_name_tag s = refl

  topic_name_mode_lem :
      (m : TopicNameMode)
      → IsTopicNameMode m
      → parse_write_mode (serialize_write_mode (by_topic_name m)) ≡ ok (by_topic_name m)
  unfolding topic_name_reader
  topic_name_mode_lem m v =
      rw (serialize_topic_name_mode-append, topic_name_tag)
        (run_lem (
          Parses-bind _ (read_string-Reads m.topic_name v.topic_text) (
            Parses-bind _ (read_string-Reads m.type_name v.type_text) (
              Parses-bind _ (parse_qos-Reads m.qos v.qos_valid) (
                Parses-bind _ (parse_key_descriptors-Reads m.key_descriptors v.keys_valid)
                  (Parses-rest _ m.content))))))

  pub serialize_writer_id_mode-append :
      (m : WriterIdMode)
      → serialize_write_mode (by_writer_id m)
        ≡ to_le_bytes 1 0x01
          ++ (to_le_bytes 4 m.writer_id
              ++ (to_le_bytes 4 (length m.key_bytes % 2 ^ 32) ++ (m.key_bytes ++ m.content)))
  unfolding serialize_write_mode
  serialize_writer_id_mode-append m =
      simp (b.put_u8_lem, b.put_u32_le_lem, b.put_slice_lem, append_assoc)

  writer_id_tag : (s : Bytes) → parse_write_mode (to_le_bytes 1 0x01 ++ s) ≡ run writer_id_reader s
  unfolding parse_write_mode to_le_bytes
  writer_id_tag s = refl

  writer_id_mode_lem :
      (m : WriterIdMode)
      → IsWriterIdMode m
      → parse_write_mode (serialize_write_mode (by_writer_id m)) ≡ ok (by_writer_id m)
  unfolding writer_id_reader
  writer_id_mode_lem m v =
      let small : length m.key_bytes % 2 ^ 32 ≡ length m.key_bytes =
        omega (arith, v.key_length_u32) in
      rw (serialize_writer_id_mode-append, writer_id_tag, small)
        (run_lem (
          Parses-ensure 8 (omega lengths) (
            Parses-bind _ (u32_le-Reads m.writer_id v.id_u32) (
              Parses-bind _ (u32_le-Reads (length m.key_bytes) v.key_length_u32) (
                Parses-ensure (length m.key_bytes) (omega lengths)
                  (Parses-bind _ (slice-Reads m.key_bytes) (Parses-rest _ m.content)))))))

  -- The payload of WRITE, DISPOSE and WRITE_DISPOSE is read back in both of its modes: by topic
  -- name with valid texts, policies and keys, and by writer id with an id and a key length of 32
  -- bits.
  pub parse_write_mode-serialize_write_mode :
      (m : WriteMode) → IsWriteMode m → parse_write_mode (serialize_write_mode m) ≡ ok m
  parse_write_mode-serialize_write_mode (by_topic_name m) v = topic_name_mode_lem m v
  parse_write_mode-serialize_write_mode (by_writer_id m) v = writer_id_mode_lem m v

  -- A DELETE_WRITER payload with a writer id of 32 bits is read back, and is refused with the
  -- number of the bytes that follow it if any do.
  parse_delete_writer-serialize_delete_writer :
      (p : DeleteWriterPayload) (rest : Bytes)
      → IsU32 p.writer_id
      → parse_delete_writer (serialize_delete_writer p ++ rest)
        ≡ (if leb (length rest) 0 then ok p else err (trailing_bytes (length rest)))
  unfolding parse_delete_writer serialize_delete_writer check_no_trailing to_le_bytes
  parse_delete_writer-serialize_delete_writer p [] h =
      rw (b.put_u32_le_lem, from_le_bytes-to_le_bytes 4 p.writer_id h) refl
  parse_delete_writer-serialize_delete_writer p (x ∷ rest) h = rw b.put_u32_le_lem (ground arith)
