-- ===== src/Protocol/Parse.antt =====
-- The parsers of the message payloads of src/protocol.rs.
use cyclone_dds_ws_bridge.Base.{
  Bytes, Result, [], err, if◌then◌else◌, length, list_eq, map_ok, nat_eq, ok, pair_eq, ℕ, ◌==◌, ◌∷◌,
}
use cyclone_dds_ws_bridge.Base.Buf.{Buf}
use cyclone_dds_ws_bridge.Base.Words.{from_le_bytes}
use cyclone_dds_ws_bridge.Protocol.Codes.{ErrorCode}
use cyclone_dds_ws_bridge.Protocol.Errors.{
  ProtocolError, invalid_error_code, invalid_write_mode, truncated,
}
use cyclone_dds_ws_bridge.Protocol.Keys.{parse_key_descriptors}
use cyclone_dds_ws_bridge.Protocol.Messages.{
  CreateWriterPayload, DataDisposedPayload, DataNoWritersPayload, DataPayload, DeleteWriterPayload,
  DisposePayload, ErrorPayload, SubscribePayload, UnsubscribePayload, WriteDisposePayload,
  WriteMode, WritePayload, by_topic_name, by_writer_id,
}
use cyclone_dds_ws_bridge.Protocol.Reader.{
  Reader, check_no_trailing, ensure, lift, pure, read_bool, read_string, slice, u16_le, u32_le,
  u64_le, ◌>>=◌, ◌>>◌,
}
use cyclone_dds_ws_bridge.Qos.Codec.{parse_qos}

unfoldable pub error_code_from_u16 : ℕ → Result ProtocolError ErrorCode
error_code_from_u16 val =
    if val == 0x0001
    then ok ErrorCode.invalid_message
    else if val == 0x0002
    then ok ErrorCode.topic_not_found
    else if val == 0x0003
    then ok ErrorCode.dds_error
    else if val == 0x0004
    then ok ErrorCode.writer_not_found
    else if val == 0x0005
    then ok ErrorCode.reader_not_found
    else if val == 0x0006
    then ok ErrorCode.invalid_qos
    else if val == 0x0007
    then ok ErrorCode.already_exists
    else if val == 0x0008
    then ok ErrorCode.internal_error
    else if val == 0x0009
    then ok ErrorCode.buffer_overflow
    else err (invalid_error_code val)

-- A parser reads the whole payload, and its value is what counts.
unfoldable pub run {ℓ} : {A : Type ℓ} → Reader A → Bytes → Result ProtocolError A
run m payload = elim (m payload) [ ok (a, rest) ↦ ok a | err e ↦ err e ]

-- `buf.to_vec()`
unfoldable pub rest_bytes : Reader Bytes
rest_bytes s = ok (s, s)

-- `check_no_trailing(buf)?`
unfoldable pub no_trailing : Reader (Unit {0})
no_trailing s = lift (check_no_trailing s) s

module _ ⦃b : Buf⦄ where
  unfoldable pub subscribe_reader : Reader SubscribePayload
  subscribe_reader = do
    topic_name ← read_string
    type_name ← read_string
    qos ← parse_qos
    is_keyed ← read_bool
    key_descriptors ← parse_key_descriptors
    no_trailing
    pure (record {
      topic_name = topic_name;
      type_name = type_name;
      qos = qos;
      is_keyed = is_keyed;
      key_descriptors = key_descriptors;
    })

  unfoldable pub parse_subscribe : Bytes → Result ProtocolError SubscribePayload
  parse_subscribe = run subscribe_reader

  unfoldable pub unsubscribe_reader : Reader UnsubscribePayload
  unsubscribe_reader = do
    topic_name ← read_string
    type_name ← read_string
    no_trailing
    pure (record { topic_name = topic_name; type_name = type_name })

  unfoldable pub parse_unsubscribe : Bytes → Result ProtocolError UnsubscribePayload
  parse_unsubscribe = run unsubscribe_reader

  unfoldable pub topic_name_reader : Reader WriteMode
  topic_name_reader = do
    topic_name ← read_string
    type_name ← read_string
    qos ← parse_qos
    key_descriptors ← parse_key_descriptors
    content ← rest_bytes
    pure (
        by_topic_name (record {
          topic_name = topic_name;
          type_name = type_name;
          qos = qos;
          key_descriptors = key_descriptors;
          content = content;
        }))

  unfoldable pub writer_id_reader : Reader WriteMode
  writer_id_reader = do
    ensure 8
    writer_id ← u32_le
    key_len ← u32_le
    ensure key_len
    key_bytes ← slice key_len
    content ← rest_bytes
    pure (by_writer_id (record { writer_id = writer_id; key_bytes = key_bytes; content = content }))

  unfoldable pub parse_write_mode : Bytes → Result ProtocolError WriteMode
  parse_write_mode [] = err (truncated 1 0)
  parse_write_mode (mode ∷ buf) =
      if mode == 0x00
      then run topic_name_reader buf
      else if mode == 0x01
      then run writer_id_reader buf
      else err (invalid_write_mode mode)

  unfoldable pub parse_write : Bytes → Result ProtocolError WritePayload
  parse_write payload = map_ok (λ m. record { mode = m }) (parse_write_mode payload)

  unfoldable pub parse_dispose : Bytes → Result ProtocolError DisposePayload
  parse_dispose payload = map_ok (λ m. record { mode = m }) (parse_write_mode payload)

  unfoldable pub parse_write_dispose : Bytes → Result ProtocolError WriteDisposePayload
  parse_write_dispose payload = map_ok (λ m. record { mode = m }) (parse_write_mode payload)

  unfoldable pub create_writer_reader : Reader CreateWriterPayload
  create_writer_reader = do
    topic_name ← read_string
    type_name ← read_string
    qos ← parse_qos
    is_keyed ← read_bool
    key_descriptors ← parse_key_descriptors
    no_trailing
    pure (record {
      topic_name = topic_name;
      type_name = type_name;
      qos = qos;
      is_keyed = is_keyed;
      key_descriptors = key_descriptors;
    })

  unfoldable pub parse_create_writer : Bytes → Result ProtocolError CreateWriterPayload
  parse_create_writer = run create_writer_reader

  unfoldable pub error_reader : Reader ErrorPayload
  error_reader = do
    ensure 2
    code ← u16_le
    error_code ← lift (error_code_from_u16 code)
    error_message ← read_string
    no_trailing
    pure (record { error_code = error_code; error_message = error_message })

  unfoldable pub parse_error : Bytes → Result ProtocolError ErrorPayload
  parse_error = run error_reader

  unfoldable pub data_reader : Reader DataPayload
  data_reader = do
    topic_name ← read_string
    ensure 8
    source_timestamp ← u64_le
    content ← rest_bytes
    pure
        (record { topic_name = topic_name; source_timestamp = source_timestamp; content = content })

  unfoldable pub parse_data : Bytes → Result ProtocolError DataPayload
  parse_data = run data_reader

  unfoldable pub data_disposed_reader : Reader DataDisposedPayload
  data_disposed_reader = do
    topic_name ← read_string
    ensure 8
    source_timestamp ← u64_le
    key_data ← rest_bytes
    pure (record {
      topic_name = topic_name;
      source_timestamp = source_timestamp;
      key_data = key_data;
    })

  unfoldable pub parse_data_disposed : Bytes → Result ProtocolError DataDisposedPayload
  parse_data_disposed = run data_disposed_reader

  unfoldable pub data_no_writers_reader : Reader DataNoWritersPayload
  data_no_writers_reader = do
    topic_name ← read_string
    key_data ← rest_bytes
    pure (record { topic_name = topic_name; key_data = key_data })

  unfoldable pub parse_data_no_writers : Bytes → Result ProtocolError DataNoWritersPayload
  parse_data_no_writers = run data_no_writers_reader

-- Four bytes and no more; the array is indexed by its bytes.
unfoldable pub parse_delete_writer : Bytes → Result ProtocolError DeleteWriterPayload
parse_delete_writer (b0 ∷ b1 ∷ b2 ∷ b3 ∷ rest) =
    map_ok (λ _. record { writer_id = from_le_bytes (b0 ∷ b1 ∷ b2 ∷ b3 ∷ []) })
      (check_no_trailing rest)
parse_delete_writer payload = err (truncated 4 (length payload))
