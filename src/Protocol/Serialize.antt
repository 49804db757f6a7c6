-- ===== src/Protocol/Serialize.antt =====
-- The serializers of the message payloads of src/protocol.rs. `BytesMut::new()` is the empty list.
use cyclone_dds_ws_bridge.Base.{Bytes, [], if◌then◌else◌, length, ◌%◌, ◌^◌}
use cyclone_dds_ws_bridge.Base.Buf.{Buf}
use cyclone_dds_ws_bridge.Protocol.Codes.{error_code_u16}
use cyclone_dds_ws_bridge.Protocol.Keys.{serialize_key_descriptors}
use cyclone_dds_ws_bridge.Protocol.Messages.{
  CreateWriterPayload, DataDisposedPayload, DataNoWritersPayload, DataPayload, DeleteWriterPayload,
  DisposePayload, ErrorPayload, SubscribePayload, UnsubscribePayload, WriteDisposePayload,
  WriteMode, WritePayload, by_topic_name, by_writer_id,
}
use cyclone_dds_ws_bridge.Protocol.Reader.{write_string}
use cyclone_dds_ws_bridge.Qos.Codec.{serialize_qos}

module _ ⦃b : Buf⦄ where
  unfoldable pub serialize_subscribe : SubscribePayload → Bytes
  serialize_subscribe p =
      let buf = write_string (write_string [] p.topic_name) p.type_name in
      let buf' = b.put_u8 (serialize_qos p.qos buf) (if p.is_keyed then 1 else 0) in
      serialize_key_descriptors p.key_descriptors buf'

  unfoldable pub serialize_unsubscribe : UnsubscribePayload → Bytes
  serialize_unsubscribe p = write_string (write_string [] p.topic_name) p.type_name

  unfoldable pub serialize_write_mode : WriteMode → Bytes
  serialize_write_mode (by_topic_name m) =
      let buf = write_string (write_string (b.put_u8 [] 0x00) m.topic_name) m.type_name in
      b.put_slice (serialize_key_descriptors m.key_descriptors (serialize_qos m.qos buf)) m.content
  serialize_write_mode (by_writer_id m) =
      let buf = b.put_u32_le (b.put_u8 [] 0x01) m.writer_id in
      let buf' = b.put_slice (b.put_u32_le buf (length m.key_bytes % 2 ^ 32)) m.key_bytes in
      b.put_slice buf' m.content

  unfoldable pub serialize_write : WritePayload → Bytes
  serialize_write p = serialize_write_mode p.mode

  unfoldable pub serialize_dispose : DisposePayload → Bytes
  serialize_dispose p = serialize_write_mode p.mode

  unfoldable pub serialize_write_dispose : WriteDisposePayload → Bytes
  serialize_write_dispose p = serialize_write_mode p.mode

  unfoldable pub serialize_create_writer : CreateWriterPayload → Bytes
  serialize_create_writer p =
      let buf = write_string (write_string [] p.topic_name) p.type_name in
      let buf' = b.put_u8 (serialize_qos p.qos buf) (if p.is_keyed then 1 else 0) in
      serialize_key_descriptors p.key_descriptors buf'

  unfoldable pub serialize_delete_writer : DeleteWriterPayload → Bytes
  serialize_delete_writer p = b.put_u32_le [] p.writer_id

  unfoldable pub serialize_error : ErrorPayload → Bytes
  serialize_error p = write_string (b.put_u16_le [] (error_code_u16 p.error_code)) p.error_message

  unfoldable pub serialize_data : DataPayload → Bytes
  serialize_data p =
      b.put_slice (b.put_u64_le (write_string [] p.topic_name) p.source_timestamp) p.content

  unfoldable pub serialize_data_disposed : DataDisposedPayload → Bytes
  serialize_data_disposed p =
      b.put_slice (b.put_u64_le (write_string [] p.topic_name) p.source_timestamp) p.key_data

  unfoldable pub serialize_data_no_writers : DataNoWritersPayload → Bytes
  serialize_data_no_writers p = b.put_slice (write_string [] p.topic_name) p.key_data
