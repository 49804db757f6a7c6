-- ===== src/Protocol/Messages.antt =====
-- The message payloads of src/protocol.rs.
use cyclone_dds_ws_bridge.Base.{Bool, Bytes, ℕ}
use cyclone_dds_ws_bridge.Protocol.Codes.{ErrorCode}
use cyclone_dds_ws_bridge.Protocol.Keys.{KeyDescriptors}
use cyclone_dds_ws_bridge.Qos.Policy.{QosSet}

pub record SubscribePayload : Type 0 where
  pub topic_name : Bytes
  pub type_name : Bytes
  pub qos : QosSet
  pub is_keyed : Bool
  pub key_descriptors : KeyDescriptors

pub record UnsubscribePayload : Type 0 where
  pub topic_name : Bytes
  pub type_name : Bytes

pub record CreateWriterPayload : Type 0 where
  pub topic_name : Bytes
  pub type_name : Bytes
  pub qos : QosSet
  pub is_keyed : Bool
  pub key_descriptors : KeyDescriptors

pub record DeleteWriterPayload : Type 0 where
  pub writer_id : ℕ

pub record TopicNameMode : Type 0 where
  pub topic_name : Bytes
  pub type_name : Bytes
  pub qos : QosSet
  pub key_descriptors : KeyDescriptors
  pub content : Bytes

pub record WriterIdMode : Type 0 where
  pub writer_id : ℕ
  pub key_bytes : Bytes
  pub content : Bytes

pub data WriteMode : Type 0 where
  by_topic_name : TopicNameMode → WriteMode
  by_writer_id : WriterIdMode → WriteMode

pub record WritePayload : Type 0 where
  pub mode : WriteMode

pub record DisposePayload : Type 0 where
  pub mode : WriteMode

pub record WriteDisposePayload : Type 0 where
  pub mode : WriteMode

pub record DataPayload : Type 0 where
  pub topic_name : Bytes
  pub source_timestamp : ℕ
  pub content : Bytes

pub record DataDisposedPayload : Type 0 where
  pub topic_name : Bytes
  pub source_timestamp : ℕ
  pub key_data : Bytes

pub record DataNoWritersPayload : Type 0 where
  pub topic_name : Bytes
  pub key_data : Bytes

pub record ErrorPayload : Type 0 where
  pub error_code : ErrorCode
  pub error_message : Bytes
