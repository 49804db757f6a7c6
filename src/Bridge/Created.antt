-- ===== src/Bridge/Created.antt =====
-- What a CREATE_WRITER request of src/bridge.rs gives its session.
use cyclone_dds_ws_bridge.Base.{Bytes, arith, ok, refl, suc, ℕ, ◌∙◌, ◌≡◌}
use cyclone_dds_ws_bridge.Base.Buf.{Buf}
use cyclone_dds_ws_bridge.Base.Words.{to_le_bytes}
use cyclone_dds_ws_bridge.Bridge.{BridgeInner}
use cyclone_dds_ws_bridge.Bridge.Handler.{pure}
use cyclone_dds_ws_bridge.Bridge.Handler.Laws.{Ends, bind-Ends}
use cyclone_dds_ws_bridge.Bridge.Handler.Requests.{handle_create_writer, handle_message, handler_of}
use cyclone_dds_ws_bridge.Bridge.Invariant.{IsBridge, Kept, Kept-start}
use cyclone_dds_ws_bridge.Bridge.Invariant.Steps.{
  Refused, topic_for-Ends, writer_for-Ends, writer_registered-Ends,
}
use cyclone_dds_ws_bridge.Bridge.SingleReply.{
  OneReply, OneReplyOrRefusal, parsed_as-Ends, reply_or_error,
}
use cyclone_dds_ws_bridge.Dds.Api.{Dds}
use cyclone_dds_ws_bridge.Dds.Writer.{DdsWriter, WriterRegistry, get_writer, register}
use cyclone_dds_ws_bridge.Dds.Writer.Laws.{get_writer-register}
use cyclone_dds_ws_bridge.Protocol.Codes.{MsgType}
use cyclone_dds_ws_bridge.Protocol.Header.{build_message}
use cyclone_dds_ws_bridge.Protocol.Messages.{CreateWriterPayload}
use cyclone_dds_ws_bridge.Protocol.Parse.{parse_create_writer}
use cyclone_dds_ws_bridge.Qos.Policy.{normalize}

get_writer-register_own :
    (session_id : ℕ) (writer : DdsWriter) (r : WriterRegistry)
    → get_writer writer.writer_id session_id (register writer session_id r).0 ≡ ok writer
get_writer-register_own session_id writer r =
    get_writer-register writer session_id writer.writer_id session_id r ∙ ground arith

module _ ⦃b : Buf⦄ {d : Dds} (session_id request_id : ℕ) (payload : Bytes) where
  -- The reply carries the id under which the session can get a writer as it was asked for.
  abbrev pub IsCreated : Bytes → BridgeInner d → Type 0
  IsCreated msg s =
      (cw : CreateWriterPayload) × (writer : DdsWriter) × (parse_create_writer payload ≡ ok cw)
      × (msg ≡ build_message MsgType.ok request_id (to_le_bytes 4 writer.writer_id))
      × (get_writer writer.writer_id session_id s.writers ≡ ok writer)
      × (writer.topic.topic_name ≡ cw.topic_name)
      × (writer.topic.type_name ≡ cw.type_name)
      × (writer.qos_normalized ≡ normalize cw.qos)

  module _ (room : ℕ) (s0 : BridgeInner d) where
    handle_create_writer-Ends :
        Kept session_id (suc room) s0 s0
        → Ends
            (OneReply IsCreated)
            (Refused session_id room request_id s0)
            (handle_create_writer session_id request_id payload s0)
    unfolding handle_create_writer pure
    handle_create_writer-Ends kept =
        bind-Ends _
          (parsed_as-Ends session_id room request_id s0 _ (parse_create_writer payload) s0 refl
            kept)
          λ cw s1 (kept1, parsed_is).
            bind-Ends _
              (topic_for-Ends session_id room request_id s0 cw.topic_name cw.type_name _ _ s1 kept1)
              λ topic s2 (kept2, t, y).
                bind-Ends _
                  (writer_for-Ends session_id room request_id s0 topic cw.qos (normalize cw.qos) s2
                    kept2)
                  λ writer s3 new.
                    let (kept3, topic_is, qos_is, unused, below) = new in
                    bind-Ends _
                      (writer_registered-Ends session_id room request_id s0 topic (normalize cw.qos)
                        writer s3 new)
                      λ id s4 (kept4, id_is, writers_are). record {
                        holds = (
                          cw,
                          writer,
                          parsed_is,
                          rw id_is refl,
                          rw writers_are (get_writer-register_own session_id writer s3.writers),
                          rw topic_is t,
                          rw topic_is y,
                          qos_is,
                        );
                      }

  -- In a state of the bridge that is in order and has an id of each kind left, CREATE_WRITER is
  -- answered, unless the handler panics, by one message: an error, or OK with the id of a writer
  -- that the session can get then, with the topic, the type and the normal form of the QoS that
  -- the payload asks for.
  pub handle_message-IsCreatedOrRefused :
      (s : BridgeInner d) {room : ℕ}
      → IsBridge (suc room) s
      → (let (messages, s') =
            handle_message session_id MsgType.create_writer request_id payload s in
          OneReplyOrRefusal request_id IsCreated messages s')
  unfolding handle_message handler_of
  handle_message-IsCreatedOrRefused s {room} v =
      reply_or_error request_id IsCreated session_id room s _
        (handle_create_writer-Ends room s (Kept-start session_id s v))
