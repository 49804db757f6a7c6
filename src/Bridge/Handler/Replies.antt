-- ===== src/Bridge/Handler/Replies.antt =====
-- The replies of src/bridge.rs, and the parts of the handlers that turn errors into replies.
use cyclone_dds_ws_bridge.Base.{Bool, Bytes, Result, [], err, map_err, ok, ℕ}
use cyclone_dds_ws_bridge.Base.Buf.{Buf}
use cyclone_dds_ws_bridge.Base.Outcomes.{Outcome, done, failed, panicked}
use cyclone_dds_ws_bridge.Bridge.{BridgeInner}
use cyclone_dds_ws_bridge.Bridge.Handler.{Handler, checked}
use cyclone_dds_ws_bridge.Dds.Api.{Dds, delete_all}
use cyclone_dds_ws_bridge.Dds.Errors.{DdsError, dds_error_text}
use cyclone_dds_ws_bridge.Dds.Participant.{DdsParticipant, Topic, get_or_create_topic}
use cyclone_dds_ws_bridge.Dds.QosHandle.{make_qos}
use cyclone_dds_ws_bridge.Dds.Writer.{DdsWriter, register}
use cyclone_dds_ws_bridge.Dds.Writer.Entity.{new_writer}
use cyclone_dds_ws_bridge.Protocol.Codes.{ErrorCode, MsgType}
use cyclone_dds_ws_bridge.Protocol.Errors.{ProtocolError, protocol_error_text}
use cyclone_dds_ws_bridge.Protocol.Header.{build_message}
use cyclone_dds_ws_bridge.Protocol.Keys.{KeyDescriptors}
use cyclone_dds_ws_bridge.Protocol.Serialize.{serialize_error}
use cyclone_dds_ws_bridge.Qos.Policy.{QosSet}

module _ ⦃b : Buf⦄ where
  unfoldable pub make_error_response : ℕ → ErrorCode → Bytes → Bytes
  make_error_response request_id code message =
      build_message MsgType.error request_id
        (serialize_error (record { error_code = code; error_message = message }))

  -- `build_message(MsgType::Ok, request_id, &[])`
  unfoldable pub ok_response : ℕ → Bytes
  ok_response request_id = build_message MsgType.ok request_id []

  unfoldable pub dds_error_response : ℕ → DdsError → Bytes
  dds_error_response request_id e =
      make_error_response request_id ErrorCode.dds_error (dds_error_text e)

-- The `match &e` of the handlers that take a writer id.
unfoldable pub writer_error_code : DdsError → ErrorCode
writer_error_code (DdsError.writer_not_found id) = ErrorCode.writer_not_found
writer_error_code (DdsError.writer_ownership id) = ErrorCode.writer_not_found
writer_error_code _ = ErrorCode.dds_error

module _ ⦃b : Buf⦄ {d : Dds} where
  -- `.map_err(|e| make_error_response(request_id, ErrorCode::InvalidMessage, &e.to_string()))?`
  unfoldable pub parsed {ℓ} : {A : Type ℓ} → ℕ → Result ProtocolError A → Handler d A
  parsed request_id r = checked (
      map_err
        (λ e. make_error_response request_id ErrorCode.invalid_message (protocol_error_text e)) r)

  unfoldable pub topic_outcome :
      ℕ
      → BridgeInner d
      → Outcome DdsError Topic × DdsParticipant × d.World
      → Outcome Bytes Topic × BridgeInner d
  topic_outcome request_id s (done topic, p, w) =
      (done topic, record s { participant = p; world = w })
  topic_outcome request_id s (failed e, p, w) =
      (failed (dds_error_response request_id e), record s { participant = p; world = w })
  topic_outcome request_id s (panicked, p, w) = (panicked, record s { participant = p; world = w })

  -- `inner.participant.get_or_create_topic(..).map_err(..)?`
  unfoldable pub topic_for : ℕ → Bytes → Bytes → Bool → KeyDescriptors → Handler d Topic
  unfolding topic_outcome
  topic_for request_id topic_name type_name is_keyed key_descriptors s =
      topic_outcome request_id s
        (get_or_create_topic d s.participant topic_name type_name is_keyed key_descriptors s.world)

  unfoldable pub new_writer_outcome :
      ℕ
      → BridgeInner d
      → Result DdsError DdsWriter × ℕ × d.World
      → Outcome Bytes DdsWriter × BridgeInner d
  new_writer_outcome request_id s (ok writer, counter, w) =
      (done writer, record s { writer_counter = counter; world = w })
  new_writer_outcome request_id s (err e, counter, w) =
      (failed (dds_error_response request_id e), record s { writer_counter = counter; world = w })

  -- `make_qos(qos)` and `DdsWriter::new(..).map_err(..)?`
  unfoldable pub writer_for : ℕ → Topic → QosSet → QosSet → Handler d DdsWriter
  unfolding new_writer_outcome
  writer_for request_id topic qos normalized s = new_writer_outcome request_id s (
      new_writer d s.participant.handle topic (make_qos (d.dds_create_qos s.world) qos) normalized
        s.writer_counter s.world)

  -- `inner.writers.register(writer, session_id)`, which returns the id of the writer.
  unfoldable pub writer_registered : DdsWriter → ℕ → Handler d ℕ
  writer_registered writer session_id s =
      let (writers, replaced) = register writer session_id s.writers in
      (done writer.writer_id, record s { writers = writers; world = delete_all d replaced s.world })
