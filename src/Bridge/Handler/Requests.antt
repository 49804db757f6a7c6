-- ===== src/Bridge/Handler/Requests.antt =====
-- The request handlers of src/bridge.rs, and `handle_message`.
use cyclone_dds_ws_bridge.Base.{
  Bool, Bytes, List, Option, Result, [], err, if◌then◌else◌, none, not, ok, some, ℕ, ◌++◌, ◌∷◌,
}
use cyclone_dds_ws_bridge.Base.Buf.{Buf}
use cyclone_dds_ws_bridge.Base.Int.{ℤ}
use cyclone_dds_ws_bridge.Base.Outcomes.{Outcome, done, failed, panicked}
use cyclone_dds_ws_bridge.Base.Text.{codes}
use cyclone_dds_ws_bridge.Base.Words.{to_le_bytes}
use cyclone_dds_ws_bridge.Bridge.{BridgeInner}
use cyclone_dds_ws_bridge.Bridge.Handler.{Handler, checked, pure, ◌>>=◌, ◌>>◌}
use cyclone_dds_ws_bridge.Bridge.Handler.Replies.{
  dds_error_response, make_error_response, ok_response, parsed, topic_for, writer_error_code,
  writer_for, writer_registered,
}
use cyclone_dds_ws_bridge.Bridge.Handler.Writes.{
  WriteOp, do_write_op, resp_with_dispose_notification,
}
use cyclone_dds_ws_bridge.Dds.Api.{Dds, delete_all}
use cyclone_dds_ws_bridge.Dds.Errors.{DdsError, dds_error_text}
use cyclone_dds_ws_bridge.Dds.Participant.{Topic}
use cyclone_dds_ws_bridge.Dds.QosHandle.{make_qos}
use cyclone_dds_ws_bridge.Dds.Readers.{ReaderRegistry, subscribe, unsubscribe}
use cyclone_dds_ws_bridge.Dds.Writer.{WriterRegistry, delete_writer}
use cyclone_dds_ws_bridge.Protocol.Codes.{ErrorCode, MsgType}
use cyclone_dds_ws_bridge.Protocol.Header.{build_message}
use cyclone_dds_ws_bridge.Protocol.Messages.{UnsubscribePayload}
use cyclone_dds_ws_bridge.Protocol.Parse.{
  parse_create_writer, parse_delete_writer, parse_dispose, parse_subscribe, parse_unsubscribe,
  parse_write, parse_write_dispose,
}
use cyclone_dds_ws_bridge.Qos.Policy.{QosSet, normalize}

-- `{:?}` of a message type.
unfoldable pub msg_type_debug : MsgType → Bytes
msg_type_debug MsgType.subscribe = codes "Subscribe"
msg_type_debug MsgType.unsubscribe = codes "Unsubscribe"
msg_type_debug MsgType.write = codes "Write"
msg_type_debug MsgType.dispose = codes "Dispose"
msg_type_debug MsgType.write_dispose = codes "WriteDispose"
msg_type_debug MsgType.create_writer = codes "CreateWriter"
msg_type_debug MsgType.delete_writer = codes "DeleteWriter"
msg_type_debug MsgType.ping = codes "Ping"
msg_type_debug MsgType.ok = codes "Ok"
msg_type_debug MsgType.data_sample = codes "Data"
msg_type_debug MsgType.data_disposed = codes "DataDisposed"
msg_type_debug MsgType.data_no_writers = codes "DataNoWriters"
msg_type_debug MsgType.error = codes "Error"
msg_type_debug MsgType.pong = codes "Pong"

-- `none` is a panic of the handler; otherwise the messages to send back.
unfoldable pub replies : Outcome Bytes (List Bytes) → Option (List Bytes)
replies (done messages) = some messages
replies (failed error_msg) = some (error_msg ∷ [])
replies panicked = none

-- What `handle_unsubscribe` replies.
module _ ⦃b : Buf⦄ where
  unfoldable pub unsubscribe_response : ℕ → UnsubscribePayload → Bool → Result Bytes (List Bytes)
  unsubscribe_response request_id unsub found =
      if not found
      then err (
          make_error_response request_id ErrorCode.reader_not_found (
            codes "no subscription for topic='"
            ++ (unsub.topic_name ++ (codes "' type='" ++ (unsub.type_name ++ codes "'")))))
      else ok (ok_response request_id ∷ [])

module _ ⦃b : Buf⦄ {d : Dds} where
  unfoldable pub subscribe_outcome :
      ℕ
      → BridgeInner d
      → Result DdsError ℕ × ReaderRegistry × ℕ × d.World
      → Outcome Bytes ℕ × BridgeInner d
  subscribe_outcome request_id s (ok reader_id, readers, counter, w) =
      (done reader_id, record s { readers = readers; reader_counter = counter; world = w })
  subscribe_outcome request_id s (err e, readers, counter, w) = (
    failed (dds_error_response request_id e),
    record s { readers = readers; reader_counter = counter; world = w },
  )

  -- `make_qos(&sub.qos)` and `inner.readers.subscribe(..).map_err(..)?`
  unfoldable pub reader_for : ℕ → Topic → QosSet → ℕ → Handler d ℕ
  unfolding subscribe_outcome
  reader_for request_id topic qos session_id s = subscribe_outcome request_id s (
      subscribe d s.participant.handle topic (make_qos (d.dds_create_qos s.world) qos) qos
        session_id s.readers s.reader_counter s.world)

  unfoldable pub handle_subscribe : ℕ → ℕ → Bytes → Handler d (List Bytes)
  handle_subscribe session_id request_id payload = do
    sub ← parsed request_id (parse_subscribe payload)
    topic ← topic_for request_id sub.topic_name sub.type_name sub.is_keyed sub.key_descriptors
    reader_id ← reader_for request_id topic sub.qos session_id
    pure (ok_response request_id ∷ [])

  -- `inner.readers.unsubscribe(..)`
  unfoldable pub reader_left : Bytes → Bytes → ℕ → Handler d Bool
  reader_left topic_name type_name session_id s =
      let (found, readers, gone) = unsubscribe topic_name type_name session_id s.readers in
      (done found, record s { readers = readers; world = delete_all d gone s.world })

  unfoldable pub handle_unsubscribe : ℕ → ℕ → Bytes → Handler d (List Bytes)
  handle_unsubscribe session_id request_id payload = do
    unsub ← parsed request_id (parse_unsubscribe payload)
    found ← reader_left unsub.topic_name unsub.type_name session_id
    checked (unsubscribe_response request_id unsub found)

  unfoldable pub handle_write : ℕ → ℕ → Bytes → Handler d (List Bytes)
  handle_write session_id request_id payload = do
    p ← parsed request_id (parse_write payload)
    resp ← do_write_op session_id request_id p.mode WriteOp.write
    pure (resp ∷ [])

  unfoldable pub handle_dispose : ℕ → ℕ → Bytes → Handler d (List Bytes)
  handle_dispose session_id request_id payload = do
    p ← parsed request_id (parse_dispose payload)
    resp ← do_write_op session_id request_id p.mode WriteOp.dispose
    resp_with_dispose_notification session_id resp p.mode

  unfoldable pub handle_write_dispose : ℕ → ℕ → Bytes → Handler d (List Bytes)
  handle_write_dispose session_id request_id payload = do
    p ← parsed request_id (parse_write_dispose payload)
    resp ← do_write_op session_id request_id p.mode WriteOp.write_dispose
    resp_with_dispose_notification session_id resp p.mode

  -- The payload of the reply is the id of the writer, in four bytes.
  unfoldable pub handle_create_writer : ℕ → ℕ → Bytes → Handler d (List Bytes)
  handle_create_writer session_id request_id payload = do
    cw ← parsed request_id (parse_create_writer payload)
    topic ← topic_for request_id cw.topic_name cw.type_name cw.is_keyed cw.key_descriptors
    writer ← writer_for request_id topic cw.qos (normalize cw.qos)
    writer_id ← writer_registered writer session_id
    pure (build_message MsgType.ok request_id (to_le_bytes 4 writer_id) ∷ [])

  unfoldable pub deleted :
      ℕ
      → BridgeInner d
      → Result DdsError (WriterRegistry × List ℤ)
      → Outcome Bytes (Unit {0}) × BridgeInner d
  deleted request_id s (ok (writers, gone)) =
      (done tt, record s { writers = writers; world = delete_all d gone s.world })
  deleted request_id s (err e) =
      (failed (make_error_response request_id (writer_error_code e) (dds_error_text e)), s)

  -- `inner.writers.delete(..).map_err(..)?`
  unfoldable pub writer_deleted : ℕ → ℕ → ℕ → Handler d (Unit {0})
  unfolding deleted
  writer_deleted session_id request_id writer_id s =
      deleted request_id s (delete_writer writer_id session_id s.writers)

  unfoldable pub handle_delete_writer : ℕ → ℕ → Bytes → Handler d (List Bytes)
  handle_delete_writer session_id request_id payload = do
    dw ← parsed request_id (parse_delete_writer payload)
    writer_deleted session_id request_id dw.writer_id
    pure (ok_response request_id ∷ [])

  -- The `match msg_type` of `handle_message`.
  unfoldable pub handler_of : MsgType → ℕ → ℕ → Bytes → Handler d (List Bytes)
  handler_of MsgType.subscribe session_id request_id payload =
      handle_subscribe session_id request_id payload
  handler_of MsgType.unsubscribe session_id request_id payload =
      handle_unsubscribe session_id request_id payload
  handler_of MsgType.write session_id request_id payload =
      handle_write session_id request_id payload
  handler_of MsgType.dispose session_id request_id payload =
      handle_dispose session_id request_id payload
  handler_of MsgType.write_dispose session_id request_id payload =
      handle_write_dispose session_id request_id payload
  handler_of MsgType.create_writer session_id request_id payload =
      handle_create_writer session_id request_id payload
  handler_of MsgType.delete_writer session_id request_id payload =
      handle_delete_writer session_id request_id payload
  handler_of MsgType.ping session_id request_id payload =
      pure (build_message MsgType.pong request_id [] ∷ [])
  handler_of other session_id request_id payload = checked (
      err (
        make_error_response request_id ErrorCode.invalid_message
          (codes "unexpected message type: " ++ msg_type_debug other)))

  unfoldable pub handle_message :
      ℕ → MsgType → ℕ → Bytes → BridgeInner d → Option (List Bytes) × BridgeInner d
  handle_message session_id msg_type request_id payload s =
      let (result, s') = handler_of msg_type session_id request_id payload s in (replies result, s')
