-- ===== src/Bridge/Handler/Writes.antt =====
-- `do_write_op` and `resp_with_dispose_notification` of src/bridge.rs.
use cyclone_dds_ws_bridge.Dds.Writer.Entity
use cyclone_dds_ws_bridge.Base.{
  Bool, Bytes, List, Option, Result, [], err, false, if◌then◌else◌, is_empty, list_eq, map_err,
  nat_eq, none, not, ok, pair_eq, some, true, ℕ, ◌&&◌, ◌++◌, ◌==◌, ◌∷◌,
}
use cyclone_dds_ws_bridge.Base.Assoc.{Assoc, lookup}
use cyclone_dds_ws_bridge.Base.Buf.{Buf}
use cyclone_dds_ws_bridge.Base.Outcomes.{Outcome, done, failed}
use cyclone_dds_ws_bridge.Base.Text.{codes}
use cyclone_dds_ws_bridge.Bridge.{BridgeInner}
use cyclone_dds_ws_bridge.Bridge.Handler.{Handler, checked, gets, pure, ◌>>=◌, ◌>>◌}
use cyclone_dds_ws_bridge.Bridge.Handler.Replies.{
  dds_error_response, make_error_response, ok_response, topic_for, writer_error_code, writer_for,
  writer_registered,
}
use cyclone_dds_ws_bridge.Bridge.Inbox.{sent_all}
use cyclone_dds_ws_bridge.Dds.Api.{Dds}
use cyclone_dds_ws_bridge.Dds.Errors.{DdsError, dds_error_text}
use cyclone_dds_ws_bridge.Dds.Reader.{DdsReader}
use cyclone_dds_ws_bridge.Dds.Readers.{all_readers, reader_key_eq, subscription_eq}
use cyclone_dds_ws_bridge.Dds.Writer.{
  DdsWriter, WriterRegistry, find_by_id, find_by_topic, get_writer,
}
use cyclone_dds_ws_bridge.Protocol.Codes.{ErrorCode, MsgType}
use cyclone_dds_ws_bridge.Protocol.Header.{build_message}
use cyclone_dds_ws_bridge.Protocol.Messages.{TopicNameMode, WriteMode, by_topic_name, by_writer_id}
use cyclone_dds_ws_bridge.Protocol.Serialize.{serialize_data_disposed}
use cyclone_dds_ws_bridge.Qos.Normalize.{policy_eq}
use cyclone_dds_ws_bridge.Qos.Policy.{normalize}

pub data WriteOp : Type 0 where
  write dispose write_dispose : WriteOp

abbrev pub is_some {ℓ} : {A : Type ℓ} → Option A → Bool
is_some none = false
is_some (some a) = true

abbrev pub op_result :
    (d : Dds) → WriteOp → DdsWriter → Bytes → Bytes → d.World → Result DdsError (Unit {0}) × d.World
op_result d WriteOp.write writer content key_bytes w = Entity.write d writer content key_bytes w
op_result d WriteOp.dispose writer content key_bytes w = Entity.dispose d writer content key_bytes w
op_result d WriteOp.write_dispose writer content key_bytes w =
    Entity.write_dispose d writer content key_bytes w

-- What `resp_with_dispose_notification` tells the subscribers of: topic, type and key data.
unfoldable pub dispose_target : WriterRegistry → WriteMode → Option (Bytes × Bytes × Bytes)
dispose_target writers (by_topic_name m) = some (m.topic_name, m.type_name, m.content)
dispose_target writers (by_writer_id m) = elim (find_by_id m.writer_id writers) [
  | none ↦ none
  | some writer ↦ some (writer.topic.topic_name, writer.topic.type_name, m.content)
]

-- One subscriber: the requesting session gets the message after its reply, the others on their
-- channels. The messages to send back, and those that `try_send` is called with.
unfoldable pub notify_session :
    Bytes → ℕ → Assoc ℕ ℕ → ℕ → List Bytes × List (ℕ × Bytes) → List Bytes × List (ℕ × Bytes)
notify_session msg requesting senders sid (messages, sent) =
    if sid == requesting then (messages ++ msg ∷ [], sent) else elim (lookup sid senders) [
      | none ↦ (messages, sent)
      | some sender ↦ (messages, sent ++ (sender, msg) ∷ [])
    ]

unfoldable pub notify_sessions :
    Bytes → ℕ → Assoc ℕ ℕ → List ℕ → List Bytes × List (ℕ × Bytes) → List Bytes × List (ℕ × Bytes)
notify_sessions msg requesting senders [] acc = acc
notify_sessions msg requesting senders (sid ∷ sids) acc =
    notify_sessions msg requesting senders sids (notify_session msg requesting senders sid acc)

-- The sessions that are subscribed to a reader of the topic and the type.
abbrev pub listeners : Bytes → Bytes → DdsReader → List ℕ
listeners topic_name type_name reader =
    if reader.topic.topic_name == topic_name && reader.topic.type_name == type_name
    then reader.subscribers
    else []

unfoldable pub notify_readers :
    Bytes
    → ℕ
    → Assoc ℕ ℕ
    → Bytes × Bytes
    → List DdsReader
    → List Bytes × List (ℕ × Bytes)
    → List Bytes × List (ℕ × Bytes)
notify_readers msg requesting senders (topic_name, type_name) [] acc = acc
notify_readers msg requesting senders (topic_name, type_name) (reader ∷ readers) acc =
    notify_readers msg requesting senders (topic_name, type_name) readers
      (notify_sessions msg requesting senders (listeners topic_name type_name reader) acc)

-- The message of `resp_with_dispose_notification`, with no time stamp.
unfoldable pub disposed_message : ⦃b : Buf⦄ → Bytes → Bytes → Bytes
disposed_message topic_name key_data = build_message MsgType.data_disposed 0 (
    serialize_data_disposed
      (record { topic_name = topic_name; source_timestamp = 0; key_data = key_data }))

module _ ⦃b : Buf⦄ {d : Dds} where
  -- The calls of `try_send` for the other sessions, of which the result is not looked at.
  unfoldable pub notified :
      BridgeInner d
      → ℕ
      → Bytes
      → Option (Bytes × Bytes × Bytes)
      → Outcome Bytes (List Bytes) × BridgeInner d
  notified s requesting resp none = (done (resp ∷ []), s)
  notified s requesting resp (some (topic_name, type_name, key_data)) =
      let (messages, attempts) =
        notify_readers (disposed_message topic_name key_data) requesting s.session_senders
          (topic_name, type_name) (all_readers s.readers.readers) (resp ∷ [], []) in
      (done messages, sent_all attempts s)

  unfoldable pub resp_with_dispose_notification : ℕ → Bytes → WriteMode → Handler d (List Bytes)
  unfolding notified
  resp_with_dispose_notification requesting resp mode s =
      notified s requesting resp (dispose_target s.writers mode)

  unfoldable pub executed :
      ℕ
      → BridgeInner d
      → Result DdsError (Unit {0}) × d.World
      → Outcome Bytes (Unit {0}) × BridgeInner d
  executed request_id s (ok u, w) = (done u, record s { world = w })
  executed request_id s (err e, w) =
      (failed (dds_error_response request_id e), record s { world = w })

  unfoldable pub execute_write_op : DdsWriter → WriteOp → Bytes → Bytes → ℕ → Handler d (Unit {0})
  unfolding executed
  execute_write_op writer op content key_bytes request_id s =
      executed request_id s (op_result d op writer content key_bytes s.world)

  -- Create the topic and the writer, and register it.
  unfoldable pub create_implicit_writer : ℕ → ℕ → TopicNameMode → Handler d (Unit {0})
  create_implicit_writer session_id request_id m = do
    topic ←
        topic_for request_id m.topic_name m.type_name (not (is_empty m.key_descriptors.keys))
          m.key_descriptors
    writer ← writer_for request_id topic m.qos (normalize m.qos)
    writer_id ← writer_registered writer session_id
    pure tt

  unfoldable pub find_implicit_writer : ℕ → TopicNameMode → BridgeInner d → Option DdsWriter
  find_implicit_writer session_id m s =
      find_by_topic session_id m.topic_name m.type_name (normalize m.qos) s.writers

  unfoldable pub ensure_writer : ℕ → ℕ → TopicNameMode → Bool → Handler d (Unit {0})
  ensure_writer session_id request_id m true = pure tt
  ensure_writer session_id request_id m false = create_implicit_writer session_id request_id m

  -- `.ok_or_else(..)?`
  unfoldable pub present_writer : ℕ → Option DdsWriter → Handler d DdsWriter
  present_writer request_id (some writer) = pure writer
  present_writer request_id none = checked (
      err (
        make_error_response request_id ErrorCode.internal_error
          (codes "writer disappeared after creation")))

  -- `inner.writers.get(..).map_err(..)?`
  unfoldable pub own_writer : ℕ → ℕ → ℕ → Handler d DdsWriter
  own_writer session_id request_id writer_id s =
      checked
        (map_err (λ e. make_error_response request_id (writer_error_code e) (dds_error_text e))
          (get_writer writer_id session_id s.writers))
        s

  unfoldable pub do_write_op : ℕ → ℕ → WriteMode → WriteOp → Handler d Bytes
  do_write_op session_id request_id (by_topic_name m) op = do
    found ← gets (find_implicit_writer session_id m)
    ensure_writer session_id request_id m (is_some found)
    found' ← gets (find_implicit_writer session_id m)
    writer ← present_writer request_id found'
    execute_write_op writer op m.content [] request_id
    pure (ok_response request_id)
  do_write_op session_id request_id (by_writer_id m) op = do
    writer ← own_writer session_id request_id m.writer_id
    execute_write_op writer op m.content m.key_bytes request_id
    pure (ok_response request_id)
