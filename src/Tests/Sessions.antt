-- ===== src/Tests/Sessions.antt =====
-- The claims about what sessions ask of the bridge and get from it, at concrete inputs.
-- The C library of these tests yields a sample at every call of `dds_take`.
use cyclone_dds_ws_bridge.Base.{
  Bool, Bytes, List, [], arith, list_eq, nat_eq, none, ok, pair_eq, refl, some, true, ℕ, ◌++◌, ◌+◌,
  ◌∷◌, ◌≡◌,
}
use cyclone_dds_ws_bridge.Base.Assoc.{insert, lookup, without}
use cyclone_dds_ws_bridge.Base.Buf.{slice_buf}
use cyclone_dds_ws_bridge.Base.Int.{pos}
use cyclone_dds_ws_bridge.Base.Words.{from_le_bytes, to_le_bytes}
use cyclone_dds_ws_bridge.Bridge.{BridgeInner, create_bridge, register_session}
use cyclone_dds_ws_bridge.Bridge.Foreign.{IsUnknownWriter, handle_message-IsUnknownWriter}
use cyclone_dds_ws_bridge.Bridge.Foreign.Names.{named_writer}
use cyclone_dds_ws_bridge.Bridge.Handler.Requests.{handle_message}
use cyclone_dds_ws_bridge.Bridge.Handler.Writes.{
  WriteOp, dispose_target, resp_with_dispose_notification,
}
use cyclone_dds_ws_bridge.Bridge.Inbox.{Calls, HasChannel, IsSent}
use cyclone_dds_ws_bridge.Bridge.Invariant.{IsBridge, owned}
use cyclone_dds_ws_bridge.Bridge.Notified.{IsNotified, resp_with_dispose_notification-IsNotified}
use cyclone_dds_ws_bridge.Bridge.Poll.{poll_send, poll_take, reader_ids}
use cyclone_dds_ws_bridge.Bridge.Poll.Deliveries.{
  VisitsOnce, poll_send-poll_take, samples_for, taken_world,
}
use cyclone_dds_ws_bridge.Bridge.Poll.FanOut.{messages_of}
use cyclone_dds_ws_bridge.Bridge.Reach.{Reach, Reach-IsBridge, connects, here, then_step}
use cyclone_dds_ws_bridge.Bridge.Safety.{handle_message-IsBridge, handle_message-Isolated}
use cyclone_dds_ws_bridge.Bridge.SingleReply.{OneReplyOrRefusal}
use cyclone_dds_ws_bridge.Bridge.Subscribed.{IsSubscribed, handle_message-IsSubscribed}
use cyclone_dds_ws_bridge.Bridge.Unsubscribed.{
  HasLeft, IsUnknown, handle_message-unsubscribe, left_by,
}
use cyclone_dds_ws_bridge.Bridge.Written.{answered, handle_message-answered, library_call}
use cyclone_dds_ws_bridge.Config.{default_config}
use cyclone_dds_ws_bridge.Dds.Api.{from_bytes}
use cyclone_dds_ws_bridge.Dds.Readers.{all_readers, reader_key_eq, subscription_eq}
use cyclone_dds_ws_bridge.Dds.Writer.{empty_writers, get_writer, register}
use cyclone_dds_ws_bridge.Protocol.Codes.{MsgType}
use cyclone_dds_ws_bridge.Protocol.Header.{build_message}
use cyclone_dds_ws_bridge.Protocol.Messages.{
  UnsubscribePayload, WriteMode, by_topic_name, by_writer_id,
}
use cyclone_dds_ws_bridge.Protocol.Parse.{parse_delete_writer, parse_unsubscribe}
use cyclone_dds_ws_bridge.Protocol.Reader.{check_no_trailing}
use cyclone_dds_ws_bridge.Protocol.RoundTrip.Requests.{
  parse_unsubscribe-serialize_unsubscribe, parse_write_mode-serialize_write_mode,
}
use cyclone_dds_ws_bridge.Protocol.Serialize.{
  serialize_delete_writer, serialize_subscribe, serialize_unsubscribe, serialize_write_mode,
}
use cyclone_dds_ws_bridge.Qos.Normalize.{policy_eq}
use cyclone_dds_ws_bridge.Tests.Values.{
  chatty, color_key, reliable, shape, shape-IsText, square, square-IsText, square_writer,
}
use cyclone_dds_ws_bridge.Ws.Calls.{
  Call, binary, calls, disconnect, incoming, poll_sends, poll_takes,
}
use cyclone_dds_ws_bridge.Ws.Calls.Laws.{HasNothing, calls-HasNothing, calls-Untouched}
use cyclone_dds_ws_bridge.Ws.Calls.Untouched.{Untouched}

abbrev fresh_bridge : BridgeInner chatty
fresh_bridge = create_bridge {d = chatty} default_config (pos 3) 10

-- Session 1 has channel 2, and session 5 has channel 6.
abbrev two_sessions : BridgeInner chatty
two_sessions = register_session 5 6 (register_session 1 2 fresh_bridge)

two_sessions-reached : Reach ⦃b = slice_buf⦄ fresh_bridge (0 + 0 + 0) two_sessions
two_sessions-reached = then_step (then_step here (connects 1 2 _)) (connects 5 6 _)

two_sessions-IsBridge : IsBridge 9 two_sessions
two_sessions-IsBridge =
    (Reach-IsBridge ⦃b = slice_buf⦄ {d = chatty} default_config (pos 3) 10 9 two_sessions-reached
      (omega arith)).0

abbrev subscribe_square : Bytes
subscribe_square = serialize_subscribe ⦃b = slice_buf⦄ (record {
  topic_name = square;
  type_name = shape;
  is_keyed = true;
  qos = reliable;
  key_descriptors = color_key;
})

-- Session 1 has subscribed.
abbrev subscribed_one : BridgeInner chatty
subscribed_one =
    (handle_message ⦃b = slice_buf⦄ 1 MsgType.subscribe 7 subscribe_square two_sessions).1

subscribed_one-IsBridge : IsBridge 8 subscribed_one
subscribed_one-IsBridge =
    handle_message-IsBridge ⦃b = slice_buf⦄ 1 MsgType.subscribe 7 subscribe_square two_sessions
      two_sessions-IsBridge

same_channels : subscribed_one.session_senders ≡ two_sessions.session_senders
same_channels =
    (handle_message-Isolated ⦃b = slice_buf⦄ 1 MsgType.subscribe 7 subscribe_square two_sessions
      two_sessions-IsBridge).2

two_channels : HasChannel two_sessions.session_senders 1 2
unfolding register_session create_bridge lookup insert without
two_channels = record { registered_at = refl; alone = λ other e. ground arith }

one-HasChannel : HasChannel subscribed_one.session_senders 1 2
one-HasChannel = rw same_channels two_channels

handle_message-IsSubscribed_example :
    let (messages, s') =
      handle_message ⦃b = slice_buf⦄ 1 MsgType.subscribe 7 subscribe_square two_sessions in
    OneReplyOrRefusal ⦃b = slice_buf⦄ 7
      (IsSubscribed ⦃b = slice_buf⦄ 1 7 subscribe_square)
      messages
      s'
handle_message-IsSubscribed_example =
    handle_message-IsSubscribed ⦃b = slice_buf⦄ 1 7 subscribe_square two_sessions
      two_sessions-IsBridge

-- A session registers between the two parts of the tick.
abbrev between : BridgeInner chatty
between = register_session 8 9 (poll_take subscribed_one)

same_pending : between.pending ≡ (poll_take subscribed_one).pending
unfolding register_session
same_pending = refl

poll_send-poll_take_example :
    let ids = reader_ids (all_readers subscribed_one.readers.readers) in
    let after = poll_send ⦃b = slice_buf⦄ between in
    VisitsOnce subscribed_one.readers ids
    × ((poll_take subscribed_one).world
        ≡ taken_world chatty subscribed_one.readers ids subscribed_one.world)
    × (log : List (ℕ × Bytes × Bool)) × Calls between log after
    × IsSent between log after 2 (
        messages_of ⦃b = slice_buf⦄
          (samples_for chatty 1 subscribed_one.readers ids subscribed_one.world))
poll_send-poll_take_example =
    poll_send-poll_take ⦃b = slice_buf⦄ subscribed_one between 1 2 subscribed_one-IsBridge
      one-HasChannel same_pending

-- Session 5 has a writer.
abbrev writing_five : BridgeInner chatty
writing_five = record two_sessions { writers = (register square_writer 5 empty_writers).0 }

abbrev write_five : WriteMode
write_five = by_writer_id (record { writer_id = 1; key_bytes = 7 ∷ []; content = 8 ∷ 9 ∷ [] })

five_has_writer : get_writer 1 5 writing_five.writers ≡ ok square_writer
unfolding get_writer register lookup insert without
five_has_writer = refl

handle_message-answered_example :
    handle_message ⦃b = slice_buf⦄ 5 MsgType.dispose 6
      (serialize_write_mode ⦃b = slice_buf⦄ write_five)
      writing_five
    ≡ answered ⦃b = slice_buf⦄ 5 6 writing_five WriteOp.dispose write_five (
        library_call chatty WriteOp.dispose square_writer
          (from_bytes (8 ∷ 9 ∷ []) (7 ∷ []))
          writing_five.world)
handle_message-answered_example =
    handle_message-answered ⦃b = slice_buf⦄ 5 6 writing_five WriteOp.dispose write_five
      square_writer (serialize_write_mode ⦃b = slice_buf⦄ write_five)
      (parse_write_mode-serialize_write_mode ⦃b = slice_buf⦄ write_five
        (record { id_u32 = omega arith; key_length_u32 = omega arith }))
      five_has_writer

-- A dispose by topic name.
abbrev dispose_square : WriteMode
dispose_square = by_topic_name (record {
  topic_name = square;
  type_name = shape;
  qos = reliable;
  key_descriptors = color_key;
  content = 4 ∷ [];
})

resp_with_dispose_notification-IsNotified_example :
    IsNotified ⦃b = slice_buf⦄ 5
      (1 ∷ [])
      subscribed_one
      (dispose_target subscribed_one.writers dispose_square)
      (resp_with_dispose_notification ⦃b = slice_buf⦄ 5 (1 ∷ []) dispose_square subscribed_one)
resp_with_dispose_notification-IsNotified_example =
    resp_with_dispose_notification-IsNotified ⦃b = slice_buf⦄ 5 (1 ∷ []) subscribed_one
      dispose_square subscribed_one-IsBridge

abbrev leave_square : UnsubscribePayload
leave_square = record { topic_name = square; type_name = shape }

abbrev unsubscribe_square : Bytes
unsubscribe_square = serialize_unsubscribe ⦃b = slice_buf⦄ leave_square

leave_square-parsed : parse_unsubscribe ⦃b = slice_buf⦄ unsubscribe_square ≡ ok leave_square
leave_square-parsed =
    parse_unsubscribe-serialize_unsubscribe ⦃b = slice_buf⦄ leave_square square-IsText shape-IsText

handle_message-unsubscribe_example :
    let key = left_by 1 leave_square in
    let r =
      handle_message ⦃b = slice_buf⦄ 1 MsgType.unsubscribe 8 unsubscribe_square subscribed_one in
    (lookup key subscribed_one.readers.session_subscriptions ≡ none
      → IsUnknown ⦃b = slice_buf⦄ 1 8 unsubscribe_square leave_square subscribed_one
          leave_square-parsed r)
    × ((id : ℕ)
        → lookup key subscribed_one.readers.session_subscriptions ≡ some id
        → HasLeft ⦃b = slice_buf⦄ 1 8 unsubscribe_square leave_square subscribed_one
            leave_square-parsed id r)
handle_message-unsubscribe_example =
    handle_message-unsubscribe ⦃b = slice_buf⦄ 1 8 unsubscribe_square leave_square subscribed_one
      leave_square-parsed subscribed_one-IsBridge

abbrev delete_four : Bytes
delete_four = serialize_delete_writer ⦃b = slice_buf⦄ (record { writer_id = 4 })

no_writer_four : owned 1 (lookup 4 two_sessions.writers.writers) ≡ none
unfolding register_session create_bridge lookup
no_writer_four = refl

delete_four-named : named_writer ⦃b = slice_buf⦄ MsgType.delete_writer delete_four ≡ some 4
unfolding parse_delete_writer serialize_delete_writer check_no_trailing to_le_bytes from_le_bytes
delete_four-named = refl

handle_message-IsUnknownWriter_example :
    IsUnknownWriter ⦃b = slice_buf⦄ 1 9 two_sessions
      (handle_message ⦃b = slice_buf⦄ 1 MsgType.delete_writer 9 delete_four two_sessions)
handle_message-IsUnknownWriter_example =
    handle_message-IsUnknownWriter ⦃b = slice_buf⦄ 1 9 4 MsgType.delete_writer delete_four
      two_sessions delete_four-named no_writer_four

-- Session 5 subscribes, the poll loop runs, and session 5 goes.
abbrev by_others : List Call
by_others =
    incoming 5 (binary (build_message MsgType.subscribe 3 subscribe_square))
    ∷ poll_takes
    ∷ disconnect 5
    ∷ []

calls-Untouched_example :
    IsBridge 5 (calls ⦃b = slice_buf⦄ 1000 by_others subscribed_one)
    × Untouched 1 subscribed_one (calls ⦃b = slice_buf⦄ 1000 by_others subscribed_one)
calls-Untouched_example =
    calls-Untouched ⦃b = slice_buf⦄ 1000 by_others 1 5 subscribed_one subscribed_one-IsBridge
      (omega arith)

calls-HasNothing_example :
    HasNothing 5
      (calls ⦃b = slice_buf⦄ 1000 (by_others ++ disconnect 5 ∷ poll_sends ∷ []) subscribed_one)
calls-HasNothing_example =
    calls-HasNothing ⦃b = slice_buf⦄ 1000 by_others (poll_sends ∷ []) 5 4 subscribed_one
      subscribed_one-IsBridge (tt, tt)
