-- ===== src/Tests/Bridge.antt =====
-- The claims about the bridge at concrete inputs.
-- A session with a channel, and room for five requests.
use cyclone_dds_ws_bridge.Base.{Bytes, [], arith, true, ◌+◌, ◌∷◌, ◌≡◌, ◌⊎◌}
use cyclone_dds_ws_bridge.Base.Buf.{slice_buf}
use cyclone_dds_ws_bridge.Base.Int.{pos}
use cyclone_dds_ws_bridge.Bridge.{BridgeInner, create_bridge, register_session, unregister_session}
use cyclone_dds_ws_bridge.Bridge.Created.{IsCreated, handle_message-IsCreatedOrRefused}
use cyclone_dds_ws_bridge.Bridge.Handler.Requests.{handle_message}
use cyclone_dds_ws_bridge.Bridge.Invariant.{IsBridge, Isolated}
use cyclone_dds_ws_bridge.Bridge.Invariant.Handlers.{Answered}
use cyclone_dds_ws_bridge.Bridge.Reach.{Connected, Reach, Reach-IsBridge, connects, here, then_step}
use cyclone_dds_ws_bridge.Bridge.Safety.{handle_message-Answered, handle_message-Isolated}
use cyclone_dds_ws_bridge.Bridge.Sessions.{Released, unregister_session-Released}
use cyclone_dds_ws_bridge.Bridge.SingleReply.{OneReplyOrRefusal}
use cyclone_dds_ws_bridge.Config.{default_config}
use cyclone_dds_ws_bridge.Protocol.Codes.{MsgType}
use cyclone_dds_ws_bridge.Protocol.Header.{build_message}
use cyclone_dds_ws_bridge.Protocol.Serialize.{serialize_create_writer}
use cyclone_dds_ws_bridge.Tests.Values.{color_key, obliging, reliable, shape, square}
use cyclone_dds_ws_bridge.Ws.Frame.{process_binary_frame}
use cyclone_dds_ws_bridge.Ws.Frame.Laws.{
  IsHandled, IsRefused, process_binary_frame-build_message, process_binary_frame_lem,
}

abbrev one_session : BridgeInner obliging
one_session = register_session 1 2 (create_bridge {d = obliging} default_config (pos 3) 10)

one_session-reached :
    Reach ⦃b = slice_buf⦄
      (create_bridge {d = obliging} default_config (pos 3) 10)
      (0 + 0)
      one_session
one_session-reached = then_step here (connects 1 2 _)

one_session-IsBridge : IsBridge 5 one_session
one_session-IsBridge =
    (Reach-IsBridge ⦃b = slice_buf⦄ {d = obliging} default_config (pos 3) 10 5 one_session-reached
      (omega arith)).0

Reach-IsBridge_example : IsBridge 5 one_session × Connected one_session
Reach-IsBridge_example =
    Reach-IsBridge ⦃b = slice_buf⦄ {d = obliging} default_config (pos 3) 10 5 one_session-reached
      (omega arith)

-- A request to create a writer.
abbrev create_square : Bytes
create_square = serialize_create_writer ⦃b = slice_buf⦄ (record {
  topic_name = square;
  type_name = shape;
  is_keyed = true;
  qos = reliable;
  key_descriptors = color_key;
})

handle_message-Isolated_example :
    Isolated 1 one_session
      (handle_message ⦃b = slice_buf⦄ 1 MsgType.create_writer 7 create_square one_session).1
handle_message-Isolated_example =
    handle_message-Isolated ⦃b = slice_buf⦄ 1 MsgType.create_writer 7 create_square one_session
      one_session-IsBridge

handle_message-Answered_example :
    Answered ⦃b = slice_buf⦄ 7
      (handle_message ⦃b = slice_buf⦄ 1 MsgType.create_writer 7 create_square one_session).0
handle_message-Answered_example =
    handle_message-Answered ⦃b = slice_buf⦄ 1 MsgType.create_writer 7 create_square one_session
      one_session-IsBridge

handle_message-IsCreatedOrRefused_example :
    let (messages, s') =
      handle_message ⦃b = slice_buf⦄ 1 MsgType.create_writer 7 create_square one_session in
    OneReplyOrRefusal ⦃b = slice_buf⦄ 7 (IsCreated ⦃b = slice_buf⦄ 1 7 create_square) messages s'
handle_message-IsCreatedOrRefused_example =
    handle_message-IsCreatedOrRefused ⦃b = slice_buf⦄ 1 7 create_square one_session
      one_session-IsBridge

unregister_session-Released_example : Released 1 one_session (unregister_session 1 one_session)
unregister_session-Released_example = unregister_session-Released 1 one_session one_session-IsBridge

process_binary_frame-build_message_example :
    process_binary_frame ⦃b = slice_buf⦄ 1 (build_message MsgType.ping 7 (1 ∷ [])) 100 one_session
    ≡ handle_message ⦃b = slice_buf⦄ 1 MsgType.ping 7 (1 ∷ []) one_session
process_binary_frame-build_message_example =
    process_binary_frame-build_message ⦃b = slice_buf⦄ 1 100 MsgType.ping 7 (1 ∷ []) one_session
      (omega arith) (omega arith) (omega arith) (omega arith)

process_binary_frame_lem_example :
    let result = process_binary_frame ⦃b = slice_buf⦄ 1 (0x44 ∷ 0x42 ∷ 1 ∷ []) 100 one_session in
    IsHandled ⦃b = slice_buf⦄ 1 100 (0x44 ∷ 0x42 ∷ 1 ∷ []) one_session result
    ⊎ IsRefused ⦃b = slice_buf⦄ 1 100 one_session result
process_binary_frame_lem_example =
    process_binary_frame_lem ⦃b = slice_buf⦄ 1 100 (0x44 ∷ 0x42 ∷ 1 ∷ []) one_session
