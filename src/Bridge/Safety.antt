-- ===== src/Bridge/Safety.antt =====
-- What `handle_message` of src/bridge.rs promises for every request.
use cyclone_dds_ws_bridge.Base.{Bytes, List, [], err, inl, inr, refl, suc, ℕ}
use cyclone_dds_ws_bridge.Base.Buf.{Buf}
use cyclone_dds_ws_bridge.Base.Outcomes.{Outcome, done, failed, panicked}
use cyclone_dds_ws_bridge.Bridge.{BridgeInner}
use cyclone_dds_ws_bridge.Bridge.Handler.{checked, pure}
use cyclone_dds_ws_bridge.Bridge.Handler.Replies.{make_error_response}
use cyclone_dds_ws_bridge.Bridge.Handler.Requests.{handle_message, handler_of, replies}
use cyclone_dds_ws_bridge.Bridge.Invariant.{IsBridge, Isolated, Kept, Kept-start, weaken}
use cyclone_dds_ws_bridge.Bridge.Invariant.Handlers.{
  Answered, EndsWell, handle_create_writer-EndsWell, handle_delete_writer-EndsWell,
  handle_dispose-EndsWell, handle_subscribe-EndsWell, handle_unsubscribe-EndsWell,
  handle_write-EndsWell, handle_write_dispose-EndsWell,
}
use cyclone_dds_ws_bridge.Dds.Api.{Dds}
use cyclone_dds_ws_bridge.Protocol.Codes.{ErrorCode, MsgType}

module _ ⦃b : Buf⦄ {d : Dds} (session_id room request_id : ℕ) (s0 : BridgeInner d) where
  unexpected-EndsWell :
      (text : Bytes)
      → Kept session_id (suc room) s0 s0
      → EndsWell session_id room request_id s0
          (checked (err (make_error_response request_id ErrorCode.invalid_message text)) s0)
  unfolding checked
  unexpected-EndsWell text (v, i) = record {
    holds = ((weaken v, i), (ErrorCode.invalid_message, text, refl, refl));
  }

  handler_of-EndsWell :
      (t : MsgType) (payload : Bytes)
      → Kept session_id (suc room) s0 s0
      → EndsWell session_id room request_id s0 (handler_of t session_id request_id payload s0)
  unfolding handler_of pure
  handler_of-EndsWell MsgType.subscribe payload kept =
      handle_subscribe-EndsWell session_id room request_id s0 payload kept
  handler_of-EndsWell MsgType.unsubscribe payload kept =
      handle_unsubscribe-EndsWell session_id room request_id s0 payload kept
  handler_of-EndsWell MsgType.write payload kept =
      handle_write-EndsWell session_id room request_id s0 payload kept
  handler_of-EndsWell MsgType.dispose payload kept =
      handle_dispose-EndsWell session_id room request_id s0 payload kept
  handler_of-EndsWell MsgType.write_dispose payload kept =
      handle_write_dispose-EndsWell session_id room request_id s0 payload kept
  handler_of-EndsWell MsgType.create_writer payload kept =
      handle_create_writer-EndsWell session_id room request_id s0 payload kept
  handler_of-EndsWell MsgType.delete_writer payload kept =
      handle_delete_writer-EndsWell session_id room request_id s0 payload kept
  handler_of-EndsWell MsgType.ping payload (v, i) = record {
    holds = ((weaken v, i), (inl (MsgType.pong, [], refl, refl), tt));
  }
  handler_of-EndsWell MsgType.ok payload kept = unexpected-EndsWell _ kept
  handler_of-EndsWell MsgType.data_sample payload kept = unexpected-EndsWell _ kept
  handler_of-EndsWell MsgType.data_disposed payload kept = unexpected-EndsWell _ kept
  handler_of-EndsWell MsgType.data_no_writers payload kept = unexpected-EndsWell _ kept
  handler_of-EndsWell MsgType.error payload kept = unexpected-EndsWell _ kept
  handler_of-EndsWell MsgType.pong payload kept = unexpected-EndsWell _ kept

  replied :
      (r : Outcome Bytes (List Bytes) × BridgeInner d)
      → EndsWell session_id room request_id s0 r
      → Kept session_id room s0 r.1 × Answered request_id (replies r.0)
  unfolding replies
  replied (done messages, s) h = h.holds
  replied (failed msg, s) h = (h.holds.0, (inr h.holds.1, tt))
  replied (panicked, s) h = (h.holds, tt)

module _ ⦃b : Buf⦄ {d : Dds} (session_id : ℕ) (t : MsgType) (request_id : ℕ) (payload : Bytes)
    {room : ℕ} (s : BridgeInner d) (v : IsBridge (suc room) s) where
  handled :
      let (messages, s') = handle_message session_id t request_id payload s in
      Kept session_id room s s' × Answered request_id messages
  unfolding handle_message
  handled =
      replied session_id room request_id s _
        (handler_of-EndsWell session_id room request_id s t payload (Kept-start session_id s v))

  -- `handle_message` keeps a state of the bridge in order that is in order and has an id of each
  -- kind left, whatever the request and however it fails, and uses one id of each kind at most.
  pub handle_message-IsBridge : IsBridge room (handle_message session_id t request_id payload s).1
  handle_message-IsBridge = handled.0.0

  -- In a state of the bridge that is in order and has an id of each kind left, whatever a session
  -- sends with `handle_message` leaves every other session with the writers that it owns, its
  -- recorded subscriptions and the readers that serve them, and leaves the table of the channels
  -- of sessions and the configuration as they are.
  pub handle_message-Isolated :
      Isolated session_id s (handle_message session_id t request_id payload s).1
  handle_message-Isolated = handled.0.1

  -- In a state of the bridge that is in order and has an id of each kind left, what
  -- `handle_message` sends back, unless it panics, is one reply with the request's id, which is
  -- OK, PONG or an error but never INTERNAL_ERROR, and after it only DATA_DISPOSED messages with
  -- id 0.
  pub handle_message-Answered :
      Answered request_id (handle_message session_id t request_id payload s).0
  handle_message-Answered = handled.1
