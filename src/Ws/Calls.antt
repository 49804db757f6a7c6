-- ===== src/Ws/Calls.antt =====
-- The reader loop of `run_session` of src/ws/session.rs, and the calls of the bridge that any number
-- of sessions and the poll loop make, in the order in which the lock lets them through.
pub mod Untouched
pub mod Laws
use cyclone_dds_ws_bridge.Base.{
  Bool, Bytes, List, Option, [], false, if◌then◌else◌, some, true, ℕ, ◌++◌, ◌∷◌,
}
use cyclone_dds_ws_bridge.Base.Buf.{Buf}
use cyclone_dds_ws_bridge.Bridge.{BridgeInner, register_session, unregister_session}
use cyclone_dds_ws_bridge.Bridge.Poll.{poll_send, poll_take}
use cyclone_dds_ws_bridge.Dds.Api.{Dds}
use cyclone_dds_ws_bridge.Ws.Frame.{process_binary_frame}

-- What `ws_stream.next()` yields: a message of the peer, or an error of the socket.
pub data Incoming : Type 0 where
  binary : Bytes → Incoming
  ws_ping ws_close other_message read_error : Incoming

-- Whether the `while let` loop goes on after the message.
unfoldable pub loop_goes_on : Incoming → Bool
loop_goes_on (binary frame) = true
loop_goes_on ws_ping = true
loop_goes_on other_message = true
loop_goes_on ws_close = false
loop_goes_on read_error = false

pub data Call : Type 0 where
  -- `register_session`, before the loop.
  connect : ℕ → ℕ → Call
  -- A turn of the reader loop of a session.
  incoming : ℕ → Incoming → Call
  -- The two parts of a tick of `reader_poll_loop`.
  poll_takes poll_sends : Call
  -- `unregister_session`, after the loop.
  disconnect : ℕ → Call

module _ ⦃b : Buf⦄ {d : Dds} where
  -- One turn of the reader loop: the messages for `resp_tx`, `none` where the handler panics.
  unfoldable pub reader_turn :
      ℕ → ℕ → Incoming → BridgeInner d → Option (List Bytes) × BridgeInner d
  reader_turn session_id max_payload_size (binary frame) s =
      process_binary_frame session_id frame max_payload_size s
  reader_turn session_id max_payload_size _ s = (some [], s)

  unfoldable pub call : ℕ → Call → BridgeInner d → BridgeInner d
  call max_payload_size (connect session_id sender) s = register_session session_id sender s
  call max_payload_size (incoming session_id message) s =
      (reader_turn session_id max_payload_size message s).1
  call max_payload_size poll_takes s = poll_take s
  call max_payload_size poll_sends s = poll_send s
  call max_payload_size (disconnect session_id) s = unregister_session session_id s

  unfoldable pub calls : ℕ → List Call → BridgeInner d → BridgeInner d
  calls max_payload_size [] s = s
  calls max_payload_size (c ∷ cs) s = calls max_payload_size cs (call max_payload_size c s)

-- The turns of the loop until it ends.
unfoldable pub turns : ℕ → List Incoming → List Call
turns session_id [] = []
turns session_id (message ∷ messages) =
    let rest = turns session_id messages in
    incoming session_id message ∷ (if loop_goes_on message then rest else [])

-- The calls of `run_session`, if no handler panics; a stream that ends does so at the end of the list.
unfoldable pub session_calls : ℕ → ℕ → List Incoming → List Call
session_calls session_id sender messages =
    connect session_id sender ∷ (turns session_id messages ++ disconnect session_id ∷ [])
