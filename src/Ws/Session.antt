-- ===== src/Ws/Session.antt =====
-- `run_session` of src/ws/session.rs: the reader loop, the writer task and their two channels. The
-- socket, and the order in which the scheduler and the peer let things happen, are events. When a
-- channel of tokio has room is a parameter; a channel keeps the order of its messages.
pub mod Order
pub mod Progress
use cyclone_dds_ws_bridge.Base.{
  Bool, Bytes, List, Option, [], false, if◌then◌else◌, list_eq, nat_eq, none, not, pair_eq, some,
  true, ℕ, ◌&&◌, ◌++◌, ◌==◌, ◌∷◌,
}
use cyclone_dds_ws_bridge.Qos.Normalize.{policy_eq}

pub data Channel : Type 0 where
  from_bridge from_reader : Channel

pub record SessionState : Type 0 where
  -- The `while let` loop goes on, and `resp_tx` is there.
  pub reader_running : Bool
  -- The spawned task of the `select!` loop.
  pub writer_running : Bool
  -- `session_senders` has the `bridge_tx` of the session, from `register_session` on.
  pub registered : Bool
  -- A send on `ws_sink` succeeds.
  pub sink_open : Bool
  -- What waits in `bridge_rx` and in `resp_rx`.
  pub bridge_rx : List Bytes
  pub resp_rx : List Bytes
  -- What went out on `ws_sink`, in this order.
  pub sent : List (Channel × Bytes)

-- The state after `register_session` and the spawn.
abbrev pub started : SessionState
started = record {
  reader_running = true;
  writer_running = true;
  registered = true;
  sink_open = true;
  bridge_rx = [];
  resp_rx = [];
  sent = [];
}

-- The start of `run_session`: `none` is a panic, since `mpsc::channel` refuses a buffer of size 0.
unfoldable pub start_session : ℕ → Option SessionState
start_session buffer_size = if buffer_size == 0 then none else some started

pub data Event : Type 0 where
  -- `try_send` of the bridge; `resp_tx.send(msg).await` of the reader loop.
  notify respond : Bytes → Event
  -- The peer stops reading; the reader loop ends, and `drop(resp_tx)`.
  lose_sink leave_loop : Event
  -- The branches of `select!`.
  select_bridge select_resp select_else : Event
  -- `writer_task.await` returns, and `unregister_session`.
  clean_up : Event

-- What the writer task does with a message that it received.
unfoldable pub written : Channel → Bytes → SessionState → SessionState
written channel msg s =
    if s.sink_open
    then record s { sent = s.sent ++ (channel, msg) ∷ [] }
    else record s { writer_running = false }

-- `Some(outbound) = bridge_rx.recv()` with a message there.
unfoldable pub recv_bridge : List Bytes → SessionState → Option SessionState
recv_bridge [] s = none
recv_bridge (msg ∷ rest) s = some (written from_bridge msg (record s { bridge_rx = rest }))

-- `Some(resp) = resp_rx.recv()` with a message there.
unfoldable pub recv_resp : List Bytes → SessionState → Option SessionState
recv_resp [] s = none
recv_resp (msg ∷ rest) s = some (written from_reader msg (record s { resp_rx = rest }))

-- A receiver gives `None` once its channel is empty and has no sender.
abbrev pub is_closed : Bool → List Bytes → Bool
is_closed has_sender [] = not has_sender
is_closed has_sender (msg ∷ rest) = false

-- `resp_tx.send(msg).await`: an error once the receiver is gone, and it waits for room. `has_room` is
-- the channel of tokio with the `buffer_size` of the session.
unfoldable pub resp_send : (List Bytes → Bool) → Bytes → SessionState → Option SessionState
resp_send has_room msg s =
    if not s.writer_running
    then some s
    else if has_room s.resp_rx
    then some (record s { resp_rx = s.resp_rx ++ msg ∷ [] })
    else none

-- `none` where the event cannot happen.
unfoldable pub step : (List Bytes → Bool) → Event → SessionState → Option SessionState
step has_room (notify msg) s =
    if not s.registered
    then none
    else if s.writer_running && has_room s.bridge_rx
    then some (record s { bridge_rx = s.bridge_rx ++ msg ∷ [] })
    else some s
step has_room (respond msg) s = if s.reader_running then resp_send has_room msg s else none
step has_room lose_sink s = some (record s { sink_open = false })
step has_room leave_loop s =
    if s.reader_running then some (record s { reader_running = false }) else none
step has_room select_bridge s = if s.writer_running then recv_bridge s.bridge_rx s else none
step has_room select_resp s = if s.writer_running then recv_resp s.resp_rx s else none
step has_room select_else s =
    if s.writer_running
      && is_closed s.registered s.bridge_rx
      && is_closed s.reader_running s.resp_rx
    then some (record s { writer_running = false })
    else none
step has_room clean_up s =
    if not s.reader_running && not s.writer_running && s.registered
    then some (record s { registered = false })
    else none

abbrev and_run : (SessionState → Option SessionState) → Option SessionState → Option SessionState
and_run next none = none
and_run next (some s) = next s

unfoldable pub run : (List Bytes → Bool) → List Event → SessionState → Option SessionState
run has_room [] s = some s
run has_room (event ∷ events) s = and_run (run has_room events) (step has_room event s)
