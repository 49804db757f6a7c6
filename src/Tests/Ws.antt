-- ===== src/Tests/Ws.antt =====
-- The claims about a session and about the count of connections at concrete inputs.
use cyclone_dds_ws_bridge.Ws.Session
use cyclone_dds_ws_bridge.Ws.Server
use cyclone_dds_ws_bridge.Base.{
  Bool, Bytes, List, [], arith, err, false, if◌then◌else◌, length, list_eq, ltb, nat_eq, none, ok,
  pair_eq, refl, some, true, ◌++◌, ◌+◌, ◌-◌, ◌<◌, ◌==◌, ◌^◌, ◌∷◌, ◌≡◌, ◌≤◌, ◌⊎◌,
}
use cyclone_dds_ws_bridge.Base.Text.{codes}
use cyclone_dds_ws_bridge.Config.{Config, default_config}
use cyclone_dds_ws_bridge.Config.Env.{ConfigError, Env, apply_env_overrides, domain_var, port_var}
use cyclone_dds_ws_bridge.Config.Env.Laws.{IsInvalid, IsOverridden, apply_env_overrides_lem}
use cyclone_dds_ws_bridge.Dds.Readers.{reader_key_eq, subscription_eq}
use cyclone_dds_ws_bridge.Qos.Normalize.{policy_eq}
use cyclone_dds_ws_bridge.Ws.Server.{ServerState, bound, is_health}
use cyclone_dds_ws_bridge.Ws.Server.Laws.{accepted_exhausted, panics, run-active_connections}
use cyclone_dds_ws_bridge.Ws.Session.{
  SessionState, from_bridge, from_reader, recv_bridge, recv_resp, resp_send, start_session, started,
  written,
}
use cyclone_dds_ws_bridge.Ws.Session.Order.{all_responded, responses, responses-run}
use cyclone_dds_ws_bridge.Ws.Session.Progress.{
  CanGoOn, IsWaiting, clean_up_lem, own_events, run-IsWaiting,
}

-- A channel with a buffer of four.
abbrev room_for_four : List Bytes → Bool
room_for_four queue = ltb (length queue) 4

four_started : start_session 4 ≡ some started
unfolding start_session
four_started = refl

-- Two messages, of which the one from the bridge goes out first.
abbrev two_messages : List Session.Event
two_messages =
    Session.respond (1 ∷ [])
    ∷ Session.notify (2 ∷ [])
    ∷ Session.select_bridge
    ∷ Session.select_resp
    ∷ []

abbrev after_two : SessionState
after_two = record started { sent = (from_bridge, 2 ∷ []) ∷ (from_reader, 1 ∷ []) ∷ [] }

run-two : Session.run room_for_four two_messages started ≡ some after_two
unfolding Session.run Session.step resp_send recv_bridge recv_resp written
run-two = refl

responses-run_example : responses after_two.sent ++ after_two.resp_rx ≡ all_responded two_messages
responses-run_example =
    responses-run room_for_four 4 two_messages started after_two four_started run-two refl

-- The reader loop has ended.
abbrev waiting : SessionState
waiting = record started { reader_running = false }

run-waiting :
    Session.run room_for_four (Session.lose_sink ∷ []) waiting
    ≡ some (record waiting { sink_open = false })
unfolding Session.run Session.step
run-waiting = refl

run-IsWaiting_example : IsWaiting (record waiting { sink_open = false })
run-IsWaiting_example =
    run-IsWaiting room_for_four (Session.lose_sink ∷ []) waiting
      (record waiting { sink_open = false }) (refl, tt) run-waiting (refl, refl, refl, refl, refl)

abbrev lost : SessionState
lost = record waiting { sink_open = false }

-- The bridge notifies the session twice, and the writer task takes the first message.
abbrev told : List Session.Event
told = Session.select_bridge ∷ Session.notify (4 ∷ []) ∷ []

abbrev told_state : SessionState
told_state = record lost { writer_running = false }

run-told : Session.run room_for_four (Session.notify (3 ∷ []) ∷ told) lost ≡ some told_state
unfolding Session.run Session.step recv_bridge written
run-told = refl

clean_up_lem_example :
    ((told_state.registered ≡ false) × (own_events told ≡ 2))
    ⊎ ((told_state.registered ≡ true) × (own_events told < 2) × CanGoOn room_for_four told_state)
clean_up_lem_example =
    clean_up_lem room_for_four (3 ∷ []) told lost told_state refl (refl, refl, refl, refl, refl)
      refl run-told

-- A session that panics.
abbrev one_panic : List Server.Event
one_panic = Server.accepted ∷ Server.peeked none ∷ Server.panicked ∷ []

abbrev after_panic : ServerState
after_panic = record bound { active_connections = 1 }

run-one_panic : Server.run 1 one_panic bound ≡ some after_panic
unfolding Server.run Server.step is_health
run-one_panic = refl

run-active_connections_example :
    (after_panic.active_connections ≤ 1)
    × (after_panic.active_connections ≡ after_panic.tasks + panics one_panic)
run-active_connections_example =
    run-active_connections 1 one_panic after_panic (omega arith) run-one_panic

accepted_exhausted_example :
    (after_panic.tasks ≡ 0) × (Server.step 1 Server.accepted after_panic ≡ some after_panic)
accepted_exhausted_example =
    accepted_exhausted 1 one_panic after_panic (omega arith) run-one_panic (omega arith) refl

-- A port that is no number.
abbrev bad_port : Env
bad_port name = if name == port_var then some (codes "banana") else none

apply_env_overrides_lem_example :
    ((c' : Config) × (apply_env_overrides bad_port default_config ≡ ok c')
      × IsOverridden bad_port default_config c')
    ⊎ ((e : ConfigError) × (apply_env_overrides bad_port default_config ≡ err e)
        × (IsInvalid (2 ^ 16 - 1) port_var (bad_port port_var) e
            ⊎ IsInvalid (2 ^ 32 - 1) domain_var (bad_port domain_var) e))
apply_env_overrides_lem_example = apply_env_overrides_lem bad_port default_config
