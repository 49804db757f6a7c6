-- ===== src/Ws/Calls/Laws.antt =====
-- What one session sees of the calls that others make through src/ws/session.rs.
use cyclone_dds_ws_bridge.Base.{
  All, All-append, Bytes, List, Option, [], arith, drop, false, inl, inr, length, length-append,
  list_eq, nat_eq, none, pair_eq, refl, some, suc, take, ℕ, ◌++◌, ◌+◌, ◌∙◌, ◌∷◌, ◌≡◌, ◌≢◌,
}
use cyclone_dds_ws_bridge.Base.Assoc.{lookup}
use cyclone_dds_ws_bridge.Base.Buf.{Buf}
use cyclone_dds_ws_bridge.Bridge.{BridgeInner, register_session}
use cyclone_dds_ws_bridge.Bridge.Inbox.{kept, sent_all}
use cyclone_dds_ws_bridge.Bridge.Invariant.{IsBridge, owned, relax, weaken}
use cyclone_dds_ws_bridge.Bridge.Poll.{poll_send, poll_take}
use cyclone_dds_ws_bridge.Bridge.Safety.{handle_message-IsBridge, handle_message-Isolated}
use cyclone_dds_ws_bridge.Bridge.Sessions.{unregister_session-IsBridge, unregister_session-Released}
use cyclone_dds_ws_bridge.Dds.Api.{Dds}
use cyclone_dds_ws_bridge.Dds.Readers.{Subscription, reader_key_eq, subscription_eq}
use cyclone_dds_ws_bridge.Dds.Writer.{DdsWriter}
use cyclone_dds_ws_bridge.Dds.Writer.Invariant.{is_owner}
use cyclone_dds_ws_bridge.Protocol.Header.{header_size}
use cyclone_dds_ws_bridge.Qos.Normalize.{policy_eq}
use cyclone_dds_ws_bridge.Ws.Calls.{
  Call, Incoming, binary, call, calls, connect, disconnect, incoming, loop_goes_on, other_message,
  poll_sends, poll_takes, read_error, reader_turn, session_calls, turns, ws_close, ws_ping,
}
use cyclone_dds_ws_bridge.Ws.Calls.Untouched.{
  Untouched, Untouched-of_Isolated, Untouched-refl, Untouched-trans, register_session-Untouched,
  unregister_session-Untouched,
}
use cyclone_dds_ws_bridge.Ws.Frame.{process_binary_frame}
use cyclone_dds_ws_bridge.Ws.Frame.Laws.{process_binary_frame_lem}

-- The call is not one of the session's own.
abbrev pub IsForeign : ℕ → Call → Type 0
IsForeign session_id (connect other sender) = session_id ≢ other
IsForeign session_id (incoming other message) = session_id ≢ other
IsForeign session_id poll_takes = Unit
IsForeign session_id poll_sends = Unit
IsForeign session_id (disconnect other) = session_id ≢ other

turns-IsForeign :
    (id session_id : ℕ) (messages : List Incoming)
    → id ≢ session_id
    → All (IsForeign id) (turns session_id messages)
unfolding turns loop_goes_on
turns-IsForeign id session_id [] apart = tt
turns-IsForeign id session_id (binary frame ∷ messages) apart =
    (apart, turns-IsForeign id session_id messages apart)
turns-IsForeign id session_id (ws_ping ∷ messages) apart =
    (apart, turns-IsForeign id session_id messages apart)
turns-IsForeign id session_id (other_message ∷ messages) apart =
    (apart, turns-IsForeign id session_id messages apart)
turns-IsForeign id session_id (ws_close ∷ messages) apart = (apart, tt)
turns-IsForeign id session_id (read_error ∷ messages) apart = (apart, tt)

owned-is_owner :
    (session_id : ℕ) (entry : Option (DdsWriter × ℕ))
    → is_owner session_id entry ≡ false
    → owned session_id entry ≡ none
owned-is_owner session_id none h = refl
owned-is_owner session_id (some (w, owner)) h = ground arith

-- A session has no writer, no recorded subscription and no channel.
abbrev pub HasNothing : {d : Dds} → ℕ → BridgeInner d → Type 0
HasNothing session_id s =
    ((wid : ℕ) → owned session_id (lookup wid s.writers.writers) ≡ none)
    × ((sub : Subscription)
        → sub.session_id ≡ session_id
        → lookup sub s.readers.session_subscriptions ≡ none)
    × (lookup session_id s.session_senders ≡ none)

module _ ⦃b : Buf⦄ {d : Dds} (max_payload_size : ℕ) where
  -- One frame: the bridge handles a request, or it is as before.
  frame_lem :
      (session_id : ℕ) (frame : Bytes) {room : ℕ} (s : BridgeInner d)
      → IsBridge (suc room) s
      → (let s' = (process_binary_frame session_id frame max_payload_size s).1 in
          IsBridge room s' × ((other : ℕ) → other ≢ session_id → Untouched other s s'))
  frame_lem session_id frame {room} s v =
      elim (process_binary_frame_lem session_id max_payload_size frame s) [
        | inl (h, is, version, fits, id, whole, same) ↦
            let payload = take h.payload_length (drop header_size frame) in
            rw same (
              handle_message-IsBridge session_id h.msg_type h.request_id payload s v,
              λ other apart.
                  Untouched-of_Isolated other session_id s _ apart
                    (handle_message-Isolated session_id h.msg_type h.request_id payload s v),
            )
        | inr (id, text, same) ↦ rw same (weaken v, λ other apart. Untouched-refl other s)
      ]

  call_lem :
      (c : Call) {room : ℕ} (s : BridgeInner d)
      → IsBridge (suc room) s
      → (let s' = call max_payload_size c s in
          IsBridge room s' × ((id : ℕ) → IsForeign id c → Untouched id s s'))
  unfolding call reader_turn register_session poll_take poll_send sent_all
  call_lem (connect other sender) s v =
      (weaken v, λ id apart. register_session-Untouched id other sender s apart)
  call_lem (incoming other (binary frame)) s v = frame_lem other frame s v
  call_lem (incoming other ws_ping) s v = (weaken v, λ id apart. Untouched-refl id s)
  call_lem (incoming other ws_close) s v = (weaken v, λ id apart. Untouched-refl id s)
  call_lem (incoming other other_message) s v = (weaken v, λ id apart. Untouched-refl id s)
  call_lem (incoming other read_error) s v = (weaken v, λ id apart. Untouched-refl id s)
  call_lem poll_takes s v = (
    weaken v,
    λ id apart. record {
      writers = λ wid. refl;
      recorded = λ sub own. refl;
      served = λ sub rid own. refl;
      channel = refl;
    },
  )
  call_lem poll_sends s v = (
    weaken v,
    λ id apart. record {
      writers = λ wid. refl;
      recorded = λ sub own. refl;
      served = λ sub rid own. refl;
      channel = refl;
    },
  )
  call_lem (disconnect other) s v = (
    unregister_session-IsBridge other s (weaken v),
    λ id apart. unregister_session-Untouched id other s v apart,
  )

  -- From a state of the bridge that is in order, with an id of each kind left for every call,
  -- whatever frames other sessions send, whenever they connect and go and however the poll loop
  -- runs between, the bridge stays in order and a session keeps the writers that it owns, its
  -- recorded subscriptions, the readers that serve them and its channel.
  pub calls-Untouched :
      (cs : List Call) (session_id room : ℕ) (s : BridgeInner d)
      → IsBridge (length cs + room) s
      → All (IsForeign session_id) cs
      → IsBridge room (calls max_payload_size cs s)
        × Untouched session_id s (calls max_payload_size cs s)
  unfolding calls
  calls-Untouched [] session_id room s v foreign =
      (relax v room (omega arith), Untouched-refl session_id s)
  calls-Untouched (c ∷ cs) session_id room s v (apart, foreign) =
      let (v', same) = call_lem c {room = length cs + room} s (relax v _ (omega arith)) in
      let (v'', rest) = calls-Untouched cs session_id room _ v' foreign in
      (v'', Untouched-trans (same session_id apart) rest)

  calls-append :
      (xs ys : List Call) (s : BridgeInner d)
      → calls max_payload_size (xs ++ ys) s
        ≡ calls max_payload_size ys (calls max_payload_size xs s)
  unfolding calls
  calls-append [] ys s = refl
  calls-append (x ∷ xs) ys s = calls-append xs ys (call max_payload_size x s)

  calls-IsBridge :
      (cs : List Call) (room : ℕ) (s : BridgeInner d)
      → IsBridge (length cs + room) s
      → IsBridge room (calls max_payload_size cs s)
  unfolding calls
  calls-IsBridge [] room s v = relax v room (omega arith)
  calls-IsBridge (c ∷ cs) room s v =
      calls-IsBridge cs room _ (call_lem c {room = length cs + room} s (relax v _ (omega arith))).0

  -- From a state of the bridge that is in order, with an id of each kind left for every call, once
  -- a session has gone and makes no further call, it has no writer, no recorded subscription and
  -- no channel, whatever was called before and whatever others call after.
  pub calls-HasNothing :
      (before after : List Call) (session_id room : ℕ) (s : BridgeInner d)
      → IsBridge (length before + (length after + room)) s
      → All (IsForeign session_id) after
      → HasNothing session_id (calls max_payload_size (before ++ disconnect session_id ∷ after) s)
  unfolding calls call
  calls-HasNothing before after session_id room s v foreign =
      let t = calls max_payload_size before s in
      let v' = calls-IsBridge before (length after + room) s v in
      let (none_owned, none_recorded, senders, writers, readers) =
        unregister_session-Released session_id t v' in
      let v'' = unregister_session-IsBridge session_id t v' in
      let (kept, same) = calls-Untouched after session_id room _ v'' foreign in
      rw (calls-append before (disconnect session_id ∷ after) s) (
        λ wid. same.writers wid ∙ owned-is_owner session_id _ (none_owned wid),
        λ sub own. same.recorded sub own ∙ (none_recorded sub own).0,
        same.channel ∙ senders session_id ∙ ground arith,
      )

  -- The calls of one session from its start to its end, with no other call between them, leave it
  -- nothing, and leave every other session what it had.
  calls-session_calls :
      (session_id sender room : ℕ) (messages : List Incoming) (s : BridgeInner d)
      → IsBridge (length (session_calls session_id sender messages) + room) s
      → (let s' = calls max_payload_size (session_calls session_id sender messages) s in
          HasNothing session_id s' × ((other : ℕ) → other ≢ session_id → Untouched other s s'))
  unfolding session_calls
  calls-session_calls session_id sender room messages s v =
      let loop = turns session_id messages in
      let size = length-append loop (disconnect session_id ∷ []) in
      (
        calls-HasNothing (connect session_id sender ∷ loop) [] session_id room s
            (relax v _ (omega (arith, size))) tt,
        λ other apart.
            (calls-Untouched (session_calls session_id sender messages) other room s v (
              apart,
              All-append (IsForeign other) loop (disconnect session_id ∷ [])
                  (turns-IsForeign other session_id messages apart) (apart, tt),
            )).1,
      )
