-- ===== src/Bridge/Reach.antt =====
-- The states that the bridge of src/bridge.rs can reach, with any number of sessions whose calls
-- the lock puts in some order.
use cyclone_dds_ws_bridge.Base.{
  Bool-cases, Bytes, Option, arith, inl, inr, list_eq, nat_beq, nat_beq_iff, nat_eq, none, pair_eq,
  some, suc, sym, ℕ, ◌+◌, ◌<◌, ◌^◌, ◌∙◌, ◌≡◌, ◌≢◌,
}
use cyclone_dds_ws_bridge.Base.Assoc.{lookup, lookup-insert}
use cyclone_dds_ws_bridge.Base.Buf.{Buf}
use cyclone_dds_ws_bridge.Base.Int.{ℤ}
use cyclone_dds_ws_bridge.Bridge.{BridgeInner, create_bridge, register_session, unregister_session}
use cyclone_dds_ws_bridge.Bridge.Handler.Requests.{handle_message}
use cyclone_dds_ws_bridge.Bridge.Inbox.{sent_all}
use cyclone_dds_ws_bridge.Bridge.Invariant.{IsBridge, Isolated, empty-Sound, owned, relax}
use cyclone_dds_ws_bridge.Bridge.Poll.{poll_send, poll_take}
use cyclone_dds_ws_bridge.Bridge.Safety.{handle_message-IsBridge, handle_message-Isolated}
use cyclone_dds_ws_bridge.Bridge.Sessions.{unregister_session-IsBridge, unregister_session-Released}
use cyclone_dds_ws_bridge.Config.{Config}
use cyclone_dds_ws_bridge.Dds.Api.{Dds}
use cyclone_dds_ws_bridge.Dds.Readers.{Subscription, reader_key_eq, subscription_eq}
use cyclone_dds_ws_bridge.Dds.Writer.{DdsWriter}
use cyclone_dds_ws_bridge.Protocol.Codes.{MsgType}
use cyclone_dds_ws_bridge.Qos.Normalize.{policy_eq}

module _ ⦃b : Buf⦄ {d : Dds} where
  -- One call under the lock, and how many ids of each kind it may use. A session makes requests
  -- while it is registered.
  pub data Step : ℕ → BridgeInner d → BridgeInner d → Type 0 where
    connects :
        (session_id sender : ℕ) (s : BridgeInner d)
        → Step 0 s (register_session session_id sender s)
    requests :
        (session_id : ℕ) (t : MsgType) (request_id : ℕ) (payload : Bytes) (s : BridgeInner d)
        → lookup session_id s.session_senders ≢ none
        → Step 1 s (handle_message session_id t request_id payload s).1
    takes : (s : BridgeInner d) → Step 0 s (poll_take s)
    sends : (s : BridgeInner d) → Step 0 s (poll_send s)
    disconnects : (session_id : ℕ) (s : BridgeInner d) → Step 0 s (unregister_session session_id s)

  -- The states after the start, with the number of requests.
  pub data Reach (start : BridgeInner d) : ℕ → BridgeInner d → Type 0 where
    here : Reach start 0 start
    then_step :
        {n k : ℕ} {s t : BridgeInner d} → Reach start n s → Step k s t → Reach start (n + k) t

owned-some :
    (owner : ℕ) (w : DdsWriter) (entry : Option (DdsWriter × ℕ))
    → owned owner entry ≡ some w
    → entry ≡ some (w, owner)
owned-some owner w none e = absurd (ground (arith, e))
owned-some owner w (some (x, o)) e = ground arith

module _ {d : Dds} where
  -- Every writer and every recorded subscription belongs to a session that is registered.
  pub record Connected (s : BridgeInner d) : Type 0 where
    pub owners :
        (wid owner : ℕ) (w : DdsWriter)
        → lookup wid s.writers.writers ≡ some (w, owner)
        → lookup owner s.session_senders ≢ none
    pub subscribers :
        (sub : Subscription) (id : ℕ)
        → lookup sub s.readers.session_subscriptions ≡ some id
        → lookup sub.session_id s.session_senders ≢ none

  -- What a session that is registered does to its own writers and subscriptions keeps this.
  Isolated-Connected :
      (session_id : ℕ) (s s' : BridgeInner d)
      → lookup session_id s.session_senders ≢ none
      → Isolated session_id s s'
      → Connected s
      → Connected s'
  Isolated-Connected session_id s s' live (writers, readers, senders, config) c =
      rw senders (record {
        owners = λ wid owner w e. elim (Bool-cases (nat_beq owner session_id)) [
          | inl own ↦ rw ((nat_beq_iff owner session_id).0 own) live
          | inr foreign ↦ c.owners wid owner w (
              owned-some owner w _
                (sym (writers wid owner (ground (arith, foreign))) ∙ rw e (ground arith)))
        ];
        subscribers = λ sub id e. elim (Bool-cases (nat_beq sub.session_id session_id)) [
          | inl own ↦ rw ((nat_beq_iff sub.session_id session_id).0 own) live
          | inr foreign ↦
              c.subscribers sub id (sym (readers.recorded sub (ground (arith, foreign))) ∙ e)
        ];
      })

  register_session-Connected :
      (session_id sender : ℕ) (s : BridgeInner d)
      → Connected s
      → Connected (register_session session_id sender s)
  unfolding register_session
  register_session-Connected session_id sender s c = record {
    owners = λ wid owner w e.
        rw (lookup-insert session_id owner sender s.session_senders)
          (λ gone. ground (arith, c.owners wid owner w e, gone));
    subscribers = λ sub id e.
        rw (lookup-insert session_id sub.session_id sender s.session_senders)
          (λ gone. ground (arith, c.subscribers sub id e, gone));
  }

  unregister_session-Connected :
      (session_id room : ℕ) (s : BridgeInner d)
      → IsBridge room s
      → Connected s
      → Connected (unregister_session session_id s)
  unregister_session-Connected session_id room s v c =
      let (none_owned, none_recorded, senders, writers, readers) =
        unregister_session-Released session_id s v in
      record {
        owners = λ wid owner w e. elim (Bool-cases (nat_beq owner session_id)) [
          | inl own ↦ absurd (ground (arith, none_owned wid, e))
          | inr foreign ↦ rw (senders owner) (
              let before = c.owners wid owner w (
                owned-some owner w _
                  (sym (writers wid owner (ground (arith, foreign))) ∙ rw e (ground arith))) in
              λ gone. ground (arith, before, gone))
        ];
        subscribers = λ sub id e. elim (Bool-cases (nat_beq sub.session_id session_id)) [
          | inl own ↦ absurd (
              ground (arith, (none_recorded sub ((nat_beq_iff sub.session_id session_id).0 own)).0))
          | inr foreign ↦ rw (senders sub.session_id) (
              let before =
                c.subscribers sub id (sym (readers.recorded sub (ground (arith, foreign))) ∙ e) in
              λ gone. ground (arith, before, gone))
        ];
      }

module _ (d : Dds) where
  pub create_bridge-IsBridge :
      (config : Config) (handle : ℤ) (w : d.World) (room : ℕ)
      → room + 1 < 2 ^ 32
      → IsBridge room (create_bridge {d = d} config handle w)
  unfolding create_bridge
  create_bridge-IsBridge config handle w room h = empty-Sound room h

  pub create_bridge-Connected :
      (config : Config) (handle : ℤ) (w : d.World)
      → Connected (create_bridge {d = d} config handle w)
  unfolding create_bridge lookup
  create_bridge-Connected config handle w = record {
    owners = λ wid owner x e. absurd (ground (arith, e));
    subscribers = λ sub id e. absurd (ground (arith, e));
  }

module _ ⦃b : Buf⦄ {d : Dds} where
  Step-IsBridge :
      {k : ℕ} {s t : BridgeInner d} (room : ℕ)
      → Step k s t
      → IsBridge (k + room) s
      → IsBridge room t
  unfolding register_session poll_take poll_send sent_all
  Step-IsBridge room (connects session_id sender s) v = relax v room (omega arith)
  Step-IsBridge room (requests session_id t request_id payload s live) v =
      handle_message-IsBridge session_id t request_id payload s (relax v (suc room) (omega arith))
  Step-IsBridge room (takes s) v = relax v room (omega arith)
  Step-IsBridge room (sends s) v = relax v room (omega arith)
  Step-IsBridge room (disconnects session_id s) v =
      unregister_session-IsBridge session_id s (relax v room (omega arith))

  Step-Connected :
      {k : ℕ} {s t : BridgeInner d} (room : ℕ)
      → Step k s t
      → IsBridge (k + room) s
      → Connected s
      → Connected t
  unfolding poll_take poll_send sent_all
  Step-Connected room (connects session_id sender s) v c =
      register_session-Connected session_id sender s c
  Step-Connected room (requests session_id t request_id payload s live) v c =
      Isolated-Connected session_id s _ live
        (handle_message-Isolated session_id t request_id payload s
          (relax v (suc room) (omega arith)))
        c
  Step-Connected room (takes s) v c = record { owners = c.owners; subscribers = c.subscribers }
  Step-Connected room (sends s) v c = record { owners = c.owners; subscribers = c.subscribers }
  Step-Connected room (disconnects session_id s) v c =
      unregister_session-Connected session_id room s (relax v room (omega arith)) c

  -- From the start, after any calls of the bridge by any sessions and of the two parts of ticks of
  -- the poll loop, as long as requests come from registered sessions and there are fewer than 2^32
  -- - 1 of them, both registries and the topic cache are in order (their maps agree, a reader
  -- stands once under its own id and lists no session twice), no id is in use that will be handed
  -- out, and every writer and every recorded subscription belongs to a registered session.
  pub Reach-IsBridge :
      (config : Config) (handle : ℤ) (w : d.World) (room : ℕ) {n : ℕ} {s : BridgeInner d}
      → Reach (create_bridge config handle w) n s
      → n + room + 1 < 2 ^ 32
      → IsBridge room s × Connected s
  Reach-IsBridge config handle w room here h = (
    create_bridge-IsBridge d config handle w room (omega arith),
    create_bridge-Connected d config handle w,
  )
  Reach-IsBridge config handle w room (then_step {k} r st) h =
      let (v, c) = Reach-IsBridge config handle w (k + room) r (omega arith) in
      (Step-IsBridge room st v, Step-Connected room st v c)
