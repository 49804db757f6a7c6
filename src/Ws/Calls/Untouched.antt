-- ===== src/Ws/Calls/Untouched.antt =====
-- What one operation of src/bridge.rs leaves to a session that did not ask for it.
use cyclone_dds_ws_bridge.Base.{arith, list_eq, nat_eq, pair_eq, refl, ℕ, ◌∙◌, ◌≡◌, ◌≢◌}
use cyclone_dds_ws_bridge.Base.Assoc.{lookup, lookup-insert}
use cyclone_dds_ws_bridge.Bridge.{BridgeInner, register_session, unregister_session}
use cyclone_dds_ws_bridge.Bridge.Invariant.{IsBridge, Isolated, owned}
use cyclone_dds_ws_bridge.Bridge.Sessions.{unregister_session-Released}
use cyclone_dds_ws_bridge.Dds.Api.{Dds}
use cyclone_dds_ws_bridge.Dds.Readers.{Subscription, reader_key_eq, subscription_eq}
use cyclone_dds_ws_bridge.Dds.Readers.Invariant.{is_subscribed}
use cyclone_dds_ws_bridge.Qos.Normalize.{policy_eq}

module _ {d : Dds} where
  -- What a session has: its writers, its recorded subscriptions, the readers that serve them, and
  -- its channel.
  pub record Untouched (session_id : ℕ) (s s' : BridgeInner d) : Type 0 where
    pub writers :
        (wid : ℕ)
        → owned session_id (lookup wid s'.writers.writers)
          ≡ owned session_id (lookup wid s.writers.writers)
    pub recorded :
        (sub : Subscription)
        → sub.session_id ≡ session_id
        → lookup sub s'.readers.session_subscriptions ≡ lookup sub s.readers.session_subscriptions
    pub served :
        (sub : Subscription) (id : ℕ)
        → sub.session_id ≡ session_id
        → is_subscribed sub (lookup id s'.readers.readers)
          ≡ is_subscribed sub (lookup id s.readers.readers)
    pub channel : lookup session_id s'.session_senders ≡ lookup session_id s.session_senders

  pub Untouched-refl : (session_id : ℕ) (s : BridgeInner d) → Untouched session_id s s
  Untouched-refl session_id s = record {
    writers = λ wid. refl;
    recorded = λ sub own. refl;
    served = λ sub id own. refl;
    channel = refl;
  }

  pub Untouched-trans :
      {session_id : ℕ} {s t u : BridgeInner d}
      → Untouched session_id s t
      → Untouched session_id t u
      → Untouched session_id s u
  Untouched-trans p q = record {
    writers = λ wid. q.writers wid ∙ p.writers wid;
    recorded = λ sub own. q.recorded sub own ∙ p.recorded sub own;
    served = λ sub id own. q.served sub id own ∙ p.served sub id own;
    channel = q.channel ∙ p.channel;
  }

  pub Untouched-of_Isolated :
      (session_id other : ℕ) (s s' : BridgeInner d)
      → session_id ≢ other
      → Isolated other s s'
      → Untouched session_id s s'
  Untouched-of_Isolated session_id other s s' apart (writers, readers, senders, config) = record {
    writers = λ wid. writers wid session_id apart;
    recorded = λ sub own. readers.recorded sub (rw own apart);
    served = λ sub id own. readers.served sub id (rw own apart);
    channel = rw senders refl;
  }

  pub register_session-Untouched :
      (session_id other sender : ℕ) (s : BridgeInner d)
      → session_id ≢ other
      → Untouched session_id s (register_session other sender s)
  unfolding register_session
  register_session-Untouched session_id other sender s apart = record {
    writers = λ wid. refl;
    recorded = λ sub own. refl;
    served = λ sub id own. refl;
    channel = lookup-insert other session_id sender s.session_senders ∙ ground (arith, apart);
  }

  pub unregister_session-Untouched :
      (session_id other : ℕ) {room : ℕ} (s : BridgeInner d)
      → IsBridge room s
      → session_id ≢ other
      → Untouched session_id s (unregister_session other s)
  unregister_session-Untouched session_id other s v apart =
      let (none_owned, none_recorded, senders, writers, readers) =
        unregister_session-Released other s v in
      record {
        writers = λ wid. writers wid session_id apart;
        recorded = λ sub own. readers.recorded sub (rw own apart);
        served = λ sub id own. readers.served sub id (rw own apart);
        channel = senders session_id ∙ ground (arith, apart);
      }
