-- ===== src/Bridge/Sessions.antt =====
-- What `unregister_session` of src/bridge.rs releases, and who owns what while sessions come and go.
-- A session has no subscription recorded, and none that was recorded is served.
use cyclone_dds_ws_bridge.Base.{
  arith, false, if◌then◌else◌, list_eq, nat_eq, none, pair_eq, some, subst, ℕ, ◌==◌, ◌≡◌,
}
use cyclone_dds_ws_bridge.Base.Assoc.{lookup, lookup-without}
use cyclone_dds_ws_bridge.Bridge.{BridgeInner, unregister_session}
use cyclone_dds_ws_bridge.Bridge.Invariant.{
  IsBridge, SameWriters, replaced_readers, replaced_writers,
}
use cyclone_dds_ws_bridge.Dds.Api.{Dds}
use cyclone_dds_ws_bridge.Dds.Readers.{ReaderRegistry, Subscription, reader_key_eq, subscription_eq}
use cyclone_dds_ws_bridge.Dds.Readers.Cleanup.{remove_session_readers}
use cyclone_dds_ws_bridge.Dds.Readers.Invariant.{is_subscribed}
use cyclone_dds_ws_bridge.Dds.Readers.Invariant.Fresh.{remove_session_readers-fresh}
use cyclone_dds_ws_bridge.Dds.Readers.Invariant.Leave.{remove_session_readers-IsReaders}
use cyclone_dds_ws_bridge.Dds.Readers.Invariant.Others.{
  SameOthers, remove_session_readers-SameOthers,
}
use cyclone_dds_ws_bridge.Dds.Readers.Invariant.Released.{
  recorded-remove_session_readers, unserved-remove_session_readers,
}
use cyclone_dds_ws_bridge.Dds.Writer.Invariant.{
  is_owner, lookup-remove_session_writers, remove_session_writers-IsWriters,
}
use cyclone_dds_ws_bridge.Qos.Normalize.{policy_eq}

abbrev NoSubscriptions : ℕ → ReaderRegistry → ReaderRegistry → Type 0
NoSubscriptions session_id r r' =
    (sub : Subscription)
    → sub.session_id ≡ session_id
    → (lookup sub r'.session_subscriptions ≡ none)
      × ((id : ℕ)
          → lookup sub r.session_subscriptions ≡ some id
          → is_subscribed sub (lookup id r'.readers) ≡ false)

module _ {d : Dds} where
  -- Nothing is left of the session, and nothing of another session has changed.
  abbrev pub Released : ℕ → BridgeInner d → BridgeInner d → Type 0
  Released session_id s s' =
      ((wid : ℕ) → is_owner session_id (lookup wid s'.writers.writers) ≡ false)
      × NoSubscriptions session_id s.readers s'.readers
      × ((other : ℕ)
          → lookup other s'.session_senders
            ≡ (if session_id == other then none else lookup other s.session_senders))
      × SameWriters session_id s.writers s'.writers
      × SameOthers session_id s.readers s'.readers

module _ {d : Dds} (session_id : ℕ) {room : ℕ} (s : BridgeInner d) (v : IsBridge room s) where
  -- The state stays in order.
  pub unregister_session-IsBridge : IsBridge room (unregister_session session_id s)
  unfolding unregister_session
  unregister_session-IsBridge =
      replaced_readers
        (replaced_writers v _ (remove_session_writers-IsWriters s.writers v.writer_maps session_id)
          (λ id le. ground (
            arith,
            lookup-remove_session_writers s.writers v.writer_maps id session_id,
            v.fresh_writers id le,
          )))
        _ room _ (omega arith) v.reader_room
        (remove_session_readers-IsReaders s.readers v.reader_maps session_id)
        (λ id le. remove_session_readers-fresh s.readers session_id id (v.fresh_readers id le))

  -- In a state of the bridge that is in order, `unregister_session` leaves the session no writer,
  -- no recorded subscription, no reader that serves one that was recorded and no channel, and
  -- leaves what other sessions have.
  pub unregister_session-Released : Released session_id s (unregister_session session_id s)
  unfolding unregister_session
  unregister_session-Released = (
    λ wid. ground (arith, lookup-remove_session_writers s.writers v.writer_maps wid session_id),
    λ sub is. (
      ground (arith, recorded-remove_session_readers session_id sub s.readers, is),
      λ id e.
          subst
            (λ n.
              is_subscribed sub (lookup id (remove_session_readers n s.readers).0.readers) ≡ false)
            is (unserved-remove_session_readers s.readers v.reader_maps sub id e),
    ),
    λ other. lookup-without session_id other s.session_senders,
    λ wid other n.
        ground (arith, lookup-remove_session_writers s.writers v.writer_maps wid session_id, n),
    remove_session_readers-SameOthers s.readers session_id v.reader_maps,
  )
