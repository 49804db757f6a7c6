-- ===== src/Bridge/Invariant/Notices.antt =====
-- What `resp_with_dispose_notification` of src/bridge.rs sends and does to the state.
use cyclone_dds_ws_bridge.Base.{
  All, All-append, Bool-cases, Bytes, List, Option, Option-cases, [], arith, inl, inr, list_eq,
  nat_beq, nat_eq, none, pair_eq, refl, some, ℕ, ◌++◌, ◌∷◌, ◌≡◌,
}
use cyclone_dds_ws_bridge.Base.Assoc.{Assoc, lookup}
use cyclone_dds_ws_bridge.Base.Buf.{Buf}
use cyclone_dds_ws_bridge.Bridge.{BridgeInner}
use cyclone_dds_ws_bridge.Bridge.Handler.Laws.{Ends}
use cyclone_dds_ws_bridge.Bridge.Handler.Writes.{
  disposed_message, listeners, notified, notify_readers, notify_session, notify_sessions,
  resp_with_dispose_notification,
}
use cyclone_dds_ws_bridge.Bridge.Inbox.{kept, sent_all}
use cyclone_dds_ws_bridge.Bridge.Invariant.{Kept}
use cyclone_dds_ws_bridge.Bridge.Invariant.Steps.{Refused}
use cyclone_dds_ws_bridge.Dds.Api.{Dds}
use cyclone_dds_ws_bridge.Dds.Reader.{DdsReader}
use cyclone_dds_ws_bridge.Dds.Readers.{all_readers, reader_key_eq, subscription_eq}
use cyclone_dds_ws_bridge.Protocol.Messages.{WriteMode}
use cyclone_dds_ws_bridge.Qos.Normalize.{policy_eq}

module _ ⦃b : Buf⦄ where
  abbrev pub IsNotice : Bytes → Type 0
  IsNotice msg = (topic_name key_data : Bytes) × (msg ≡ disposed_message topic_name key_data)

-- Every message that `notify_readers` adds to the replies is the given one.
notify_session-All :
    (P : Bytes → Type 0) (msg : Bytes) (requesting : ℕ) (senders : Assoc ℕ ℕ) (sid : ℕ)
    (acc : List Bytes × List (ℕ × Bytes))
    → P msg
    → (first : Bytes) (rest : List Bytes) → acc.0 ≡ first ∷ rest
    → All P rest
    → (rest' : List Bytes) × ((notify_session msg requesting senders sid acc).0 ≡ first ∷ rest')
      × All P rest'
unfolding notify_session
notify_session-All P msg requesting senders sid (messages, sent) p first rest is all =
    elim (Bool-cases (nat_beq sid requesting)) [
      | inl own ↦
          rw own (rest ++ msg ∷ [], ground (arith, is), All-append P rest (msg ∷ []) all (p, tt))
      | inr other ↦ elim (Option-cases (lookup sid senders)) [
        | inl absent ↦ rw (other, absent) (rest, is, all)
        | inr (sender, present) ↦ rw (other, present) (rest, is, all)
      ]
    ]

notify_sessions-All :
    (P : Bytes → Type 0) (msg : Bytes) (requesting : ℕ) (senders : Assoc ℕ ℕ) (sids : List ℕ)
    (acc : List Bytes × List (ℕ × Bytes))
    → P msg
    → (first : Bytes) (rest : List Bytes) → acc.0 ≡ first ∷ rest
    → All P rest
    → (rest' : List Bytes) × ((notify_sessions msg requesting senders sids acc).0 ≡ first ∷ rest')
      × All P rest'
unfolding notify_sessions
notify_sessions-All P msg requesting senders [] acc p first rest is all = (rest, is, all)
notify_sessions-All P msg requesting senders (sid ∷ sids) acc p first rest is all =
    let (rest1, is1, all1) =
      notify_session-All P msg requesting senders sid acc p first rest is all in
    notify_sessions-All P msg requesting senders sids _ p first rest1 is1 all1

notify_readers-All :
    (P : Bytes → Type 0) (msg : Bytes) (requesting : ℕ) (senders : Assoc ℕ ℕ)
    (names : Bytes × Bytes) (readers : List DdsReader) (acc : List Bytes × List (ℕ × Bytes))
    → P msg
    → (first : Bytes) (rest : List Bytes) → acc.0 ≡ first ∷ rest
    → All P rest
    → (rest' : List Bytes) × ((notify_readers msg requesting senders names readers acc).0
        ≡ first ∷ rest')
      × All P rest'
unfolding notify_readers
notify_readers-All P msg requesting senders (t, y) [] acc p first rest is all = (rest, is, all)
notify_readers-All P msg requesting senders (t, y) (reader ∷ readers) acc p first rest is all =
    let (rest1, is1, all1) =
      notify_sessions-All P msg requesting senders (listeners t y reader) acc p first rest is all in
    notify_readers-All P msg requesting senders (t, y) readers _ p first rest1 is1 all1

module _ ⦃b : Buf⦄ {d : Dds} (session_id room request_id : ℕ) (s0 : BridgeInner d) where
  -- The reply, and data disposed messages after it.
  abbrev pub ThenNotices : Bytes → List Bytes → BridgeInner d → Type 0
  ThenNotices resp messages s =
      Kept session_id room s0 s × (rest : List Bytes) × (messages ≡ resp ∷ rest) × All IsNotice rest

  notified-Ends :
      (resp : Bytes) (s : BridgeInner d) (target : Option (Bytes × Bytes × Bytes))
      → Kept session_id room s0 s
      → Ends
          (ThenNotices resp)
          (Refused session_id room request_id s0)
          (notified s session_id resp target)
  unfolding notified sent_all
  notified-Ends resp s none kept = record { holds = (kept, [], refl, tt) }
  notified-Ends resp s (some (t, y, key_data)) kept = record {
    holds =
        (let (rest, is, all) =
            notify_readers-All IsNotice (disposed_message t key_data) session_id s.session_senders
              (t, y) (all_readers s.readers.readers) (resp ∷ [], []) (t, key_data, refl) resp []
              refl tt in
          (kept, rest, is, all));
  }

  pub resp_with_dispose_notification-Ends :
      (resp : Bytes) (mode : WriteMode) (s : BridgeInner d)
      → Kept session_id room s0 s
      → Ends
          (ThenNotices resp)
          (Refused session_id room request_id s0)
          (resp_with_dispose_notification session_id resp mode s)
  unfolding resp_with_dispose_notification
  resp_with_dispose_notification-Ends resp mode s kept = notified-Ends resp s _ kept
