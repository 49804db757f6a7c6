-- ===== src/Bridge/Invariant/Handlers.antt =====
-- What the handlers of src/bridge.rs and `handle_message` do to the state, and what they send.
use cyclone_dds_ws_bridge.Base.{
  All, Bool, Bytes, List, Option, [], false, inl, none, refl, some, subst, suc, sym, true, ℕ, ◌∷◌,
  ◌≡◌, ◌⊎◌,
}
use cyclone_dds_ws_bridge.Base.Buf.{Buf}
use cyclone_dds_ws_bridge.Base.Outcomes.{Outcome}
use cyclone_dds_ws_bridge.Bridge.{BridgeInner}
use cyclone_dds_ws_bridge.Bridge.Handler.{Handler, checked, pure, ◌>>=◌}
use cyclone_dds_ws_bridge.Bridge.Handler.Laws.{Ends, Ends-map, bind-Ends, then-Ends}
use cyclone_dds_ws_bridge.Bridge.Handler.Replies.{ok_response}
use cyclone_dds_ws_bridge.Bridge.Handler.Requests.{
  handle_create_writer, handle_delete_writer, handle_dispose, handle_subscribe, handle_unsubscribe,
  handle_write, handle_write_dispose, unsubscribe_response,
}
use cyclone_dds_ws_bridge.Bridge.Handler.Writes.{
  WriteOp, do_write_op, resp_with_dispose_notification,
}
use cyclone_dds_ws_bridge.Bridge.Invariant.{Kept, weaken}
use cyclone_dds_ws_bridge.Bridge.Invariant.Notices.{IsNotice, resp_with_dispose_notification-Ends}
use cyclone_dds_ws_bridge.Bridge.Invariant.Steps.{
  IsRefusal, Refused, parsed-Ends, topic_for-Ends, writer_for-Ends, writer_registered-Ends,
}
use cyclone_dds_ws_bridge.Bridge.Invariant.Steps.Deletes.{writer_deleted-Ends}
use cyclone_dds_ws_bridge.Bridge.Invariant.Steps.Readers.{reader_for-Ends, reader_left-Ends}
use cyclone_dds_ws_bridge.Bridge.Invariant.Steps.Writes.{do_write_op-Ends}
use cyclone_dds_ws_bridge.Dds.Api.{Dds}
use cyclone_dds_ws_bridge.Protocol.Codes.{ErrorCode, MsgType}
use cyclone_dds_ws_bridge.Protocol.Header.{build_message}
use cyclone_dds_ws_bridge.Protocol.Messages.{UnsubscribePayload, WriteMode}
use cyclone_dds_ws_bridge.Protocol.Parse.{
  parse_create_writer, parse_delete_writer, parse_dispose, parse_subscribe, parse_unsubscribe,
  parse_write, parse_write_dispose,
}
use cyclone_dds_ws_bridge.Qos.Policy.{normalize}

module _ ⦃b : Buf⦄ where
  abbrev is_consent : MsgType → Bool
  is_consent MsgType.ok = true
  is_consent MsgType.pong = true
  is_consent _ = false

  -- A message OK or PONG for the request.
  abbrev IsConsent : ℕ → Bytes → Type 0
  IsConsent request_id msg =
      (t : MsgType) × (payload : Bytes) × (is_consent t ≡ true)
      × (msg ≡ build_message t request_id payload)

  -- A reply with the id of the request: OK, PONG, or an error but an internal one.
  abbrev pub IsReply : ℕ → Bytes → Type 0
  IsReply request_id msg = IsConsent request_id msg ⊎ IsRefusal request_id msg

  -- One reply, and data disposed messages after it.
  abbrev pub Answers : ℕ → List Bytes → Type 0
  Answers request_id [] = ⊥
  Answers request_id (msg ∷ rest) = IsReply request_id msg × All IsNotice rest

  abbrev pub Answered : ℕ → Option (List Bytes) → Type 0
  Answered request_id none = Unit
  Answered request_id (some messages) = Answers request_id messages

module _ ⦃b : Buf⦄ {d : Dds} (session_id room request_id : ℕ) (s0 : BridgeInner d) where
  -- How a handler ends.
  abbrev pub EndsWell : Outcome Bytes (List Bytes) × BridgeInner d → Type 0
  EndsWell =
      Ends (λ messages s. Kept session_id room s0 s × Answers request_id messages)
        (Refused session_id room request_id s0)

  ok-IsReply : IsReply request_id (ok_response request_id)
  unfolding ok_response
  ok-IsReply = inl (MsgType.ok, [], refl, refl)

  pub handle_subscribe-EndsWell :
      (payload : Bytes)
      → Kept session_id (suc room) s0 s0
      → EndsWell (handle_subscribe session_id request_id payload s0)
  unfolding handle_subscribe pure
  handle_subscribe-EndsWell payload kept =
      bind-Ends _ (parsed-Ends session_id room request_id s0 (parse_subscribe payload) s0 kept)
        λ sub s1 kept1.
          bind-Ends _
            (topic_for-Ends session_id room request_id s0 sub.topic_name sub.type_name _ _ s1 kept1)
            λ topic s2 (kept2, t, y).
              bind-Ends _ (reader_for-Ends session_id room request_id s0 topic sub.qos s2 kept2)
                λ reader_id s3 kept3. record { holds = (kept3, (ok-IsReply, tt)) }

  unsubscribe_response-EndsWell :
      (unsub : UnsubscribePayload) (found : Bool) (s : BridgeInner d)
      → Kept session_id room s0 s
      → EndsWell (checked (unsubscribe_response request_id unsub found) s)
  unfolding checked unsubscribe_response
  unsubscribe_response-EndsWell unsub true s kept = record { holds = (kept, (ok-IsReply, tt)) }
  unsubscribe_response-EndsWell unsub false s kept = record {
    holds = (kept, (ErrorCode.reader_not_found, _, refl, refl));
  }

  pub handle_unsubscribe-EndsWell :
      (payload : Bytes)
      → Kept session_id (suc room) s0 s0
      → EndsWell (handle_unsubscribe session_id request_id payload s0)
  unfolding handle_unsubscribe
  handle_unsubscribe-EndsWell payload kept =
      bind-Ends _ (parsed-Ends session_id room request_id s0 (parse_unsubscribe payload) s0 kept)
        λ unsub s1 (v1, i1).
          bind-Ends _
            (reader_left-Ends session_id room request_id s0 unsub.topic_name unsub.type_name s1
              (weaken v1, i1))
            λ found s2 kept2. unsubscribe_response-EndsWell unsub found s2 kept2

  -- A write and what follows it.
  written-EndsWell :
      (mode : WriteMode) (op : WriteOp) (next : Bytes → Handler d (List Bytes)) (s : BridgeInner d)
      → Kept session_id (suc room) s0 s
      → ((s' : BridgeInner d)
          → Kept session_id room s0 s'
          → EndsWell (next (ok_response request_id) s'))
      → EndsWell ((do_write_op session_id request_id mode op >>= next) s)
  written-EndsWell mode op next s kept k =
      bind-Ends _ (do_write_op-Ends session_id room request_id s0 mode op s kept)
        λ resp s' (kept', is). subst (λ r. EndsWell (next r s')) (sym is) (k s' kept')

  notified-EndsWell :
      (mode : WriteMode) (s : BridgeInner d)
      → Kept session_id room s0 s
      → EndsWell (resp_with_dispose_notification session_id (ok_response request_id) mode s)
  notified-EndsWell mode s kept =
      Ends-map _
        (resp_with_dispose_notification-Ends session_id room request_id s0 (ok_response request_id)
          mode s kept)
        λ messages s' (kept', rest, is, all). (kept', rw is (ok-IsReply, all))

  pub handle_write-EndsWell :
      (payload : Bytes)
      → Kept session_id (suc room) s0 s0
      → EndsWell (handle_write session_id request_id payload s0)
  unfolding handle_write pure
  handle_write-EndsWell payload kept =
      bind-Ends _ (parsed-Ends session_id room request_id s0 (parse_write payload) s0 kept)
        λ p s1 kept1.
          written-EndsWell p.mode WriteOp.write _ s1 kept1
            λ s2 kept2. record { holds = (kept2, (ok-IsReply, tt)) }

  pub handle_dispose-EndsWell :
      (payload : Bytes)
      → Kept session_id (suc room) s0 s0
      → EndsWell (handle_dispose session_id request_id payload s0)
  unfolding handle_dispose
  handle_dispose-EndsWell payload kept =
      bind-Ends _ (parsed-Ends session_id room request_id s0 (parse_dispose payload) s0 kept)
        λ p s1 kept1. written-EndsWell p.mode WriteOp.dispose _ s1 kept1 (notified-EndsWell p.mode)

  pub handle_write_dispose-EndsWell :
      (payload : Bytes)
      → Kept session_id (suc room) s0 s0
      → EndsWell (handle_write_dispose session_id request_id payload s0)
  unfolding handle_write_dispose
  handle_write_dispose-EndsWell payload kept =
      bind-Ends _ (parsed-Ends session_id room request_id s0 (parse_write_dispose payload) s0 kept)
        λ p s1 kept1.
          written-EndsWell p.mode WriteOp.write_dispose _ s1 kept1 (notified-EndsWell p.mode)

  pub handle_create_writer-EndsWell :
      (payload : Bytes)
      → Kept session_id (suc room) s0 s0
      → EndsWell (handle_create_writer session_id request_id payload s0)
  unfolding handle_create_writer pure
  handle_create_writer-EndsWell payload kept =
      bind-Ends _ (parsed-Ends session_id room request_id s0 (parse_create_writer payload) s0 kept)
        λ cw s1 kept1.
          bind-Ends _
            (topic_for-Ends session_id room request_id s0 cw.topic_name cw.type_name _ _ s1 kept1)
            λ topic s2 (kept2, t, y).
              bind-Ends _
                (writer_for-Ends session_id room request_id s0 topic cw.qos (normalize cw.qos) s2
                  kept2)
                λ writer s3 new.
                  bind-Ends _
                    (writer_registered-Ends session_id room request_id s0 topic (normalize cw.qos)
                      writer s3 new)
                    λ id s4 (kept4, id_is, writers_are). record {
                      holds = (kept4, (inl (MsgType.ok, _, refl, refl), tt));
                    }

  pub handle_delete_writer-EndsWell :
      (payload : Bytes)
      → Kept session_id (suc room) s0 s0
      → EndsWell (handle_delete_writer session_id request_id payload s0)
  unfolding handle_delete_writer pure
  handle_delete_writer-EndsWell payload kept =
      bind-Ends _ (parsed-Ends session_id room request_id s0 (parse_delete_writer payload) s0 kept)
        λ dw s1 (v1, i1).
          then-Ends _
            (writer_deleted-Ends session_id room request_id s0 dw.writer_id s1 (weaken v1, i1))
            λ s2 kept2. record { holds = (kept2, (ok-IsReply, tt)) }
