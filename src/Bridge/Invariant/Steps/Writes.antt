-- ===== src/Bridge/Invariant/Steps/Writes.antt =====
-- What `do_write_op` and `resp_with_dispose_notification` of src/bridge.rs do to the state.
use cyclone_dds_ws_bridge.Base.{
  Bytes, Option, Result, [], arith, err, none, ok, refl, some, suc, ℕ, ◌≡◌, ◌≢◌,
}
use cyclone_dds_ws_bridge.Base.Buf.{Buf}
use cyclone_dds_ws_bridge.Bridge.{BridgeInner}
use cyclone_dds_ws_bridge.Bridge.Handler.{checked, gets, pure, ◌>>◌}
use cyclone_dds_ws_bridge.Bridge.Handler.Laws.{Ends, bind-Ends, then-Ends}
use cyclone_dds_ws_bridge.Bridge.Handler.Replies.{
  dds_error_response, ok_response, writer_error_code,
}
use cyclone_dds_ws_bridge.Bridge.Handler.Writes.{
  WriteOp, create_implicit_writer, do_write_op, ensure_writer, execute_write_op, executed,
  find_implicit_writer, is_some, own_writer, present_writer,
}
use cyclone_dds_ws_bridge.Bridge.Invariant.{Kept, weaken}
use cyclone_dds_ws_bridge.Bridge.Invariant.Steps.{
  Refused, topic_for-Ends, writer_for-Ends, writer_registered-Ends,
}
use cyclone_dds_ws_bridge.Bridge.Invariant.Steps.Deletes.{is_internal-writer_error_code}
use cyclone_dds_ws_bridge.Dds.Api.{Dds}
use cyclone_dds_ws_bridge.Dds.Errors.{DdsError}
use cyclone_dds_ws_bridge.Dds.Writer.{DdsWriter, get_writer}
use cyclone_dds_ws_bridge.Dds.Writer.Laws.{find_by_topic-register}
use cyclone_dds_ws_bridge.Protocol.Codes.{ErrorCode}
use cyclone_dds_ws_bridge.Protocol.Messages.{TopicNameMode, WriteMode, by_topic_name, by_writer_id}
use cyclone_dds_ws_bridge.Qos.Normalize.{normalized_eq_refl}
use cyclone_dds_ws_bridge.Qos.Policy.{normalize}

module _ ⦃b : Buf⦄ where
  abbrev pub HasOk : ℕ → Bytes → Type 0
  HasOk request_id msg = msg ≡ ok_response request_id

module _ ⦃b : Buf⦄ {d : Dds} (session_id room request_id : ℕ) (s0 : BridgeInner d) where
  abbrev Found : TopicNameMode → BridgeInner d → Type 0
  Found m s = Kept session_id room s0 s × (find_implicit_writer session_id m s ≢ none)

  create_implicit_writer-Ends :
      (m : TopicNameMode) (s : BridgeInner d)
      → Kept session_id (suc room) s0 s
      → Ends
          (λ u. Found m)
          (Refused session_id room request_id s0)
          (create_implicit_writer session_id request_id m s)
  unfolding create_implicit_writer pure find_implicit_writer
  create_implicit_writer-Ends m s kept =
      bind-Ends _ (topic_for-Ends session_id room request_id s0 m.topic_name m.type_name _ _ s kept)
        λ topic s1 (kept1, t, y).
          bind-Ends _
            (writer_for-Ends session_id room request_id s0 topic m.qos (normalize m.qos) s1 kept1)
            λ writer s2 new.
              let (kept2, topic_is, qos_is, unused, below) = new in
              bind-Ends _
                (writer_registered-Ends session_id room request_id s0 topic (normalize m.qos) writer
                  s2 new)
                λ id s3 (kept3, id_is, writers_are). record {
                  holds = (
                    kept3,
                    rw writers_are (
                        find_by_topic-register writer session_id m.topic_name m.type_name
                          (normalize m.qos) s2.writers (rw topic_is t) (rw topic_is y)
                          (rw qos_is (normalized_eq_refl (normalize m.qos)))),
                  );
                }

  ensure_writer-Ends :
      (m : TopicNameMode) (s : BridgeInner d) (found : Option DdsWriter)
      → Kept session_id (suc room) s0 s
      → find_implicit_writer session_id m s ≡ found
      → Ends
          (λ u. Found m)
          (Refused session_id room request_id s0)
          (ensure_writer session_id request_id m (is_some found) s)
  unfolding ensure_writer pure
  ensure_writer-Ends m s (some writer) (v, i) is = record {
    holds = ((weaken v, i), λ e. ground (arith, is));
  }
  ensure_writer-Ends m s none kept is = create_implicit_writer-Ends m s kept

  present_writer-Ends :
      (m : TopicNameMode) (s : BridgeInner d) (found : Option DdsWriter)
      → Found m s
      → find_implicit_writer session_id m s ≡ found
      → Ends
          (λ w. Kept session_id room s0)
          (Refused session_id room request_id s0)
          (present_writer request_id found s)
  unfolding present_writer pure
  present_writer-Ends m s (some writer) (kept, there) is = record { holds = kept }
  present_writer-Ends m s none (kept, there) is = absurd (there is)

  executed-Ends :
      (s : BridgeInner d) (r : Result DdsError (Unit {0}) × d.World)
      → Kept session_id room s0 s
      → Ends
          (λ u. Kept session_id room s0)
          (Refused session_id room request_id s0)
          (executed request_id s r)
  unfolding executed dds_error_response
  executed-Ends s (ok u, w) kept = record { holds = kept }
  executed-Ends s (err e, w) kept = record { holds = (kept, (ErrorCode.dds_error, _, refl, refl)) }

  execute_write_op-Ends :
      (writer : DdsWriter) (op : WriteOp) (content key_bytes : Bytes) (s : BridgeInner d)
      → Kept session_id room s0 s
      → Ends
          (λ u. Kept session_id room s0)
          (Refused session_id room request_id s0)
          (execute_write_op writer op content key_bytes request_id s)
  unfolding execute_write_op
  execute_write_op-Ends writer op content key_bytes s kept = executed-Ends s _ kept

  own_writer-Ends :
      (wid : ℕ) (s : BridgeInner d) (r : Result DdsError DdsWriter)
      → Kept session_id room s0 s
      → get_writer wid session_id s.writers ≡ r
      → Ends
          (λ w. Kept session_id room s0)
          (Refused session_id room request_id s0)
          (own_writer session_id request_id wid s)
  unfolding own_writer checked
  own_writer-Ends wid s (ok w) kept is = rw is (record { holds = kept })
  own_writer-Ends wid s (err e) kept is =
      rw is
        (record { holds = (kept, (writer_error_code e, _, is_internal-writer_error_code e, refl)) })

  -- The writer operation and the reply.
  executed_reply-Ends :
      (writer : DdsWriter) (op : WriteOp) (content key_bytes : Bytes) (s : BridgeInner d)
      → Kept session_id room s0 s
      → Ends
          (λ msg s'. Kept session_id room s0 s' × HasOk request_id msg)
          (Refused session_id room request_id s0)
          ((execute_write_op writer op content key_bytes request_id
              >> pure (ok_response request_id))
            s)
  unfolding pure
  executed_reply-Ends writer op content key_bytes s kept =
      then-Ends _ (execute_write_op-Ends writer op content key_bytes s kept)
        λ s' kept'. record { holds = (kept', refl) }

  pub do_write_op-Ends :
      (mode : WriteMode) (op : WriteOp) (s : BridgeInner d)
      → Kept session_id (suc room) s0 s
      → Ends
          (λ msg s'. Kept session_id room s0 s' × HasOk request_id msg)
          (Refused session_id room request_id s0)
          (do_write_op session_id request_id mode op s)
  unfolding do_write_op gets
  do_write_op-Ends (by_topic_name m) op s kept =
      bind-Ends
        {Q = λ found s'.
          Kept session_id (suc room) s0 s' × (find_implicit_writer session_id m s' ≡ found)}
        _ (record { holds = (kept, refl) })
        λ found s1 (kept1, is). then-Ends _ (ensure_writer-Ends m s1 found kept1 is) λ s2 ready.
          bind-Ends {Q = λ found s'. Found m s' × (find_implicit_writer session_id m s' ≡ found)} _
            (record { holds = (ready, refl) })
            λ found' s3 (ready3, is3).
              bind-Ends _ (present_writer-Ends m s3 found' ready3 is3)
                λ writer s4 kept4. executed_reply-Ends writer op m.content [] s4 kept4
  do_write_op-Ends (by_writer_id m) op s (v, i) =
      bind-Ends _ (own_writer-Ends m.writer_id s _ (weaken v, i) refl)
        λ writer s1 kept1. executed_reply-Ends writer op m.content m.key_bytes s1 kept1
