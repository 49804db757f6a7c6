-- ===== src/Bridge/Invariant/Steps/Readers.antt =====
-- What subscribing and unsubscribing in src/bridge.rs do to the state.
use cyclone_dds_ws_bridge.Base.{Bytes, Result, arith, err, ok, refl, suc, ℕ}
use cyclone_dds_ws_bridge.Base.Buf.{Buf}
use cyclone_dds_ws_bridge.Bridge.{BridgeInner}
use cyclone_dds_ws_bridge.Bridge.Handler.Laws.{Ends}
use cyclone_dds_ws_bridge.Bridge.Handler.Replies.{dds_error_response}
use cyclone_dds_ws_bridge.Bridge.Handler.Requests.{reader_for, reader_left, subscribe_outcome}
use cyclone_dds_ws_bridge.Bridge.Invariant.{Kept, replaced_readers}
use cyclone_dds_ws_bridge.Bridge.Invariant.Steps.{Refused}
use cyclone_dds_ws_bridge.Dds.Api.{Dds}
use cyclone_dds_ws_bridge.Dds.Errors.{DdsError}
use cyclone_dds_ws_bridge.Dds.Participant.{Topic}
use cyclone_dds_ws_bridge.Dds.QosHandle.{make_qos}
use cyclone_dds_ws_bridge.Dds.Readers.{ReaderRegistry, subscribe}
use cyclone_dds_ws_bridge.Dds.Readers.Invariant.Fresh.{subscribe-fresh, unsubscribe-fresh}
use cyclone_dds_ws_bridge.Dds.Readers.Invariant.Others.{
  SameOthers-trans, subscribe-SameOthers, unsubscribe-SameOthers,
}
use cyclone_dds_ws_bridge.Dds.Readers.Invariant.Subscribe.{subscribe-IsReaders}
use cyclone_dds_ws_bridge.Dds.Readers.Invariant.Unsubscribe.{unsubscribe-IsReaders}
use cyclone_dds_ws_bridge.Protocol.Codes.{ErrorCode}
use cyclone_dds_ws_bridge.Qos.Policy.{QosSet}

module _ ⦃b : Buf⦄ {d : Dds} (session_id room request_id : ℕ) (s0 : BridgeInner d) where
  -- The reader registry after `subscribe`.
  pub reader_for-Kept :
      (topic : Topic) (qos : QosSet) (s : BridgeInner d)
      → Kept session_id (suc room) s0 s
      → (let (result, readers, counter, w) =
            subscribe d s.participant.handle topic
              (make_qos (d.dds_create_qos s.world) qos)
              qos
              session_id
              s.readers
              s.reader_counter
              s.world in
          Kept session_id room s0
            (record s { readers = readers; reader_counter = counter; world = w }))
  reader_for-Kept topic qos s (v, i) =
      let qset = make_qos (d.dds_create_qos s.world) qos in
      let fresh = v.fresh_readers s.reader_counter (omega arith) in
      let (h, unused) =
        subscribe-fresh d s.participant.handle topic qset qos session_id s.readers s.reader_counter
          s.world room v.reader_room v.fresh_readers in
      (
        replaced_readers v _ room _ (omega arith) h
            (subscribe-IsReaders s.readers v.reader_maps d s.participant.handle topic qset qos
              session_id s.reader_counter s.world fresh)
            unused,
        (
          i.0,
          SameOthers-trans i.1 (
              subscribe-SameOthers d s.participant.handle topic qset qos session_id s.readers
                s.reader_counter s.world fresh),
          i.2,
          i.3,
        ),
      )

  subscribe_outcome-Ends :
      (s : BridgeInner d) (r : Result DdsError ℕ × ReaderRegistry × ℕ × d.World)
      → Kept session_id room s0 (record s { readers = r.1; reader_counter = r.2; world = r.3 })
      → Ends
          (λ id. Kept session_id room s0)
          (Refused session_id room request_id s0)
          (subscribe_outcome request_id s r)
  unfolding subscribe_outcome dds_error_response
  subscribe_outcome-Ends s (ok id, readers, counter, w) kept = record { holds = kept }
  subscribe_outcome-Ends s (err e, readers, counter, w) kept = record {
    holds = (kept, (ErrorCode.dds_error, _, refl, refl));
  }

  pub reader_for-Ends :
      (topic : Topic) (qos : QosSet) (s : BridgeInner d)
      → Kept session_id (suc room) s0 s
      → Ends
          (λ id. Kept session_id room s0)
          (Refused session_id room request_id s0)
          (reader_for request_id topic qos session_id s)
  unfolding reader_for
  reader_for-Ends topic qos s kept = subscribe_outcome-Ends s _ (reader_for-Kept topic qos s kept)

  pub reader_left-Ends :
      (topic_name type_name : Bytes) (s : BridgeInner d)
      → Kept session_id room s0 s
      → Ends
          (λ found. Kept session_id room s0)
          (Refused session_id room request_id s0)
          (reader_left topic_name type_name session_id s)
  unfolding reader_left
  reader_left-Ends topic_name type_name s (v, i) = record {
    holds = (
      replaced_readers v _ room _ (omega arith) v.reader_room
          (unsubscribe-IsReaders s.readers topic_name type_name session_id v.reader_maps)
          (λ id le.
            unsubscribe-fresh s.readers topic_name type_name session_id id (v.fresh_readers id le)),
      (
        i.0,
        SameOthers-trans i.1
            (unsubscribe-SameOthers s.readers topic_name type_name session_id v.reader_maps),
        i.2,
        i.3,
      ),
    );
  }
