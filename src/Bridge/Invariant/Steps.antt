-- ===== src/Bridge/Invariant/Steps.antt =====
-- What the steps of the handlers of src/bridge.rs do to the state.
pub mod Readers
pub mod Deletes
pub mod Writes
use cyclone_dds_ws_bridge.Dds.Writer.Entity
use cyclone_dds_ws_bridge.Base.{
  Bool, Bool-cases, Bytes, Option, Result, arith, err, false, inl, inr, list_eq, nat_eq, none, ok,
  pair_eq, refl, some, suc, true, ℕ, ◌<◌, ◌∙◌, ◌≡◌,
}
use cyclone_dds_ws_bridge.Base.Assoc.{lookup}
use cyclone_dds_ws_bridge.Base.Buf.{Buf}
use cyclone_dds_ws_bridge.Base.Int.{is_negative}
use cyclone_dds_ws_bridge.Base.Outcomes.{Outcome, done, failed, panicked}
use cyclone_dds_ws_bridge.Bridge.{BridgeInner}
use cyclone_dds_ws_bridge.Bridge.Handler.{checked}
use cyclone_dds_ws_bridge.Bridge.Handler.Laws.{Ends}
use cyclone_dds_ws_bridge.Bridge.Handler.Replies.{
  dds_error_response, make_error_response, new_writer_outcome, parsed, topic_for, topic_outcome,
  writer_for, writer_registered,
}
use cyclone_dds_ws_bridge.Bridge.Invariant.{
  Kept, named, next_writer, register-SameWriters, register-fresh, replaced_writers, weaken,
}
use cyclone_dds_ws_bridge.Dds.Api.{Dds}
use cyclone_dds_ws_bridge.Dds.Errors.{DdsError}
use cyclone_dds_ws_bridge.Dds.Participant.{DdsParticipant, Topic}
use cyclone_dds_ws_bridge.Dds.Participant.Laws.{Named, get_or_create_topic-Named}
use cyclone_dds_ws_bridge.Dds.QosHandle.{make_qos}
use cyclone_dds_ws_bridge.Dds.Readers.{reader_key_eq, subscription_eq}
use cyclone_dds_ws_bridge.Dds.Writer.{DdsWriter, next_writer_id, register}
use cyclone_dds_ws_bridge.Dds.Writer.Invariant.{register-IsWriters}
use cyclone_dds_ws_bridge.Protocol.Codes.{ErrorCode}
use cyclone_dds_ws_bridge.Protocol.Errors.{ProtocolError}
use cyclone_dds_ws_bridge.Protocol.Keys.{KeyDescriptors}
use cyclone_dds_ws_bridge.Qos.Normalize.{policy_eq}
use cyclone_dds_ws_bridge.Qos.Policy.{QosSet}

abbrev pub is_internal : ErrorCode → Bool
is_internal ErrorCode.internal_error = true
is_internal _ = false

module _ ⦃b : Buf⦄ where
  -- An error message for the request, with any code but that of an internal error.
  abbrev pub IsRefusal : ℕ → Bytes → Type 0
  IsRefusal request_id msg =
      (code : ErrorCode) × (text : Bytes) × (is_internal code ≡ false)
      × (msg ≡ make_error_response request_id code text)

module _ ⦃b : Buf⦄ {d : Dds} where
  -- A state in which a request may fail, and the message if it does not panic.
  abbrev pub Refused : ℕ → ℕ → ℕ → BridgeInner d → Option Bytes → BridgeInner d → Type 0
  Refused session_id room request_id s none s' = Kept session_id room s s'
  Refused session_id room request_id s (some msg) s' =
      Kept session_id room s s' × IsRefusal request_id msg

module _ ⦃b : Buf⦄ {d : Dds} (session_id room request_id : ℕ) (s0 : BridgeInner d) where
  pub parsed-Ends {ℓ} :
      {A : Type ℓ} (r : Result ProtocolError A) (s : BridgeInner d)
      → Kept session_id (suc room) s0 s
      → Ends
          (λ a. Kept session_id (suc room) s0)
          (Refused session_id room request_id s0)
          (parsed request_id r s)
  unfolding parsed checked
  parsed-Ends (ok a) s (v, i) = record { holds = (v, i) }
  parsed-Ends (err e) s (v, i) = record {
    holds = ((weaken v, i), (ErrorCode.invalid_message, _, refl, refl));
  }

  abbrev HasNames : Bytes → Bytes → Topic → BridgeInner d → Type 0
  HasNames topic_name type_name u s =
      Kept session_id (suc room) s0 s × (u.topic_name ≡ topic_name) × (u.type_name ≡ type_name)

  topic_outcome-Ends :
      (topic_name type_name : Bytes) (s : BridgeInner d)
      (r : Outcome DdsError Topic × DdsParticipant × d.World)
      → Kept session_id (suc room) s0 s
      → Named r.1.topics
      → ((u : Topic) → r.0 ≡ done u → (u.topic_name ≡ topic_name) × (u.type_name ≡ type_name))
      → Ends
          (HasNames topic_name type_name)
          (Refused session_id room request_id s0)
          (topic_outcome request_id s r)
  unfolding topic_outcome dds_error_response
  topic_outcome-Ends topic_name type_name s (done u, p, w) (v, i) names is = record {
    holds = ((named v p.topics names, i), (is u refl).0, (is u refl).1);
  }
  topic_outcome-Ends topic_name type_name s (failed e, p, w) (v, i) names is = record {
    holds = ((weaken (named v p.topics names), i), (ErrorCode.dds_error, _, refl, refl));
  }
  topic_outcome-Ends topic_name type_name s (panicked, p, w) (v, i) names is = record {
    holds = (weaken (named v p.topics names), i);
  }

  pub topic_for-Ends :
      (topic_name type_name : Bytes) (is_keyed : Bool) (keys : KeyDescriptors) (s : BridgeInner d)
      → Kept session_id (suc room) s0 s
      → Ends
          (HasNames topic_name type_name)
          (Refused session_id room request_id s0)
          (topic_for request_id topic_name type_name is_keyed keys s)
  unfolding topic_for
  topic_for-Ends topic_name type_name is_keyed keys s (v, i) =
      let (after, is) =
        get_or_create_topic-Named d s.participant topic_name type_name is_keyed keys s.world
          v.topic_names in
      topic_outcome-Ends topic_name type_name s _ (v, i) after is

  -- A writer for the topic and the QoS, whose id is not in use and will not be handed out again.
  abbrev IsNewWriter : Topic → QosSet → DdsWriter → BridgeInner d → Type 0
  IsNewWriter topic normalized writer s =
      Kept session_id room s0 s
      × (writer.topic ≡ topic)
      × (writer.qos_normalized ≡ normalized)
      × (lookup writer.writer_id s.writers.writers ≡ none)
      × (writer.writer_id < s.writer_counter)

  pub writer_for-Ends :
      (topic : Topic) (qos normalized : QosSet) (s : BridgeInner d)
      → Kept session_id (suc room) s0 s
      → Ends
          (IsNewWriter topic normalized)
          (Refused session_id room request_id s0)
          (writer_for request_id topic qos normalized s)
  unfolding writer_for Entity.new_writer Entity.created_writer new_writer_outcome next_writer_id
      dds_error_response
  writer_for-Ends topic qos normalized s (v, i) =
      elim (Bool-cases (
        is_negative
          (d.dds_create_writer s.world s.participant.handle topic.handle
            (make_qos (d.dds_create_qos s.world) qos)).0)) [
              | inl refused ↦
                  rw refused
                    (record { holds = ((weaken v, i), (ErrorCode.dds_error, _, refl, refl)) })
              | inr made ↦
                  let h = v.writer_room in
                  rw made (record {
                    holds = (
                      (next_writer v, i),
                      refl,
                      refl,
                      v.fresh_writers s.writer_counter (omega arith),
                      omega arith,
                    );
                  })
            ]

  pub writer_registered-Ends :
      (topic : Topic) (normalized : QosSet) (writer : DdsWriter) (s : BridgeInner d)
      → IsNewWriter topic normalized writer s
      → Ends
          (λ id s'.
            Kept session_id room s0 s'
            × (id ≡ writer.writer_id)
            × (s'.writers ≡ (register writer session_id s.writers).0))
          (Refused session_id room request_id s0)
          (writer_registered writer session_id s)
  unfolding writer_registered
  writer_registered-Ends topic normalized writer s ((v, i), t, q, fresh, below) = record {
    holds = (
      (
        replaced_writers v _ (register-IsWriters s.writers v.writer_maps writer session_id fresh)
            (λ id h.
              register-fresh writer session_id s.writers id (omega arith) (v.fresh_writers id h)),
        (
          λ wid other n.
              register-SameWriters writer session_id s.writers fresh wid other n ∙ i.0 wid other n,
          i.1,
          i.2,
          i.3,
        ),
      ),
      refl,
      refl,
    );
  }
