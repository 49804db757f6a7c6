-- ===== src/Bridge/Subscribed.antt =====
-- What a SUBSCRIBE request of src/bridge.rs gives its session.
use cyclone_dds_ws_bridge.Base.{
  Bytes, List, Option, Result, arith, err, list_eq, nat_eq, none, ok, pair_eq, refl, some, suc,
  true, ℕ, ◌∙◌, ◌≡◌,
}
use cyclone_dds_ws_bridge.Base.Assoc.{lookup, lookup-insert}
use cyclone_dds_ws_bridge.Base.Buf.{Buf}
use cyclone_dds_ws_bridge.Base.Int.{ℤ}
use cyclone_dds_ws_bridge.Bridge.{BridgeInner}
use cyclone_dds_ws_bridge.Bridge.Handler.{pure}
use cyclone_dds_ws_bridge.Bridge.Handler.Laws.{Ends, bind-Ends}
use cyclone_dds_ws_bridge.Bridge.Handler.Replies.{dds_error_response, ok_response}
use cyclone_dds_ws_bridge.Bridge.Handler.Requests.{
  handle_message, handle_subscribe, handler_of, reader_for, subscribe_outcome,
}
use cyclone_dds_ws_bridge.Bridge.Invariant.{IsBridge, Kept, Kept-start}
use cyclone_dds_ws_bridge.Bridge.Invariant.Steps.{Refused, topic_for-Ends}
use cyclone_dds_ws_bridge.Bridge.Invariant.Steps.Readers.{reader_for-Kept}
use cyclone_dds_ws_bridge.Bridge.SingleReply.{
  OneReply, OneReplyOrRefusal, parsed_as-Ends, reply_or_error,
}
use cyclone_dds_ws_bridge.Dds.Api.{Dds}
use cyclone_dds_ws_bridge.Dds.Errors.{DdsError}
use cyclone_dds_ws_bridge.Dds.Participant.{Topic}
use cyclone_dds_ws_bridge.Dds.QosHandle.{QsetCall, make_qos}
use cyclone_dds_ws_bridge.Dds.Reader.{DdsReader, new_reader}
use cyclone_dds_ws_bridge.Dds.Readers.{
  ReaderKey, ReaderRegistry, Subscription, added, found_reader, joined, new_reader_key,
  reader_key_eq, shared_or_new, subscribe, subscription, subscription_beq_iff, subscription_eq,
  with_new_reader,
}
use cyclone_dds_ws_bridge.Dds.Readers.Invariant.{is_subscribed}
use cyclone_dds_ws_bridge.Protocol.Codes.{ErrorCode, MsgType}
use cyclone_dds_ws_bridge.Protocol.Messages.{SubscribePayload}
use cyclone_dds_ws_bridge.Protocol.Parse.{parse_subscribe}
use cyclone_dds_ws_bridge.Qos.Normalize.{policy_eq}
use cyclone_dds_ws_bridge.Qos.Policy.{QosSet, normalize}

module _ ⦃b : Buf⦄ (d : Dds) where
  with_new_reader-recorded :
      (topic : Topic) (key : ReaderKey) (session_id : ℕ) (r : ReaderRegistry)
      (made : Result DdsError DdsReader × ℕ × d.World) {id : ℕ}
      → (with_new_reader d topic key session_id r made).0 ≡ ok id
      → lookup
          (subscription session_id topic)
          (with_new_reader d topic key session_id r made).1.session_subscriptions
        ≡ some id
  unfolding with_new_reader added
  with_new_reader-recorded topic key session_id r (err e, counter, w) h = cc
  with_new_reader-recorded topic key session_id r (ok reader, counter, w) {id} h =
      let sub = subscription session_id topic in
      lookup-insert sub sub reader.reader_id r.session_subscriptions
      ∙ ground (arith, subscription_beq_iff sub sub)

  shared_or_new-recorded :
      (participant : ℤ) (topic : Topic) (qos : Option (List QsetCall)) (q : QosSet) (session_id : ℕ)
      (r : ReaderRegistry) (counter : ℕ) (w : d.World) (found : Option (ℕ × DdsReader)) {id : ℕ}
      → (shared_or_new d participant topic qos q session_id r counter w found).0 ≡ ok id
      → lookup
          (subscription session_id topic)
          (shared_or_new d participant topic qos q session_id r counter w
            found).1.session_subscriptions
        ≡ some id
  unfolding shared_or_new joined
  shared_or_new-recorded participant topic qos q session_id r counter w none h =
      with_new_reader-recorded topic (new_reader_key topic.topic_name topic.type_name q) session_id
        r (new_reader d participant topic qos (normalize q) counter w) h
  shared_or_new-recorded participant topic qos q session_id r counter w (some (rid, reader)) h =
      let sub = subscription session_id topic in
      lookup-insert sub sub rid r.session_subscriptions
      ∙ ground (arith, subscription_beq_iff sub sub)

  -- A subscription that succeeds is recorded for the reader.
  subscribe-recorded :
      (participant : ℤ) (topic : Topic) (qos : Option (List QsetCall)) (q : QosSet) (session_id : ℕ)
      (r : ReaderRegistry) (counter : ℕ) (w : d.World) {id : ℕ}
      → (subscribe d participant topic qos q session_id r counter w).0 ≡ ok id
      → lookup
          (subscription session_id topic)
          (subscribe d participant topic qos q session_id r counter w).1.session_subscriptions
        ≡ some id
  unfolding subscribe
  subscribe-recorded participant topic qos q session_id r counter w h =
      shared_or_new-recorded participant topic qos q session_id r counter w
        (found_reader r.readers
          (lookup (new_reader_key topic.topic_name topic.type_name q) r.key_to_reader))
        h

-- The session's subscription, by the names that it asked for.
abbrev pub asked_for : ℕ → SubscribePayload → Subscription
asked_for session_id sub = record {
  session_id = session_id;
  topic_name = sub.topic_name;
  type_name = sub.type_name;
}

same_names :
    (session_id : ℕ) (sub : SubscribePayload) (topic : Topic)
    → topic.topic_name ≡ sub.topic_name
    → topic.type_name ≡ sub.type_name
    → subscription session_id topic ≡ asked_for session_id sub
same_names session_id sub topic t y = ground arith

module _ ⦃b : Buf⦄ {d : Dds} (session_id request_id : ℕ) (payload : Bytes) where
  -- The reply is OK, and a reader of the topic and type is recorded and lists the session.
  abbrev pub IsSubscribed : Bytes → BridgeInner d → Type 0
  IsSubscribed msg s =
      (sub : SubscribePayload) × (id : ℕ) × (parse_subscribe payload ≡ ok sub)
      × (msg ≡ ok_response request_id)
      × (lookup (asked_for session_id sub) s.readers.session_subscriptions ≡ some id)
      × (is_subscribed (asked_for session_id sub) (lookup id s.readers.readers) ≡ true)

  module _ (room : ℕ) (s0 : BridgeInner d) where
    -- The reader, recorded for the session.
    abbrev HasReader : Topic → ℕ → BridgeInner d → Type 0
    HasReader topic id s =
        Kept session_id room s0 s
        × (lookup (subscription session_id topic) s.readers.session_subscriptions ≡ some id)

    recorded_outcome-Ends :
        (topic : Topic) (s : BridgeInner d) (r : Result DdsError ℕ × ReaderRegistry × ℕ × d.World)
        → Kept session_id room s0 (record s { readers = r.1; reader_counter = r.2; world = r.3 })
        → ((id : ℕ)
            → r.0 ≡ ok id
            → lookup (subscription session_id topic) r.1.session_subscriptions ≡ some id)
        → Ends
            (HasReader topic)
            (Refused session_id room request_id s0)
            (subscribe_outcome request_id s r)
    unfolding subscribe_outcome dds_error_response
    recorded_outcome-Ends topic s (ok id, readers, counter, w) kept is = record {
      holds = (kept, is id refl);
    }
    recorded_outcome-Ends topic s (err e, readers, counter, w) kept is = record {
      holds = (kept, (ErrorCode.dds_error, _, refl, refl));
    }

    recorded_reader-Ends :
        (topic : Topic) (qos : QosSet) (s : BridgeInner d)
        → Kept session_id (suc room) s0 s
        → Ends
            (HasReader topic)
            (Refused session_id room request_id s0)
            (reader_for request_id topic qos session_id s)
    unfolding reader_for
    recorded_reader-Ends topic qos s kept =
        recorded_outcome-Ends topic s _
          (reader_for-Kept session_id room request_id s0 topic qos s kept)
          (λ id h.
            subscribe-recorded d s.participant.handle topic
              (make_qos (d.dds_create_qos s.world) qos) qos session_id s.readers s.reader_counter
              s.world h)

    handle_subscribe-Ends :
        Kept session_id (suc room) s0 s0
        → Ends
            (OneReply IsSubscribed)
            (Refused session_id room request_id s0)
            (handle_subscribe session_id request_id payload s0)
    unfolding handle_subscribe pure
    handle_subscribe-Ends kept =
        bind-Ends _
          (parsed_as-Ends session_id room request_id s0 _ (parse_subscribe payload) s0 refl kept)
          λ sub s1 (kept1, parsed_is).
            bind-Ends _
              (topic_for-Ends session_id room request_id s0 sub.topic_name sub.type_name _ _ s1
                kept1)
              λ topic s2 (kept2, t, y).
                bind-Ends _ (recorded_reader-Ends topic sub.qos s2 kept2) λ id s3 (kept3, recorded).
                  let known = rw (same_names session_id sub topic t y) at recorded in
                  record {
                    holds = (
                      sub,
                      id,
                      parsed_is,
                      refl,
                      known,
                      kept3.0.reader_maps.subscribed (asked_for session_id sub) id known,
                    );
                  }

  -- In a state of the bridge that is in order and has an id of each kind left, SUBSCRIBE is
  -- answered, unless the handler panics, by one message: an error, or OK, and then the session has
  -- the subscription recorded with a reader that lists it and has the topic and the type that the
  -- payload asks for.
  pub handle_message-IsSubscribed :
      (s : BridgeInner d) {room : ℕ}
      → IsBridge (suc room) s
      → (let (messages, s') = handle_message session_id MsgType.subscribe request_id payload s in
          OneReplyOrRefusal request_id IsSubscribed messages s')
  unfolding handle_message handler_of
  handle_message-IsSubscribed s {room} v =
      reply_or_error request_id IsSubscribed session_id room s _
        (handle_subscribe-Ends room s (Kept-start session_id s v))
