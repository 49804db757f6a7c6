-- ===== src/Bridge/Unsubscribed.antt =====
-- What an UNSUBSCRIBE request of src/bridge.rs does for its session.
use cyclone_dds_ws_bridge.Base.{
  Bool-cases, Bytes, List, Option, Option-cases, [], arith, false, inl, inr, list_eq, nat_eq, none,
  ok, pair_eq, refl, some, true, ℕ, ◌++◌, ◌==◌, ◌∙◌, ◌∷◌, ◌≡◌,
}
use cyclone_dds_ws_bridge.Base.Assoc.{insert, lookup, lookup-insert, lookup-without, without}
use cyclone_dds_ws_bridge.Base.Buf.{Buf}
use cyclone_dds_ws_bridge.Base.Sets.{contains-set_remove}
use cyclone_dds_ws_bridge.Base.Text.{codes}
use cyclone_dds_ws_bridge.Bridge.{BridgeInner}
use cyclone_dds_ws_bridge.Bridge.Handler.{checked, ◌>>=◌}
use cyclone_dds_ws_bridge.Bridge.Handler.Laws.{bind-done}
use cyclone_dds_ws_bridge.Bridge.Handler.Replies.{make_error_response, ok_response, parsed}
use cyclone_dds_ws_bridge.Bridge.Handler.Requests.{
  handle_message, handle_unsubscribe, handler_of, reader_left, replies, unsubscribe_response,
}
use cyclone_dds_ws_bridge.Bridge.Invariant.{IsBridge}
use cyclone_dds_ws_bridge.Dds.Api.{Dds, delete_all}
use cyclone_dds_ws_bridge.Dds.Readers.{
  ReaderRegistry, Subscription, leave_found, reader_key_eq, removed_reader, subscription_beq_iff,
  subscription_eq, unsubscribe, unsubscribe_key, without_subscriber,
}
use cyclone_dds_ws_bridge.Dds.Readers.Invariant.{IsReaders, is_subscribed}
use cyclone_dds_ws_bridge.Protocol.Codes.{ErrorCode, MsgType}
use cyclone_dds_ws_bridge.Protocol.Messages.{UnsubscribePayload}
use cyclone_dds_ws_bridge.Protocol.Parse.{parse_unsubscribe}
use cyclone_dds_ws_bridge.Qos.Normalize.{policy_eq}

module _ (r : ReaderRegistry) (v : IsReaders r) (key : Subscription) where
  -- The reader no longer lists the session, whether it is kept or goes with its last subscriber.
  unsubscribe_lem :
      (id : ℕ)
      → lookup key r.session_subscriptions ≡ some id
      → (let (found, r', gone) = unsubscribe key.topic_name key.type_name key.session_id r in
          (found ≡ true)
          × (lookup key r'.session_subscriptions ≡ none)
          × (is_subscribed key (lookup id r'.readers) ≡ false))
  unfolding unsubscribe unsubscribe_key leave_found removed_reader
  unsubscribe_lem id recorded = elim (Option-cases (lookup id r.readers)) [
    | inl gone ↦ absurd (ground (arith, gone, v.subscribed key id recorded))
    | inr (reader, present) ↦
        let left = without_subscriber key.session_id reader in
        let forgotten : lookup key (without key r.session_subscriptions) ≡ none =
          lookup-without key key r.session_subscriptions
          ∙ ground (arith, subscription_beq_iff key key) in
        elim (Bool-cases (left.subscribers == [])) [
          | inl last ↦
              rw (recorded, present, last)
                (
                  refl,
                  forgotten,
                  rw (lookup-without id id (insert id left r.readers)) (ground arith),
                )
          | inr others ↦
              rw (recorded, present, others)
                (
                  refl,
                  forgotten,
                  rw (lookup-insert id id left r.readers) (
                      ground (
                        arith,
                        contains-set_remove key.session_id key.session_id reader.subscribers,
                      )),
                )
        ]
  ]

unsubscribe-unknown :
    (r : ReaderRegistry) (key : Subscription)
    → lookup key r.session_subscriptions ≡ none
    → unsubscribe key.topic_name key.type_name key.session_id r ≡ (false, r, [])
unfolding unsubscribe unsubscribe_key
unsubscribe-unknown r key unknown = rw unknown refl

-- The session's subscription, by the names of the request.
abbrev pub left_by : ℕ → UnsubscribePayload → Subscription
left_by session_id unsub = record {
  session_id = session_id;
  topic_name = unsub.topic_name;
  type_name = unsub.type_name;
}

module _ ⦃b : Buf⦄ {d : Dds} (session_id request_id : ℕ) (payload : Bytes)
    (unsub : UnsubscribePayload) (s : BridgeInner d)
    (parsed_as : parse_unsubscribe payload ≡ ok unsub) where
  -- An error, and no change.
  abbrev pub IsUnknown : Option (List Bytes) × BridgeInner d → Type 0
  IsUnknown r =
      (text : Bytes) × (r
        ≡ (some (make_error_response request_id ErrorCode.reader_not_found text ∷ []), s))

  -- OK, no record left, and a reader that does not list the session for these names.
  abbrev pub HasLeft : ℕ → Option (List Bytes) × BridgeInner d → Type 0
  HasLeft id r =
      (r.0 ≡ some (ok_response request_id ∷ []))
      × (lookup (left_by session_id unsub) r.1.readers.session_subscriptions ≡ none)
      × (is_subscribed (left_by session_id unsub) (lookup id r.1.readers.readers) ≡ false)

  after_parse :
      handle_unsubscribe session_id request_id payload s
      ≡ (reader_left unsub.topic_name unsub.type_name session_id >>= λ found.
            checked (unsubscribe_response request_id unsub found))
          s
  unfolding handle_unsubscribe parsed checked
  after_parse = bind-done (parsed request_id (parse_unsubscribe payload)) _ (rw parsed_as refl)

  unknown_lem :
      lookup (left_by session_id unsub) s.readers.session_subscriptions ≡ none
      → IsUnknown (handle_message session_id MsgType.unsubscribe request_id payload s)
  unfolding handle_message handler_of replies reader_left checked unsubscribe_response delete_all
  unknown_lem unknown = (
    codes "no subscription for topic='"
        ++ (unsub.topic_name ++ (codes "' type='" ++ (unsub.type_name ++ codes "'"))),
    rw
        (
          after_parse,
          bind-done (reader_left unsub.topic_name unsub.type_name session_id)
              (λ found. checked (unsubscribe_response request_id unsub found)) {s = s} {s' = s}
              {a = false}
              (rw (unsubscribe-unknown s.readers (left_by session_id unsub) unknown) refl),
        )
        refl,
  )

  known_lem :
      {room : ℕ} (id : ℕ)
      → IsBridge room s
      → lookup (left_by session_id unsub) s.readers.session_subscriptions ≡ some id
      → HasLeft id (handle_message session_id MsgType.unsubscribe request_id payload s)
  unfolding handle_message handler_of replies reader_left checked unsubscribe_response
  known_lem id v recorded =
      let key = left_by session_id unsub in
      let (found, forgotten, unlisted) = unsubscribe_lem s.readers v.reader_maps key id recorded in
      rw
        (
          after_parse,
          bind-done (reader_left unsub.topic_name unsub.type_name session_id)
              (λ found. checked (unsubscribe_response request_id unsub found)) {s = s} refl,
          found,
        )
        (refl, forgotten, unlisted)

  -- In a state of the bridge that is in order, UNSUBSCRIBE with a payload that can be read is
  -- answered by READER_NOT_FOUND and changes nothing if the session has no such subscription, and
  -- else by OK, and then the subscription is gone and its reader does not list the session.
  pub handle_message-unsubscribe :
      {room : ℕ}
      → IsBridge room s
      → (let key = left_by session_id unsub in
          let r = handle_message session_id MsgType.unsubscribe request_id payload s in
          (lookup key s.readers.session_subscriptions ≡ none → IsUnknown r)
          × ((id : ℕ) → lookup key s.readers.session_subscriptions ≡ some id → HasLeft id r))
  handle_message-unsubscribe v = (unknown_lem, λ id. known_lem id v)
