-- ===== src/Dds/Readers/Invariant/Subscribe.antt =====
-- The invariant under `subscribe` of src/dds/reader.rs.
use cyclone_dds_ws_bridge.Base.{
  Bool-cases, List, Option, Option-cases, [], ap, arith, if◌then◌else◌, inl, inr, list_beq_iff,
  list_eq, nat_eq, none, pair_eq, refl, some, sym, ℕ, ◌==◌, ◌∙◌, ◌≡◌,
}
use cyclone_dds_ws_bridge.Base.Assoc.{insert, is_map-insert, lookup, lookup-insert}
use cyclone_dds_ws_bridge.Base.Buf.{Buf}
use cyclone_dds_ws_bridge.Base.Int.{is_negative, ℤ}
use cyclone_dds_ws_bridge.Base.Sets.{
  contains, contains-set_insert, is_set, is_set-set_insert, set_insert,
}
use cyclone_dds_ws_bridge.Dds.Api.{Dds}
use cyclone_dds_ws_bridge.Dds.Participant.{Topic}
use cyclone_dds_ws_bridge.Dds.QosHandle.{QsetCall}
use cyclone_dds_ws_bridge.Dds.Reader.{DdsReader, created_reader, new_reader}
use cyclone_dds_ws_bridge.Dds.Readers.{
  ReaderKey, ReaderRegistry, added, joined, new_reader_key, reader_key_eq, shared_or_new, subscribe,
  subscription, subscription_beq, subscription_eq, with_new_reader, with_subscriber,
}
use cyclone_dds_ws_bridge.Dds.Readers.Invariant.{All-lookup, All-step, All-without, IsReaders}
use cyclone_dds_ws_bridge.Qos.Normalize.{policy_eq}
use cyclone_dds_ws_bridge.Qos.Policy.{QosSet, normalize}

module _ (r : ReaderRegistry) (v : IsReaders r) where
  joined-IsReaders :
      (topic : Topic) (session_id reader_id : ℕ) (reader : DdsReader)
      → lookup reader_id r.readers ≡ some reader
      → reader.topic.topic_name ≡ topic.topic_name
      → reader.topic.type_name ≡ topic.type_name
      → IsReaders (joined topic session_id r (reader_id, reader))
  unfolding joined set_insert subscription_beq
  joined-IsReaders topic session_id reader_id reader present same_name same_type = record {
    shared =
        All-step _ _
          (λ key id p.
            ground
              (arith, lookup-insert reader_id id (with_subscriber session_id reader) r.readers))
          r.key_to_reader v.shared;
    subscribed = λ sub id e.
        rw (lookup-insert reader_id id (with_subscriber session_id reader) r.readers) (
          ground (
            arith,
            lookup-insert (subscription session_id topic) sub reader_id r.session_subscriptions,
            contains-set_insert session_id sub.session_id reader.subscribers,
            list_beq_iff topic.topic_name sub.topic_name,
            list_beq_iff topic.type_name sub.type_name,
            list_beq_iff reader.topic.topic_name sub.topic_name,
            list_beq_iff reader.topic.type_name sub.type_name,
            v.subscribed sub id,
          ));
    occupied = λ id. ground (
      arith,
      lookup-insert reader_id id (with_subscriber session_id reader) r.readers,
      v.occupied id,
    );
    no_repeats = λ id. ground (
      arith,
      lookup-insert reader_id id (with_subscriber session_id reader) r.readers,
      is_set-set_insert session_id reader.subscribers,
      v.no_repeats id,
      present,
    );
    ids = λ id. ground (
      arith,
      lookup-insert reader_id id (with_subscriber session_id reader) r.readers,
      v.ids id,
      present,
    );
    one_entry = is_map-insert reader_id (with_subscriber session_id reader) r.readers v.one_entry;
  }

  added-IsReaders :
      (topic : Topic) (key : ReaderKey) (session_id : ℕ) (reader : DdsReader)
      → lookup reader.reader_id r.readers ≡ none
      → reader.topic ≡ topic
      → reader.subscribers ≡ []
      → key.topic_name ≡ topic.topic_name
      → key.type_name ≡ topic.type_name
      → IsReaders (added topic key session_id r reader)
  unfolding added insert set_insert contains is_set subscription_beq
  added-IsReaders topic key session_id reader fresh is none_yet same_name same_type =
      let new : (id : ℕ)
          → lookup id (added topic key session_id r reader).readers ≡ (
              if reader.reader_id == id
              then some (with_subscriber session_id reader)
              else lookup id r.readers) =
        λ id. lookup-insert reader.reader_id id (with_subscriber session_id reader) r.readers in
      let name_is : reader.topic.topic_name ≡ key.topic_name =
        ap (λ t. t.topic_name) is ∙ sym same_name in
      let type_is : reader.topic.type_name ≡ key.type_name =
        ap (λ t. t.type_name) is ∙ sym same_type in
      record {
        shared = (
          rw (new reader.reader_id) (
              ground (
                arith,
                list_beq_iff reader.topic.topic_name key.topic_name,
                list_beq_iff reader.topic.type_name key.type_name,
              )),
          All-without _ key r.key_to_reader
              (All-step _ _ (λ k id p. rw (new id) (ground arith)) r.key_to_reader v.shared),
        );
        subscribed = λ sub id e. rw (new id) (
            ground (
              arith,
              lookup-insert (subscription session_id topic) sub reader.reader_id
                  r.session_subscriptions,
              list_beq_iff topic.topic_name sub.topic_name,
              list_beq_iff topic.type_name sub.type_name,
              list_beq_iff reader.topic.topic_name sub.topic_name,
              list_beq_iff reader.topic.type_name sub.type_name,
              v.subscribed sub id,
            ));
        occupied = λ id. rw (new id) (ground (arith, v.occupied id));
        no_repeats = λ id.
            rw (new id)
              (ground (arith, is_set-set_insert session_id reader.subscribers, v.no_repeats id));
        ids = λ id. rw (new id) (ground (arith, v.ids id));
        one_entry =
            is_map-insert reader.reader_id (with_subscriber session_id reader) r.readers
              v.one_entry;
      }

  module _ ⦃b : Buf⦄ (d : Dds) (participant : ℤ) (topic : Topic) (qos : Option (List QsetCall))
      (qos_set : QosSet) (session_id counter : ℕ) (w : d.World)
      (fresh : lookup counter r.readers ≡ none) where
    key_of_topic : ReaderKey
    unfolding new_reader_key
    key_of_topic = new_reader_key topic.topic_name topic.type_name qos_set

    new-IsReaders :
        IsReaders
          (with_new_reader d topic key_of_topic session_id r
            (new_reader d participant topic qos (normalize qos_set) counter w)).1
    unfolding new_reader with_new_reader key_of_topic created_reader new_reader_key
    new-IsReaders =
        let handle = (d.dds_create_reader w participant topic.handle qos).0 in
        elim (Bool-cases (is_negative handle)) [
          | inl failed_to ↦ rw failed_to v
          | inr made ↦ rw made (
              added-IsReaders topic key_of_topic session_id
                (record {
                  reader_id = counter;
                  handle = handle;
                  topic = topic;
                  qos_normalized = normalize qos_set;
                  subscribers = [];
                })
                fresh refl refl refl refl)
        ]

    -- `subscribe` keeps the maps of the reader registry in agreement, whether it shares a reader,
    -- creates one or fails, if the next reader id is not in use.
    pub subscribe-IsReaders :
        IsReaders (subscribe d participant topic qos qos_set session_id r counter w).1
    unfolding subscribe shared_or_new key_of_topic new_reader_key
    subscribe-IsReaders = elim (Option-cases (lookup key_of_topic r.key_to_reader)) [
      | inl unknown ↦ rw unknown new-IsReaders
      | inr (id, known) ↦
          let live = All-lookup _ key_of_topic r.key_to_reader v.shared known in
          elim (Option-cases (lookup id r.readers)) [
            | inl gone ↦ absurd (ground (arith, gone, live))
            | inr (reader, present) ↦
                rw (known, present)
                  (joined-IsReaders topic session_id id reader present
                    (ground
                      (arith, live, present, list_beq_iff reader.topic.topic_name topic.topic_name))
                    (ground
                      (arith, live, present, list_beq_iff reader.topic.type_name topic.type_name)))
          ]
    ]
