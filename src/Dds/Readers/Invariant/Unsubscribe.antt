-- ===== src/Dds/Readers/Invariant/Unsubscribe.antt =====
-- The invariant under `unsubscribe` of src/dds/reader.rs.
use cyclone_dds_ws_bridge.Base.{
  Bool-cases, Bytes, Option-cases, [], arith, false, if◌then◌else◌, inl, inr, list_beq_iff, list_eq,
  nat_eq, pair_eq, some, true, ℕ, ◌==◌, ◌∷◌, ◌≡◌,
}
use cyclone_dds_ws_bridge.Base.Assoc.{
  is_map, is_map-insert, is_map-without, lookup, lookup-insert, lookup-without,
}
use cyclone_dds_ws_bridge.Base.Sets.{contains, contains-set_remove, is_set-set_remove, set_remove}
use cyclone_dds_ws_bridge.Dds.Reader.{DdsReader}
use cyclone_dds_ws_bridge.Dds.Readers.{
  ReaderRegistry, Subscription, leave_found, reader_key_eq, removed_reader, subscription_beq,
  subscription_eq, unsubscribe, unsubscribe_key, without_subscriber,
}
use cyclone_dds_ws_bridge.Dds.Readers.Invariant.{
  All-retained, All-step, IsReaders, has_repeats, is_subscribed, unsubscribed, vacant-is_subscribed,
}
use cyclone_dds_ws_bridge.Qos.Normalize.{policy_eq}

module _ (r : ReaderRegistry) (v : IsReaders r) (key : Subscription) (id : ℕ)
    (found : lookup key r.session_subscriptions ≡ some id) (reader : DdsReader)
    (present : lookup id r.readers ≡ some reader) where
  new :
      (j : ℕ)
      → lookup j (unsubscribed r key id reader).readers
        ≡ (if id == j then some (without_subscriber key.session_id reader) else lookup j r.readers)
  new j = lookup-insert id j (without_subscriber key.session_id reader) r.readers

  -- Another subscription of the session at the reader would have the same names.
  subscribed-unsubscribed :
      (sub : Subscription) (j : ℕ)
      → lookup sub (unsubscribed r key id reader).session_subscriptions ≡ some j
      → is_subscribed sub (lookup j (unsubscribed r key id reader).readers) ≡ true
  unfolding subscription_beq
  subscribed-unsubscribed sub j e = rw (new j) (
      ground (
        arith,
        lookup-without key sub r.session_subscriptions,
        contains-set_remove key.session_id sub.session_id reader.subscribers,
        list_beq_iff key.topic_name sub.topic_name,
        list_beq_iff key.type_name sub.type_name,
        list_beq_iff reader.topic.topic_name sub.topic_name,
        list_beq_iff reader.topic.type_name sub.type_name,
        list_beq_iff reader.topic.topic_name key.topic_name,
        list_beq_iff reader.topic.type_name key.type_name,
        present,
        v.subscribed key id found,
        v.subscribed sub j,
      ))

  still_no_repeats :
      (j : ℕ)
      → has_repeats
          (if id == j then some (without_subscriber key.session_id reader) else lookup j r.readers)
        ≡ false
  still_no_repeats j = ground (
    arith,
    present,
    v.no_repeats id,
    v.no_repeats j,
    is_set-set_remove key.session_id reader.subscribers,
  )

  still_one_entry : is_map (unsubscribed r key id reader).readers ≡ true
  still_one_entry =
      is_map-insert id (without_subscriber key.session_id reader) r.readers v.one_entry

  others-IsReaders :
      (set_remove key.session_id reader.subscribers == []) ≡ false
      → IsReaders (unsubscribed r key id reader)
  others-IsReaders others = record {
    shared = All-step _ _ (λ k j p. rw (new j) (ground (arith, present))) r.key_to_reader v.shared;
    subscribed = subscribed-unsubscribed;
    occupied = λ j. rw (new j) (ground (arith, v.occupied j));
    no_repeats = λ j. rw (new j) (still_no_repeats j);
    ids = λ j. rw (new j) (ground (arith, present, v.ids j));
    one_entry = still_one_entry;
  }

  last-IsReaders :
      (set_remove key.session_id reader.subscribers == []) ≡ true
      → IsReaders (removed_reader id (unsubscribed r key id reader))
  unfolding removed_reader contains
  last-IsReaders last = record {
    shared =
        All-retained _ _ (id ∷ [])
          (λ k j kept p.
            rw (lookup-without id j (unsubscribed r key id reader).readers, new j)
              (ground (arith, present)))
          r.key_to_reader v.shared;
    subscribed = λ sub j e.
        rw (lookup-without id j (unsubscribed r key id reader).readers)
          (elim (Bool-cases (id == j)) [
            | inl same ↦ absurd (
                ground (
                  arith,
                  subscribed-unsubscribed sub j e,
                  vacant-is_subscribed sub (lookup j (unsubscribed r key id reader).readers)
                      (rw (new j, same) last),
                ))
            | inr other ↦ rw other (subscribed-unsubscribed sub j e)
          ]);
    occupied = λ j.
        rw (lookup-without id j (unsubscribed r key id reader).readers, new j)
          (ground (arith, v.occupied j));
    no_repeats = λ j.
        rw (lookup-without id j (unsubscribed r key id reader).readers, new j)
          (ground (arith, still_no_repeats j));
    ids = λ j.
        rw (lookup-without id j (unsubscribed r key id reader).readers, new j)
          (ground (arith, present, v.ids j));
    one_entry = is_map-without id (unsubscribed r key id reader).readers still_one_entry;
  }

-- `unsubscribe` keeps the maps of the reader registry in agreement, and with the last subscriber
-- the reader and its key go.
pub unsubscribe-IsReaders :
    (r : ReaderRegistry) (topic_name type_name : Bytes) (session_id : ℕ)
    → IsReaders r
    → IsReaders (unsubscribe topic_name type_name session_id r).1
unfolding unsubscribe unsubscribe_key leave_found
unsubscribe-IsReaders r topic_name type_name session_id v =
    let key : Subscription = record {
      session_id = session_id;
      topic_name = topic_name;
      type_name = type_name;
    } in
    elim (Option-cases (lookup key r.session_subscriptions)) [
      | inl unknown ↦ rw unknown v
      | inr (id, found) ↦ elim (Option-cases (lookup id r.readers)) [
        | inl gone ↦ absurd (ground (arith, gone, v.subscribed key id found))
        | inr (reader, present) ↦
            elim (Bool-cases (set_remove session_id reader.subscribers == [])) [
              | inl last ↦
                  rw (found, present, last) (last-IsReaders r v key id found reader present last)
              | inr others ↦
                  rw (found, present, others)
                    (others-IsReaders r v key id found reader present others)
            ]
      ]
    ]
