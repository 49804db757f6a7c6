-- ===== src/Dds/Readers/Invariant/Fresh.antt =====
-- The ids that the operations of `ReaderRegistry` of src/dds/reader.rs leave unused.
-- No id from `counter` on is in use.
use cyclone_dds_ws_bridge.Base.{
  Bool-cases, Bytes, List, Option, Option-cases, [], arith, inl, inr, list_eq, nat_eq, none,
  pair_eq, refl, some, suc, ℕ, ◌+◌, ◌<◌, ◌==◌, ◌^◌, ◌∷◌, ◌≡◌, ◌≤◌,
}
use cyclone_dds_ws_bridge.Base.Assoc.{
  Assoc, insert, lookup, lookup-insert, lookup-without, lookup-without_all,
}
use cyclone_dds_ws_bridge.Base.Buf.{Buf}
use cyclone_dds_ws_bridge.Base.Int.{is_negative, ℤ}
use cyclone_dds_ws_bridge.Base.Sets.{set_remove}
use cyclone_dds_ws_bridge.Dds.Api.{Dds}
use cyclone_dds_ws_bridge.Dds.Participant.{Topic}
use cyclone_dds_ws_bridge.Dds.QosHandle.{QsetCall}
use cyclone_dds_ws_bridge.Dds.Reader.{DdsReader, created_reader, new_reader}
use cyclone_dds_ws_bridge.Dds.Readers.{
  ReaderRegistry, Subscription, added, found_reader, joined, leave_found, new_reader_key,
  reader_key_eq, removed_reader, shared_or_new, subscribe, subscription_eq, unsubscribe,
  unsubscribe_key, with_new_reader, with_subscriber, without_subscriber,
}
use cyclone_dds_ws_bridge.Dds.Readers.Cleanup.{
  affected_readers, leave_reader, leave_readers, remove_session_readers, sub_keys,
}
use cyclone_dds_ws_bridge.Dds.Readers.Laws.{found_reader-present}
use cyclone_dds_ws_bridge.Qos.Normalize.{policy_eq}
use cyclone_dds_ws_bridge.Qos.Policy.{QosSet}

abbrev Unused : ReaderRegistry → ℕ → Type 0
Unused r counter = (id : ℕ) → counter ≤ id → lookup id r.readers ≡ none

module _ ⦃b : Buf⦄ (d : Dds) (participant : ℤ) (topic : Topic) (qos : Option (List QsetCall))
    (qos_set : QosSet) (session_id : ℕ) (r : ReaderRegistry) (counter : ℕ) (w : d.World) (room : ℕ)
    (h : counter + suc room < 2 ^ 64) (fresh : Unused r counter) where
  shared_or_new-fresh :
      (found : Option (ℕ × DdsReader))
      → found_reader r.readers
          (lookup (new_reader_key topic.topic_name topic.type_name qos_set) r.key_to_reader)
        ≡ found
      → (let (result, r', counter', w') =
            shared_or_new d participant topic qos qos_set session_id r counter w found in
          (counter' + room < 2 ^ 64) × Unused r' counter')
  unfolding shared_or_new new_reader created_reader with_new_reader joined added
  shared_or_new-fresh (some (id, reader)) e =
      let present =
        found_reader-present (new_reader_key topic.topic_name topic.type_name qos_set) r id reader
          e in
      (
        omega arith,
        λ j le.
            rw (lookup-insert id j (with_subscriber session_id reader) r.readers)
              (ground (arith, fresh j le, present)),
      )
  shared_or_new-fresh none e =
      elim (Bool-cases (is_negative (d.dds_create_reader w participant topic.handle qos).0)) [
        | inl refused ↦ rw refused (omega arith, fresh)
        | inr made ↦ rw made (
          omega arith,
          λ j le. rw (lookup-insert counter j _ r.readers) (ground (arith, fresh j (omega arith))),
        )
      ]

  -- `subscribe` leaves room for one id less, and no id from its counter on in use.
  pub subscribe-fresh :
      let (result, r', counter', w') =
        subscribe d participant topic qos qos_set session_id r counter w in
      (counter' + room < 2 ^ 64) × Unused r' counter'
  unfolding subscribe
  subscribe-fresh = shared_or_new-fresh _ refl

pub unsubscribe-fresh :
    (r : ReaderRegistry) (topic_name type_name : Bytes) (session_id id : ℕ)
    → lookup id r.readers ≡ none
    → lookup id (unsubscribe topic_name type_name session_id r).1.readers ≡ none
unfolding unsubscribe unsubscribe_key leave_found removed_reader
unsubscribe-fresh r topic_name type_name session_id id fresh =
    let key : Subscription = record {
      session_id = session_id;
      topic_name = topic_name;
      type_name = type_name;
    } in
    elim (Option-cases (lookup key r.session_subscriptions)) [
      | inl unknown ↦ rw unknown fresh
      | inr (rid, found) ↦ elim (Option-cases (lookup rid r.readers)) [
        | inl gone ↦ rw (found, gone) fresh
        | inr (reader, present) ↦
            let left : lookup id (insert rid (without_subscriber session_id reader) r.readers)
                ≡ none =
              rw (lookup-insert rid id (without_subscriber session_id reader) r.readers)
                (ground (arith, present, fresh)) in
            elim (Bool-cases (set_remove session_id reader.subscribers == [])) [
              | inl last ↦
                  rw
                    (
                      found,
                      present,
                      last,
                      lookup-without rid id
                          (insert rid (without_subscriber session_id reader) r.readers),
                    )
                    (ground (arith, left))
              | inr others ↦ rw (found, present, others) left
            ]
      ]
    ]

leave_reader-fresh :
    (session_id rid : ℕ) (found : Option DdsReader) (m : Assoc ℕ DdsReader) (gone : List ℕ) (id : ℕ)
    → lookup rid m ≡ found
    → lookup id m ≡ none
    → lookup id (leave_reader session_id rid found m gone).0 ≡ none
unfolding leave_reader
leave_reader-fresh session_id rid none m gone id is fresh = fresh
leave_reader-fresh session_id rid (some reader) m gone id is fresh =
    rw (lookup-insert rid id (without_subscriber session_id reader) m) (ground (arith, is, fresh))

leave_readers-fresh :
    (session_id : ℕ) (ids : List ℕ) (m : Assoc ℕ DdsReader) (gone : List ℕ) (id : ℕ)
    → lookup id m ≡ none
    → lookup id (leave_readers session_id ids m gone).0 ≡ none
unfolding leave_readers
leave_readers-fresh session_id [] m gone id fresh = fresh
leave_readers-fresh session_id (rid ∷ ids) m gone id fresh =
    leave_readers-fresh session_id ids _ _ id
      (leave_reader-fresh session_id rid (lookup rid m) m gone id refl fresh)

pub remove_session_readers-fresh :
    (r : ReaderRegistry) (session_id id : ℕ)
    → lookup id r.readers ≡ none
    → lookup id (remove_session_readers session_id r).0.readers ≡ none
unfolding remove_session_readers
remove_session_readers-fresh r session_id id fresh =
    let ids =
      (affected_readers (sub_keys session_id r.session_subscriptions) r.session_subscriptions
        []).1 in
    let left = leave_readers-fresh session_id ids r.readers [] id fresh in
    rw (lookup-without_all (leave_readers session_id ids r.readers []).1 id _)
      (ground (arith, left))
