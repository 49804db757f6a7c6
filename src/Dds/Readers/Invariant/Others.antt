-- ===== src/Dds/Readers/Invariant/Others.antt =====
-- What the operations of `ReaderRegistry` of src/dds/reader.rs leave to other sessions.
use cyclone_dds_ws_bridge.Base.{
  Bool-cases, Bytes, List, Option, Option-cases, [], arith, false, inl, inr, list_eq, nat_beq,
  nat_eq, none, pair_eq, refl, some, sym, true, ℕ, ◌==◌, ◌∙◌, ◌≡◌, ◌≢◌,
}
use cyclone_dds_ws_bridge.Base.Assoc.{lookup, lookup-insert, lookup-without}
use cyclone_dds_ws_bridge.Base.Buf.{Buf}
use cyclone_dds_ws_bridge.Base.Int.{is_negative, ℤ}
use cyclone_dds_ws_bridge.Base.Sets.{contains, contains-set_insert, contains-set_remove, set_remove}
use cyclone_dds_ws_bridge.Dds.Api.{Dds}
use cyclone_dds_ws_bridge.Dds.Participant.{Topic}
use cyclone_dds_ws_bridge.Dds.QosHandle.{QsetCall}
use cyclone_dds_ws_bridge.Dds.Reader.{DdsReader, created_reader, new_reader}
use cyclone_dds_ws_bridge.Dds.Readers.{
  ReaderKey, ReaderRegistry, Subscription, added, found_reader, joined, leave_found, new_reader_key,
  reader_key_eq, removed_reader, shared_or_new, subscribe, subscription, subscription_beq,
  subscription_eq, unsubscribe, unsubscribe_key, with_new_reader, with_subscriber,
  without_subscriber,
}
use cyclone_dds_ws_bridge.Dds.Readers.Cleanup.{remove_session_readers}
use cyclone_dds_ws_bridge.Dds.Readers.Invariant.{
  IsReaders, is_subscribed, unsubscribed, vacant-is_subscribed,
}
use cyclone_dds_ws_bridge.Dds.Readers.Invariant.Leave.{
  is_subscribed-remove_session_readers, lookup-affected_readers,
}
use cyclone_dds_ws_bridge.Dds.Readers.Laws.{found_reader-present}
use cyclone_dds_ws_bridge.Qos.Normalize.{policy_eq}
use cyclone_dds_ws_bridge.Qos.Policy.{QosSet}

-- The subscriptions of all other sessions are recorded as before, and every reader serves them as
-- before.
pub record SameOthers (session_id : ℕ) (r r' : ReaderRegistry) : Type 0 where
  pub recorded :
      (sub : Subscription)
      → sub.session_id ≢ session_id
      → lookup sub r'.session_subscriptions ≡ lookup sub r.session_subscriptions
  pub served :
      (sub : Subscription) (id : ℕ)
      → sub.session_id ≢ session_id
      → is_subscribed sub (lookup id r'.readers) ≡ is_subscribed sub (lookup id r.readers)

pub SameOthers-refl : (session_id : ℕ) (r : ReaderRegistry) → SameOthers session_id r r
SameOthers-refl session_id r = record { recorded = λ sub n. refl; served = λ sub id n. refl }

pub SameOthers-trans :
    {session_id : ℕ} {r s t : ReaderRegistry}
    → SameOthers session_id r s
    → SameOthers session_id s t
    → SameOthers session_id r t
SameOthers-trans a b = record {
  recorded = λ sub n. b.recorded sub n ∙ a.recorded sub n;
  served = λ sub id n. b.served sub id n ∙ a.served sub id n;
}

module _ (r : ReaderRegistry) (topic : Topic) (session_id : ℕ) where
  joined-SameOthers :
      (id : ℕ) (reader : DdsReader)
      → lookup id r.readers ≡ some reader
      → SameOthers session_id r (joined topic session_id r (id, reader))
  unfolding joined subscription_beq
  joined-SameOthers id reader present = record {
    recorded = λ sub n.
        ground
          (arith, lookup-insert (subscription session_id topic) sub id r.session_subscriptions, n);
    served = λ sub j n. rw (lookup-insert id j (with_subscriber session_id reader) r.readers) (
        ground
          (arith, contains-set_insert session_id sub.session_id reader.subscribers, present, n));
  }

  added-SameOthers :
      (key : ReaderKey) (reader : DdsReader)
      → lookup reader.reader_id r.readers ≡ none
      → reader.subscribers ≡ []
      → SameOthers session_id r (added topic key session_id r reader)
  unfolding added subscription_beq contains
  added-SameOthers key reader fresh none_yet = record {
    recorded = λ sub n. ground (
      arith,
      lookup-insert (subscription session_id topic) sub reader.reader_id r.session_subscriptions,
      n,
    );
    served = λ sub j n.
        rw (lookup-insert reader.reader_id j (with_subscriber session_id reader) r.readers) (
          ground (
            arith,
            contains-set_insert session_id sub.session_id reader.subscribers,
            fresh,
            none_yet,
            n,
          ));
  }

module _ (r : ReaderRegistry) (key : Subscription) (id : ℕ) (reader : DdsReader)
    (present : lookup id r.readers ≡ some reader) where
  unsubscribed-SameOthers : SameOthers key.session_id r (unsubscribed r key id reader)
  unfolding subscription_beq
  unsubscribed-SameOthers = record {
    recorded = λ sub n. ground (arith, lookup-without key sub r.session_subscriptions, n);
    served = λ sub j n.
        rw (lookup-insert id j (without_subscriber key.session_id reader) r.readers) (
          ground (
            arith,
            contains-set_remove key.session_id sub.session_id reader.subscribers,
            present,
            n,
          ));
  }

  removed-SameOthers :
      (set_remove key.session_id reader.subscribers == []) ≡ true
      → SameOthers key.session_id r (removed_reader id (unsubscribed r key id reader))
  unfolding removed_reader
  removed-SameOthers last =
      let o = unsubscribed-SameOthers in
      record {
        recorded = o.recorded;
        served = λ sub j n.
            rw (lookup-without id j (unsubscribed r key id reader).readers)
              (elim (Bool-cases (nat_beq id j)) [
                | inl same ↦
                    let vacant : is_subscribed sub (lookup j (unsubscribed r key id reader).readers)
                        ≡ false =
                      vacant-is_subscribed sub (lookup j (unsubscribed r key id reader).readers) (
                        rw
                          (
                            lookup-insert id j (without_subscriber key.session_id reader) r.readers,
                            same,
                          )
                          last) in
                    rw same (sym vacant ∙ o.served sub j n)
                | inr other ↦ rw other (o.served sub j n)
              ]);
      }

pub unsubscribe-SameOthers :
    (r : ReaderRegistry) (topic_name type_name : Bytes) (session_id : ℕ)
    → IsReaders r
    → SameOthers session_id r (unsubscribe topic_name type_name session_id r).1
unfolding unsubscribe unsubscribe_key leave_found
unsubscribe-SameOthers r topic_name type_name session_id v =
    let key : Subscription = record {
      session_id = session_id;
      topic_name = topic_name;
      type_name = type_name;
    } in
    elim (Option-cases (lookup key r.session_subscriptions)) [
      | inl unknown ↦ rw unknown (SameOthers-refl session_id r)
      | inr (id, found) ↦ elim (Option-cases (lookup id r.readers)) [
        | inl gone ↦ absurd (ground (arith, gone, v.subscribed key id found))
        | inr (reader, present) ↦
            elim (Bool-cases (set_remove session_id reader.subscribers == [])) [
              | inl last ↦
                  rw (found, present, last) (removed-SameOthers r key id reader present last)
              | inr others ↦
                  rw (found, present, others) (unsubscribed-SameOthers r key id reader present)
            ]
      ]
    ]

pub remove_session_readers-SameOthers :
    (r : ReaderRegistry) (session_id : ℕ)
    → IsReaders r
    → SameOthers session_id r (remove_session_readers session_id r).0
unfolding remove_session_readers
remove_session_readers-SameOthers r session_id v = record {
  recorded =
      λ sub n. ground (arith, lookup-affected_readers session_id sub r.session_subscriptions, n);
  served =
      λ sub id n. ground (arith, is_subscribed-remove_session_readers r v session_id sub id, n);
}

module _ ⦃b : Buf⦄ (d : Dds) (participant : ℤ) (topic : Topic) (qos : Option (List QsetCall))
    (qos_set : QosSet) (session_id : ℕ) (r : ReaderRegistry) (counter : ℕ) (w : d.World)
    (fresh : lookup counter r.readers ≡ none) where
  shared_or_new-SameOthers :
      (found : Option (ℕ × DdsReader))
      → found_reader r.readers
          (lookup (new_reader_key topic.topic_name topic.type_name qos_set) r.key_to_reader)
        ≡ found
      → SameOthers session_id r
          (shared_or_new d participant topic qos qos_set session_id r counter w found).1
  unfolding shared_or_new new_reader created_reader with_new_reader
  shared_or_new-SameOthers (some (id, reader)) e =
      joined-SameOthers r topic session_id id reader (
        found_reader-present (new_reader_key topic.topic_name topic.type_name qos_set) r id reader
          e)
  shared_or_new-SameOthers none e =
      elim (Bool-cases (is_negative (d.dds_create_reader w participant topic.handle qos).0)) [
        | inl refused ↦ rw refused (SameOthers-refl session_id r)
        | inr made ↦ rw made (
            added-SameOthers r topic session_id
              (new_reader_key topic.topic_name topic.type_name qos_set) _ fresh refl)
      ]

  pub subscribe-SameOthers :
      SameOthers session_id r (subscribe d participant topic qos qos_set session_id r counter w).1
  unfolding subscribe
  subscribe-SameOthers = shared_or_new-SameOthers _ refl
