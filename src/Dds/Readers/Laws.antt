-- ===== src/Dds/Readers/Laws.antt =====
-- What a client of `ReaderRegistry` can rely on when it subscribes.
use cyclone_dds_ws_bridge.Base.{
  List, Option, Option-cases, Result, ap, arith, err, inl, inr, list_eq, nat_eq, none, ok, pair_eq,
  refl, some, true, ℕ, ◌∙◌, ◌≡◌,
}
use cyclone_dds_ws_bridge.Base.Assoc.{lookup, lookup-insert}
use cyclone_dds_ws_bridge.Base.Buf.{Buf}
use cyclone_dds_ws_bridge.Base.Int.{ℤ}
use cyclone_dds_ws_bridge.Base.Sets.{contains, contains-set_insert}
use cyclone_dds_ws_bridge.Dds.Api.{Dds}
use cyclone_dds_ws_bridge.Dds.Errors.{DdsError}
use cyclone_dds_ws_bridge.Dds.Participant.{Topic}
use cyclone_dds_ws_bridge.Dds.QosHandle.{QsetCall}
use cyclone_dds_ws_bridge.Dds.Reader.{DdsReader, new_reader}
use cyclone_dds_ws_bridge.Dds.Readers.{
  ReaderKey, ReaderRegistry, added, found_reader, joined, new_reader_key, reader_key_beq_iff,
  reader_key_eq, shared_or_new, subscribe, subscription_eq, with_new_reader, with_subscriber,
}
use cyclone_dds_ws_bridge.Qos.Normalize.{policy_eq}
use cyclone_dds_ws_bridge.Qos.Policy.{QosSet, normalize}

found_reader-eq-some :
    (key : ReaderKey) (r : ReaderRegistry) (id : ℕ) (reader : DdsReader)
    → found_reader r.readers (lookup key r.key_to_reader) ≡ some (id, reader)
    → lookup key r.key_to_reader ≡ some id
found_reader-eq-some key r id reader e = elim (Option-cases (lookup key r.key_to_reader)) [
  | inl unknown ↦ absurd (ground (arith, unknown))
  | inr (i, known) ↦ elim (Option-cases (lookup i r.readers)) [
    | inl gone ↦ absurd (ground (arith, known, gone))
    | inr (x, present) ↦ ground (arith, known, present)
  ]
]

pub found_reader-present :
    (key : ReaderKey) (r : ReaderRegistry) (id : ℕ) (reader : DdsReader)
    → found_reader r.readers (lookup key r.key_to_reader) ≡ some (id, reader)
    → lookup id r.readers ≡ some reader
found_reader-present key r id reader e = elim (Option-cases (lookup key r.key_to_reader)) [
  | inl unknown ↦ absurd (ground (arith, unknown))
  | inr (i, known) ↦ elim (Option-cases (lookup i r.readers)) [
    | inl gone ↦ absurd (ground (arith, known, gone))
    | inr (x, present) ↦ ground (arith, known, present)
  ]
]

module _ ⦃b : Buf⦄ (d : Dds) where
  -- A reader is registered under the key, and the session is one of its subscribers.
  abbrev Serving : ReaderKey → ℕ → ℕ → ReaderRegistry → Type 0
  Serving key session_id id r =
      (reader : DdsReader) × (lookup key r.key_to_reader ≡ some id)
      × (lookup id r.readers ≡ some reader)
      × (contains reader.subscribers session_id ≡ true)

  with_new_reader-Serving :
      (topic : Topic) (key : ReaderKey) (session_id : ℕ) (r : ReaderRegistry)
      (made : Result DdsError DdsReader × ℕ × d.World) {id : ℕ}
      → (with_new_reader d topic key session_id r made).0 ≡ ok id
      → Serving key session_id id (with_new_reader d topic key session_id r made).1
  unfolding with_new_reader added
  with_new_reader-Serving topic key session_id r (err e, counter, w) h = absurd (ground arith)
  with_new_reader-Serving topic key session_id r (ok reader, counter, w) {id} h = (
    with_subscriber session_id reader,
    ground
        (arith, lookup-insert key key reader.reader_id r.key_to_reader, reader_key_beq_iff key key),
    ground (arith, lookup-insert reader.reader_id id (with_subscriber session_id reader) r.readers),
    ground (arith, contains-set_insert session_id session_id reader.subscribers),
  )

  module _ (participant : ℤ) (topic : Topic) (qos : Option (List QsetCall)) (q : QosSet)
      (session_id : ℕ) (r : ReaderRegistry) (counter : ℕ) (w : d.World) where
    key_of_topic : ReaderKey
    key_of_topic = new_reader_key topic.topic_name topic.type_name q

    shared_or_new-Serving :
        (found : Option (ℕ × DdsReader))
        → found_reader r.readers (lookup key_of_topic r.key_to_reader) ≡ found
        → {id : ℕ}
        → (shared_or_new d participant topic qos q session_id r counter w found).0 ≡ ok id
        → Serving key_of_topic session_id id
            (shared_or_new d participant topic qos q session_id r counter w found).1
    unfolding shared_or_new joined key_of_topic
    shared_or_new-Serving none e h =
        with_new_reader-Serving topic key_of_topic session_id r
          (new_reader d participant topic qos (normalize q) counter w) h
    shared_or_new-Serving (some (reader_id, reader)) e {id} h =
        let same : reader_id ≡ id = ground arith in
        (
          with_subscriber session_id reader,
          found_reader-eq-some key_of_topic r reader_id reader e ∙ ap (λ x. some x) same,
          ground (
            arith,
            same,
            lookup-insert reader_id id (with_subscriber session_id reader) r.readers,
          ),
          ground (arith, contains-set_insert session_id session_id reader.subscribers),
        )

    subscribe-Serving :
        {id : ℕ}
        → (subscribe d participant topic qos q session_id r counter w).0 ≡ ok id
        → Serving key_of_topic session_id id
            (subscribe d participant topic qos q session_id r counter w).1
    unfolding subscribe key_of_topic
    subscribe-Serving h = shared_or_new-Serving _ refl h

    -- Once a session has subscribed, every session that next subscribes to the same topic with a
    -- QoS of the same normal form gets the same reader, and nothing is asked of the C library.
    pub subscribe-subscribe :
        (session' : ℕ) (q' : QosSet) (qos' : Option (List QsetCall)) (id : ℕ)
        → (subscribe d participant topic qos q session_id r counter w).0 ≡ ok id
        → normalize q' ≡ normalize q
        → (let (result, r', counter', w') =
              subscribe d participant topic qos q session_id r counter w in
            let (result', r'', counter'', w'') =
              subscribe d participant topic qos' q' session' r' counter' w' in
            (result' ≡ ok id) × (counter'' ≡ counter') × (w'' ≡ w'))
    unfolding subscribe shared_or_new key_of_topic new_reader_key
    subscribe-subscribe session' q' qos' id h same =
        let (reader, known, present, listed) = subscribe-Serving h in
        rw (same, known, present) (refl, refl, refl)
