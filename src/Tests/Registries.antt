-- ===== src/Tests/Registries.antt =====
-- The claims about topics, writers and readers at concrete inputs.
use cyclone_dds_ws_bridge.Base.{
  List, Result, [], arith, err, false, filter, if◌then◌else◌, list_eq, nat_eq, none, ok, pair_eq,
  refl, some, true, ℕ, ◌==◌, ◌↔◌, ◌∷◌, ◌≡◌,
}
use cyclone_dds_ws_bridge.Base.Assoc.{insert, lookup, without}
use cyclone_dds_ws_bridge.Base.Buf.{slice_buf}
use cyclone_dds_ws_bridge.Base.Int.{pos}
use cyclone_dds_ws_bridge.Base.Outcomes.{done, panicked}
use cyclone_dds_ws_bridge.Base.Sets.{contains, set_insert}
use cyclone_dds_ws_bridge.Base.Text.{codes}
use cyclone_dds_ws_bridge.Base.Words.{to_le_bytes}
use cyclone_dds_ws_bridge.Dds.Api.{Taken}
use cyclone_dds_ws_bridge.Dds.Errors.{DdsError}
use cyclone_dds_ws_bridge.Dds.Participant.{DdsParticipant, get_or_create_topic}
use cyclone_dds_ws_bridge.Dds.Participant.Laws.{
  get_or_create_topic-get_or_create_topic, get_or_create_topic_panics_iff,
}
use cyclone_dds_ws_bridge.Dds.QosHandle.Laws.{qset_call_inj}
use cyclone_dds_ws_bridge.Dds.Reader.{DdsReader, created_reader, new_reader, take_samples}
use cyclone_dds_ws_bridge.Dds.Reader.Laws.{Reports, Takes, take_samples_lem}
use cyclone_dds_ws_bridge.Dds.Readers.{
  ReaderRegistry, Subscription, added, empty_readers, new_reader_key, reader_key_beq, reader_key_eq,
  shared_or_new, subscribe, subscription_eq, with_new_reader,
}
use cyclone_dds_ws_bridge.Dds.Readers.Cleanup.{remove_session_readers}
use cyclone_dds_ws_bridge.Dds.Readers.Invariant.{IsReaders, empty-IsReaders, is_subscribed}
use cyclone_dds_ws_bridge.Dds.Readers.Invariant.Released.{is_subscribed-remove_session_readers_iff}
use cyclone_dds_ws_bridge.Dds.Readers.Invariant.Subscribe.{subscribe-IsReaders}
use cyclone_dds_ws_bridge.Dds.Readers.Laws.{subscribe-subscribe}
use cyclone_dds_ws_bridge.Dds.Sertype.{create_opaque_sertype, has_nul}
use cyclone_dds_ws_bridge.Dds.Writer.{
  WriterRegistry, delete_writer, empty_writers, find_by_topic, get_writer, register,
}
use cyclone_dds_ws_bridge.Dds.Writer.Invariant.{IsWriters, empty-IsWriters, register-IsWriters}
use cyclone_dds_ws_bridge.Dds.Writer.Laws.{delete_writer_lem, find_by_topic_sound}
use cyclone_dds_ws_bridge.Protocol.Reader.{write_string}
use cyclone_dds_ws_bridge.Qos.Codec.{
  serialize_fields, serialize_policies, serialize_qos, write_strings,
}
use cyclone_dds_ws_bridge.Qos.Normalize.{normalized_eq, policy_beq, policy_eq}
use cyclone_dds_ws_bridge.Qos.Policy.{is_default, normalize, partition, policy_id}
use cyclone_dds_ws_bridge.Tests.Values.{
  chatty, color_key, obliging, reliable, shape, square, square-IsText, square_topic, square_writer,
}

abbrev one_writer : WriterRegistry
one_writer = (register square_writer 5 empty_writers).0

one_writer-IsWriters : IsWriters one_writer
unfolding lookup
one_writer-IsWriters = register-IsWriters empty_writers empty-IsWriters square_writer 5 refl

owned : get_writer 1 5 one_writer ≡ ok square_writer
unfolding get_writer register lookup insert without
owned = refl

delete_writer_lem_example :
    (next : WriterRegistry) × (delete_writer 1 5 one_writer ≡ ok (next, pos 9 ∷ []))
    × ((j s : ℕ)
        → get_writer j s next
          ≡ (if 1 == j then err (DdsError.writer_not_found j) else get_writer j s one_writer))
delete_writer_lem_example = delete_writer_lem 1 5 square_writer one_writer owned

found : find_by_topic 5 square shape reliable one_writer ≡ some square_writer
unfolding find_by_topic register insert without lookup normalized_eq codes normalize filter
    is_default policy_beq
found = refl

find_by_topic_sound_example :
    (get_writer 1 5 one_writer ≡ ok square_writer)
    × (square ≡ square)
    × (shape ≡ shape)
    × (normalized_eq reliable reliable ≡ true)
find_by_topic_sound_example =
    find_by_topic_sound 5 square shape reliable one_writer square_writer one_writer-IsWriters found

-- Session 5 subscribes; the C library gives the reader the handle 10.
abbrev subscribed_once : Result DdsError ℕ × ReaderRegistry × ℕ × ℕ
subscribed_once =
    subscribe obliging ⦃b = slice_buf⦄ (pos 0) square_topic none reliable 5 empty_readers 1 10

abbrev readers : ReaderRegistry
readers = subscribed_once.1

readers-IsReaders : IsReaders readers
unfolding lookup
readers-IsReaders =
    subscribe-IsReaders empty_readers empty-IsReaders ⦃b = slice_buf⦄ obliging (pos 0) square_topic
      none reliable 5 1 10 refl

abbrev square_subscription : Subscription
square_subscription = record { session_id = 5; topic_name = square; type_name = shape }

made : subscribed_once.0 ≡ ok 1
unfolding subscribe shared_or_new with_new_reader new_reader created_reader lookup
made = refl

subscribe-subscribe_example :
    (let (result, r', counter', w') = subscribed_once in
      let (result', r'', counter'', w'') =
        subscribe obliging ⦃b = slice_buf⦄ (pos 0) square_topic none reliable 6 r' counter' w' in
      (result' ≡ ok 1) × (counter'' ≡ counter') × (w'' ≡ w'))
subscribe-subscribe_example =
    subscribe-subscribe ⦃b = slice_buf⦄ obliging (pos 0) square_topic none reliable 5 empty_readers
      1 10 6 reliable none 1 made refl

abbrev participant : DdsParticipant
participant = record { handle = pos 3; topics = [] }

topic_made :
    (get_or_create_topic obliging participant square shape true color_key 10).0
    ≡ done (record square_topic { handle = pos 10 })
unfolding get_or_create_topic has_nul create_opaque_sertype lookup codes contains
topic_made = refl

get_or_create_topic-get_or_create_topic_example :
    (let (first, p', w') =
        get_or_create_topic obliging participant square shape true color_key 10 in
      get_or_create_topic obliging p' square shape false color_key w'
      ≡ (done (record square_topic { handle = pos 10 }), p', w'))
get_or_create_topic-get_or_create_topic_example =
    get_or_create_topic-get_or_create_topic obliging participant square shape true false color_key
      color_key 10 (record square_topic { handle = pos 10 }) topic_made

get_or_create_topic_panics_iff_example :
    ((get_or_create_topic obliging participant square (0 ∷ []) true color_key 10).0 ≡ panicked) ↔ (
      (lookup (square, 0 ∷ []) participant.topics ≡ none)
      × (has_nul square ≡ false)
      × (has_nul (0 ∷ []) ≡ true))
get_or_create_topic_panics_iff_example =
    get_or_create_topic_panics_iff obliging participant square (0 ∷ []) true color_key 10

-- Session 5 subscribes once more to the topic, with another QoS.
abbrev subscribed_twice : ReaderRegistry
subscribed_twice =
    (subscribe obliging ⦃b = slice_buf⦄ (pos 0) square_topic none (record { policies = [] }) 5
      readers 2 11).1

subscribed_twice-IsReaders : IsReaders subscribed_twice
unfolding subscribe shared_or_new with_new_reader new_reader created_reader lookup added insert
    without
subscribed_twice-IsReaders =
    subscribe-IsReaders readers readers-IsReaders ⦃b = slice_buf⦄ obliging (pos 0) square_topic none
      (record { policies = [] }) 5 2 11 refl

first_reader : is_subscribed square_subscription (lookup 1 subscribed_twice.readers) ≡ true
unfolding subscribe shared_or_new with_new_reader new_reader created_reader lookup added insert
    without new_reader_key serialize_qos serialize_policies normalize filter is_default
    serialize_fields write_strings write_string reader_key_beq contains set_insert codes to_le_bytes
    policy_id
first_reader = refl

is_subscribed-remove_session_readers_iff_example :
    (is_subscribed square_subscription
        (lookup 1 (remove_session_readers 5 subscribed_twice).0.readers)
      ≡ false)
    ↔ ((other : Subscription) × (other.session_id ≡ 5)
        × (lookup other subscribed_twice.session_subscriptions ≡ some 1))
is_subscribed-remove_session_readers_iff_example =
    is_subscribed-remove_session_readers_iff subscribed_twice subscribed_twice-IsReaders
      square_subscription 1 first_reader

qset_call_inj_example : partition (square ∷ []) ≡ partition (square ∷ [])
unfolding contains codes
qset_call_inj_example =
    qset_call_inj (partition (square ∷ [])) (partition (square ∷ []))
      (omega arith, (square-IsText, tt)) (omega arith, (square-IsText, tt)) (refl, tt) (refl, tt)
      refl

-- A reader of a library that always has one more sample.
abbrev square_reader : DdsReader
square_reader = record {
  reader_id = 1;
  handle = pos 4;
  topic = square_topic;
  qos_normalized = reliable;
  subscribers = 5 ∷ [];
}

take_samples_lem_example :
    let (samples, w) = take_samples chatty 3 square_reader 0 in
    (ts : List Taken) × Takes chatty (pos 4) 3 ts 0 w × Reports square ts samples
take_samples_lem_example = take_samples_lem chatty 3 square_reader 0
