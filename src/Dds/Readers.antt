-- ===== src/Dds/Readers.antt =====
-- `ReaderKey` and `ReaderRegistry` of src/dds/reader.rs. A method that drops readers, each of which
-- deletes its entity, returns the handles of those that it drops.
pub mod Cleanup
pub mod Invariant
pub mod Laws
use cyclone_dds_ws_bridge.Base.{
  Bool, Bytes, Eq, List, Option, Result, [], arith, err, false, if◌then◌else◌, list_beq_iff,
  list_eq, nat_eq, none, ok, pair_eq, some, true, ℕ, ◌&&◌, ◌==◌, ◌↔◌, ◌∷◌, ◌≡◌,
}
use cyclone_dds_ws_bridge.Base.Assoc.{Assoc, insert, lookup, without}
use cyclone_dds_ws_bridge.Base.Buf.{Buf}
use cyclone_dds_ws_bridge.Base.Int.{ℤ}
use cyclone_dds_ws_bridge.Base.Sets.{contains, set_insert, set_remove}
use cyclone_dds_ws_bridge.Dds.Api.{Dds, delete_all}
use cyclone_dds_ws_bridge.Dds.Errors.{DdsError}
use cyclone_dds_ws_bridge.Dds.Participant.{Topic}
use cyclone_dds_ws_bridge.Dds.QosHandle.{QsetCall}
use cyclone_dds_ws_bridge.Dds.Reader.{DdsReader, new_reader}
use cyclone_dds_ws_bridge.Qos.Codec.{serialize_qos}
use cyclone_dds_ws_bridge.Qos.Normalize.{policy_eq}
use cyclone_dds_ws_bridge.Qos.Policy.{QosSet, normalize}
use cyclone_dds_ws_bridge.Qos.RoundTrip.{qos_bytes}

pub record ReaderKey : Type 0 where
  pub topic_name : Bytes
  pub type_name : Bytes
  pub qos_bytes : Bytes

unfoldable pub reader_key_beq : ReaderKey → ReaderKey → Bool
reader_key_beq x y =
    x.topic_name == y.topic_name && x.type_name == y.type_name && x.qos_bytes == y.qos_bytes

pub reader_key_beq_iff : (x y : ReaderKey) → (reader_key_beq x y ≡ true) ↔ (x ≡ y)
unfolding reader_key_beq
reader_key_beq_iff x y = ground (
  arith,
  list_beq_iff x.topic_name y.topic_name,
  list_beq_iff x.type_name y.type_name,
  list_beq_iff x.qos_bytes y.qos_bytes,
)

instance abbrev pub reader_key_eq : Eq ReaderKey
reader_key_eq = record { beq = reader_key_beq; beq_iff = reader_key_beq_iff }

-- `ReaderKey::new`
unfoldable pub new_reader_key : ⦃b : Buf⦄ → Bytes → Bytes → QosSet → ReaderKey
new_reader_key topic_name type_name qos = record {
  topic_name = topic_name;
  type_name = type_name;
  qos_bytes = serialize_qos (normalize qos) [];
}

-- (session_id, topic_name, type_name)
pub record Subscription : Type 0 where
  pub session_id : ℕ
  pub topic_name : Bytes
  pub type_name : Bytes

unfoldable pub subscription_beq : Subscription → Subscription → Bool
subscription_beq x y =
    x.session_id == y.session_id && x.topic_name == y.topic_name && x.type_name == y.type_name

pub subscription_beq_iff : (x y : Subscription) → (subscription_beq x y ≡ true) ↔ (x ≡ y)
unfolding subscription_beq
subscription_beq_iff x y =
    ground (arith, list_beq_iff x.topic_name y.topic_name, list_beq_iff x.type_name y.type_name)

instance abbrev pub subscription_eq : Eq Subscription
subscription_eq = record { beq = subscription_beq; beq_iff = subscription_beq_iff }

pub record ReaderRegistry : Type 0 where
  -- reader_id -> DdsReader
  pub readers : Assoc ℕ DdsReader
  pub key_to_reader : Assoc ReaderKey ℕ
  pub session_subscriptions : Assoc Subscription ℕ

-- `ReaderRegistry::new`
abbrev pub empty_readers : ReaderRegistry
empty_readers = record { readers = []; key_to_reader = []; session_subscriptions = [] }

abbrev pub subscription : ℕ → Topic → Subscription
subscription session_id topic = record {
  session_id = session_id;
  topic_name = topic.topic_name;
  type_name = topic.type_name;
}

abbrev pub with_subscriber : ℕ → DdsReader → DdsReader
with_subscriber session_id reader = record reader {
  subscribers = set_insert session_id reader.subscribers;
}

abbrev pub without_subscriber : ℕ → DdsReader → DdsReader
without_subscriber session_id reader = record reader {
  subscribers = set_remove session_id reader.subscribers;
}

-- The handle of a reader that a map gives up.
abbrev pub dropped_reader : Option DdsReader → List ℤ
dropped_reader none = []
dropped_reader (some reader) = reader.handle ∷ []

abbrev pub with_id : ℕ → Option DdsReader → Option (ℕ × DdsReader)
with_id reader_id none = none
with_id reader_id (some reader) = some (reader_id, reader)

abbrev pub found_reader : Assoc ℕ DdsReader → Option ℕ → Option (ℕ × DdsReader)
found_reader readers none = none
found_reader readers (some reader_id) = with_id reader_id (lookup reader_id readers)

-- The branch of `subscribe` that shares a reader.
unfoldable pub joined : Topic → ℕ → ReaderRegistry → ℕ × DdsReader → ReaderRegistry
joined topic session_id r (reader_id, reader) = record r {
  readers = insert reader_id (with_subscriber session_id reader) r.readers;
  session_subscriptions = insert (subscription session_id topic) reader_id r.session_subscriptions;
}

-- The end of `subscribe`, for a new reader.
unfoldable pub added : Topic → ReaderKey → ℕ → ReaderRegistry → DdsReader → ReaderRegistry
added topic key session_id r reader = record {
  readers = insert reader.reader_id (with_subscriber session_id reader) r.readers;
  key_to_reader = insert key reader.reader_id r.key_to_reader;
  session_subscriptions =
      insert (subscription session_id topic) reader.reader_id r.session_subscriptions;
}

module _ (d : Dds) where
  -- After `DdsReader::new`; the second component is the counter of the reader ids.
  unfoldable pub with_new_reader :
      Topic
      → ReaderKey
      → ℕ
      → ReaderRegistry
      → Result DdsError DdsReader × ℕ × d.World
      → Result DdsError ℕ × ReaderRegistry × ℕ × d.World
  with_new_reader topic key session_id r (err e, counter, w) = (err e, r, counter, w)
  with_new_reader topic key session_id r (ok reader, counter, w) = (
    ok reader.reader_id,
    added topic key session_id r reader,
    counter,
    delete_all d (dropped_reader (lookup reader.reader_id r.readers)) w,
  )

  unfoldable pub shared_or_new :
      ⦃b : Buf⦄
      → ℤ
      → Topic
      → Option (List QsetCall)
      → QosSet
      → ℕ
      → ReaderRegistry
      → ℕ
      → d.World
      → Option (ℕ × DdsReader)
      → Result DdsError ℕ × ReaderRegistry × ℕ × d.World
  unfolding with_new_reader
  shared_or_new participant topic qos qos_set session_id r counter w (some (reader_id, reader)) =
      (ok reader_id, joined topic session_id r (reader_id, reader), counter, w)
  shared_or_new participant topic qos qos_set session_id r counter w none =
      with_new_reader topic (new_reader_key topic.topic_name topic.type_name qos_set) session_id r
        (new_reader d participant topic qos (normalize qos_set) counter w)

  unfoldable pub subscribe :
      ⦃b : Buf⦄
      → ℤ
      → Topic
      → Option (List QsetCall)
      → QosSet
      → ℕ
      → ReaderRegistry
      → ℕ
      → d.World
      → Result DdsError ℕ × ReaderRegistry × ℕ × d.World
  unfolding shared_or_new
  subscribe participant topic qos qos_set session_id r counter w =
      let key = new_reader_key topic.topic_name topic.type_name qos_set in
      shared_or_new participant topic qos qos_set session_id r counter w
        (found_reader r.readers (lookup key r.key_to_reader))

-- `key_to_reader.retain(|_, &mut rid| !gone.contains(&rid))`
unfoldable pub retained : List ℕ → Assoc ReaderKey ℕ → Assoc ReaderKey ℕ
retained gone [] = []
retained gone ((key, rid) ∷ m) =
    let rest = retained gone m in if contains gone rid then rest else (key, rid) ∷ rest

unfoldable pub removed_reader : ℕ → ReaderRegistry → ReaderRegistry
removed_reader reader_id r = record r {
  readers = without reader_id r.readers;
  key_to_reader = retained (reader_id ∷ []) r.key_to_reader;
}

-- `unsubscribe` once the reader is found: the reader goes with its last subscriber.
unfoldable pub leave_found :
    ℕ → ReaderRegistry → ℕ → Option DdsReader → Bool × ReaderRegistry × List ℤ
leave_found session_id r reader_id none = (false, r, [])
leave_found session_id r reader_id (some reader) =
    let reader' = without_subscriber session_id reader in
    let r' = record r { readers = insert reader_id reader' r.readers } in
    if reader'.subscribers == []
    then (true, removed_reader reader_id r', reader.handle ∷ [])
    else (true, r', [])

unfoldable pub unsubscribe_key :
    Subscription → ℕ → ReaderRegistry → Option ℕ → Bool × ReaderRegistry × List ℤ
unsubscribe_key sub_key session_id r none = (false, r, [])
unsubscribe_key sub_key session_id r (some reader_id) =
    leave_found session_id
      (record r { session_subscriptions = without sub_key r.session_subscriptions }) reader_id
      (lookup reader_id r.readers)

unfoldable pub unsubscribe : Bytes → Bytes → ℕ → ReaderRegistry → Bool × ReaderRegistry × List ℤ
unsubscribe topic_name type_name session_id r =
    let sub_key : Subscription = record {
      session_id = session_id;
      topic_name = topic_name;
      type_name = type_name;
    } in
    unsubscribe_key sub_key session_id r (lookup sub_key r.session_subscriptions)

-- `get`
unfoldable pub get_reader : ℕ → ReaderRegistry → Option DdsReader
get_reader reader_id r = lookup reader_id r.readers

abbrev pub subscribers_of : Option DdsReader → Option (List ℕ)
subscribers_of none = none
subscribers_of (some reader) = some reader.subscribers

unfoldable pub get_subscribers : ℕ → ReaderRegistry → Option (List ℕ)
get_subscribers reader_id r = subscribers_of (lookup reader_id r.readers)

-- `all_readers`, in the order of the map.
unfoldable pub all_readers : Assoc ℕ DdsReader → List DdsReader
all_readers [] = []
all_readers ((reader_id, reader) ∷ m) = reader ∷ all_readers m
