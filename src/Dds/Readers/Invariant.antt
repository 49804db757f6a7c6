-- ===== src/Dds/Readers/Invariant.antt =====
-- The invariant of `ReaderRegistry` of src/dds/reader.rs: how its maps agree.
pub mod Subscribe
pub mod Leave
pub mod Unsubscribe
pub mod Released
pub mod Others
pub mod Fresh
use cyclone_dds_ws_bridge.Base.{
  All, Bool, Bool-cases, List, Option, [], arith, false, inl, inr, list_eq, nat_eq, none, not,
  pair_eq, refl, some, subst, true, ℕ, ◌&&◌, ◌==◌, ◌∷◌, ◌≡◌,
}
use cyclone_dds_ws_bridge.Base.Assoc.{Assoc, insert, is_map, lookup, without}
use cyclone_dds_ws_bridge.Base.Sets.{contains, is_set}
use cyclone_dds_ws_bridge.Dds.Reader.{DdsReader}
use cyclone_dds_ws_bridge.Dds.Readers.{
  ReaderKey, ReaderRegistry, Subscription, empty_readers, reader_key_beq_iff, reader_key_eq,
  retained, subscription_eq, without_subscriber,
}
use cyclone_dds_ws_bridge.Qos.Normalize.{policy_eq}

-- A reader that is there and has the topic and the type of the key.
abbrev pub serves : ReaderKey → Option DdsReader → Bool
serves key none = false
serves key (some reader) =
    reader.topic.topic_name == key.topic_name && reader.topic.type_name == key.type_name

-- A reader that is there, has the topic and the type of the subscription, and lists its session.
abbrev pub is_subscribed : Subscription → Option DdsReader → Bool
is_subscribed sub none = false
is_subscribed sub (some reader) =
    contains reader.subscribers sub.session_id
    && reader.topic.topic_name == sub.topic_name
    && reader.topic.type_name == sub.type_name

-- A reader that is there and has no subscriber.
abbrev pub is_vacant : Option DdsReader → Bool
is_vacant none = false
is_vacant (some reader) = reader.subscribers == []

-- A reader that is there lists a session twice.
abbrev pub has_repeats : Option DdsReader → Bool
has_repeats none = false
has_repeats (some reader) = not (is_set reader.subscribers)

-- A reader that is there has this id.
abbrev pub has_id : ℕ → Option DdsReader → Bool
has_id id none = true
has_id id (some reader) = reader.reader_id == id

abbrev pub Serves : Assoc ℕ DdsReader → ReaderKey × ℕ → Type 0
Serves readers (key, id) = serves key (lookup id readers) ≡ true

-- A key stands for a reader of its topic, a subscription for a reader that lists the session, and
-- every reader has a subscriber, none twice, and stands once
-- under its own id.
pub record IsReaders (r : ReaderRegistry) : Type 0 where
  pub shared : All (Serves r.readers) r.key_to_reader
  pub subscribed :
      (sub : Subscription) (id : ℕ)
      → lookup sub r.session_subscriptions ≡ some id
      → is_subscribed sub (lookup id r.readers) ≡ true
  pub occupied : (id : ℕ) → is_vacant (lookup id r.readers) ≡ false
  pub no_repeats : (id : ℕ) → has_repeats (lookup id r.readers) ≡ false
  pub ids : (id : ℕ) → has_id id (lookup id r.readers) ≡ true
  pub one_entry : is_map r.readers ≡ true

pub empty-IsReaders : IsReaders empty_readers
unfolding lookup is_map
empty-IsReaders = record {
  shared = tt;
  subscribed = λ sub id e. absurd (ground arith);
  occupied = λ id. refl;
  no_repeats = λ id. refl;
  ids = λ id. refl;
  one_entry = refl;
}

-- A key that is found stands for its reader.
pub All-lookup :
    (P : ReaderKey × ℕ → Type 0) (key : ReaderKey) {id : ℕ} (m : Assoc ReaderKey ℕ)
    → All P m
    → lookup key m ≡ some id
    → P (key, id)
unfolding lookup
All-lookup P key [] a e = absurd (ground arith)
All-lookup P key {id} ((j, i) ∷ m) (p, a) e = elim (Bool-cases (j == key)) [
  | inl hit ↦
      let same_key : j ≡ key = ground (arith, reader_key_beq_iff j key) in
      let same_id : i ≡ id = ground arith in
      subst (λ k. P (k, id)) same_key (subst (λ n. P (j, n)) same_id p)
  | inr miss ↦ All-lookup P key m a (ground arith)
]

pub All-without :
    (P : ReaderKey × ℕ → Type 0) (key : ReaderKey) (m : Assoc ReaderKey ℕ)
    → All P m
    → All P (without key m)
unfolding without
All-without P key [] a = tt
All-without P key ((j, i) ∷ m) (p, a) = elim (Bool-cases (j == key)) [
  | inl hit ↦ rw hit (All-without P key m a)
  | inr miss ↦ rw miss (p, All-without P key m a)
]

-- The step from one property of the entries to another, for those that are kept.
pub All-retained :
    (P Q : ReaderKey × ℕ → Type 0) (gone : List ℕ)
    → ((key : ReaderKey) (id : ℕ) → contains gone id ≡ false → P (key, id) → Q (key, id))
    → (m : Assoc ReaderKey ℕ) → All P m
    → All Q (retained gone m)
unfolding retained
All-retained P Q gone f [] a = tt
All-retained P Q gone f ((j, i) ∷ m) (p, a) = elim (Bool-cases (contains gone i)) [
  | inl hit ↦ rw hit (All-retained P Q gone f m a)
  | inr miss ↦ rw miss (f j i miss p, All-retained P Q gone f m a)
]

pub All-step :
    (P Q : ReaderKey × ℕ → Type 0)
    → ((key : ReaderKey) (id : ℕ) → P (key, id) → Q (key, id))
    → (m : Assoc ReaderKey ℕ) → All P m
    → All Q m
All-step P Q f [] a = tt
All-step P Q f ((j, i) ∷ m) (p, a) = (f j i p, All-step P Q f m a)

contains-none : (xs : List ℕ) (a : ℕ) → (xs == []) ≡ true → contains xs a ≡ false
unfolding contains
contains-none [] a e = refl
contains-none (x ∷ xs) a e = absurd (ground arith)

-- A reader without subscribers serves no subscription.
pub vacant-is_subscribed :
    (sub : Subscription) (o : Option DdsReader) → is_vacant o ≡ true → is_subscribed sub o ≡ false
vacant-is_subscribed sub none e = refl
vacant-is_subscribed sub (some reader) e =
    rw (contains-none reader.subscribers sub.session_id e) refl

-- The registry without a subscription and without its session at the reader.
abbrev pub unsubscribed : ReaderRegistry → Subscription → ℕ → DdsReader → ReaderRegistry
unsubscribed r key id reader = record r {
  readers = insert id (without_subscriber key.session_id reader) r.readers;
  session_subscriptions = without key r.session_subscriptions;
}
