-- ===== src/Bridge/Invariant.antt =====
-- The invariant of `BridgeInner` of src/bridge.rs, and what a request leaves to other sessions.
pub mod Steps
pub mod Notices
pub mod Handlers
use cyclone_dds_ws_bridge.Base.{
  Bytes, Option, [], arith, if◌then◌else◌, list_eq, nat_eq, none, pair_eq, refl, some, suc, ℕ, ◌%◌,
  ◌+◌, ◌<◌, ◌==◌, ◌^◌, ◌≡◌, ◌≢◌, ◌≤◌,
}
use cyclone_dds_ws_bridge.Base.Assoc.{Assoc, lookup, lookup-insert}
use cyclone_dds_ws_bridge.Bridge.{BridgeInner}
use cyclone_dds_ws_bridge.Dds.Api.{Dds}
use cyclone_dds_ws_bridge.Dds.Participant.{Topic}
use cyclone_dds_ws_bridge.Dds.Participant.Laws.{Named}
use cyclone_dds_ws_bridge.Dds.Readers.{
  ReaderRegistry, empty_readers, reader_key_eq, subscription_eq,
}
use cyclone_dds_ws_bridge.Dds.Readers.Invariant.{IsReaders, empty-IsReaders}
use cyclone_dds_ws_bridge.Dds.Readers.Invariant.Others.{SameOthers, SameOthers-refl}
use cyclone_dds_ws_bridge.Dds.Writer.{DdsWriter, WriterRegistry, empty_writers, register}
use cyclone_dds_ws_bridge.Dds.Writer.Invariant.{IsWriters, empty-IsWriters}
use cyclone_dds_ws_bridge.Qos.Normalize.{policy_eq}

-- Cache and registries are in order, no id from the counters on is in use, and the counters can
-- hand out `room` more ids.
pub record Sound (room : ℕ) (topics : Assoc (Bytes × Bytes) Topic) (writers : WriterRegistry)
    (readers : ReaderRegistry) (writer_counter reader_counter : ℕ) : Type 0 where
  pub topic_names : Named topics
  pub writer_maps : IsWriters writers
  pub reader_maps : IsReaders readers
  pub fresh_writers : (id : ℕ) → writer_counter ≤ id → lookup id writers.writers ≡ none
  pub fresh_readers : (id : ℕ) → reader_counter ≤ id → lookup id readers.readers ≡ none
  pub writer_room : writer_counter + room < 2 ^ 32
  pub reader_room : reader_counter + room < 2 ^ 64

-- The writer under an id, if the session owns it.
abbrev pub owned : ℕ → Option (DdsWriter × ℕ) → Option DdsWriter
owned session_id none = none
owned session_id (some (w, owner)) = if owner == session_id then some w else none

-- Every session but one owns the writers that it owned.
abbrev pub SameWriters : ℕ → WriterRegistry → WriterRegistry → Type 0
SameWriters session_id r r' =
    (wid other : ℕ)
    → other ≢ session_id
    → owned other (lookup wid r'.writers) ≡ owned other (lookup wid r.writers)

module _ {d : Dds} where
  abbrev pub IsBridge : ℕ → BridgeInner d → Type 0
  IsBridge room s =
      Sound room s.participant.topics s.writers s.readers s.writer_counter s.reader_counter

  -- A session has not touched what other sessions have.
  abbrev pub Isolated : ℕ → BridgeInner d → BridgeInner d → Type 0
  Isolated session_id s s' =
      SameWriters session_id s.writers s'.writers
      × SameOthers session_id s.readers s'.readers
      × (s'.session_senders ≡ s.session_senders)
      × (s'.config ≡ s.config)

  -- What holds of a state while a request of the session is handled that began in `s`.
  abbrev pub Kept : ℕ → ℕ → BridgeInner d → BridgeInner d → Type 0
  Kept session_id room s s' = IsBridge room s' × Isolated session_id s s'

pub empty-Sound : (room : ℕ) → room + 1 < 2 ^ 32 → Sound room [] empty_writers empty_readers 1 1
unfolding lookup
empty-Sound room h = record {
  topic_names = λ topic_name type_name t e. absurd (ground (arith, e));
  writer_maps = empty-IsWriters;
  reader_maps = empty-IsReaders;
  fresh_writers = λ id h'. refl;
  fresh_readers = λ id h'. refl;
  writer_room = omega arith;
  reader_room = omega arith;
}

module _ {room wc rc : ℕ} {topics : Assoc (Bytes × Bytes) Topic} {writers : WriterRegistry}
    {readers : ReaderRegistry} where
  pub weaken :
      Sound (suc room) topics writers readers wc rc → Sound room topics writers readers wc rc
  weaken v = record {
    topic_names = v.topic_names;
    writer_maps = v.writer_maps;
    reader_maps = v.reader_maps;
    fresh_writers = v.fresh_writers;
    fresh_readers = v.fresh_readers;
    writer_room = (let h = v.writer_room in omega arith);
    reader_room = (let h = v.reader_room in omega arith);
  }

  pub relax :
      Sound room topics writers readers wc rc
      → (room' : ℕ) → room' ≤ room
      → Sound room' topics writers readers wc rc
  relax v room' le = record {
    topic_names = v.topic_names;
    writer_maps = v.writer_maps;
    reader_maps = v.reader_maps;
    fresh_writers = v.fresh_writers;
    fresh_readers = v.fresh_readers;
    writer_room = (let h = v.writer_room in omega arith);
    reader_room = (let h = v.reader_room in omega arith);
  }

  -- Another cache in order.
  pub named :
      Sound room topics writers readers wc rc
      → (topics' : Assoc (Bytes × Bytes) Topic) → Named topics'
      → Sound room topics' writers readers wc rc
  named v topics' names = record {
    topic_names = names;
    writer_maps = v.writer_maps;
    reader_maps = v.reader_maps;
    fresh_writers = v.fresh_writers;
    fresh_readers = v.fresh_readers;
    writer_room = v.writer_room;
    reader_room = v.reader_room;
  }

  -- A writer id is handed out.
  pub next_writer :
      Sound (suc room) topics writers readers wc rc
      → Sound room topics writers readers ((wc + 1) % 2 ^ 32) rc
  next_writer v =
      let h = v.writer_room in
      let h' = v.reader_room in
      record {
        topic_names = v.topic_names;
        writer_maps = v.writer_maps;
        reader_maps = v.reader_maps;
        fresh_writers = λ id le. v.fresh_writers id (omega arith);
        fresh_readers = v.fresh_readers;
        writer_room = omega arith;
        reader_room = omega arith;
      }

  -- Other writers, none of them under a fresh id.
  pub replaced_writers :
      Sound room topics writers readers wc rc
      → (writers' : WriterRegistry) → IsWriters writers'
      → ((id : ℕ) → wc ≤ id → lookup id writers'.writers ≡ none)
      → Sound room topics writers' readers wc rc
  replaced_writers v writers' maps fresh = record {
    topic_names = v.topic_names;
    writer_maps = maps;
    reader_maps = v.reader_maps;
    fresh_writers = fresh;
    fresh_readers = v.fresh_readers;
    writer_room = v.writer_room;
    reader_room = v.reader_room;
  }

  -- Other readers, none of them under a fresh id, and another counter of their ids.
  pub replaced_readers :
      Sound room topics writers readers wc rc
      → (readers' : ReaderRegistry) (room' rc' : ℕ) → room' ≤ room
      → rc' + room' < 2 ^ 64
      → IsReaders readers'
      → ((id : ℕ) → rc' ≤ id → lookup id readers'.readers ≡ none)
      → Sound room' topics writers readers' wc rc'
  replaced_readers v readers' room' rc' le h maps fresh =
      let h' = v.writer_room in
      record {
        topic_names = v.topic_names;
        writer_maps = v.writer_maps;
        reader_maps = maps;
        fresh_writers = v.fresh_writers;
        fresh_readers = fresh;
        writer_room = omega arith;
        reader_room = h;
      }

pub register-SameWriters :
    (w : DdsWriter) (session_id : ℕ) (r : WriterRegistry)
    → lookup w.writer_id r.writers ≡ none
    → SameWriters session_id r (register w session_id r).0
unfolding register
register-SameWriters w session_id r fresh wid other n =
    ground (arith, lookup-insert w.writer_id wid (w, session_id) r.writers, fresh, n)

pub register-fresh :
    (w : DdsWriter) (session_id : ℕ) (r : WriterRegistry) (id : ℕ)
    → w.writer_id ≢ id
    → lookup id r.writers ≡ none
    → lookup id (register w session_id r).0.writers ≡ none
unfolding register
register-fresh w session_id r id n fresh =
    ground (arith, lookup-insert w.writer_id id (w, session_id) r.writers, fresh, n)

module _ {d : Dds} where
  pub Kept-start :
      (session_id : ℕ) {room : ℕ} (s : BridgeInner d) → IsBridge room s → Kept session_id room s s
  Kept-start session_id s v =
      (v, (λ wid other n. refl, SameOthers-refl session_id s.readers, refl, refl))
