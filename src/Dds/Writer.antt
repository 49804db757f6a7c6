-- ===== src/Dds/Writer.antt =====
-- `DdsWriter` and `WriterRegistry` of src/dds/writer.rs. A method that drops writers, each of which
-- deletes its entity, returns the handles of those that it drops.
pub mod Invariant
pub mod Laws
pub mod Entity
use cyclone_dds_ws_bridge.Base.{
  Bool, Bytes, List, Option, Result, [], err, false, if◌then◌else◌, list_eq, map_ok, nat_eq, none,
  not, ok, pair_eq, some, ℕ, ◌%◌, ◌&&◌, ◌++◌, ◌+◌, ◌==◌, ◌^◌, ◌∷◌,
}
use cyclone_dds_ws_bridge.Base.Assoc.{Assoc, insert, lookup, without}
use cyclone_dds_ws_bridge.Base.Int.{ℤ}
use cyclone_dds_ws_bridge.Base.Sets.{set_remove}
use cyclone_dds_ws_bridge.Dds.Errors.{DdsError}
use cyclone_dds_ws_bridge.Dds.Participant.{Topic}
use cyclone_dds_ws_bridge.Qos.Normalize.{normalized_eq, policy_eq}
use cyclone_dds_ws_bridge.Qos.Policy.{QosSet}

pub record DdsWriter : Type 0 where
  pub handle : ℤ
  pub writer_id : ℕ
  pub topic : Topic
  pub qos_normalized : QosSet

pub record WriterRegistry : Type 0 where
  -- writer_id -> (DdsWriter, session_id)
  pub writers : Assoc ℕ (DdsWriter × ℕ)
  -- session_id -> list of writer_ids
  pub session_writers : Assoc ℕ (List ℕ)

-- `WriterRegistry::new`
abbrev pub empty_writers : WriterRegistry
empty_writers = record { writers = []; session_writers = [] }

abbrev or_empty {ℓ} : {A : Type ℓ} → Option (List A) → List A
or_empty none = []
or_empty (some xs) = xs

-- `NEXT_WRITER_ID.fetch_add(1)`: the id that is handed out, and the counter, which wraps.
unfoldable pub next_writer_id : ℕ → ℕ × ℕ
next_writer_id counter = (counter, (counter + 1) % 2 ^ 32)

-- The handle of the entry that `HashMap::insert` or `remove` takes out.
abbrev dropped : Option (DdsWriter × ℕ) → List ℤ
dropped none = []
dropped (some (w, session)) = w.handle ∷ []

unfoldable pub register : DdsWriter → ℕ → WriterRegistry → WriterRegistry × List ℤ
register writer session_id r =
    let wid = writer.writer_id in
    let ids = or_empty (lookup session_id r.session_writers) in
    (
      record {
        writers = insert wid (writer, session_id) r.writers;
        session_writers = insert session_id (ids ++ wid ∷ []) r.session_writers;
      },
      dropped (lookup wid r.writers),
    )

abbrev writer_of : Option (DdsWriter × ℕ) → Option DdsWriter
writer_of none = none
writer_of (some (w, session)) = some w

unfoldable pub find_by_id : ℕ → WriterRegistry → Option DdsWriter
find_by_id writer_id r = writer_of (lookup writer_id r.writers)

abbrev pub checked_writer : ℕ → ℕ → Option (DdsWriter × ℕ) → Result DdsError DdsWriter
checked_writer writer_id session_id none = err (DdsError.writer_not_found writer_id)
checked_writer writer_id session_id (some (w, owner)) =
    if not (owner == session_id) then err (DdsError.writer_ownership writer_id) else ok w

-- `get`
unfoldable pub get_writer : ℕ → ℕ → WriterRegistry → Result DdsError DdsWriter
get_writer writer_id session_id r = checked_writer writer_id session_id (lookup writer_id r.writers)

unfoldable pub remove_owned : ℕ → Option (List ℕ) → ℕ → Assoc ℕ (List ℕ) → Assoc ℕ (List ℕ)
remove_owned session_id none writer_id m = m
remove_owned session_id (some ids) writer_id m = insert session_id (set_remove writer_id ids) m

-- What `delete` leaves of the two maps.
unfoldable pub removed_writer : ℕ → ℕ → WriterRegistry → WriterRegistry
removed_writer writer_id session_id r = record {
  writers = without writer_id r.writers;
  session_writers =
      remove_owned session_id (lookup session_id r.session_writers) writer_id r.session_writers;
}

-- `delete`
unfoldable pub delete_writer : ℕ → ℕ → WriterRegistry → Result DdsError (WriterRegistry × List ℤ)
delete_writer writer_id session_id r =
    map_ok (λ w. (removed_writer writer_id session_id r, w.handle ∷ []))
      (get_writer writer_id session_id r)

-- The loop over the ids of a session: what is left, and the handles dropped.
unfoldable pub remove_writers : List ℕ → Assoc ℕ (DdsWriter × ℕ) → Assoc ℕ (DdsWriter × ℕ) × List ℤ
remove_writers [] writers = (writers, [])
remove_writers (wid ∷ ids) writers =
    let (left, handles) = remove_writers ids (without wid writers) in
    (left, dropped (lookup wid writers) ++ handles)

unfoldable pub remove_ids : WriterRegistry → ℕ → Option (List ℕ) → WriterRegistry × List ℤ
remove_ids r session_id none = (r, [])
remove_ids r session_id (some ids) =
    let (left, handles) = remove_writers ids r.writers in
    (record { writers = left; session_writers = without session_id r.session_writers }, handles)

-- `remove_session`
unfoldable pub remove_session_writers : ℕ → WriterRegistry → WriterRegistry × List ℤ
remove_session_writers session_id r = remove_ids r session_id (lookup session_id r.session_writers)

abbrev matches : Bytes → Bytes → QosSet → Option (DdsWriter × ℕ) → Bool
matches topic_name type_name qos none = false
matches topic_name type_name qos (some (w, session)) =
    w.topic.topic_name == topic_name
    && w.topic.type_name == type_name
    && normalized_eq w.qos_normalized qos

-- The loop of `find_by_topic`.
find_in : Assoc ℕ (DdsWriter × ℕ) → Bytes → Bytes → QosSet → List ℕ → Option DdsWriter
find_in writers topic_name type_name qos [] = none
find_in writers topic_name type_name qos (wid ∷ ids) =
    let rest = find_in writers topic_name type_name qos ids in
    let entry = lookup wid writers in
    if matches topic_name type_name qos entry then writer_of entry else rest

unfoldable pub find_by_topic : ℕ → Bytes → Bytes → QosSet → WriterRegistry → Option DdsWriter
unfolding find_in
find_by_topic session_id topic_name type_name qos r =
    find_in r.writers topic_name type_name qos (or_empty (lookup session_id r.session_writers))
