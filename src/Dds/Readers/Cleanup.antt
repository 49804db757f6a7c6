-- ===== src/Dds/Readers/Cleanup.antt =====
-- `remove_session` of `ReaderRegistry` in src/dds/reader.rs.
use cyclone_dds_ws_bridge.Base.{
  List, Option, [], if◌then◌else◌, list_eq, nat_eq, none, pair_eq, some, ℕ, ◌++◌, ◌==◌, ◌∷◌,
}
use cyclone_dds_ws_bridge.Base.Assoc.{Assoc, insert, lookup, without, without_all}
use cyclone_dds_ws_bridge.Base.Int.{ℤ}
use cyclone_dds_ws_bridge.Base.Sets.{set_insert}
use cyclone_dds_ws_bridge.Dds.Reader.{DdsReader}
use cyclone_dds_ws_bridge.Dds.Readers.{
  ReaderRegistry, Subscription, dropped_reader, reader_key_eq, retained, subscription_eq,
  without_subscriber,
}
use cyclone_dds_ws_bridge.Qos.Normalize.{policy_eq}

-- The keys of a session, and the readers that they stand for.
unfoldable pub sub_keys : ℕ → Assoc Subscription ℕ → List Subscription
sub_keys session_id [] = []
sub_keys session_id ((key, reader_id) ∷ m) =
    let rest = sub_keys session_id m in if key.session_id == session_id then key ∷ rest else rest

unfoldable pub or_insert : Option ℕ → List ℕ → List ℕ
or_insert none ids = ids
or_insert (some reader_id) ids = set_insert reader_id ids

-- The loop that takes the keys out of `session_subscriptions`.
unfoldable pub affected_readers :
    List Subscription → Assoc Subscription ℕ → List ℕ → Assoc Subscription ℕ × List ℕ
affected_readers [] m ids = (m, ids)
affected_readers (key ∷ keys) m ids =
    affected_readers keys (without key m) (or_insert (lookup key m) ids)

-- The step of the next loop: the readers, and those of them with no subscriber left.
unfoldable pub leave_reader :
    ℕ → ℕ → Option DdsReader → Assoc ℕ DdsReader → List ℕ → Assoc ℕ DdsReader × List ℕ
leave_reader session_id reader_id none readers to_remove = (readers, to_remove)
leave_reader session_id reader_id (some reader) readers to_remove =
    let reader' = without_subscriber session_id reader in
    (
      insert reader_id reader' readers,
      if reader'.subscribers == [] then to_remove ++ reader_id ∷ [] else to_remove,
    )

unfoldable pub leave_readers : ℕ → List ℕ → Assoc ℕ DdsReader → List ℕ → Assoc ℕ DdsReader × List ℕ
leave_readers session_id [] readers to_remove = (readers, to_remove)
leave_readers session_id (reader_id ∷ ids) readers to_remove =
    let (readers', to_remove') =
      leave_reader session_id reader_id (lookup reader_id readers) readers to_remove in
    leave_readers session_id ids readers' to_remove'

unfoldable pub dropped_readers : List ℕ → Assoc ℕ DdsReader → List ℤ
dropped_readers [] readers = []
dropped_readers (reader_id ∷ ids) readers =
    dropped_reader (lookup reader_id readers) ++ dropped_readers ids (without reader_id readers)

-- `remove_session`
unfoldable pub remove_session_readers : ℕ → ReaderRegistry → ReaderRegistry × List ℤ
remove_session_readers session_id r =
    let (subscriptions, affected) =
      affected_readers (sub_keys session_id r.session_subscriptions) r.session_subscriptions [] in
    let (readers, to_remove) = leave_readers session_id affected r.readers [] in
    (
      record {
        readers = without_all to_remove readers;
        key_to_reader = retained to_remove r.key_to_reader;
        session_subscriptions = subscriptions;
      },
      dropped_readers to_remove readers,
    )
