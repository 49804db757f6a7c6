-- ===== src/Dds/Writer/Laws.antt =====
-- What a client of `WriterRegistry` can rely on.
use cyclone_dds_ws_bridge.Base.{
  Bool-cases, Bytes, List, Option-cases, [], arith, err, false, if◌then◌else◌, inl, inr,
  list_beq_iff, list_eq, nat_beq, nat_beq_iff, nat_eq, none, ok, pair_eq, refl, some, subst, true,
  ℕ, ◌++◌, ◌==◌, ◌∷◌, ◌≡◌, ◌≢◌,
}
use cyclone_dds_ws_bridge.Base.Assoc.{Assoc, lookup, lookup-insert, lookup-without}
use cyclone_dds_ws_bridge.Base.Sets.{contains, contains-append}
use cyclone_dds_ws_bridge.Dds.Errors.{DdsError}
use cyclone_dds_ws_bridge.Dds.Writer.{
  DdsWriter, WriterRegistry, delete_writer, find_by_topic, find_in, get_writer, matches, register,
  removed_writer,
}
use cyclone_dds_ws_bridge.Dds.Writer.Invariant.{IsWriters, ids_of}
use cyclone_dds_ws_bridge.Qos.Normalize.{normalized_eq, policy_eq}
use cyclone_dds_ws_bridge.Qos.Policy.{QosSet}

-- After `register` the session that registered the writer gets it, every other session is refused
-- as no owner, and for all other ids `get` answers as before.
pub get_writer-register :
    (w : DdsWriter) (session_id wid s : ℕ) (r : WriterRegistry)
    → get_writer wid s (register w session_id r).0 ≡ (
        if w.writer_id == wid
        then (if session_id == s then ok w else err (DdsError.writer_ownership wid))
        else get_writer wid s r)
unfolding get_writer register
get_writer-register w session_id wid s r =
    rw (lookup-insert w.writer_id wid (w, session_id) r.writers) (ground arith)

-- If `get` gives a session the writer, then `delete` by that session succeeds and drops the entity
-- of that writer alone; no session can get the writer afterwards, and every other writer is as it
-- was for every session.
pub delete_writer_lem :
    (wid session_id : ℕ) (w : DdsWriter) (r : WriterRegistry)
    → get_writer wid session_id r ≡ ok w
    → (next : WriterRegistry) × (delete_writer wid session_id r ≡ ok (next, w.handle ∷ []))
      × ((j s : ℕ)
          → get_writer j s next
            ≡ (if wid == j then err (DdsError.writer_not_found j) else get_writer j s r))
unfolding delete_writer removed_writer get_writer
delete_writer_lem wid session_id w r e = (
  removed_writer wid session_id r,
  rw e refl,
  λ j s. rw (lookup-without wid j r.writers) (ground arith),
)

-- The writer that `find_by_topic` returns belongs to the session and has the topic, the type and,
-- up to normalization, the QoS that were asked for.
find_in_sound :
    (m : Assoc ℕ (DdsWriter × ℕ)) (topic type : Bytes) (q : QosSet) (ids : List ℕ) (w : DdsWriter)
    → find_in m topic type q ids ≡ some w
    → (wid owner : ℕ) × (contains ids wid ≡ true)
      × (lookup wid m ≡ some (w, owner))
      × (matches topic type q (lookup wid m) ≡ true)
unfolding find_in contains
find_in_sound m topic type q [] w e = absurd (ground arith)
find_in_sound m topic type q (wid ∷ ids) w e = elim (Option-cases (lookup wid m)) [
  | inl absent ↦
      let (j, owner, listed, rest, hit) =
        find_in_sound m topic type q ids w (ground (arith, absent)) in
      (j, owner, ground arith, rest, hit)
  | inr ((x, owner), present) ↦ elim (Bool-cases (matches topic type q (lookup wid m))) [
    | inl hit ↦ (wid, owner, ground arith, ground (arith, present), hit)
    | inr miss ↦
        let (j, o, listed, rest, hit) = find_in_sound m topic type q ids w (ground arith) in
        (j, o, ground arith, rest, hit)
  ]
]

-- In a registry whose maps agree, a writer that `find_by_topic` returns is one that the session
-- can get, and has the topic name, the type name and, by `normalized_eq`, the QoS that were asked
-- for.
pub find_by_topic_sound :
    (session_id : ℕ) (topic_name type_name : Bytes) (qos : QosSet) (r : WriterRegistry)
    (w : DdsWriter)
    → IsWriters r
    → find_by_topic session_id topic_name type_name qos r ≡ some w
    → (get_writer w.writer_id session_id r ≡ ok w)
      × (w.topic.topic_name ≡ topic_name)
      × (w.topic.type_name ≡ type_name)
      × (normalized_eq w.qos_normalized qos ≡ true)
unfolding find_by_topic get_writer
find_by_topic_sound session_id topic_name type_name qos r w v e =
    let (wid, owner, listed, present, hit) =
      find_in_sound r.writers topic_name type_name qos (ids_of session_id r) w e in
    let own : owner ≡ session_id = ground (arith, v.agrees wid session_id, present) in
    let wid_is : w.writer_id ≡ wid = v.ids wid owner w present in
    (
      ground (arith, present),
      ground (arith, hit, present, list_beq_iff w.topic.topic_name topic_name),
      ground (arith, hit, present, list_beq_iff w.topic.type_name type_name),
      ground (arith, hit, present),
    )

find_in_complete :
    (m : Assoc ℕ (DdsWriter × ℕ)) (topic type : Bytes) (q : QosSet) (ids : List ℕ) (wid : ℕ)
    → contains ids wid ≡ true
    → matches topic type q (lookup wid m) ≡ true
    → find_in m topic type q ids ≢ none
unfolding find_in contains
find_in_complete m topic type q [] wid listed hit e = ground arith
find_in_complete m topic type q (j ∷ ids) wid listed hit e =
    elim (Bool-cases (matches topic type q (lookup j m))) [
      | inl found ↦ elim (Option-cases (lookup j m)) [
        | inl absent ↦ ground (arith, absent)
        | inr (entry, present) ↦ ground (arith, present)
      ]
      | inr miss ↦ elim (Bool-cases (nat_beq j wid)) [
        | inl same ↦
            (let is : j ≡ wid = (nat_beq_iff j wid).0 same in
              let miss' : matches topic type q (lookup wid m) ≡ false =
                subst (λ n. matches topic type q (lookup n m) ≡ false) is miss in
              absurd (ground arith))
        | inr other ↦
            find_in_complete m topic type q ids wid (ground (arith, other)) hit
              (ground (arith, miss))
      ]
    ]

-- Once a writer is registered that has the topic name, the type name and, by `normalized_eq`, the
-- QoS, `find_by_topic` finds one for the session.
pub find_by_topic-register :
    (w : DdsWriter) (session_id : ℕ) (topic_name type_name : Bytes) (qos : QosSet)
    (r : WriterRegistry)
    → w.topic.topic_name ≡ topic_name
    → w.topic.type_name ≡ type_name
    → normalized_eq w.qos_normalized qos ≡ true
    → find_by_topic session_id topic_name type_name qos (register w session_id r).0 ≢ none
unfolding find_by_topic register contains
find_by_topic-register w session_id topic_name type_name qos r t y q =
    find_in_complete _ topic_name type_name qos _ w.writer_id
      (rw
        (lookup-insert session_id session_id (ids_of session_id r ++ w.writer_id ∷ [])
          r.session_writers)
        (ground (arith, contains-append (ids_of session_id r) (w.writer_id ∷ []) w.writer_id)))
      (rw (lookup-insert w.writer_id w.writer_id (w, session_id) r.writers) (
        ground (
          arith,
          list_beq_iff w.topic.topic_name topic_name,
          list_beq_iff w.topic.type_name type_name,
        )))
