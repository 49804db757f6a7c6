-- ===== src/Dds/Readers/Invariant/Leave.antt =====
-- The invariant under `remove_session` of src/dds/reader.rs.
use cyclone_dds_ws_bridge.Base.{
  Bool-cases, List, Option-cases, [], ap, arith, false, if◌then◌else◌, inl, inr, list_eq, nat_eq,
  none, pair_eq, refl, some, sym, true, ℕ, ◌&&◌, ◌==◌, ◌∙◌, ◌∷◌, ◌≡◌,
}
use cyclone_dds_ws_bridge.Base.Assoc.{
  Assoc, is_map, is_map-insert, is_map-without_all, lookup, lookup-insert, lookup-without_all,
  without, without_all,
}
use cyclone_dds_ws_bridge.Base.Sets.{
  contains, contains-append, contains-set_remove, is_set-set_remove, set_remove,
}
use cyclone_dds_ws_bridge.Dds.Reader.{DdsReader}
use cyclone_dds_ws_bridge.Dds.Readers.{
  ReaderKey, ReaderRegistry, Subscription, reader_key_eq, subscription_beq_iff, subscription_eq,
  without_subscriber,
}
use cyclone_dds_ws_bridge.Dds.Readers.Cleanup.{
  affected_readers, leave_reader, leave_readers, or_insert, remove_session_readers, sub_keys,
}
use cyclone_dds_ws_bridge.Dds.Readers.Invariant.{
  All-retained, IsReaders, has_id, has_repeats, is_subscribed, is_vacant, serves,
  vacant-is_subscribed,
}
use cyclone_dds_ws_bridge.Qos.Normalize.{policy_eq}

-- What the loops of `remove_session` do to the maps.
affected_readers-without_all :
    (keys : List Subscription) (m : Assoc Subscription ℕ) (ids : List ℕ)
    → (affected_readers keys m ids).0 ≡ without_all keys m
unfolding affected_readers without_all
affected_readers-without_all [] m ids = refl
affected_readers-without_all (key ∷ keys) m ids =
    affected_readers-without_all keys (without key m) (or_insert (lookup key m) ids)

pub contains-sub_keys :
    (s : ℕ) (sub : Subscription) (id : ℕ) (m : Assoc Subscription ℕ)
    → sub.session_id ≡ s
    → lookup sub m ≡ some id
    → contains (sub_keys s m) sub ≡ true
unfolding sub_keys lookup contains
contains-sub_keys s sub id [] own e = absurd (ground arith)
contains-sub_keys s sub id ((key, i) ∷ m) own e = elim (Bool-cases (key == sub)) [
  | inl hit ↦
      let same = ap (λ k. k.session_id) ((subscription_beq_iff key sub).0 hit) in ground arith
  | inr miss ↦ ground (arith, contains-sub_keys s sub id m)
]

pub sub_keys-session :
    (s : ℕ) (sub : Subscription) (m : Assoc Subscription ℕ)
    → contains (sub_keys s m) sub ≡ true
    → sub.session_id ≡ s
unfolding sub_keys contains
sub_keys-session s sub [] e = absurd (ground arith)
sub_keys-session s sub ((key, i) ∷ m) e = elim (Bool-cases (key == sub)) [
  | inl hit ↦
      let same = ap (λ k. k.session_id) ((subscription_beq_iff key sub).0 hit) in
      ground (arith, sub_keys-session s sub m)
  | inr miss ↦ ground (arith, sub_keys-session s sub m)
]

-- The vacant readers are the ones that are listed for removal.
abbrev Listed : Assoc ℕ DdsReader → List ℕ → Type 0
Listed readers to_remove = (j : ℕ) → is_vacant (lookup j readers) ≡ contains to_remove j

module _ (s : ℕ) where
  none_left : (xs : List ℕ) → (xs == []) ≡ true → (set_remove s xs == []) ≡ true
  unfolding set_remove
  none_left [] e = refl
  none_left (x ∷ xs) e = absurd (ground arith)

  leave_reader-Listed :
      (id : ℕ) (readers : Assoc ℕ DdsReader) (to_remove : List ℕ)
      → Listed readers to_remove
      → (let (rs, t) = leave_reader s id (lookup id readers) readers to_remove in Listed rs t)
  unfolding leave_reader contains
  leave_reader-Listed id readers to_remove l = elim (Option-cases (lookup id readers)) [
    | inl absent ↦ rw absent l
    | inr (reader, present) ↦ elim (Bool-cases ((without_subscriber s reader).subscribers == [])) [
      | inl last ↦ λ j.
          rw
            (
              present,
              last,
              lookup-insert id j (without_subscriber s reader) readers,
              contains-append to_remove (id ∷ []) j,
            )
            (ground (arith, l j, l id))
      | inr others ↦ λ j.
          rw (present, others, lookup-insert id j (without_subscriber s reader) readers)
            (ground (arith, l j, l id, none_left reader.subscribers))
    ]
  ]

  leave_readers-Listed :
      (ids : List ℕ) (readers : Assoc ℕ DdsReader) (to_remove : List ℕ)
      → Listed readers to_remove
      → (let (rs, t) = leave_readers s ids readers to_remove in Listed rs t)
  unfolding leave_readers
  leave_readers-Listed [] readers to_remove l = l
  leave_readers-Listed (id ∷ ids) readers to_remove l =
      leave_readers-Listed ids _ _ (leave_reader-Listed id readers to_remove l)

  serves-leave_readers :
      (key : ReaderKey) (j : ℕ) (ids : List ℕ) (readers : Assoc ℕ DdsReader) (to_remove : List ℕ)
      → serves key (lookup j (leave_readers s ids readers to_remove).0)
        ≡ serves key (lookup j readers)
  unfolding leave_readers leave_reader
  serves-leave_readers key j [] readers to_remove = refl
  serves-leave_readers key j (id ∷ ids) readers to_remove =
      serves-leave_readers key j ids _ _ ∙ elim (Option-cases (lookup id readers)) [
        | inl absent ↦ rw absent refl
        | inr (reader, present) ↦
            rw present (ground (arith, lookup-insert id j (without_subscriber s reader) readers))
      ]

  -- What the loops keep of every reader of a map.
  record KeptReaders (readers : Assoc ℕ DdsReader) : Type 0 where
    once : (j : ℕ) → has_repeats (lookup j readers) ≡ false
    own_ids : (j : ℕ) → has_id j (lookup j readers) ≡ true
    single : is_map readers ≡ true

  leave_readers-KeptReaders :
      (ids : List ℕ) (readers : Assoc ℕ DdsReader) (to_remove : List ℕ)
      → KeptReaders readers
      → KeptReaders (leave_readers s ids readers to_remove).0
  unfolding leave_readers leave_reader
  leave_readers-KeptReaders [] readers to_remove h = h
  leave_readers-KeptReaders (id ∷ ids) readers to_remove h =
      leave_readers-KeptReaders ids _ _ (elim (Option-cases (lookup id readers)) [
        | inl absent ↦ rw absent h
        | inr (reader, present) ↦
            let now = λ (k : ℕ). lookup-insert id k (without_subscriber s reader) readers in
            rw present (record {
              once = λ k. rw (now k) (
                  ground
                    (arith, h.once k, h.once id, present, is_set-set_remove s reader.subscribers));
              own_ids = λ k. rw (now k) (ground (arith, h.own_ids k, present));
              single = is_map-insert id (without_subscriber s reader) readers h.single;
            })
      ])

  -- The session is taken off the readers of the list and no other subscription changes.
  is_subscribed-leave_readers :
      (sub : Subscription) (j : ℕ) (ids : List ℕ) (readers : Assoc ℕ DdsReader) (to_remove : List ℕ)
      → is_subscribed sub (lookup j (leave_readers s ids readers to_remove).0) ≡ (
          if s == sub.session_id && contains ids j
          then false
          else is_subscribed sub (lookup j readers))
  unfolding leave_readers leave_reader contains
  is_subscribed-leave_readers sub j [] readers to_remove = ground arith
  is_subscribed-leave_readers sub j (id ∷ ids) readers to_remove =
      elim (Option-cases (lookup id readers)) [
        | inl absent ↦ rw (is_subscribed-leave_readers sub j ids, absent) (ground (arith, absent))
        | inr (reader, present) ↦
            rw (is_subscribed-leave_readers sub j ids, present)
              (ground (
                arith,
                present,
                lookup-insert id j (without_subscriber s reader) readers,
                contains-set_remove s sub.session_id reader.subscribers,
              ))
      ]

-- What `remove_session` does to the subscriptions: those of the session go, no other does.
pub lookup-affected_readers :
    (s : ℕ) (sub : Subscription) (m : Assoc Subscription ℕ)
    → lookup sub (affected_readers (sub_keys s m) m []).0
      ≡ (if sub.session_id == s then none else lookup sub m)
lookup-affected_readers s sub m =
    rw (affected_readers-without_all (sub_keys s m) m [], lookup-without_all (sub_keys s m) sub m)
      (elim (Option-cases (lookup sub m)) [
        | inl absent ↦ rw absent (ground arith)
        | inr (id, present) ↦ ground (arith, contains-sub_keys s sub id m, sub_keys-session s sub m)
      ])

module _ (r : ReaderRegistry) (v : IsReaders r) (s : ℕ) where
  abbrev pub affected_of : List ℕ
  affected_of = (affected_readers (sub_keys s r.session_subscriptions) r.session_subscriptions []).1

  -- Without its vacant readers a map answers as before.
  is_subscribed-without_all :
      (sub : Subscription) (j : ℕ) (readers : Assoc ℕ DdsReader) (gone : List ℕ)
      → Listed readers gone
      → is_subscribed sub (lookup j (without_all gone readers))
        ≡ is_subscribed sub (lookup j readers)
  unfolding contains
  is_subscribed-without_all sub j readers gone l =
      rw (lookup-without_all gone j readers) (elim (Bool-cases (contains gone j)) [
        | inl removed ↦
            rw removed (sym (vacant-is_subscribed sub (lookup j readers) (l j ∙ removed)))
        | inr kept ↦ rw kept refl
      ])

  -- In a registry whose maps agree, `remove_session` takes the session off the readers that its
  -- first loop collects, and every reader serves all other subscriptions as before.
  pub is_subscribed-remove_session_readers :
      (sub : Subscription) (j : ℕ)
      → is_subscribed sub (lookup j (remove_session_readers s r).0.readers) ≡ (
          if s == sub.session_id && contains affected_of j
          then false
          else is_subscribed sub (lookup j r.readers))
  unfolding remove_session_readers contains
  is_subscribed-remove_session_readers sub j =
      is_subscribed-without_all sub j _ _
        (leave_readers-Listed s affected_of r.readers [] v.occupied)
      ∙ is_subscribed-leave_readers s sub j affected_of r.readers []

  -- `remove_session` keeps the maps of the reader registry in agreement: a key stands for a reader
  -- of its topic, a subscription for a reader that lists its session, and every reader has a
  -- subscriber, none twice, and stands once under its own id.
  pub remove_session_readers-IsReaders : IsReaders (remove_session_readers s r).0
  unfolding remove_session_readers contains
  remove_session_readers-IsReaders =
      let kept =
        leave_readers-KeptReaders s affected_of r.readers []
          (record { once = v.no_repeats; own_ids = v.ids; single = v.one_entry }) in
      let l = leave_readers-Listed s affected_of r.readers [] v.occupied in
      record {
        shared =
            All-retained _ _ _
              (λ key id kept p.
                rw
                  (
                    lookup-without_all _ id _,
                    kept,
                    serves-leave_readers s key id affected_of r.readers [],
                  )
                  p)
              r.key_to_reader v.shared;
        subscribed = λ sub id e. rw (is_subscribed-remove_session_readers sub id) (
            ground
              (arith, lookup-affected_readers s sub r.session_subscriptions, v.subscribed sub id));
        occupied = λ id. rw (lookup-without_all _ id _) (ground (arith, l id));
        no_repeats = λ id. rw (lookup-without_all _ id _) (ground (arith, kept.once id));
        ids = λ id. rw (lookup-without_all _ id _) (ground (arith, kept.own_ids id));
        one_entry = is_map-without_all _ _ kept.single;
      }
