-- ===== src/Dds/Readers/Invariant/Released.antt =====
-- Which readers `remove_session` of src/dds/reader.rs releases.
use cyclone_dds_ws_bridge.Base.{
  Bool-cases, List, Option-cases, [], arith, false, if◌then◌else◌, inl, inr, list_eq, nat_beq,
  nat_eq, none, pair_eq, refl, some, subst, sym, true, ℕ, ◌==◌, ◌↔◌, ◌∷◌, ◌≡◌, ◌⊎◌,
}
use cyclone_dds_ws_bridge.Base.Assoc.{Assoc, lookup, lookup-without, without}
use cyclone_dds_ws_bridge.Base.Sets.{contains, contains-set_insert}
use cyclone_dds_ws_bridge.Dds.Readers.{
  ReaderRegistry, Subscription, reader_key_eq, subscription_beq, subscription_beq_iff,
  subscription_eq,
}
use cyclone_dds_ws_bridge.Dds.Readers.Cleanup.{
  affected_readers, or_insert, remove_session_readers, sub_keys,
}
use cyclone_dds_ws_bridge.Dds.Readers.Invariant.{IsReaders, is_subscribed}
use cyclone_dds_ws_bridge.Dds.Readers.Invariant.Leave.{
  contains-sub_keys, is_subscribed-remove_session_readers, lookup-affected_readers,
  sub_keys-session,
}
use cyclone_dds_ws_bridge.Qos.Normalize.{policy_eq}

-- The readers that the first loop of `remove_session` collects.
affected_kept :
    (keys : List Subscription) (m : Assoc Subscription ℕ) (ids : List ℕ) (j : ℕ)
    → contains ids j ≡ true
    → contains (affected_readers keys m ids).1 j ≡ true
unfolding affected_readers or_insert
affected_kept [] m ids j h = h
affected_kept (key ∷ keys) m ids j h =
    affected_kept keys (without key m) (or_insert (lookup key m) ids) j
      (elim (Option-cases (lookup key m)) [
        | inl absent ↦ rw absent h
        | inr (id, present) ↦ rw (present, contains-set_insert id j ids, h) (ground arith)
      ])

affected_found :
    (keys : List Subscription) (m : Assoc Subscription ℕ) (ids : List ℕ) (sub : Subscription)
    (j : ℕ)
    → contains keys sub ≡ true
    → lookup sub m ≡ some j
    → contains (affected_readers keys m ids).1 j ≡ true
unfolding affected_readers contains or_insert
affected_found [] m ids sub j h e = absurd (ground arith)
affected_found (key ∷ keys) m ids sub j h e = elim (Bool-cases (subscription_beq key sub)) [
  | inl same ↦
      let at : lookup key m ≡ some j =
        subst (λ k. lookup k m ≡ some j) (sym ((subscription_beq_iff key sub).0 same)) e in
      affected_kept keys (without key m) (or_insert (lookup key m) ids) j
        (rw (at, or_insert, contains-set_insert j j ids) (ground arith))
  | inr other ↦
      affected_found keys (without key m) (or_insert (lookup key m) ids) sub j (ground arith)
        (rw (lookup-without key sub m, other) e)
]

affected_sound :
    (keys : List Subscription) (m : Assoc Subscription ℕ) (ids : List ℕ) (j : ℕ)
    → contains (affected_readers keys m ids).1 j ≡ true
    → (contains ids j ≡ true)
      ⊎ ((sub : Subscription) × (contains keys sub ≡ true) × (lookup sub m ≡ some j))
unfolding affected_readers contains or_insert
affected_sound [] m ids j h = inl h
affected_sound (key ∷ keys) m ids j h =
    elim (affected_sound keys (without key m) (or_insert (lookup key m) ids) j h) [
      | inl old ↦ elim (Option-cases (lookup key m)) [
        | inl absent ↦ inl (ground (arith, absent, old))
        | inr (id, present) ↦ elim (Bool-cases (nat_beq id j)) [
          | inl same ↦
              inr (key, ground (arith, subscription_beq_iff key key), ground (arith, present))
          | inr other ↦ inl (ground (arith, present, old, contains-set_insert id j ids))
        ]
      ]
      | inr (sub, listed, found) ↦
          inr (sub, ground arith, ground (arith, found, lookup-without key sub m))
    ]

module _ (r : ReaderRegistry) (v : IsReaders r) where
  -- In a registry whose maps agree, `remove_session` releases a reader that lists the session
  -- exactly if some recorded subscription of the session stands for that reader: a reader whose
  -- record was overwritten keeps the session.
  pub is_subscribed-remove_session_readers_iff :
      (sub : Subscription) (j : ℕ)
      → is_subscribed sub (lookup j r.readers) ≡ true
      → (is_subscribed sub (lookup j (remove_session_readers sub.session_id r).0.readers) ≡ false)
        ↔ ((other : Subscription) × (other.session_id ≡ sub.session_id)
            × (lookup other r.session_subscriptions ≡ some j))
  unfolding contains
  is_subscribed-remove_session_readers_iff sub j h =
      let after = is_subscribed-remove_session_readers r v sub.session_id sub j in
      let keys = sub_keys sub.session_id r.session_subscriptions in
      (
        λ e. elim (affected_sound keys r.session_subscriptions [] j (ground (arith, after, e, h))) [
          | inl impossible ↦ absurd (ground (arith, impossible))
          | inr (other, listed, found) ↦
              (other, sub_keys-session sub.session_id other r.session_subscriptions listed, found)
        ],
        λ (other, own, found).
            let listed =
              contains-sub_keys sub.session_id other j r.session_subscriptions own found in
            let released = affected_found keys r.session_subscriptions [] other j listed found in
            ground (arith, after, released),
      )

  -- No recorded subscription is served after its session is gone.
  pub unserved-remove_session_readers :
      (sub : Subscription) (id : ℕ)
      → lookup sub r.session_subscriptions ≡ some id
      → is_subscribed sub (lookup id (remove_session_readers sub.session_id r).0.readers) ≡ false
  unserved-remove_session_readers sub id e =
      (is_subscribed-remove_session_readers_iff sub id (v.subscribed sub id e)).1 (sub, refl, e)

pub recorded-remove_session_readers :
    (session_id : ℕ) (sub : Subscription) (r : ReaderRegistry)
    → lookup sub (remove_session_readers session_id r).0.session_subscriptions
      ≡ (if sub.session_id == session_id then none else lookup sub r.session_subscriptions)
unfolding remove_session_readers
recorded-remove_session_readers session_id sub r =
    lookup-affected_readers session_id sub r.session_subscriptions
