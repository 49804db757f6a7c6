-- ===== src/Dds/Participant/Laws.antt =====
-- What a client of `DdsParticipant` can rely on.
use cyclone_dds_ws_bridge.Base.{
  Bool, Bool-cases, Bytes, Option, Option-cases, arith, false, inl, inr, list_eq, nat_eq, none,
  pair_beq_iff, pair_eq, refl, some, true, ◌==◌, ◌↔◌, ◌≡◌, ◌≢◌,
}
use cyclone_dds_ws_bridge.Base.Assoc.{Assoc, lookup, lookup-insert}
use cyclone_dds_ws_bridge.Base.Int.{is_negative, pos, ℤ}
use cyclone_dds_ws_bridge.Base.Outcomes.{done, panicked}
use cyclone_dds_ws_bridge.Dds.Api.{Dds}
use cyclone_dds_ws_bridge.Dds.Participant.{
  DdsParticipant, Topic, cached_or_created, create_topic, created_topic, get_or_create_topic,
  register_topic,
}
use cyclone_dds_ws_bridge.Dds.Sertype.{create_opaque_sertype, has_nul}
use cyclone_dds_ws_bridge.Protocol.Keys.{KeyDescriptors}
use cyclone_dds_ws_bridge.Qos.Normalize.{policy_eq}

-- The topic that is asked for, before it has a handle.
abbrev asked : Bytes → Bytes → Bool → KeyDescriptors → Topic
asked topic_name type_name is_keyed keys = record {
  handle = pos 0;
  topic_name = topic_name;
  type_name = type_name;
  is_keyed = is_keyed;
  key_descriptors = keys;
}

-- Every topic of the cache has the names that it is cached under.
abbrev pub Named : Assoc (Bytes × Bytes) Topic → Type 0
Named topics =
    (topic_name type_name : Bytes) (t : Topic)
    → lookup (topic_name, type_name) topics ≡ some t
    → (t.topic_name ≡ topic_name) × (t.type_name ≡ type_name)

module _ (d : Dds) where
  -- A topic that a call returns stands in the cache that the call leaves.
  created_lem :
      (p : DdsParticipant) (t : Topic) (made : ℤ × d.World) {u : Topic}
      → (created_topic d p t made).0 ≡ done u
      → lookup (t.topic_name, t.type_name) (created_topic d p t made).1.topics ≡ some u
  unfolding created_topic
  created_lem p t (handle, w) h = elim (Bool-cases (is_negative handle)) [
    | inl refused ↦ absurd (ground (arith, refused))
    | inr made ↦
        let k : Bytes × Bytes = (t.topic_name, t.type_name) in
        let itself : (k == k) ≡ true = (pair_beq_iff k k).1 refl in
        rw
          (
            made,
            lookup-insert (t.topic_name, t.type_name) (t.topic_name, t.type_name)
                (record t { handle = handle }) p.topics,
            itself,
          )
          (ground (arith, made))
  ]

  created_total :
      (p : DdsParticipant) (t : Topic) (made : ℤ × d.World)
      → (created_topic d p t made).0 ≢ panicked
  unfolding created_topic
  created_total p t (handle, w) h = ground (arith, h)

  cached_lem :
      (p : DdsParticipant) (t : Topic) (w : d.World) (c : Option Topic) {u : Topic}
      → lookup (t.topic_name, t.type_name) p.topics ≡ c
      → (cached_or_created d p t w c).0 ≡ done u
      → lookup (t.topic_name, t.type_name) (cached_or_created d p t w c).1.topics ≡ some u
  unfolding cached_or_created create_topic create_opaque_sertype register_topic
  cached_lem p t w (some x) e h = ground (arith, e, h)
  cached_lem p t w none e h = elim (Bool-cases (has_nul t.topic_name)) [
    | inl nul ↦ absurd (ground (arith, nul))
    | inr name ↦ elim (Bool-cases (has_nul t.type_name)) [
      | inl nul ↦ absurd (ground (arith, name, nul))
      | inr type ↦ rw (name, type) (created_lem p t _ (ground (arith, name, type)))
    ]
  ]

  created-Named :
      (p : DdsParticipant) (t : Topic) (made : ℤ × d.World)
      → Named p.topics
      → Named (created_topic d p t made).1.topics
  unfolding created_topic
  created-Named p t (handle, w) names = elim (Bool-cases (is_negative handle)) [
    | inl refused ↦ rw refused names
    | inr made ↦ rw made (λ topic_name type_name u e. ground (
      arith,
      lookup-insert (t.topic_name, t.type_name) (topic_name, type_name)
          (record t { handle = handle }) p.topics,
      pair_beq_iff (t.topic_name, t.type_name) (topic_name, type_name),
      names topic_name type_name u,
      e,
    ))
  ]

  cached-Named :
      (p : DdsParticipant) (t : Topic) (w : d.World) (c : Option Topic)
      → Named p.topics
      → Named (cached_or_created d p t w c).1.topics
  unfolding cached_or_created create_topic create_opaque_sertype register_topic
  cached-Named p t w (some x) names = names
  cached-Named p t w none names = elim (Bool-cases (has_nul t.topic_name)) [
    | inl nul ↦ rw nul names
    | inr name ↦ elim (Bool-cases (has_nul t.type_name)) [
      | inl nul ↦ rw (name, nul) names
      | inr type ↦ rw (name, type) (created-Named p t _ names)
    ]
  ]

  -- The cache stays in order, and the topic that is returned has the names asked for.
  pub get_or_create_topic-Named :
      (p : DdsParticipant) (topic_name type_name : Bytes) (is_keyed : Bool) (keys : KeyDescriptors)
      (w : d.World)
      → Named p.topics
      → (let (outcome, p', w') = get_or_create_topic d p topic_name type_name is_keyed keys w in
          Named p'.topics
          × ((u : Topic)
              → outcome ≡ done u
              → (u.topic_name ≡ topic_name) × (u.type_name ≡ type_name)))
  unfolding get_or_create_topic
  get_or_create_topic-Named p topic_name type_name is_keyed keys w names =
      let t = asked topic_name type_name is_keyed keys in
      let after = cached-Named p t w (lookup (topic_name, type_name) p.topics) names in
      (after, λ u e. after topic_name type_name u (cached_lem p t w _ refl e))

  -- Once a call has returned a topic, a next call with the same names returns that topic whatever
  -- key descriptors come with it, and changes neither the cache nor the C library.
  pub get_or_create_topic-get_or_create_topic :
      (p : DdsParticipant) (topic_name type_name : Bytes) (is_keyed is_keyed' : Bool)
      (keys keys' : KeyDescriptors) (w : d.World) (u : Topic)
      → (get_or_create_topic d p topic_name type_name is_keyed keys w).0 ≡ done u
      → (let (first, p', w') = get_or_create_topic d p topic_name type_name is_keyed keys w in
          get_or_create_topic d p' topic_name type_name is_keyed' keys' w' ≡ (done u, p', w'))
  unfolding get_or_create_topic
  get_or_create_topic-get_or_create_topic p topic_name type_name is_keyed is_keyed' keys keys' w u
        h =
      rw (cached_lem p (asked topic_name type_name is_keyed keys) w _ refl h, cached_or_created)
        refl

  -- `get_or_create_topic` panics exactly when the topic is not cached, its name has no NUL byte
  -- and the type name has one.
  pub get_or_create_topic_panics_iff :
      (p : DdsParticipant) (topic_name type_name : Bytes) (is_keyed : Bool) (keys : KeyDescriptors)
      (w : d.World)
      → ((get_or_create_topic d p topic_name type_name is_keyed keys w).0 ≡ panicked) ↔ (
          (lookup (topic_name, type_name) p.topics ≡ none)
          × (has_nul topic_name ≡ false)
          × (has_nul type_name ≡ true))
  unfolding get_or_create_topic cached_or_created create_topic create_opaque_sertype register_topic
  get_or_create_topic_panics_iff p topic_name type_name is_keyed keys w =
      elim (Option-cases (lookup (topic_name, type_name) p.topics)) [
        | inl miss ↦ elim (Bool-cases (has_nul topic_name)) [
          | inl nul ↦ rw (miss, nul) (ground (arith, nul))
          | inr name ↦ elim (Bool-cases (has_nul type_name)) [
            | inl nul ↦ rw (miss, name, nul) (ground (arith, name, nul))
            | inr type ↦
                rw (miss, name, type)
                  (
                    λ e. absurd (created_total p (asked topic_name type_name is_keyed keys) _ e),
                    λ c. absurd (ground (arith, c)),
                  )
          ]
        ]
        | inr (t, hit) ↦ rw hit (ground arith)
      ]
