-- ===== src/Dds/Participant.antt =====
-- `DdsParticipant` of src/dds/participant.rs: the cache of topics.
pub mod Laws
use cyclone_dds_ws_bridge.Base.{
  Bool, Bytes, Option, Result, [], err, if◌then◌else◌, list_eq, nat_eq, none, ok, pair_eq, some, ℕ,
}
use cyclone_dds_ws_bridge.Base.Assoc.{Assoc, insert, lookup}
use cyclone_dds_ws_bridge.Base.Int.{is_negative, pos, ℤ}
use cyclone_dds_ws_bridge.Base.Outcomes.{Outcome, done, failed, panicked}
use cyclone_dds_ws_bridge.Dds.Api.{Dds}
use cyclone_dds_ws_bridge.Dds.Errors.{DdsError}
use cyclone_dds_ws_bridge.Dds.Sertype.{OpaqueSertype, create_opaque_sertype, has_nul}
use cyclone_dds_ws_bridge.Protocol.Keys.{KeyDescriptors}
use cyclone_dds_ws_bridge.Qos.Normalize.{policy_eq}

pub record Topic : Type 0 where
  pub handle : ℤ
  pub topic_name : Bytes
  pub type_name : Bytes
  pub is_keyed : Bool
  pub key_descriptors : KeyDescriptors

pub record DdsParticipant : Type 0 where
  pub handle : ℤ
  -- by (topic_name, type_name)
  pub topics : Assoc (Bytes × Bytes) Topic

-- Every call also says which world it leaves.
module _ (d : Dds) where
  -- `dds_create_topic_sertype`, and what follows it.
  created_topic :
      DdsParticipant → Topic → ℤ × d.World → Outcome DdsError Topic × DdsParticipant × d.World
  created_topic p t (handle, w) =
      if is_negative handle
      then (failed (DdsError.create_topic handle), p, w)
      else let topic : Topic = record t { handle = handle } in
        (done topic, record p { topics = insert (t.topic_name, t.type_name) topic p.topics }, w)

  register_topic :
      DdsParticipant
      → Topic
      → d.World
      → Outcome DdsError OpaqueSertype
      → Outcome DdsError Topic × DdsParticipant × d.World
  unfolding created_topic
  register_topic p t w (done sertype) =
      created_topic p t (d.dds_create_topic_sertype w p.handle t.topic_name sertype)
  register_topic p t w (failed e) = (failed e, p, w)
  register_topic p t w panicked = (panicked, p, w)

  -- After a miss in the cache.
  create_topic :
      DdsParticipant → Topic → d.World → Outcome DdsError Topic × DdsParticipant × d.World
  unfolding register_topic
  create_topic p t w =
      if has_nul t.topic_name
      then (failed (DdsError.invalid_name t.topic_name), p, w)
      else register_topic p t w (create_opaque_sertype t.type_name t.is_keyed t.key_descriptors)

  cached_or_created :
      DdsParticipant
      → Topic
      → d.World
      → Option Topic
      → Outcome DdsError Topic × DdsParticipant × d.World
  unfolding create_topic
  cached_or_created p t w (some topic) = (done topic, p, w)
  cached_or_created p t w none = create_topic p t w

  unfoldable pub get_or_create_topic :
      DdsParticipant
      → Bytes
      → Bytes
      → Bool
      → KeyDescriptors
      → d.World
      → Outcome DdsError Topic × DdsParticipant × d.World
  unfolding cached_or_created
  get_or_create_topic p topic_name type_name is_keyed key_descriptors w =
      cached_or_created p
        (record {
          handle = pos 0;
          topic_name = topic_name;
          type_name = type_name;
          is_keyed = is_keyed;
          key_descriptors = key_descriptors;
        })
        w (lookup (topic_name, type_name) p.topics)

-- `domain_id.unwrap_or(DDS_DOMAIN_DEFAULT)`
abbrev domain_or : ℕ → Option ℕ → ℕ
domain_or default_domain none = default_domain
domain_or default_domain (some domain_id) = domain_id

module _ {W : Type 0} where
  unfoldable pub created_participant : ℤ × W → Result DdsError DdsParticipant × W
  created_participant (handle, w) =
      if is_negative handle
      then (err (DdsError.create_participant handle), w)
      else (ok (record { handle = handle; topics = [] }), w)

  -- `DdsParticipant::new`, with `dds_create_participant` and `DDS_DOMAIN_DEFAULT` of the library.
  unfoldable pub new_participant :
      (ℕ → W → ℤ × W) → ℕ → Option ℕ → W → Result DdsError DdsParticipant × W
  unfolding created_participant
  new_participant dds_create_participant default_domain domain_id w =
      created_participant (dds_create_participant (domain_or default_domain domain_id) w)
