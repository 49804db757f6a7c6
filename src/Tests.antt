-- ===== src/Tests.antt =====
-- The claims at concrete inputs. Texts are ASCII.
pub mod Values
pub mod Registries
pub mod Bridge
pub mod Sessions
pub mod Start
pub mod Ws
pub mod Serdata
use cyclone_dds_ws_bridge.Base.{
  Bytes, [], arith, list_eq, nat_eq, ok, pair_eq, refl, true, ◌++◌, ◌↔◌, ◌∷◌, ◌≡◌,
}
use cyclone_dds_ws_bridge.Base.Buf.{slice_buf}
use cyclone_dds_ws_bridge.Base.Sets.{contains, is_set}
use cyclone_dds_ws_bridge.Base.Text.{codes}
use cyclone_dds_ws_bridge.Base.Words.{AllBytes}
use cyclone_dds_ws_bridge.Dds.Readers.{reader_key_eq, subscription_eq}
use cyclone_dds_ws_bridge.Protocol.Messages.{SubscribePayload, WriteMode, by_writer_id}
use cyclone_dds_ws_bridge.Protocol.Parse.{parse_subscribe, parse_write_mode}
use cyclone_dds_ws_bridge.Protocol.RoundTrip.Requests.{
  IsWriteMode, parse_subscribe-serialize_subscribe,
}
use cyclone_dds_ws_bridge.Protocol.Serialize.{serialize_subscribe, serialize_write_mode}
use cyclone_dds_ws_bridge.Protocol.Sound.{parse_write_mode-eq-ok_iff}
use cyclone_dds_ws_bridge.Qos.Codec.{parse_qos, serialize_qos}
use cyclone_dds_ws_bridge.Qos.Normalize.{normalized_eq, policy_beq, policy_eq}
use cyclone_dds_ws_bridge.Qos.Normalize.Equality.{SameNonDefaults, normalized_eq_iff}
use cyclone_dds_ws_bridge.Qos.Policy.{QosSet, durability, history, partition, reliability}
use cyclone_dds_ws_bridge.Qos.Sound.{parse_qos-eq-ok_iff}
use cyclone_dds_ws_bridge.Qos.Valid.{IsQosSet}
use cyclone_dds_ws_bridge.Tests.Values.{
  color_key, color_key-IsKeyDescriptors, reliable, reliable-IsQosSet, shape, shape-IsText, square,
  square-IsText,
}

abbrev subscribing : SubscribePayload
subscribing = record {
  topic_name = square;
  type_name = shape;
  qos = reliable;
  is_keyed = true;
  key_descriptors = color_key;
}

-- A set with one policy, and a byte that is left over.
parse_qos-eq-ok_iff_example :
    (parse_qos ⦃b = slice_buf⦄ (1 ∷ 2 ∷ 1 ∷ 5 ∷ [])
      ≡ ok (record { policies = durability 1 ∷ [] }, 5 ∷ []))
    ↔ (IsQosSet (record { policies = durability 1 ∷ [] })
        × (1 ∷ 2 ∷ 1 ∷ 5 ∷ []
            ≡ serialize_qos ⦃b = slice_buf⦄ (record { policies = durability 1 ∷ [] }) [] ++ 5 ∷ []))
parse_qos-eq-ok_iff_example =
    parse_qos-eq-ok_iff ⦃b = slice_buf⦄ (1 ∷ 2 ∷ 1 ∷ 5 ∷ [])
      (record { policies = durability 1 ∷ [] }) (5 ∷ [])
      (omega arith, (omega arith, (omega arith, (omega arith, tt))))

abbrev writing : WriteMode
writing = by_writer_id (record { writer_id = 3; key_bytes = 1 ∷ 2 ∷ []; content = 9 ∷ [] })

-- The mode, the id of the writer, the length of the key, the key and the content.
abbrev written_bytes : Bytes
written_bytes = 1 ∷ 3 ∷ 0 ∷ 0 ∷ 0 ∷ 2 ∷ 0 ∷ 0 ∷ 0 ∷ 1 ∷ 2 ∷ 9 ∷ []

written_bytes-AllBytes : AllBytes written_bytes
written_bytes-AllBytes = (
  omega arith,
  (
    omega arith,
    (
      omega arith,
      (
        omega arith,
        (
          omega arith,
          (
            omega arith,
            (
              omega arith,
              (omega arith, (omega arith, (omega arith, (omega arith, (omega arith, tt))))),
            ),
          ),
        ),
      ),
    ),
  ),
)

parse_write_mode-eq-ok_iff_example :
    (parse_write_mode ⦃b = slice_buf⦄ written_bytes ≡ ok writing)
    ↔ (IsWriteMode writing × (written_bytes ≡ serialize_write_mode ⦃b = slice_buf⦄ writing))
parse_write_mode-eq-ok_iff_example =
    parse_write_mode-eq-ok_iff ⦃b = slice_buf⦄ written_bytes writing written_bytes-AllBytes

parse_subscribe-serialize_subscribe_example :
    parse_subscribe ⦃b = slice_buf⦄ (serialize_subscribe ⦃b = slice_buf⦄ subscribing)
    ≡ ok subscribing
parse_subscribe-serialize_subscribe_example =
    parse_subscribe-serialize_subscribe ⦃b = slice_buf⦄ subscribing (record {
      topic_text = square-IsText;
      type_text = shape-IsText;
      qos_valid = reliable-IsQosSet;
      keys_valid = color_key-IsKeyDescriptors;
    })

-- Set explicitly to a default, and in another order.
abbrev explicit : QosSet
explicit = record { policies = partition (square ∷ []) ∷ history 0 1 ∷ reliability 1 200 ∷ [] }

reliable-is_set : is_set reliable.policies ≡ true
unfolding is_set contains policy_beq codes
reliable-is_set = refl

explicit-is_set : is_set explicit.policies ≡ true
unfolding is_set contains policy_beq codes
explicit-is_set = refl

normalized_eq_iff_example :
    (normalized_eq reliable explicit ≡ true) ↔ SameNonDefaults reliable explicit
normalized_eq_iff_example = normalized_eq_iff reliable explicit reliable-is_set explicit-is_set
