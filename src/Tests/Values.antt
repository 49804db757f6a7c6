-- ===== src/Tests/Values.antt =====
-- Concrete inputs for the tests, with the proofs that they are what the claims ask for.
use cyclone_dds_ws_bridge.Base.{Bytes, [], arith, false, none, refl, some, true, ℕ, ◌+◌, ◌∷◌}
use cyclone_dds_ws_bridge.Base.Int.{pos}
use cyclone_dds_ws_bridge.Base.Text.{codes}
use cyclone_dds_ws_bridge.Base.Utf8.{utf8_error}
use cyclone_dds_ws_bridge.Dds.Api.{Dds}
use cyclone_dds_ws_bridge.Dds.Participant.{Topic}
use cyclone_dds_ws_bridge.Dds.Writer.{DdsWriter}
use cyclone_dds_ws_bridge.Protocol.Keys.{KeyDescriptors, int32}
use cyclone_dds_ws_bridge.Protocol.Keys.RoundTrip.{IsKeyDescriptors}
use cyclone_dds_ws_bridge.Protocol.Reader.Laws.{IsText}
use cyclone_dds_ws_bridge.Qos.Policy.{QosSet, durability, partition, policy_id, reliability}
use cyclone_dds_ws_bridge.Qos.Valid.{IsQosSet}

abbrev pub square : Bytes
square = codes "Square"

abbrev pub shape : Bytes
shape = codes "ShapeType"

pub square-IsText : IsText square
unfolding utf8_error codes
square-IsText = record { utf8 = refl; short = omega arith }

pub shape-IsText : IsText shape
unfolding utf8_error codes
shape-IsText = record { utf8 = refl; short = omega arith }

abbrev pub reliable : QosSet
reliable = record { policies = reliability 1 200 ∷ partition (square ∷ []) ∷ durability 0 ∷ [] }

pub reliable-IsQosSet : IsQosSet reliable
unfolding policy_id
reliable-IsQosSet = record {
  few = omega arith;
  valid = ((omega arith, omega arith), ((omega arith, (square-IsText, tt)), (omega arith, tt)));
  distinct = ((omega arith, (omega arith, tt)), ((omega arith, tt), (tt, tt)));
}

abbrev pub color_key : KeyDescriptors
color_key = record { keys = record { offset = 0; size = 4; type_hint = int32 } ∷ [] }

pub color_key-IsKeyDescriptors : IsKeyDescriptors color_key
color_key-IsKeyDescriptors = record {
  few = omega arith;
  fields = (record { offset_u32 = omega arith; size_u32 = omega arith }, tt);
}

-- A C library that never fails: the world is the number of the next entity.
abbrev pub obliging : Dds
obliging = record {
  World = ℕ;
  dds_create_qos = λ w. true;
  dds_create_topic_sertype = λ w p name sertype. (pos w, w + 1);
  dds_create_writer = λ w p topic qos. (pos w, w + 1);
  dds_create_reader = λ w p topic qos. (pos w, w + 1);
  dds_write = λ w h sample. (pos 0, w);
  dds_dispose = λ w h sample. (pos 0, w);
  dds_writedispose = λ w h sample. (pos 0, w);
  dds_take = λ w h. (none, w);
  dds_delete = λ w h. w;
  try_send = λ w sender msg. (true, w);
}

abbrev pub square_topic : Topic
square_topic = record {
  handle = pos 7;
  topic_name = square;
  type_name = shape;
  is_keyed = true;
  key_descriptors = color_key;
}

abbrev pub square_writer : DdsWriter
square_writer = record {
  handle = pos 9;
  writer_id = 1;
  topic = square_topic;
  qos_normalized = reliable;
}

-- A C library that always has one more disposed instance.
abbrev pub chatty : Dds
chatty = record obliging {
  dds_take = λ w h. (
    some (record {
      instance_state = 2;
      valid_data = false;
      source_timestamp = pos w;
      sample = some (1 ∷ []);
    }),
    w + 1,
  );
}
