-- ===== src/Dds/Api.antt =====
-- The C library that src/dds calls through its generated bindings, and the channels of tokio that the
-- bridge sends on, as a parameter: an abstract world and the calls that change it. A negative handle
-- or return code is an error.
use cyclone_dds_ws_bridge.Base.{Bool, Bytes, List, Option, [], none, some, ℕ, ◌∷◌}
use cyclone_dds_ws_bridge.Base.Int.{ℤ}
use cyclone_dds_ws_bridge.Dds.QosHandle.{QsetCall}
use cyclone_dds_ws_bridge.Dds.Sertype.{OpaqueSertype}

-- A sample as it is passed to the library: the payload and the key bytes, null if there are none.
pub record SampleWrapper : Type 0 where
  pub content : Bytes
  pub key_bytes : Option Bytes

abbrev non_empty : Bytes → Option Bytes
non_empty [] = none
non_empty (x ∷ xs) = some (x ∷ xs)

-- `SampleWrapper::from_bytes`
unfoldable pub from_bytes : Bytes → Bytes → SampleWrapper
from_bytes content key_bytes = record { content = content; key_bytes = non_empty key_bytes }

-- What one call of `dds_take` yields, if it yields a sample.
pub record Taken : Type 0 where
  pub instance_state : ℕ
  pub valid_data : Bool
  pub source_timestamp : ℤ
  pub sample : Option Bytes

pub record Dds : Type 1 where
  pub World : Type 0
  pub dds_create_qos : World → Bool
  pub dds_create_topic_sertype : World → ℤ → Bytes → OpaqueSertype → ℤ × World
  pub dds_create_writer : World → ℤ → ℤ → Option (List QsetCall) → ℤ × World
  pub dds_create_reader : World → ℤ → ℤ → Option (List QsetCall) → ℤ × World
  pub dds_write : World → ℤ → SampleWrapper → ℤ × World
  pub dds_dispose : World → ℤ → SampleWrapper → ℤ × World
  pub dds_writedispose : World → ℤ → SampleWrapper → ℤ × World
  pub dds_take : World → ℤ → Option Taken × World
  pub dds_delete : World → ℤ → World
  -- `try_send` on a channel: false where it is full or closed.
  pub try_send : World → ℕ → Bytes → Bool × World

-- The drops of several entities, in order.
unfoldable pub delete_all : (d : Dds) → List ℤ → d.World → d.World
delete_all d [] w = w
delete_all d (h ∷ hs) w = delete_all d hs (d.dds_delete w h)
