-- ===== src/Dds/Writer/Entity.antt =====
-- `DdsWriter` of src/dds/writer.rs: its creation and its calls of the C library.
use cyclone_dds_ws_bridge.Base.{Bytes, List, Option, Result, err, if◌then◌else◌, ok, ℕ}
use cyclone_dds_ws_bridge.Base.Int.{is_negative, ℤ}
use cyclone_dds_ws_bridge.Dds.Api.{Dds, from_bytes}
use cyclone_dds_ws_bridge.Dds.Errors.{DdsError}
use cyclone_dds_ws_bridge.Dds.Participant.{Topic}
use cyclone_dds_ws_bridge.Dds.QosHandle.{QsetCall}
use cyclone_dds_ws_bridge.Dds.Writer.{DdsWriter, next_writer_id}
use cyclone_dds_ws_bridge.Qos.Policy.{QosSet}

module _ (d : Dds) where
  unfoldable pub created_writer :
      Topic → QosSet → ℕ → ℤ × d.World → Result DdsError DdsWriter × ℕ × d.World
  created_writer topic qos_normalized counter (handle, w) =
      if is_negative handle
      then (err (DdsError.create_writer handle), counter, w)
      else let (writer_id, counter') = next_writer_id counter in
        (
          ok (record {
            handle = handle;
            writer_id = writer_id;
            topic = topic;
            qos_normalized = qos_normalized;
          }),
          counter',
          w,
        )

  -- `DdsWriter::new`, with the counter `NEXT_WRITER_ID`.
  unfoldable pub new_writer :
      ℤ
      → Topic
      → Option (List QsetCall)
      → QosSet
      → ℕ
      → d.World
      → Result DdsError DdsWriter × ℕ × d.World
  unfolding created_writer
  new_writer participant topic qos qos_normalized counter w =
      created_writer topic qos_normalized counter
        (d.dds_create_writer w participant topic.handle qos)

  -- `if rc < 0 { return Err(..) }`
  unfoldable pub checked_rc : (ℤ → DdsError) → ℤ × d.World → Result DdsError (Unit {0}) × d.World
  checked_rc error (rc, w) = if is_negative rc then (err (error rc), w) else (ok tt, w)

  unfoldable pub write : DdsWriter → Bytes → Bytes → d.World → Result DdsError (Unit {0}) × d.World
  unfolding checked_rc
  write writer content key_bytes w =
      checked_rc (λ rc. DdsError.write rc)
        (d.dds_write w writer.handle (from_bytes content key_bytes))

  unfoldable pub dispose :
      DdsWriter → Bytes → Bytes → d.World → Result DdsError (Unit {0}) × d.World
  unfolding checked_rc
  dispose writer key_data key_bytes w =
      checked_rc (λ rc. DdsError.dispose rc)
        (d.dds_dispose w writer.handle (from_bytes key_data key_bytes))

  unfoldable pub write_dispose :
      DdsWriter → Bytes → Bytes → d.World → Result DdsError (Unit {0}) × d.World
  unfolding checked_rc
  write_dispose writer content key_bytes w =
      checked_rc (λ rc. DdsError.write_dispose rc)
        (d.dds_writedispose w writer.handle (from_bytes content key_bytes))
