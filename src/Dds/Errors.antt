-- ===== src/Dds/Errors.antt =====
-- `DdsError` of src/dds/error.rs, with its texts.
use cyclone_dds_ws_bridge.Base.{Bytes, ℕ, ◌++◌}
use cyclone_dds_ws_bridge.Base.Int.{decimal_ℤ, ℤ}
use cyclone_dds_ws_bridge.Base.Text.{codes, decimal}

pub data DdsError : Type 0 where
  create_participant create_topic create_writer create_reader : ℤ → DdsError
  write dispose write_dispose read : ℤ → DdsError
  invalid_name : Bytes → DdsError
  writer_not_found writer_ownership : ℕ → DdsError

-- `to_string`
pub dds_error_text : DdsError → Bytes
dds_error_text (DdsError.create_participant rc) =
    codes "failed to create DomainParticipant: DDS error code " ++ decimal_ℤ rc
dds_error_text (DdsError.create_topic rc) =
    codes "failed to create topic: DDS error code " ++ decimal_ℤ rc
dds_error_text (DdsError.create_writer rc) =
    codes "failed to create writer: DDS error code " ++ decimal_ℤ rc
dds_error_text (DdsError.create_reader rc) =
    codes "failed to create reader: DDS error code " ++ decimal_ℤ rc
dds_error_text (DdsError.write rc) = codes "DDS write failed: error code " ++ decimal_ℤ rc
dds_error_text (DdsError.dispose rc) = codes "DDS dispose failed: error code " ++ decimal_ℤ rc
dds_error_text (DdsError.write_dispose rc) =
    codes "DDS writedispose failed: error code " ++ decimal_ℤ rc
dds_error_text (DdsError.read rc) = codes "DDS read/take failed: error code " ++ decimal_ℤ rc
dds_error_text (DdsError.invalid_name name) = codes "invalid name: " ++ name
dds_error_text (DdsError.writer_not_found id) = codes "writer not found: " ++ decimal id
dds_error_text (DdsError.writer_ownership id) =
    codes "writer ownership violation: writer "
    ++ (decimal id ++ codes " belongs to another session")
