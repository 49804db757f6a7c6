-- ===== src/Bridge/Foreign/Names.antt =====
-- The writers that requests to src/bridge.rs name by their ids.
use cyclone_dds_ws_bridge.Base.{
  Bytes, Option, Result, arith, err, list_eq, nat_eq, none, ok, pair_eq, refl, some, some_inj, ℕ,
  ◌≡◌,
}
use cyclone_dds_ws_bridge.Base.Assoc.{lookup}
use cyclone_dds_ws_bridge.Base.Buf.{Buf}
use cyclone_dds_ws_bridge.Bridge.Handler.Replies.{writer_error_code}
use cyclone_dds_ws_bridge.Bridge.Invariant.{owned}
use cyclone_dds_ws_bridge.Dds.Errors.{DdsError}
use cyclone_dds_ws_bridge.Dds.Readers.{reader_key_eq, subscription_eq}
use cyclone_dds_ws_bridge.Dds.Writer.{DdsWriter, WriterRegistry, checked_writer, get_writer}
use cyclone_dds_ws_bridge.Protocol.Codes.{ErrorCode, MsgType}
use cyclone_dds_ws_bridge.Protocol.Errors.{ProtocolError}
use cyclone_dds_ws_bridge.Protocol.Messages.{
  DeleteWriterPayload, WriteMode, WriterIdMode, by_topic_name, by_writer_id,
}
use cyclone_dds_ws_bridge.Protocol.Parse.{parse_delete_writer, parse_write_mode}
use cyclone_dds_ws_bridge.Qos.Normalize.{policy_eq}

-- The writer that a write names, if it names one by id.
abbrev pub by_id : Result ProtocolError WriteMode → Option ℕ
by_id (ok (by_writer_id m)) = some m.writer_id
by_id _ = none

abbrev pub deleted_id : Result ProtocolError DeleteWriterPayload → Option ℕ
deleted_id (ok p) = some p.writer_id
deleted_id (err e) = none

module _ ⦃b : Buf⦄ where
  -- The id of the writer that a request is about.
  abbrev pub named_writer : MsgType → Bytes → Option ℕ
  named_writer MsgType.write payload = by_id (parse_write_mode payload)
  named_writer MsgType.dispose payload = by_id (parse_write_mode payload)
  named_writer MsgType.write_dispose payload = by_id (parse_write_mode payload)
  named_writer MsgType.delete_writer payload = deleted_id (parse_delete_writer payload)
  named_writer _ payload = none

checked_writer-owned :
    (wid session_id : ℕ) (entry : Option (DdsWriter × ℕ))
    → owned session_id entry ≡ none
    → (e : DdsError) × (checked_writer wid session_id entry ≡ err e)
      × (writer_error_code e ≡ ErrorCode.writer_not_found)
unfolding writer_error_code
checked_writer-owned wid session_id none h = (DdsError.writer_not_found wid, refl, refl)
checked_writer-owned wid session_id (some (w, owner)) h =
    (DdsError.writer_ownership wid, ground arith, refl)

pub get_writer-owned :
    (wid session_id : ℕ) (r : WriterRegistry)
    → owned session_id (lookup wid r.writers) ≡ none
    → (e : DdsError) × (get_writer wid session_id r ≡ err e)
      × (writer_error_code e ≡ ErrorCode.writer_not_found)
unfolding get_writer
get_writer-owned wid session_id r h = checked_writer-owned wid session_id (lookup wid r.writers) h

pub by_id-eq-some :
    (r : Result ProtocolError WriteMode) {wid : ℕ}
    → by_id r ≡ some wid
    → (m : WriterIdMode) × (r ≡ ok (by_writer_id m)) × (m.writer_id ≡ wid)
by_id-eq-some (ok (by_writer_id m)) e = (m, refl, some_inj e)
by_id-eq-some (ok (by_topic_name m)) e = cc
by_id-eq-some (err error) e = cc

pub deleted_id-eq-some :
    (r : Result ProtocolError DeleteWriterPayload) {wid : ℕ}
    → deleted_id r ≡ some wid
    → (p : DeleteWriterPayload) × (r ≡ ok p) × (p.writer_id ≡ wid)
deleted_id-eq-some (ok p) e = (p, refl, some_inj e)
deleted_id-eq-some (err error) e = cc
