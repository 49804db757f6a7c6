-- ===== src/Bridge/Foreign.antt =====
-- Requests of src/bridge.rs that name a writer by its id.
pub mod Names
use cyclone_dds_ws_bridge.Base.{
  Bytes, List, Option, Result, [], list_eq, nat_eq, none, ok, pair_eq, refl, some, ℕ, ◌∙◌, ◌∷◌, ◌≡◌,
}
use cyclone_dds_ws_bridge.Base.Assoc.{lookup}
use cyclone_dds_ws_bridge.Base.Buf.{Buf}
use cyclone_dds_ws_bridge.Base.Outcomes.{Outcome, failed}
use cyclone_dds_ws_bridge.Bridge.{BridgeInner}
use cyclone_dds_ws_bridge.Bridge.Foreign.Names.{
  by_id, by_id-eq-some, deleted_id-eq-some, get_writer-owned, named_writer,
}
use cyclone_dds_ws_bridge.Bridge.Handler.{Handler, checked, ◌>>=◌, ◌>>◌}
use cyclone_dds_ws_bridge.Bridge.Handler.Laws.{bind-done, bind-failed}
use cyclone_dds_ws_bridge.Bridge.Handler.Replies.{make_error_response, parsed}
use cyclone_dds_ws_bridge.Bridge.Handler.Requests.{
  deleted, handle_delete_writer, handle_dispose, handle_message, handle_write, handle_write_dispose,
  handler_of, replies, writer_deleted,
}
use cyclone_dds_ws_bridge.Bridge.Handler.Writes.{WriteOp, do_write_op, own_writer}
use cyclone_dds_ws_bridge.Bridge.Invariant.{named, owned}
use cyclone_dds_ws_bridge.Dds.Api.{Dds}
use cyclone_dds_ws_bridge.Dds.Errors.{dds_error_text}
use cyclone_dds_ws_bridge.Dds.Readers.{reader_key_eq, subscription_eq}
use cyclone_dds_ws_bridge.Dds.Writer.{delete_writer}
use cyclone_dds_ws_bridge.Protocol.Codes.{ErrorCode, MsgType}
use cyclone_dds_ws_bridge.Protocol.Errors.{ProtocolError}
use cyclone_dds_ws_bridge.Protocol.Messages.{DeleteWriterPayload, WriterIdMode, by_writer_id}
use cyclone_dds_ws_bridge.Protocol.Parse.{
  parse_delete_writer, parse_dispose, parse_write, parse_write_dispose, parse_write_mode,
}
use cyclone_dds_ws_bridge.Qos.Normalize.{policy_eq}

module _ ⦃b : Buf⦄ {d : Dds} (session_id request_id : ℕ) (s : BridgeInner d) where
  -- The handler fails with WRITER_NOT_FOUND and has changed nothing.
  abbrev FailsUnknown {ℓ} : {A : Type ℓ} → Outcome Bytes A × BridgeInner d → Type ℓ
  FailsUnknown r =
      (text : Bytes) × (r
        ≡ (failed (make_error_response request_id ErrorCode.writer_not_found text), s))

  -- The request is answered by WRITER_NOT_FOUND alone, and changes nothing.
  abbrev pub IsUnknownWriter : Option (List Bytes) × BridgeInner d → Type 0
  IsUnknownWriter r =
      (text : Bytes) × (r
        ≡ (some (make_error_response request_id ErrorCode.writer_not_found text ∷ []), s))

  -- A handler that fails once it has its payload.
  after_parse :
      {P : Type 0} (r : Result ProtocolError P) (p : P) (f : P → Handler d (List Bytes))
      → r ≡ ok p
      → FailsUnknown (f p s)
      → FailsUnknown ((parsed request_id r >>= f) s)
  unfolding parsed checked
  after_parse r p f e (text, fails) = (text, bind-done (parsed request_id r) f (rw e refl) ∙ fails)

  -- A write that fails before what follows it.
  after_write :
      (m : Handler d Bytes) (f : Bytes → Handler d (List Bytes))
      → FailsUnknown (m s)
      → FailsUnknown ((m >>= f) s)
  after_write m f (text, fails) = (text, bind-failed m f fails)

  module _ (m : WriterIdMode)
      (foreign : owned session_id (lookup m.writer_id s.writers.writers) ≡ none) where
    own_writer-FailsUnknown : FailsUnknown (own_writer session_id request_id m.writer_id s)
    unfolding own_writer checked
    own_writer-FailsUnknown =
        let (e, got, code) = get_writer-owned m.writer_id session_id s.writers foreign in
        (dds_error_text e, rw (got, code) refl)

    do_write_op-FailsUnknown :
        (op : WriteOp) → FailsUnknown (do_write_op session_id request_id (by_writer_id m) op s)
    unfolding do_write_op
    do_write_op-FailsUnknown op =
        let (text, e) = own_writer-FailsUnknown in (text, bind-failed _ _ e)

    handle_write-FailsUnknown :
        (payload : Bytes)
        → parse_write_mode payload ≡ ok (by_writer_id m)
        → FailsUnknown (handle_write session_id request_id payload s)
    unfolding handle_write parse_write
    handle_write-FailsUnknown payload e =
        after_parse (parse_write payload) (record { mode = by_writer_id m }) _ (rw e refl)
          (after_write _ _ (do_write_op-FailsUnknown WriteOp.write))

    handle_dispose-FailsUnknown :
        (payload : Bytes)
        → parse_write_mode payload ≡ ok (by_writer_id m)
        → FailsUnknown (handle_dispose session_id request_id payload s)
    unfolding handle_dispose parse_dispose
    handle_dispose-FailsUnknown payload e =
        after_parse (parse_dispose payload) (record { mode = by_writer_id m }) _ (rw e refl)
          (after_write _ _ (do_write_op-FailsUnknown WriteOp.dispose))

    handle_write_dispose-FailsUnknown :
        (payload : Bytes)
        → parse_write_mode payload ≡ ok (by_writer_id m)
        → FailsUnknown (handle_write_dispose session_id request_id payload s)
    unfolding handle_write_dispose parse_write_dispose
    handle_write_dispose-FailsUnknown payload e =
        after_parse (parse_write_dispose payload) (record { mode = by_writer_id m }) _ (rw e refl)
          (after_write _ _ (do_write_op-FailsUnknown WriteOp.write_dispose))

  handle_delete_writer-FailsUnknown :
      (payload : Bytes) (p : DeleteWriterPayload)
      → parse_delete_writer payload ≡ ok p
      → owned session_id (lookup p.writer_id s.writers.writers) ≡ none
      → FailsUnknown (handle_delete_writer session_id request_id payload s)
  unfolding handle_delete_writer writer_deleted deleted delete_writer ◌>>◌
  handle_delete_writer-FailsUnknown payload p e foreign =
      after_parse (parse_delete_writer payload) p _ e (
        let (error, got, code) = get_writer-owned p.writer_id session_id s.writers foreign in
        (
          dds_error_text error,
          bind-failed (writer_deleted session_id request_id p.writer_id) _ (rw (got, code) refl),
        ))

  replied_unknown :
      (r : Outcome Bytes (List Bytes) × BridgeInner d)
      → FailsUnknown r
      → IsUnknownWriter (replies r.0, r.1)
  unfolding replies
  replied_unknown r (text, e) = (text, rw e refl)

  module _ (payload : Bytes) (wid : ℕ)
      (foreign : owned session_id (lookup wid s.writers.writers) ≡ none) where
    with_mode :
        (h : Bytes → Handler d (List Bytes))
        → ((m : WriterIdMode)
            → owned session_id (lookup m.writer_id s.writers.writers) ≡ none
            → parse_write_mode payload ≡ ok (by_writer_id m)
            → FailsUnknown (h payload s))
        → by_id (parse_write_mode payload) ≡ some wid
        → FailsUnknown (h payload s)
    with_mode h k e =
        let (m, parsed_as, same) = by_id-eq-some (parse_write_mode payload) e in
        k m (rw same foreign) parsed_as

    handler_of-FailsUnknown :
        (t : MsgType)
        → named_writer t payload ≡ some wid
        → FailsUnknown (handler_of t session_id request_id payload s)
    unfolding handler_of
    handler_of-FailsUnknown MsgType.write e =
        with_mode (handle_write session_id request_id)
          (λ m h. handle_write-FailsUnknown m h payload) e
    handler_of-FailsUnknown MsgType.dispose e =
        with_mode (handle_dispose session_id request_id)
          (λ m h. handle_dispose-FailsUnknown m h payload) e
    handler_of-FailsUnknown MsgType.write_dispose e =
        with_mode (handle_write_dispose session_id request_id)
          (λ m h. handle_write_dispose-FailsUnknown m h payload) e
    handler_of-FailsUnknown MsgType.delete_writer e =
        let (p, parsed_as, same) = deleted_id-eq-some (parse_delete_writer payload) e in
        handle_delete_writer-FailsUnknown payload p parsed_as (rw same foreign)
    handler_of-FailsUnknown MsgType.subscribe e = cc
    handler_of-FailsUnknown MsgType.unsubscribe e = cc
    handler_of-FailsUnknown MsgType.create_writer e = cc
    handler_of-FailsUnknown MsgType.ping e = cc
    handler_of-FailsUnknown MsgType.ok e = cc
    handler_of-FailsUnknown MsgType.data_sample e = cc
    handler_of-FailsUnknown MsgType.data_disposed e = cc
    handler_of-FailsUnknown MsgType.data_no_writers e = cc
    handler_of-FailsUnknown MsgType.error e = cc
    handler_of-FailsUnknown MsgType.pong e = cc

module _ ⦃b : Buf⦄ {d : Dds} where
  -- A request that names a writer by an id that is no writer of the session (DELETE_WRITER, or
  -- WRITE, DISPOSE and WRITE_DISPOSE by id) is answered by one error of the code WRITER_NOT_FOUND
  -- and changes nothing.
  pub handle_message-IsUnknownWriter :
      (session_id request_id wid : ℕ) (t : MsgType) (payload : Bytes) (s : BridgeInner d)
      → named_writer t payload ≡ some wid
      → owned session_id (lookup wid s.writers.writers) ≡ none
      → IsUnknownWriter session_id request_id s (handle_message session_id t request_id payload s)
  unfolding handle_message
  handle_message-IsUnknownWriter session_id request_id wid t payload s named foreign =
      replied_unknown session_id request_id s _
        (handler_of-FailsUnknown session_id request_id s payload wid foreign t named)
