-- ===== src/Bridge/Written.antt =====
-- What WRITE, DISPOSE and WRITE_DISPOSE of src/bridge.rs ask of the C library, for a session that has
-- the writer.
use cyclone_dds_ws_bridge.Base.{
  Bool-cases, Bytes, List, Option, [], false, if◌then◌else◌, inl, inr, ok, refl, some, true, ℕ, ◌∙◌,
  ◌∷◌, ◌≡◌,
}
use cyclone_dds_ws_bridge.Base.Buf.{Buf}
use cyclone_dds_ws_bridge.Base.Int.{is_negative, ℤ}
use cyclone_dds_ws_bridge.Base.Outcomes.{done, failed}
use cyclone_dds_ws_bridge.Bridge.{BridgeInner}
use cyclone_dds_ws_bridge.Bridge.Handler.{Handler, and_then, checked, gets, pure, ◌>>=◌, ◌>>◌}
use cyclone_dds_ws_bridge.Bridge.Handler.Laws.{bind-done, bind-failed}
use cyclone_dds_ws_bridge.Bridge.Handler.Replies.{dds_error_response, ok_response, parsed}
use cyclone_dds_ws_bridge.Bridge.Handler.Requests.{
  handle_dispose, handle_message, handle_write, handle_write_dispose, handler_of, replies,
}
use cyclone_dds_ws_bridge.Bridge.Handler.Writes.{
  WriteOp, do_write_op, ensure_writer, execute_write_op, executed, find_implicit_writer, op_result,
  own_writer, present_writer, resp_with_dispose_notification,
}
use cyclone_dds_ws_bridge.Dds.Api.{Dds, SampleWrapper, from_bytes}
use cyclone_dds_ws_bridge.Dds.Errors.{DdsError}
use cyclone_dds_ws_bridge.Dds.Writer.{DdsWriter, get_writer}
use cyclone_dds_ws_bridge.Dds.Writer.Entity.{checked_rc, dispose, write, write_dispose}
use cyclone_dds_ws_bridge.Protocol.Codes.{MsgType}
use cyclone_dds_ws_bridge.Protocol.Messages.{WriteMode, by_topic_name, by_writer_id}
use cyclone_dds_ws_bridge.Protocol.Parse.{
  parse_dispose, parse_write, parse_write_dispose, parse_write_mode,
}

-- The writer that a mode stands for: of this id, or the one that `find_by_topic` returns.
abbrev pub IsWriterFor : ⦃b : Buf⦄ → {d : Dds} → ℕ → WriteMode → BridgeInner d → DdsWriter → Type 0
IsWriterFor session_id (by_writer_id m) s writer =
    get_writer m.writer_id session_id s.writers ≡ ok writer
IsWriterFor session_id (by_topic_name m) s writer =
    find_implicit_writer session_id m s ≡ some writer

abbrev pub content_of : WriteMode → Bytes
content_of (by_writer_id m) = m.content
content_of (by_topic_name m) = m.content

-- A write by topic name has no key bytes.
abbrev pub key_of : WriteMode → Bytes
key_of (by_writer_id m) = m.key_bytes
key_of (by_topic_name m) = []

abbrev pub request_for : WriteOp → MsgType
request_for WriteOp.write = MsgType.write
request_for WriteOp.dispose = MsgType.dispose
request_for WriteOp.write_dispose = MsgType.write_dispose

abbrev pub error_for : WriteOp → ℤ → DdsError
error_for WriteOp.write rc = DdsError.write rc
error_for WriteOp.dispose rc = DdsError.dispose rc
error_for WriteOp.write_dispose rc = DdsError.write_dispose rc

module _ (d : Dds) where
  -- The one call of the C library.
  abbrev pub library_call : WriteOp → DdsWriter → SampleWrapper → d.World → ℤ × d.World
  library_call WriteOp.write writer sample w = d.dds_write w writer.handle sample
  library_call WriteOp.dispose writer sample w = d.dds_dispose w writer.handle sample
  library_call WriteOp.write_dispose writer sample w = d.dds_writedispose w writer.handle sample

  op_result_lem :
      (op : WriteOp) (writer : DdsWriter) (content key_bytes : Bytes) (w : d.World)
      → op_result d op writer content key_bytes w
        ≡ checked_rc d (error_for op) (library_call op writer (from_bytes content key_bytes) w)
  unfolding write dispose write_dispose
  op_result_lem WriteOp.write writer content key_bytes w = refl
  op_result_lem WriteOp.dispose writer content key_bytes w = refl
  op_result_lem WriteOp.write_dispose writer content key_bytes w = refl

module _ ⦃b : Buf⦄ {d : Dds} (session_id request_id : ℕ) (s : BridgeInner d) where
  -- The reply to a call that succeeds; a dispose also gives notice to the subscribers.
  abbrev pub after_call : WriteOp → WriteMode → BridgeInner d → Option (List Bytes) × BridgeInner d
  after_call WriteOp.write mode s' = (some (ok_response request_id ∷ []), s')
  after_call _ mode s' =
      let (messages, s'') =
        resp_with_dispose_notification session_id (ok_response request_id) mode s' in
      (replies messages, s'')

  -- The call is made of the state as it was, and what it returns decides the reply.
  abbrev pub answered : WriteOp → WriteMode → ℤ × d.World → Option (List Bytes) × BridgeInner d
  answered op mode (rc, w) =
      if is_negative rc
      then (some (dds_error_response request_id (error_for op rc) ∷ []), record s { world = w })
      else after_call op mode (record s { world = w })

  -- The writer is found, at once or where the code looks again, and the call follows.
  do_write_op-execute :
      (op : WriteOp) (mode : WriteMode) (writer : DdsWriter)
      → IsWriterFor session_id mode s writer
      → do_write_op session_id request_id mode op s
        ≡ (execute_write_op writer op (content_of mode) (key_of mode) request_id
              >> pure (ok_response request_id))
            s
  unfolding do_write_op own_writer checked ensure_writer present_writer gets ◌>>=◌ ◌>>◌ and_then
      pure
  do_write_op-execute op (by_writer_id m) writer got =
      bind-done (own_writer session_id request_id m.writer_id) _ (rw got refl)
  do_write_op-execute op (by_topic_name m) writer found = rw found (
      bind-done (present_writer request_id (find_implicit_writer session_id m s)) _ {s = s}
        (rw found refl))

  module _ (op : WriteOp) (mode : WriteMode) (writer : DdsWriter)
      (writer_is : IsWriterFor session_id mode s writer) where
    module _ (rc : ℤ) (w : d.World)
        (called : library_call d op writer (from_bytes (content_of mode) (key_of mode)) s.world
          ≡ (rc, w)) where
      do_write_op-failed :
          is_negative rc ≡ true
          → do_write_op session_id request_id mode op s
            ≡ (failed (dds_error_response request_id (error_for op rc)), record s { world = w })
      unfolding execute_write_op executed checked_rc ◌>>◌ pure
      do_write_op-failed refused =
          do_write_op-execute op mode writer writer_is
          ∙ bind-failed (execute_write_op writer op (content_of mode) (key_of mode) request_id) _ (
              rw
                (op_result_lem d op writer (content_of mode) (key_of mode) s.world, called, refused)
                refl)

      do_write_op-done :
          is_negative rc ≡ false
          → do_write_op session_id request_id mode op s
            ≡ (done (ok_response request_id), record s { world = w })
      unfolding execute_write_op executed checked_rc ◌>>◌ pure
      do_write_op-done succeeded =
          do_write_op-execute op mode writer writer_is
          ∙ bind-done (execute_write_op writer op (content_of mode) (key_of mode) request_id) _ (
              rw
                (
                  op_result_lem d op writer (content_of mode) (key_of mode) s.world,
                  called,
                  succeeded,
                )
                refl)

  -- What the handlers do after `do_write_op`.
  abbrev follow : WriteOp → WriteMode → Bytes → Handler d (List Bytes)
  follow WriteOp.write mode resp = pure (resp ∷ [])
  follow _ mode resp = resp_with_dispose_notification session_id resp mode

  handler_of-do_write_op :
      (op : WriteOp) (mode : WriteMode) (payload : Bytes)
      → parse_write_mode payload ≡ ok mode
      → handler_of (request_for op) session_id request_id payload s
        ≡ (do_write_op session_id request_id mode op >>= follow op mode) s
  unfolding handler_of handle_write handle_dispose handle_write_dispose parse_write parse_dispose
      parse_write_dispose parsed checked
  handler_of-do_write_op WriteOp.write mode payload e =
      bind-done (parsed request_id (parse_write payload)) _ (rw e refl)
  handler_of-do_write_op WriteOp.dispose mode payload e =
      bind-done (parsed request_id (parse_dispose payload)) _ (rw e refl)
  handler_of-do_write_op WriteOp.write_dispose mode payload e =
      bind-done (parsed request_id (parse_write_dispose payload)) _ (rw e refl)

  replies-follow :
      (op : WriteOp) (mode : WriteMode) (s' : BridgeInner d)
      → (let (result, s'') = follow op mode (ok_response request_id) s' in (replies result, s''))
        ≡ after_call op mode s'
  unfolding replies pure
  replies-follow WriteOp.write mode s' = refl
  replies-follow WriteOp.dispose mode s' = refl
  replies-follow WriteOp.write_dispose mode s' = refl

  -- A WRITE, DISPOSE or WRITE_DISPOSE that can be read, for a writer that the session has, by its
  -- id or found by topic, type and QoS, makes one call of the C library, that of the request, on
  -- the handle of the writer, with the content and the key bytes of the payload (no key bytes by
  -- topic name), and changes nothing else; if the call fails, its error is the one reply, and else
  -- the reply is OK, and a dispose goes on with the notices to the subscribers.
  pub handle_message-answered :
      (op : WriteOp) (mode : WriteMode) (writer : DdsWriter) (payload : Bytes)
      → parse_write_mode payload ≡ ok mode
      → IsWriterFor session_id mode s writer
      → handle_message session_id (request_for op) request_id payload s
        ≡ answered op mode
            (library_call d op writer (from_bytes (content_of mode) (key_of mode)) s.world)
  unfolding handle_message replies
  handle_message-answered op mode writer payload parsed_as writer_is =
      let (rc, w) = library_call d op writer (from_bytes (content_of mode) (key_of mode)) s.world in
      let at_op = handler_of-do_write_op op mode payload parsed_as in
      elim (Bool-cases (is_negative rc)) [
        | inl refused ↦
            rw
              (
                at_op,
                bind-failed (do_write_op session_id request_id mode op) (follow op mode)
                    (do_write_op-failed op mode writer writer_is rc w refl refused),
                refused,
              )
              refl
        | inr succeeded' ↦
            rw
              (
                at_op,
                bind-done (do_write_op session_id request_id mode op) (follow op mode)
                    (do_write_op-done op mode writer writer_is rc w refl succeeded'),
                succeeded',
              )
              (replies-follow op mode (record s { world = w }))
      ]
