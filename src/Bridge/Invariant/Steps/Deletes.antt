-- ===== src/Bridge/Invariant/Steps/Deletes.antt =====
-- What the deletion of a writer in src/bridge.rs does to the state.
use cyclone_dds_ws_bridge.Base.{
  List, Result, arith, err, false, list_eq, nat_eq, ok, pair_eq, refl, some, subst, ℕ, ◌≡◌,
}
use cyclone_dds_ws_bridge.Base.Assoc.{lookup, lookup-without}
use cyclone_dds_ws_bridge.Base.Buf.{Buf}
use cyclone_dds_ws_bridge.Base.Int.{ℤ}
use cyclone_dds_ws_bridge.Bridge.{BridgeInner}
use cyclone_dds_ws_bridge.Bridge.Handler.Laws.{Ends}
use cyclone_dds_ws_bridge.Bridge.Handler.Replies.{writer_error_code}
use cyclone_dds_ws_bridge.Bridge.Handler.Requests.{deleted, writer_deleted}
use cyclone_dds_ws_bridge.Bridge.Invariant.{Kept, replaced_writers}
use cyclone_dds_ws_bridge.Bridge.Invariant.Steps.{Refused, is_internal}
use cyclone_dds_ws_bridge.Dds.Api.{Dds}
use cyclone_dds_ws_bridge.Dds.Errors.{DdsError}
use cyclone_dds_ws_bridge.Dds.Readers.{reader_key_eq, subscription_eq}
use cyclone_dds_ws_bridge.Dds.Writer.{DdsWriter, WriterRegistry, delete_writer, removed_writer}
use cyclone_dds_ws_bridge.Dds.Writer.Invariant.{
  IsWriters, delete_writer-IsWriters, delete_writer-eq-ok,
}
use cyclone_dds_ws_bridge.Qos.Normalize.{policy_eq}

pub is_internal-writer_error_code : (e : DdsError) → is_internal (writer_error_code e) ≡ false
unfolding writer_error_code
is_internal-writer_error_code (DdsError.writer_not_found id) = refl
is_internal-writer_error_code (DdsError.writer_ownership id) = refl
is_internal-writer_error_code _ = refl

module _ ⦃b : Buf⦄ {d : Dds} (session_id room request_id : ℕ) (s0 : BridgeInner d) where
  -- What `delete` leaves.
  removed-Kept :
      (wid : ℕ) (writer : DdsWriter) (s : BridgeInner d)
      → Kept session_id room s0 s
      → lookup wid s.writers.writers ≡ some (writer, session_id)
      → IsWriters (removed_writer wid session_id s.writers)
      → Kept session_id room s0 (record s { writers = removed_writer wid session_id s.writers })
  unfolding removed_writer
  removed-Kept wid writer s (v, i) present maps = (
    replaced_writers v _ maps
        (λ id le. ground (arith, lookup-without wid id s.writers.writers, v.fresh_writers id le)),
    (
      λ id other n.
          ground (arith, lookup-without wid id s.writers.writers, i.0 id other n, present, n),
      i.1,
      i.2,
      i.3,
    ),
  )

  deleted-Ends :
      (wid : ℕ) (s : BridgeInner d) (r : Result DdsError (WriterRegistry × List ℤ))
      → Kept session_id room s0 s
      → delete_writer wid session_id s.writers ≡ r
      → Ends
          (λ u. Kept session_id room s0)
          (Refused session_id room request_id s0)
          (deleted request_id s r)
  unfolding deleted
  deleted-Ends wid s (err e) kept is = record {
    holds = (kept, (writer_error_code e, _, is_internal-writer_error_code e, refl));
  }
  deleted-Ends wid s (ok next) kept is =
      let (writer, present, next_is) = delete_writer-eq-ok wid session_id s.writers is in
      rw next_is (record {
        holds = removed-Kept wid writer s kept present (
            subst (λ n. IsWriters n.0) next_is
              (delete_writer-IsWriters s.writers kept.0.writer_maps wid session_id is));
      })

  pub writer_deleted-Ends :
      (wid : ℕ) (s : BridgeInner d)
      → Kept session_id room s0 s
      → Ends
          (λ u. Kept session_id room s0)
          (Refused session_id room request_id s0)
          (writer_deleted session_id request_id wid s)
  unfolding writer_deleted
  writer_deleted-Ends wid s kept = deleted-Ends wid s _ kept refl
