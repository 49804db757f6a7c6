-- ===== src/Bridge.antt =====
-- The state of src/bridge.rs.
pub mod Handler
pub mod Invariant
pub mod Safety
pub mod Sessions
pub mod SingleReply
pub mod Created
pub mod Subscribed
pub mod Unsubscribed
pub mod Written
pub mod Foreign
pub mod Reach
pub mod Inbox
pub mod Poll
pub mod Notified
use cyclone_dds_ws_bridge.Base.{
  Bool, Bytes, List, Result, [], err, if◌then◌else◌, list_eq, nat_eq, none, ok, pair_eq, some, ℕ,
  ◌%◌, ◌+◌, ◌==◌, ◌^◌,
}
use cyclone_dds_ws_bridge.Base.Assoc.{Assoc, insert, without}
use cyclone_dds_ws_bridge.Base.Int.{ℤ}
use cyclone_dds_ws_bridge.Config.{Config}
use cyclone_dds_ws_bridge.Dds.Api.{Dds, delete_all}
use cyclone_dds_ws_bridge.Dds.Errors.{DdsError}
use cyclone_dds_ws_bridge.Dds.Participant.{DdsParticipant, new_participant}
use cyclone_dds_ws_bridge.Dds.Reader.{ReceivedSample}
use cyclone_dds_ws_bridge.Dds.Readers.{
  ReaderRegistry, empty_readers, reader_key_eq, subscription_eq,
}
use cyclone_dds_ws_bridge.Dds.Readers.Cleanup.{remove_session_readers}
use cyclone_dds_ws_bridge.Dds.Writer.{WriterRegistry, empty_writers, remove_session_writers}
use cyclone_dds_ws_bridge.Qos.Normalize.{policy_eq}

-- `BridgeInner`, with the counters of writer and reader ids, the world of the C library and of the
-- channels, the log of the calls of `try_send`, and what the poll loop holds between its two parts.
pub record BridgeInner (d : Dds) : Type 0 where
  pub participant : DdsParticipant
  pub writers : WriterRegistry
  pub readers : ReaderRegistry
  -- session_id -> sender for outbound messages
  pub session_senders : Assoc ℕ ℕ
  pub config : Config
  pub writer_counter : ℕ
  pub reader_counter : ℕ
  pub world : d.World
  -- Every `try_send` so far: the channel, the message, and whether the call succeeded.
  pub outbox : List (ℕ × Bytes × Bool)
  -- What `reader_poll_loop` has taken and not yet sent: samples, and the channels for them.
  pub pending : List (List ReceivedSample × List ℕ)

-- `next_session_id`: the id, and the counter, which wraps.
unfoldable pub next_session_id : ℕ → ℕ × ℕ
next_session_id counter = (counter, (counter + 1) % 2 ^ 64)

module _ {d : Dds} where
  -- The state that `create_bridge` makes of the handle of a participant.
  unfoldable pub create_bridge : Config → ℤ → d.World → BridgeInner d
  create_bridge config handle w = record {
    participant = record { handle = handle; topics = [] };
    writers = empty_writers;
    readers = empty_readers;
    session_senders = [];
    config = config;
    writer_counter = 1;
    reader_counter = 1;
    world = w;
    outbox = [];
    pending = [];
  }

  unfoldable pub register_session : ℕ → ℕ → BridgeInner d → BridgeInner d
  register_session session_id sender s = record s {
    session_senders = insert session_id sender s.session_senders;
  }

  -- Both registries drop what the session owned.
  unfoldable pub unregister_session : ℕ → BridgeInner d → BridgeInner d
  unregister_session session_id s =
      let (writers, gone) = remove_session_writers session_id s.writers in
      let (readers, left) = remove_session_readers session_id s.readers in
      record s {
        session_senders = without session_id s.session_senders;
        writers = writers;
        readers = readers;
        world = delete_all d left (delete_all d gone s.world);
      }

module _ (d : Dds) where
  unfoldable pub created_bridge :
      Config → Result DdsError DdsParticipant × d.World → Result DdsError (BridgeInner d)
  created_bridge config (err e, w) = err e
  created_bridge config (ok participant, w) = ok (create_bridge config participant.handle w)

  -- The whole of `create_bridge`: domain 0 of the configuration stands for the default domain.
  unfoldable pub try_create_bridge :
      (ℕ → d.World → ℤ × d.World) → ℕ → Config → d.World → Result DdsError (BridgeInner d)
  unfolding created_bridge
  try_create_bridge dds_create_participant default_domain config w =
      let domain_id = if config.dds.domain_id == 0 then none else some config.dds.domain_id in
      created_bridge config (new_participant dds_create_participant default_domain domain_id w)
