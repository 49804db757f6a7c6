-- ===== src/Bridge/Poll.antt =====
-- `reader_poll_loop` of src/bridge.rs: one tick.
pub mod FanOut
pub mod Deliveries
use cyclone_dds_ws_bridge.Base.{
  Bytes, List, Option, [], list_eq, nat_eq, none, pair_eq, some, ℕ, ◌++◌, ◌-◌, ◌^◌, ◌∷◌,
}
use cyclone_dds_ws_bridge.Base.Assoc.{Assoc, lookup}
use cyclone_dds_ws_bridge.Base.Buf.{Buf}
use cyclone_dds_ws_bridge.Base.Int.{negsuc, pos, ℤ}
use cyclone_dds_ws_bridge.Bridge.{BridgeInner}
use cyclone_dds_ws_bridge.Bridge.Inbox.{sent_all}
use cyclone_dds_ws_bridge.Dds.Api.{Dds}
use cyclone_dds_ws_bridge.Dds.Reader.{DdsReader, InstanceState, ReceivedSample, take_samples}
use cyclone_dds_ws_bridge.Dds.Readers.{
  ReaderRegistry, all_readers, get_reader, get_subscribers, reader_key_eq, subscription_eq,
}
use cyclone_dds_ws_bridge.Protocol.Codes.{MsgType}
use cyclone_dds_ws_bridge.Protocol.Header.{build_message}
use cyclone_dds_ws_bridge.Protocol.Serialize.{
  serialize_data, serialize_data_disposed, serialize_data_no_writers,
}
use cyclone_dds_ws_bridge.Qos.Normalize.{policy_eq}

-- `as u64` of an `i64`.
abbrev pub as_u64 : ℤ → ℕ
as_u64 (pos n) = n
as_u64 (negsuc n) = 2 ^ 64 - n - 1

unfoldable pub sample_to_message : ⦃b : Buf⦄ → ReceivedSample → Bytes
sample_to_message sample = elim sample.instance_state [
  | InstanceState.alive ↦ build_message MsgType.data_sample 0 (
      serialize_data (record {
        topic_name = sample.topic_name;
        source_timestamp = as_u64 sample.source_timestamp;
        content = sample.content;
      }))
  | InstanceState.disposed ↦ build_message MsgType.data_disposed 0 (
      serialize_data_disposed (record {
        topic_name = sample.topic_name;
        source_timestamp = as_u64 sample.source_timestamp;
        key_data = sample.content;
      }))
  | InstanceState.no_writers ↦ build_message MsgType.data_no_writers 0 (
      serialize_data_no_writers
        (record { topic_name = sample.topic_name; key_data = sample.content }))
]

-- `filter_map` over the subscribers: the channels of those that are registered.
unfoldable pub channels_of : Assoc ℕ ℕ → List ℕ → List ℕ
channels_of senders [] = []
channels_of senders (sid ∷ sids) = elim (lookup sid senders) [
  | none ↦ channels_of senders sids
  | some sender ↦ sender ∷ channels_of senders sids
]

-- `unwrap_or_default` of the subscribers of a reader.
abbrev pub or_no_sessions : Option (List ℕ) → List ℕ
or_no_sessions none = []
or_no_sessions (some sids) = sids

-- The messages of one sample, in the order in which they are sent.
unfoldable pub fan_out_sample : Bytes → List ℕ → List (ℕ × Bytes)
fan_out_sample msg [] = []
fan_out_sample msg (sender ∷ senders) = (sender, msg) ∷ fan_out_sample msg senders

unfoldable pub fan_out : ⦃b : Buf⦄ → List ReceivedSample → List ℕ → List (ℕ × Bytes)
fan_out [] senders = []
fan_out (sample ∷ samples) senders =
    fan_out_sample (sample_to_message sample) senders ++ fan_out samples senders

-- What is sent for all of `pending`.
unfoldable pub fan_out_all : ⦃b : Buf⦄ → List (List ReceivedSample × List ℕ) → List (ℕ × Bytes)
fan_out_all [] = []
fan_out_all ((samples, senders) ∷ pending) = fan_out samples senders ++ fan_out_all pending

unfoldable pub reader_ids : List DdsReader → List ℕ
reader_ids [] = []
reader_ids (reader ∷ readers) = reader.reader_id ∷ reader_ids readers

-- `Ok(s) if !s.is_empty()` is put on the list, `Ok(_)` is passed over.
abbrev pub with_samples :
    List ReceivedSample
    → List ℕ
    → List (List ReceivedSample × List ℕ)
    → List (List ReceivedSample × List ℕ)
with_samples [] senders pending = pending
with_samples (s ∷ samples) senders pending = (s ∷ samples, senders) ∷ pending

module _ (d : Dds) where
  -- The samples of one reader, if it is there.
  unfoldable pub poll_reader : Option DdsReader → d.World → List ReceivedSample × d.World
  poll_reader none w = ([], w)
  poll_reader (some reader) w = take_samples d 256 reader w

  -- The loop over the ids: `pending`, and the world that the calls of `dds_take` leave.
  unfoldable pub poll_readers :
      Assoc ℕ ℕ → ReaderRegistry → List ℕ → d.World → List (List ReceivedSample × List ℕ) × d.World
  poll_readers senders readers [] w = ([], w)
  poll_readers senders readers (reader_id ∷ ids) w =
      let (samples, w') = poll_reader (get_reader reader_id readers) w in
      let (pending, w'') = poll_readers senders readers ids w' in
      (
        with_samples samples
            (channels_of senders (or_no_sessions (get_subscribers reader_id readers))) pending,
        w'',
      )

module _ {d : Dds} where
  -- The part of a round under the lock.
  unfoldable pub poll_take : BridgeInner d → BridgeInner d
  poll_take s =
      let (pending, w) =
        poll_readers d s.session_senders s.readers (reader_ids (all_readers s.readers.readers))
          s.world in
      record s { world = w; pending = pending }

  -- The part after the lock is released: other calls may come between the two.
  unfoldable pub poll_send : ⦃b : Buf⦄ → BridgeInner d → BridgeInner d
  poll_send s = record (sent_all (fan_out_all s.pending) s) { pending = [] }
