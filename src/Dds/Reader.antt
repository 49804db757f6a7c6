-- ===== src/Dds/Reader.antt =====
-- `DdsReader` of src/dds/reader.rs and the samples that it takes.
pub mod Laws
use cyclone_dds_ws_bridge.Base.{
  Bool, Bytes, List, Option, Result, [], err, false, if◌then◌else◌, list_eq, nat_eq, none, not, ok,
  pair_eq, some, suc, true, zero, ℕ, ◌%◌, ◌++◌, ◌+◌, ◌==◌, ◌^◌, ◌||◌, ◌∷◌,
}
use cyclone_dds_ws_bridge.Base.Int.{is_negative, ℤ}
use cyclone_dds_ws_bridge.Dds.Api.{Dds, Taken}
use cyclone_dds_ws_bridge.Dds.Errors.{DdsError}
use cyclone_dds_ws_bridge.Dds.Participant.{Topic}
use cyclone_dds_ws_bridge.Dds.QosHandle.{QsetCall}
use cyclone_dds_ws_bridge.Qos.Normalize.{policy_eq}
use cyclone_dds_ws_bridge.Qos.Policy.{QosSet}

pub record DdsReader : Type 0 where
  pub reader_id : ℕ
  pub handle : ℤ
  pub topic : Topic
  pub qos_normalized : QosSet
  -- the sessions subscribed to this reader
  pub subscribers : List ℕ

pub data InstanceState : Type 0 where
  alive disposed no_writers : InstanceState

pub record ReceivedSample : Type 0 where
  pub topic_name : Bytes
  pub instance_state : InstanceState
  pub source_timestamp : ℤ
  pub content : Bytes

-- `match info.instance_state`, with the constants of the C library.
unfoldable pub instance_state_of : ℕ → InstanceState
instance_state_of s =
    if s == 1
    then InstanceState.alive
    else if s == 2
    then InstanceState.disposed
    else if s == 4
    then InstanceState.no_writers
    else InstanceState.alive

abbrev pub is_alive : InstanceState → Bool
is_alive InstanceState.alive = true
is_alive InstanceState.disposed = false
is_alive InstanceState.no_writers = false

abbrev pub sample_bytes : Option Bytes → Bytes
sample_bytes none = []
sample_bytes (some bytes) = bytes

-- What one taken sample adds to the results.
unfoldable pub received : Bytes → Taken → List ReceivedSample
received topic_name t =
    let state = instance_state_of t.instance_state in
    if t.valid_data || not (is_alive state)
    then record {
      topic_name = topic_name;
      instance_state = state;
      source_timestamp = t.source_timestamp;
      content = sample_bytes t.sample;
    }
      ∷ []
    else []

module _ (d : Dds) where
  -- The end of one round: what `dds_take` yields and what the next rounds give.
  unfoldable pub add_taken :
      Bytes → Option Taken → d.World → List ReceivedSample × d.World → List ReceivedSample × d.World
  add_taken topic_name none w rest = ([], w)
  add_taken topic_name (some t) w (later, w') = (received topic_name t ++ later, w')

  -- The loop of `take_samples`: it stops at the first call that yields nothing.
  unfoldable pub take_loop : ℕ → DdsReader → d.World → List ReceivedSample × d.World
  unfolding add_taken
  take_loop zero r w = ([], w)
  take_loop (suc n) r w =
      let (taken, w') = d.dds_take w r.handle in
      add_taken r.topic.topic_name taken w' (take_loop n r w')

  unfoldable pub take_samples : ℕ → DdsReader → d.World → List ReceivedSample × d.World
  unfolding take_loop
  take_samples max_samples r w = take_loop max_samples r w

  unfoldable pub created_reader :
      Topic → QosSet → ℕ → ℤ × d.World → Result DdsError DdsReader × ℕ × d.World
  created_reader topic qos_normalized counter (handle, w) =
      if is_negative handle then (err (DdsError.create_reader handle), counter, w) else (
        ok (record {
          reader_id = counter;
          handle = handle;
          topic = topic;
          qos_normalized = qos_normalized;
          subscribers = [];
        }),
        (counter + 1) % 2 ^ 64,
        w,
      )

  -- `DdsReader::new`, with the counter `NEXT_READER_ID`.
  unfoldable pub new_reader :
      ℤ
      → Topic
      → Option (List QsetCall)
      → QosSet
      → ℕ
      → d.World
      → Result DdsError DdsReader × ℕ × d.World
  unfolding created_reader
  new_reader participant topic qos qos_normalized counter w =
      created_reader topic qos_normalized counter
        (d.dds_create_reader w participant topic.handle qos)
