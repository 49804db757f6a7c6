-- ===== src/Dds/Reader/Laws.antt =====
-- What `take_samples` of src/dds/reader.rs returns.
use cyclone_dds_ws_bridge.Base.{
  Bool, Bool-cases, Bytes, List, Option, [], arith, false, if◌then◌else◌, inl, inr, list_eq, nat_eq,
  none, not, pair_eq, refl, some, suc, true, zero, ℕ, ◌++◌, ◌==◌, ◌||◌, ◌∷◌, ◌≡◌,
}
use cyclone_dds_ws_bridge.Base.Int.{ℤ}
use cyclone_dds_ws_bridge.Dds.Api.{Dds, Taken}
use cyclone_dds_ws_bridge.Dds.Reader.{
  DdsReader, InstanceState, ReceivedSample, add_taken, instance_state_of, is_alive, received,
  sample_bytes, take_loop, take_samples,
}
use cyclone_dds_ws_bridge.Qos.Normalize.{policy_eq}

-- The calls of `dds_take` of one call of `take_samples`, at most as many as it is asked for, up to
-- the first that yields nothing: what they yield, and the worlds before and after.
pub data Takes (d : Dds) (handle : ℤ) : ℕ → List Taken → d.World → d.World → Type 0 where
  enough : (w : d.World) → Takes d handle 0 [] w w
  no_more :
      (n : ℕ) (w : d.World)
      → (d.dds_take w handle).0 ≡ none
      → Takes d handle (suc n) [] w (d.dds_take w handle).1
  one_more :
      (n : ℕ) (t : Taken) (ts : List Taken) (w w' : d.World)
      → (d.dds_take w handle).0 ≡ some t
      → Takes d handle n ts (d.dds_take w handle).1 w'
      → Takes d handle (suc n) (t ∷ ts) w w'

-- The instance has gone: it is disposed (2), or has no writers (4).
abbrev pub has_gone : ℕ → Bool
has_gone s = s == 2 || s == 4

abbrev pub reported_state : ℕ → InstanceState
reported_state s =
    if s == 2
    then InstanceState.disposed
    else if s == 4
    then InstanceState.no_writers
    else InstanceState.alive

pub record IsSampleOf (topic_name : Bytes) (t : Taken) (s : ReceivedSample) : Type 0 where
  pub topic : s.topic_name ≡ topic_name
  pub state : s.instance_state ≡ reported_state t.instance_state
  pub timestamp : s.source_timestamp ≡ t.source_timestamp
  pub bytes : s.content ≡ sample_bytes t.sample

-- The samples are those with data and those of instances that have gone, in order.
pub data Reports (topic_name : Bytes) : List Taken → List ReceivedSample → Type 0 where
  nothing : Reports topic_name [] []
  passed_over :
      (t : Taken) (ts : List Taken) (samples : List ReceivedSample)
      → t.valid_data ≡ false
      → has_gone t.instance_state ≡ false
      → Reports topic_name ts samples
      → Reports topic_name (t ∷ ts) samples
  forwarded :
      (t : Taken) (ts : List Taken) (s : ReceivedSample) (samples : List ReceivedSample)
      → (t.valid_data || has_gone t.instance_state) ≡ true
      → IsSampleOf topic_name t s
      → Reports topic_name ts samples
      → Reports topic_name (t ∷ ts) (s ∷ samples)

instance_state_of_lem : (s : ℕ) → instance_state_of s ≡ reported_state s
unfolding instance_state_of
instance_state_of_lem s = ground arith

is_alive_lem : (s : ℕ) → is_alive (reported_state s) ≡ not (has_gone s)
is_alive_lem s = elim (Bool-cases (s == 2)) [
  | inl two ↦ rw two refl
  | inr other ↦ elim (Bool-cases (s == 4)) [
    | inl four ↦ rw (other, four) refl
    | inr live ↦ rw (other, live) refl
  ]
]

received-Reports :
    (name : Bytes) (t : Taken) (ts : List Taken) (samples : List ReceivedSample)
    → Reports name ts samples
    → Reports name (t ∷ ts) (received name t ++ samples)
unfolding received
received-Reports name t ts samples rest =
    let same = instance_state_of_lem t.instance_state in
    let live = is_alive_lem t.instance_state in
    elim (Bool-cases (t.valid_data || not (is_alive (instance_state_of t.instance_state)))) [
      | inl told ↦
          let s : ReceivedSample = record {
            topic_name = name;
            instance_state = instance_state_of t.instance_state;
            source_timestamp = t.source_timestamp;
            content = sample_bytes t.sample;
          } in
          let news : (t.valid_data || has_gone t.instance_state) ≡ true =
            ground (arith, (rw (same, live) at told)) in
          rw told (
            forwarded t ts s samples news
              (record { topic = refl; state = same; timestamp = refl; bytes = refl }) rest)
      | inr untold ↦
          let no_news = rw (same, live) at untold in
          rw untold
            (passed_over t ts samples (ground (arith, no_news)) (ground (arith, no_news)) rest)
    ]

module _ (d : Dds) where
  add_taken-Takes :
      (n : ℕ) (r : DdsReader) (w : d.World) (rest : List ReceivedSample × d.World) (ts : List Taken)
      (found : Option Taken)
      → (d.dds_take w r.handle).0 ≡ found
      → Takes d r.handle n ts (d.dds_take w r.handle).1 rest.1
      → Reports r.topic.topic_name ts rest.0
      → (let (samples, w') = add_taken d r.topic.topic_name found (d.dds_take w r.handle).1 rest in
          (us : List Taken) × Takes d r.handle (suc n) us w w'
          × Reports r.topic.topic_name us samples)
  unfolding add_taken
  add_taken-Takes n r w rest ts none e taken reported = ([], no_more n w e, nothing)
  add_taken-Takes n r w (later, w') ts (some t) e taken reported = (
    t ∷ ts,
    one_more n t ts w w' e taken,
    received-Reports r.topic.topic_name t ts later reported,
  )

  -- `take_samples` calls `dds_take` at most as often as it is asked to and until a call yields
  -- nothing, and returns, in the order of the calls, a sample for each yield that has valid data
  -- or whose instance is disposed or has no writers, with the topic name of the reader and the
  -- state, the time stamp and the bytes that the C library gave, and none for any other yield.
  pub take_samples_lem :
      (n : ℕ) (r : DdsReader) (w : d.World)
      → (let (samples, w') = take_samples d n r w in
          (ts : List Taken) × Takes d r.handle n ts w w' × Reports r.topic.topic_name ts samples)
  unfolding take_samples take_loop
  take_samples_lem zero r w = ([], enough w, nothing)
  take_samples_lem (suc n) r w =
      let next = (d.dds_take w r.handle).1 in
      let (ts, taken, reported) = take_samples_lem n r next in
      add_taken-Takes n r w (take_loop d n r next) ts (d.dds_take w r.handle).0 refl taken reported
