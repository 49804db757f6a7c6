-- ===== src/Bridge/Poll/Deliveries.antt =====
-- What one session gets of a tick of `reader_poll_loop` of src/bridge.rs.
use cyclone_dds_ws_bridge.Base.{
  Bool, Bool-cases, Bytes, List, Option, [], ap, arith, false, if◌then◌else◌, inl, inr, list_eq,
  nat_eq, none, not, pair_eq, refl, some, sym, true, ℕ, ◌++◌, ◌==◌, ◌∙◌, ◌∷◌, ◌≡◌,
}
use cyclone_dds_ws_bridge.Base.Assoc.{Assoc, is_map, is_none, lookup}
use cyclone_dds_ws_bridge.Base.Buf.{Buf}
use cyclone_dds_ws_bridge.Base.Sets.{contains, is_set}
use cyclone_dds_ws_bridge.Bridge.{BridgeInner}
use cyclone_dds_ws_bridge.Bridge.Inbox.{
  Calls, HasChannel, IsSent, addressed, send_all, sent_all, sent_all-Calls, sent_all-IsSent,
}
use cyclone_dds_ws_bridge.Bridge.Invariant.{IsBridge}
use cyclone_dds_ws_bridge.Bridge.Poll.{
  channels_of, fan_out, fan_out_all, or_no_sessions, poll_reader, poll_readers, poll_send,
  poll_take, reader_ids,
}
use cyclone_dds_ws_bridge.Bridge.Poll.FanOut.{
  addressed-with_samples, channels_of-absent, channels_of-once, fan_out-absent, fan_out-once,
  messages_of, messages_of-append,
}
use cyclone_dds_ws_bridge.Dds.Api.{Dds}
use cyclone_dds_ws_bridge.Dds.Reader.{DdsReader, ReceivedSample}
use cyclone_dds_ws_bridge.Dds.Readers.{
  ReaderRegistry, all_readers, get_reader, get_subscribers, reader_key_eq, subscribers_of,
  subscription_eq,
}
use cyclone_dds_ws_bridge.Dds.Readers.Invariant.{IsReaders, has_id, has_repeats}
use cyclone_dds_ws_bridge.Qos.Normalize.{policy_eq}

-- A reader that is there and lists the session.
abbrev pub lists : ℕ → Option DdsReader → Bool
lists session_id none = false
lists session_id (some reader) = contains reader.subscribers session_id

-- The samples that one round over the readers takes for a session: those of each reader that lists
-- it, in the order of the round.
unfoldable pub samples_for : (d : Dds) → ℕ → ReaderRegistry → List ℕ → d.World → List ReceivedSample
samples_for d session_id readers [] w = []
samples_for d session_id readers (id ∷ ids) w =
    let (samples, w') = poll_reader d (get_reader id readers) w in
    let rest = samples_for d session_id readers ids w' in
    if lists session_id (lookup id readers.readers) then samples ++ rest else rest

module _ ⦃b : Buf⦄ (senders : Assoc ℕ ℕ) (readers : ReaderRegistry) (session_id channel : ℕ)
    (h : HasChannel senders session_id channel) (v : IsReaders readers) where
  reader_addressed :
      (samples : List ReceivedSample) (found : Option DdsReader)
      → has_repeats found ≡ false
      → addressed channel
          (fan_out samples (channels_of senders (or_no_sessions (subscribers_of found))))
        ≡ messages_of (if lists session_id found then samples else [])
  unfolding channels_of contains
  reader_addressed samples none once = fan_out-absent channel samples [] refl
  reader_addressed samples (some reader) once =
      elim (Bool-cases (contains reader.subscribers session_id)) [
        | inl listed ↦ rw listed (
            fan_out-once channel samples _ (
              channels_of-once senders session_id channel h reader.subscribers (ground arith)
                listed))
        | inr unlisted ↦ rw unlisted (
            fan_out-absent channel samples _
              (channels_of-absent senders session_id channel h reader.subscribers unlisted))
      ]

  polled_addressed :
      (d : Dds) (ids : List ℕ) (w : d.World)
      → addressed channel (fan_out_all (poll_readers d senders readers ids w).0)
        ≡ messages_of (samples_for d session_id readers ids w)
  unfolding poll_readers fan_out_all addressed samples_for get_reader get_subscribers
  polled_addressed d [] w = refl
  polled_addressed d (id ∷ ids) w =
      let next = poll_reader d (lookup id readers.readers) w in
      addressed-with_samples channel next.0 _ _
      ∙ rw
          (
            reader_addressed next.0 (lookup id readers.readers) (v.no_repeats id),
            polled_addressed d ids next.1,
          )
          (elim (Bool-cases (lists session_id (lookup id readers.readers))) [
            | inl listed ↦ rw listed (sym (messages_of-append next.0 _))
            | inr unlisted ↦ rw unlisted refl
          ])

-- The readers of the registry are visited, each once.
abbrev pub VisitsOnce : ReaderRegistry → List ℕ → Type 0
VisitsOnce readers ids =
    (is_set ids ≡ true) × ((id : ℕ) → contains ids id ≡ not (is_none (lookup id readers.readers)))

others-has_id :
    (j : ℕ) (reader : DdsReader) (m : Assoc ℕ DdsReader)
    → ((id : ℕ) → has_id id (lookup id ((j, reader) ∷ m)) ≡ true)
    → is_map ((j, reader) ∷ m) ≡ true
    → (id : ℕ) → has_id id (lookup id m) ≡ true
unfolding lookup is_map
others-has_id j reader m own once id = elim (Bool-cases (j == id)) [
  | inl same ↦
      let is : j ≡ id = ground arith in
      let gone : lookup j m ≡ none = ground arith in rw (← is, gone) refl
  | inr other ↦ rw other at (own id)
]

visited :
    (m : Assoc ℕ DdsReader)
    → ((id : ℕ) → has_id id (lookup id m) ≡ true)
    → is_map m ≡ true
    → (id : ℕ) → contains (reader_ids (all_readers m)) id ≡ not (is_none (lookup id m))
unfolding reader_ids all_readers contains lookup is_map
visited [] own once id = refl
visited ((j, reader) ∷ m) own once id =
    ground (arith, own j, visited m (others-has_id j reader m own once) (ground arith) id)

visited_once :
    (m : Assoc ℕ DdsReader)
    → ((id : ℕ) → has_id id (lookup id m) ≡ true)
    → is_map m ≡ true
    → is_set (reader_ids (all_readers m)) ≡ true
unfolding reader_ids all_readers is_set lookup is_map
visited_once [] own once = refl
visited_once ((j, reader) ∷ m) own once =
    let rest = others-has_id j reader m own once in
    ground (arith, own j, visited m rest (ground arith) j, visited_once m rest (ground arith))

-- The world after the calls of `dds_take` of one round.
unfoldable pub taken_world : (d : Dds) → ReaderRegistry → List ℕ → d.World → d.World
taken_world d readers [] w = w
taken_world d readers (id ∷ ids) w =
    taken_world d readers ids (poll_reader d (get_reader id readers) w).1

polled_world :
    (d : Dds) (senders : Assoc ℕ ℕ) (readers : ReaderRegistry) (ids : List ℕ) (w : d.World)
    → (poll_readers d senders readers ids w).1 ≡ taken_world d readers ids w
unfolding poll_readers taken_world
polled_world d senders readers [] w = refl
polled_world d senders readers (id ∷ ids) w =
    polled_world d senders readers ids (poll_reader d (get_reader id readers) w).1

module _ ⦃b : Buf⦄ {d : Dds} where
  -- In a state of the bridge that is in order, the part of a tick of the poll loop under the lock
  -- visits every reader of the registry exactly once, and makes the calls of `dds_take` of that
  -- round; the part after it, whatever calls come between, makes on a channel that belonged to one
  -- session one `try_send` for the message that `sample_to_message` makes of each sample taken
  -- from the readers that list the session, in that order, and no other, and the channel takes the
  -- messages for which the call succeeds: the others are lost.
  pub poll_send-poll_take :
      (s t : BridgeInner d) {room : ℕ} (session_id channel : ℕ)
      → IsBridge room s
      → HasChannel s.session_senders session_id channel
      → t.pending ≡ (poll_take s).pending
      → (let ids = reader_ids (all_readers s.readers.readers) in
          VisitsOnce s.readers ids
          × ((poll_take s).world ≡ taken_world d s.readers ids s.world)
          × (log : List (ℕ × Bytes × Bool)) × Calls t log (poll_send t)
          × IsSent t log
              (poll_send t)
              channel
              (messages_of (samples_for d session_id s.readers ids s.world)))
  unfolding poll_take poll_send sent_all
  poll_send-poll_take s t session_id channel v h same =
      let ids = reader_ids (all_readers s.readers.readers) in
      let maps = v.reader_maps in
      let attempts = fan_out_all t.pending in
      (
        (
          visited_once s.readers.readers maps.ids maps.one_entry,
          visited s.readers.readers maps.ids maps.one_entry,
        ),
        polled_world d s.session_senders s.readers ids s.world,
        (send_all d attempts t.world).0,
        sent_all-Calls attempts t,
        sent_all-IsSent attempts t channel _ (
            ap (λ pending. addressed channel (fan_out_all pending)) same
            ∙ polled_addressed s.session_senders s.readers session_id channel h maps d ids s.world),
      )
