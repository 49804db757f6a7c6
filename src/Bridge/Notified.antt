-- ===== src/Bridge/Notified.antt =====
-- Whom `resp_with_dispose_notification` of src/bridge.rs tells, and how often.
mod Sessions
use cyclone_dds_ws_bridge.Base.{
  All, Bool, Bool-cases, Bytes, List, Option, [], ap, append-nil, append_assoc, arith, false,
  if◌then◌else◌, inl, inr, list_eq, nat_eq, none, pair_eq, refl, some, sym, true, ℕ, ◌++◌, ◌==◌,
  ◌∙◌, ◌∷◌, ◌≡◌, ◌≢◌,
}
use cyclone_dds_ws_bridge.Base.Assoc.{Assoc, is_map, lookup}
use cyclone_dds_ws_bridge.Base.Buf.{Buf}
use cyclone_dds_ws_bridge.Base.Outcomes.{Outcome, done}
use cyclone_dds_ws_bridge.Base.Sets.{contains, is_set}
use cyclone_dds_ws_bridge.Bridge.{BridgeInner}
use cyclone_dds_ws_bridge.Bridge.Handler.Writes.{
  dispose_target, disposed_message, listeners, notified, notify_readers, notify_sessions,
  resp_with_dispose_notification,
}
use cyclone_dds_ws_bridge.Bridge.Inbox.{
  Calls, HasChannel, IsSent, addressed, send_all, sent_all, sent_all-Calls, sent_all-IsSent,
}
use cyclone_dds_ws_bridge.Bridge.Invariant.{IsBridge}
use cyclone_dds_ws_bridge.Bridge.Notified.Sessions.{
  notify_sessions-addressed, notify_sessions-own, once_if,
}
use cyclone_dds_ws_bridge.Dds.Api.{Dds}
use cyclone_dds_ws_bridge.Dds.Reader.{DdsReader}
use cyclone_dds_ws_bridge.Dds.Readers.{all_readers, reader_key_eq, subscription_eq}
use cyclone_dds_ws_bridge.Dds.Readers.Invariant.{IsReaders, has_repeats}
use cyclone_dds_ws_bridge.Protocol.Codes.{MsgType}
use cyclone_dds_ws_bridge.Protocol.Header.{build_message}
use cyclone_dds_ws_bridge.Protocol.Messages.{WriteMode}
use cyclone_dds_ws_bridge.Protocol.Serialize.{serialize_data_disposed}
use cyclone_dds_ws_bridge.Qos.Normalize.{policy_eq}

-- One copy for each reader of the topic and the type that lists the session.
abbrev pub copies_for : Bytes → Bytes → Bytes → ℕ → List DdsReader → List Bytes
copies_for msg topic_name type_name sid [] = []
copies_for msg topic_name type_name sid (reader ∷ readers) =
    let rest = copies_for msg topic_name type_name sid readers in
    if contains (listeners topic_name type_name reader) sid then msg ∷ rest else rest

-- The readers list no session twice.
abbrev AllSets : List DdsReader → Type 0
AllSets = All (λ reader. is_set reader.subscribers ≡ true)

listeners-is_set :
    (topic_name type_name : Bytes) (reader : DdsReader)
    → is_set reader.subscribers ≡ true
    → is_set (listeners topic_name type_name reader) ≡ true
unfolding is_set
listeners-is_set topic_name type_name reader h = ground arith

once_if-copies :
    (xs rest : List Bytes) (listed : Bool) (msg : Bytes)
    → (xs ++ once_if listed msg) ++ rest ≡ xs ++ (if listed then msg ∷ rest else rest)
once_if-copies xs rest true msg = append_assoc xs (msg ∷ []) rest
once_if-copies xs rest false msg = rw (append-nil xs) refl

module _ (msg : Bytes) (requesting : ℕ) (senders : Assoc ℕ ℕ) (t y : Bytes) where
  notify_readers-own :
      (readers : List DdsReader) (acc : List Bytes × List (ℕ × Bytes))
      → AllSets readers
      → (notify_readers msg requesting senders (t, y) readers acc).0
        ≡ acc.0 ++ copies_for msg t y requesting readers
  unfolding notify_readers
  notify_readers-own [] acc h = sym (append-nil acc.0)
  notify_readers-own (reader ∷ readers) acc (h, hs) =
      notify_readers-own readers (notify_sessions msg requesting senders (listeners t y reader) acc)
        hs
      ∙ rw
          (notify_sessions-own msg requesting senders (listeners t y reader) acc
            (listeners-is_set t y reader h))
          (once_if-copies acc.0 (copies_for msg t y requesting readers)
            (contains (listeners t y reader) requesting) msg)

  notify_readers-addressed :
      (sid channel : ℕ)
      → HasChannel senders sid channel
      → sid ≢ requesting
      → (readers : List DdsReader) (acc : List Bytes × List (ℕ × Bytes)) → AllSets readers
      → addressed channel (notify_readers msg requesting senders (t, y) readers acc).1
        ≡ addressed channel acc.1 ++ copies_for msg t y sid readers
  unfolding notify_readers
  notify_readers-addressed sid channel c apart [] acc h = sym (append-nil _)
  notify_readers-addressed sid channel c apart (reader ∷ readers) acc (h, hs) =
      notify_readers-addressed sid channel c apart readers
        (notify_sessions msg requesting senders (listeners t y reader) acc) hs
      ∙ rw
          (notify_sessions-addressed msg requesting senders sid channel c apart
            (listeners t y reader) acc (listeners-is_set t y reader h))
          (once_if-copies (addressed channel acc.1) (copies_for msg t y sid readers)
            (contains (listeners t y reader) sid) msg)

all_readers-AllSets :
    (m : Assoc ℕ DdsReader)
    → ((id : ℕ) → has_repeats (lookup id m) ≡ false)
    → is_map m ≡ true
    → AllSets (all_readers m)
unfolding all_readers lookup is_map
all_readers-AllSets [] once h = tt
all_readers-AllSets ((j, reader) ∷ m) once h = (
  ground (arith, once j),
  all_readers-AllSets m
      (λ id. elim (Bool-cases (j == id)) [
        | inl same ↦
            let is : j ≡ id = ground arith in
            let gone : lookup j m ≡ none = ground arith in rw (← is, gone) refl
        | inr other ↦ rw other at (once id)
      ])
      (ground arith),
)

-- A DATA_DISPOSED message with no time stamp, of the topic and the key that were disposed.
abbrev pub notice : ⦃b : Buf⦄ → Bytes → Bytes → Bytes
notice topic_name key_data = build_message MsgType.data_disposed 0 (
    serialize_data_disposed
      (record { topic_name = topic_name; source_timestamp = 0; key_data = key_data }))

module _ ⦃b : Buf⦄ {d : Dds} (requesting : ℕ) (resp : Bytes) (s : BridgeInner d) where
  -- The requesting session gets its reply and its own copies; for every other session one `try_send`
  -- is made for each of its copies.
  abbrev pub IsNotified :
      Option (Bytes × Bytes × Bytes) → Outcome Bytes (List Bytes) × BridgeInner d → Type 0
  IsNotified none r = r ≡ (done (resp ∷ []), s)
  IsNotified (some (t, y, key_data)) r =
      let msg = notice t key_data in
      let readers = all_readers s.readers.readers in
      (r.0 ≡ done (resp ∷ copies_for msg t y requesting readers))
      × (log : List (ℕ × Bytes × Bool)) × Calls s log r.1
      × ((sid channel : ℕ)
          → HasChannel s.session_senders sid channel
          → sid ≢ requesting
          → IsSent s log r.1 channel (copies_for msg t y sid readers))

  notified-IsNotified :
      (target : Option (Bytes × Bytes × Bytes))
      → IsReaders s.readers
      → IsNotified target (notified s requesting resp target)
  unfolding notified sent_all addressed disposed_message
  notified-IsNotified none v = refl
  notified-IsNotified (some (t, y, key_data)) v =
      let msg = disposed_message t key_data in
      let sets = all_readers-AllSets s.readers.readers v.no_repeats v.one_entry in
      let readers = all_readers s.readers.readers in
      let (messages, attempts) =
        notify_readers msg requesting s.session_senders (t, y) readers (resp ∷ [], []) in
      (
        ap (λ m. done m)
            (notify_readers-own msg requesting s.session_senders t y readers (resp ∷ [], []) sets),
        (send_all d attempts s.world).0,
        sent_all-Calls attempts s,
        λ sid channel c apart. sent_all-IsSent attempts s channel _ (
            notify_readers-addressed msg requesting s.session_senders t y sid channel c apart
              readers (resp ∷ [], []) sets),
      )

  -- In a state of the bridge that is in order, a dispose whose topic can be found gives its
  -- session the reply and then one DATA_DISPOSED message for every reader of that topic and type
  -- that lists the session, and on the channel of every other session that has one of its own
  -- makes one `try_send` for every such reader that lists that session, and no other; the channel
  -- takes the messages for which the call succeeds, and the others are lost. If the topic cannot
  -- be found, the reply is all, and nothing changes.
  pub resp_with_dispose_notification-IsNotified :
      {room : ℕ} (mode : WriteMode)
      → IsBridge room s
      → IsNotified
          (dispose_target s.writers mode)
          (resp_with_dispose_notification requesting resp mode s)
  unfolding resp_with_dispose_notification
  resp_with_dispose_notification-IsNotified mode v =
      notified-IsNotified (dispose_target s.writers mode) v.reader_maps
