-- ===== src/Bridge/Poll/FanOut.antt =====
-- How often the sends of `reader_poll_loop` of src/bridge.rs name one channel.
-- A channel that stands once in the list.
use cyclone_dds_ws_bridge.Base.{
  Bool, Bytes, List, Option-cases, [], ap, arith, false, if◌then◌else◌, inl, inr, list_eq, nat_eq,
  not, pair_eq, refl, true, ℕ, ◌++◌, ◌==◌, ◌∙◌, ◌∷◌, ◌≡◌,
}
use cyclone_dds_ws_bridge.Base.Assoc.{Assoc, lookup}
use cyclone_dds_ws_bridge.Base.Buf.{Buf}
use cyclone_dds_ws_bridge.Base.Sets.{contains, is_set}
use cyclone_dds_ws_bridge.Bridge.Inbox.{HasChannel, addressed, addressed-append}
use cyclone_dds_ws_bridge.Bridge.Poll.{
  channels_of, fan_out, fan_out_all, fan_out_sample, sample_to_message, with_samples,
}
use cyclone_dds_ws_bridge.Dds.Reader.{ReceivedSample}
use cyclone_dds_ws_bridge.Dds.Readers.{reader_key_eq, subscription_eq}
use cyclone_dds_ws_bridge.Qos.Normalize.{policy_eq}

pub is_once : ℕ → List ℕ → Bool
unfolding contains
is_once channel [] = false
is_once channel (x ∷ xs) = if x == channel then not (contains xs channel) else is_once channel xs

addressed-absent :
    (channel : ℕ) (msg : Bytes) (channels : List ℕ)
    → contains channels channel ≡ false
    → addressed channel (fan_out_sample msg channels) ≡ []
unfolding addressed fan_out_sample contains
addressed-absent channel msg [] h = refl
addressed-absent channel msg (x ∷ xs) h = ground (arith, addressed-absent channel msg xs)

addressed-once :
    (channel : ℕ) (msg : Bytes) (channels : List ℕ)
    → is_once channel channels ≡ true
    → addressed channel (fan_out_sample msg channels) ≡ msg ∷ []
unfolding addressed fan_out_sample is_once
addressed-once channel msg [] h = cc
addressed-once channel msg (x ∷ xs) h =
    ground (arith, addressed-absent channel msg xs, addressed-once channel msg xs)

module _ (senders : Assoc ℕ ℕ) (session_id channel : ℕ)
    (h : HasChannel senders session_id channel) where
  pub channels_of-absent :
      (sids : List ℕ)
      → contains sids session_id ≡ false
      → contains (channels_of senders sids) channel ≡ false
  unfolding channels_of contains
  channels_of-absent [] e = refl
  channels_of-absent (sid ∷ sids) e = elim (Option-cases (lookup sid senders)) [
    | inl gone ↦ rw (gone, contains) (channels_of-absent sids (ground arith))
    | inr (sender, present) ↦ ground (arith, present, h.alone sid, channels_of-absent sids)
  ]

  pub channels_of-once :
      (sids : List ℕ)
      → is_set sids ≡ true
      → contains sids session_id ≡ true
      → is_once channel (channels_of senders sids) ≡ true
  unfolding channels_of contains is_set is_once
  channels_of-once [] s e = cc
  channels_of-once (sid ∷ sids) s e = elim (Option-cases (lookup sid senders)) [
    | inl gone ↦
        let known = h.registered_at in
        rw (gone, is_once) (channels_of-once sids (ground arith) (ground arith))
    | inr (sender, present) ↦
        let known = h.registered_at in
        ground (arith, present, known, h.alone sid, channels_of-once sids, channels_of-absent sids)
  ]

module _ ⦃b : Buf⦄ where
  -- The messages of samples.
  abbrev pub messages_of : List ReceivedSample → List Bytes
  messages_of [] = []
  messages_of (sample ∷ samples) = sample_to_message sample ∷ messages_of samples

  pub messages_of-append :
      (xs ys : List ReceivedSample) → messages_of (xs ++ ys) ≡ messages_of xs ++ messages_of ys
  messages_of-append [] ys = refl
  messages_of-append (x ∷ xs) ys = ap (◌∷◌ (sample_to_message x)) (messages_of-append xs ys)

  pub fan_out-absent :
      (channel : ℕ) (samples : List ReceivedSample) (channels : List ℕ)
      → contains channels channel ≡ false
      → addressed channel (fan_out samples channels) ≡ []
  unfolding fan_out addressed
  fan_out-absent channel [] channels h = refl
  fan_out-absent channel (sample ∷ samples) channels h =
      addressed-append channel (fan_out_sample (sample_to_message sample) channels)
        (fan_out samples channels)
      ∙ rw (addressed-absent channel (sample_to_message sample) channels h)
          (fan_out-absent channel samples channels h)

  pub fan_out-once :
      (channel : ℕ) (samples : List ReceivedSample) (channels : List ℕ)
      → is_once channel channels ≡ true
      → addressed channel (fan_out samples channels) ≡ messages_of samples
  unfolding fan_out addressed
  fan_out-once channel [] channels h = refl
  fan_out-once channel (sample ∷ samples) channels h =
      addressed-append channel (fan_out_sample (sample_to_message sample) channels)
        (fan_out samples channels)
      ∙ rw (addressed-once channel (sample_to_message sample) channels h)
          (ap (◌∷◌ (sample_to_message sample)) (fan_out-once channel samples channels h))

  pub addressed-with_samples :
      (channel : ℕ) (samples : List ReceivedSample) (channels : List ℕ)
      (pending : List (List ReceivedSample × List ℕ))
      → addressed channel (fan_out_all (with_samples samples channels pending))
        ≡ addressed channel (fan_out samples channels) ++ addressed channel (fan_out_all pending)
  unfolding fan_out_all fan_out addressed
  addressed-with_samples channel [] channels pending = refl
  addressed-with_samples channel (s ∷ samples) channels pending =
      addressed-append channel (fan_out (s ∷ samples) channels) (fan_out_all pending)
