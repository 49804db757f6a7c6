-- ===== src/Bridge/Notified/Sessions.antt =====
-- The loop of `resp_with_dispose_notification` of src/bridge.rs over the sessions of one reader.
-- A message, if the test holds.
use cyclone_dds_ws_bridge.Base.{
  Bool, Bool-cases, Bytes, List, Option-cases, [], ap, append-nil, arith, false, if◌then◌else◌, inl,
  inr, list_eq, nat_eq, pair_eq, refl, sym, true, ℕ, ◌++◌, ◌==◌, ◌∙◌, ◌∷◌, ◌≡◌, ◌≢◌,
}
use cyclone_dds_ws_bridge.Base.Assoc.{Assoc, lookup}
use cyclone_dds_ws_bridge.Base.Sets.{contains, is_set}
use cyclone_dds_ws_bridge.Bridge.Handler.Writes.{notify_session, notify_sessions}
use cyclone_dds_ws_bridge.Bridge.Inbox.{HasChannel, addressed, addressed-append}
use cyclone_dds_ws_bridge.Dds.Readers.{reader_key_eq, subscription_eq}
use cyclone_dds_ws_bridge.Qos.Normalize.{policy_eq}

abbrev pub once_if : Bool → Bytes → List Bytes
once_if listed msg = if listed then msg ∷ [] else []

once_if-append :
    (xs : List Bytes) (first later : Bool) (msg : Bytes)
    → (first ≡ true → later ≡ false)
    → (xs ++ once_if first msg) ++ once_if later msg
      ≡ xs ++ once_if (if first then true else later) msg
once_if-append xs true later msg h =
    let none_later : later ≡ false = h refl in rw none_later (append-nil (xs ++ msg ∷ []))
once_if-append xs false later msg h = rw (append-nil xs) refl

module _ (msg : Bytes) (requesting : ℕ) (senders : Assoc ℕ ℕ) where
  notify_session-own :
      (sid : ℕ) (messages : List Bytes) (sent : List (ℕ × Bytes))
      → (notify_session msg requesting senders sid (messages, sent)).0
        ≡ messages ++ once_if (sid == requesting) msg
  unfolding notify_session
  notify_session-own sid messages sent = elim (Bool-cases (sid == requesting)) [
    | inl own ↦ rw own refl
    | inr other ↦ elim (Option-cases (lookup sid senders)) [
      | inl absent ↦ rw (other, absent) (sym (append-nil messages))
      | inr (sender, present) ↦ rw (other, present) (sym (append-nil messages))
    ]
  ]

  pub notify_sessions-own :
      (sids : List ℕ) (acc : List Bytes × List (ℕ × Bytes))
      → is_set sids ≡ true
      → (notify_sessions msg requesting senders sids acc).0
        ≡ acc.0 ++ once_if (contains sids requesting) msg
  unfolding notify_sessions contains is_set
  notify_sessions-own [] (messages, sent) s = sym (append-nil messages)
  notify_sessions-own (sid ∷ sids) (messages, sent) s =
      notify_sessions-own sids (notify_session msg requesting senders sid (messages, sent))
        (ground arith)
      ∙ rw (notify_session-own sid messages sent) (
          once_if-append messages (sid == requesting) (contains sids requesting) msg
            (λ own. let is : sid ≡ requesting = ground arith in ground arith))

  module _ (sid channel : ℕ) (h : HasChannel senders sid channel) (apart : sid ≢ requesting) where
    -- One session at a time.
    notify_session-addressed :
        (other : ℕ) (messages : List Bytes) (sent : List (ℕ × Bytes))
        → addressed channel (notify_session msg requesting senders other (messages, sent)).1
          ≡ addressed channel sent ++ once_if (other == sid) msg
    unfolding notify_session addressed
    notify_session-addressed other messages sent = elim (Bool-cases (other == requesting)) [
      | inl own ↦
          let foreign : (other == sid) ≡ false = ground arith in
          rw (own, foreign) (sym (append-nil (addressed channel sent)))
      | inr not_own ↦ elim (Option-cases (lookup other senders)) [
        | inl absent ↦
            let known = h.registered_at in
            let foreign : (other == sid) ≡ false = ground (arith, absent, known) in
            rw (not_own, absent, foreign) (sym (append-nil (addressed channel sent)))
        | inr (sender, present) ↦
            let known = h.registered_at in
            let same : (sender == channel) ≡ (other == sid) =
              ground (arith, present, known, h.alone other) in
            rw (not_own, present)
              (addressed-append channel sent ((sender, msg) ∷ [])
                ∙ ap (◌++◌ (addressed channel sent)) (rw same refl))
      ]
    ]

    pub notify_sessions-addressed :
        (sids : List ℕ) (acc : List Bytes × List (ℕ × Bytes))
        → is_set sids ≡ true
        → addressed channel (notify_sessions msg requesting senders sids acc).1
          ≡ addressed channel acc.1 ++ once_if (contains sids sid) msg
    unfolding notify_sessions contains is_set
    notify_sessions-addressed [] (messages, sent) s = sym (append-nil _)
    notify_sessions-addressed (other ∷ sids) (messages, sent) s =
        notify_sessions-addressed sids
          (notify_session msg requesting senders other (messages, sent)) (ground arith)
        ∙ rw (notify_session-addressed other messages sent) (
            once_if-append (addressed channel sent) (other == sid) (contains sids sid) msg
              (λ own. let is : other ≡ sid = ground arith in ground arith))
