-- ===== src/Bridge/Inbox.antt =====
-- The calls of `try_send` that src/bridge.rs makes, and what they hand to one channel.
use cyclone_dds_ws_bridge.Base.{
  Bool, Bool-cases, Bytes, List, [], ap, arith, if◌then◌else◌, inl, inr, list_eq, nat_eq, pair_eq,
  refl, some, ℕ, ◌&&◌, ◌++◌, ◌==◌, ◌∙◌, ◌∷◌, ◌≡◌,
}
use cyclone_dds_ws_bridge.Base.Assoc.{Assoc, lookup}
use cyclone_dds_ws_bridge.Bridge.{BridgeInner}
use cyclone_dds_ws_bridge.Dds.Api.{Dds}
use cyclone_dds_ws_bridge.Dds.Readers.{reader_key_eq, subscription_eq}
use cyclone_dds_ws_bridge.Qos.Normalize.{policy_eq}

-- The calls for a list of messages, in order: a call that fails is logged, and its message is gone.
unfoldable pub send_all : (d : Dds) → List (ℕ × Bytes) → d.World → List (ℕ × Bytes × Bool) × d.World
send_all d [] w = ([], w)
send_all d ((sender, msg) ∷ attempts) w =
    let (sent, w') = d.try_send w sender msg in
    let (log, w'') = send_all d attempts w' in ((sender, msg, sent) ∷ log, w'')

-- What channel was sent what, whether the call succeeded or not.
abbrev pub attempts_of : List (ℕ × Bytes × Bool) → List (ℕ × Bytes)
attempts_of [] = []
attempts_of ((sender, msg, sent) ∷ log) = (sender, msg) ∷ attempts_of log

-- The log is that of calls of the library from one world to another.
abbrev pub IsLog : (d : Dds) → List (ℕ × Bytes × Bool) → d.World → d.World → Type 0
IsLog d [] w w' = w ≡ w'
IsLog d ((sender, msg, sent) ∷ log) w w' =
    ((d.try_send w sender msg).0 ≡ sent) × IsLog d log (d.try_send w sender msg).1 w'

-- The messages for one channel, in order.
unfoldable pub addressed : ℕ → List (ℕ × Bytes) → List Bytes
addressed channel [] = []
addressed channel ((sender, msg) ∷ attempts) =
    let rest = addressed channel attempts in if sender == channel then msg ∷ rest else rest

-- The messages that one channel took, in order: those whose call succeeded.
unfoldable pub inbox : ℕ → List (ℕ × Bytes × Bool) → List Bytes
inbox channel [] = []
inbox channel ((sender, msg, sent) ∷ log) =
    let rest = inbox channel log in if sender == channel && sent then msg ∷ rest else rest

-- Whether the calls on one channel succeeded, in order.
unfoldable pub results : ℕ → List (ℕ × Bytes × Bool) → List Bool
results channel [] = []
results channel ((sender, msg, sent) ∷ log) =
    let rest = results channel log in if sender == channel then sent ∷ rest else rest

-- The messages whose call succeeded.
abbrev pub kept : List Bool → List Bytes → List Bytes
kept [] msgs = []
kept (sent ∷ rs) [] = []
kept (sent ∷ rs) (msg ∷ msgs) = if sent then msg ∷ kept rs msgs else kept rs msgs

pub addressed-append :
    (channel : ℕ) (xs ys : List (ℕ × Bytes))
    → addressed channel (xs ++ ys) ≡ addressed channel xs ++ addressed channel ys
unfolding addressed
addressed-append channel [] ys = refl
addressed-append channel ((sender, msg) ∷ xs) ys = elim (Bool-cases (sender == channel)) [
  | inl own ↦ rw (own, addressed-append channel xs ys)
  | inr other ↦ rw (other, addressed-append channel xs ys)
]

inbox-append :
    (channel : ℕ) (xs ys : List (ℕ × Bytes × Bool))
    → inbox channel (xs ++ ys) ≡ inbox channel xs ++ inbox channel ys
unfolding inbox
inbox-append channel [] ys = refl
inbox-append channel ((sender, msg, sent) ∷ xs) ys = elim (Bool-cases (sender == channel && sent)) [
  | inl own ↦ rw (own, inbox-append channel xs ys)
  | inr other ↦ rw (other, inbox-append channel xs ys)
]

inbox-kept :
    (channel : ℕ) (log : List (ℕ × Bytes × Bool))
    → inbox channel log ≡ kept (results channel log) (addressed channel (attempts_of log))
unfolding inbox results addressed
inbox-kept channel [] = refl
inbox-kept channel ((sender, msg, sent) ∷ log) = ground (arith, inbox-kept channel log)

attempts_of-send_all :
    (d : Dds) (attempts : List (ℕ × Bytes)) (w : d.World)
    → attempts_of (send_all d attempts w).0 ≡ attempts
unfolding send_all
attempts_of-send_all d [] w = refl
attempts_of-send_all d ((sender, msg) ∷ attempts) w =
    ap (◌∷◌ (sender, msg)) (attempts_of-send_all d attempts (d.try_send w sender msg).1)

send_all-IsLog :
    (d : Dds) (attempts : List (ℕ × Bytes)) (w : d.World)
    → (let (log, w') = send_all d attempts w in IsLog d log w w')
unfolding send_all
send_all-IsLog d [] w = refl
send_all-IsLog d ((sender, msg) ∷ attempts) w =
    (refl, send_all-IsLog d attempts (d.try_send w sender msg).1)

-- The session has this channel, and no other session has it.
pub record HasChannel (senders : Assoc ℕ ℕ) (session_id channel : ℕ) : Type 0 where
  pub registered_at : lookup session_id senders ≡ some channel
  pub alone : (other : ℕ) → lookup other senders ≡ some channel → other ≡ session_id

module _ {d : Dds} where
  -- On the channel one `try_send` was made for each of the messages, in order, and no other, and
  -- the channel took those for which it succeeded.
  abbrev pub IsSent :
      BridgeInner d → List (ℕ × Bytes × Bool) → BridgeInner d → ℕ → List Bytes → Type 0
  IsSent s log s' channel messages =
      (addressed channel (attempts_of log) ≡ messages)
      × (inbox channel s'.outbox ≡ inbox channel s.outbox ++ kept (results channel log) messages)

  -- The calls of `try_send` that lead from one state to another.
  abbrev pub Calls : BridgeInner d → List (ℕ × Bytes × Bool) → BridgeInner d → Type 0
  Calls s log s' = (s'.outbox ≡ s.outbox ++ log) × IsLog d log s.world s'.world

  -- The state after the calls for a list of messages.
  unfoldable pub sent_all : List (ℕ × Bytes) → BridgeInner d → BridgeInner d
  sent_all attempts s =
      let (log, w) = send_all d attempts s.world in record s { world = w; outbox = s.outbox ++ log }

  pub sent_all-Calls :
      (attempts : List (ℕ × Bytes)) (s : BridgeInner d)
      → Calls s (send_all d attempts s.world).0 (sent_all attempts s)
  unfolding sent_all
  sent_all-Calls attempts s = (refl, send_all-IsLog d attempts s.world)

  pub sent_all-IsSent :
      (attempts : List (ℕ × Bytes)) (s : BridgeInner d) (channel : ℕ) (messages : List Bytes)
      → addressed channel attempts ≡ messages
      → IsSent s (send_all d attempts s.world).0 (sent_all attempts s) channel messages
  unfolding sent_all
  sent_all-IsSent attempts s channel messages e =
      let log = (send_all d attempts s.world).0 in
      let all : addressed channel (attempts_of log) ≡ messages =
        ap (addressed channel) (attempts_of-send_all d attempts s.world) ∙ e in
      (
        all,
        inbox-append channel s.outbox log
            ∙ ap (◌++◌ (inbox channel s.outbox))
                (inbox-kept channel log ∙ ap (kept (results channel log)) all),
      )
