-- ===== src/Bridge/SingleReply.antt =====
-- Requests of src/bridge.rs that are answered by one message.
use cyclone_dds_ws_bridge.Base.{
  Bytes, List, Option, Result, [], err, inl, inr, none, ok, refl, some, suc, ℕ, ◌∷◌, ◌≡◌, ◌⊎◌,
}
use cyclone_dds_ws_bridge.Base.Buf.{Buf}
use cyclone_dds_ws_bridge.Base.Outcomes.{Outcome, done, failed, panicked}
use cyclone_dds_ws_bridge.Bridge.{BridgeInner}
use cyclone_dds_ws_bridge.Bridge.Handler.{checked}
use cyclone_dds_ws_bridge.Bridge.Handler.Laws.{Ends}
use cyclone_dds_ws_bridge.Bridge.Handler.Replies.{parsed}
use cyclone_dds_ws_bridge.Bridge.Handler.Requests.{replies}
use cyclone_dds_ws_bridge.Bridge.Invariant.{Kept, weaken}
use cyclone_dds_ws_bridge.Bridge.Invariant.Steps.{IsRefusal, Refused}
use cyclone_dds_ws_bridge.Dds.Api.{Dds}
use cyclone_dds_ws_bridge.Protocol.Codes.{ErrorCode}
use cyclone_dds_ws_bridge.Protocol.Errors.{ProtocolError}

module _ {d : Dds} where
  -- There is one message, of which this holds.
  abbrev pub OneReply : (Bytes → BridgeInner d → Type 0) → List Bytes → BridgeInner d → Type 0
  OneReply Q [] s = ⊥
  OneReply Q (msg ∷ []) s = Q msg s
  OneReply Q (msg ∷ next_msg ∷ rest) s = ⊥

module _ ⦃b : Buf⦄ {d : Dds} (request_id : ℕ) (Q : Bytes → BridgeInner d → Type 0) where
  -- One message is sent, of which this holds unless it is an error, or the handler panics.
  abbrev pub OneReplyOrRefusal : Option (List Bytes) → BridgeInner d → Type 0
  OneReplyOrRefusal none s = Unit
  OneReplyOrRefusal (some []) s = ⊥
  OneReplyOrRefusal (some (msg ∷ [])) s = Q msg s ⊎ IsRefusal request_id msg
  OneReplyOrRefusal (some (msg ∷ next_msg ∷ rest)) s = ⊥

  pub reply_or_error :
      (session_id room : ℕ) (s0 : BridgeInner d) (r : Outcome Bytes (List Bytes) × BridgeInner d)
      → Ends (OneReply Q) (Refused session_id room request_id s0) r
      → OneReplyOrRefusal (replies r.0) r.1
  unfolding replies
  reply_or_error session_id room s0 (done [], s) h = h.holds
  reply_or_error session_id room s0 (done (msg ∷ []), s) h = inl h.holds
  reply_or_error session_id room s0 (done (msg ∷ next_msg ∷ rest), s) h = h.holds
  reply_or_error session_id room s0 (failed msg, s) h = inr h.holds.1
  reply_or_error session_id room s0 (panicked, s) h = tt

module _ ⦃b : Buf⦄ {d : Dds} (session_id room request_id : ℕ) (s0 : BridgeInner d) where
  -- The payload, and that it is what the parser made of the message.
  pub parsed_as-Ends :
      {A : Type 0} (r r' : Result ProtocolError A) (s : BridgeInner d)
      → r ≡ r'
      → Kept session_id (suc room) s0 s
      → Ends
          (λ a s'. Kept session_id (suc room) s0 s' × (r ≡ ok a))
          (Refused session_id room request_id s0)
          (parsed request_id r' s)
  unfolding parsed checked
  parsed_as-Ends r (ok a) s is kept = record { holds = (kept, is) }
  parsed_as-Ends r (err e) s is (v, i) = record {
    holds = ((weaken v, i), (ErrorCode.invalid_message, _, refl, refl));
  }
