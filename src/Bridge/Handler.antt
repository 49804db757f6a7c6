-- ===== src/Bridge/Handler.antt =====
-- The handlers of src/bridge.rs as actions: each may reply with an error message or panic, and
-- leaves a state. The lock is released either way.
pub mod Laws
pub mod Replies
pub mod Writes
pub mod Requests
use cyclone_dds_ws_bridge.Base.{Bytes, Result, err, ok}
use cyclone_dds_ws_bridge.Base.Outcomes.{Outcome, done, failed, panicked}
use cyclone_dds_ws_bridge.Bridge.{BridgeInner}
use cyclone_dds_ws_bridge.Dds.Api.{Dds}

abbrev pub Handler {ℓ} : Dds → Type ℓ → Type ℓ
Handler d A = BridgeInner d → Outcome Bytes A × BridgeInner d

module _ {d : Dds} where
  infixl 5 ◌>>=◌ ◌>>◌
  unfoldable pub and_then {ℓ κ} :
      {A : Type ℓ} {B : Type κ}
      → Outcome Bytes A × BridgeInner d
      → (A → Handler d B)
      → Outcome Bytes B × BridgeInner d
  and_then (done a, s) f = f a s
  and_then (failed e, s) f = (failed e, s)
  and_then (panicked, s) f = (panicked, s)

  unfoldable pub ◌>>=◌ {ℓ κ} :
      {A : Type ℓ} {B : Type κ} → Handler d A → (A → Handler d B) → Handler d B
  unfolding and_then
  ◌>>=◌ m f s = and_then (m s) f

  unfoldable pub ◌>>◌ {ℓ} : {B : Type ℓ} → Handler d (Unit {0}) → Handler d B → Handler d B
  unfolding ◌>>=◌
  m >> k = m >>= λ _. k

  unfoldable pub pure {ℓ} : {A : Type ℓ} → A → Handler d A
  pure a s = (done a, s)

  unfoldable pub gets {ℓ} : {A : Type ℓ} → (BridgeInner d → A) → Handler d A
  gets f s = (done (f s), s)

  -- `result.map_err(..)?`
  unfoldable pub checked {ℓ} : {A : Type ℓ} → Result Bytes A → Handler d A
  checked (ok a) s = (done a, s)
  checked (err e) s = (failed e, s)
