-- ===== src/Bridge/Handler/Laws.antt =====
-- Rules for the handlers of src/bridge.rs as actions: what holds when one ends.
use cyclone_dds_ws_bridge.Base.{Bytes, Option, none, refl, some, ◌≡◌}
use cyclone_dds_ws_bridge.Base.Outcomes.{Outcome, done, failed, panicked}
use cyclone_dds_ws_bridge.Bridge.{BridgeInner}
use cyclone_dds_ws_bridge.Bridge.Handler.{Handler, and_then, ◌>>=◌, ◌>>◌}
use cyclone_dds_ws_bridge.Dds.Api.{Dds}

module _ {d : Dds} where
  -- A property of the result and the state, and one of the error message, or of a panic, and the
  -- state.
  abbrev pub Holds {ℓ} :
      {A : Type ℓ}
      → (A → BridgeInner d → Type 0)
      → (Option Bytes → BridgeInner d → Type 0)
      → Outcome Bytes A × BridgeInner d
      → Type 0
  Holds Q E (done a, s) = Q a s
  Holds Q E (failed e, s) = E (some e) s
  Holds Q E (panicked, s) = E none s

  pub record Ends {ℓ} {A : Type ℓ} (Q : A → BridgeInner d → Type 0)
      (E : Option Bytes → BridgeInner d → Type 0) (r : Outcome Bytes A × BridgeInner d)
      : Type 0 where
    pub holds : Holds Q E r

  and_then-Ends {ℓ κ} :
      {A : Type ℓ} {B : Type κ} {Q : A → BridgeInner d → Type 0} {R : B → BridgeInner d → Type 0}
      {E : Option Bytes → BridgeInner d → Type 0} (f : A → Handler d B)
      (r : Outcome Bytes A × BridgeInner d)
      → Ends Q E r
      → ((a : A) (s : BridgeInner d) → Q a s → Ends R E (f a s))
      → Ends R E (and_then r f)
  unfolding and_then
  and_then-Ends f (done a, s) h k = k a s h.holds
  and_then-Ends f (failed e, s) h k = record { holds = h.holds }
  and_then-Ends f (panicked, s) h k = record { holds = h.holds }

  -- How a chain goes on after a step whose end is known.
  pub bind-done {ℓ κ} :
      {A : Type ℓ} {B : Type κ} (m : Handler d A) (f : A → Handler d B) {s s' : BridgeInner d}
      {a : A}
      → m s ≡ (done a, s')
      → (m >>= f) s ≡ f a s'
  unfolding ◌>>=◌ and_then
  bind-done m f e = rw e refl

  pub bind-failed {ℓ κ} :
      {A : Type ℓ} {B : Type κ} (m : Handler d A) (f : A → Handler d B) {s s' : BridgeInner d}
      {msg : Bytes}
      → m s ≡ (failed msg, s')
      → (m >>= f) s ≡ (failed msg, s')
  unfolding ◌>>=◌ and_then
  bind-failed m f e = rw e refl

  pub bind-Ends {ℓ κ} :
      {A : Type ℓ} {B : Type κ} {Q : A → BridgeInner d → Type 0} {R : B → BridgeInner d → Type 0}
      {E : Option Bytes → BridgeInner d → Type 0} (m : Handler d A) {f : A → Handler d B}
      {s : BridgeInner d}
      → Ends Q E (m s)
      → ((a : A) (s' : BridgeInner d) → Q a s' → Ends R E (f a s'))
      → Ends R E ((m >>= f) s)
  unfolding ◌>>=◌
  bind-Ends m {f} {s} h k = and_then-Ends f (m s) h k

  pub then-Ends {ℓ} :
      {B : Type ℓ} {Q : BridgeInner d → Type 0} {R : B → BridgeInner d → Type 0}
      {E : Option Bytes → BridgeInner d → Type 0} (m : Handler d (Unit {0})) {k : Handler d B}
      {s : BridgeInner d}
      → Ends (λ u. Q) E (m s)
      → ((s' : BridgeInner d) → Q s' → Ends R E (k s'))
      → Ends R E ((m >> k) s)
  unfolding ◌>>◌
  then-Ends m {k} h next = bind-Ends m h (λ u s' q. next s' q)

  Holds-map {ℓ} :
      {A : Type ℓ} {Q R : A → BridgeInner d → Type 0} {E : Option Bytes → BridgeInner d → Type 0}
      (r : Outcome Bytes A × BridgeInner d)
      → Ends Q E r
      → ((a : A) (s : BridgeInner d) → Q a s → R a s)
      → Holds R E r
  Holds-map (done a, s) h k = k a s h.holds
  Holds-map (failed e, s) h k = h.holds
  Holds-map (panicked, s) h k = h.holds

  pub Ends-map {ℓ} :
      {A : Type ℓ} {Q R : A → BridgeInner d → Type 0} {E : Option Bytes → BridgeInner d → Type 0}
      (r : Outcome Bytes A × BridgeInner d)
      → Ends Q E r
      → ((a : A) (s : BridgeInner d) → Q a s → R a s)
      → Ends R E r
  Ends-map r h k = record { holds = Holds-map r h k }
