-- ===== src/Base/Outcomes.antt =====
-- The outcome of code that may return an error or panic.

pub data Outcome {ℓ κ} (E : Type ℓ) (A : Type κ) : Type (ℓ ⊔ κ) where
  done : A → Outcome E A
  failed : E → Outcome E A
  panicked : Outcome E A
