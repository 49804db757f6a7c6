-- ===== src/Qos/RoundTrip/Seen.antt =====
-- The mask of the policy ids that the loop of `parse_qos` has seen.
use cyclone_dds_ws_bridge.Base.{
  All, List, [], arith, leb, refl, suc, true, zero, ℕ, ◌%◌, ◌&&◌, ◌*◌, ◌^◌, ◌∙◌, ◌∷◌, ◌≡◌, ◌≢◌,
}
use cyclone_dds_ws_bridge.Base.Words.{bit, bit-with_bit, bit_and-pow, bit_or-pow, with_bit}
use cyclone_dds_ws_bridge.Protocol.Reader.{pure}
use cyclone_dds_ws_bridge.Protocol.Reader.Laws.{Reads}
use cyclone_dds_ws_bridge.Qos.Codec.{check_seen, mark_seen}
use cyclone_dds_ws_bridge.Qos.Policy.{QosPolicy, deadline, policy_id}
use cyclone_dds_ws_bridge.Qos.Valid.{Distinct}

pub mask_lem : (p : QosPolicy) → 2 ^ policy_id p % 2 ^ 16 ≡ 2 ^ policy_id p
unfolding policy_id
mask_lem (deadline _) = refl
mask_lem _ = refl

pub in_range : (p : QosPolicy) → (leb 0x01 (policy_id p) && leb (policy_id p) 0x0d) ≡ true
unfolding policy_id
in_range (deadline _) = refl
in_range _ = refl

mark_seen-Reads :
    (seen k : ℕ) → bit k seen ≡ 0 → Reads (mark_seen seen k (2 ^ k)) [] (with_bit k seen)
unfolding mark_seen pure
mark_seen-Reads seen k h =
    let clear : bit k seen * 2 ^ k ≡ 0 = rw h (omega arith) in
    record { at = λ rest. rw (bit_and-pow k seen, clear, bit_or-pow k seen) refl }

pub check_seen-Reads :
    (seen : ℕ) (p : QosPolicy)
    → bit (policy_id p) seen ≡ 0
    → Reads (check_seen seen (policy_id p)) [] (with_bit (policy_id p) seen)
unfolding check_seen
check_seen-Reads seen p h = rw (in_range p, mask_lem p) (mark_seen-Reads seen (policy_id p) h)

-- No policy of the list has its bit set in the mask.
abbrev pub Fresh : ℕ → List QosPolicy → Type 0
Fresh seen [] = Unit
Fresh seen (p ∷ ps) = (bit (policy_id p) seen ≡ 0) × Fresh (with_bit (policy_id p) seen) ps

abbrev pub Unseen : ℕ → List QosPolicy → Type 0
Unseen seen = All (λ p. bit (policy_id p) seen ≡ 0)

Unseen-with_bit :
    (p : QosPolicy) (seen : ℕ) (ps : List QosPolicy)
    → All (λ q. policy_id p ≢ policy_id q) ps
    → Unseen seen ps
    → Unseen (with_bit (policy_id p) seen) ps
Unseen-with_bit p seen [] d u = tt
Unseen-with_bit p seen (q ∷ ps) d u = (
  bit-with_bit (policy_id p) (policy_id q) seen ∙ ground (arith, d.0, u.0),
  Unseen-with_bit p seen ps d.1 u.1,
)

pub Fresh-of_Distinct :
    (seen : ℕ) (ps : List QosPolicy) → Distinct ps → Unseen seen ps → Fresh seen ps
Fresh-of_Distinct seen [] d u = tt
Fresh-of_Distinct seen (p ∷ ps) d u = (
  u.0,
  Fresh-of_Distinct (with_bit (policy_id p) seen) ps d.1 (Unseen-with_bit p seen ps d.0 u.1),
)

bit-zero : (k : ℕ) → bit k 0 ≡ 0
unfolding bit
bit-zero zero = refl
bit-zero (suc k) = bit-zero k

pub Unseen-zero : (ps : List QosPolicy) → Unseen 0 ps
Unseen-zero [] = tt
Unseen-zero (p ∷ ps) = (bit-zero (policy_id p), Unseen-zero ps)
