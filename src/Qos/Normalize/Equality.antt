-- ===== src/Qos/Normalize/Equality.antt =====
-- `normalized_eq` of src/qos.rs against the table of default values of docs/protocol.md.
use cyclone_dds_ws_bridge.Base.{
  Bool, Bool-cases, List, [], arith, false, filter, inl, inr, length, list_eq, nat_eq, not, pair_eq,
  refl, true, ◌&&◌, ◌<◌, ◌↔◌, ◌∙◌, ◌∷◌, ◌≡◌, ◌≤◌,
}
use cyclone_dds_ws_bridge.Base.Sets.{contains, contains-set_remove, is_set, set_remove}
use cyclone_dds_ws_bridge.Qos.Normalize.{
  contains-filter, normalized_eq, normalized_eq_lem, policy_beq, policy_beq_iff, policy_eq,
}
use cyclone_dds_ws_bridge.Qos.Policy.{
  QosPolicy, QosSet, deadline, destination_order, durability, history, is_default, latency_budget,
  liveliness, normalize, ownership, ownership_strength, partition, presentation, reliability,
  time_based_filter, writer_data_lifecycle,
}

-- The column of default values of the table of policies.
abbrev pub documented_defaults : List QosPolicy
documented_defaults =
    reliability 1 100
    ∷ durability 0
    ∷ history 0 1
    ∷ deadline 0
    ∷ latency_budget 0
    ∷ ownership_strength 0
    ∷ liveliness 0 0
    ∷ destination_order 0
    ∷ presentation 0 0 0
    ∷ partition []
    ∷ ownership 0
    ∷ writer_data_lifecycle 1
    ∷ time_based_filter 0
    ∷ []

is_default_lem : (p : QosPolicy) → is_default p ≡ contains documented_defaults p
unfolding is_default contains policy_beq
is_default_lem (partition []) = refl
is_default_lem (partition (x ∷ xs)) = refl
is_default_lem (reliability k m) = ground arith
is_default_lem _ = ground arith

length-set_remove :
    (p : QosPolicy) (xs : List QosPolicy)
    → (length (set_remove p xs) ≤ length xs)
      × (contains xs p ≡ true → length (set_remove p xs) < length xs)
unfolding contains set_remove
length-set_remove p [] = (omega arith, λ h. cc)
length-set_remove p (x ∷ xs) =
    let (le, lt) = length-set_remove p xs in (ground (arith, le), λ h. ground (arith, le, lt))

-- A list without repetitions is no longer than one with all of its members.
subset-length :
    (xs ys : List QosPolicy)
    → is_set xs ≡ true
    → ((p : QosPolicy) → contains xs p ≡ true → contains ys p ≡ true)
    → length xs ≤ length ys
unfolding contains is_set
subset-length [] ys once sub = omega arith
subset-length (x ∷ xs) ys once sub =
    let own : contains (x ∷ xs) x ≡ true = ground (arith, policy_beq_iff x x) in
    let rest = subset-length xs (set_remove x ys) (ground arith) (λ p listed.
      contains-set_remove x p ys ∙ ground (arith, sub p, once, listed, policy_beq_iff x p)) in
    omega (arith, rest, (length-set_remove x ys).1 (sub x own))

-- If it is as long as that list, it has all members of it.
subset-back :
    (xs ys : List QosPolicy) (q : QosPolicy)
    → is_set xs ≡ true
    → ((p : QosPolicy) → contains xs p ≡ true → contains ys p ≡ true)
    → length xs ≡ length ys
    → contains ys q ≡ true
    → contains xs q ≡ true
unfolding contains is_set
subset-back xs ys q once sub same there = elim (Bool-cases (contains xs q)) [
  | inl listed ↦ listed
  | inr missing ↦
      let longer =
        subset-length (q ∷ xs) ys (ground (arith, once, missing))
          (λ p listed. ground (arith, sub p, there, listed, policy_beq_iff q p)) in
      absurd (omega (arith, longer, same))
]

is_set-filter :
    (f : QosPolicy → Bool) (xs : List QosPolicy) → is_set xs ≡ true → is_set (filter f xs) ≡ true
unfolding is_set filter
is_set-filter f [] once = refl
is_set-filter f (x ∷ xs) once = ground (arith, contains-filter f x xs, is_set-filter f xs)

-- The same policies, but for those with default values.
abbrev pub SameNonDefaults : QosSet → QosSet → Type 0
SameNonDefaults x y =
    (p : QosPolicy)
    → contains documented_defaults p ≡ false
    → contains x.policies p ≡ contains y.policies p

normalize-contains :
    (q : QosSet) (p : QosPolicy)
    → contains (normalize q).policies p
      ≡ (contains q.policies p && not (contains documented_defaults p))
unfolding normalize
normalize-contains q p =
    contains-filter (λ r. not (is_default r)) p q.policies ∙ rw (is_default_lem p) refl

normalize-is_set : (q : QosSet) → is_set q.policies ≡ true → is_set (normalize q).policies ≡ true
unfolding normalize
normalize-is_set q once = is_set-filter (λ r. not (is_default r)) q.policies once

-- Two QoS sets that list no policy twice are equal for `normalized_eq` exactly if they list the
-- same policies, in whatever order, but for those that docs/protocol.md names as the defaults of
-- their kinds.
pub normalized_eq_iff :
    (x y : QosSet)
    → is_set x.policies ≡ true
    → is_set y.policies ≡ true
    → (normalized_eq x y ≡ true) ↔ SameNonDefaults x y
normalized_eq_iff x y once once' =
    let a = (normalize x).policies in
    let b = (normalize y).policies in
    let in_a = normalize-contains x in
    let in_b = normalize-contains y in
    (
      λ e p other.
          let (same, sub) = (normalized_eq_lem x y).0 e in
          ground (
            arith,
            in_a p,
            in_b p,
            other,
            sub p,
            subset-back a b p (normalize-is_set x once) sub same,
          ),
      λ same.
          let sub : (p : QosPolicy) → contains a p ≡ true → contains b p ≡ true =
            λ p listed. ground (arith, in_a p, in_b p, same p, listed) in
          let back : (p : QosPolicy) → contains b p ≡ true → contains a p ≡ true =
            λ p listed. ground (arith, in_a p, in_b p, same p, listed) in
          (normalized_eq_lem x y).1 (
            omega (
              arith,
              subset-length a b (normalize-is_set x once) sub,
              subset-length b a (normalize-is_set y once') back,
            ),
            sub,
          ),
    )
