-- ===== src/Qos/Normalize.antt =====
-- `PartialEq` of policies and `QosSet::normalized_eq` of src/qos.rs.
pub mod Equality
use cyclone_dds_ws_bridge.Base.{
  Bool, Eq, List, [], any, ap, arith, false, filter, if◌then◌else◌, length, list_beq_iff, list_eq,
  nat_eq, not, pair_eq, refl, true, ◌&&◌, ◌==◌, ◌↔◌, ◌∷◌, ◌≡◌,
}
use cyclone_dds_ws_bridge.Base.Sets.{contains}
use cyclone_dds_ws_bridge.Protocol.Reader.Laws.{lengths}
use cyclone_dds_ws_bridge.Qos.Policy.{
  QosPolicy, QosSet, deadline, destination_order, durability, history, latency_budget, liveliness,
  normalize, ownership, ownership_strength, partition, presentation, reliability, time_based_filter,
  writer_data_lifecycle,
}

-- The derived `==` of two policies.
unfoldable pub policy_beq : QosPolicy → QosPolicy → Bool
policy_beq (reliability a b) (reliability c d) = a == c && b == d
policy_beq (durability a) (durability c) = a == c
policy_beq (history a b) (history c d) = a == c && b == d
policy_beq (deadline a) (deadline c) = a == c
policy_beq (latency_budget a) (latency_budget c) = a == c
policy_beq (ownership_strength a) (ownership_strength c) = a == c
policy_beq (liveliness a b) (liveliness c d) = a == c && b == d
policy_beq (destination_order a) (destination_order c) = a == c
policy_beq (presentation a b x) (presentation c d y) = a == c && b == d && x == y
policy_beq (partition a) (partition c) = a == c
policy_beq (ownership a) (ownership c) = a == c
policy_beq (writer_data_lifecycle a) (writer_data_lifecycle c) = a == c
policy_beq (time_based_filter a) (time_based_filter c) = a == c
policy_beq _ _ = false

pub policy_beq_iff : (p q : QosPolicy) → (policy_beq p q ≡ true) ↔ (p ≡ q)
unfolding policy_beq
policy_beq_iff (partition a) (partition c) = ground (arith, list_beq_iff a c)
policy_beq_iff _ _ = ground arith

instance abbrev pub policy_eq : Eq QosPolicy
policy_eq = record { beq = policy_beq; beq_iff = policy_beq_iff }

-- `a.policies.iter().all(|pa| b.policies.iter().any(|pb| pa == pb))`, as the loop has it.
all_in : List QosPolicy → List QosPolicy → Bool
all_in [] bs = true
all_in (pa ∷ ps) bs = if not (any (λ pb. pa == pb) bs) then false else all_in ps bs

-- Two sets with the same policies that are not default ones, in any order.
unfoldable pub normalized_eq : QosSet → QosSet → Bool
unfolding all_in
normalized_eq x y =
    let a = (normalize x).policies in
    let b = (normalize y).policies in if not (length a == length b) then false else all_in a b

pub contains-filter :
    (f : QosPolicy → Bool) (p : QosPolicy) (ps : List QosPolicy)
    → contains (filter f ps) p ≡ (contains ps p && f p)
unfolding contains filter
contains-filter f p [] = refl
contains-filter f p (q ∷ ps) =
    let same : policy_beq q p ≡ true → f q ≡ f p = λ e. ap f ((policy_beq_iff q p).0 e) in
    ground (arith, contains-filter f p ps)

any-contains :
    (p : QosPolicy) (bs : List QosPolicy) → contains bs p ≡ true → any (λ pb. p == pb) bs ≡ true
unfolding contains
any-contains p [] h = absurd (ground arith)
any-contains p (b ∷ bs) h =
    ground (arith, any-contains p bs, policy_beq_iff p b, policy_beq_iff b p)

all_in_refl :
    (ps bs : List QosPolicy)
    → ((p : QosPolicy) → contains ps p ≡ true → contains bs p ≡ true)
    → all_in ps bs ≡ true
unfolding all_in contains
all_in_refl [] bs h = refl
all_in_refl (p ∷ ps) bs h = ground (
  arith,
  any-contains p bs (h p (ground (arith, policy_beq_iff p p))),
  all_in_refl ps bs (λ x listed. h x (ground (arith, listed))),
)

-- A set is equal to itself.
pub normalized_eq_refl : (q : QosSet) → normalized_eq q q ≡ true
unfolding normalized_eq
normalized_eq_refl q =
    ground (arith, all_in_refl (normalize q).policies (normalize q).policies (λ p h. h))

any-contains-eq : (p : QosPolicy) (bs : List QosPolicy) → any (λ pb. p == pb) bs ≡ contains bs p
unfolding contains
any-contains-eq p [] = refl
any-contains-eq p (b ∷ bs) =
    ground (arith, any-contains-eq p bs, policy_beq_iff p b, policy_beq_iff b p)

all_in-contains :
    (ps bs : List QosPolicy) (p : QosPolicy)
    → all_in ps bs ≡ true
    → contains ps p ≡ true
    → contains bs p ≡ true
unfolding all_in contains
all_in-contains [] bs p all listed = cc
all_in-contains (a ∷ ps) bs p all listed =
    ground (arith, any-contains-eq a bs, all_in-contains ps bs p, policy_beq_iff a p)

-- What `normalized_eq` tests.
pub normalized_eq_lem :
    (x y : QosSet)
    → (normalized_eq x y ≡ true) ↔ (
        (length (normalize x).policies ≡ length (normalize y).policies)
        × ((p : QosPolicy)
            → contains (normalize x).policies p ≡ true
            → contains (normalize y).policies p ≡ true))
unfolding normalized_eq
normalized_eq_lem x y = (
  λ e. (
    ground arith,
    λ p. all_in-contains (normalize x).policies (normalize y).policies p (ground arith),
  ),
  λ (lengths, all).
      ground (arith, lengths, all_in_refl (normalize x).policies (normalize y).policies all),
)
