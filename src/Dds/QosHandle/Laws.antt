-- ===== src/Dds/QosHandle/Laws.antt =====
-- What `from_qos_set` of src/dds/qos_handle.rs tells the C library.
use cyclone_dds_ws_bridge.Base.{
  All, Bytes, List, [], ap, arith, false, list_eq, map, nat_eq, pair_eq, refl, sym, ℕ, ◌∙◌, ◌∷◌,
  ◌≡◌, ◌≤◌,
}
use cyclone_dds_ws_bridge.Base.Sets.{contains}
use cyclone_dds_ws_bridge.Dds.QosHandle.{
  QsetCall, c_string_or_empty, i64_max, qset_call, qset_deadline, qset_latency_budget,
  qset_liveliness, qset_reliability, qset_time_based_filter,
}
use cyclone_dds_ws_bridge.Qos.Normalize.{policy_eq}
use cyclone_dds_ws_bridge.Qos.Policy.{
  QosPolicy, deadline, destination_order, durability, history, latency_budget, liveliness,
  ownership, ownership_strength, partition, presentation, reliability, time_based_filter,
  writer_data_lifecycle,
}
use cyclone_dds_ws_bridge.Qos.Valid.{IsPolicy}

-- The durations of a call.
abbrev pub durations : QsetCall → List ℕ
durations (qset_reliability kind t) = t ∷ []
durations (qset_deadline t) = t ∷ []
durations (qset_latency_budget t) = t ∷ []
durations (qset_liveliness kind t) = t ∷ []
durations (qset_time_based_filter t) = t ∷ []
durations _ = []

-- Every duration that a valid policy gives the C library fits in a signed 64-bit integer.
durations-qset_call :
    (p : QosPolicy) → IsPolicy p → All (λ t. t ≤ i64_max) (durations (qset_call p))
unfolding qset_call
durations-qset_call (reliability kind ms) v = (omega arith, tt)
durations-qset_call (deadline ms) v = (ground arith, tt)
durations-qset_call (latency_budget ms) v = (omega arith, tt)
durations-qset_call (liveliness kind ms) v = (ground arith, tt)
durations-qset_call (time_based_filter ms) v = (omega arith, tt)
durations-qset_call _ v = tt

-- The texts of a policy, which must not have a NUL byte to reach the C library.
abbrev pub texts : QosPolicy → List Bytes
texts (partition ps) = ps
texts _ = []

unchanged : (ps : List Bytes) → All (λ s. contains s 0 ≡ false) ps → map c_string_or_empty ps ≡ ps
unfolding c_string_or_empty
unchanged [] m = refl
unchanged (s ∷ ps) (none_in_s, m) = rw (none_in_s, unchanged ps m) refl

-- Two valid policies whose texts have no NUL byte lead to the same call of the C library only if
-- they are the same policy: kinds, flags, durations and depths all reach it distinctly.
pub qset_call_inj :
    (p q : QosPolicy)
    → IsPolicy p
    → IsPolicy q
    → All (λ s. contains s 0 ≡ false) (texts p)
    → All (λ s. contains s 0 ≡ false) (texts q)
    → qset_call p ≡ qset_call q
    → p ≡ q
unfolding qset_call
qset_call_inj (reliability a b) (reliability c d) v u _ _ e = ground arith
qset_call_inj (durability a) (durability c) v u _ _ e = ground arith
qset_call_inj (history a b) (history c d) v u _ _ e = ground arith
qset_call_inj (deadline a) (deadline c) v u _ _ e = ground arith
qset_call_inj (latency_budget a) (latency_budget c) v u _ _ e = ground arith
qset_call_inj (ownership_strength a) (ownership_strength c) v u _ _ e = ground arith
qset_call_inj (liveliness a b) (liveliness c d) v u _ _ e = ground arith
qset_call_inj (destination_order a) (destination_order c) v u _ _ e = ground arith
qset_call_inj (presentation a b x) (presentation c d y) v u _ _ e = ground arith
qset_call_inj (partition a) (partition c) v u m n e =
    let same : map c_string_or_empty a ≡ map c_string_or_empty c = ground (arith, e) in
    ap partition (sym (unchanged a m) ∙ same ∙ unchanged c n)
qset_call_inj (ownership a) (ownership c) v u _ _ e = ground arith
qset_call_inj (writer_data_lifecycle a) (writer_data_lifecycle c) v u _ _ e = ground arith
qset_call_inj (time_based_filter a) (time_based_filter c) v u _ _ e = ground arith
qset_call_inj _ _ v u _ _ e = absurd (ground arith)
