-- ===== src/Qos/Valid.antt =====
-- The QoS sets that `parse_qos` of src/qos.rs returns and that `serialize_qos` can write.
use cyclone_dds_ws_bridge.Base.{All, List, [], length, ◌∷◌, ◌≢◌, ◌≤◌}
use cyclone_dds_ws_bridge.Base.Words.{IsU32}
use cyclone_dds_ws_bridge.Protocol.Reader.Laws.{IsText}
use cyclone_dds_ws_bridge.Qos.Policy.{
  QosPolicy, QosSet, deadline, destination_order, durability, history, latency_budget, liveliness,
  ownership, ownership_strength, partition, policy_id, presentation, reliability, time_based_filter,
  writer_data_lifecycle,
}

-- The values that each policy may hold.
abbrev pub IsPolicy : QosPolicy → Type 0
IsPolicy (reliability kind ms) = (kind ≤ 1) × IsU32 ms
IsPolicy (durability kind) = kind ≤ 3
IsPolicy (history kind depth) = (kind ≤ 1) × IsU32 depth
IsPolicy (deadline ms) = IsU32 ms
IsPolicy (latency_budget ms) = IsU32 ms
IsPolicy (ownership_strength value) = IsU32 value
IsPolicy (liveliness kind ms) = (kind ≤ 2) × IsU32 ms
IsPolicy (destination_order kind) = kind ≤ 1
IsPolicy (presentation scope coherent ordered) = (scope ≤ 2) × (coherent ≤ 1) × (ordered ≤ 1)
IsPolicy (partition ps) = (length ps ≤ 255) × All IsText ps
IsPolicy (ownership kind) = kind ≤ 1
IsPolicy (writer_data_lifecycle v) = v ≤ 1
IsPolicy (time_based_filter ms) = IsU32 ms

-- No two policies of one kind.
abbrev pub Distinct : List QosPolicy → Type 0
Distinct [] = Unit
Distinct (p ∷ ps) = All (λ q. policy_id p ≢ policy_id q) ps × Distinct ps

pub record IsQosSet (q : QosSet) : Type 0 where
  pub few : length q.policies ≤ 255
  pub valid : All IsPolicy q.policies
  pub distinct : Distinct q.policies
