-- ===== src/Qos/Policy.antt =====
-- `QosPolicy` and `QosSet` of src/qos.rs.
use cyclone_dds_ws_bridge.Base.{
  Bool, Bytes, List, filter, is_empty, list_eq, nat_eq, not, pair_eq, ℕ, ◌&&◌, ◌==◌,
}

pub data QosPolicy : Type 0 where
  reliability : (kind max_blocking_time_ms : ℕ) → QosPolicy
  durability : (kind : ℕ) → QosPolicy
  history : (kind depth : ℕ) → QosPolicy
  deadline : (period_ms : ℕ) → QosPolicy
  latency_budget : (duration_ms : ℕ) → QosPolicy
  ownership_strength : (value : ℕ) → QosPolicy
  liveliness : (kind lease_duration_ms : ℕ) → QosPolicy
  destination_order : (kind : ℕ) → QosPolicy
  presentation : (access_scope coherent_access ordered_access : ℕ) → QosPolicy
  partition : (partitions : List Bytes) → QosPolicy
  ownership : (kind : ℕ) → QosPolicy
  writer_data_lifecycle : (autodispose_unregistered_instances : ℕ) → QosPolicy
  time_based_filter : (minimum_separation_ms : ℕ) → QosPolicy

unfoldable pub policy_id : QosPolicy → ℕ
policy_id (reliability _ _) = 0x01
policy_id (durability _) = 0x02
policy_id (history _ _) = 0x03
policy_id (deadline _) = 0x04
policy_id (latency_budget _) = 0x05
policy_id (ownership_strength _) = 0x06
policy_id (liveliness _ _) = 0x07
policy_id (destination_order _) = 0x08
policy_id (presentation _ _ _) = 0x09
policy_id (partition _) = 0x0a
policy_id (ownership _) = 0x0b
policy_id (writer_data_lifecycle _) = 0x0c
policy_id (time_based_filter _) = 0x0d

unfoldable pub is_default : QosPolicy → Bool
is_default (reliability kind max_blocking_time_ms) = kind == 1 && max_blocking_time_ms == 100
is_default (durability kind) = kind == 0
is_default (history kind depth) = kind == 0 && depth == 1
is_default (deadline period_ms) = period_ms == 0
is_default (latency_budget duration_ms) = duration_ms == 0
is_default (ownership_strength value) = value == 0
is_default (liveliness kind lease_duration_ms) = kind == 0 && lease_duration_ms == 0
is_default (destination_order kind) = kind == 0
is_default (presentation access_scope coherent_access ordered_access) =
    access_scope == 0 && coherent_access == 0 && ordered_access == 0
is_default (partition partitions) = is_empty partitions
is_default (ownership kind) = kind == 0
is_default (writer_data_lifecycle autodispose) = autodispose == 1
is_default (time_based_filter minimum_separation_ms) = minimum_separation_ms == 0

pub record QosSet : Type 0 where
  pub policies : List QosPolicy

-- Remove the policies that are set to their default values.
unfoldable pub normalize : QosSet → QosSet
normalize q = record { policies = filter (λ p. not (is_default p)) q.policies }
