-- ===== src/Dds/QosHandle.antt =====
-- src/dds/qos_handle.rs: a QoS set as the sequence of calls that configure a `dds_qos_t`.
pub mod Laws
use cyclone_dds_ws_bridge.Base.{
  Bool, Bytes, List, Option, [], if◌then◌else◌, list_eq, ltb, map, nat_eq, none, not, pair_eq, some,
  ℕ, ◌*◌, ◌-◌, ◌==◌, ◌^◌, ◌∷◌,
}
use cyclone_dds_ws_bridge.Base.Int.{as_i32, ℤ}
use cyclone_dds_ws_bridge.Base.Sets.{contains}
use cyclone_dds_ws_bridge.Qos.Normalize.{policy_eq}
use cyclone_dds_ws_bridge.Qos.Policy.{
  QosPolicy, QosSet, deadline, destination_order, durability, history, latency_budget, liveliness,
  ownership, ownership_strength, partition, presentation, reliability, time_based_filter,
  writer_data_lifecycle,
}

-- The `dds_qset_*` functions of the C library, with their arguments after the handle. A kind is
-- given by its place in the C enumeration, in the order of the source's `match`.
pub data QsetCall : Type 0 where
  qset_reliability : (kind : ℕ) → (max_blocking_time : ℕ) → QsetCall
  qset_durability : (kind : ℕ) → QsetCall
  qset_history : (kind : ℕ) → (depth : ℤ) → QsetCall
  qset_deadline : (deadline : ℕ) → QsetCall
  qset_latency_budget : (duration : ℕ) → QsetCall
  qset_ownership_strength : (value : ℤ) → QsetCall
  qset_liveliness : (kind : ℕ) → (lease_duration : ℕ) → QsetCall
  qset_destination_order : (kind : ℕ) → QsetCall
  qset_presentation : (access_scope : ℕ) → (coherent_access ordered_access : Bool) → QsetCall
  qset_partition : (partitions : List Bytes) → QsetCall
  qset_ownership : (kind : ℕ) → QsetCall
  qset_writer_data_lifecycle : (autodispose : Bool) → QsetCall
  qset_time_based_filter : (minimum_separation : ℕ) → QsetCall

-- `i64::MAX`, which the C library reads as an infinite duration.
abbrev pub i64_max : ℕ
i64_max = 2 ^ 63 - 1

-- `(ms as i64) * 1_000_000`
abbrev pub nanoseconds : ℕ → ℕ
nanoseconds ms = ms * 1_000_000

-- `if ms == 0 { i64::MAX } else { .. }`
abbrev pub nanoseconds_or_infinite : ℕ → ℕ
nanoseconds_or_infinite ms = if ms == 0 then i64_max else nanoseconds ms

-- A `match` on a kind whose last arm is `_`.
abbrev pub at_most : ℕ → ℕ → ℕ
at_most last kind = if ltb kind last then kind else last

-- `CString::new(s).unwrap_or_default()`
pub c_string_or_empty : Bytes → Bytes
c_string_or_empty s = if contains s 0 then [] else s

-- One round of the loop of `from_qos_set`.
unfoldable pub qset_call : QosPolicy → QsetCall
qset_call (reliability kind ms) = qset_reliability (at_most 1 kind) (nanoseconds ms)
qset_call (durability kind) = qset_durability (at_most 3 kind)
qset_call (history kind depth) = qset_history (at_most 1 kind) (as_i32 depth)
qset_call (deadline ms) = qset_deadline (nanoseconds_or_infinite ms)
qset_call (latency_budget ms) = qset_latency_budget (nanoseconds ms)
qset_call (ownership_strength value) = qset_ownership_strength (as_i32 value)
qset_call (liveliness kind ms) = qset_liveliness (at_most 2 kind) (nanoseconds_or_infinite ms)
qset_call (destination_order kind) = qset_destination_order (at_most 1 kind)
qset_call (presentation scope coherent ordered) =
    qset_presentation (at_most 2 scope) (not (coherent == 0)) (not (ordered == 0))
qset_call (partition ps) = qset_partition (map c_string_or_empty ps)
qset_call (ownership kind) = qset_ownership (at_most 1 kind)
qset_call (writer_data_lifecycle v) = qset_writer_data_lifecycle (not (v == 0))
qset_call (time_based_filter ms) = qset_time_based_filter (nanoseconds ms)

from_policies : Bool → List QosPolicy → Option (List QsetCall)
from_policies created [] = none
from_policies created (p ∷ ps) = if created then some (map qset_call (p ∷ ps)) else none

-- `QosHandle::from_qos_set`: `created` says whether `dds_create_qos` returned a handle. `none` is
-- the null pointer that `make_qos` passes on.
unfoldable pub make_qos : Bool → QosSet → Option (List QsetCall)
unfolding from_policies
make_qos created qos = from_policies created qos.policies
