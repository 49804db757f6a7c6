-- ===== src/Qos/Codec.antt =====
-- `parse_qos` and `serialize_qos` of src/qos.rs.
use Prim.Native.Nat.{bit_and, bit_or, max}
use cyclone_dds_ws_bridge.Base.{
  Bytes, List, Result, [], err, if◌then◌else◌, leb, length, list_eq, ltb, nat_eq, not, ok, pair_eq,
  suc, zero, ℕ, ◌%◌, ◌&&◌, ◌++◌, ◌==◌, ◌^◌, ◌∷◌,
}
use cyclone_dds_ws_bridge.Base.Buf.{Buf}
use cyclone_dds_ws_bridge.Base.Text.{codes, decimal}
use cyclone_dds_ws_bridge.Protocol.Errors.{
  ProtocolError, duplicate_qos_policy, invalid_qos_policy_id, invalid_qos_value,
}
use cyclone_dds_ws_bridge.Protocol.Reader.{
  Reader, ensure, ensure_byte, fail, lift, pure, read_string, u32_le, u8, write_string, ◌>>=◌, ◌>>◌,
}
use cyclone_dds_ws_bridge.Qos.Policy.{
  QosPolicy, QosSet, deadline, destination_order, durability, history, latency_budget, liveliness,
  ownership, ownership_strength, partition, policy_id, presentation, reliability, time_based_filter,
  writer_data_lifecycle,
}

unfoldable pub validate_range : Bytes → ℕ → ℕ → Result ProtocolError (Unit {0})
validate_range name value max =
    if ltb max value
    then err (
        invalid_qos_value
          (name ++ (codes ": " ++ (decimal value ++ (codes " not in 0..=" ++ decimal max)))))
    else ok tt

unfoldable pub validate_bool : Bytes → ℕ → Result ProtocolError (Unit {0})
validate_bool name value =
    if ltb 1 value
    then err (invalid_qos_value (name ++ (codes ": expected 0 or 1, got " ++ decimal value)))
    else ok tt

-- `let bit = 1u16 << policy_id` and what follows it, on the mask of the ids seen so far.
unfoldable pub mark_seen : ℕ → ℕ → ℕ → Reader ℕ
mark_seen seen_ids id mask =
    if not (bit_and seen_ids mask == 0)
    then fail (duplicate_qos_policy id)
    else pure (bit_or seen_ids mask)

-- The check for a duplicate policy id: the next mask of the ids seen, `seen_ids : u16`.
unfoldable pub check_seen : ℕ → ℕ → Reader ℕ
check_seen seen_ids id =
    if leb 0x01 id && leb id 0x0d then mark_seen seen_ids id (2 ^ id % 2 ^ 16) else pure seen_ids

module _ ⦃b : Buf⦄ where
  -- The loop over the names of a Partition.
  unfoldable pub read_strings : ℕ → Reader (List Bytes)
  read_strings zero = pure []
  read_strings (suc n) = do s ← read_string; rest ← read_strings n; pure (s ∷ rest)

  -- The cases of the `match policy_id` of the loop.
  unfoldable pub parse_reliability : Reader QosPolicy
  parse_reliability = do
    ensure 5
    kind ← u8
    lift (validate_range (codes "reliability kind") kind 1)
    max_blocking_time_ms ← u32_le
    pure (reliability kind max_blocking_time_ms)

  unfoldable pub parse_durability : Reader QosPolicy
  parse_durability = do
    ensure_byte
    kind ← u8
    lift (validate_range (codes "durability kind") kind 3)
    pure (durability kind)

  unfoldable pub parse_history : Reader QosPolicy
  parse_history = do
    ensure 5
    kind ← u8
    lift (validate_range (codes "history kind") kind 1)
    depth ← u32_le
    pure (history kind depth)

  unfoldable pub parse_deadline : Reader QosPolicy
  parse_deadline = do ensure 4; period_ms ← u32_le; pure (deadline period_ms)

  unfoldable pub parse_latency_budget : Reader QosPolicy
  parse_latency_budget = do ensure 4; duration_ms ← u32_le; pure (latency_budget duration_ms)

  unfoldable pub parse_ownership_strength : Reader QosPolicy
  parse_ownership_strength = do ensure 4; value ← u32_le; pure (ownership_strength value)

  unfoldable pub parse_liveliness : Reader QosPolicy
  parse_liveliness = do
    ensure 5
    kind ← u8
    lift (validate_range (codes "liveliness kind") kind 2)
    lease_duration_ms ← u32_le
    pure (liveliness kind lease_duration_ms)

  unfoldable pub parse_destination_order : Reader QosPolicy
  parse_destination_order = do
    ensure_byte
    kind ← u8
    lift (validate_range (codes "destination_order kind") kind 1)
    pure (destination_order kind)

  unfoldable pub parse_presentation : Reader QosPolicy
  parse_presentation = do
    ensure 3
    access_scope ← u8
    coherent_access ← u8
    ordered_access ← u8
    lift (validate_range (codes "presentation access_scope") access_scope 2)
    lift (validate_bool (codes "presentation coherent_access") coherent_access)
    lift (validate_bool (codes "presentation ordered_access") ordered_access)
    pure (presentation access_scope coherent_access ordered_access)

  unfoldable pub parse_partition : Reader QosPolicy
  parse_partition = do
    ensure_byte
    partition_count ← u8
    partitions ← read_strings partition_count
    pure (partition partitions)

  unfoldable pub parse_ownership : Reader QosPolicy
  parse_ownership = do
    ensure_byte
    kind ← u8
    lift (validate_range (codes "ownership kind") kind 1)
    pure (ownership kind)

  unfoldable pub parse_writer_data_lifecycle : Reader QosPolicy
  parse_writer_data_lifecycle = do
    ensure_byte
    v ← u8
    lift (validate_bool (codes "autodispose_unregistered_instances") v)
    pure (writer_data_lifecycle v)

  unfoldable pub parse_time_based_filter : Reader QosPolicy
  parse_time_based_filter = do
    ensure 4
    minimum_separation_ms ← u32_le
    pure (time_based_filter minimum_separation_ms)

  -- The `match policy_id` itself.
  unfoldable pub parse_policy : ℕ → Reader QosPolicy
  parse_policy id =
      if id == 0x01
      then parse_reliability
      else if id == 0x02
      then parse_durability
      else if id == 0x03
      then parse_history
      else if id == 0x04
      then parse_deadline
      else if id == 0x05
      then parse_latency_budget
      else if id == 0x06
      then parse_ownership_strength
      else if id == 0x07
      then parse_liveliness
      else if id == 0x08
      then parse_destination_order
      else if id == 0x09
      then parse_presentation
      else if id == 0x0a
      then parse_partition
      else if id == 0x0b
      then parse_ownership
      else if id == 0x0c
      then parse_writer_data_lifecycle
      else if id == 0x0d
      then parse_time_based_filter
      else fail (invalid_qos_policy_id id)

  -- The loop, `for _ in 0..policy_count`.
  unfoldable pub parse_policies : ℕ → ℕ → Reader (List QosPolicy)
  parse_policies zero seen_ids = pure []
  parse_policies (suc n) seen_ids = do
    ensure_byte
    id ← u8
    seen_ids' ← check_seen seen_ids id
    policy ← parse_policy id
    policies ← parse_policies n seen_ids'
    pure (policy ∷ policies)

  unfoldable pub parse_qos : Reader QosSet
  parse_qos = do
    ensure_byte
    policy_count ← u8
    policies ← parse_policies policy_count 0
    pure (record { policies = policies })

  unfoldable pub write_strings : List Bytes → Bytes → Bytes
  write_strings [] buf = buf
  write_strings (p ∷ ps) buf = write_strings ps (write_string buf p)

  -- The `match policy` of the loop of `serialize_qos`.
  unfoldable pub serialize_fields : QosPolicy → Bytes → Bytes
  serialize_fields (reliability kind max_blocking_time_ms) buf =
      b.put_u32_le (b.put_u8 buf kind) max_blocking_time_ms
  serialize_fields (durability kind) buf = b.put_u8 buf kind
  serialize_fields (history kind depth) buf = b.put_u32_le (b.put_u8 buf kind) depth
  serialize_fields (deadline period_ms) buf = b.put_u32_le buf period_ms
  serialize_fields (latency_budget duration_ms) buf = b.put_u32_le buf duration_ms
  serialize_fields (ownership_strength value) buf = b.put_u32_le buf value
  serialize_fields (liveliness kind lease_duration_ms) buf =
      b.put_u32_le (b.put_u8 buf kind) lease_duration_ms
  serialize_fields (destination_order kind) buf = b.put_u8 buf kind
  serialize_fields (presentation access_scope coherent_access ordered_access) buf =
      b.put_u8 (b.put_u8 (b.put_u8 buf access_scope) coherent_access) ordered_access
  serialize_fields (partition partitions) buf =
      write_strings partitions (b.put_u8 buf (length partitions % 256))
  serialize_fields (ownership kind) buf = b.put_u8 buf kind
  serialize_fields (writer_data_lifecycle autodispose) buf = b.put_u8 buf autodispose
  serialize_fields (time_based_filter minimum_separation_ms) buf =
      b.put_u32_le buf minimum_separation_ms

  unfoldable pub serialize_policies : List QosPolicy → Bytes → Bytes
  serialize_policies [] buf = buf
  serialize_policies (p ∷ ps) buf =
      serialize_policies ps (serialize_fields p (b.put_u8 buf (policy_id p)))

  unfoldable pub serialize_qos : QosSet → Bytes → Bytes
  serialize_qos qos buf = serialize_policies qos.policies (b.put_u8 buf (length qos.policies % 256))
