-- ===== src/Qos/RoundTrip.antt =====
-- Reading QoS sets back.
pub mod Kinds
pub mod Seen
use cyclone_dds_ws_bridge.Base.{
  All, Bytes, List, [], append-nil, append_assoc, arith, length, ok, sym, ℕ, ◌%◌, ◌++◌, ◌<◌, ◌∷◌,
  ◌≡◌,
}
use cyclone_dds_ws_bridge.Base.Buf.{Buf}
use cyclone_dds_ws_bridge.Base.Words.{to_le_bytes, with_bit}
use cyclone_dds_ws_bridge.Protocol.Reader.Laws.{
  Reads, Reads-bind, Reads-bind_nil, Reads-map, ensure_byte-Reads, lengths, pure-Reads, u8-Reads,
}
use cyclone_dds_ws_bridge.Qos.Codec.{
  parse_policies, parse_policy, parse_qos, serialize_fields, serialize_policies, serialize_qos,
}
use cyclone_dds_ws_bridge.Qos.Policy.{
  QosPolicy, QosSet, deadline, destination_order, durability, history, latency_budget, liveliness,
  ownership, ownership_strength, partition, policy_id, presentation, reliability, time_based_filter,
  writer_data_lifecycle,
}
use cyclone_dds_ws_bridge.Qos.RoundTrip.Kinds.{
  deadline-Reads, destination_order-Reads, durability-Reads, history-Reads, latency_budget-Reads,
  liveliness-Reads, ownership-Reads, ownership_strength-Reads, partition-Reads, presentation-Reads,
  reliability-Reads, strings_bytes, time_based_filter-Reads, write_strings-append,
  writer_data_lifecycle-Reads,
}
use cyclone_dds_ws_bridge.Qos.RoundTrip.Seen.{
  Fresh, Fresh-of_Distinct, Unseen-zero, check_seen-Reads,
}
use cyclone_dds_ws_bridge.Qos.Valid.{IsPolicy, IsQosSet}

abbrev pub fields_bytes : QosPolicy → Bytes
fields_bytes (reliability kind ms) = to_le_bytes 1 kind ++ to_le_bytes 4 ms
fields_bytes (durability kind) = to_le_bytes 1 kind
fields_bytes (history kind depth) = to_le_bytes 1 kind ++ to_le_bytes 4 depth
fields_bytes (deadline ms) = to_le_bytes 4 ms
fields_bytes (latency_budget ms) = to_le_bytes 4 ms
fields_bytes (ownership_strength value) = to_le_bytes 4 value
fields_bytes (liveliness kind ms) = to_le_bytes 1 kind ++ to_le_bytes 4 ms
fields_bytes (destination_order kind) = to_le_bytes 1 kind
fields_bytes (presentation scope coherent ordered) =
    to_le_bytes 1 scope ++ (to_le_bytes 1 coherent ++ to_le_bytes 1 ordered)
fields_bytes (partition ss) = to_le_bytes 1 (length ss % 256) ++ strings_bytes ss
fields_bytes (ownership kind) = to_le_bytes 1 kind
fields_bytes (writer_data_lifecycle v) = to_le_bytes 1 v
fields_bytes (time_based_filter ms) = to_le_bytes 4 ms

abbrev pub policies_bytes : List QosPolicy → Bytes
policies_bytes [] = []
policies_bytes (p ∷ ps) = to_le_bytes 1 (policy_id p) ++ (fields_bytes p ++ policies_bytes ps)

unfoldable pub qos_bytes : QosSet → Bytes
qos_bytes q = to_le_bytes 1 (length q.policies % 256) ++ policies_bytes q.policies

policy_id-lt : (p : QosPolicy) → policy_id p < 256
unfolding policy_id
policy_id-lt (deadline _) = omega arith
policy_id-lt _ = omega arith

module _ ⦃b : Buf⦄ where
  parse_policy-Reads :
      (p : QosPolicy) → IsPolicy p → Reads (parse_policy (policy_id p)) (fields_bytes p) p
  unfolding parse_policy policy_id
  parse_policy-Reads (reliability kind ms) v = reliability-Reads kind ms v.0 v.1
  parse_policy-Reads (durability kind) v = durability-Reads kind v
  parse_policy-Reads (history kind depth) v = history-Reads kind depth v.0 v.1
  parse_policy-Reads (deadline ms) v = deadline-Reads ms v
  parse_policy-Reads (latency_budget ms) v = latency_budget-Reads ms v
  parse_policy-Reads (ownership_strength value) v = ownership_strength-Reads value v
  parse_policy-Reads (liveliness kind ms) v = liveliness-Reads kind ms v.0 v.1
  parse_policy-Reads (destination_order kind) v = destination_order-Reads kind v
  parse_policy-Reads (presentation s c o) v = presentation-Reads s c o v.0 v.1 v.2
  parse_policy-Reads (partition ss) v = partition-Reads ss v.0 v.1
  parse_policy-Reads (ownership kind) v = ownership-Reads kind v
  parse_policy-Reads (writer_data_lifecycle x) v = writer_data_lifecycle-Reads x v
  parse_policy-Reads (time_based_filter ms) v = time_based_filter-Reads ms v

  serialize_fields-append :
      (p : QosPolicy) (buf : Bytes) → serialize_fields p buf ≡ buf ++ fields_bytes p
  unfolding serialize_fields
  serialize_fields-append (reliability kind ms) buf =
      simp (b.put_u8_lem, b.put_u32_le_lem, append_assoc)
  serialize_fields-append (partition ss) buf =
      simp (b.put_u8_lem, write_strings-append, append_assoc)
  serialize_fields-append (history kind depth) buf =
      simp (b.put_u8_lem, b.put_u32_le_lem, append_assoc)
  serialize_fields-append (liveliness kind ms) buf =
      simp (b.put_u8_lem, b.put_u32_le_lem, append_assoc)
  serialize_fields-append (presentation s c o) buf = simp (b.put_u8_lem, append_assoc)
  serialize_fields-append (durability kind) buf = b.put_u8_lem buf kind
  serialize_fields-append (destination_order kind) buf = b.put_u8_lem buf kind
  serialize_fields-append (ownership kind) buf = b.put_u8_lem buf kind
  serialize_fields-append (writer_data_lifecycle v) buf = b.put_u8_lem buf v
  serialize_fields-append (deadline ms) buf = b.put_u32_le_lem buf ms
  serialize_fields-append (latency_budget ms) buf = b.put_u32_le_lem buf ms
  serialize_fields-append (ownership_strength v) buf = b.put_u32_le_lem buf v
  serialize_fields-append (time_based_filter ms) buf = b.put_u32_le_lem buf ms

  serialize_policies-append :
      (ps : List QosPolicy) (buf : Bytes) → serialize_policies ps buf ≡ buf ++ policies_bytes ps
  unfolding serialize_policies
  serialize_policies-append [] buf = sym (append-nil buf)
  serialize_policies-append (p ∷ ps) buf =
      simp (serialize_policies-append ps, serialize_fields-append, b.put_u8_lem, append_assoc)

  pub serialize_qos-append : (q : QosSet) (buf : Bytes) → serialize_qos q buf ≡ buf ++ qos_bytes q
  unfolding serialize_qos qos_bytes
  serialize_qos-append q buf = simp (serialize_policies-append, b.put_u8_lem, append_assoc)

  parse_policies-Reads :
      (ps : List QosPolicy) (seen : ℕ)
      → All IsPolicy ps
      → Fresh seen ps
      → Reads (parse_policies (length ps) seen) (policies_bytes ps) ps
  unfolding parse_policies
  parse_policies-Reads [] seen v f = pure-Reads []
  parse_policies-Reads (p ∷ ps) seen v f = ensure_byte-Reads (omega lengths) (
      Reads-bind _ (u8-Reads (policy_id p) (policy_id-lt p)) (
        Reads-bind_nil _ (check_seen-Reads seen p f.0) (
          Reads-bind _ (parse_policy-Reads p v.0)
            (Reads-map _ (parse_policies-Reads ps (with_bit (policy_id p) seen) v.1 f.1)))))

  pub parse_qos-Reads : (q : QosSet) → IsQosSet q → Reads parse_qos (qos_bytes q) q
  unfolding parse_qos qos_bytes
  parse_qos-Reads q v =
      let small : length q.policies % 256 ≡ length q.policies = omega (arith, v.few) in
      let fresh = Fresh-of_Distinct 0 q.policies v.distinct (Unseen-zero q.policies) in
      rw small (
        ensure_byte-Reads (omega lengths) (
          Reads-bind _ (u8-Reads (length q.policies) (omega (arith, v.few)))
            (Reads-map _ (parse_policies-Reads q.policies 0 v.valid fresh))))

  -- A valid QoS set (at most 255 policies, each with values in range, no two of one kind) is read
  -- back as it was written, and the reader stops where the set ends.
  pub parse_qos-serialize_qos :
      (q : QosSet) (rest : Bytes)
      → IsQosSet q
      → parse_qos (serialize_qos q [] ++ rest) ≡ ok (q, rest)
  parse_qos-serialize_qos q rest v = rw serialize_qos-append ((parse_qos-Reads q v).at rest)
