-- ===== src/Qos/RoundTrip/Kinds.antt =====
-- Each kind of QoS policy is read back.
use Prim.Native.Nat.{max}
use cyclone_dds_ws_bridge.Base.{
  All, Bytes, List, [], append-nil, append_assoc, arith, length, sym, ℕ, ◌%◌, ◌++◌, ◌∷◌, ◌≡◌, ◌≤◌,
}
use cyclone_dds_ws_bridge.Base.Buf.{Buf}
use cyclone_dds_ws_bridge.Base.Words.{IsU32, to_le_bytes}
use cyclone_dds_ws_bridge.Protocol.Reader.{lift}
use cyclone_dds_ws_bridge.Protocol.Reader.Laws.{
  IsText, Reads, Reads-bind, Reads-last, Reads-map, Reads-skip, ensure-Reads, ensure_byte-Reads,
  lengths, pure-Reads, read_string-Reads, string_bytes, u32_le-Reads, u8-Reads, write_string-append,
}
use cyclone_dds_ws_bridge.Qos.Codec.{
  parse_deadline, parse_destination_order, parse_durability, parse_history, parse_latency_budget,
  parse_liveliness, parse_ownership, parse_ownership_strength, parse_partition, parse_presentation,
  parse_reliability, parse_time_based_filter, parse_writer_data_lifecycle, read_strings,
  validate_bool, validate_range, write_strings,
}
use cyclone_dds_ws_bridge.Qos.Policy.{
  deadline, destination_order, durability, history, latency_budget, liveliness, ownership,
  ownership_strength, partition, presentation, reliability, time_based_filter,
  writer_data_lifecycle,
}

abbrev pub strings_bytes : List Bytes → Bytes
strings_bytes [] = []
strings_bytes (s ∷ ss) = string_bytes s ++ strings_bytes ss

module _ ⦃b : Buf⦄ where
  range-Reads :
      (name : Bytes) (v max : ℕ) → v ≤ max → Reads (lift (validate_range name v max)) [] tt
  unfolding lift validate_range
  range-Reads name v max h = record { at = λ rest. ground arith }

  bool_test-Reads : (name : Bytes) (v : ℕ) → v ≤ 1 → Reads (lift (validate_bool name v)) [] tt
  unfolding lift validate_bool
  bool_test-Reads name v h = record { at = λ rest. ground arith }

  read_strings-Reads :
      (ss : List Bytes) → All IsText ss → Reads (read_strings (length ss)) (strings_bytes ss) ss
  unfolding read_strings
  read_strings-Reads [] v = pure-Reads []
  read_strings-Reads (s ∷ ss) v =
      Reads-bind _ (read_string-Reads s v.0) (Reads-map _ (read_strings-Reads ss v.1))

  pub write_strings-append :
      (ss : List Bytes) (buf : Bytes) → write_strings ss buf ≡ buf ++ strings_bytes ss
  unfolding write_strings
  write_strings-append [] buf = sym (append-nil buf)
  write_strings-append (s ∷ ss) buf =
      simp (write_strings-append ss, write_string-append, append_assoc)

  -- The bytes of each policy are read back.
  pub reliability-Reads :
      (kind ms : ℕ)
      → kind ≤ 1
      → IsU32 ms
      → Reads parse_reliability (to_le_bytes 1 kind ++ to_le_bytes 4 ms) (reliability kind ms)
  unfolding parse_reliability
  reliability-Reads kind ms h u = ensure-Reads 5 (omega lengths) (
      Reads-bind _ (u8-Reads kind (omega arith))
        (Reads-skip (range-Reads _ kind 1 h) (Reads-map _ (u32_le-Reads ms u))))

  pub durability-Reads :
      (kind : ℕ) → kind ≤ 3 → Reads parse_durability (to_le_bytes 1 kind) (durability kind)
  unfolding parse_durability
  durability-Reads kind h = ensure_byte-Reads (omega lengths) (
      Reads-last _ (u8-Reads kind (omega arith))
        (Reads-skip (range-Reads _ kind 3 h) (pure-Reads _)))

  pub history-Reads :
      (kind depth : ℕ)
      → kind ≤ 1
      → IsU32 depth
      → Reads parse_history (to_le_bytes 1 kind ++ to_le_bytes 4 depth) (history kind depth)
  unfolding parse_history
  history-Reads kind depth h u = ensure-Reads 5 (omega lengths) (
      Reads-bind _ (u8-Reads kind (omega arith))
        (Reads-skip (range-Reads _ kind 1 h) (Reads-map _ (u32_le-Reads depth u))))

  pub deadline-Reads : (ms : ℕ) → IsU32 ms → Reads parse_deadline (to_le_bytes 4 ms) (deadline ms)
  unfolding parse_deadline
  deadline-Reads ms u = ensure-Reads 4 (omega lengths) (Reads-map _ (u32_le-Reads ms u))

  pub latency_budget-Reads :
      (ms : ℕ) → IsU32 ms → Reads parse_latency_budget (to_le_bytes 4 ms) (latency_budget ms)
  unfolding parse_latency_budget
  latency_budget-Reads ms u = ensure-Reads 4 (omega lengths) (Reads-map _ (u32_le-Reads ms u))

  pub ownership_strength-Reads :
      (v : ℕ) → IsU32 v → Reads parse_ownership_strength (to_le_bytes 4 v) (ownership_strength v)
  unfolding parse_ownership_strength
  ownership_strength-Reads v u = ensure-Reads 4 (omega lengths) (Reads-map _ (u32_le-Reads v u))

  pub liveliness-Reads :
      (kind ms : ℕ)
      → kind ≤ 2
      → IsU32 ms
      → Reads parse_liveliness (to_le_bytes 1 kind ++ to_le_bytes 4 ms) (liveliness kind ms)
  unfolding parse_liveliness
  liveliness-Reads kind ms h u = ensure-Reads 5 (omega lengths) (
      Reads-bind _ (u8-Reads kind (omega arith))
        (Reads-skip (range-Reads _ kind 2 h) (Reads-map _ (u32_le-Reads ms u))))

  pub destination_order-Reads :
      (kind : ℕ)
      → kind ≤ 1
      → Reads parse_destination_order (to_le_bytes 1 kind) (destination_order kind)
  unfolding parse_destination_order
  destination_order-Reads kind h = ensure_byte-Reads (omega lengths) (
      Reads-last _ (u8-Reads kind (omega arith))
        (Reads-skip (range-Reads _ kind 1 h) (pure-Reads _)))

  pub presentation-Reads :
      (scope coherent ordered : ℕ)
      → scope ≤ 2
      → coherent ≤ 1
      → ordered ≤ 1
      → Reads parse_presentation
          (to_le_bytes 1 scope ++ (to_le_bytes 1 coherent ++ to_le_bytes 1 ordered))
          (presentation scope coherent ordered)
  unfolding parse_presentation
  presentation-Reads scope coherent ordered h k l = ensure-Reads 3 (omega lengths) (
      Reads-bind _ (u8-Reads scope (omega arith)) (
        Reads-bind _ (u8-Reads coherent (omega arith)) (
          Reads-last _ (u8-Reads ordered (omega arith)) (
            Reads-skip (range-Reads _ scope 2 h) (
              Reads-skip (bool_test-Reads _ coherent k)
                (Reads-skip (bool_test-Reads _ ordered l) (pure-Reads _)))))))

  pub partition-Reads :
      (ss : List Bytes)
      → length ss ≤ 255
      → All IsText ss
      → Reads parse_partition (to_le_bytes 1 (length ss % 256) ++ strings_bytes ss) (partition ss)
  unfolding parse_partition
  partition-Reads ss few v =
      let small : length ss % 256 ≡ length ss = omega arith in
      rw small (
        ensure_byte-Reads (omega lengths) (
          Reads-bind _ (u8-Reads (length ss) (omega arith))
            (Reads-map _ (read_strings-Reads ss v))))

  pub ownership-Reads :
      (kind : ℕ) → kind ≤ 1 → Reads parse_ownership (to_le_bytes 1 kind) (ownership kind)
  unfolding parse_ownership
  ownership-Reads kind h = ensure_byte-Reads (omega lengths) (
      Reads-last _ (u8-Reads kind (omega arith))
        (Reads-skip (range-Reads _ kind 1 h) (pure-Reads _)))

  pub writer_data_lifecycle-Reads :
      (v : ℕ)
      → v ≤ 1
      → Reads parse_writer_data_lifecycle (to_le_bytes 1 v) (writer_data_lifecycle v)
  unfolding parse_writer_data_lifecycle
  writer_data_lifecycle-Reads v h =
      ensure_byte-Reads (omega lengths) (
        Reads-last _ (u8-Reads v (omega arith)) (Reads-skip (bool_test-Reads _ v h) (pure-Reads _)))

  pub time_based_filter-Reads :
      (ms : ℕ) → IsU32 ms → Reads parse_time_based_filter (to_le_bytes 4 ms) (time_based_filter ms)
  unfolding parse_time_based_filter
  time_based_filter-Reads ms u = ensure-Reads 4 (omega lengths) (Reads-map _ (u32_le-Reads ms u))
