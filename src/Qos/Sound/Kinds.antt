-- ===== src/Qos/Sound/Kinds.antt =====
-- What the reader of each QoS policy of src/qos.rs has taken, and the policies that it returns.
use cyclone_dds_ws_bridge.Base.{
  All, Bytes, [], ap, append-nil, arith, if◌then◌else◌, length, list_eq, nat_eq, ok, pair_eq, refl,
  subst, suc, zero, ℕ, ◌%◌, ◌++◌, ◌==◌, ◌∷◌, ◌≡◌, ◌≤◌,
}
use cyclone_dds_ws_bridge.Base.Buf.{Buf}
use cyclone_dds_ws_bridge.Base.Words.{IsU32, to_le_bytes}
use cyclone_dds_ws_bridge.Dds.QosHandle.Laws.{texts}
use cyclone_dds_ws_bridge.Protocol.Reader.{
  Reader, ensure, ensure_byte, lift, pure, u32_le, u8, ◌>>=◌, ◌>>◌,
}
use cyclone_dds_ws_bridge.Protocol.Reader.Accepts.{
  Accepts, Accepts-bind, Accepts-if, ensure-Accepts, ensure_byte-Accepts, fail-Accepts,
  lift-Accepts, pure-Accepts, u32_le-Accepts, u8-Accepts,
}
use cyclone_dds_ws_bridge.Protocol.Reader.Laws.{IsText}
use cyclone_dds_ws_bridge.Protocol.Reader.Strings.{read_string-Accepts}
use cyclone_dds_ws_bridge.Qos.Codec.{
  parse_deadline, parse_destination_order, parse_durability, parse_history, parse_latency_budget,
  parse_liveliness, parse_ownership, parse_ownership_strength, parse_partition, parse_policy,
  parse_presentation, parse_reliability, parse_time_based_filter, parse_writer_data_lifecycle,
  read_strings, validate_bool, validate_range,
}
use cyclone_dds_ws_bridge.Qos.Policy.{
  QosPolicy, deadline, destination_order, durability, history, latency_budget, liveliness,
  ownership, ownership_strength, policy_id, reliability, time_based_filter,
}
use cyclone_dds_ws_bridge.Qos.RoundTrip.{fields_bytes}
use cyclone_dds_ws_bridge.Qos.RoundTrip.Kinds.{strings_bytes}
use cyclone_dds_ws_bridge.Qos.Valid.{IsPolicy}

validate_range-eq-ok : (name : Bytes) (v top : ℕ) → validate_range name v top ≡ ok tt → v ≤ top
unfolding validate_range
validate_range-eq-ok name v top h = ground arith

validate_bool-eq-ok : (name : Bytes) (v : ℕ) → validate_bool name v ≡ ok tt → v ≤ 1
unfolding validate_bool
validate_bool-eq-ok name v h = ground arith

-- A valid policy, from its own bytes and no others.
abbrev pub IsRead : ℕ → QosPolicy → Bytes → Bytes → Type 0
IsRead id p u s = IsPolicy p × (u ≡ fields_bytes p) × (policy_id p ≡ id)

one_byte : (kind : ℕ) → to_le_bytes 1 kind ++ [] ≡ to_le_bytes 1 kind
one_byte kind = append-nil (to_le_bytes 1 kind)

module _ ⦃b : Buf⦄ where
  -- A kind of one byte that is at most `top`, and then a word of four.
  kind_and_word :
      (name : Bytes) (top : ℕ) (make : ℕ → ℕ → QosPolicy) (R : QosPolicy → Bytes → Bytes → Type 0)
      → ((kind ms : ℕ) (s : Bytes)
          → kind ≤ top
          → IsU32 ms
          → R (make kind ms) (to_le_bytes 1 kind ++ to_le_bytes 4 ms) s)
      → Accepts 0
          (ensure 5
            >> (u8 >>= λ kind.
                lift (validate_range name kind top) >> (u32_le >>= λ ms. pure (make kind ms))))
          R
  kind_and_word name top make R q = ensure-Accepts 5 R (
      u8-Accepts 4 _ R λ kind small. lift-Accepts (validate_range name kind top) _ λ passed.
        u32_le-Accepts 0 _ _ λ ms word. pure-Accepts (make kind ms) _ λ s.
          rw (append-nil (to_le_bytes 4 ms))
            (q kind ms s (validate_range-eq-ok name kind top passed) word))

  kind_only :
      (name : Bytes) (top : ℕ) (make : ℕ → QosPolicy) (R : QosPolicy → Bytes → Bytes → Type 0)
      → ((kind : ℕ) (s : Bytes) → kind ≤ top → R (make kind) (to_le_bytes 1 kind) s)
      → Accepts 0
          (ensure_byte >> (u8 >>= λ kind. lift (validate_range name kind top) >> pure (make kind)))
          R
  kind_only name top make R q = ensure_byte-Accepts R (
      u8-Accepts 0 _ R λ kind small. lift-Accepts (validate_range name kind top) _ λ passed.
        pure-Accepts (make kind) _ λ s.
          rw (append-nil (to_le_bytes 1 kind))
            (q kind s (validate_range-eq-ok name kind top passed)))

  word_only :
      (make : ℕ → QosPolicy) (R : QosPolicy → Bytes → Bytes → Type 0)
      → ((ms : ℕ) (s : Bytes) → IsU32 ms → R (make ms) (to_le_bytes 4 ms) s)
      → Accepts 0 (ensure 4 >> (u32_le >>= λ ms. pure (make ms))) R
  word_only make R q = ensure-Accepts 4 R (
      u32_le-Accepts 0 _ R
        λ ms word. pure-Accepts (make ms) _ λ s. rw (append-nil (to_le_bytes 4 ms)) (q ms s word))

  read_strings-Accepts :
      {k : ℕ} (n : ℕ)
      → Accepts k
          (read_strings n)
          (λ ss u s. All IsText ss × (u ≡ strings_bytes ss) × (length ss ≡ n))
  unfolding read_strings
  read_strings-Accepts zero = pure-Accepts [] _ λ s. (tt, refl, refl)
  read_strings-Accepts (suc n) = Accepts-bind _ _ read_string-Accepts λ t u s (text, used).
      Accepts-bind _ _ (read_strings-Accepts n) λ ts v s' (texts, used', count).
        pure-Accepts (t ∷ ts) _ λ r. ((text, texts), rw (append-nil v, used, used'), ap suc count)

  presentation-Accepts : Accepts 0 parse_presentation (IsRead 0x09)
  unfolding parse_presentation policy_id
  presentation-Accepts = ensure-Accepts 3 _ (
      u8-Accepts 2 _ _ λ scope _. u8-Accepts 1 _ _ λ coherent _. u8-Accepts 0 _ _ λ ordered _.
        lift-Accepts _ _ λ p. lift-Accepts _ _ λ q. lift-Accepts _ _ λ r. pure-Accepts _ _ λ s. (
          (
            validate_range-eq-ok _ scope 2 p,
            validate_bool-eq-ok _ coherent q,
            validate_bool-eq-ok _ ordered r,
          ),
          rw (one_byte ordered),
          refl,
        ))

  partition-Accepts : Accepts 0 parse_partition (IsRead 0x0a)
  unfolding parse_partition policy_id
  partition-Accepts = ensure_byte-Accepts _ (
      u8-Accepts 0 _ _ λ count small.
        Accepts-bind _ _ (read_strings-Accepts count) λ ss u s (texts, used, size).
          let wrapped : length ss % 256 ≡ count = omega arith in
          pure-Accepts _ _ λ r. ((omega arith, texts), rw (append-nil u, wrapped, used), refl))

  writer_data_lifecycle-Accepts : Accepts 0 parse_writer_data_lifecycle (IsRead 0x0c)
  unfolding parse_writer_data_lifecycle policy_id
  writer_data_lifecycle-Accepts = ensure_byte-Accepts _ (
      u8-Accepts 0 _ _ λ v _.
        lift-Accepts _ _ λ p. pure-Accepts _ _ λ s. (validate_bool-eq-ok _ v p, one_byte v, refl))

  -- One arm of the `match policy_id`.
  arm :
      (id k : ℕ) {m others : Reader QosPolicy}
      → Accepts 0 m (IsRead k)
      → Accepts 0 others (IsRead id)
      → Accepts 0 (if id == k then m else others) (IsRead id)
  arm id k {m} r q =
      Accepts-if (id == k) _
        (λ e. let same : k ≡ id = ground arith in subst (λ (x : ℕ). Accepts 0 m (IsRead x)) same r)
        (λ _. q)

  pub parse_policy-Accepts : (id : ℕ) → Accepts 0 (parse_policy id) (IsRead id)
  unfolding parse_policy policy_id parse_reliability parse_durability parse_history parse_deadline
      parse_latency_budget parse_ownership_strength parse_liveliness parse_destination_order
      parse_ownership parse_time_based_filter
  parse_policy-Accepts id =
      arm id 0x01 (kind_and_word _ 1 reliability _ λ kind ms s h w. ((h, w), refl, refl)) (
        arm id 0x02 (kind_only _ 3 durability _ λ kind s h. (h, refl, refl)) (
          arm id 0x03 (kind_and_word _ 1 history _ λ kind ms s h w. ((h, w), refl, refl)) (
            arm id 0x04 (word_only deadline _ λ ms s w. (w, refl, refl)) (
              arm id 0x05 (word_only latency_budget _ λ ms s w. (w, refl, refl)) (
                arm id 0x06 (word_only ownership_strength _ λ ms s w. (w, refl, refl)) (
                  arm id 0x07 (kind_and_word _ 2 liveliness _ λ kind ms s h w. ((h, w), refl, refl))
                    (arm id 0x08 (kind_only _ 1 destination_order _ λ kind s h. (h, refl, refl)) (
                      arm id 0x09 presentation-Accepts (
                        arm id 0x0a partition-Accepts (
                          arm id 0x0b (kind_only _ 1 ownership _ λ kind s h. (h, refl, refl)) (
                            arm id 0x0c writer_data_lifecycle-Accepts (
                              arm id 0x0d (word_only time_based_filter _ λ ms s w. (w, refl, refl))
                                (fail-Accepts _ _)))))))))))))
