-- ===== src/Qos/Sound.antt =====
-- What `parse_qos` of src/qos.rs has taken: a valid set, from the bytes of `serialize_qos`.
pub mod Kinds
use Prim.Native.Nat.{bit_and}
use cyclone_dds_ws_bridge.Base.{
  All, Bytes, List, [], ap, append-nil, arith, leb, length, list_eq, nat_eq, not, ok, pair_eq, refl,
  subst, suc, sym, zero, ℕ, ◌%◌, ◌&&◌, ◌*◌, ◌++◌, ◌==◌, ◌^◌, ◌↔◌, ◌∙◌, ◌∷◌, ◌≡◌, ◌≢◌, ◌≤◌,
}
use cyclone_dds_ws_bridge.Base.Buf.{Buf}
use cyclone_dds_ws_bridge.Base.Words.{
  AllBytes, bit, bit-with_bit, bit_and-pow, bit_or-pow, with_bit,
}
use cyclone_dds_ws_bridge.Protocol.Reader.Accepts.{
  Accepts, Accepts-bind, Accepts-if, ensure_byte-Accepts, fail-Accepts, pure-Accepts, u8-Accepts,
}
use cyclone_dds_ws_bridge.Qos.Codec.{
  check_seen, mark_seen, parse_policies, parse_qos, serialize_qos,
}
use cyclone_dds_ws_bridge.Qos.Policy.{QosPolicy, QosSet, policy_id}
use cyclone_dds_ws_bridge.Qos.RoundTrip.{
  parse_qos-serialize_qos, policies_bytes, qos_bytes, serialize_qos-append,
}
use cyclone_dds_ws_bridge.Qos.RoundTrip.Seen.{Fresh, in_range, mask_lem}
use cyclone_dds_ws_bridge.Qos.Sound.Kinds.{parse_policy-Accepts}
use cyclone_dds_ws_bridge.Qos.Valid.{Distinct, IsPolicy, IsQosSet}
use native.Mathlib.Nat.{pow-suc}

pow_positive : (k : ℕ) → 1 ≤ 2 ^ k
pow_positive zero = omega arith
pow_positive (suc k) = omega (arith, pow-suc 2 k, pow_positive k)

product_zero : (x y : ℕ) → x * y ≡ 0 → 1 ≤ y → x ≡ 0
product_zero zero y h p = refl
product_zero (suc x) y h p = absurd (grind arith)

module _ ⦃b : Buf⦄ where
  -- The bit of a policy that is let through was clear, and is set from then on.
  check_seen-Accepts :
      (seen id : ℕ)
      → Accepts 0 (check_seen seen id) (λ seen' u s.
        (u ≡ [])
        × ((p : QosPolicy)
            → policy_id p ≡ id
            → (bit (policy_id p) seen ≡ 0) × (seen' ≡ with_bit (policy_id p) seen)))
  unfolding check_seen mark_seen
  check_seen-Accepts seen id =
      Accepts-if (leb 0x01 id && leb id 0x0d) _
        (λ known.
          Accepts-if (not (bit_and seen (2 ^ id % 2 ^ 16) == 0)) _ (λ twice. fail-Accepts _ _)
            (λ fresh. pure-Accepts _ _ λ s. (
              refl,
              λ p e.
                  let mask : 2 ^ id % 2 ^ 16 ≡ 2 ^ policy_id p = rw (← e) (mask_lem p) in
                  let clear : bit_and seen (2 ^ policy_id p) ≡ 0 =
                    ap (bit_and seen) (sym mask) ∙ (ground arith) in
                  (
                    product_zero _ _ (sym (bit_and-pow (policy_id p) seen) ∙ clear)
                        (pow_positive (policy_id p)),
                    rw mask (bit_or-pow (policy_id p) seen),
                  ),
            )))
        (λ unknown. pure-Accepts _ _ λ s. (refl, λ p e. absurd (cc (in_range p))))

  parse_policies-Accepts :
      (n seen : ℕ)
      → Accepts 0
          (parse_policies n seen)
          (λ ps u s. All IsPolicy ps × Fresh seen ps × (length ps ≡ n) × (u ≡ policies_bytes ps))
  unfolding parse_policies
  parse_policies-Accepts zero seen = pure-Accepts [] _ λ s. (tt, tt, refl, refl)
  parse_policies-Accepts (suc n) seen = ensure_byte-Accepts _ (
      u8-Accepts 0 _ _ λ id small.
        Accepts-bind _ _ (check_seen-Accepts seen id) λ seen' u s (no_bytes, marked).
          Accepts-bind _ _ (parse_policy-Accepts id) λ p v s' (valid, used, same).
            Accepts-bind _ _ (parse_policies-Accepts n seen')
              λ ps w s'' (valids, fresh, count, used').
                let (clear, set) = marked p same in
                pure-Accepts (p ∷ ps) _ λ r. (
                  (valid, valids),
                  (clear, subst (λ (x : ℕ). Fresh x ps) set fresh),
                  ap suc count,
                  rw (append-nil w, no_bytes, used, used', same),
                ))

stays :
    (k : ℕ) (p : QosPolicy) (seen : ℕ) → bit k seen ≡ 1 → bit k (with_bit (policy_id p) seen) ≡ 1
stays k p seen h = bit-with_bit (policy_id p) k seen ∙ ground (arith, h)

avoids :
    (k seen : ℕ) (ps : List QosPolicy)
    → bit k seen ≡ 1
    → Fresh seen ps
    → All (λ q. k ≢ policy_id q) ps
avoids k seen [] h f = tt
avoids k seen (p ∷ ps) h f = (
  λ e. let clear : bit k seen ≡ 0 = rw e f.0 in cc,
  avoids k (with_bit (policy_id p) seen) ps (stays k p seen h) f.1,
)

Distinct-of_Fresh : (seen : ℕ) (ps : List QosPolicy) → Fresh seen ps → Distinct ps
Distinct-of_Fresh seen [] f = tt
Distinct-of_Fresh seen (p ∷ ps) f = (
  avoids (policy_id p) (with_bit (policy_id p) seen) ps
      (bit-with_bit (policy_id p) (policy_id p) seen ∙ ground arith) f.1,
  Distinct-of_Fresh (with_bit (policy_id p) seen) ps f.1,
)

module _ ⦃b : Buf⦄ where
  pub parse_qos-Accepts : {n : ℕ} → Accepts n parse_qos (λ q u s. IsQosSet q × (u ≡ qos_bytes q))
  unfolding parse_qos qos_bytes
  parse_qos-Accepts = ensure_byte-Accepts _ (
      u8-Accepts 0 _ _ λ count small.
        Accepts-bind _ _ (parse_policies-Accepts count 0) λ ps u s (valids, fresh, size, used).
          let wrapped : length ps % 256 ≡ count = omega arith in
          pure-Accepts (record { policies = ps }) _
            λ r. (
              record { few = omega arith; valid = valids; distinct = Distinct-of_Fresh 0 ps fresh },
              rw (append-nil u, wrapped, used),
            ))

  -- On bytes, `parse_qos` yields a QoS set and a rest exactly if the set is valid (at most 255
  -- policies, each with values in range, no two of one kind) and the bytes are what
  -- `serialize_qos` writes for the set, followed by the rest.
  pub parse_qos-eq-ok_iff :
      (s : Bytes) (q : QosSet) (rest : Bytes)
      → AllBytes s
      → (parse_qos s ≡ ok (q, rest)) ↔ (IsQosSet q × (s ≡ serialize_qos q [] ++ rest))
  parse_qos-eq-ok_iff s q rest bytes = (
    λ h.
        let (u, split, bytes', (valid, used)) =
          (parse_qos-Accepts {n = 0}).at s q rest bytes (omega arith) h in
        (valid, split ∙ rw (used, serialize_qos-append)),
    λ (valid, e). rw e (parse_qos-serialize_qos q rest valid),
  )
