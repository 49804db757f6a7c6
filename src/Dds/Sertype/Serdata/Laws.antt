-- ===== src/Dds/Sertype/Serdata/Laws.antt =====
-- What the operations of serdata of src/dds/sertype.rs promise the C library.
use cyclone_dds_ws_bridge.Base.{
  Bool, Bool-cases, Bytes, Option, [], ap, arith, drop, false, inl, inr, is_empty, leb, length,
  length-append, length-drop, length-take, list_beq_iff, ltb, nat_eq, none, refl, some, suc, take,
  true, zero, ℕ, ◌+◌, ◌-◌, ◌∷◌, ◌≡◌, ◌≤◌, ◌⊎◌,
}
use cyclone_dds_ws_bridge.Base.Words.{to_le_bytes}
use cyclone_dds_ws_bridge.Dds.Api.{SampleWrapper}
use cyclone_dds_ws_bridge.Dds.Sertype.{OpaqueSertype}
use cyclone_dds_ws_bridge.Dds.Sertype.Keys.{hash_key_bytes_same}
use cyclone_dds_ws_bridge.Dds.Sertype.Md5.{length-md5_hash}
use cyclone_dds_ws_bridge.Dds.Sertype.Murmur.{murmurhash3, st_hash}
use cyclone_dds_ws_bridge.Dds.Sertype.Serdata.{
  OpaqueSerdata, kept_key, key_of, sample_hash, sd_eqkey, sd_from_sample, sd_get_keyhash, sd_to_ser,
  zeros,
}

pub length-zeros : (n : ℕ) → length (zeros n) ≡ n
length-zeros zero = refl
length-zeros (suc n) = ap suc (length-zeros n)

-- Two serdata that `sd_eqkey` finds equal have the same key hash, if both or neither have key
-- bytes and both or neither have content.
pub sd_get_keyhash_same :
    (st : OpaqueSertype) (a c : OpaqueSerdata) (force_md5 : Bool)
    → is_empty (key_of a.key_data) ≡ is_empty (key_of c.key_data)
    → is_empty a.bytes ≡ is_empty c.bytes
    → sd_eqkey st a c ≡ true
    → sd_get_keyhash st a force_md5 ≡ sd_get_keyhash st c force_md5
unfolding sd_eqkey sd_get_keyhash
sd_get_keyhash_same st a c force_md5 keyed filled same =
    elim (Bool-cases (is_empty (key_of a.key_data))) [
      | inl bare ↦ elim (Bool-cases (is_empty st.key_fields)) [
        | inl keyless ↦ ground (arith, bare, keyless, keyed)
        | inr fields ↦
            let hashes =
              hash_key_bytes_same a.bytes c.bytes st.key_fields
                (ground (arith, bare, fields, same)) in
            ground (arith, bare, fields, keyed, filled, hashes)
      ]
      | inr key ↦
          let keys : key_of a.key_data ≡ key_of c.key_data = ground (
            arith,
            key,
            keyed,
            same,
            list_beq_iff ⦃e = nat_eq⦄ (key_of a.key_data) (key_of c.key_data),
          ) in
          ground (arith, key, keyed, keys)
    ]

-- A key hash has 16 bytes.
length-sd_get_keyhash :
    (st : OpaqueSertype) (sd : OpaqueSerdata) (force_md5 : Bool)
    → length (sd_get_keyhash st sd force_md5) ≡ 16
unfolding sd_get_keyhash to_le_bytes
length-sd_get_keyhash st sd force_md5 = ground (
  arith,
  length-md5_hash (key_of sd.key_data),
  length-append (key_of sd.key_data) (zeros (16 - length (key_of sd.key_data))),
  length-zeros (16 - length (key_of sd.key_data)),
)

-- `sd_to_ser` writes exactly the number of bytes asked for, and if the range lies in the content
-- they are the bytes of that range.
sd_to_ser_lem :
    (sd : OpaqueSerdata) (off sz : ℕ)
    → (length (sd_to_ser sd off sz) ≡ sz)
      × (off + sz ≤ length sd.bytes → sd_to_ser sd off sz ≡ take sz (drop off sd.bytes))
unfolding sd_to_ser
sd_to_ser_lem sd off sz = elim (Bool-cases (ltb 0 sz)) [
  | inl some_bytes ↦ elim (Bool-cases (leb (off + sz) (length sd.bytes))) [
    | inl within ↦
        rw (some_bytes, within)
          (
            length-take sz (drop off sd.bytes) (
                let left = length-drop off sd.bytes in
                let fits : off + sz ≤ length sd.bytes = ground (arith, within) in
                omega (arith, left, fits)),
            λ h. refl,
          )
    | inr beyond ↦
        rw (some_bytes, beyond) (length-zeros sz, λ h. absurd (ground (arith, beyond, h)))
  ]
  | inr no_bytes ↦ let is_zero : sz ≡ 0 = ground (arith, no_bytes) in rw is_zero (ground arith)
]

-- A key that is kept has a byte.
kept : (key : Option Bytes) → (kept_key key ≡ none) ⊎ (is_empty (key_of (kept_key key)) ≡ false)
kept none = inl refl
kept (some []) = inl refl
kept (some (x ∷ xs)) = inr refl

kept_hash :
    (st : OpaqueSertype) (k l : Option Bytes)
    → (k ≡ none) ⊎ (is_empty (key_of k) ≡ false)
    → (l ≡ none) ⊎ (is_empty (key_of l) ≡ false)
    → is_empty (key_of k) ≡ is_empty (key_of l)
    → (is_empty (key_of k) ≡ true) ⊎ (key_of k ≡ key_of l)
    → sample_hash st k ≡ sample_hash st l
kept_hash st none none p q e same = refl
kept_hash st none (some l) p q e same = absurd (ground (arith, q, e))
kept_hash st (some k) none p q e same = absurd (ground (arith, p, e))
kept_hash st (some k) (some l) p q e same = elim same [
  | inl bare ↦ absurd (ground (arith, p, bare))
  | inr equal ↦ ap (λ key. murmurhash3 key (st_hash st)) equal
]

-- Two samples whose serdata `sd_eqkey` finds equal get the same hash, if both or neither have key
-- bytes.
pub sd_from_sample-hash :
    (st : OpaqueSertype) (a c : SampleWrapper)
    → is_empty (key_of (kept_key a.key_bytes)) ≡ is_empty (key_of (kept_key c.key_bytes))
    → sd_eqkey st (sd_from_sample st a) (sd_from_sample st c) ≡ true
    → (sd_from_sample st a).hash ≡ (sd_from_sample st c).hash
unfolding sd_eqkey sd_from_sample
sd_from_sample-hash st a c keyed same =
    elim (Bool-cases (is_empty (key_of (kept_key a.key_bytes)))) [
      | inl bare ↦
          kept_hash st (kept_key a.key_bytes) (kept_key c.key_bytes) (kept a.key_bytes)
            (kept c.key_bytes) keyed (inl bare)
      | inr key ↦
          kept_hash st (kept_key a.key_bytes) (kept_key c.key_bytes) (kept a.key_bytes)
            (kept c.key_bytes) keyed
            (inr (
              ground (
                arith,
                key,
                keyed,
                same,
                list_beq_iff ⦃e = nat_eq⦄ (key_of (kept_key a.key_bytes))
                    (key_of (kept_key c.key_bytes)),
              )))
    ]
