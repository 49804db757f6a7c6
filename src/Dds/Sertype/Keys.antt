-- ===== src/Dds/Sertype/Keys.antt =====
-- The key comparison helpers of src/dds/sertype.rs.
-- `u32::from_be_bytes`
use Prim.Native.Nat.{bit_and, bit_xor, min}
use cyclone_dds_ws_bridge.Base.{
  Bool, Bytes, List, Option, [], arith, drop, false, if◌then◌else◌, leb, length, list_beq_iff,
  list_eq, ltb, nat_eq, none, not, pair_eq, refl, some, take, true, ℕ, ◌%◌, ◌*◌, ◌+◌, ◌-◌, ◌==◌,
  ◌^◌, ◌∷◌, ◌≡◌,
}
use cyclone_dds_ws_bridge.Base.Words.{from_le_bytes}
use cyclone_dds_ws_bridge.Protocol.Keys.{KeyField, string}
use cyclone_dds_ws_bridge.Qos.Normalize.{policy_eq}

abbrev from_be_bytes : ℕ → Bytes → ℕ
from_be_bytes acc [] = acc
from_be_bytes acc (x ∷ xs) = from_be_bytes (256 * acc + x) xs

-- `data.len() >= 2 && (data[1] & 0x01) != 0`
abbrev is_little_endian : Bytes → Bool
is_little_endian (x ∷ y ∷ rest) = not (bit_and y 1 == 0)
is_little_endian _ = false

unfoldable pub read_u32_cdr : Bytes → ℕ → Option ℕ
read_u32_cdr bytes offset =
    if ltb (length bytes) (offset + 4)
    then none
    else if is_little_endian bytes
    then some (from_le_bytes (take 4 (drop offset bytes)))
    else some (from_be_bytes 0 (take 4 (drop offset bytes)))

-- `&data[offset..(offset + size).min(data.len())]`
abbrev slice_at : Bytes → ℕ → ℕ → Bytes
slice_at bytes offset size = take (min (offset + size) (length bytes) - offset) (drop offset bytes)

-- A CDR string with its length prefix.
abbrev string_at : Bytes → ℕ → Option ℕ → Bytes
string_at bytes offset none = []
string_at bytes offset (some str_len) = slice_at bytes offset (4 + str_len)

unfoldable pub extract_key_bytes : Bytes → KeyField → Bytes
extract_key_bytes bytes field =
    if leb (length bytes) field.offset then [] else elim field.type_hint [
      | string ↦ string_at bytes field.offset (read_u32_cdr bytes field.offset)
      | _ ↦ slice_at bytes field.offset field.size
    ]

unfoldable pub keys_equal : Bytes → Bytes → List KeyField → Bool
keys_equal a_data b_data [] = true
keys_equal a_data b_data (field ∷ fields) =
    let rest = keys_equal a_data b_data fields in
    if not (extract_key_bytes a_data field == extract_key_bytes b_data field) then false else rest

-- The inner loop of `hash_key_bytes`.
unfoldable pub hash_bytes : Bytes → ℕ → ℕ
hash_bytes [] hash = hash
hash_bytes (x ∷ xs) hash = hash_bytes xs (bit_xor hash x * 16777619 % 2 ^ 32)

unfoldable pub hash_fields : Bytes → List KeyField → ℕ → ℕ
hash_fields bytes [] hash = hash
hash_fields bytes (field ∷ fields) hash =
    hash_fields bytes fields (hash_bytes (extract_key_bytes bytes field) hash)

unfoldable pub hash_key_bytes : Bytes → List KeyField → ℕ
hash_key_bytes bytes fields = hash_fields bytes fields 2166136261

hash_fields_same :
    (a b : Bytes) (fields : List KeyField) (hash : ℕ)
    → keys_equal a b fields ≡ true
    → hash_fields a fields hash ≡ hash_fields b fields hash
unfolding hash_fields keys_equal
hash_fields_same a b [] hash e = refl
hash_fields_same a b (field ∷ fields) hash e =
    let same : extract_key_bytes a field ≡ extract_key_bytes b field =
      ground (arith, e, list_beq_iff (extract_key_bytes a field) (extract_key_bytes b field)) in
    rw same (hash_fields_same a b fields _ (ground (arith, e)))

-- Data with the same keys have the same hash.
pub hash_key_bytes_same :
    (a b : Bytes) (fields : List KeyField)
    → keys_equal a b fields ≡ true
    → hash_key_bytes a fields ≡ hash_key_bytes b fields
unfolding hash_key_bytes
hash_key_bytes_same a b fields e = hash_fields_same a b fields 2166136261 e
