-- ===== src/Dds/Sertype/Serdata.antt =====
-- `OpaqueSerdata` of src/dds/sertype.rs and its operations, as functions of bytes.
pub mod Laws
pub mod Parts
use Prim.Native.Nat.{min}
use cyclone_dds_ws_bridge.Base.{
  Bool, Bytes, List, Option, [], drop, if◌then◌else◌, is_empty, leb, length, list_eq, ltb, nat_eq,
  none, not, pair_eq, some, suc, take, true, zero, ℕ, ◌%◌, ◌&&◌, ◌++◌, ◌+◌, ◌-◌, ◌==◌, ◌^◌, ◌∷◌,
}
use cyclone_dds_ws_bridge.Base.Words.{to_le_bytes}
use cyclone_dds_ws_bridge.Dds.Api.{SampleWrapper}
use cyclone_dds_ws_bridge.Dds.Sertype.{OpaqueSertype}
use cyclone_dds_ws_bridge.Dds.Sertype.Keys.{hash_key_bytes, keys_equal}
use cyclone_dds_ws_bridge.Dds.Sertype.Md5.{md5_hash}
use cyclone_dds_ws_bridge.Dds.Sertype.Murmur.{murmurhash3, st_hash}
use cyclone_dds_ws_bridge.Qos.Normalize.{policy_eq}

-- `data` is never null; `key_data` is null for `none`.
pub record OpaqueSerdata : Type 0 where
  pub bytes : Bytes
  pub key_data : Option Bytes
  pub hash : ℕ

abbrev pub zeros : ℕ → Bytes
zeros zero = []
zeros (suc n) = 0 ∷ zeros n

-- The key bytes of a serdata; none are kept as no bytes.
abbrev pub key_of : Option Bytes → Bytes
key_of none = []
key_of (some key) = key

unfoldable pub sd_eqkey : OpaqueSertype → OpaqueSerdata → OpaqueSerdata → Bool
sd_eqkey st a b =
    if not (is_empty (key_of a.key_data)) && not (is_empty (key_of b.key_data))
    then key_of a.key_data == key_of b.key_data
    else if is_empty st.key_fields
    then true
    else keys_equal a.bytes b.bytes st.key_fields

unfoldable pub sd_size : OpaqueSerdata → ℕ
sd_size sd = length sd.bytes % 2 ^ 32

-- Of the bytes that the fragments hold together.
unfoldable pub sd_from_ser : OpaqueSertype → Bytes → OpaqueSerdata
sd_from_ser st content = record { bytes = content; key_data = none; hash = st_hash st }

-- The loop over the parts: what was copied, up to the size.
unfoldable pub copy_parts : ℕ → List Bytes → Bytes → Bytes
copy_parts size [] copied = copied
copy_parts size (part ∷ parts) copied =
    copy_parts size parts (copied ++ take (min (length part) (size - length copied)) part)

unfoldable pub sd_from_ser_iov : OpaqueSertype → List Bytes → ℕ → OpaqueSerdata
sd_from_ser_iov st parts size =
    let copied = copy_parts size parts [] in
    record { bytes = copied ++ zeros (size - length copied); key_data = none; hash = st_hash st }

unfoldable pub sd_from_keyhash : OpaqueSertype → Bytes → OpaqueSerdata
sd_from_keyhash st keyhash = record { bytes = take 16 keyhash; key_data = none; hash = st_hash st }

-- The key bytes that `sd_from_sample` copies.
abbrev pub kept_key : Option Bytes → Option Bytes
kept_key none = none
kept_key (some []) = none
kept_key (some (x ∷ xs)) = some (x ∷ xs)

-- The hash that goes with them.
abbrev pub sample_hash : OpaqueSertype → Option Bytes → ℕ
sample_hash st none = st_hash st
sample_hash st (some key) = murmurhash3 key (st_hash st)

unfoldable pub sd_from_sample : OpaqueSertype → SampleWrapper → OpaqueSerdata
sd_from_sample st sample =
    let key = kept_key sample.key_bytes in
    record { bytes = sample.content; key_data = key; hash = sample_hash st key }

-- What is written to the buffer of `sz` bytes.
unfoldable pub sd_to_ser : OpaqueSerdata → ℕ → ℕ → Bytes
sd_to_ser sd off sz =
    if leb (off + sz) (length sd.bytes) && ltb 0 sz
    then take sz (drop off sd.bytes)
    else if ltb 0 sz
    then zeros sz
    else []

-- The sample of a reader: null for no bytes, which `take_samples` reads as no bytes.
unfoldable pub sd_to_sample : OpaqueSerdata → SampleWrapper
sd_to_sample sd = record { content = sd.bytes; key_bytes = none }

unfoldable pub sd_get_keyhash : OpaqueSertype → OpaqueSerdata → Bool → Bytes
sd_get_keyhash st sd force_md5 =
    let key = key_of sd.key_data in
    if not (is_empty key)
    then (if not force_md5 && leb (length key) 16
        then key ++ zeros (16 - length key)
        else md5_hash key)
    else if is_empty st.key_fields
    then zeros 16
    else if is_empty sd.bytes
    then zeros 16
    else to_le_bytes 4 (hash_key_bytes sd.bytes st.key_fields) ++ zeros 12

-- By the names, without their ends.
unfoldable pub st_equal : OpaqueSertype → OpaqueSertype → Bool
st_equal a b = a.type_name == b.type_name
