-- ===== src/Dds/Sertype.antt =====
-- `create_opaque_sertype` of src/dds/sertype.rs, as far as topics need it.
pub mod Keys
pub mod Murmur
pub mod Md5
pub mod Serdata
pub mod Refs
use Prim.Native.Nat.{bit_or}
use cyclone_dds_ws_bridge.Base.{
  Bool, Bytes, List, if◌then◌else◌, list_eq, nat_eq, not, pair_eq, ℕ, ◌^◌,
}
use cyclone_dds_ws_bridge.Base.Outcomes.{Outcome, done, panicked}
use cyclone_dds_ws_bridge.Base.Sets.{contains}
use cyclone_dds_ws_bridge.Protocol.Keys.{KeyDescriptors, KeyField}
use cyclone_dds_ws_bridge.Qos.Normalize.{policy_eq}

pub record OpaqueSertype : Type 0 where
  pub type_name : Bytes
  pub no_key : Bool
  pub allowed_data_representation : ℕ
  pub key_fields : List KeyField

-- `CString::new(name)` fails on a NUL byte.
unfoldable pub has_nul : Bytes → Bool
has_nul name = contains name 0

-- `expect("type_name contains NUL")` panics.
unfoldable pub create_opaque_sertype {ℓ} :
    {E : Type ℓ} → Bytes → Bool → KeyDescriptors → Outcome E OpaqueSertype
create_opaque_sertype type_name is_keyed key_descriptors =
    if has_nul type_name
    then panicked
    else done (record {
      type_name = type_name;
      no_key = not is_keyed;
      allowed_data_representation = bit_or (2 ^ 0) (2 ^ 2);
      key_fields = key_descriptors.keys;
    })
