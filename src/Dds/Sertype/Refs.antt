-- ===== src/Dds/Sertype/Refs.antt =====
-- The reference counts and the buffers of the serdata and samples of src/dds/sertype.rs.
pub mod Laws
use Prim.Native.Nat.{bit_and}
use cyclone_dds_ws_bridge.Base.{
  Bytes, List, Option, [], drop, if◌then◌else◌, is_empty, leb, length, list_eq, ltb, map, nat_eq,
  none, not, pair_eq, some, take, ℕ, ◌%◌, ◌+◌, ◌-◌, ◌==◌, ◌^◌, ◌∷◌,
}
use cyclone_dds_ws_bridge.Dds.Api.{SampleWrapper}
use cyclone_dds_ws_bridge.Dds.Sertype.Serdata.{OpaqueSerdata, sd_to_sample, zeros}
use cyclone_dds_ws_bridge.Qos.Normalize.{policy_eq}

-- A serdata on the heap: `refc` is a u32, and `freed` counts the calls of `sd_free`, of which one
-- gives back the box with its vectors.
pub record SerdataBox : Type 0 where
  pub serdata : OpaqueSerdata
  pub refc : ℕ
  pub freed : ℕ

-- `sd_free`
unfoldable pub sd_free : SerdataBox → SerdataBox
sd_free cell = record cell { freed = cell.freed + 1 }

unfoldable pub serdata_ref : SerdataBox → SerdataBox
serdata_ref cell = record cell { refc = (cell.refc + 1) % 2 ^ 32 }

-- `fetch_sub` wraps, and returns the count that there was.
unfoldable pub serdata_unref : SerdataBox → SerdataBox
serdata_unref cell =
    let cell' = record cell { refc = (cell.refc + 2 ^ 32 - 1) % 2 ^ 32 } in
    if cell.refc == 1 then sd_free cell' else cell'

-- What `iov` is given: a part of the content, or a buffer of zeros that is allocated for it.
unfoldable pub iov_bytes : OpaqueSerdata → ℕ → ℕ → Bytes
iov_bytes sd off sz =
    if leb (off + sz) (length sd.bytes)
    then take sz (drop off sd.bytes)
    else if ltb 0 sz
    then zeros sz
    else []

unfoldable pub sd_to_ser_ref : SerdataBox → ℕ → ℕ → Bytes × SerdataBox
sd_to_ser_ref cell off sz = (iov_bytes cell.serdata off sz, serdata_ref cell)

unfoldable pub sd_to_ser_unref : SerdataBox → SerdataBox
sd_to_ser_unref cell = serdata_unref cell

unfoldable pub sd_to_untyped : SerdataBox → SerdataBox
sd_to_untyped cell = serdata_ref cell

unfoldable pub sd_untyped_to_sample : OpaqueSerdata → SampleWrapper
sd_untyped_to_sample sd = sd_to_sample sd

-- The calls that the C library makes of one serdata.
pub data RefCall : Type 0 where
  to_ser_ref : ℕ → ℕ → RefCall
  to_ser_unref to_untyped unref : RefCall

unfoldable pub ref_call : RefCall → SerdataBox → SerdataBox
ref_call (to_ser_ref off sz) cell = (sd_to_ser_ref cell off sz).1
ref_call to_ser_unref cell = sd_to_ser_unref cell
ref_call to_untyped cell = sd_to_untyped cell
ref_call unref cell = serdata_unref cell

unfoldable pub ref_calls : List RefCall → SerdataBox → SerdataBox
ref_calls [] cell = cell
ref_calls (c ∷ cs) cell = ref_calls cs (ref_call c cell)

-- A `SampleWrapper` on the heap: the length of the vector that `data` points to, `none` for null,
-- `len`, and how often that vector and the box were given back.
pub record SampleBox : Type 0 where
  pub vector : Option ℕ
  pub len : ℕ
  pub vectors_freed : ℕ
  pub boxes_freed : ℕ

-- `sd_to_sample` as it fills in a wrapper.
unfoldable pub fill_sample : OpaqueSerdata → SampleBox → SampleBox
fill_sample sd sample =
    if is_empty sd.bytes
    then record sample { vector = none; len = length sd.bytes }
    else record sample { vector = some (length sd.bytes); len = length sd.bytes }

-- The branch of `st_free_samples` and `free_sample_data` that gives the vector back.
abbrev give_back : Option ℕ → SampleBox → SampleBox
give_back none sample = sample
give_back (some size) sample =
    if ltb 0 sample.len
    then record sample { vector = none; vectors_freed = sample.vectors_freed + 1 }
    else sample

unfoldable pub free_contents : SampleBox → SampleBox
free_contents sample = give_back sample.vector sample

-- `free_sample_data` also sets `len`.
unfoldable pub free_sample_data : SampleBox → SampleBox
free_sample_data sample = elim sample.vector [
  | none ↦ sample
  | some size ↦
      if ltb 0 sample.len
      then record sample { vector = none; len = 0; vectors_freed = sample.vectors_freed + 1 }
      else sample
]

unfoldable pub free_box : SampleBox → SampleBox
free_box sample = record sample { boxes_freed = sample.boxes_freed + 1 }

-- `st_free_samples`; the bits are those of the C library.
unfoldable pub st_free_samples : ℕ → ℕ → ℕ → List SampleBox → List SampleBox
st_free_samples contents_bit all_bit op samples =
    let emptied =
      if not (bit_and op contents_bit == 0) then map free_contents samples else samples in
    if not (bit_and op all_bit == 0) then map free_box emptied else emptied
