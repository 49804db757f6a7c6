-- ===== src/Tests/Serdata.antt =====
-- The claims about serdata at concrete inputs.
use cyclone_dds_ws_bridge.Base.{
  [], arith, false, length, none, refl, some, take, ◌%◌, ◌++◌, ◌∷◌, ◌≡◌,
}
use cyclone_dds_ws_bridge.Base.Words.{from_le_bytes, to_le_bytes}
use cyclone_dds_ws_bridge.Dds.Api.{SampleWrapper}
use cyclone_dds_ws_bridge.Dds.Sertype.{OpaqueSertype}
use cyclone_dds_ws_bridge.Dds.Sertype.Md5.{
  length-padded, md5_chunks, md5_hash, md5_round, md5_rounds, pad_zeros, padded, words_of,
}
use cyclone_dds_ws_bridge.Dds.Sertype.Murmur.{st_hash}
use cyclone_dds_ws_bridge.Dds.Sertype.Refs.{SerdataBox, ref_calls, to_ser_unref, to_untyped, unref}
use cyclone_dds_ws_bridge.Dds.Sertype.Refs.Laws.{Counts, ref_calls-Counts}
use cyclone_dds_ws_bridge.Dds.Sertype.Serdata.{
  sd_eqkey, sd_from_sample, sd_from_ser_iov, sd_get_keyhash, zeros,
}
use cyclone_dds_ws_bridge.Dds.Sertype.Serdata.Laws.{sd_from_sample-hash, sd_get_keyhash_same}
use cyclone_dds_ws_bridge.Dds.Sertype.Serdata.Parts.{concat, sd_from_ser_iov_lem}
use cyclone_dds_ws_bridge.Tests.Values.{color_key, shape}

abbrev color_type : OpaqueSertype
color_type = record {
  type_name = shape;
  no_key = false;
  allowed_data_representation = 5;
  key_fields = color_key.keys;
}

-- A sample with the bytes of its key.
abbrev red : SampleWrapper
red = record { content = 0 ∷ 1 ∷ 0 ∷ 0 ∷ 9 ∷ []; key_bytes = some (7 ∷ []) }

-- Another sample with that key.
abbrev also_red : SampleWrapper
also_red = record { content = 0 ∷ 1 ∷ 0 ∷ 0 ∷ 8 ∷ 8 ∷ []; key_bytes = some (7 ∷ []) }

sd_get_keyhash_same_example :
    sd_get_keyhash color_type (sd_from_sample color_type red) false
    ≡ sd_get_keyhash color_type (sd_from_sample color_type also_red) false
unfolding sd_eqkey sd_from_sample
sd_get_keyhash_same_example =
    sd_get_keyhash_same color_type (sd_from_sample color_type red)
      (sd_from_sample color_type also_red) false refl refl refl

sd_from_sample-hash_example :
    (sd_from_sample color_type red).hash ≡ (sd_from_sample color_type also_red).hash
unfolding sd_eqkey sd_from_sample
sd_from_sample-hash_example = sd_from_sample-hash color_type red also_red refl refl

-- Six bytes are asked for, and five are there.
sd_from_ser_iov_lem_example :
    let sd = sd_from_ser_iov color_type ((1 ∷ 2 ∷ []) ∷ (3 ∷ 4 ∷ 5 ∷ []) ∷ []) 6 in
    (sd.bytes ≡ take 6 (concat ((1 ∷ 2 ∷ []) ∷ (3 ∷ 4 ∷ 5 ∷ []) ∷ []) ++ zeros 6))
    × (length sd.bytes ≡ 6)
    × (sd.key_data ≡ none)
    × (sd.hash ≡ st_hash color_type)
sd_from_ser_iov_lem_example =
    sd_from_ser_iov_lem color_type ((1 ∷ 2 ∷ []) ∷ (3 ∷ 4 ∷ 5 ∷ []) ∷ []) 6

-- A serdata with one reference.
abbrev red_box : SerdataBox
red_box = record { serdata = sd_from_sample color_type red; refc = 1; freed = 0 }

-- A second reference is taken, and both are given back.
ref_calls-Counts_example : Counts 0 (ref_calls (to_untyped ∷ unref ∷ to_ser_unref ∷ []) red_box)
ref_calls-Counts_example =
    ref_calls-Counts (to_untyped ∷ unref ∷ to_ser_unref ∷ []) 1 0 red_box refl (omega arith)
      (record { count = refl; given_back = refl })

length-padded_example : length (padded (1 ∷ 2 ∷ [])) % 64 ≡ 0
length-padded_example = length-padded (1 ∷ 2 ∷ [])

-- The test vector of RFC 1321 for no bytes.
md5_empty :
    md5_hash []
    ≡ 0xd4 ∷ 0x1d ∷ 0x8c ∷ 0xd9 ∷ 0x8f ∷ 0x00 ∷ 0xb2 ∷ 0x04 ∷ 0xe9 ∷ 0x80 ∷ 0x09 ∷ 0x98 ∷ 0xec
      ∷ 0xf8 ∷ 0x42 ∷ 0x7e ∷ []
unfolding md5_hash padded pad_zeros md5_chunks md5_rounds md5_round words_of to_le_bytes
    from_le_bytes
md5_empty = refl
