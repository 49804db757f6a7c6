-- ===== src/Dds/Sertype/Murmur.antt =====
-- `murmurhash3` and `st_hash` of src/dds/sertype.rs.
-- `u32::rotate_left`, for an amount from 1 to 31.
use Prim.Native.Nat.{bit_xor}
use cyclone_dds_ws_bridge.Base.{
  Bytes, [], drop, length, suc, take, zero, ℕ, ◌%◌, ◌*◌, ◌+◌, ◌-◌, ◌/◌, ◌^◌, ◌∷◌,
}
use cyclone_dds_ws_bridge.Base.Words.{from_le_bytes}
use cyclone_dds_ws_bridge.Dds.Sertype.{OpaqueSertype}

abbrev pub rotate_left : ℕ → ℕ → ℕ
rotate_left x n = x * 2 ^ n % 2 ^ 32 + x / 2 ^ (32 - n)

abbrev pub wrapping_mul : ℕ → ℕ → ℕ
wrapping_mul x y = x * y % 2 ^ 32

abbrev pub wrapping_add : ℕ → ℕ → ℕ
wrapping_add x y = (x + y) % 2 ^ 32

abbrev scrambled : ℕ → ℕ
scrambled k = wrapping_mul (rotate_left (wrapping_mul k 0xcc9e2d51) 15) 0x1b873593

abbrev mix_block : ℕ → ℕ → ℕ
mix_block k h = wrapping_add (wrapping_mul (rotate_left (bit_xor h (scrambled k)) 13) 5) 0xe6546b64

-- The loop over the whole blocks: the hash, and the tail.
unfoldable pub murmur_blocks : ℕ → Bytes → ℕ → ℕ × Bytes
murmur_blocks zero bytes h = (h, bytes)
murmur_blocks (suc n) bytes h =
    murmur_blocks n (drop 4 bytes) (mix_block (from_le_bytes (take 4 bytes)) h)

-- The bytes of the tail, and its effect.
unfoldable pub murmur_tail : Bytes → ℕ → ℕ
murmur_tail [] h = h
murmur_tail (x ∷ []) h = bit_xor h (scrambled (bit_xor 0 x))
murmur_tail (x ∷ y ∷ []) h = bit_xor h (scrambled (bit_xor (bit_xor 0 (y * 2 ^ 8)) x))
murmur_tail (x ∷ y ∷ z ∷ rest) h =
    bit_xor h (scrambled (bit_xor (bit_xor (bit_xor 0 (z * 2 ^ 16)) (y * 2 ^ 8)) x))

abbrev shift_xor : ℕ → ℕ → ℕ
shift_xor h n = bit_xor h (h / 2 ^ n)

abbrev finished : ℕ → ℕ
finished h =
    shift_xor (wrapping_mul (shift_xor (wrapping_mul (shift_xor h 16) 0x85ebca6b) 13) 0xc2b2ae35) 16

unfoldable pub murmurhash3 : Bytes → ℕ → ℕ
murmurhash3 bytes seed =
    let (h, tail) = murmur_blocks (length bytes / 4) bytes seed in
    finished (bit_xor (murmur_tail tail h) (length bytes % 2 ^ 32))

-- `st_hash` of the bytes of the type name.
unfoldable pub name_hash : Bytes → ℕ → ℕ
name_hash [] h = h
name_hash (x ∷ xs) h = name_hash xs (wrapping_add (wrapping_mul h 31) x)

unfoldable pub st_hash : OpaqueSertype → ℕ
st_hash st = name_hash st.type_name 0
