-- ===== src/Dds/Sertype/Md5.antt =====
-- `md5_hash` of src/dds/sertype.rs.
use Prim.Native.Nat.{bit_and, bit_or, bit_xor}
use cyclone_dds_ws_bridge.Base.{
  Bool-cases, Bytes, List, [], arith, drop, if◌then◌else◌, inl, inr, length, length-append, list_eq,
  ltb, nat_beq, nat_beq_iff, nat_eq, not, pair_eq, refl, suc, take, zero, ℕ, ◌%◌, ◌*◌, ◌++◌, ◌+◌,
  ◌-◌, ◌/◌, ◌==◌, ◌^◌, ◌∷◌, ◌≡◌, ◌≢◌, ◌≤◌,
}
use cyclone_dds_ws_bridge.Base.Words.{from_le_bytes, length-to_le_bytes, to_le_bytes}
use cyclone_dds_ws_bridge.Dds.Sertype.Murmur.{rotate_left, wrapping_add}
use cyclone_dds_ws_bridge.Qos.Normalize.{policy_eq}

abbrev at : List ℕ → ℕ → ℕ
at [] n = 0
at (x ∷ xs) zero = x
at (x ∷ xs) (suc n) = at xs n

-- `S`, of which each sixteen entries repeat four.
abbrev shifts : ℕ → List ℕ
shifts i =
    if ltb i 16
    then 7 ∷ 12 ∷ 17 ∷ 22 ∷ []
    else if ltb i 32
    then 5 ∷ 9 ∷ 14 ∷ 20 ∷ []
    else if ltb i 48
    then 4 ∷ 11 ∷ 16 ∷ 23 ∷ []
    else 6 ∷ 10 ∷ 15 ∷ 21 ∷ []

-- `K`
abbrev constants : List ℕ
constants =
    0xd76aa478 ∷ 0xe8c7b756 ∷ 0x242070db ∷ 0xc1bdceee ∷ 0xf57c0faf ∷ 0x4787c62a ∷ 0xa8304613
    ∷ 0xfd469501 ∷ 0x698098d8 ∷ 0x8b44f7af ∷ 0xffff5bb1 ∷ 0x895cd7be ∷ 0x6b901122 ∷ 0xfd987193
    ∷ 0xa679438e ∷ 0x49b40821 ∷ 0xf61e2562 ∷ 0xc040b340 ∷ 0x265e5a51 ∷ 0xe9b6c7aa ∷ 0xd62f105d
    ∷ 0x02441453 ∷ 0xd8a1e681 ∷ 0xe7d3fbc8 ∷ 0x21e1cde6 ∷ 0xc33707d6 ∷ 0xf4d50d87 ∷ 0x455a14ed
    ∷ 0xa9e3e905 ∷ 0xfcefa3f8 ∷ 0x676f02d9 ∷ 0x8d2a4c8a ∷ 0xfffa3942 ∷ 0x8771f681 ∷ 0x6d9d6122
    ∷ 0xfde5380c ∷ 0xa4beea44 ∷ 0x4bdecfa9 ∷ 0xf6bb4b60 ∷ 0xbebfbc70 ∷ 0x289b7ec6 ∷ 0xeaa127fa
    ∷ 0xd4ef3085 ∷ 0x04881d05 ∷ 0xd9d4d039 ∷ 0xe6db99e5 ∷ 0x1fa27cf8 ∷ 0xc4ac5665 ∷ 0xf4292244
    ∷ 0x432aff97 ∷ 0xab9423a7 ∷ 0xfc93a039 ∷ 0x655b59c3 ∷ 0x8f0ccc92 ∷ 0xffeff47d ∷ 0x85845dd1
    ∷ 0x6fa87e4f ∷ 0xfe2ce6e0 ∷ 0xa3014314 ∷ 0x4e0811a1 ∷ 0xf7537e82 ∷ 0xbd3af235 ∷ 0x2ad7d2bb
    ∷ 0xeb86d391 ∷ []

-- The state of four words.
abbrev Words : Type 0
Words = ℕ × ℕ × ℕ × ℕ

abbrev complement : ℕ → ℕ
complement x = 2 ^ 32 - 1 - x

-- The `match i` of the loop.
abbrev selected : ℕ → ℕ → ℕ → ℕ → ℕ × ℕ
selected i b c d =
    if ltb i 16
    then (bit_or (bit_and b c) (bit_and (complement b) d), i)
    else if ltb i 32
    then (bit_or (bit_and d b) (bit_and (complement d) c), (5 * i + 1) % 16)
    else if ltb i 48
    then (bit_xor (bit_xor b c) d, (3 * i + 5) % 16)
    else (bit_xor c (bit_or b (complement d)), 7 * i % 16)

unfoldable pub md5_round : List ℕ → ℕ → Words → Words
md5_round m i (a, b, c, d) =
    let (f, g) = selected i b c d in
    let f' = (f + a + at constants i + at m g) % 2 ^ 32 in
    (d, wrapping_add b (rotate_left f' (at (shifts i) (i % 4))), b, c)

-- The rounds from `i` on, `n` of them.
unfoldable pub md5_rounds : List ℕ → ℕ → ℕ → Words → Words
md5_rounds m zero i s = s
md5_rounds m (suc n) i s = md5_rounds m n (suc i) (md5_round m i s)

-- The words of a chunk.
unfoldable pub words_of : ℕ → Bytes → List ℕ
words_of zero chunk = []
words_of (suc n) chunk = from_le_bytes (take 4 chunk) ∷ words_of n (drop 4 chunk)

abbrev added_words : Words → Words → Words
added_words (a, b, c, d) (a', b', c', d') =
    (wrapping_add a a', wrapping_add b b', wrapping_add c c', wrapping_add d d')

-- The loop over `msg.chunks(64)`.
unfoldable pub md5_chunks : ℕ → Bytes → Words → Words
md5_chunks zero msg s = s
md5_chunks (suc n) msg s =
    md5_chunks n (drop 64 msg) (added_words s (md5_rounds (words_of 16 msg) 64 0 s))

-- `while msg.len() % 64 != 56`, with the number of rounds that it may make.
unfoldable pub pad_zeros : ℕ → Bytes → Bytes
pad_zeros zero msg = msg
pad_zeros (suc n) msg =
    let rest = pad_zeros n (msg ++ 0 ∷ []) in if not (length msg % 64 == 56) then rest else msg

-- The loop makes 63 rounds at most.
unfoldable pub padded : Bytes → Bytes
padded bytes = pad_zeros 63 (bytes ++ 0x80 ∷ []) ++ to_le_bytes 8 (length bytes * 8 % 2 ^ 64)

abbrev digest : Words → Bytes
digest (a, b, c, d) = to_le_bytes 4 a ++ (to_le_bytes 4 b ++ (to_le_bytes 4 c ++ to_le_bytes 4 d))

unfoldable pub md5_hash : Bytes → Bytes
md5_hash bytes =
    let msg = padded bytes in
    digest (md5_chunks (length msg / 64) msg (0x67452301, 0xefcdab89, 0x98badcfe, 0x10325476))

pad_zeros_lem :
    (n : ℕ) (msg : Bytes)
    → (56 + 64 - length msg % 64) % 64 ≤ n
    → length (pad_zeros n msg) % 64 ≡ 56
unfolding pad_zeros
pad_zeros_lem zero msg h = omega arith
pad_zeros_lem (suc n) msg h = elim (Bool-cases (nat_beq (length msg % 64) 56)) [
  | inl full ↦ rw full ((nat_beq_iff (length msg % 64) 56).0 full)
  | inr short ↦
      let size = length-append msg (0 ∷ []) in
      let other : length msg % 64 ≢ 56 = λ e. ground (arith, short, e) in
      rw short (pad_zeros_lem n (msg ++ 0 ∷ []) (omega (arith, size, other, h)))
]

-- The loop that pads a message for MD5 stops within 63 rounds with a length of 56 modulo 64, so
-- that the padded message consists of whole chunks of 64 bytes.
pub length-padded : (bytes : Bytes) → length (padded bytes) % 64 ≡ 0
unfolding padded
length-padded bytes =
    let start = bytes ++ 0x80 ∷ [] in
    let stop : length (pad_zeros 63 start) % 64 ≡ 56 = pad_zeros_lem 63 start (omega arith) in
    let size = length-append (pad_zeros 63 start) (to_le_bytes 8 (length bytes * 8 % 2 ^ 64)) in
    let eight = length-to_le_bytes 8 (length bytes * 8 % 2 ^ 64) in omega (arith, size, eight, stop)

pub length-md5_hash : (bytes : Bytes) → length (md5_hash bytes) ≡ 16
unfolding md5_hash to_le_bytes
length-md5_hash bytes = refl
