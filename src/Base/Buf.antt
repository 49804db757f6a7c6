-- ===== src/Base/Buf.antt =====
-- The `bytes` crate, which is not in the repository: `Buf` for a slice and `BufMut` for `BytesMut`,
-- as far as the program calls them, with their documented behaviour. A read is given enough bytes:
-- the callers test `remaining` first.
use mathlib.Core.Path.{◌≡◌, refl}
use mathlib.Core.List.{◌++◌}
use Prim.Native.Nat.{ℕ, ◌≤◌}
use cyclone_dds_ws_bridge.Base.Lists.{Bytes, length, take, drop}
use cyclone_dds_ws_bridge.Base.Words.{to_le_bytes, from_le_bytes}

pub record Buf : Type 0 where
  pub remaining : Bytes → ℕ
  pub get_u8 : Bytes → ℕ × Bytes
  pub get_u16_le : Bytes → ℕ × Bytes
  pub get_u32_le : Bytes → ℕ × Bytes
  pub get_u64_le : Bytes → ℕ × Bytes
  pub advance : Bytes → ℕ → Bytes
  pub put_u8 : Bytes → ℕ → Bytes
  pub put_u16_le : Bytes → ℕ → Bytes
  pub put_u32_le : Bytes → ℕ → Bytes
  pub put_u64_le : Bytes → ℕ → Bytes
  pub put_slice : Bytes → Bytes → Bytes
  pub remaining_lem : (s : Bytes) → remaining s ≡ length s
  pub get_u8_lem : (s : Bytes) → 1 ≤ length s → get_u8 s ≡ (from_le_bytes (take 1 s), drop 1 s)
  pub get_u16_le_lem :
      (s : Bytes) → 2 ≤ length s → get_u16_le s ≡ (from_le_bytes (take 2 s), drop 2 s)
  pub get_u32_le_lem :
      (s : Bytes) → 4 ≤ length s → get_u32_le s ≡ (from_le_bytes (take 4 s), drop 4 s)
  pub get_u64_le_lem :
      (s : Bytes) → 8 ≤ length s → get_u64_le s ≡ (from_le_bytes (take 8 s), drop 8 s)
  pub advance_lem : (s : Bytes) (n : ℕ) → n ≤ length s → advance s n ≡ drop n s
  pub put_u8_lem : (s : Bytes) (n : ℕ) → put_u8 s n ≡ s ++ to_le_bytes 1 n
  pub put_u16_le_lem : (s : Bytes) (n : ℕ) → put_u16_le s n ≡ s ++ to_le_bytes 2 n
  pub put_u32_le_lem : (s : Bytes) (n : ℕ) → put_u32_le s n ≡ s ++ to_le_bytes 4 n
  pub put_u64_le_lem : (s : Bytes) (n : ℕ) → put_u64_le s n ≡ s ++ to_le_bytes 8 n
  pub put_slice_lem : (s t : Bytes) → put_slice s t ≡ s ++ t

-- The interface can be met.
abbrev pub slice_buf : Buf
slice_buf = record {
  remaining = λ s. length s;
  get_u8 = λ s. (from_le_bytes (take 1 s), drop 1 s);
  get_u16_le = λ s. (from_le_bytes (take 2 s), drop 2 s);
  get_u32_le = λ s. (from_le_bytes (take 4 s), drop 4 s);
  get_u64_le = λ s. (from_le_bytes (take 8 s), drop 8 s);
  advance = λ s n. drop n s;
  put_u8 = λ s n. s ++ to_le_bytes 1 n;
  put_u16_le = λ s n. s ++ to_le_bytes 2 n;
  put_u32_le = λ s n. s ++ to_le_bytes 4 n;
  put_u64_le = λ s n. s ++ to_le_bytes 8 n;
  put_slice = λ s t. s ++ t;
  remaining_lem = λ s. refl;
  get_u8_lem = λ s h. refl;
  get_u16_le_lem = λ s h. refl;
  get_u32_le_lem = λ s h. refl;
  get_u64_le_lem = λ s h. refl;
  advance_lem = λ s n h. refl;
  put_u8_lem = λ s n. refl;
  put_u16_le_lem = λ s n. refl;
  put_u32_le_lem = λ s n. refl;
  put_u64_le_lem = λ s n. refl;
  put_slice_lem = λ s t. refl;
}
