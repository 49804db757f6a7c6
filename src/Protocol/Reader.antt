-- ===== src/Protocol/Reader.antt =====
-- The reading and writing helpers of src/protocol.rs. A reader takes the bytes that are left of the
-- message, `buf: &mut &[u8]`, and returns its value with those that are left then.
pub mod Accepts
pub mod Laws
pub mod Strings
use cyclone_dds_ws_bridge.Base.{
  Bool, Bytes, Option, Result, [], err, if◌then◌else◌, length, list_eq, ltb, nat_eq, none, not, ok,
  pair_eq, some, take, ℕ, ◌%◌, ◌*◌, ◌==◌, ◌^◌, ◌∷◌,
}
use cyclone_dds_ws_bridge.Base.Buf.{Buf}
use cyclone_dds_ws_bridge.Base.Utf8.{Utf8Error, utf8_error, utf8_error_text}
use cyclone_dds_ws_bridge.Protocol.Errors.{
  ProtocolError, invalid_utf8, string_too_long, trailing_bytes, truncated,
}

abbrev pub Reader {ℓ} : Type ℓ → Type ℓ
Reader A = Bytes → Result ProtocolError (A × Bytes)

infixl 5 ◌>>=◌ ◌>>◌
unfoldable pub ◌>>=◌ {ℓ κ} : {A : Type ℓ} {B : Type κ} → Reader A → (A → Reader B) → Reader B
◌>>=◌ m f s = elim (m s) [ ok (a, rest) ↦ f a rest | err e ↦ err e ]

unfoldable pub ◌>>◌ {ℓ} : {B : Type ℓ} → Reader (Unit {0}) → Reader B → Reader B
unfolding ◌>>=◌
m >> k = m >>= λ _. k

unfoldable pub pure {ℓ} : {A : Type ℓ} → A → Reader A
pure a s = ok (a, s)

unfoldable pub fail {ℓ} : {A : Type ℓ} → ProtocolError → Reader A
fail e s = err e

unfoldable pub lift {ℓ} : {A : Type ℓ} → Result ProtocolError A → Reader A
lift (ok a) s = ok (a, s)
lift (err e) s = err e

abbrev pub max_string_length : ℕ
max_string_length = 1024 * 1024

pub utf8_result : Option Utf8Error → Bytes → Result ProtocolError Bytes
utf8_result none s = ok s
utf8_result (some e) s = err (invalid_utf8 (utf8_error_text e))

-- `std::str::from_utf8(..).map_err(..)`
unfoldable pub from_utf8 : Bytes → Result ProtocolError Bytes
unfolding utf8_result
from_utf8 s = utf8_result (utf8_error s) s

module _ ⦃b : Buf⦄ where
  -- `if buf.remaining() < n { return Err(Truncated { expected: n, got: buf.remaining() }) }`
  unfoldable pub ensure : ℕ → Reader (Unit {0})
  ensure n s = if ltb (b.remaining s) n then err (truncated n (b.remaining s)) else ok (tt, s)

  -- The same for one byte, where the source writes `got: 0`.
  unfoldable pub ensure_byte : Reader (Unit {0})
  ensure_byte s = if ltb (b.remaining s) 1 then err (truncated 1 0) else ok (tt, s)

  unfoldable pub u8 : Reader ℕ
  u8 s = ok (b.get_u8 s)

  unfoldable pub u16_le : Reader ℕ
  u16_le s = ok (b.get_u16_le s)

  unfoldable pub u32_le : Reader ℕ
  u32_le s = ok (b.get_u32_le s)

  unfoldable pub u64_le : Reader ℕ
  u64_le s = ok (b.get_u64_le s)

  -- `buf[..n]`, then `buf.advance(n)`
  unfoldable pub slice : ℕ → Reader Bytes
  slice n s = ok (take n s, b.advance s n)

  unfoldable pub read_bool : Reader Bool
  read_bool = do ensure_byte; v ← u8; pure (not (v == 0))

  -- What follows the length prefix.
  pub read_text : ℕ → Reader Bytes
  unfolding from_utf8
  read_text len =
      if ltb max_string_length len
      then fail (string_too_long len max_string_length)
      else do ensure len; bytes ← slice len; lift (from_utf8 bytes)

  unfoldable pub read_string : Reader Bytes
  unfolding read_text
  read_string = do ensure 4; len ← u32_le; read_text len

  unfoldable pub write_string : Bytes → Bytes → Bytes
  write_string buf s = b.put_slice (b.put_u32_le buf (length s % 2 ^ 32)) s

-- The source takes the slice by value and returns nothing.
unfoldable pub check_no_trailing : Bytes → Result ProtocolError (Unit {0})
check_no_trailing [] = ok tt
check_no_trailing (x ∷ rest) = err (trailing_bytes (length (x ∷ rest)))
