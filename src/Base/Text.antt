-- ===== src/Base/Text.antt =====
-- Texts as their UTF-8 bytes, and the number formats of `format!` that the messages use.
use Prim.Native.Char.{code}
use Prim.Native.String.{String}
use Prim.Native.Nat.{ℕ, zero, suc, ◌+◌, ◌-◌, ◌/◌, ◌%◌}
use mathlib.Core.List.{[], ◌∷◌, ◌++◌}
use cyclone_dds_ws_bridge.Base.Tests.{ltb, if◌then◌else◌}
use cyclone_dds_ws_bridge.Base.Lists.{Bytes}

-- The bytes of an ASCII literal.
unfoldable pub codes : String → Bytes
codes String.[] = []
codes (String.◌∷◌ c s) = code c ∷ codes s

hex_digit : ℕ → ℕ
hex_digit d = if ltb d 10 then b'0' + d else b'a' + (d - 10)

decimal_fuel : ℕ → ℕ → Bytes
decimal_fuel zero n = []
decimal_fuel (suc f) n =
    let high = decimal_fuel f (n / 10) in (if ltb n 10 then [] else high) ++ (b'0' + n % 10) ∷ []

-- `{}` of an unsigned integer: n + 1 digits are enough.
pub decimal : ℕ → Bytes
unfolding decimal_fuel
decimal n = decimal_fuel (suc n) n

-- The low k hexadecimal digits.
hex_digits : ℕ → ℕ → Bytes
hex_digits zero n = []
hex_digits (suc k) n = hex_digits k (n / 16) ++ hex_digit (n % 16) ∷ []

-- `{:#04x}` of a u8 and `{:#06x}` of a u16: the prefix counts for the width.
pub hex_u8 : ℕ → Bytes
unfolding hex_digits hex_digit
hex_u8 n = b'0' ∷ b'x' ∷ hex_digits 2 n

pub hex_u16 : ℕ → Bytes
unfolding hex_digits hex_digit
hex_u16 n = b'0' ∷ b'x' ∷ hex_digits 4 n
