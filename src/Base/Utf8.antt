-- ===== src/Base/Utf8.antt =====
-- `std::str::from_utf8`: the first place where a byte sequence is not well-formed UTF-8.
use Prim.Native.Nat.{ℕ, zero, suc, ◌+◌}
use mathlib.Core.Path.{◌≡◌}
use mathlib.Core.Bool.{◌&&◌}
use mathlib.Core.Option.{Option, none, some}
use mathlib.Core.List.{[], ◌∷◌, ◌++◌}
use cyclone_dds_ws_bridge.Base.Tests.{ltb, leb, nat_beq, if◌then◌else◌}
use cyclone_dds_ws_bridge.Base.Lists.{Bytes}
use cyclone_dds_ws_bridge.Base.Results.{Result, ok, err}
use cyclone_dds_ws_bridge.Base.Text.{codes, decimal}

-- `error_len` is `none` at an unexpected end of the input.
pub record Utf8Error : Type 0 where
  pub valid_up_to : ℕ
  pub error_len : Option ℕ

-- Between two characters, or inside one: where it began, the bytes read of it, the range of its
-- next byte and the number of bytes after that one.
pub data Utf8State : Type 0 where
  boundary : ℕ → Utf8State
  inside : ℕ → ℕ → ℕ → ℕ → ℕ → Utf8State

utf8_first : ℕ → ℕ → Result Utf8Error Utf8State
utf8_first at b =
    if ltb b 0x80
    then ok (boundary (at + 1))
    else if leb 0xc2 b && leb b 0xdf
    then ok (inside at 1 0x80 0xbf 0)
    else if nat_beq b 0xe0
    then ok (inside at 1 0xa0 0xbf 1)
    else if nat_beq b 0xed
    then ok (inside at 1 0x80 0x9f 1)
    else if leb 0xe1 b && leb b 0xef
    then ok (inside at 1 0x80 0xbf 1)
    else if nat_beq b 0xf0
    then ok (inside at 1 0x90 0xbf 2)
    else if leb 0xf1 b && leb b 0xf3
    then ok (inside at 1 0x80 0xbf 2)
    else if nat_beq b 0xf4
    then ok (inside at 1 0x80 0x8f 2)
    else err (record { valid_up_to = at; error_len = some 1 })

utf8_next : Utf8State → ℕ → Result Utf8Error Utf8State
utf8_next (boundary at) b = utf8_first at b
utf8_next (inside at seen lo hi zero) b =
    if leb lo b && leb b hi
    then ok (boundary (at + seen + 1))
    else err (record { valid_up_to = at; error_len = some seen })
utf8_next (inside at seen lo hi (suc left)) b =
    if leb lo b && leb b hi
    then ok (inside at (seen + 1) 0x80 0xbf left)
    else err (record { valid_up_to = at; error_len = some seen })

utf8_run : Utf8State → Bytes → Option Utf8Error
utf8_run (boundary at) [] = none
utf8_run (inside at _ _ _ _) [] = some (record { valid_up_to = at; error_len = none })
utf8_run s (b ∷ bs) = elim (utf8_next s b) [ ok t ↦ utf8_run t bs | err e ↦ some e ]

-- `none` if the bytes are a `str`.
unfoldable pub utf8_error : Bytes → Option Utf8Error
unfolding utf8_run utf8_next utf8_first
utf8_error = utf8_run (boundary 0)

abbrev pub IsUtf8 : Bytes → Type 0
IsUtf8 s = utf8_error s ≡ none

-- `impl Display for Utf8Error`
error_len_text : Option ℕ → Bytes
error_len_text (some n) = codes "invalid utf-8 sequence of " ++ decimal n ++ codes " bytes"
error_len_text none = codes "incomplete utf-8 byte sequence"

pub utf8_error_text : Utf8Error → Bytes
unfolding error_len_text
utf8_error_text e = error_len_text e.error_len ++ codes " from index " ++ decimal e.valid_up_to
