-- ===== src/Syntax/Classes.antt =====
-- Byte classes (the constants and `is_*` functions of src/syntax.rs) and `std::str::from_utf8`.
use qwertty.Prelude.{
  ℕ, zero, suc, Bool, true, false, not, ◌&&◌, ◌||◌, Option, none, some, [], ◌∷◌, Bytes, leb, ◌==◌,
  if◌then◌else◌,
}

abbrev pub esc_byte : ℕ
esc_byte = 0x1b

abbrev pub bel_byte : ℕ
bel_byte = 0x07

abbrev pub can_byte : ℕ
can_byte = 0x18

abbrev pub sub_byte : ℕ
sub_byte = 0x1a

abbrev pub delete_byte : ℕ
delete_byte = 0x7f

abbrev pub c1_st : ℕ
c1_st = 0x9c

-- `matches!(byte, lo..=hi)`
abbrev pub within : ℕ → ℕ → ℕ → Bool
within lo hi byte = leb lo byte && leb byte hi

unfoldable pub is_c1_introducer : ℕ → Bool
is_c1_introducer byte =
    byte == 0x90
    || byte == 0x98
    || byte == 0x9b
    || byte == 0x9c
    || byte == 0x9d
    || byte == 0x9e
    || byte == 0x9f

unfoldable pub is_text_boundary : ℕ → Bool
unfolding is_c1_introducer
is_text_boundary byte = within 0x00 0x1f byte || byte == delete_byte || is_c1_introducer byte

unfoldable pub is_text_start : ℕ → Bool
unfolding is_text_boundary
is_text_start byte = not (is_text_boundary byte) && not (byte == c1_st)

unfoldable pub is_private_marker : ℕ → Bool
is_private_marker = within 0x3c 0x3f

unfoldable pub is_param_byte : ℕ → Bool
is_param_byte = within 0x30 0x3b

unfoldable pub is_intermediate_byte : ℕ → Bool
is_intermediate_byte = within 0x20 0x2f

unfoldable pub is_final_byte : ℕ → Bool
is_final_byte = within 0x40 0x7e

unfoldable pub is_escape_final_byte : ℕ → Bool
is_escape_final_byte = within 0x30 0x7e

unfoldable pub utf8_width : ℕ → Option ℕ
utf8_width byte =
    if within 0x00 0x7f byte
    then some 1
    else if within 0xc2 0xdf byte
    then some 2
    else if within 0xe0 0xef byte
    then some 3
    else if within 0xf0 0xf4 byte
    then some 4
    else none

-- What a lead byte asks of the bytes behind it: how many, and the range of the first of them.
abbrev pub Follow : Type 0
Follow = Option (ℕ × ℕ × ℕ)

-- Table 3-7 of the Unicode standard, which `std::str::from_utf8` implements.
unfoldable pub utf8_follow : ℕ → Follow
utf8_follow byte =
    if within 0x00 0x7f byte
    then some (0, 0x80, 0xbf)
    else if within 0xc2 0xdf byte
    then some (1, 0x80, 0xbf)
    else if byte == 0xe0
    then some (2, 0xa0, 0xbf)
    else if byte == 0xed
    then some (2, 0x80, 0x9f)
    else if within 0xe1 0xef byte
    then some (2, 0x80, 0xbf)
    else if byte == 0xf0
    then some (3, 0x90, 0xbf)
    else if byte == 0xf4
    then some (3, 0x80, 0x8f)
    else if within 0xf1 0xf3 byte
    then some (3, 0x80, 0xbf)
    else none

unfoldable pub utf8_ok : ℕ → ℕ → ℕ → Bytes → Bool
utf8_ok zero lo hi [] = true
utf8_ok (suc n) lo hi [] = false
utf8_ok zero lo hi (byte ∷ bytes) = elim (utf8_follow byte) [
  | none ↦ false
  | some (n, lo', hi') ↦ utf8_ok n lo' hi' bytes
]
utf8_ok (suc n) lo hi (byte ∷ bytes) = within lo hi byte && utf8_ok n 0x80 0xbf bytes

-- `std::str::from_utf8(bytes).is_ok()`
unfoldable pub is_utf8 : Bytes → Bool
unfolding utf8_ok utf8_follow
is_utf8 bytes = utf8_ok 0 0x80 0xbf bytes
