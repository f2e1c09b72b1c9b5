-- ===== src/Report/Numbers.antt =====
-- The decimal and hexadecimal parsers and the slice helpers of src/report.rs.
use qwertty.Prelude.{
  ℕ, ◌+◌, ◌-◌, ◌*◌, ◌/◌, ◌^◌, ◌||◌, Option, none, some, List, [], ◌∷◌, Bytes, length, is_empty, ltb,
  leb, ◌==◌, if◌then◌else◌, ◌>>=◌,
}
use qwertty.Syntax.Classes.{within}

-- The first piece with a byte in front.
abbrev pub onto_first : ℕ → List Bytes → List Bytes
onto_first byte [] = (byte ∷ []) ∷ []
onto_first byte (piece ∷ pieces) = (byte ∷ piece) ∷ pieces

-- `bytes.split(|&byte| byte == sep)`
unfoldable pub split : ℕ → Bytes → List Bytes
split sep [] = [] ∷ []
split sep (byte ∷ bytes) =
    let pieces = split sep bytes in if byte == sep then [] ∷ pieces else onto_first byte pieces

unfoldable pub split_once : ℕ → Bytes → Option (Bytes × Bytes)
split_once sep [] = none
split_once sep (byte ∷ bytes) =
    let rest = split_once sep bytes in
    if byte == sep then some ([], bytes) else (rest >>= λ (a, b). some (byte ∷ a, b))

-- `bytes.strip_prefix(prefix)`
unfoldable pub strip_prefix : Bytes → Bytes → Option Bytes
strip_prefix [] bytes = some bytes
strip_prefix (p ∷ prefix) [] = none
strip_prefix (p ∷ prefix) (byte ∷ bytes) = if p == byte then strip_prefix prefix bytes else none

-- `checked_mul` and `checked_add` of an unsigned type with the greatest value `max`
abbrev checked_mul : ℕ → ℕ → ℕ → Option ℕ
checked_mul max a b = if leb (a * b) max then some (a * b) else none

abbrev checked_add : ℕ → ℕ → ℕ → Option ℕ
checked_add max a b = if leb (a + b) max then some (a + b) else none

-- One round of the digit loops.
unfoldable pub decimal_digit : ℕ → ℕ → ℕ → Option ℕ
decimal_digit max value byte =
    if within b'0' b'9' byte
    then (checked_mul max value 10 >>= λ v. checked_add max v (byte - b'0'))
    else none

unfoldable pub decimal_loop : ℕ → ℕ → Bytes → Option ℕ
decimal_loop max value [] = some value
decimal_loop max value (byte ∷ bytes) =
    decimal_digit max value byte >>= λ v. decimal_loop max v bytes

unfoldable pub parse_decimal : ℕ → Bytes → Option ℕ
parse_decimal max bytes = if is_empty bytes then none else decimal_loop max 0 bytes

abbrev pub parse_u16 : Bytes → Option ℕ
parse_u16 = parse_decimal (2 ^ 16 - 1)

abbrev pub parse_u32 : Bytes → Option ℕ
parse_u32 = parse_decimal (2 ^ 32 - 1)

-- `parse_decimal_u8` of src/event/kitty.rs
unfoldable pub parse_decimal_u8 : Bytes → Option ℕ
parse_decimal_u8 bytes = parse_u32 bytes >>= λ v. if leb v (2 ^ 8 - 1) then some v else none

unfoldable pub parse_one_based_u16 : Bytes → Option ℕ
parse_one_based_u16 bytes = parse_u16 bytes >>= λ v. if v == 0 then none else some v

-- `(byte as char).to_digit(16)`
unfoldable pub hex_digit : ℕ → Option ℕ
hex_digit byte =
    if within b'0' b'9' byte
    then some (byte - b'0')
    else if within b'a' b'f' byte
    then some (byte - b'a' + 10)
    else if within b'A' b'F' byte
    then some (byte - b'A' + 10)
    else none

unfoldable pub hex_loop : ℕ → Bytes → Option ℕ
hex_loop value [] = some value
hex_loop value (byte ∷ bytes) = hex_digit byte >>= λ digit. hex_loop (value * 16 + digit) bytes

-- Four digits at most keep the value in 16 bits, so the `u32` does not overflow; `<<` and `>>` are
-- the product and the quotient by a power of two.
unfoldable pub parse_hex_channel : Bytes → Option ℕ
parse_hex_channel bytes =
    if is_empty bytes || ltb 4 (length bytes)
    then none
    else (hex_loop 0 bytes >>= λ value.
        let aligned = value * 2 ^ (16 - length bytes * 4) in
        if ltb (aligned / 2 ^ 8) (2 ^ 8) then some (aligned / 2 ^ 8) else none)
