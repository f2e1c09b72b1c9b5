-- ===== src/Report/Bounds.antt =====
-- The checked decimal loop of src/report.rs against the exact value of the digits.
use qwertty.Prelude.{
  ℕ, ◌+◌, ◌-◌, ◌*◌, ◌≤◌, ◌≡◌, Bool, true, ◌&&◌, Option, none, some, [], ◌∷◌, Bytes, leb,
  if◌then◌else◌, arith,
}
use qwertty.Report.Numbers.{decimal_digit, decimal_loop, parse_decimal}
use qwertty.Syntax.Classes.{within}

-- The number that digits read from the left stand for, after `value`.
unfoldable pub decimal_value : ℕ → Bytes → ℕ
decimal_value value [] = value
decimal_value value (byte ∷ bytes) = decimal_value (value * 10 + (byte - b'0')) bytes

unfoldable pub is_decimal : Bytes → Bool
is_decimal [] = true
is_decimal (byte ∷ bytes) = within b'0' b'9' byte && is_decimal bytes

decimal_value-lower : (value : ℕ) (bytes : Bytes) → value ≤ decimal_value value bytes
unfolding decimal_value
decimal_value-lower value [] = ground arith
decimal_value-lower value (byte ∷ bytes) =
    ground (arith, decimal_value-lower (value * 10 + (byte - b'0')) bytes)

-- The exact value, if it is at most `max`.
unfoldable pub bounded : ℕ → Bool → ℕ → Option ℕ
bounded max ok value = if ok && leb value max then some value else none

decimal_loop_lem :
    (max value : ℕ) (bytes : Bytes)
    → value ≤ max
    → decimal_loop max value bytes ≡ bounded max (is_decimal bytes) (decimal_value value bytes)
unfolding decimal_loop decimal_digit decimal_value is_decimal bounded
decimal_loop_lem max value [] h = ground arith
decimal_loop_lem max value (byte ∷ bytes) h = ground (
  arith,
  decimal_loop_lem max (value * 10 + (byte - b'0')) bytes,
  decimal_value-lower (value * 10 + (byte - b'0')) bytes,
)

-- Parsing a field gives the exact value of its digits if all its bytes are digits and the value is
-- at most `max`, and nothing otherwise.
pub parse_decimal_lem :
    (max byte : ℕ) (bytes : Bytes)
    → parse_decimal max (byte ∷ bytes)
      ≡ bounded max (is_decimal (byte ∷ bytes)) (decimal_value 0 (byte ∷ bytes))
unfolding parse_decimal
parse_decimal_lem max byte bytes = decimal_loop_lem max 0 (byte ∷ bytes) (ground arith)
