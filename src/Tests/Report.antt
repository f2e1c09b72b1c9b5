-- ===== src/Tests/Report.antt =====
-- The report parsers at concrete bytes, most of them from the tests of src/report.rs.
use qwertty.Prelude.{◌≡◌, false, refl, none, some, [], ◌∷◌}
use qwertty.Report.{terminal_status_report, malfunction, has_shape}
use qwertty.Syntax.Token.{ControlSequence}
use qwertty.Report.Bounds.{bounded, is_decimal, decimal_value, parse_decimal_lem}
use qwertty.Report.Numbers.{
  parse_u16, parse_decimal, decimal_loop, decimal_digit, parse_hex_channel, hex_loop, hex_digit,
}

largest : parse_u16 (b'6' ∷ b'5' ∷ b'5' ∷ b'3' ∷ b'5' ∷ []) ≡ some 65535
unfolding parse_decimal decimal_loop decimal_digit
largest = refl

too_large : parse_u16 (b'6' ∷ b'5' ∷ b'5' ∷ b'3' ∷ b'6' ∷ []) ≡ none
unfolding parse_decimal decimal_loop decimal_digit
too_large = refl

channel : parse_hex_channel (b'1' ∷ b'a' ∷ b'2' ∷ b'b' ∷ []) ≡ some 0x1a
unfolding parse_hex_channel hex_loop hex_digit
channel = refl

parse_decimal_lem_example :
    parse_decimal 65535 (b'7' ∷ b'0' ∷ [])
    ≡ bounded 65535 (is_decimal (b'7' ∷ b'0' ∷ [])) (decimal_value 0 (b'7' ∷ b'0' ∷ []))
parse_decimal_lem_example = parse_decimal_lem 65535 b'7' (b'0' ∷ [])

-- `CSI 3 n`
abbrev failed : ControlSequence
failed = record {
  bytes = 0x1b ∷ b'[' ∷ b'3' ∷ b'n' ∷ [];
  params = record {
    private_markers = [];
    param_bytes = b'3' ∷ [];
    params = [];
    params_overflowed = false;
    intermediates = [];
    final_byte = b'n';
  };
}

failed_run : terminal_status_report failed ≡ some malfunction
unfolding terminal_status_report has_shape
failed_run = refl
