-- ===== src/Console.antt =====
-- The translation of Windows console records to terminal bytes (src/terminal/console_translate.rs):
-- mode bits, UTF-16 units, mouse records and window sizes.
pub mod Reader
pub mod Units
pub mod Buttons
pub mod MouseReports
pub mod Mice
pub mod Windows
pub mod Reads
use qwertty.Commands.Decimal
use qwertty.Input.Characters.{encode_utf8}
use qwertty.Input.Keys.{char_from_u32, replacement_character}
use qwertty.Prelude.{
  ℕ, zero, suc, ◌+◌, ◌-◌, ◌*◌, ◌/◌, ◌%◌, ◌^◌, Bool, true, false, not, ◌||◌, Option, none, some,
  List, [], ◌∷◌, ◌++◌, Bytes, ltb, leb, ◌==◌, if◌then◌else◌, bit_and, bit_or, decimal, codes,
}
use qwertty.Prelude.Int.{ℤ, pos, negsuc, ◌+ℤ◌, ◌-ℤ◌, is_positive}
use qwertty.Syntax.Classes.{esc_byte, within}

-- `RAW_INPUT_CLEAR`, `RAW_INPUT_SET` and `RAW_OUTPUT_SET`
abbrev pub raw_input_clear : ℕ
raw_input_clear = bit_or 0x0001 (bit_or 0x0002 0x0004)

abbrev pub raw_input_set : ℕ
raw_input_set = bit_or 0x0200 (bit_or 0x0008 (bit_or 0x0010 0x0080))

abbrev pub raw_output_set : ℕ
raw_output_set = bit_or 0x0001 (bit_or 0x0002 (bit_or 0x0004 0x0008))

-- `!bits` on a `u32`
abbrev pub not_u32 : ℕ → ℕ
not_u32 bits = 2 ^ 32 - 1 - bits

unfoldable pub raw_input_mode : ℕ → ℕ
raw_input_mode captured = bit_or (bit_and captured (not_u32 raw_input_clear)) raw_input_set

unfoldable pub raw_output_mode : ℕ → ℕ
raw_output_mode captured = bit_or captured raw_output_set

unfoldable pub output_has_vt : ℕ → Bool
output_has_vt mode = not (bit_and mode 0x0004 == 0)

-- `HIGH_SURROGATES` and `LOW_SURROGATES`
abbrev pub high_surrogates : ℕ → Bool
high_surrogates = within 0xd800 0xdbff

abbrev pub low_surrogates : ℕ → Bool
low_surrogates = within 0xdc00 0xdfff

-- `char::from_u32(code).unwrap_or('\u{FFFD}')`
abbrev char_or_replacement : ℕ → ℕ
char_or_replacement code = elim (char_from_u32 code) [
  | none ↦ replacement_character
  | some character ↦ character
]

-- `combine_surrogates` of this module
unfoldable pub combine_units : ℕ → ℕ → ℕ
combine_units high low = char_or_replacement (0x10000 + (high - 0xd800) * 2 ^ 10 + (low - 0xdc00))

abbrev pub encode_replacement : Bytes
encode_replacement = encode_utf8 replacement_character

-- The end of `SurrogateCarry::push`: a unit with nothing pending before it.
unfoldable pub push_fresh : ℕ → Option ℕ × Bytes
push_fresh unit =
    if high_surrogates unit
    then (some unit, [])
    else if low_surrogates unit
    then (none, encode_replacement)
    else (none, encode_utf8 (char_or_replacement unit))

-- `SurrogateCarry::push`: the pending half afterwards, and the bytes that it appends.
unfoldable pub push_unit : Option ℕ → ℕ → Option ℕ × Bytes
push_unit none unit = push_fresh unit
push_unit (some high) unit =
    if low_surrogates unit
    then (none, encode_utf8 (combine_units high unit))
    else (let (pending, bytes) = push_fresh unit in (pending, encode_replacement ++ bytes))

-- `SurrogateCarry::flush`, which leaves nothing pending.
unfoldable pub flush_pending : Option ℕ → Bytes
flush_pending none = []
flush_pending (some high) = encode_replacement

pub record ConsoleMouse : Type 0 where
  pub button_state : ℕ
  pub event_flags : ℕ
  pub x : ℤ
  pub y : ℤ

-- `(button_state >> 16) as i16`
unfoldable pub wheel_delta : ℕ → ℤ
wheel_delta button_state =
    let word = button_state / 2 ^ 16 % 2 ^ 16 in
    if ltb word (2 ^ 15) then pos word else negsuc (2 ^ 16 - 1 - word)

abbrev pub is_negative : ℤ → Bool
is_negative (pos n) = false
is_negative (negsuc n) = true

-- `trailing_zeros` of a number that is not 0 and has as many bits
unfoldable pub trailing_zeros : ℕ → ℕ → ℕ
trailing_zeros zero n = 0
trailing_zeros (suc bits) n =
    let rest = suc (trailing_zeros bits (n / 2)) in if n % 2 == 1 then 0 else rest

-- `buttons & BUTTON_MASK`
abbrev pub masked : ℕ → ℕ
masked buttons = buttons % 0x20

unfoldable pub lowest_button : ℕ → Option ℕ
lowest_button buttons =
    if masked buttons == 0 then none else some (2 ^ trailing_zeros 32 (masked buttons))

unfoldable pub sgr_button_number : ℕ → ℕ
sgr_button_number button_bit =
    if button_bit == 0x01
    then 0
    else if button_bit == 0x04
    then 1
    else if button_bit == 0x02
    then 2
    else if button_bit == 0x08
    then 128
    else if button_bit == 0x10
    then 129
    else 3

-- `u16::try_from((i32::from(coord) + 1).max(1)).unwrap_or(u16::MAX)`
unfoldable pub coord_to_sgr : ℤ → ℕ
coord_to_sgr (pos n) = if leb (n + 1) (2 ^ 16 - 1) then n + 1 else 2 ^ 16 - 1
coord_to_sgr (negsuc n) = 1

unfoldable pub emit_sgr : ℕ → ℕ → ℕ → Bool → Bytes
emit_sgr code column row release =
    esc_byte ∷ b'[' ∷ b'<' ∷ decimal code
    ++ b';' ∷ decimal column
    ++ b';' ∷ decimal row
    ++ (if release then b'm' else b'M') ∷ []

-- `flags & flag != 0`
abbrev pub has_flag : ℕ → ℕ → Bool
has_flag flags flag = not (bit_and flags flag == 0)

abbrev pub one_if : Bool → ℕ
one_if true = 1
one_if false = 0

-- The report of the lowest button, and what is reported where there is none.
abbrev pub report_of : (ℕ → ℕ × Bool) → Option (ℕ × Bool) → Option ℕ → Option (ℕ × Bool)
report_of report other none = other
report_of report other (some bit) = some (report bit)

-- The button code and the release flag of the report that `translate_mouse` emits, if it emits one.
unfoldable pub mouse_report : ConsoleMouse → ℕ → Option (ℕ × Bool)
mouse_report mouse prev_buttons =
    let current = masked mouse.button_state in
    if has_flag mouse.event_flags 0x4
    then some (bit_or 0x40 (one_if (is_negative (wheel_delta mouse.button_state))), false)
    else if has_flag mouse.event_flags 0x8
    then some (
      bit_or (bit_or 0x40 2) (one_if (not (is_negative (wheel_delta mouse.button_state)))),
      false,
    )
    else if has_flag mouse.event_flags 0x1
    then report_of (λ bit. (bit_or (sgr_button_number bit) 0x20, false))
        (some (bit_or 3 0x20, false)) (lowest_button current)
    else if has_flag mouse.event_flags 0x2
    then report_of (λ bit. (sgr_button_number bit, false)) none (lowest_button current)
    else report_of (λ bit. (sgr_button_number bit, false))
        (report_of (λ bit. (sgr_button_number bit, true)) none
          (lowest_button (bit_and prev_buttons (not_u32 current))))
        (lowest_button (bit_and current (not_u32 prev_buttons)))

-- The button state that `translate_mouse` returns.
unfoldable pub held_after : ConsoleMouse → ℕ → ℕ
held_after mouse prev_buttons =
    if has_flag mouse.event_flags 0x4 || has_flag mouse.event_flags 0x8
    then prev_buttons
    else masked mouse.button_state

abbrev pub emit_report : ℕ → ℕ → Option (ℕ × Bool) → Bytes
emit_report column row none = []
emit_report column row (some (code, release)) = emit_sgr code column row release

-- `translate_mouse`: the bytes that it appends, and the button state that it returns.
unfoldable pub translate_mouse : ConsoleMouse → ℕ → Bytes × ℕ
translate_mouse mouse prev_buttons = (
  emit_report (coord_to_sgr mouse.x) (coord_to_sgr mouse.y) (mouse_report mouse prev_buttons),
  held_after mouse prev_buttons,
)

unfoldable pub format_resize_report : ℕ → ℕ → Bytes
format_resize_report rows cols =
    esc_byte ∷ b'[' ∷ codes "48;" ++ decimal rows ++ b';' ∷ decimal cols ++ b't' ∷ []

unfoldable pub window_extent : ℤ → ℤ → ℤ → ℤ → ℤ × ℤ
window_extent left top right bottom = (right -ℤ left +ℤ pos 1, bottom -ℤ top +ℤ pos 1)

unfoldable pub is_degenerate : ℤ → ℤ → Bool
is_degenerate columns rows = not (is_positive columns) || not (is_positive rows)
