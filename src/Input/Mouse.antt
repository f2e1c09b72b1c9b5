-- ===== src/Input/Mouse.antt =====
-- SGR mouse reports (src/event/mouse.rs).
use qwertty.Prelude.{
  ℕ, ◌+◌, ◌^◌, ◌-◌, Bool, true, false, ◌||◌, not, Option, none, some, List, [], ◌∷◌, is_empty,
  bytes_eq, leb, ◌==◌, if◌then◌else◌, ◌>>=◌, bit_and,
}
use qwertty.Input.Keys.{Modifiers, shift, alt, ctrl, no_modifiers, insert_if}
use qwertty.Syntax.Token.{Param, ControlSequence}

pub data ScrollDirection : Type 0 where
  up down left right : ScrollDirection

pub data MouseEventKind : Type 0 where
  press release moved : MouseEventKind
  scroll : ScrollDirection → MouseEventKind

pub data MouseButton : Type 0 where
  left middle right no_button : MouseButton
  other : ℕ → MouseButton

pub record MouseEvent : Type 0 where
  pub kind : MouseEventKind
  pub button : MouseButton
  pub column : ℕ
  pub row : ℕ
  pub modifiers : Modifiers

-- `button_code & bit != 0`
abbrev pub has_bit : ℕ → ℕ → Bool
has_bit button_code bit = not (bit_and button_code bit == 0)

unfoldable pub decode_mouse_modifiers : ℕ → Modifiers
decode_mouse_modifiers button_code =
    insert_if (has_bit button_code 16) ctrl
      (insert_if (has_bit button_code 8) alt (insert_if (has_bit button_code 4) shift no_modifiers))

unfoldable pub decode_button : ℕ → MouseButton
decode_button button_code =
    let low = bit_and button_code 3 in
    if has_bit button_code 128
    then MouseButton.other (8 + low)
    else if low == 0
    then MouseButton.left
    else if low == 1
    then MouseButton.middle
    else if low == 2
    then MouseButton.right
    else MouseButton.no_button

-- The `match` on the low two bits of a wheel code.
unfoldable pub scroll_direction : ℕ → ScrollDirection
scroll_direction low =
    if low == 0
    then ScrollDirection.up
    else if low == 1
    then ScrollDirection.down
    else if low == 2
    then ScrollDirection.left
    else ScrollDirection.right

unfoldable pub decode_kind_and_button : ℕ → Bool → MouseEventKind × MouseButton
decode_kind_and_button button_code is_release =
    if has_bit button_code 64
    then (scroll (scroll_direction (bit_and button_code 3)), MouseButton.no_button)
    else if has_bit button_code 32
    then (moved, decode_button button_code)
    else (if is_release then release else press, decode_button button_code)

-- `u16::try_from(values.next()?.value()?).ok()?` on the value of a parameter
unfoldable pub value_u16 : Option ℕ → Option ℕ
value_u16 none = none
value_u16 (some value) = if leb value (2 ^ 16 - 1) then some value else none

-- The three parameters of a report, and no more.
unfoldable pub mouse_fields : List Param → Option (ℕ × ℕ × ℕ)
mouse_fields (b ∷ c ∷ r ∷ []) = do
  button_code ← value_u16 b.value
  column ← value_u16 c.value
  row ← value_u16 r.value
  some (button_code, column, row)
mouse_fields _ = none

abbrev mouse_event : Bool → Option (ℕ × ℕ × ℕ) → Option MouseEvent
mouse_event is_release none = none
mouse_event is_release (some (button_code, column, row)) =
    let (kind, button) = decode_kind_and_button button_code is_release in
    some (record {
      kind = kind;
      button = button;
      column = column;
      row = row;
      modifiers = decode_mouse_modifiers button_code;
    })

-- `mouse::decode_sgr`
unfoldable pub decode_sgr : ControlSequence → Option MouseEvent
decode_sgr csi =
    if not (bytes_eq csi.params.private_markers (b'<' ∷ []))
      || not (is_empty csi.params.intermediates)
    then none
    else if csi.params.final_byte == b'M'
    then mouse_event false (mouse_fields csi.params.params)
    else if csi.params.final_byte == b'm'
    then mouse_event true (mouse_fields csi.params.params)
    else none
