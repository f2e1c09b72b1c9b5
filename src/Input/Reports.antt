-- ===== src/Input/Reports.antt =====
-- Focus and in-band resize reports (src/event/focus.rs and src/event/resize.rs).
use qwertty.Prelude.{
  ℕ, ◌||◌, not, Option, none, some, List, is_empty, get_elem?, ◌==◌, if◌then◌else◌, ◌>>=◌,
}
use qwertty.Input.Mouse.{value_u16}
use qwertty.Syntax.Token.{Param, ControlSequence}

-- `FocusState`, the one field of `FocusEvent`
pub data FocusState : Type 0 where
  gained lost : FocusState

-- `focus::decode`
unfoldable pub decode_focus : ControlSequence → Option FocusState
decode_focus csi =
    if not (is_empty csi.params.private_markers)
      || not (is_empty csi.params.intermediates)
      || not (is_empty csi.params.param_bytes)
    then none
    else if csi.params.final_byte == b'I'
    then some gained
    else if csi.params.final_byte == b'O'
    then some lost
    else none

pub record TerminalSize : Type 0 where
  pub columns : ℕ
  pub rows : ℕ

pub record PixelSize : Type 0 where
  pub width : ℕ
  pub height : ℕ

pub record ResizeEvent : Type 0 where
  pub cells : TerminalSize
  pub pixels : Option PixelSize

-- `IN_BAND_RESIZE_OP`
abbrev pub in_band_resize_op : ℕ
in_band_resize_op = 48

unfoldable pub decode_pixels : Option ℕ → Option ℕ → Option PixelSize
decode_pixels height_px width_px = do
  height ← value_u16 height_px
  width ← value_u16 width_px
  if height == 0 || width == 0 then none else some (record { width = width; height = height })

-- The value of a parameter, where there is one.
abbrev pub value_at : List Param → ℕ → Option ℕ
value_at params index = get_elem? params index >>= λ param. param.value

unfoldable pub resize_fields : List Param → Option ResizeEvent
resize_fields params = do
  op ← value_at params 0
  height ← if op == in_band_resize_op then value_u16 (value_at params 1) else none
  width ← value_u16 (value_at params 2)
  some (record {
    cells = record { columns = width; rows = height };
    pixels = decode_pixels (value_at params 3) (value_at params 4);
  })

-- `resize::decode`
unfoldable pub decode_resize : ControlSequence → Option ResizeEvent
decode_resize csi =
    if not (csi.params.final_byte == b't')
      || not (is_empty csi.params.private_markers)
      || not (is_empty csi.params.intermediates)
    then none
    else resize_fields csi.params.params
