-- ===== src/Syntax/Scan.antt =====
-- The parameter prefix that CSI and DCS share (`scan_control_prefix` in src/syntax.rs). A slice
-- stands for the buffer from the scan's start, and a position is a number of bytes past that start.
pub mod Extend
use qwertty.Prelude.{
  ℕ, ◌+◌, ◌||◌, [], ◌∷◌, Bytes, length, take_while, drop_while, ltb, ◌==◌, if◌then◌else◌,
}
use qwertty.Syntax.Classes.{
  can_byte, sub_byte, is_private_marker, is_param_byte, is_intermediate_byte, is_final_byte,
}

pub data ControlPrefix : Type 0 where
  complete :
      (private_markers param_bytes intermediates : Bytes) (final_byte end : ℕ) → ControlPrefix
  need_more : ControlPrefix
  aborted : ℕ → ControlPrefix
  overflow : ℕ → ControlPrefix

-- The `match` on the byte behind the prefix; `bytes` starts at that byte.
unfoldable pub end_prefix : Bytes → Bytes → Bytes → ℕ → Bytes → ControlPrefix
end_prefix markers params intermediates index [] = need_more
end_prefix markers params intermediates index (byte ∷ _) =
    if is_final_byte byte
    then complete markers params intermediates byte (index + 1)
    else if byte == can_byte || byte == sub_byte
    then aborted (index + 1)
    else aborted index

unfoldable pub scan_control_prefix : Bytes → ℕ → ControlPrefix
scan_control_prefix bytes cap =
    let markers = take_while is_private_marker bytes in
    let behind_markers = drop_while is_private_marker bytes in
    let params = take_while is_param_byte behind_markers in
    let behind_params = drop_while is_param_byte behind_markers in
    let intermediates = take_while is_intermediate_byte behind_params in
    let index = length markers + length params + length intermediates in
    if ltb cap index
    then overflow cap
    else end_prefix markers params intermediates index
        (drop_while is_intermediate_byte behind_params)
