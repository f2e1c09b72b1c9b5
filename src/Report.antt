-- ===== src/Report.antt =====
-- Terminal reports parsed from syntax tokens (src/report.rs, and `decode_flags_report` of
-- src/event/kitty.rs). A Rust `String` is the list of its UTF-8 bytes, checked by `is_utf8`.
pub mod Numbers
pub mod Bounds
pub mod Status
use qwertty.Prelude.{
  ℕ, ◌≡◌, Bool, true, false, not, ◌&&◌, ◌||◌, Option, none, some, List, [], ◌∷◌, Bytes, length,
  is_empty, all, bytes_eq, ltb, leb, ◌==◌, if◌then◌else◌, ◌>>=◌,
}
use qwertty.Report.Numbers.{
  split, split_once, strip_prefix, parse_decimal_u8, parse_u16, parse_u32, parse_one_based_u16,
  parse_hex_channel,
}
use qwertty.Syntax.Classes.{within, is_utf8}
use qwertty.Syntax.Token.{ControlParams, ControlSequence, StringSequence, StringKind, apc}

-- `ProtocolPosition`, the one field of `CursorPositionReport`
pub record CursorPositionReport : Type 0 where
  pub row : ℕ
  pub column : ℕ

pub data TerminalStatus : Type 0 where
  ready malfunction : TerminalStatus

pub data DecPrivateModeState : Type 0 where
  not_recognized set reset permanently_set permanently_reset : DecPrivateModeState

pub record DecPrivateModeReport : Type 0 where
  pub mode : ℕ
  pub state : DecPrivateModeState

pub data OscColorKind : Type 0 where
  foreground background : OscColorKind

pub record Rgb : Type 0 where
  pub red : ℕ
  pub green : ℕ
  pub blue : ℕ

pub record OscColorReport : Type 0 where
  pub kind : OscColorKind
  pub rgb : Rgb

pub record KittyGraphicsReport : Type 0 where
  pub image_id : Option ℕ
  pub image_number : Option ℕ
  pub placement_id : Option ℕ
  pub message : Bytes

-- `TextAreaPixelsReport` and `CellSizeReport`
pub record PixelReport : Type 0 where
  pub height : ℕ
  pub width : ℕ

-- The test on the final byte, the private markers and the intermediates that the parsers share.
unfoldable pub has_shape : ControlParams → ℕ → Bytes → Bytes → Bool
has_shape p final_byte markers intermediates =
    p.final_byte == final_byte
    && bytes_eq p.private_markers markers
    && bytes_eq p.intermediates intermediates

unfoldable pub cursor_fields : List Bytes → Option CursorPositionReport
cursor_fields (r ∷ c ∷ []) = do
  row ← parse_one_based_u16 r
  column ← parse_one_based_u16 c
  some (record { row = row; column = column })
cursor_fields _ = none

-- `CursorPositionReport::from_control_sequence`
unfoldable pub cursor_position_report : ControlSequence → Option CursorPositionReport
cursor_position_report csi =
    if has_shape csi.params b'R' [] []
    then cursor_fields (split b';' csi.params.param_bytes)
    else none

-- `TerminalStatus::parameter_bytes`
abbrev pub parameter_bytes : TerminalStatus → Bytes
parameter_bytes ready = b'0' ∷ []
parameter_bytes malfunction = b'3' ∷ []

-- `TerminalStatusReport::from_control_sequence`
unfoldable pub terminal_status_report : ControlSequence → Option TerminalStatus
terminal_status_report csi =
    if has_shape csi.params b'n' [] []
    then (if bytes_eq csi.params.param_bytes (b'0' ∷ [])
        then some ready
        else if bytes_eq csi.params.param_bytes (b'3' ∷ [])
        then some malfunction
        else none)
    else none

-- `DecPrivateModeState::from_value`
unfoldable pub mode_state : ℕ → Option DecPrivateModeState
mode_state value =
    if value == 0
    then some not_recognized
    else if value == 1
    then some set
    else if value == 2
    then some reset
    else if value == 3
    then some permanently_set
    else if value == 4
    then some permanently_reset
    else none

unfoldable pub mode_fields : List Bytes → Option DecPrivateModeReport
mode_fields (m ∷ v ∷ []) = do
  mode ← parse_u16 m
  value ← parse_u16 v
  state ← mode_state value
  some (record { mode = mode; state = state })
mode_fields _ = none

-- `DecPrivateModeReport::from_control_sequence`
unfoldable pub dec_private_mode_report : ControlSequence → Option DecPrivateModeReport
dec_private_mode_report csi =
    if has_shape csi.params b'y' (b'?' ∷ []) (b'$' ∷ [])
    then mode_fields (split b';' csi.params.param_bytes)
    else none

-- `XtVersionReport::from_string_sequence`: the version
unfoldable pub xt_version_report : StringSequence → Option Bytes
xt_version_report dcs = do
  params ← dcs.control_params
  if has_shape params b'|' (b'>' ∷ []) [] && is_empty params.param_bytes && is_utf8 dcs.payload
      then some dcs.payload
      else none

-- `OscColorKind::from_selector`
unfoldable pub color_kind : Bytes → Option OscColorKind
color_kind selector =
    if bytes_eq selector (b'1' ∷ b'0' ∷ [])
    then some foreground
    else if bytes_eq selector (b'1' ∷ b'1' ∷ [])
    then some background
    else none

unfoldable pub rgb_channels : List Bytes → Option Rgb
rgb_channels (r ∷ g ∷ b ∷ []) = do
  red ← parse_hex_channel r
  green ← parse_hex_channel g
  blue ← parse_hex_channel b
  some (record { red = red; green = green; blue = blue })
rgb_channels _ = none

unfoldable pub parse_x11_rgb : Bytes → Option Rgb
parse_x11_rgb bytes = do
  body ← strip_prefix (b'r' ∷ b'g' ∷ b'b' ∷ b':' ∷ []) bytes
  rgb_channels (split b'/' body)

-- `OscColorReport::from_osc_payload`
unfoldable pub osc_color_report : Bytes → Option OscColorReport
osc_color_report payload = do
  (selector, rest) ← split_once b';' payload
  kind ← color_kind selector
  rgb ← parse_x11_rgb rest
  some (record { kind = kind; rgb = rgb })

-- The three ids of a kitty graphics response while its keys are read.
pub record GraphicsIds : Type 0 where
  pub image_id : Option ℕ
  pub image_number : Option ℕ
  pub placement_id : Option ℕ

unfoldable pub graphics_key : GraphicsIds → Bytes → Bytes → Option GraphicsIds
graphics_key ids key value =
    if bytes_eq key (b'i' ∷ [])
    then (parse_u32 value >>= λ n. some (record ids { image_id = some n }))
    else if bytes_eq key (b'I' ∷ [])
    then (parse_u32 value >>= λ n. some (record ids { image_number = some n }))
    else if bytes_eq key (b'p' ∷ [])
    then (parse_u32 value >>= λ n. some (record ids { placement_id = some n }))
    else some ids

unfoldable pub graphics_pairs : GraphicsIds → List Bytes → Option GraphicsIds
graphics_pairs ids [] = some ids
graphics_pairs ids (pair ∷ pairs) = do
  (key, value) ← split_once b'=' pair
  ids' ← graphics_key ids key value
  graphics_pairs ids' pairs

abbrev no_ids : GraphicsIds
no_ids = record { image_id = none; image_number = none; placement_id = none }

-- `byte.is_ascii_graphic() || byte == b' '`
abbrev is_printable : ℕ → Bool
is_printable byte = within 0x21 0x7e byte || byte == b' '

-- `matches!(apc.kind(), StringKind::Apc)`
abbrev is_apc : StringKind → Bool
is_apc apc = true
is_apc _ = false

-- `KittyGraphicsReport::from_string_sequence`
unfoldable pub kitty_graphics_report : StringSequence → Option KittyGraphicsReport
kitty_graphics_report string = do
  payload ← if is_apc string.kind then strip_prefix (b'G' ∷ []) string.payload else none
  (keys, message) ← split_once b';' payload
  ids ← if is_empty keys then some no_ids else graphics_pairs no_ids (split b',' keys)
  if is_empty message || not (all is_printable message) || not (is_utf8 message)
      then none
      else some (record {
        image_id = ids.image_id;
        image_number = ids.image_number;
        placement_id = ids.placement_id;
        message = message;
      })

unfoldable pub pixel_fields : Bytes → List Bytes → Option PixelReport
pixel_fields op (o ∷ h ∷ w ∷ []) = do
  height ← if bytes_eq o op then parse_u16 h else none
  width ← parse_u16 w
  some (record { height = height; width = width })
pixel_fields op _ = none

-- `parse_xtwinops_report`
unfoldable pub parse_xtwinops_report : ControlSequence → Bytes → Option PixelReport
parse_xtwinops_report csi op =
    if has_shape csi.params b't' [] []
    then pixel_fields op (split b';' csi.params.param_bytes)
    else none

-- `pixel_size` of both reports: the width and the height, where neither is zero.
abbrev pub pixel_size : PixelReport → Option (ℕ × ℕ)
pixel_size report =
    if report.height == 0 || report.width == 0 then none else some (report.width, report.height)

-- `TextAreaPixelsReport::from_control_sequence`
abbrev pub text_area_pixels_report : ControlSequence → Option PixelReport
text_area_pixels_report csi = parse_xtwinops_report csi (b'4' ∷ [])

-- `CellSizeReport::from_control_sequence`
abbrev pub cell_size_report : ControlSequence → Option PixelReport
cell_size_report csi = parse_xtwinops_report csi (b'6' ∷ [])

-- `decode_flags_report`
unfoldable pub decode_flags_report : ControlSequence → Option ℕ
decode_flags_report csi =
    if has_shape csi.params b'u' (b'?' ∷ []) []
    then (if is_empty csi.params.param_bytes
        then some 0
        else parse_decimal_u8 csi.params.param_bytes)
    else none
