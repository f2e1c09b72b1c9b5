-- ===== src/Correlate/Matcher.antt =====
-- What the correlator waits for and how an event is matched against it (`Expectation`, `Reply`,
-- `match_event` and `distinguishes` of src/correlate.rs). The correlator hands typed input events
-- (keys, mouse, focus, resize, paste) on unread: their type is a parameter here.
use qwertty.Prelude.{
  ℕ, Bool, true, false, not, ◌&&◌, Option, none, some, [], ◌∷◌, Bytes, ◌==◌, if◌then◌else◌, ◌>>=◌,
}
use mathlib.Core.Option
use qwertty.Report.{
  CursorPositionReport, TerminalStatus, DecPrivateModeReport, OscColorKind, foreground, background,
  OscColorReport, KittyGraphicsReport, PixelReport, has_shape, cursor_position_report,
  terminal_status_report, dec_private_mode_report, xt_version_report, osc_color_report,
  kitty_graphics_report, text_area_pixels_report, cell_size_report, decode_flags_report,
}
use qwertty.Syntax.Token.{SyntaxToken, ControlSequence, StringSequence}

-- `Event`: a syntax token passed through, or one of the typed input events.
pub data Event (I : Type 0) : Type 0 where
  syntax : SyntaxToken → Event I
  input : I → Event I

pub data Expectation : Type 0 where
  cursor_position terminal_status primary_device_attributes kitty_keyboard_flags : Expectation
  dec_private_mode : (mode : ℕ) → Expectation
  xt_version : Expectation
  osc_color : (which : OscColorKind) → Expectation
  kitty_graphics : (image_id : ℕ) → Expectation
  text_area_pixels cell_size : Expectation

pub data Reply : Type 0 where
  cursor_position : CursorPositionReport → Reply
  terminal_status : TerminalStatus → Reply
  primary_device_attributes : Bytes → Reply
  kitty_keyboard_flags : ℕ → Reply
  dec_private_mode : DecPrivateModeReport → Reply
  xt_version : Bytes → Reply
  osc_color : OscColorReport → Reply
  kitty_graphics : KittyGraphicsReport → Reply
  text_area_pixels cell_size : PixelReport → Reply

-- `==` on `OscColorKind`
abbrev pub color_kind_eq : OscColorKind → OscColorKind → Bool
color_kind_eq foreground foreground = true
color_kind_eq background background = true
color_kind_eq _ _ = false

-- `==` on `Expectation`, as derived
unfoldable pub expectation_eq : Expectation → Expectation → Bool
expectation_eq Expectation.cursor_position Expectation.cursor_position = true
expectation_eq Expectation.terminal_status Expectation.terminal_status = true
expectation_eq Expectation.primary_device_attributes Expectation.primary_device_attributes = true
expectation_eq Expectation.kitty_keyboard_flags Expectation.kitty_keyboard_flags = true
expectation_eq (Expectation.dec_private_mode m) (Expectation.dec_private_mode n) = m == n
expectation_eq Expectation.xt_version Expectation.xt_version = true
expectation_eq (Expectation.osc_color m) (Expectation.osc_color n) = color_kind_eq m n
expectation_eq (Expectation.kitty_graphics m) (Expectation.kitty_graphics n) = m == n
expectation_eq Expectation.text_area_pixels Expectation.text_area_pixels = true
expectation_eq Expectation.cell_size Expectation.cell_size = true
expectation_eq _ _ = false

unfoldable pub distinguishes : Expectation → Expectation → Bool
distinguishes a b = not (expectation_eq a b)

-- `event.syntax_token()`
abbrev pub syntax_token : {I : Type 0} → Event I → Option SyntaxToken
syntax_token (syntax token) = some token
syntax_token (input i) = none

-- `control_sequence`, `dcs_string`, `osc_string` and `apc_string`, behind `syntax_token()?`
abbrev pub csi_of : SyntaxToken → Option ControlSequence
csi_of (SyntaxToken.csi s) = some s
csi_of _ = none

abbrev pub dcs_of : SyntaxToken → Option StringSequence
dcs_of (SyntaxToken.dcs s) = some s
dcs_of _ = none

abbrev pub osc_of : SyntaxToken → Option StringSequence
osc_of (SyntaxToken.osc s) = some s
osc_of _ = none

abbrev pub apc_of : SyntaxToken → Option StringSequence
apc_of (SyntaxToken.apc s) = some s
apc_of _ = none

-- `param_bytes().contains(&b';')`
abbrev has_semicolon : Bytes → Bool
has_semicolon [] = false
has_semicolon (byte ∷ bytes) = if byte == b';' then true else has_semicolon bytes

-- Refuses the row-1 form, which may be a modified F3 key.
unfoldable pub match_cursor_position : ControlSequence → Option CursorPositionReport
match_cursor_position csi = do
  report ← cursor_position_report csi
  if report.row == 1 && has_semicolon csi.params.param_bytes then none else some report

unfoldable pub match_primary_device_attributes : ControlSequence → Option Bytes
match_primary_device_attributes csi =
    if has_shape csi.params b'c' (b'?' ∷ []) [] then some csi.params.param_bytes else none

-- The arms of `match_event` that compare a discriminator.
unfoldable pub match_mode : ℕ → ControlSequence → Option Reply
match_mode mode csi = do
  report ← dec_private_mode_report csi
  if report.mode == mode then some (Reply.dec_private_mode report) else none

unfoldable pub match_color : OscColorKind → StringSequence → Option Reply
match_color which osc = do
  report ← osc_color_report osc.payload
  if color_kind_eq report.kind which then some (Reply.osc_color report) else none

-- `report.image_id() == Some(image_id)`
abbrev is_some_of : Option ℕ → ℕ → Bool
is_some_of none n = false
is_some_of (some m) n = m == n

unfoldable pub match_graphics : ℕ → StringSequence → Option Reply
match_graphics image_id apc = do
  report ← kitty_graphics_report apc
  if is_some_of report.image_id image_id then some (Reply.kitty_graphics report) else none

-- `match_event` on a syntax token
unfoldable pub match_token : Expectation → SyntaxToken → Option Reply
match_token Expectation.cursor_position t =
    csi_of t >>= λ csi. Option.map Reply.cursor_position (match_cursor_position csi)
match_token Expectation.terminal_status t =
    csi_of t >>= λ csi. Option.map Reply.terminal_status (terminal_status_report csi)
match_token Expectation.primary_device_attributes t = csi_of t >>= λ csi.
    Option.map Reply.primary_device_attributes (match_primary_device_attributes csi)
match_token Expectation.kitty_keyboard_flags t =
    csi_of t >>= λ csi. Option.map Reply.kitty_keyboard_flags (decode_flags_report csi)
match_token (Expectation.dec_private_mode mode) t = csi_of t >>= match_mode mode
match_token Expectation.xt_version t =
    dcs_of t >>= λ dcs. Option.map Reply.xt_version (xt_version_report dcs)
match_token (Expectation.osc_color which) t = osc_of t >>= match_color which
match_token (Expectation.kitty_graphics image_id) t = apc_of t >>= match_graphics image_id
match_token Expectation.text_area_pixels t =
    csi_of t >>= λ csi. Option.map Reply.text_area_pixels (text_area_pixels_report csi)
match_token Expectation.cell_size t =
    csi_of t >>= λ csi. Option.map Reply.cell_size (cell_size_report csi)

-- `Expectation::match_event`
unfoldable pub match_event : {I : Type 0} → Expectation → Event I → Option Reply
match_event e event = syntax_token event >>= match_token e
