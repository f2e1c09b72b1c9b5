-- ===== src/Commands/Terminal.antt =====
-- Terminal-wide commands and queries (src/commands/terminal.rs).
use qwertty.Commands.{Command, raw, encode, csi}
use qwertty.Prelude.{ℕ, [], ◌∷◌, ◌++◌, Bytes, codes, decimal}

pub data MouseMode : Type 0 where
  normal button_event any_event : MouseMode

unfoldable pub tracking_number : MouseMode → ℕ
tracking_number normal = 1000
tracking_number button_event = 1002
tracking_number any_event = 1003

-- `SGR_MOUSE`, `FOCUS`, `BRACKETED_PASTE` and `IN_BAND_RESIZE`
abbrev pub sgr_mouse : ℕ
sgr_mouse = 1006

abbrev pub focus_mode : ℕ
focus_mode = 1004

abbrev pub bracketed_paste : ℕ
bracketed_paste = 2004

abbrev pub in_band_resize : ℕ
in_band_resize = 2048

abbrev pub request_status : Command
request_status = csi (codes "5") b'n'

abbrev pub request_primary_device_attributes : Command
request_primary_device_attributes = csi [] b'c'

abbrev pub request_xtversion : Command
request_xtversion = csi (codes ">") b'q'

abbrev pub request_text_area_pixels : Command
request_text_area_pixels = csi (codes "14") b't'

abbrev pub request_cell_size : Command
request_cell_size = csi (codes "16") b't'

-- The `$` is the intermediate byte.
unfoldable pub request_dec_private_mode : ℕ → Command
request_dec_private_mode mode = csi (b'?' ∷ decimal mode ++ codes "$") b'p'

abbrev pub query_kitty_keyboard_flags : Command
query_kitty_keyboard_flags = csi (codes "?") b'u'

abbrev pub request_kitty_keyboard_flags : Command
request_kitty_keyboard_flags = query_kitty_keyboard_flags

-- On the bits of the flags.
unfoldable pub push_kitty_keyboard_flags : ℕ → Command
push_kitty_keyboard_flags bits = csi (b'>' ∷ decimal bits) b'u'

abbrev pub pop_kitty_keyboard_flags : Command
pop_kitty_keyboard_flags = csi (codes "<1") b'u'

unfoldable pub dec_set : ℕ → Bytes
dec_set number = encode (csi (b'?' ∷ decimal number) b'h') []

unfoldable pub dec_reset : ℕ → Bytes
dec_reset number = encode (csi (b'?' ∷ decimal number) b'l') []

unfoldable pub enable_mouse : MouseMode → Command
enable_mouse mode = raw (dec_set (tracking_number mode) ++ dec_set sgr_mouse)

unfoldable pub disable_mouse : MouseMode → Command
disable_mouse mode = raw (dec_reset sgr_mouse ++ dec_reset (tracking_number mode))

abbrev pub enable_focus_events : Command
enable_focus_events = raw (dec_set focus_mode)

abbrev pub disable_focus_events : Command
disable_focus_events = raw (dec_reset focus_mode)

abbrev pub enable_bracketed_paste : Command
enable_bracketed_paste = raw (dec_set bracketed_paste)

abbrev pub disable_bracketed_paste : Command
disable_bracketed_paste = raw (dec_reset bracketed_paste)

abbrev pub enable_in_band_resize : Command
enable_in_band_resize = raw (dec_set in_band_resize)

abbrev pub disable_in_band_resize : Command
disable_in_band_resize = raw (dec_reset in_band_resize)
