-- ===== src/Tests/Commands.antt =====
-- The commands at concrete inputs, most of them from the tests of src/commands.
use qwertty.Commands.{apc, encode, csi, osc, ProtocolPosition}
use qwertty.Commands.Base64.{
  decode_base64, decode_base64-encode_base64, run_buffer-set_clipboard, clipboard_payload,
}
use qwertty.Commands.Buffer.{new, command, append_bytes, append_text}
use qwertty.Commands.Cursor.{move_to, set_shape, shape_parameter, steady_bar, hide}
use qwertty.Commands.Graphics.{
  chunk_commands, chunk_body, chunks_of, graphics_command, place_with, placement_keys, no_placement,
}
use qwertty.Commands.Graphics.Images.{data_of, lacks_semicolon, data_of-graphics_command}
use qwertty.Commands.Payloads.{is_payload_byte}
use qwertty.Prelude.{concat, map}
use qwertty.Syntax.Token.{SyntaxToken}
use qwertty.Commands.Numbered.{numbered_token}
use qwertty.Commands.Osc.{
  clipboard, primary, set_clipboard, selection_target, encode_base64, base64_three, base64_char,
  hyperlink, sanitize_title, without, is_control_char, is_blocked_title_char, is_among, str_bytes,
  set_title, command_finished,
}
use qwertty.Commands.Payloads.{osc_token}
use qwertty.Commands.RoundTrip.{read_color-colored, colored, is_color, read_color}
use qwertty.Commands.Sanitized.{run_buffer-hyperlink, shown_link, is_hidden, is_plain, lacks_st}
use qwertty.Commands.Screen.{set_scroll_region}
use qwertty.Commands.Style.{
  rgb, bright_red, foreground, underline_color, underline_params, palette_index, named_offset,
  push_params, extended_params, underline_style, subparam, curly,
}
use qwertty.Commands.Terminal.{
  enable_mouse, disable_mouse, dec_set, dec_reset, tracking_number, any_event,
  request_dec_private_mode,
}
use qwertty.Input.Characters.{encode_utf8}
use qwertty.Prelude.{
  ℕ, ◌≡◌, refl, true, some, List, [], ◌∷◌, ◌++◌, length, ltb, if◌then◌else◌, arith, codes, decimal,
  digits,
}
use qwertty.Syntax.Parser.{push_tokens, run_buffer}

moved : encode (move_to (record { row = 3; column = 14 })) [] ≡ codes "\u{1b}[3;14H"
unfolding move_to csi decimal digits encode_utf8
moved = refl

shaped : encode (set_shape steady_bar) [] ≡ codes "\u{1b}[6 q"
unfolding set_shape shape_parameter csi decimal digits encode_utf8
shaped = refl

scrolled : encode (set_scroll_region 2 20) [] ≡ codes "\u{1b}[2;20r"
unfolding set_scroll_region csi decimal digits encode_utf8
scrolled = refl

tinted : encode (foreground (rgb 255 128 0)) [] ≡ codes "\u{1b}[38;2;255;128;0m"
unfolding foreground push_params named_offset extended_params csi decimal digits encode_utf8
tinted = refl

bright : encode (foreground bright_red) [] ≡ codes "\u{1b}[91m"
unfolding foreground push_params named_offset csi decimal digits encode_utf8
bright = refl

underlined : encode (underline_color bright_red) [] ≡ codes "\u{1b}[58;5;9m"
unfolding underline_color underline_params palette_index named_offset csi decimal digits encode_utf8
underlined = refl

curled : encode (underline_style curly) [] ≡ codes "\u{1b}[4:3m"
unfolding underline_style subparam csi decimal digits encode_utf8
curled = refl

mouse_on : encode (enable_mouse any_event) [] ≡ codes "\u{1b}[?1003h\u{1b}[?1006h"
unfolding enable_mouse dec_set tracking_number csi decimal digits encode_utf8
mouse_on = refl

mouse_off : encode (disable_mouse any_event) [] ≡ codes "\u{1b}[?1006l\u{1b}[?1003l"
unfolding disable_mouse dec_reset tracking_number csi decimal digits encode_utf8
mouse_off = refl

asked_mode : encode (request_dec_private_mode 2026) [] ≡ codes "\u{1b}[?2026$p"
unfolding request_dec_private_mode csi decimal digits encode_utf8
asked_mode = refl

failed : encode (command_finished (some (true, 1))) [] ≡ codes "\u{1b}]133;D;-1\u{1b}\\"
unfolding command_finished osc decimal digits
failed = refl

copied : encode (set_clipboard clipboard (codes "hello")) [] ≡ codes "\u{1b}]52;c;aGVsbG8=\u{1b}\\"
unfolding set_clipboard selection_target encode_base64 base64_three base64_char osc
copied = refl

-- Controls in a title are dropped.
titled : encode (set_title (codes "a\u{7}b\u{1b}]c")) [] ≡ codes "\u{1b}]2;ab]c\u{1b}\\"
unfolding set_title sanitize_title without is_blocked_title_char is_control_char is_among str_bytes
    encode_utf8 osc
titled = refl

buffered : (append_text (command new hide) (codes "hi")).bytes ≡ codes "\u{1b}[?25lhi"
unfolding append_text append_bytes command csi encode_utf8
buffered = refl

abbrev corner : ProtocolPosition
corner = record { row = 3; column = 14 }

read_color-colored_example :
    (n : ℕ) × (ks : List ℕ) × (run_buffer 64 (encode (colored true (rgb 255 128 0)) [] ++ [])
      ≡ push_tokens (numbered_token n ks b'm' ∷ []) (run_buffer 64 []))
    × (read_color n ks ≡ some (true, rgb 255 128 0))
unfolding is_color
read_color-colored_example = read_color-colored 64 true (rgb 255 128 0) (omega arith) refl []

abbrev hostile : List ℕ
hostile = codes "a\u{1b}\\b" ++ 0x9c ∷ []

run_buffer-hyperlink_example :
    run_buffer 64 (encode (hyperlink hostile (some (codes "7"))) [] ++ codes "x")
    ≡ push_tokens
        (osc_token (shown_link hostile (some (codes "7"))) ∷ [])
        (run_buffer 64 (codes "x"))
unfolding is_hidden is_plain str_bytes encode_utf8 lacks_st
run_buffer-hyperlink_example =
    run_buffer-hyperlink 64 hostile (some (codes "7")) (omega arith) refl refl (codes "x")

decode_base64-encode_base64_example :
    decode_base64 (encode_base64 (codes "hello")) ≡ some (codes "hello")
decode_base64-encode_base64_example = decode_base64-encode_base64 (codes "hello") refl

run_buffer-set_clipboard_example :
    run_buffer 64 (encode (set_clipboard primary (codes "hello")) [] ++ []) ≡ (
      if ltb 100000 (length (codes "hello"))
      then run_buffer 64 []
      else push_tokens
          (osc_token (clipboard_payload primary (codes "hello")) ∷ [])
          (run_buffer 64 []))
run_buffer-set_clipboard_example =
    run_buffer-set_clipboard 64 primary (codes "hello") refl (omega arith) []

-- Two chunks of three bytes and the rest, with the keys on the first alone.
chunked :
    chunk_commands (codes "a=T") true (chunks_of 7 3 (codes "AAABBBC"))
    ≡ codes "\u{1b}_Ga=T,m=1;AAA\u{1b}\\\u{1b}_Gm=1;BBB\u{1b}\\\u{1b}_Gm=0;C\u{1b}\\"
unfolding chunk_commands chunk_body chunks_of apc
chunked = refl

placed :
    encode (place_with 7 (record no_placement { columns = some 20; z_index = some (true, 1) })) []
    ≡ codes "\u{1b}_Ga=p,i=7,c=20,z=-1;\u{1b}\\"
unfolding place_with placement_keys graphics_command apc decimal digits
placed = refl

data_of-graphics_command_example :
    (tokens : List SyntaxToken) × (run_buffer 5000
        (encode (graphics_command (codes "a=T,f=100") (codes "AAAA")) [] ++ codes "x")
      ≡ push_tokens tokens (run_buffer 5000 (codes "x")))
    × (concat (map data_of tokens) ≡ codes "AAAA")
unfolding is_payload_byte lacks_semicolon
data_of-graphics_command_example =
    data_of-graphics_command 5000 (codes "a=T,f=100") (codes "AAAA") refl refl refl (omega arith)
      (codes "x")
