-- ===== src/Tests/Input.antt =====
-- The decoder at concrete inputs, most of them from the tests of src/event.
use qwertty.Input.{
  Events, SemanticDecoder, decoder_with_limit, new_decoder, no_carry, feed, finish,
  has_settled_text, is_settled, map_token, map_tokens, map_csi, typed_csi, text_events,
  escape_event, control_key_event, arrow_key, flush_pending_escape, key_event,
}
use qwertty.Input.Characters.{chars, chars_from, follow_count, lead_bits}
use qwertty.Prelude.{
  codes, ◌≡◌, refl, true, false, Option, none, some, List, [], ◌∷◌, ◌++◌, map, concat, Bytes, ◌>>=◌,
}
use qwertty.Syntax.Classes.{
  is_c1_introducer, is_text_boundary, is_text_start, is_private_marker, is_param_byte,
  is_intermediate_byte, is_final_byte, is_escape_final_byte, utf8_width, is_utf8, utf8_ok,
  utf8_follow,
}
use qwertty.Syntax.Scan.{end_prefix, scan_control_prefix}
use qwertty.Syntax.Strings.{
  held_esc_buffer, push_payload_byte, emit_string_token, held_round, open_round, string_round,
  string_loop, consume_string,
}
use qwertty.Syntax.Paste.{
  PasteAccum, is_paste_end_prefix, is_paste_end, shift_candidate, advance_after_break,
  flush_pending_match, into_final_token, cut_segment, paste_round, consume_paste,
}
use qwertty.Syntax.Step.{
  is_paste_start, csi_step, parse_csi, start_string, dcs_step, parse_string, char_round, text_round,
  text_loop, parse_text, escape_step, parse_plain_escape, parse_escape, step,
}
use qwertty.Syntax.Parser
use qwertty.Syntax.Parser.{feed_loop, run_buffer, feed_state, finish_pending, finish_state}
use qwertty.Syntax.Token.{
  SyntaxToken, parse_params, param_loop, param_byte, push_param, control_params_new,
}
use qwertty.Input.Kitty.{
  decode_key, decode_csi_u, csi_u_event, decode_legacy_functional, legacy_event, legacy_tilde_key,
  legacy_letter_key, is_functional_final, is_arrow_final, functional_key, decode_modifiers,
  decode_event_type, decode_text, text_chars, is_control_codepoint, param_groups, group_loop,
  add_param, push_last,
}
use qwertty.Input.Keys.{char_from_u32, union, Key, plain_key, KeyEvent, with_text}
use qwertty.Input.Mouse.{
  decode_sgr, mouse_fields, value_u16, decode_kind_and_button, decode_button,
  decode_mouse_modifiers, scroll_direction,
}
use qwertty.Input.Reports.{decode_focus, decode_resize, resize_fields, decode_pixels}
use qwertty.Input.Win32
use qwertty.Input.Win32.{
  decode_win32, positional_fields, positions, value_or, decode_fields, repeat_count, decode_state,
  text_of, text_key_event, named_key, combine_surrogates, is_text_char, repeated, Fields,
}
use qwertty.Input.Pasted.{decode_paste, normalize}
use qwertty.Correlate.Matcher.{syntax, input, Expectation, match_token, match_cursor_position}
use qwertty.Input.{mouse, focus, resize, paste}
use qwertty.Input.Keys.{no_modifiers, ctrl, press, with_modifiers}
use qwertty.Input.Mouse.{MouseEventKind, MouseButton}
use qwertty.Input.Pasted.{cr, lf}
use qwertty.Input.Pasted.Segments.{decode_segments, is_one_paste, decode_segments_lem}
use qwertty.Input.Replies.{map_csi-match_token}
use qwertty.Input.Reports.{gained}
use qwertty.Input.Session.{
  decode_session, decode_session-concat, decode_session-session, events_of_run,
}
use qwertty.Input.Settled.{flush_pending_escape-partial, finish-text, finished_decoder}
use qwertty.Prelude.{Bool}
use qwertty.Report.{cursor_position_report, cursor_fields, has_shape}
use qwertty.Report.Numbers.{split, decimal_digit, decimal_loop, parse_decimal, parse_one_based_u16}
use qwertty.Syntax.Parser.Session.{session}
use qwertty.Syntax.Parser.{partial, in_paste}
use qwertty.Syntax.Token.{PasteSequence, ControlSequence}
use qwertty.Input.Typed.{typed_bytes, typed_bytes-text_events}

-- The decoder behind one read, and the events of the read and of `finish`.
run : SemanticDecoder → Bytes → Option (SemanticDecoder × Events)
unfolding is_c1_introducer is_text_boundary is_text_start is_private_marker is_param_byte
    is_intermediate_byte is_final_byte is_escape_final_byte utf8_width is_utf8 end_prefix
    scan_control_prefix held_esc_buffer push_payload_byte emit_string_token held_round open_round
    string_round string_loop consume_string is_paste_end_prefix is_paste_end shift_candidate
    advance_after_break flush_pending_match into_final_token cut_segment paste_round consume_paste
    is_paste_start csi_step parse_csi start_string dcs_step parse_string char_round text_round
    text_loop parse_text escape_step parse_plain_escape parse_escape step feed_loop run_buffer
    feed_state Parser.feed finish_pending finish_state Parser.finish control_params_new utf8_ok
    utf8_follow parse_params param_loop param_byte push_param feed finish map_token map_tokens
    map_csi typed_csi text_events chars chars_from follow_count lead_bits escape_event
    control_key_event arrow_key decode_key decode_csi_u csi_u_event decode_legacy_functional
    legacy_event legacy_tilde_key legacy_letter_key is_functional_final is_arrow_final
    functional_key decode_modifiers decode_event_type decode_text text_chars is_control_codepoint
    param_groups group_loop add_param push_last char_from_u32 decode_sgr mouse_fields value_u16
    decode_kind_and_button decode_button decode_mouse_modifiers scroll_direction decode_focus
    decode_resize resize_fields decode_pixels decode_win32 positional_fields positions value_or
    decode_fields repeat_count decode_state text_of text_key_event named_key Win32.key_event
    combine_surrogates is_text_char repeated decode_paste normalize union
run d bytes = feed d bytes >>= λ (d', now). some (d', now ++ (finish d').1)

events : SemanticDecoder → Bytes → Option Events
unfolding run
events d bytes = run d bytes >>= λ (d', found). some found

up_event : events new_decoder (codes "\u{1b}[A") ≡ some (key_event (plain_key Key.up) ∷ [])
unfolding events
up_event = refl

abbrev typed_a : KeyEvent
typed_a = with_text 0x61 (plain_key (Key.char 0x61))

typed : events new_decoder (codes "a") ≡ some (key_event typed_a ∷ [])
unfolding events
typed = refl

-- `CSI 97 ; 5 u` is Ctrl+A.
kitty_key :
    events new_decoder (codes "\u{1b}[97;5u")
    ≡ some (key_event (with_modifiers ctrl press (plain_key (Key.char 97))) ∷ [])
unfolding events
kitty_key = refl

mouse_press :
    events new_decoder (codes "\u{1b}[<0;10;5M")
    ≡ some (
        input (
          mouse (record {
            kind = MouseEventKind.press;
            button = MouseButton.left;
            column = 10;
            row = 5;
            modifiers = no_modifiers;
          }))
        ∷ [])
unfolding events
mouse_press = refl

focus_and_resize :
    events new_decoder (codes "\u{1b}[I\u{1b}[48;24;80;0;640t")
    ≡ some (
        input (focus gained)
        ∷ input (resize (record { cells = record { columns = 80; rows = 24 }; pixels = none }))
        ∷ [])
unfolding events
focus_and_resize = refl

pasted_lines :
    events new_decoder (codes "\u{1b}[200~a\r\nb\u{1b}[201~")
    ≡ some (
        input (
          paste
            (record { bytes = codes "a\nb"; is_first = true; is_final = true; terminated = true }))
        ∷ [])
unfolding events
pasted_lines = refl

-- A grinning face as win32-input-mode sends it.
emoji_pair :
    events new_decoder (codes "\u{1b}[0;0;55357;1;0;1_\u{1b}[0;0;56832;1;0;1_")
    ≡ some (key_event (with_text 0x1f600 (plain_key (Key.char 0x1f600))) ∷ [])
unfolding events
emoji_pair = refl

abbrev hello : List Bytes
hello = codes "\u{1b}" ∷ codes "[A" ∷ []

decode_session-concat_example : decode_session 4 hello ≡ decode_session 4 (codes "\u{1b}[A" ∷ [])
decode_session-concat_example = decode_session-concat 4 hello (codes "\u{1b}[A" ∷ []) refl

decode_session-session_example : decode_session 4 hello ≡ events_of_run (session 4 hello)
decode_session-session_example = decode_session-session 4 hello

abbrev accented : Bytes
accented = 0x61 ∷ 0xc3 ∷ 0xa9 ∷ []

typed_bytes-text_events_example : concat (map typed_bytes (text_events accented)) ≡ accented
unfolding is_utf8 utf8_ok utf8_follow
typed_bytes-text_events_example = typed_bytes-text_events accented refl

abbrev segment : Bytes → Bool → PasteSequence
segment payload is_final = record {
  bytes = payload;
  payload = payload;
  is_first = false;
  is_final = is_final;
  terminated = false;
}

abbrev cut_break : List PasteSequence
cut_break = segment (0x61 ∷ cr ∷ []) false ∷ segment (lf ∷ 0x62 ∷ []) true ∷ []

decode_segments_lem_example :
    concat (map (λ event. event.bytes) (decode_segments cut_break false))
    ≡ (normalize (concat (map (λ s. s.payload) cut_break)) false).0
unfolding is_one_paste
decode_segments_lem_example = decode_segments_lem cut_break false refl

abbrev cursor_csi : ControlSequence
cursor_csi = record {
  bytes = codes "\u{1b}[4;6R";
  params = record {
    private_markers = [];
    param_bytes = codes "4;6";
    params = (parse_params (codes "4;6")).0;
    params_overflowed = false;
    intermediates = [];
    final_byte = b'R';
  };
}

map_csi-match_token_example :
    map_csi no_carry cursor_csi ≡ (no_carry, syntax (SyntaxToken.csi cursor_csi) ∷ [])
unfolding match_token match_cursor_position cursor_position_report cursor_fields has_shape split
    decimal_digit decimal_loop parse_decimal parse_one_based_u16
map_csi-match_token_example =
    map_csi-match_token Expectation.cursor_position cursor_csi refl refl no_carry

abbrev parked : SemanticDecoder
parked = record new_decoder { parser = record (new_decoder.parser) { state = partial (codes "o") } }

finish-text_example : finish parked ≡ (finished_decoder parked, text_events (codes "o") ++ [])
unfolding has_settled_text is_settled is_utf8 utf8_ok utf8_follow
finish-text_example = finish-text parked (codes "o") refl refl

-- At payload limit 4 a paste of five characters that has not ended: the fifth is in a segment of
-- its own, which counts as settled text.
abbrev open_paste : PasteAccum
open_paste = record {
  retained = codes "e";
  payload_start = 0;
  is_first = false;
  pending_match = [];
}

abbrev reading : SemanticDecoder
reading = record {
  parser = record { state = in_paste open_paste; payload_limit = 4 };
  carry = no_carry;
}

reading_paste :
    (run (decoder_with_limit 4) (codes "\u{1b}[200~abcde") >>= λ (d, found). some d) ≡ some reading
unfolding run
reading_paste = refl

-- So a drained read ends the paste, and what is pasted next is typed.
paste_ended : (has_settled_text reading ≡ true) × ((finish reading).0.parser.state ≡ Parser.ground)
unfolding run has_settled_text is_settled finish Parser.finish
paste_ended = (refl, refl)

-- A high half before a lone escape: the escape is flushed, and the half is lost.
abbrev after_half : SemanticDecoder
after_half = record {
  parser = record { state = partial (codes "\u{1b}"); payload_limit = 4 };
  carry = record { paste_pending_cr = false; pending_high_surrogate = some 0xd83d };
}

lost_half :
    flush_pending_escape after_half
    ≡ (finished_decoder after_half, some (key_event (plain_key Key.escape)))
lost_half = flush_pending_escape-partial after_half refl
