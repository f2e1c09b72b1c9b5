-- ===== src/Tests/Query.antt =====
-- The synchronous queries and the probe at concrete sessions (src/session.rs).
use qwertty.Commands.{csi}
use qwertty.Correlate.Matcher.{match_cursor_position, match_event, match_token}
use qwertty.Correlate.{feed_scan, find_slot, register, register_scan, release_slot, take_reply}
use qwertty.Input.Characters.{chars, chars_from, encode_utf8}
use qwertty.Input.Kitty.{decode_key, is_functional_final}
use qwertty.Input.Mouse.{decode_sgr}
use qwertty.Input.Reports.{decode_focus, decode_resize}
use qwertty.Input.Win32.{decode_win32}
use qwertty.Input.{
  arrow_key, has_settled_text, is_settled, map_csi, map_token, map_tokens, text_events, typed_csi,
}
use qwertty.Query.Driver.{after_send, query_loop, send, sweep_active_query}
use qwertty.Query.{
  attribute_events, attribute_feed, attribute_span, cut_span, match_chunk, read_byte, read_bytes,
  settle,
}
use qwertty.Report.Numbers.{decimal_digit, decimal_loop, parse_decimal, parse_one_based_u16, split}
use qwertty.Report.{cursor_fields, cursor_position_report, has_shape}
use qwertty.Syntax.Classes.{
  is_final_byte, is_intermediate_byte, is_param_byte, is_private_marker, is_text_boundary,
  is_text_start, is_utf8, utf8_width,
}
use qwertty.Syntax.Parser.{feed_loop, feed_state, finish_pending, finish_state, run_buffer}
use qwertty.Syntax.Scan.{end_prefix, scan_control_prefix}
use qwertty.Syntax.Step.{
  char_round, csi_step, is_paste_start, parse_csi, parse_escape, parse_text, step, text_loop,
  text_round,
}
use qwertty.Syntax.Token.{control_params_new}
use qwertty.Correlate
use qwertty.Input
use qwertty.Syntax.Parser
use qwertty.Caps.{EnvSource}
use qwertty.Commands.Cursor.{request_position}
use qwertty.Correlate.Matcher.{Expectation, Reply}
use qwertty.Prelude.{ℕ, ◌≡◌, ◌≢◌, refl, ap, false, Option, none, some, List, [], ◌∷◌, ◌++◌, Bytes}
use qwertty.Query.{new_query}
use qwertty.Query.Driver.{
  Wait, elapsed, readable, QueryError, Answer, ok, failed, QuerySession, run_query, map_answer,
  cursor_answer, request_cursor_position,
}
use qwertty.Query.Ends.{run_query-some, request_cursor_position-typed}
use qwertty.Query.Probe.{probe_capabilities}
use qwertty.Query.Probe.Honest.{Returns, probe_capabilities-Returns}
use qwertty.Commands.{encode}
use qwertty.Query.Tidy.{Ran, clear, run_query-Ended}
use qwertty.Report.{CursorPositionReport}
use qwertty.Session.{TerminalDevice}

-- A device that keeps what is written.
abbrev recorder : TerminalDevice Bytes ℕ
recorder = record {
  write_all = λ bytes written. (written ++ bytes, none);
  set_mode = λ mode written. (written, none);
  flush = λ written. (written, none);
}

abbrev idle_session : QuerySession Bytes
idle_session = record { device = []; query = new_query }

-- A key that was typed before the report, and one behind it.
abbrev reads : List (Wait ℕ)
reads = readable (b'x' ∷ 0x1b ∷ b'[' ∷ b'3' ∷ b';' ∷ b'7' ∷ b'R' ∷ b'y' ∷ []) ∷ elapsed ∷ []

abbrev replied_session : QuerySession Bytes
replied_session = record {
  device = 0x1b ∷ b'[' ∷ b'6' ∷ b'n' ∷ [];
  query = record new_query {
    typeahead = b'x' ∷ b'y' ∷ [];
    correlator = record { slots = []; next_id = 1 };
  };
}

abbrev position : Answer ℕ (Option Reply)
position = ok (some (Reply.cursor_position (record { row = 3; column = 7 })))

reads_run :
    run_query recorder Expectation.cursor_position request_position reads idle_session
    ≡ some (replied_session, position)
unfolding run_query register register_scan sweep_active_query after_send send query_loop match_chunk
    read_bytes read_byte Input.feed Parser.feed feed_state run_buffer feed_loop step parse_text
    text_loop text_round is_text_boundary char_round utf8_width is_utf8 map_tokens parse_escape
    map_token text_events chars chars_from cut_span attribute_span parse_csi csi_step
    scan_control_prefix end_prefix is_private_marker is_param_byte is_intermediate_byte
    is_final_byte is_paste_start map_csi decode_win32 control_params_new settle has_settled_text
    is_settled attribute_events Input.finish Parser.finish finish_state finish_pending is_text_start
    attribute_feed Correlate.feed feed_scan match_event typed_csi decode_key is_functional_final
    decode_sgr decode_focus decode_resize arrow_key match_token match_cursor_position
    cursor_position_report has_shape cursor_fields split parse_one_based_u16 parse_decimal
    decimal_loop decimal_digit take_reply find_slot release_slot csi encode_utf8
reads_run = refl

run_query-Ended_example :
    (replied_session.device ≡ (send recorder (encode request_position []) []).0)
    × Ran Expectation.cursor_position reads new_query
        (send recorder (encode request_position []) []).1
        replied_session.query
        position
run_query-Ended_example =
    run_query-Ended recorder Expectation.cursor_position request_position reads idle_session
      replied_session position (clear 0 refl) reads_run

run_query-some_example :
    (result : QuerySession Bytes × Answer ℕ (Option Reply)) × (run_query recorder
        Expectation.cursor_position request_position reads idle_session
      ≡ some result)
run_query-some_example =
    run_query-some recorder Expectation.cursor_position request_position reads idle_session refl

abbrev given : Answer ℕ (Option CursorPositionReport)
given = ok (some (record { row = 3; column = 7 }))

request_run : request_cursor_position recorder reads idle_session ≡ some (replied_session, given)
unfolding request_cursor_position cursor_answer
request_run = ap (map_answer cursor_answer) reads_run

request_cursor_position-typed_example : given ≢ failed QueryError.unexpected_reply
request_cursor_position-typed_example =
    request_cursor_position-typed recorder reads idle_session replied_session (clear 0 refl) given
      request_run

-- A terminal that is not dumb, and no reply in time.
abbrev empty_env : EnvSource
empty_env name = none

probe_capabilities-Returns_example :
    Returns (probe_capabilities recorder empty_env (λ error. false) empty_env reads idle_session)
probe_capabilities-Returns_example =
    probe_capabilities-Returns recorder empty_env (λ error. false) empty_env reads idle_session refl
