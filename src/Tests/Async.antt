-- ===== src/Tests/Async.antt =====
-- The asynchronous session at concrete inputs (src/tokio_session.rs).
use qwertty.Async.Bundle.{probe_capabilities_inner}
use qwertty.Async.Bundle.Returns.{Gathered, both_swept, probe_capabilities_inner-Gathered}
use qwertty.Async.Bundle.Room.{Room}
use qwertty.Caps.{EnvSource}
use qwertty.Correlate.Contract.{new-IsValid}
use qwertty.Async.{
  await_reply, decode_read, drain_pending_into_query, feed_events_into_query, feed_query,
  sweep_active_probe, sweep_active_query,
}
use qwertty.Correlate.Matcher.{match_cursor_position, match_event, match_token}
use qwertty.Input.Characters.{chars, chars_from}
use qwertty.Input.Kitty.{decode_key, is_functional_final}
use qwertty.Input.Mouse.{decode_sgr}
use qwertty.Input.Reports.{decode_focus, decode_resize}
use qwertty.Input.Win32.{decode_win32}
use qwertty.Input.{
  arrow_key, has_settled_text, is_settled, map_csi, map_token, map_tokens, text_events, typed_csi,
}
use qwertty.Report.Numbers.{decimal_digit, decimal_loop, parse_decimal, parse_one_based_u16, split}
use qwertty.Report.{cursor_fields, cursor_position_report, has_shape}
use qwertty.Syntax.Classes.{
  is_final_byte, is_intermediate_byte, is_param_byte, is_private_marker, is_text_boundary,
  is_text_start, is_utf8, utf8_width,
}
use qwertty.Syntax.Parser.{feed_loop, feed_state, finish_pending, finish_state, run_buffer}
use qwertty.Syntax.Scan.{end_prefix, scan_control_prefix}
use qwertty.Syntax.Step.{
  char_round, csi_step, is_paste_start, parse_csi, parse_escape, parse_text, step, text_loop,
  text_round,
}
use qwertty.Syntax.Token.{control_params_new}
use qwertty.Input
use qwertty.Syntax.Parser
use qwertty.Async.{
  TokioTerminalSession, Awaited, elapsed, readable, Result, ok, run_async_query,
  take_coalesced_event, is_resize,
}
use qwertty.Async.Coalesced.{
  drain_events, without_resize, only_resize, last_resize, drain_events-coalesced,
}
use qwertty.Async.Queries.{Settled, reads_of}
use qwertty.Async.Resumed.{Resumed, reenter_with_retry-suspend}
use qwertty.Async.Ends.{run_async_query-Settles}
use qwertty.Async.Runs.{clear}
use qwertty.Async.Suspended.{suspend, reenter_with_retry}
use qwertty.Correlate
use qwertty.Correlate.Matcher.{Event, input, Expectation, Reply}
use qwertty.Input.{InputEvent, resize, Events, new_decoder}
use qwertty.Input.Keys.{Key, plain_key, with_text}
use qwertty.Prelude.{
  arith, ℕ, zero, suc, ◌≡◌, refl, false, true, Option, none, some, List, [], ◌∷◌, length,
}
use qwertty.Session.{TerminalDevice, TerminalSession}
use qwertty.Session.Ledger.{DeviceMode, ModeKind, StateAction}

abbrev sized : ℕ → Event InputEvent
sized rows = input (resize (record { cells = record { columns = 80; rows = rows }; pixels = none }))

abbrev up_key : Event InputEvent
up_key = input (InputEvent.key (plain_key Key.up))

abbrev queued : Events
queued = sized 24 ∷ up_key ∷ sized 30 ∷ []

drain_run : drain_events (length queued) queued ≡ up_key ∷ sized 30 ∷ []
unfolding drain_events take_coalesced_event is_resize
drain_run = refl

drain_events-coalesced_example :
    (without_resize (drain_events (length queued) queued) ≡ without_resize queued)
    × (only_resize (drain_events (length queued) queued) ≡ last_resize queued)
drain_events-coalesced_example = drain_events-coalesced queued

abbrev waiting_session : TokioTerminalSession
waiting_session = record {
  decoder = new_decoder;
  correlator = Correlate.new;
  pending = up_key ∷ [];
  active_query = none;
  active_probe = [];
  has_esc_flush_timeout = false;
}

abbrev letter : ℕ → Event InputEvent
letter c = input (InputEvent.key (with_text c (plain_key (Key.char c))))

-- The report comes between two keys.
abbrev waits : List (Awaited ℕ)
waits = readable (b'x' ∷ 0x1b ∷ b'[' ∷ b'3' ∷ b';' ∷ b'7' ∷ b'R' ∷ b'y' ∷ []) ∷ elapsed ∷ []

abbrev replied_session : TokioTerminalSession
replied_session = record waiting_session {
  correlator = record { slots = []; next_id = 1 };
  pending = up_key ∷ letter b'x' ∷ letter b'y' ∷ [];
}

abbrev position : Result ℕ Reply
position = ok (Reply.cursor_position (record { row = 3; column = 7 }))

query_run :
    run_async_query (λ error. false) Expectation.cursor_position none waits waiting_session
    ≡ some (replied_session, position)
unfolding run_async_query Correlate.register Correlate.register_scan sweep_active_probe
    sweep_active_query drain_pending_into_query feed_query Correlate.feed Correlate.feed_scan
    match_event await_reply decode_read Input.feed Parser.feed feed_state run_buffer feed_loop step
    parse_text text_loop text_round is_text_boundary char_round utf8_width is_utf8 parse_escape
    parse_csi csi_step scan_control_prefix is_private_marker is_param_byte is_intermediate_byte
    end_prefix is_final_byte is_paste_start feed_events_into_query has_settled_text is_settled
    map_tokens map_token text_events chars chars_from map_csi decode_win32 control_params_new
    typed_csi decode_key is_functional_final decode_sgr decode_focus decode_resize arrow_key
    match_token match_cursor_position cursor_position_report has_shape cursor_fields split
    parse_one_based_u16 parse_decimal decimal_loop decimal_digit Correlate.take_reply
    Correlate.find_slot Input.finish Correlate.release_slot Parser.finish finish_state
    finish_pending is_text_start
query_run = refl

run_async_query-Settles_example :
    (s' : TokioTerminalSession) × (result : Result ℕ Reply) × (run_async_query
        (λ error. false)
        Expectation.cursor_position
        none
        waits
        waiting_session
      ≡ some (s', result))
    × Settled Expectation.cursor_position (up_key ∷ []) new_decoder (reads_of waits) s' result
run_async_query-Settles_example =
    run_async_query-Settles (λ error. false) Expectation.cursor_position waits waiting_session
      (clear 0 refl refl) refl

-- A device that refuses so many switches to raw mode.
abbrev refuse : DeviceMode → ℕ → ℕ × Option ℕ
refuse DeviceMode.raw zero = (zero, none)
refuse DeviceMode.raw (suc left) = (left, some left)
refuse DeviceMode.cooked left = (left, none)

abbrev refusing : TerminalDevice ℕ ℕ
refusing = record {
  write_all = λ bytes left. (left, none);
  set_mode = λ mode left. refuse mode left;
  flush = λ left. (left, none);
}

abbrev entered_session : TerminalSession ℕ
entered_session = record {
  device = 2;
  ledger =
      record {
        kind = ModeKind.raw;
        apply = StateAction.set_mode DeviceMode.raw;
        undo = StateAction.set_mode DeviceMode.cooked;
      }
      ∷ [];
  entered = true;
  restore = none;
}

reenter_with_retry-suspend_example :
    Resumed refusing entered_session.ledger
      (reenter_with_retry refusing (suspend refusing none entered_session).0)
reenter_with_retry-suspend_example = reenter_with_retry-suspend refusing none entered_session

abbrev empty_env : EnvSource
empty_env name = none

room : Room 12 (both_swept waiting_session).correlator
unfolding sweep_active_probe sweep_active_query Correlate.find_slot
room = (omega arith, omega arith, λ id slot found. cc)

probe_capabilities_inner-Gathered_example :
    Gathered []
      (up_key ∷ [])
      new_decoder
      (reads_of waits)
      (probe_capabilities_inner empty_env (λ error. false) none waits waiting_session)
probe_capabilities_inner-Gathered_example =
    probe_capabilities_inner-Gathered empty_env (λ error. false) waits waiting_session refl
      new-IsValid room
