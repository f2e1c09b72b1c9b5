-- ===== src/Tests/Syntax.antt =====
-- The tokenizer at concrete inputs; the first ones are those of src/syntax/tests.rs.
use qwertty.Syntax.Parser.Session.{session, feed_all, session-Covers}
use qwertty.Syntax.Parser.Chunks.{session-concat, feed_all-bounded}
use qwertty.Syntax.Step.Extend.{IsStable}
use qwertty.Syntax.Step.Stable.{step-extend}
use qwertty.Syntax.Spans.{Covers}
use qwertty.Syntax.Token.Params.{parse_params_fields, all_params}
use qwertty.Prelude.{
  take, codes, none, false, ◌≤◌, ◌≢◌, length, concat, ltb, Option, some, List, [], ◌∷◌, ◌++◌, ◌≡◌,
  refl, map, Bytes, ◌>>=◌,
}
use qwertty.Syntax.Classes.{
  is_c1_introducer, is_text_boundary, is_text_start, is_private_marker, is_param_byte,
  is_intermediate_byte, is_final_byte, is_escape_final_byte, utf8_width, is_utf8,
}
use qwertty.Syntax.Scan.{end_prefix, scan_control_prefix}
use qwertty.Syntax.Strings.{
  held_esc_buffer, push_payload_byte, emit_string_token, held_round, open_round, string_round,
  string_loop, consume_string,
}
use qwertty.Syntax.Paste.{
  is_paste_end_prefix, is_paste_end, shift_candidate, advance_after_break, flush_pending_match,
  into_final_token, cut_segment, paste_round, consume_paste,
}
use qwertty.Syntax.Step.{
  is_paste_start, csi_step, parse_csi, start_string, dcs_step, parse_string, char_round, text_round,
  text_loop, parse_text, escape_step, parse_plain_escape, parse_escape, step,
}
use qwertty.Syntax.Parser.{
  SyntaxParser, State, pending_bytes, new, with_payload_limit, feed_loop, run_buffer, feed_state,
  feed, finish_pending, finish_state, finish,
}
use qwertty.Syntax.Token.{SyntaxToken, StringKind, parse_params, as_bytes, control_params_new}

tokens : SyntaxParser → Bytes → Option (List Bytes)
unfolding is_c1_introducer is_text_boundary is_text_start is_private_marker is_param_byte
    is_intermediate_byte is_final_byte is_escape_final_byte utf8_width is_utf8 end_prefix
    scan_control_prefix held_esc_buffer push_payload_byte emit_string_token held_round open_round
    string_round string_loop consume_string is_paste_end_prefix is_paste_end shift_candidate
    advance_after_break flush_pending_match into_final_token cut_segment paste_round consume_paste
    is_paste_start csi_step parse_csi start_string dcs_step parse_string char_round text_round
    text_loop parse_text escape_step parse_plain_escape parse_escape step feed_loop run_buffer
    feed_state feed finish_pending finish_state finish control_params_new
tokens p bytes = feed p bytes >>= λ (q, ts). some (map as_bytes (ts ++ (finish q).1))

hi_csi : tokens new (codes "hi\u{1b}[31m") ≡ some (codes "hi" ∷ codes "\u{1b}[31m" ∷ [])
unfolding tokens
hi_csi = refl

titled : tokens new (codes "\u{1b}]0;t\u{7}x") ≡ some (codes "\u{1b}]0;t\u{7}" ∷ codes "x" ∷ [])
unfolding tokens
titled = refl

pasted :
    tokens (with_payload_limit 4) (codes "\u{1b}[200~ab\u{1b}cdef\u{1b}[201~z")
    ≡ some (codes "\u{1b}[200~ab\u{1b}c" ∷ codes "def\u{1b}[201~" ∷ codes "z" ∷ [])
unfolding tokens
pasted = refl

chunks : List Bytes
chunks = codes "hi\u{1b}" ∷ codes "7" ∷ []

abbrev hi_escape : List SyntaxToken
hi_escape =
    SyntaxToken.text (codes "hi")
    ∷ SyntaxToken.esc
        (record { bytes = codes "\u{1b}7"; intermediates = []; final_byte = some b'7' })
    ∷ []

-- The calls and `finish` on two chunks.
session_run : session 64 chunks ≡ some hi_escape
unfolding tokens session feed_all chunks
session_run = refl

session-Covers_example :
    (ts : List SyntaxToken) × (session 4 chunks ≡ some ts) × Covers ts (concat chunks)
session-Covers_example = session-Covers 4 chunks

session-concat_example :
    session 3 (codes "\u{1b}]0;t" ∷ codes "\u{7}" ∷ []) ≡ session 3 (codes "\u{1b}]0;t\u{7}" ∷ [])
session-concat_example =
    session-concat 3 (codes "\u{1b}]0;t" ∷ codes "\u{7}" ∷ []) (codes "\u{1b}]0;t\u{7}" ∷ []) refl

abbrev open_title : SyntaxParser
open_title = record {
  state = State.in_string (record {
    kind = StringKind.osc;
    retained = codes "\u{1b}]0;";
    introducer_len = 2;
    payload_start = 2;
    dropped = 3;
    esc_held = false;
    control_params = none;
  });
  payload_limit = 2;
}

title_run : feed_all (with_payload_limit 2) (codes "\u{1b}]0;tit" ∷ []) ≡ some (open_title, [])
unfolding tokens feed_all
title_run = refl

feed_all-bounded_example : length (pending_bytes open_title) ≤ 8
feed_all-bounded_example = feed_all-bounded 2 (codes "\u{1b}]0;tit" ∷ []) title_run

step-extend_example :
    IsStable (step 0x1b (codes "[31m") 4) (step 0x1b (codes "[31m" ++ codes "x") 4) (codes "x")
step-extend_example = step-extend 0x1b (codes "[31m") (codes "x") 4

one_param : codes "38:2;5" ≢ []
one_param e = cc

parse_params_fields_example :
    ((parse_params (codes "38:2;5")).0 ≡ take 32 (all_params (codes "38:2;5")))
    × ((parse_params (codes "38:2;5")).1 ≡ ltb 32 (length (all_params (codes "38:2;5"))))
parse_params_fields_example = parse_params_fields (codes "38:2;5") one_param

-- A DCS whose parameter prefix is as long as the payload limit keeps its final byte too.
dcs_prefix : tokens (with_payload_limit 2) (codes "\u{1b}P12qxy") ≡ some (codes "\u{1b}P12q" ∷ [])
unfolding tokens
dcs_prefix = refl
