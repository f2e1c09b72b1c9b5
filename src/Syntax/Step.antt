-- ===== src/Syntax/Step.antt =====
-- One parsing step at a token boundary (`step` and the `parse_*` functions of src/syntax.rs).
-- `bytes` stands for the buffer from the token boundary on; an end position is a number of bytes
-- past that boundary, and the place to continue at is the list of the bytes from there on.
pub mod Sound
pub mod Text
pub mod Stable
pub mod Whole
pub mod Extend
use qwertty.Prelude.{
  ℕ, zero, suc, ◌+◌, Bool, false, ◌&&◌, ◌||◌, Option, none, some, [], ◌∷◌, Bytes, length, take,
  drop, is_empty, take_while, drop_while, ltb, leb, ◌==◌, bytes_eq, if◌then◌else◌,
}
use qwertty.Syntax.Classes.{
  esc_byte, can_byte, sub_byte, delete_byte, c1_st, within, is_text_boundary, is_intermediate_byte,
  is_escape_final_byte, utf8_width, is_utf8,
}
use qwertty.Syntax.Paste.{PasteAccum, paste_new}
use qwertty.Syntax.Scan.{ControlPrefix, complete, aborted, overflow, scan_control_prefix}
use qwertty.Syntax.Strings.{StringAccum}
use qwertty.Syntax.Token.{
  StringKind, osc, dcs, apc, pm, sos, ControlParams, SyntaxToken, text, control, csi, esc,
  malformed, control_params_new,
}

pub data Step : Type 0 where
  emit : SyntaxToken → Bytes → Step
  need_more : Step
  enter_string : StringAccum → Bytes → Step
  enter_paste : PasteAccum → Bytes → Step

-- Emit the first `n` bytes as malformed and continue behind them.
abbrev pub emit_malformed : Bytes → ℕ → Step
emit_malformed bytes n = emit (malformed (take n bytes)) (drop n bytes)

-- `PASTE_START_PARAM`
abbrev pub paste_start_param : Bytes
paste_start_param = b'2' ∷ b'0' ∷ b'0' ∷ []

-- The test of `parse_csi` for a bracketed-paste start bracket.
unfoldable pub is_paste_start : Bytes → Bytes → Bytes → ℕ → Bool
is_paste_start private_markers param_bytes intermediates final_byte =
    is_empty private_markers
    && is_empty intermediates
    && bytes_eq param_bytes paste_start_param
    && final_byte == b'~'

-- The `match` of `parse_csi` on the scanned prefix.
unfoldable pub csi_step : Bytes → ℕ → ControlPrefix → Step
csi_step bytes prefix_len (complete markers params intermediates final_byte end) =
    let n = prefix_len + end in
    if is_paste_start markers params intermediates final_byte
    then enter_paste (paste_new (take n bytes)) (drop n bytes)
    else emit
        (csi (record {
          bytes = take n bytes;
          params = control_params_new markers params intermediates final_byte;
        }))
        (drop n bytes)
csi_step bytes prefix_len ControlPrefix.need_more = need_more
csi_step bytes prefix_len (aborted end) = emit_malformed bytes (prefix_len + end)
csi_step bytes prefix_len (overflow end) = emit_malformed bytes (prefix_len + end)

unfoldable pub parse_csi : Bytes → ℕ → ℕ → Step
parse_csi bytes prefix_len cap =
    csi_step bytes prefix_len (scan_control_prefix (drop prefix_len bytes) cap)

-- The accumulator at the end of `parse_string`.
unfoldable pub start_string : Bytes → StringKind → ℕ → ℕ → Option ControlParams → Step
start_string bytes kind prefix_len cursor control_params =
    enter_string
      (record {
        kind = kind;
        retained = take cursor bytes;
        introducer_len = prefix_len;
        payload_start = cursor;
        dropped = 0;
        esc_held = false;
        control_params = control_params;
      })
      (drop cursor bytes)

-- The DCS branch of `parse_string` on the scanned prefix.
unfoldable pub dcs_step : Bytes → ℕ → ControlPrefix → Step
dcs_step bytes prefix_len (complete markers params intermediates final_byte end) =
    start_string bytes dcs prefix_len (prefix_len + end)
      (some (control_params_new markers params intermediates final_byte))
dcs_step bytes prefix_len ControlPrefix.need_more = need_more
dcs_step bytes prefix_len (aborted end) = emit_malformed bytes (prefix_len + end)
dcs_step bytes prefix_len (overflow end) = emit_malformed bytes (prefix_len + end)

unfoldable pub parse_string : Bytes → StringKind → ℕ → ℕ → Step
parse_string bytes dcs prefix_len cap =
    dcs_step bytes prefix_len (scan_control_prefix (drop prefix_len bytes) cap)
parse_string bytes kind prefix_len cap = start_string bytes kind prefix_len prefix_len none

-- One round of the loop of `parse_text`: return, or move the cursor on by a character.
pub data TextRound : Type 0 where
  returns : Step → TextRound
  moves : ℕ → TextRound

-- Emit the text before the cursor.
abbrev pub emit_text : Bytes → ℕ → Step
emit_text bytes cursor = emit (text (take cursor bytes)) (drop cursor bytes)

-- The round behind `utf8_width`; `here` is the buffer from the cursor on.
unfoldable pub char_round : Bytes → ℕ → ℕ → Bytes → Option ℕ → TextRound
char_round bytes cap cursor here none =
    returns (if ltb 0 cursor then emit_text bytes cursor else emit_malformed bytes 1)
char_round bytes cap cursor here (some width) =
    if ltb (length here) width
    then returns need_more
    else if is_utf8 (take width here)
    then (if leb cap (cursor + width)
        then returns (emit_text bytes (cursor + width))
        else moves width)
    else returns (if ltb 0 cursor then emit_text bytes cursor else emit_malformed bytes width)

unfoldable pub text_round : Bytes → ℕ → ℕ → Bytes → ℕ → TextRound
text_round bytes cap cursor here byte =
    if is_text_boundary byte
    then returns (emit_text bytes cursor)
    else char_round bytes cap cursor here (utf8_width byte)

-- The loop of `parse_text`. Each round that goes on moves the cursor by at least one byte, so
-- fuel for the bytes that are left is enough.
unfoldable pub text_loop : ℕ → Bytes → ℕ → ℕ → Bytes → Step
text_loop fuel bytes cap cursor [] = need_more
text_loop zero bytes cap cursor (byte ∷ rest) = need_more
text_loop (suc fuel) bytes cap cursor (byte ∷ rest) =
    elim (text_round bytes cap cursor (byte ∷ rest) byte) [
      | returns result ↦ result
      | moves width ↦ text_loop fuel bytes cap (cursor + width) (drop width (byte ∷ rest))
    ]

unfoldable pub parse_text : Bytes → ℕ → Step
parse_text bytes cap = text_loop (length bytes) bytes cap 0 bytes

-- The `match` of `parse_plain_escape` on the byte behind the intermediates.
unfoldable pub escape_step : Bytes → ℕ → Bytes → Bytes → Step
escape_step bytes index intermediates [] = need_more
escape_step bytes index intermediates (byte ∷ _) =
    if is_escape_final_byte byte
    then emit
        (esc (record {
          bytes = take (index + 1) bytes;
          intermediates = intermediates;
          final_byte = some byte;
        }))
        (drop (index + 1) bytes)
    else if byte == can_byte || byte == sub_byte
    then emit_malformed bytes (index + 1)
    else emit_malformed bytes index

unfoldable pub parse_plain_escape : Bytes → ℕ → Step
parse_plain_escape bytes cap =
    let intermediates = take_while is_intermediate_byte (drop 1 bytes) in
    if ltb cap (length intermediates)
    then emit_malformed bytes (1 + cap)
    else escape_step bytes (1 + length intermediates) intermediates
        (drop_while is_intermediate_byte (drop 1 bytes))

-- `parse_escape`; the last argument is the buffer behind the ESC.
unfoldable pub parse_escape : Bytes → ℕ → Bytes → Step
parse_escape bytes cap [] = need_more
parse_escape bytes cap (second ∷ _) =
    if second == b'['
    then parse_csi bytes 2 cap
    else if second == b'P'
    then parse_string bytes dcs 2 cap
    else if second == b']'
    then parse_string bytes osc 2 cap
    else if second == b'_'
    then parse_string bytes apc 2 cap
    else if second == b'^'
    then parse_string bytes pm 2 cap
    else if second == b'X'
    then parse_string bytes sos 2 cap
    else if second == can_byte || second == sub_byte
    then emit (malformed (esc_byte ∷ second ∷ [])) (drop 2 bytes)
    else parse_plain_escape bytes cap

-- `step`, at a buffer that is not empty: its first byte, and the bytes behind it.
unfoldable pub step : ℕ → Bytes → ℕ → Step
step byte rest cap =
    let bytes = byte ∷ rest in
    if byte == esc_byte
    then parse_escape bytes cap rest
    else if byte == 0x9b
    then parse_csi bytes 1 cap
    else if byte == 0x90
    then parse_string bytes dcs 1 cap
    else if byte == 0x9d
    then parse_string bytes osc 1 cap
    else if byte == 0x9f
    then parse_string bytes apc 1 cap
    else if byte == 0x9e
    then parse_string bytes pm 1 cap
    else if byte == 0x98
    then parse_string bytes sos 1 cap
    else if byte == can_byte || byte == sub_byte
    then emit (malformed (byte ∷ [])) rest
    else if within 0x00 0x1f byte || byte == delete_byte
    then emit (control byte) rest
    else if byte == c1_st
    then emit (malformed (byte ∷ [])) rest
    else parse_text bytes cap
