-- ===== src/Console/Windows.antt =====
-- Window sizes of the console (src/terminal/console_translate.rs and console_input.rs) read back by
-- the decoder (src/event/resize.rs).
use qwertty.Commands.Numbered.{join_params, numbered, run_buffer-numbered_token}
use qwertty.Console.{format_resize_report, window_extent, is_degenerate}
use qwertty.Console.Reader.{WindowRect, extent_u16, synthesize_resize}
use qwertty.Correlate.Matcher.{input}
use qwertty.Input.{Carry, resize, map_csi, typed_csi}
use qwertty.Input.Kitty.{decode_key, is_functional_final}
use qwertty.Input.Mouse.{decode_sgr, value_u16}
use qwertty.Input.Reports.{ResizeEvent, decode_focus, decode_resize, resize_fields, decode_pixels}
use qwertty.Input.Win32.{decode_win32}
use qwertty.Prelude.{
  ℕ, ◌+◌, ◌-◌, ◌^◌, ◌<◌, ◌≤◌, ◌≡◌, refl, ap, ◌∙◌, true, false, none, some, [], ◌∷◌, ◌++◌,
  append_assoc, Bytes, ltb, leb, is_empty, arith, decimal, digits,
}
use qwertty.Prelude.Int.{ℤ, pos, pos_part, neg_part, ◌+ℤ◌, ◌-ℤ◌}
use qwertty.Syntax.Classes.{esc_byte, is_final_byte}
use qwertty.Syntax.Parser.{push_tokens, run_buffer}
use qwertty.Syntax.Token.{ControlSequence, SyntaxToken}

-- So many cells stand from the near edge to the far one, both counted.
abbrev pub Spans : ℤ → ℤ → ℕ → Type 0
Spans near far cells = pos_part far + neg_part near + 1 ≡ cells + pos_part near + neg_part far

extent-Spans :
    (near far : ℤ) (cells : ℕ) → 0 < cells → Spans near far cells → far -ℤ near +ℤ pos 1 ≡ pos cells
extent-Spans near far cells h e = ground arith

abbrev pub resize_sequence : ℕ → ℕ → ControlSequence
resize_sequence rows columns = record {
  bytes = esc_byte ∷ b'[' ∷ join_params 48 (rows ∷ columns ∷ []) ++ b't' ∷ [];
  params = record {
    private_markers = [];
    param_bytes = join_params 48 (rows ∷ columns ∷ []);
    params = numbered none 48 (rows ∷ columns ∷ []);
    params_overflowed = false;
    intermediates = [];
    final_byte = b't';
  };
}

forty_eight : decimal 48 ≡ b'4' ∷ b'8' ∷ []
unfolding decimal digits
forty_eight = refl

format_resize_report-bytes :
    (rows columns : ℕ) (rest : Bytes)
    → format_resize_report rows columns ++ rest
      ≡ esc_byte ∷ b'[' ∷ join_params 48 (rows ∷ columns ∷ []) ++ b't' ∷ [] ++ rest
unfolding format_resize_report join_params
format_resize_report-bytes rows columns rest = simp (forty_eight, append_assoc)

some_params : (rows columns : ℕ) → is_empty (join_params 48 (rows ∷ columns ∷ [])) ≡ false
unfolding join_params decimal digits
some_params rows columns = refl

typed_csi-resize :
    (csi : ControlSequence) {event : ResizeEvent}
    → decode_key csi ≡ none
    → decode_sgr csi ≡ none
    → decode_focus csi ≡ none
    → decode_resize csi ≡ some event
    → typed_csi csi ≡ input (resize event)
unfolding typed_csi
typed_csi-resize csi a b c d = rw (a, b, c, d, typed_csi) refl

abbrev pub cells_event : ℕ → ℕ → ResizeEvent
cells_event rows columns = record {
  cells = record { columns = columns; rows = rows };
  pixels = none;
}

decode_resize-sequence :
    (rows columns : ℕ)
    → rows < 2 ^ 16
    → columns < 2 ^ 16
    → decode_resize (resize_sequence rows columns) ≡ some (cells_event rows columns)
unfolding decode_resize resize_fields value_u16 decode_pixels numbered
decode_resize-sequence rows columns h k =
    let x : leb rows (2 ^ 16 - 1) ≡ true = ground arith in
    let y : leb columns (2 ^ 16 - 1) ≡ true = ground arith in rw (x, y) refl

decode_focus-sequence : (rows columns : ℕ) → decode_focus (resize_sequence rows columns) ≡ none
unfolding decode_focus
decode_focus-sequence rows columns = rw (some_params rows columns) refl

-- The decoder makes a resize event of the report.
map_csi-resize_sequence :
    (carry : Carry) (rows columns : ℕ)
    → rows < 2 ^ 16
    → columns < 2 ^ 16
    → map_csi carry (resize_sequence rows columns)
      ≡ (carry, input (resize (cells_event rows columns)) ∷ [])
unfolding map_csi decode_win32 decode_key is_functional_final decode_sgr
map_csi-resize_sequence carry rows columns h k =
    ap (λ event. (carry, event ∷ []))
      (typed_csi-resize (resize_sequence rows columns) refl refl
        (decode_focus-sequence rows columns) (decode_resize-sequence rows columns h k))

synthesized :
    (window : WindowRect) (rows columns : ℕ)
    → 0 < rows
    → 0 < columns
    → rows < 2 ^ 16
    → columns < 2 ^ 16
    → Spans window.left window.right columns
    → Spans window.top window.bottom rows
    → synthesize_resize (some window) ≡ format_resize_report rows columns
unfolding synthesize_resize window_extent is_degenerate extent_u16
synthesized window rows columns hr hc sr sc wide high =
    let x : ltb 0 columns ≡ true = ground arith in
    let y : ltb 0 rows ≡ true = ground arith in
    let z : leb rows (2 ^ 16 - 1) ≡ true = ground arith in
    let w : leb columns (2 ^ 16 - 1) ≡ true = ground arith in
    rw
      (
        extent-Spans window.left window.right columns hc wide,
        extent-Spans window.top window.bottom rows hr high,
        x,
        y,
        z,
        w,
      )
      refl

-- When the window has so many rows and columns, neither 0 and both u16, the bytes of the resize
-- report become one token, of which the decoder makes a resize event with these cells and no
-- pixels, its carry as it was; what stands behind is parsed as if it stood alone, at any cap of at
-- least 32 bytes.
pub synthesize_resize-map_csi :
    (cap : ℕ) (window : WindowRect) (rows columns : ℕ)
    → 32 ≤ cap
    → 0 < rows
    → 0 < columns
    → rows < 2 ^ 16
    → columns < 2 ^ 16
    → Spans window.left window.right columns
    → Spans window.top window.bottom rows
    → (rest : Bytes) (carry : Carry)
    → (run_buffer cap (synthesize_resize (some window) ++ rest)
        ≡ push_tokens (SyntaxToken.csi (resize_sequence rows columns) ∷ []) (run_buffer cap rest))
      × (map_csi carry (resize_sequence rows columns)
          ≡ (carry, input (resize (cells_event rows columns)) ∷ []))
unfolding is_final_byte
synthesize_resize-map_csi cap window rows columns room hr hc sr sc wide high rest carry = (
  ap (λ b. run_buffer cap (b ++ rest)) (synthesized window rows columns hr hc sr sc wide high)
      ∙ ap (run_buffer cap) (format_resize_report-bytes rows columns rest)
      ∙ run_buffer-numbered_token cap 48 (rows ∷ columns ∷ []) b't' (omega arith) (ground arith)
          refl refl (omega arith) rest,
  map_csi-resize_sequence carry rows columns sr sc,
)
