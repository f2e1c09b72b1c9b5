-- ===== src/Input/Replies.antt =====
-- Replies and typed input do not mix (src/event.rs with src/correlate.rs): a token that a query
-- waits for reaches the correlator as it is.
pub mod FirstParam
use qwertty.Input.Replies.FirstParam.{op_value, split-op}
use qwertty.Correlate.Matcher.{
  Event, syntax, Expectation, Reply, match_token, match_cursor_position,
  match_primary_device_attributes, match_mode, match_color, match_graphics,
}
use qwertty.Correlate.Discriminator.{has_shape-final}
use qwertty.Input.{Carry, Events, map_token, map_csi, csi_events, typed_csi, arrow_key, InputEvent}
use qwertty.Input.Kitty.{decode_key, is_functional_final}
use qwertty.Input.Mouse.{decode_sgr}
use qwertty.Input.Reports.{decode_focus, decode_resize, resize_fields, value_at}
use qwertty.Input.Win32.{decode_win32}
use qwertty.Prelude.{
  ℕ, zero, ◌+◌, ◌-◌, ◌<◌, ◌≡◌, ◌≢◌, refl, sym, ap, ◌∙◌, subst, Bool, true, false, ◌||◌, Option,
  none, some, List, [], ◌∷◌, ◌++◌, Bytes, length, get_elem?, bytes_eq, bytes_eq→≡, is_empty, not,
  ◌==◌, ltb, if◌then◌else◌, ◌>>=◌, arith, Bool-cases, inl, inr, ◌⊎◌,
}
use qwertty.Report.{
  has_shape, cursor_position_report, terminal_status_report, dec_private_mode_report,
  decode_flags_report, parse_xtwinops_report, pixel_fields, PixelReport,
}
use qwertty.Report.Numbers.{split, onto_first}
use qwertty.Syntax.Token.{
  SyntaxToken, ControlSequence, ControlParams, Param, semicolon, ParamScan, param_limit, push_param,
  param_byte, param_loop, no_params, parse_params, control_params_new,
}

-- The control sequence goes through all decoders.
abbrev Passes : ControlSequence → Type 0
Passes csi = (carry : Carry) → map_csi carry csi ≡ (carry, syntax (SyntaxToken.csi csi) ∷ [])

untyped :
    (csi : ControlSequence)
    → decode_key csi ≡ none
    → decode_sgr csi ≡ none
    → decode_focus csi ≡ none
    → decode_resize csi ≡ none
    → arrow_key csi ≡ none
    → typed_csi csi ≡ syntax (SyntaxToken.csi csi)
unfolding typed_csi
untyped csi k m f r a = ground arith

by_decoders :
    (csi : ControlSequence)
    → ((pending : Option ℕ) → decode_win32 pending csi ≡ none)
    → decode_key csi ≡ none
    → decode_sgr csi ≡ none
    → decode_focus csi ≡ none
    → decode_resize csi ≡ none
    → arrow_key csi ≡ none
    → Passes csi
unfolding map_csi
by_decoders csi w k m f r a carry =
    ap (csi_events carry csi) (w carry.pending_high_surrogate)
    ∙ ap (λ event. (carry, event ∷ [])) (untyped csi k m f r a)

-- The final bytes that mouse, focus and arrow reports end with.
is_event_final : ℕ → Bool
is_event_final f =
    f == b'M'
    || f == b'm'
    || f == b'I'
    || f == b'O'
    || f == b'_'
    || f == b'A'
    || f == b'B'
    || f == b'C'
    || f == b'D'

refused_win32 :
    (csi : ControlSequence)
    → is_event_final csi.params.final_byte ≡ false
    → (pending : Option ℕ) → decode_win32 pending csi ≡ none
unfolding decode_win32 is_event_final
refused_win32 csi q pending = ground arith

refused_sgr :
    (csi : ControlSequence) → is_event_final csi.params.final_byte ≡ false → decode_sgr csi ≡ none
unfolding decode_sgr is_event_final
refused_sgr csi q = ground arith

refused_focus :
    (csi : ControlSequence) → is_event_final csi.params.final_byte ≡ false → decode_focus csi ≡ none
unfolding decode_focus is_event_final
refused_focus csi q = ground arith

refused_arrow :
    (csi : ControlSequence) → is_event_final csi.params.final_byte ≡ false → arrow_key csi ≡ none
unfolding arrow_key is_event_final
refused_arrow csi q = ground arith

refused_key :
    (csi : ControlSequence)
    → is_functional_final csi.params.final_byte ≡ false
    → (csi.params.final_byte == b'u') ≡ false
    → decode_key csi ≡ none
unfolding decode_key
refused_key csi q u = rw (u, q) (ground arith)

refused_marked_key :
    (csi : ControlSequence) → is_empty csi.params.private_markers ≡ false → decode_key csi ≡ none
unfolding decode_key
refused_marked_key csi q = rw q refl

refused_resize :
    (csi : ControlSequence) → (csi.params.final_byte == b't') ≡ false → decode_resize csi ≡ none
unfolding decode_resize
refused_resize csi q = rw q refl

final_is :
    (csi : ControlSequence) (f : ℕ) (p : ℕ → Bool) {b : Bool}
    → csi.params.final_byte ≡ f
    → p f ≡ b
    → p csi.params.final_byte ≡ b
final_is csi f p e h = ap p e ∙ h

by_final :
    (csi : ControlSequence) (f : ℕ)
    → csi.params.final_byte ≡ f
    → is_event_final f ≡ false
    → is_functional_final f ≡ false
    → (f == b'u') ≡ false
    → (f == b't') ≡ false
    → Passes csi
by_final csi f e v k u t =
    let q = final_is csi f is_event_final e v in
    by_decoders csi (refused_win32 csi q)
      (refused_key csi (final_is csi f is_functional_final e k)
        (final_is csi f (λ b. b == b'u') e u))
      (refused_sgr csi q) (refused_focus csi q)
      (refused_resize csi (final_is csi f (λ b. b == b't') e t)) (refused_arrow csi q)

-- A shape with a private marker of its own.
shape_marked :
    (p : ControlParams) (f m : ℕ) (i : Bytes)
    → has_shape p f (m ∷ []) i ≡ true
    → is_empty p.private_markers ≡ false
unfolding has_shape
shape_marked p f m i h = ground (arith, bytes_eq→≡ p.private_markers (m ∷ []))

by_marker :
    (csi : ControlSequence) (f m : ℕ) (i : Bytes)
    → has_shape csi.params f (m ∷ []) i ≡ true
    → is_event_final f ≡ false
    → (f == b't') ≡ false
    → Passes csi
by_marker csi f m i h v t =
    let e = has_shape-final csi.params f (m ∷ []) i h in
    let q = final_is csi f is_event_final e v in
    by_decoders csi (refused_win32 csi q) (refused_marked_key csi (shape_marked csi.params f m i h))
      (refused_sgr csi q) (refused_focus csi q)
      (refused_resize csi (final_is csi f (λ b. b == b't') e t)) (refused_arrow csi q)

-- Parameters as `ControlParams::new` makes them from the parameter bytes.
abbrev pub IsParsed : ControlParams → Type 0
IsParsed p = p.params ≡ (parse_params p.param_bytes).0

pixel-op :
    (op : ℕ) (pieces : List Bytes) {r : PixelReport}
    → pixel_fields (op ∷ []) pieces ≡ some r
    → (piece : Bytes) × (rest : List Bytes) × (pieces ≡ (op ∷ []) ∷ piece ∷ rest)
unfolding pixel_fields
pixel-op op (o ∷ h ∷ w ∷ []) e = (h, w ∷ [], ground (arith, bytes_eq→≡ o (op ∷ [])))
pixel-op op [] e = absurd (ground arith)
pixel-op op (o ∷ []) e = absurd (ground arith)
pixel-op op (o ∷ h ∷ []) e = absurd (ground arith)
pixel-op op (o ∷ h ∷ w ∷ x ∷ rest) e = absurd (ground arith)

xtwinops_parts :
    (csi : ControlSequence) (op : ℕ) {r : PixelReport}
    → parse_xtwinops_report csi (op ∷ []) ≡ some r
    → (has_shape csi.params b't' [] [] ≡ true)
      × (pixel_fields (op ∷ []) (split b';' csi.params.param_bytes) ≡ some r)
unfolding parse_xtwinops_report
xtwinops_parts csi op e = ground arith

refused_op :
    (csi : ControlSequence) (op : ℕ) (tail : Bytes)
    → (op ≡ 4) ⊎ (op ≡ 6)
    → IsParsed csi.params
    → csi.params.param_bytes ≡ (b'0' + op) ∷ b';' ∷ tail
    → decode_resize csi ≡ none
unfolding decode_resize resize_fields
refused_op csi op tail which parsed e =
    let first : value_at csi.params.params 0 ≡ some op =
      ap (λ params. value_at params 0) (parsed ∙ ap (λ bytes. (parse_params bytes).0) e)
      ∙ op_value op tail which in
    ground arith

by_window :
    (csi : ControlSequence) (op : ℕ) {r : PixelReport}
    → (op ≡ 4) ⊎ (op ≡ 6)
    → IsParsed csi.params
    → parse_xtwinops_report csi ((b'0' + op) ∷ []) ≡ some r
    → Passes csi
unfolding is_event_final is_functional_final
by_window csi op which parsed e =
    let (shape, fields) = xtwinops_parts csi (b'0' + op) e in
    let (piece, rest, pieces) = pixel-op (b'0' + op) (split b';' csi.params.param_bytes) fields in
    let (tail, bytes) =
      split-op (b'0' + op) csi.params.param_bytes piece rest (ground arith) pieces in
    let final = has_shape-final csi.params b't' [] [] shape in
    let q = final_is csi b't' is_event_final final refl in
    by_decoders csi (refused_win32 csi q)
      (refused_key csi (final_is csi b't' is_functional_final final refl)
        (final_is csi b't' (λ b. b == b'u') final refl))
      (refused_sgr csi q) (refused_focus csi q) (refused_op csi op tail which parsed bytes)
      (refused_arrow csi q)

by_report :
    (csi : ControlSequence) (op : ℕ)
    → (op ≡ 4) ⊎ (op ≡ 6)
    → IsParsed csi.params
    → (report : PixelReport) × (parse_xtwinops_report csi ((b'0' + op) ∷ []) ≡ some report)
    → Passes csi
by_report csi op which parsed (report, e) = by_window csi op which parsed e

cursor-final :
    (csi : ControlSequence) {r : _}
    → match_cursor_position csi ≡ some r
    → csi.params.final_byte ≡ b'R'
unfolding match_cursor_position cursor_position_report
cursor-final csi e = grind (arith, has_shape-final)

status-final :
    (csi : ControlSequence) {r : _}
    → terminal_status_report csi ≡ some r
    → csi.params.final_byte ≡ b'n'
unfolding terminal_status_report
status-final csi e = grind (arith, has_shape-final)

device-shape :
    (csi : ControlSequence) {r : _}
    → match_primary_device_attributes csi ≡ some r
    → has_shape csi.params b'c' (b'?' ∷ []) [] ≡ true
unfolding match_primary_device_attributes
device-shape csi e = ground arith

flags-shape :
    (csi : ControlSequence) {r : _}
    → decode_flags_report csi ≡ some r
    → has_shape csi.params b'u' (b'?' ∷ []) [] ≡ true
unfolding decode_flags_report
flags-shape csi e = ground arith

mode-shape :
    (mode : ℕ) (csi : ControlSequence) {r : _}
    → match_mode mode csi ≡ some r
    → has_shape csi.params b'y' (b'?' ∷ []) (b'$' ∷ []) ≡ true
unfolding match_mode dec_private_mode_report
mode-shape mode csi e = ground arith

-- A control sequence that answers some query, with its parameters as they are parsed, becomes the
-- syntax event of itself, and the carry of the decoder stays as it is.
pub map_csi-match_token :
    (e : Expectation) (csi : ControlSequence) {r : Reply}
    → match_token e (SyntaxToken.csi csi) ≡ some r
    → IsParsed csi.params
    → (carry : Carry) → map_csi carry csi ≡ (carry, syntax (SyntaxToken.csi csi) ∷ [])
unfolding match_token is_event_final is_functional_final
map_csi-match_token Expectation.cursor_position csi h parsed =
    by_final csi b'R' (grind (arith, cursor-final)) refl refl refl refl
map_csi-match_token Expectation.terminal_status csi h parsed =
    by_final csi b'n' (grind (arith, status-final)) refl refl refl refl
map_csi-match_token Expectation.primary_device_attributes csi h parsed =
    by_marker csi b'c' b'?' [] (grind (arith, device-shape)) refl refl
map_csi-match_token Expectation.kitty_keyboard_flags csi h parsed =
    by_marker csi b'u' b'?' [] (grind (arith, flags-shape)) refl refl
map_csi-match_token (Expectation.dec_private_mode mode) csi h parsed =
    by_marker csi b'y' b'?' (b'$' ∷ []) (mode-shape mode csi h) refl refl
map_csi-match_token Expectation.xt_version csi h parsed = absurd (ground arith)
map_csi-match_token (Expectation.osc_color which) csi h parsed = absurd (ground arith)
map_csi-match_token (Expectation.kitty_graphics image_id) csi h parsed = absurd (ground arith)
map_csi-match_token Expectation.text_area_pixels csi h parsed =
    by_report csi 4 (inl refl) parsed (ground arith)
map_csi-match_token Expectation.cell_size csi h parsed =
    by_report csi 6 (inr refl) parsed (ground arith)
