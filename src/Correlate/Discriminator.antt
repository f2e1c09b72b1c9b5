-- ===== src/Correlate/Discriminator.antt =====
-- One reply has one reader: the discriminators of `match_event` (src/correlate.rs) are disjoint.
use qwertty.Prelude.{
  ℕ, ◌≡◌, refl, true, false, Option, none, some, List, [], ◌∷◌, Bytes, bytes_eq, ◌==◌,
  if◌then◌else◌, ◌>>=◌, arith,
}
use mathlib.Core.Option
use qwertty.Report.{
  OscColorKind, foreground, background, has_shape, cursor_position_report, terminal_status_report,
  dec_private_mode_report, osc_color_report, kitty_graphics_report, parse_xtwinops_report,
  decode_flags_report, pixel_fields,
}
use qwertty.Report.Numbers.{split}
use qwertty.Syntax.Token.{SyntaxToken, ControlSequence, StringSequence, ControlParams}
use qwertty.Correlate.Matcher.{
  Event, Expectation, Reply, color_kind_eq, expectation_eq, match_event, match_token, match_mode,
  match_color, match_graphics, match_cursor_position, match_primary_device_attributes,
}

-- The window report that a first field stands for.
unfoldable window_answer : List Bytes → Option Expectation
window_answer [] = none
window_answer (op ∷ fields) =
    if bytes_eq op (b'4' ∷ [])
    then some Expectation.text_area_pixels
    else if bytes_eq op (b'6' ∷ [])
    then some Expectation.cell_size
    else none

-- The expectation that a control sequence can answer, by its final byte.
unfoldable csi_answer : ControlSequence → Option Expectation
csi_answer csi =
    if csi.params.final_byte == b'R'
    then some Expectation.cursor_position
    else if csi.params.final_byte == b'n'
    then some Expectation.terminal_status
    else if csi.params.final_byte == b'c'
    then some Expectation.primary_device_attributes
    else if csi.params.final_byte == b'u'
    then some Expectation.kitty_keyboard_flags
    else if csi.params.final_byte == b'y'
    then Option.map (λ report. Expectation.dec_private_mode report.mode)
        (dec_private_mode_report csi)
    else if csi.params.final_byte == b't'
    then window_answer (split b';' csi.params.param_bytes)
    else none

unfoldable answer : SyntaxToken → Option Expectation
answer (SyntaxToken.csi csi) = csi_answer csi
answer (SyntaxToken.dcs dcs) = some Expectation.xt_version
answer (SyntaxToken.osc osc) =
    Option.map (λ report. Expectation.osc_color report.kind) (osc_color_report osc.payload)
answer (SyntaxToken.apc apc) =
    kitty_graphics_report apc >>= λ report. Option.map Expectation.kitty_graphics report.image_id
answer _ = none

pub has_shape-final :
    (p : ControlParams) (f : ℕ) (m i : Bytes) → has_shape p f m i ≡ true → p.final_byte ≡ f
unfolding has_shape
has_shape-final p f m i e = ground arith

cursor_answer :
    (csi : ControlSequence) {r : _}
    → match_cursor_position csi ≡ some r
    → csi_answer csi ≡ some Expectation.cursor_position
unfolding match_cursor_position cursor_position_report csi_answer
cursor_answer csi e = grind (arith, has_shape-final)

status_answer :
    (csi : ControlSequence) {r : _}
    → terminal_status_report csi ≡ some r
    → csi_answer csi ≡ some Expectation.terminal_status
unfolding terminal_status_report csi_answer
status_answer csi e = grind (arith, has_shape-final)

device_answer :
    (csi : ControlSequence) {r : _}
    → match_primary_device_attributes csi ≡ some r
    → csi_answer csi ≡ some Expectation.primary_device_attributes
unfolding match_primary_device_attributes csi_answer
device_answer csi e = grind (arith, has_shape-final)

flags_answer :
    (csi : ControlSequence) {r : _}
    → decode_flags_report csi ≡ some r
    → csi_answer csi ≡ some Expectation.kitty_keyboard_flags
unfolding decode_flags_report csi_answer
flags_answer csi e = grind (arith, has_shape-final)

dec_report-final :
    (csi : ControlSequence) {r : _}
    → dec_private_mode_report csi ≡ some r
    → csi.params.final_byte ≡ b'y'
unfolding dec_private_mode_report
dec_report-final csi e = grind (arith, has_shape-final)

mode_answer :
    (mode : ℕ) (csi : ControlSequence) {r : _}
    → match_mode mode csi ≡ some r
    → csi_answer csi ≡ some (Expectation.dec_private_mode mode)
unfolding match_mode csi_answer
mode_answer mode csi e = grind (arith, dec_report-final)

text_area_answer :
    (csi : ControlSequence) {r : _}
    → parse_xtwinops_report csi (b'4' ∷ []) ≡ some r
    → csi_answer csi ≡ some Expectation.text_area_pixels
unfolding parse_xtwinops_report pixel_fields window_answer csi_answer
text_area_answer csi e = grind (arith, has_shape-final)

six_not_four : (op : Bytes) → bytes_eq op (b'6' ∷ []) ≡ true → bytes_eq op (b'4' ∷ []) ≡ false
six_not_four [] e = ground arith
six_not_four (byte ∷ op) e = ground arith

cell_answer :
    (csi : ControlSequence) {r : _}
    → parse_xtwinops_report csi (b'6' ∷ []) ≡ some r
    → csi_answer csi ≡ some Expectation.cell_size
unfolding parse_xtwinops_report pixel_fields window_answer csi_answer
cell_answer csi e = grind (arith, has_shape-final, six_not_four)

color_kind_eq_sound : (a b : OscColorKind) → color_kind_eq a b ≡ true → a ≡ b
color_kind_eq_sound foreground foreground e = refl
color_kind_eq_sound background background e = refl
color_kind_eq_sound foreground background e = ground arith
color_kind_eq_sound background foreground e = ground arith

color_answer :
    (which : OscColorKind) (osc : StringSequence) {r : _}
    → match_color which osc ≡ some r
    → answer (SyntaxToken.osc osc) ≡ some (Expectation.osc_color which)
unfolding match_color answer
color_answer which osc e = grind (arith, color_kind_eq_sound)

graphics_answer :
    (id : ℕ) (apc : StringSequence) {r : _}
    → match_graphics id apc ≡ some r
    → answer (SyntaxToken.apc apc) ≡ some (Expectation.kitty_graphics id)
unfolding match_graphics answer
graphics_answer id apc e = grind arith

-- What matches a token is what the token answers.
match_token-answer :
    (e : Expectation) (t : SyntaxToken) {r : Reply} → match_token e t ≡ some r → answer t ≡ some e
unfolding match_token answer
match_token-answer Expectation.cursor_position t e = grind (arith, cursor_answer)
match_token-answer Expectation.terminal_status t e = grind (arith, status_answer)
match_token-answer Expectation.primary_device_attributes t e = grind (arith, device_answer)
match_token-answer Expectation.kitty_keyboard_flags t e = grind (arith, flags_answer)
match_token-answer (Expectation.dec_private_mode mode) t e = grind (arith, mode_answer)
match_token-answer Expectation.xt_version t e = grind arith
match_token-answer (Expectation.osc_color which) t e = grind (arith, color_answer)
match_token-answer (Expectation.kitty_graphics image_id) t e = grind (arith, graphics_answer)
match_token-answer Expectation.text_area_pixels t e = grind (arith, text_area_answer)
match_token-answer Expectation.cell_size t e = grind (arith, cell_answer)

module _ {I : Type 0} where
  -- If one event matches two expectations, these are the same expectation.
  pub match_event_unique :
      (a b : Expectation) (event : Event I) {r s : Reply}
      → match_event a event ≡ some r
      → match_event b event ≡ some s
      → a ≡ b
  unfolding match_event
  match_event_unique a b event p q = grind (arith, match_token-answer)

-- The derived equality of expectations decides equality.
pub expectation_eq_sound : (a b : Expectation) → expectation_eq a b ≡ true → a ≡ b
unfolding expectation_eq
expectation_eq_sound a b e = grind (arith, color_kind_eq_sound)

pub expectation_eq_refl : (a : Expectation) → expectation_eq a a ≡ true
unfolding expectation_eq
expectation_eq_refl a = ground arith

pub expectation_eq_sym : (a b : Expectation) → expectation_eq a b ≡ expectation_eq b a
unfolding expectation_eq
expectation_eq_sym a b = ground arith
