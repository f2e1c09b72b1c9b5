-- ===== src/Console/Mice.antt =====
-- Console mouse records (src/terminal/console_translate.rs) read back by the mouse decoder
-- (src/event/mouse.rs).
use qwertty.Commands.Numbered.{
  join_params, numbered, parse_params-join_params, all-join_params, length-join_params,
}
use qwertty.Commands.Tokens.{IsCsi, csi_body, run_buffer-csi_token}
use qwertty.Console.{ConsoleMouse, coord_to_sgr, emit_sgr, translate_mouse}
use qwertty.Input.Keys.{no_modifiers}
use qwertty.Input.Mouse.{
  MouseEventKind, MouseButton, MouseEvent, decode_mouse_modifiers, decode_kind_and_button,
  value_u16, mouse_fields, decode_sgr,
}
use qwertty.Prelude.{
  ℕ, ◌+◌, ◌-◌, ◌^◌, ◌<◌, ◌≤◌, ◌≡◌, inl, inr, refl, ap, ◌∙◌, Bool, true, false, Option, none, some,
  [], ◌∷◌, ◌++◌, append_assoc, Bytes, ltb, leb, if◌then◌else◌, arith,
}
use qwertty.Prelude.Int.{ℤ, pos, negsuc}
use qwertty.Syntax.Classes.{esc_byte, is_private_marker, is_final_byte}
use qwertty.Syntax.Parser.{push_tokens, run_buffer}
use qwertty.Syntax.Step.{is_paste_start}
use qwertty.Syntax.Token.{ControlSequence, SyntaxToken, parse_params, control_params_new}
use qwertty.Console.Buttons.{meaning}
use qwertty.Console.MouseReports.{report-Reads}

abbrev pub final_of : Bool → ℕ
final_of is_release = if is_release then b'm' else b'M'

abbrev pub sgr_body : ℕ → ℕ → ℕ → Bool → Bytes
sgr_body code column row is_release =
    csi_body (b'<' ∷ []) (join_params code (column ∷ row ∷ [])) [] (final_of is_release)

abbrev pub sgr_sequence : ℕ → ℕ → ℕ → Bool → ControlSequence
sgr_sequence code column row is_release = record {
  bytes = esc_byte ∷ b'[' ∷ sgr_body code column row is_release;
  params =
      control_params_new (b'<' ∷ []) (join_params code (column ∷ row ∷ [])) []
        (final_of is_release);
}

emit_sgr-bytes :
    (code column row : ℕ) (is_release : Bool) (rest : Bytes)
    → emit_sgr code column row is_release ++ rest
      ≡ esc_byte ∷ b'[' ∷ (sgr_body code column row is_release ++ rest)
unfolding emit_sgr join_params
emit_sgr-bytes code column row is_release rest = simp append_assoc

small_params :
    (code column row : ℕ)
    → code < 2 ^ 16
    → column < 2 ^ 16
    → row < 2 ^ 16
    → parse_params (join_params code (column ∷ row ∷ []))
      ≡ (numbered none code (column ∷ row ∷ []), false)
small_params code column row a b c =
    parse_params-join_params code (column ∷ row ∷ []) (omega arith) (ground arith)

-- A report in range is read as its kind, its button and its place.
decode_sgr-report :
    (code column row : ℕ) (is_release : Bool)
    → code < 2 ^ 16
    → column < 2 ^ 16
    → row < 2 ^ 16
    → decode_sgr (sgr_sequence code column row is_release)
      ≡ some (record {
        kind = (decode_kind_and_button code is_release).0;
        button = (decode_kind_and_button code is_release).1;
        column = column;
        row = row;
        modifiers = decode_mouse_modifiers code;
      })
unfolding decode_sgr mouse_fields value_u16 control_params_new numbered
decode_sgr-report code column row true a b c =
    let x : leb code (2 ^ 16 - 1) ≡ true = ground arith in
    let y : leb column (2 ^ 16 - 1) ≡ true = ground arith in
    let z : leb row (2 ^ 16 - 1) ≡ true = ground arith in
    rw (small_params code column row a b c, x, y, z) refl
decode_sgr-report code column row false a b c =
    let x : leb code (2 ^ 16 - 1) ≡ true = ground arith in
    let y : leb column (2 ^ 16 - 1) ≡ true = ground arith in
    let z : leb row (2 ^ 16 - 1) ≡ true = ground arith in
    rw (small_params code column row a b c, x, y, z) refl

sgr-IsCsi :
    (cap code column row : ℕ) (is_release : Bool)
    → 33 ≤ cap
    → code < 2 ^ 16
    → column < 2 ^ 16
    → row < 2 ^ 16
    → IsCsi cap (b'<' ∷ []) (join_params code (column ∷ row ∷ [])) [] (final_of is_release)
unfolding is_paste_start is_final_byte is_private_marker
sgr-IsCsi cap code column row is_release room a b c = record {
  marked = refl;
  numbered = all-join_params code (column ∷ row ∷ []);
  between = refl;
  ends = ground arith;
  fits = omega (arith, length-join_params code (column ∷ row ∷ []) (ground arith));
  no_paste = refl;
}

-- A coordinate of an i16, counted from 1 and clamped.
abbrev pub is_i16 : ℤ → Bool
is_i16 (pos n) = ltb n (2 ^ 15)
is_i16 (negsuc n) = ltb n (2 ^ 15)

abbrev pub one_based : ℤ → ℕ
one_based (pos n) = n + 1
one_based (negsuc n) = 1

coord_to_sgr-one_based : (c : ℤ) → is_i16 c ≡ true → coord_to_sgr c ≡ one_based c
unfolding coord_to_sgr
coord_to_sgr-one_based (pos n) h = ground arith
coord_to_sgr-one_based (negsuc n) h = refl

one_based-small : (c : ℤ) → is_i16 c ≡ true → one_based c < 2 ^ 16
one_based-small (pos n) h = ground arith
one_based-small (negsuc n) h = omega arith

abbrev pub event_at : ConsoleMouse → MouseEventKind × MouseButton → MouseEvent
event_at mouse (kind, button) = record {
  kind = kind;
  button = button;
  column = one_based mouse.x;
  row = one_based mouse.y;
  modifiers = no_modifiers;
}

-- What the bytes of a record have to be: none, or one token that the mouse decoder reads.
abbrev pub Says : ℕ → Bytes → Option MouseEvent → Bytes → Type 0
Says cap bytes none rest = bytes ≡ []
Says cap bytes (some event) rest =
    (csi : ControlSequence) × (run_buffer cap (bytes ++ rest)
      ≡ push_tokens (SyntaxToken.csi csi ∷ []) (run_buffer cap rest))
    × (decode_sgr csi ≡ some event)

abbrev pub said : ConsoleMouse → Option (MouseEventKind × MouseButton) → Option MouseEvent
said mouse none = none
said mouse (some event) = some (event_at mouse event)

-- For a record with i16 coordinates the bytes of translate_mouse are none if the record means
-- nothing, and else become one token that the mouse decoder reads as what the record means, at its
-- cell counted from 1, with no modifiers; what stands behind is parsed as if it stood alone, at any
-- cap of at least 33 bytes.
pub translate_mouse-decode_sgr :
    (cap : ℕ) (mouse : ConsoleMouse) (prev : ℕ)
    → 33 ≤ cap
    → is_i16 mouse.x ≡ true
    → is_i16 mouse.y ≡ true
    → (rest : Bytes)
    → Says cap (translate_mouse mouse prev).0 (said mouse (meaning mouse prev)) rest
unfolding translate_mouse
translate_mouse-decode_sgr cap mouse prev room hx hy rest = elim (report-Reads mouse prev) [
  | inl (e, f) ↦ rw (e, f) refl
  | inr (code, is_release, kind, pressed, e, f, k, m, small) ↦
      (let column = one_based-small mouse.x hx in
        let row = one_based-small mouse.y hy in
        rw (e, f, coord_to_sgr-one_based mouse.x hx, coord_to_sgr-one_based mouse.y hy)
          (
            sgr_sequence code (one_based mouse.x) (one_based mouse.y) is_release,
            ap (run_buffer cap)
                  (emit_sgr-bytes code (one_based mouse.x) (one_based mouse.y) is_release rest)
                ∙ run_buffer-csi_token
                    (sgr-IsCsi cap code (one_based mouse.x) (one_based mouse.y) is_release room
                      small column row)
                    rest,
            decode_sgr-report code (one_based mouse.x) (one_based mouse.y) is_release small column
                  row
                ∙ (rw (k, m) refl),
          ))
]
