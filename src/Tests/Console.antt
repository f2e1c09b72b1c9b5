-- ===== src/Tests/Console.antt =====
-- Console records at concrete inputs (src/terminal/console_translate.rs, console_input.rs).
use qwertty.Console.{
  ConsoleMouse, push_unit, lowest_button, sgr_button_number, coord_to_sgr, translate_mouse,
  mouse_report, emit_sgr, combine_units, trailing_zeros, push_fresh, flush_pending,
}
use qwertty.Console.Buttons.{meaning}
use qwertty.Console.Mice.{Says, said, translate_mouse-decode_sgr}
use qwertty.Console.Reader.{WindowRect, new_reader}
use qwertty.Console.Reads.{Call, translate, drain, take_all, run_calls, typed, run_calls-typed_text}
use qwertty.Console.Units.{encode_utf16, push_units, decode_lossy, push_units-decode_lossy}
use qwertty.Console.Windows.{resize_sequence, cells_event, synthesize_resize-map_csi}
use qwertty.Console.Reader.{synthesize_resize}
use qwertty.Correlate.Matcher.{input}
use qwertty.Input.{resize, map_csi, no_carry}
use qwertty.Input.Characters.{encode_utf8}
use qwertty.Input.Keys.{char_from_u32}
use qwertty.Prelude.{decimal, ℕ, ◌≡◌, refl, none, some, List, [], ◌∷◌, ◌++◌, concat, map, arith}
use qwertty.Prelude.Int.{pos}
use qwertty.Syntax.Parser.{run_buffer, push_tokens}
use qwertty.Syntax.Token.{SyntaxToken}

-- A high half, a letter and a pair.
abbrev mixed_units : List ℕ
mixed_units = 0xd83d ∷ 0x41 ∷ 0xd83d ∷ 0xde00 ∷ []

mixed_run :
    (push_units none mixed_units).1 ≡ 0xef ∷ 0xbf ∷ 0xbd ∷ 0x41 ∷ 0xf0 ∷ 0x9f ∷ 0x98 ∷ 0x80 ∷ []
unfolding push_units push_unit push_fresh encode_utf8 char_from_u32 combine_units
mixed_run = refl

push_units-decode_lossy_example :
    (push_units none mixed_units).1 ++ flush_pending (push_units none mixed_units).0
    ≡ concat (map encode_utf8 (decode_lossy mixed_units))
push_units-decode_lossy_example = push_units-decode_lossy mixed_units refl

-- The letter a and U+1F600.
abbrev text : List ℕ
text = 0x61 ∷ 0x1f600 ∷ []

-- The halves of the pair come in two batches, with a read of one byte between.
abbrev calls : List Call
calls =
    translate (typed 0x61 ∷ typed 0xd83d ∷ [])
    ∷ drain 1
    ∷ translate (typed 0xde00 ∷ [])
    ∷ take_all
    ∷ []

run_calls-typed_text_example :
    (run_calls calls new_reader).1 ++ (run_calls calls new_reader).0.pending
    ≡ concat (map encode_utf8 text)
unfolding encode_utf16
run_calls-typed_text_example = run_calls-typed_text text calls refl refl

-- The right button goes down at the cell (4, 2), counted from 0.
abbrev click : ConsoleMouse
click = record { button_state = 2; event_flags = 0; x = pos 4; y = pos 2 }

click_run :
    (translate_mouse click 0).0 ≡ 0x1b ∷ b'[' ∷ b'<' ∷ b'2' ∷ b';' ∷ b'5' ∷ b';' ∷ b'3' ∷ b'M' ∷ []
unfolding translate_mouse mouse_report lowest_button emit_sgr decimal sgr_button_number
    trailing_zeros coord_to_sgr
click_run = refl

translate_mouse-decode_sgr_example :
    Says 64 (translate_mouse click 0).0 (said click (meaning click 0)) (b'x' ∷ [])
translate_mouse-decode_sgr_example =
    translate_mouse-decode_sgr 64 click 0 (omega arith) refl refl (b'x' ∷ [])

abbrev window : WindowRect
window = record { left = pos 0; top = pos 10; right = pos 79; bottom = pos 33 }

synthesize_resize-map_csi_example :
    (run_buffer 64 (synthesize_resize (some window) ++ [])
      ≡ push_tokens (SyntaxToken.csi (resize_sequence 24 80) ∷ []) (run_buffer 64 []))
    × (map_csi no_carry (resize_sequence 24 80)
        ≡ (no_carry, input (resize (cells_event 24 80)) ∷ []))
synthesize_resize-map_csi_example =
    synthesize_resize-map_csi 64 window 24 80 (omega arith) (omega arith) (omega arith)
      (omega arith) (omega arith) refl refl [] no_carry
