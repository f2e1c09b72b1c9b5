-- ===== src/Syntax/Step/Whole.antt =====
-- `step` as a whole: every branch takes its token off the front of the buffer.
use qwertty.Prelude.{ℕ, ◌≡◌, ◌∷◌, [], arith, Bytes}
use qwertty.Syntax.Classes.{esc_byte, is_text_boundary}
use qwertty.Syntax.Step.Sound.{Sound, parse_csi-Sound, parse_string-Sound, parse_plain_escape-Sound}
use qwertty.Syntax.Step.Text.{parse_text-Sound}
use qwertty.Syntax.Step.{step, parse_escape}
use qwertty.Syntax.Token.{StringKind, osc, dcs, apc, pm, sos}

parse_escape-Sound :
    (cap byte : ℕ) (rest : Bytes)
    → byte ≡ esc_byte
    → Sound cap (byte ∷ rest) (parse_escape (byte ∷ rest) cap rest)
unfolding parse_escape
parse_escape-Sound cap byte [] e = (omega arith, tt)
parse_escape-Sound cap byte (second ∷ rest) e =
    let b = byte ∷ second ∷ rest in
    let string =
      λ (k : StringKind). parse_string-Sound cap b k 2 (omega arith) (omega arith) (omega arith) in
    ground (
      arith,
      parse_csi-Sound cap b 2 (omega arith) (omega arith) (omega arith),
      string dcs,
      string osc,
      string apc,
      string pm,
      string sos,
      parse_plain_escape-Sound cap b (omega arith),
    )

pub step-Sound : (byte : ℕ) (rest : Bytes) (cap : ℕ) → Sound cap (byte ∷ rest) (step byte rest cap)
unfolding step is_text_boundary
step-Sound byte rest cap =
    let b = byte ∷ rest in
    let string =
      λ (k : StringKind). parse_string-Sound cap b k 1 (omega arith) (omega arith) (omega arith) in
    ground (
      arith,
      parse_escape-Sound cap byte rest,
      parse_csi-Sound cap b 1 (omega arith) (omega arith) (omega arith),
      string dcs,
      string osc,
      string apc,
      string pm,
      string sos,
      parse_text-Sound cap byte rest,
    )
