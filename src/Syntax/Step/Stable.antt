-- ===== src/Syntax/Step/Stable.antt =====
-- `parse_text` and `step` do not depend on the input behind the token that they make.
use qwertty.Prelude.{
  ℕ, zero, suc, ◌+◌, ◌≤◌, ◌<◌, ◌≡◌, refl, ◌⊎◌, inl, inr, false, Option, none, some, [], ◌∷◌, ◌++◌,
  arith, Bytes, length, drop, length-drop, length-append, take-append_le, drop-append_le,
}
use qwertty.Syntax.Classes.{is_text_boundary, utf8_width}
use qwertty.Syntax.Step.Extend.{
  extend, IsStable, emit_malformed-extend, emit_text-extend, parse_csi-extend, parse_string-extend,
  parse_plain_escape-extend,
}
use qwertty.Syntax.Step.Text.{RoundSound, text_round-Sound}
use qwertty.Syntax.Step.{
  need_more, TextRound, returns, moves, char_round, text_round, text_loop, parse_text, step,
  parse_escape,
}
use qwertty.Syntax.Token.{StringKind, osc, dcs, apc, pm, sos}

abbrev extend_round : TextRound → Bytes → TextRound
extend_round (returns s) more = returns (extend s more)
extend_round (moves w) more = moves w

module _ (cap : ℕ) (bytes more : Bytes) where
  char_round-extend :
      (cursor : ℕ) (here : Bytes) (w : Option ℕ)
      → cursor + length here ≡ length bytes
      → 0 < length here
      → (char_round bytes cap cursor here w ≡ returns need_more)
        ⊎ (char_round (bytes ++ more) cap cursor (here ++ more) w
            ≡ extend_round (char_round bytes cap cursor here w) more)
  unfolding char_round
  char_round-extend cursor here none l p =
      inr (ground (arith, emit_text-extend bytes more cursor, emit_malformed-extend bytes more 1))
  char_round-extend cursor here (some n) l p = ground (
    arith,
    emit_text-extend bytes more cursor,
    emit_text-extend bytes more (cursor + n),
    emit_malformed-extend bytes more n,
    take-append_le n here more,
    length-append here more,
  )

  text_round-extend :
      (cursor byte : ℕ) (rest : Bytes)
      → cursor + length (byte ∷ rest) ≡ length bytes
      → (text_round bytes cap cursor (byte ∷ rest) byte ≡ returns need_more)
        ⊎ (text_round (bytes ++ more) cap cursor (byte ∷ (rest ++ more)) byte
            ≡ extend_round (text_round bytes cap cursor (byte ∷ rest) byte) more)
  unfolding text_round
  text_round-extend cursor byte rest l = ground (
    arith,
    emit_text-extend bytes more cursor,
    char_round-extend cursor (byte ∷ rest) (utf8_width byte),
  )

  -- Any fuel that is enough for the bytes that are left serves on either side.
  text_loop-extend :
      (f g cursor : ℕ) (here : Bytes)
      → length here ≤ f
      → length here + length more ≤ g
      → cursor + length here ≡ length bytes
      → (cursor < cap) ⊎ (cursor ≡ 0)
      → (cursor ≡ 0
          → (byte : ℕ) (rest : Bytes) → here ≡ byte ∷ rest
          → is_text_boundary byte ≡ false)
      → IsStable
          (text_loop f bytes cap cursor here)
          (text_loop g (bytes ++ more) cap cursor (here ++ more))
          more
  unfolding text_loop
  text_loop-extend f g cursor [] hf hg l c b = inl refl
  text_loop-extend zero g cursor (byte ∷ rest) hf hg l c b = elim hf [ ]
  text_loop-extend (suc f) zero cursor (byte ∷ rest) hf hg l c b = absurd (omega arith)
  text_loop-extend (suc f) (suc g) cursor (byte ∷ rest) hf hg l c b =
      elim (text_round-extend cursor byte rest l) [
        | inl wants ↦ inl (rw (wants, text_loop))
        | inr same ↦
            rw (same, text_loop)
              (go (text_round bytes cap cursor (byte ∷ rest) byte)
                (text_round-Sound cap bytes cursor byte rest l c (λ z. b z byte rest refl))
                (λ width h. rw (← drop-append_le width (byte ∷ rest) more h.1) at (
                  text_loop-extend f g (cursor + width) (drop width (byte ∷ rest))
                    (omega (arith, length-drop width (byte ∷ rest)))
                    (omega (arith, length-drop width (byte ∷ rest)))
                    (omega (arith, length-drop width (byte ∷ rest))) (inl h.2)
                    (λ z. absurd (omega arith)))))
      ]
    where
      go :
          (r : TextRound)
          → RoundSound cap bytes cursor (byte ∷ rest) r
          → ((width : ℕ)
              → RoundSound cap bytes cursor (byte ∷ rest) (moves width)
              → IsStable
                  (text_loop f bytes cap (cursor + width) (drop width (byte ∷ rest)))
                  (text_loop g
                    (bytes ++ more)
                    cap
                    (cursor + width)
                    (drop width (byte ∷ (rest ++ more))))
                  more)
          → IsStable
              (elim r [
                | returns result ↦ result
                | moves width ↦ text_loop f bytes cap (cursor + width) (drop width (byte ∷ rest))
              ])
              (elim (extend_round r more) [
                | returns result ↦ result
                | moves width ↦
                    text_loop g
                      (bytes ++ more)
                      cap
                      (cursor + width)
                      (drop width (byte ∷ (rest ++ more)))
              ])
              more
      go (returns result) h next = inr refl
      go (moves width) h next = next width h

pub parse_text-extend :
    (byte : ℕ) (rest more : Bytes) (cap : ℕ)
    → is_text_boundary byte ≡ false
    → IsStable (parse_text (byte ∷ rest) cap) (parse_text (byte ∷ (rest ++ more)) cap) more
unfolding parse_text
parse_text-extend byte rest more cap h =
    text_loop-extend cap (byte ∷ rest) more (length (byte ∷ rest)) (length (byte ∷ (rest ++ more)))
      0 (byte ∷ rest) (omega arith) (omega (arith, length-append rest more)) (omega arith)
      (inr refl) (λ _ b r e. rw (← cons_head e) h)
  where
    cons_head : {b : ℕ} {r : Bytes} → byte ∷ rest ≡ b ∷ r → byte ≡ b
    cons_head e = cc

parse_escape-extend :
    (byte : ℕ) (rest more : Bytes) (cap : ℕ)
    → IsStable
        (parse_escape (byte ∷ rest) cap rest)
        (parse_escape (byte ∷ (rest ++ more)) cap (rest ++ more))
        more
unfolding parse_escape
parse_escape-extend byte [] more cap = inl refl
parse_escape-extend byte (second ∷ rest) more cap =
    let b = byte ∷ second ∷ rest in
    let string = λ (k : StringKind). parse_string-extend b more k 2 cap (omega arith) in
    ground (
      arith,
      parse_csi-extend b more 2 cap (omega arith),
      string dcs,
      string osc,
      string apc,
      string pm,
      string sos,
      parse_plain_escape-extend byte (second ∷ rest) more cap,
    )

pub step-extend :
    (byte : ℕ) (rest more : Bytes) (cap : ℕ)
    → IsStable (step byte rest cap) (step byte (rest ++ more) cap) more
unfolding step is_text_boundary
step-extend byte rest more cap =
    let b = byte ∷ rest in
    let string = λ (k : StringKind). parse_string-extend b more k 1 cap (omega arith) in
    ground (
      arith,
      parse_escape-extend byte rest more cap,
      parse_csi-extend b more 1 cap (omega arith),
      string dcs,
      string osc,
      string apc,
      string pm,
      string sos,
      parse_text-extend byte rest more cap,
    )
