-- ===== src/Syntax/Step/Text.antt =====
-- The loop of `parse_text` takes a run of whole characters off the front of the buffer, or one
-- malformed character; with enough fuel the fuel does not matter.
use qwertty.Prelude.{
  ℕ, zero, suc, ◌+◌, ◌≤◌, ◌<◌, ◌≡◌, refl, ◌⊎◌, inl, inr, false, Option, none, some, [], ◌∷◌, arith,
  Bytes, length, drop, length-drop, Bool-cases,
}
use qwertty.Syntax.Classes.{is_text_boundary, utf8_width}
use qwertty.Syntax.Step.Sound.{Sound, emit_malformed-Sound, emit_text-Sound}
use qwertty.Syntax.Step.{TextRound, returns, moves, char_round, text_round, text_loop, parse_text}

utf8_width_bounds : (byte : ℕ) {w : ℕ} → utf8_width byte ≡ some w → (0 < w) × (w ≤ 4)
unfolding utf8_width
utf8_width_bounds byte h = ground arith

-- What a round may do at a cursor.
abbrev pub RoundSound : ℕ → Bytes → ℕ → Bytes → TextRound → Type 0
RoundSound cap bytes cursor here (returns result) = Sound cap bytes result
RoundSound cap bytes cursor here (moves width) =
    (0 < width) × (width ≤ length here) × (cursor + width < cap)

module _ (cap : ℕ) (bytes : Bytes) where
  char_round-Sound :
      (cursor : ℕ) (here : Bytes) (w : Option ℕ)
      → cursor + length here ≡ length bytes
      → 0 < length here
      → (cursor < cap) ⊎ (cursor ≡ 0)
      → ((n : ℕ) → w ≡ some n → (0 < n) × (n ≤ 4))
      → RoundSound cap bytes cursor here (char_round bytes cap cursor here w)
  unfolding char_round
  char_round-Sound cursor here none l p c b =
      ground (arith, emit_text-Sound cap bytes cursor, emit_malformed-Sound cap bytes 1)
  char_round-Sound cursor here (some n) l p c b = ground (
    arith,
    b n,
    emit_text-Sound cap bytes cursor,
    emit_text-Sound cap bytes (cursor + n),
    emit_malformed-Sound cap bytes n,
  )

  pub text_round-Sound :
      (cursor byte : ℕ) (rest : Bytes)
      → cursor + length (byte ∷ rest) ≡ length bytes
      → (cursor < cap) ⊎ (cursor ≡ 0)
      → (cursor ≡ 0 → is_text_boundary byte ≡ false)
      → RoundSound cap bytes cursor (byte ∷ rest) (text_round bytes cap cursor (byte ∷ rest) byte)
  unfolding text_round
  text_round-Sound cursor byte rest l c b = elim (Bool-cases (is_text_boundary byte)) [
    | inl stop ↦ rw stop (emit_text-Sound cap bytes cursor (ground arith) (omega arith))
    | inr on ↦ rw on (
        char_round-Sound cursor (byte ∷ rest) (utf8_width byte) l (omega arith) c
          (λ n. utf8_width_bounds byte))
  ]

  text_loop-Sound :
      (fuel cursor : ℕ) (here : Bytes)
      → length here ≤ fuel
      → cursor + length here ≡ length bytes
      → (cursor < cap) ⊎ (cursor ≡ 0)
      → (cursor ≡ 0
          → (byte : ℕ) (rest : Bytes) → here ≡ byte ∷ rest
          → is_text_boundary byte ≡ false)
      → Sound cap bytes (text_loop fuel bytes cap cursor here)
  unfolding text_loop
  text_loop-Sound fuel cursor [] f l c b = (ground arith, tt)
  text_loop-Sound zero cursor (byte ∷ rest) f l c b = elim f [ ]
  text_loop-Sound (suc fuel) cursor (byte ∷ rest) f l c b =
      go (text_round bytes cap cursor (byte ∷ rest) byte)
        (text_round-Sound cursor byte rest l c (λ z. b z byte rest refl))
        (λ width h.
          text_loop-Sound fuel (cursor + width) (drop width (byte ∷ rest))
            (omega (arith, length-drop width (byte ∷ rest)))
            (omega (arith, length-drop width (byte ∷ rest))) (inl h.2) (λ z. absurd (omega arith)))
    where
      go :
          (r : TextRound)
          → RoundSound cap bytes cursor (byte ∷ rest) r
          → ((width : ℕ)
              → RoundSound cap bytes cursor (byte ∷ rest) (moves width)
              → Sound cap bytes
                  (text_loop fuel bytes cap (cursor + width) (drop width (byte ∷ rest))))
          → Sound cap bytes (elim r [
            | returns result ↦ result
            | moves width ↦ text_loop fuel bytes cap (cursor + width) (drop width (byte ∷ rest))
          ])
      go (returns result) h next = h
      go (moves width) h next = next width h

pub parse_text-Sound :
    (cap byte : ℕ) (rest : Bytes)
    → is_text_boundary byte ≡ false
    → Sound cap (byte ∷ rest) (parse_text (byte ∷ rest) cap)
unfolding parse_text
parse_text-Sound cap byte rest h =
    text_loop-Sound cap (byte ∷ rest) (length (byte ∷ rest)) 0 (byte ∷ rest) (omega arith)
      (omega arith) (inr refl) (λ _ b r e. rw (← cons_head e) h)
  where
    cons_head : {b : ℕ} {r : Bytes} → byte ∷ rest ≡ b ∷ r → byte ≡ b
    cons_head e = cc
