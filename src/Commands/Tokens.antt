-- ===== src/Commands/Tokens.antt =====
-- What the tokenizer (src/syntax.rs) makes of an escape sequence that a command writes.
use qwertty.Prelude.{
  le_refl, ℕ, ◌+◌, ◌≤◌, ◌≡◌, sym, ap, ◌∙◌, true, false, [], ◌∷◌, ◌++◌, append_assoc, Bytes, all,
  length, length-append, stops, take_while-all, drop_while-all, take-length, drop-length, arith,
}
use qwertty.Syntax.Classes.{
  esc_byte, is_private_marker, is_param_byte, is_intermediate_byte, is_final_byte,
}
use qwertty.Syntax.Parser.{push_tokens, feed_loop, run_buffer}
use qwertty.Syntax.Parser.Fuel.{feed_loop_fuel}
use qwertty.Syntax.Scan.{complete, end_prefix, scan_control_prefix}
use qwertty.Syntax.Step.{emit, step, parse_escape, parse_csi, csi_step, is_paste_start}
use qwertty.Syntax.Token.{SyntaxToken, control_params_new}

-- The bytes of a control sequence behind its introducer.
abbrev pub csi_body : Bytes → Bytes → Bytes → ℕ → Bytes
csi_body markers params intermediates final = markers ++ (params ++ (intermediates ++ final ∷ []))

abbrev pub csi_token : Bytes → Bytes → Bytes → ℕ → SyntaxToken
csi_token markers params intermediates final = SyntaxToken.csi (record {
  bytes = esc_byte ∷ b'[' ∷ csi_body markers params intermediates final;
  params = control_params_new markers params intermediates final;
})

-- A well-formed control sequence, within the cap on its prefix, that opens no paste.
pub record IsCsi (cap : ℕ) (markers params intermediates : Bytes) (final : ℕ) : Type 0 where
  pub marked : all is_private_marker markers ≡ true
  pub numbered : all is_param_byte params ≡ true
  pub between : all is_intermediate_byte intermediates ≡ true
  pub ends : is_final_byte final ≡ true
  pub fits : length markers + length params + length intermediates ≤ cap
  pub no_paste : is_paste_start markers params intermediates final ≡ false

module _ {cap : ℕ} {m p i : Bytes} {f : ℕ} (shape : IsCsi cap m p i f) (rest : Bytes) where
  stops_intermediates : stops is_intermediate_byte (f ∷ rest) ≡ true
  unfolding is_intermediate_byte is_final_byte
  stops_intermediates = ground (arith, shape.ends)

  stops_params : stops is_param_byte (i ++ f ∷ rest) ≡ true
  unfolding is_intermediate_byte is_final_byte is_param_byte
  stops_params = go i shape.between
    where
      go :
          (i : Bytes)
          → all is_intermediate_byte i ≡ true
          → stops is_param_byte (i ++ f ∷ rest) ≡ true
      go [] h = ground (arith, shape.ends)
      go (x ∷ xs) h = ground arith

  stops_markers : stops is_private_marker (p ++ (i ++ f ∷ rest)) ≡ true
  unfolding is_intermediate_byte is_final_byte is_param_byte is_private_marker
  stops_markers = go p i shape.numbered shape.between
    where
      go :
          (p i : Bytes)
          → all is_param_byte p ≡ true
          → all is_intermediate_byte i ≡ true
          → stops is_private_marker (p ++ (i ++ f ∷ rest)) ≡ true
      go [] [] g h = ground (arith, shape.ends)
      go [] (x ∷ xs) g h = ground arith
      go (x ∷ xs) i g h = ground arith

  scanned :
      scan_control_prefix (m ++ (p ++ (i ++ f ∷ rest))) cap
      ≡ complete m p i f (length m + length p + length i + 1)
  unfolding scan_control_prefix end_prefix
  scanned =
      rw
        (
          take_while-all is_private_marker m (p ++ (i ++ f ∷ rest)) shape.marked stops_markers,
          drop_while-all is_private_marker m (p ++ (i ++ f ∷ rest)) shape.marked stops_markers,
          take_while-all is_param_byte p (i ++ f ∷ rest) shape.numbered stops_params,
          drop_while-all is_param_byte p (i ++ f ∷ rest) shape.numbered stops_params,
          take_while-all is_intermediate_byte i (f ∷ rest) shape.between stops_intermediates,
          drop_while-all is_intermediate_byte i (f ∷ rest) shape.between stops_intermediates,
          shape.ends,
        )
        (ground (arith, shape.fits))

  joined : m ++ (p ++ (i ++ f ∷ rest)) ≡ csi_body m p i f ++ rest
  joined = simp append_assoc

  length-csi_body : length (csi_body m p i f) ≡ length m + length p + length i + 1
  length-csi_body = omega (
    arith,
    length-append m (p ++ (i ++ f ∷ [])),
    length-append p (i ++ f ∷ []),
    length-append i (f ∷ []),
  )

  scanned_body :
      scan_control_prefix (csi_body m p i f ++ rest) cap
      ≡ complete m p i f (length (csi_body m p i f))
  scanned_body =
      ap (λ b. scan_control_prefix b cap) (sym joined)
      ∙ scanned
      ∙ ap (complete m p i f) (sym length-csi_body)

  step_csi : step esc_byte (b'[' ∷ csi_body m p i f ++ rest) cap ≡ emit (csi_token m p i f) rest
  unfolding step parse_escape parse_csi csi_step
  step_csi =
      let whole = esc_byte ∷ b'[' ∷ csi_body m p i f in
      let behind : 2 + length (csi_body m p i f) ≡ length whole = omega arith in
      rw (scanned_body, shape.no_paste, behind)
        (λ j.
          emit
            (SyntaxToken.csi
              (record { bytes = take-length whole rest j; params = control_params_new m p i f }))
            (drop-length whole rest j))

  -- The control sequence becomes its token, and parsing goes on behind it.
  pub run_buffer-csi_token :
      run_buffer cap (esc_byte ∷ b'[' ∷ csi_body m p i f ++ rest)
      ≡ push_tokens (csi_token m p i f ∷ []) (run_buffer cap rest)
  unfolding run_buffer feed_loop
  run_buffer-csi_token = rw step_csi (
      ap (push_tokens (csi_token m p i f ∷ [])) (
        feed_loop_fuel cap (length (b'[' ∷ csi_body m p i f ++ rest)) (length rest) rest
          (omega (arith, length-append (csi_body m p i f) rest)) (le_refl (length rest))))
