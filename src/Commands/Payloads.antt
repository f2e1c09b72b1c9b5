-- ===== src/Commands/Payloads.antt =====
-- What the tokenizer (src/syntax.rs) makes of an OSC sequence that a command writes.
use qwertty.Prelude.{
  le_refl, ℕ, suc, ◌+◌, ◌-◌, ◌≤◌, ◌<◌, ◌≡◌, refl, sym, ap, ◌∙◌, Bool, true, false, not, ◌&&◌,
  Option, none, [], ◌∷◌, ◌++◌, append_assoc, append-nil, Bytes, all, length, length-append, ◌==◌,
  arith,
}
use qwertty.Syntax.Classes.{esc_byte, bel_byte, can_byte, sub_byte, c1_st}
use qwertty.Syntax.Parser.{push_tokens, run_buffer, feed_loop}
use qwertty.Syntax.Parser.Fuel.{feed_loop_fuel}
use qwertty.Syntax.Step.{enter_string, step, parse_escape, parse_string, start_string}
use qwertty.Syntax.Strings.{
  StringAccum, done, goes_on, consume_string, string_loop, string_round, open_round, held_round,
  push_payload_byte, emit_string_token, string_token,
}
use qwertty.Syntax.Token.{SyntaxToken, StringKind, esc_backslash}

-- A byte that neither ends a string nor begins its end.
unfoldable pub is_payload_byte : ℕ → Bool
is_payload_byte byte =
    not (byte == bel_byte)
    && not (byte == c1_st)
    && not (byte == esc_byte)
    && not (byte == can_byte)
    && not (byte == sub_byte)

open_round_payload :
    (limit : ℕ) (a : StringAccum) (esc_pos : Option Bytes) (byte : ℕ) (rest : Bytes)
    → is_payload_byte byte ≡ true
    → length a.retained - a.introducer_len < limit
    → open_round limit a esc_pos byte rest
      ≡ goes_on (record a { retained = a.retained ++ byte ∷ [] }) false esc_pos
unfolding open_round push_payload_byte is_payload_byte
open_round_payload limit a esc_pos byte rest h l = ground arith

closes :
    (limit : ℕ) (a : StringAccum) (esc_pos : Option Bytes) (rest : Bytes)
    → string_loop limit a false esc_pos (esc_byte ∷ b'\\' ∷ rest)
      ≡ done (emit_string_token a esc_backslash) rest
unfolding string_loop string_round open_round held_round
closes limit a esc_pos rest = refl

-- A payload within the limit is kept whole, up to the end of the string.
string_loop-payload :
    (limit : ℕ) (a : StringAccum) (esc_pos : Option Bytes) (payload rest : Bytes)
    → all is_payload_byte payload ≡ true
    → length a.retained - a.introducer_len + length payload ≤ limit
    → string_loop limit a false esc_pos (payload ++ esc_byte ∷ b'\\' ∷ rest)
      ≡ done (emit_string_token (record a { retained = a.retained ++ payload }) esc_backslash) rest
unfolding string_loop string_round
string_loop-payload limit a esc_pos [] rest h l =
    closes limit a esc_pos rest
    ∙ ap (λ r. done (emit_string_token (record a { retained = r }) esc_backslash) rest)
        (sym (append-nil a.retained))
string_loop-payload limit a esc_pos (byte ∷ payload) rest h l =
    let next : StringAccum = record a { retained = a.retained ++ byte ∷ [] } in
    rw
      (
        string_loop,
        string_round,
        open_round_payload limit a esc_pos byte (payload ++ esc_byte ∷ b'\\' ∷ rest) (ground arith)
            (omega arith),
      )
      (string_loop-payload limit next esc_pos payload rest (ground arith)
          (omega (arith, length-append a.retained (byte ∷ [])))
        ∙ ap (λ r. done (emit_string_token (record a { retained = r }) esc_backslash) rest)
            (append_assoc a.retained (byte ∷ []) payload))

-- The bytes of a string sequence: ESC, the byte of its kind, the payload and the terminator.
abbrev pub framed : ℕ → Bytes → Bytes
framed opener payload = esc_byte ∷ opener ∷ payload ++ esc_byte ∷ b'\\' ∷ []

abbrev pub framed_token : StringKind → ℕ → Bytes → SyntaxToken
framed_token kind opener payload = string_token kind (record {
  kind = kind;
  bytes = framed opener payload;
  payload = payload;
  dropped_bytes = 0;
  terminator = esc_backslash;
  control_params = none;
})

abbrev opened : StringKind → ℕ → StringAccum
opened kind opener = record {
  kind = kind;
  retained = esc_byte ∷ opener ∷ [];
  introducer_len = 2;
  payload_start = 2;
  dropped = 0;
  esc_held = false;
  control_params = none;
}

module _ (limit : ℕ) (kind : StringKind) (opener : ℕ)
    (enters : (rest : Bytes)
      → step esc_byte (opener ∷ rest) limit ≡ enter_string (opened kind opener) rest)
    (payload rest : Bytes) (clean : all is_payload_byte payload ≡ true)
    (fits : length payload ≤ limit) where
  consumed :
      consume_string limit (opened kind opener) (payload ++ esc_byte ∷ b'\\' ∷ rest)
      ≡ done (framed_token kind opener payload) rest
  unfolding consume_string emit_string_token
  consumed = string_loop-payload limit (opened kind opener) none payload rest clean (omega arith)

  run_buffer-framed :
      run_buffer limit (framed opener payload ++ rest)
      ≡ push_tokens (framed_token kind opener payload ∷ []) (run_buffer limit rest)
  unfolding run_buffer feed_loop
  run_buffer-framed =
      rw
        (
          append_assoc payload (esc_byte ∷ b'\\' ∷ []) rest,
          enters (payload ++ esc_byte ∷ b'\\' ∷ rest),
          consumed,
        )
        (ap (push_tokens (framed_token kind opener payload ∷ [])) (
          feed_loop_fuel limit (suc (length (payload ++ esc_byte ∷ b'\\' ∷ [] ++ rest)))
            (length rest) rest
            (omega (arith, length-append (payload ++ esc_byte ∷ b'\\' ∷ []) rest))
            (le_refl (length rest))))

abbrev pub osc_token : Bytes → SyntaxToken
osc_token payload = framed_token StringKind.osc b']' payload

abbrev pub apc_token : Bytes → SyntaxToken
apc_token payload = framed_token StringKind.apc b'_' payload

enters_osc :
    (limit : ℕ) (rest : Bytes)
    → step esc_byte (b']' ∷ rest) limit ≡ enter_string (opened StringKind.osc b']') rest
unfolding step parse_escape parse_string start_string
enters_osc limit rest = refl

enters_apc :
    (limit : ℕ) (rest : Bytes)
    → step esc_byte (b'_' ∷ rest) limit ≡ enter_string (opened StringKind.apc b'_') rest
unfolding step parse_escape parse_string start_string
enters_apc limit rest = refl

module _ (limit : ℕ) (payload rest : Bytes) (clean : all is_payload_byte payload ≡ true)
    (fits : length payload ≤ limit) where
  -- The sequence becomes one token with its payload, and parsing goes on behind it.
  pub run_buffer-osc_token :
      run_buffer limit (framed b']' payload ++ rest)
      ≡ push_tokens (osc_token payload ∷ []) (run_buffer limit rest)
  run_buffer-osc_token =
      run_buffer-framed limit StringKind.osc b']' (enters_osc limit) payload rest clean fits

  pub run_buffer-apc_token :
      run_buffer limit (framed b'_' payload ++ rest)
      ≡ push_tokens (apc_token payload ∷ []) (run_buffer limit rest)
  run_buffer-apc_token =
      run_buffer-framed limit StringKind.apc b'_' (enters_apc limit) payload rest clean fits
