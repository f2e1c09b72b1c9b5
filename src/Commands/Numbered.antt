-- ===== src/Commands/Numbered.antt =====
-- Commands whose parameters are numbers, read back by the tokenizer (src/syntax.rs).
use qwertty.Prelude.{
  all-append, ℕ, ◌+◌, ◌*◌, ◌^◌, ◌≤◌, ◌<◌, ◌≡◌, refl, ap, ◌∙◌, Bool, true, false, Option, none, some,
  List, [], ◌∷◌, ◌++◌, append_assoc, Bytes, all, length, length-append, ltb, ◌==◌, arith, decimal,
}
use qwertty.Commands.Decimal.{
  length-decimal, all-decimal, param_loop-decimal, param_loop-append, decimal-cons,
}
use qwertty.Commands.Tokens.{IsCsi, csi_token, run_buffer-csi_token}
use qwertty.Syntax.Classes.{esc_byte, is_param_byte, is_final_byte}
use qwertty.Syntax.Parser.{push_tokens, run_buffer}
use qwertty.Syntax.Step.{is_paste_start}
use qwertty.Syntax.Token.{
  SyntaxToken, Param, ParamSeparator, semicolon, ParamScan, push_param, param_byte, param_loop,
  no_params, parse_params, control_params_new,
}

-- Numbers with semicolons between them.
unfoldable pub join_params : ℕ → List ℕ → Bytes
join_params n [] = decimal n
join_params n (k ∷ ks) = decimal n ++ b';' ∷ join_params k ks

-- Parameters with these values, the first behind `separator`.
unfoldable pub numbered : Option ParamSeparator → ℕ → List ℕ → List Param
numbered separator n [] = record { separator = separator; value = some n } ∷ []
numbered separator n (k ∷ ks) =
    record { separator = separator; value = some n } ∷ numbered (some semicolon) k ks

abbrev is_u32 : ℕ → Bool
is_u32 n = ltb n (2 ^ 32)

pushed :
    (s : ParamScan) (n : ℕ)
    → length s.params < 32
    → s.value ≡ some n
    → push_param s
      ≡ record s { params = s.params ++ record { separator = s.separator; value = some n } ∷ [] }
unfolding push_param
pushed s n h e = ground arith

abbrev behind : ParamScan → ℕ → ParamScan
behind s n = record {
  params = s.params ++ record { separator = s.separator; value = some n } ∷ [];
  separator = some semicolon;
  value = none;
  overflowed = s.overflowed;
}

separated :
    (s : ParamScan) (n : ℕ)
    → length s.params < 32
    → n < 2 ^ 32
    → s.value ≡ none
    → (rest : Bytes) → param_loop s (decimal n ++ b';' ∷ rest) ≡ param_loop (behind s n) rest
unfolding param_loop param_byte
separated s n h m e rest =
    param_loop-append s (decimal n) (b';' ∷ rest)
    ∙ ap (λ scan. param_loop scan (b';' ∷ rest)) (param_loop-decimal n s m e)
    ∙ rw (pushed (record s { value = some n }) n h refl) refl

loop_numbers :
    (s : ParamScan) (n : ℕ) (ks : List ℕ)
    → length s.params + length ks < 32
    → all is_u32 (n ∷ ks) ≡ true
    → s.value ≡ none
    → ((push_param (param_loop s (join_params n ks))).params
        ≡ s.params ++ numbered s.separator n ks)
      × ((push_param (param_loop s (join_params n ks))).overflowed ≡ s.overflowed)
unfolding join_params numbered
loop_numbers s n [] h m e =
    rw
      (
        param_loop-decimal n s (ground arith) e,
        pushed (record s { value = some n }) n (omega arith) refl,
      )
      (refl, refl)
loop_numbers s n (k ∷ ks) h m e =
    let (params, flag) =
      loop_numbers (behind s n) k ks
        (omega
          (arith, length-append s.params (record { separator = s.separator; value = some n } ∷ [])))
        (ground arith) refl in
    rw (separated s n (omega arith) (ground arith) e (join_params k ks)) (
      params
          ∙ append_assoc s.params (record { separator = s.separator; value = some n } ∷ [])
              (numbered (some semicolon) k ks),
      flag,
    )

join_params-cons : (n : ℕ) (ks : List ℕ) → (y : ℕ) × (ys : Bytes) × (join_params n ks ≡ y ∷ ys)
unfolding join_params
join_params-cons n [] = decimal-cons n
join_params-cons n (k ∷ ks) =
    let (y, ys, e) = decimal-cons n in
    (y, ys ++ b';' ∷ join_params k ks, ap (λ d. d ++ b';' ∷ join_params k ks) e)

parse_cons :
    (bytes : Bytes) {y : ℕ} {ys : Bytes}
    → bytes ≡ y ∷ ys
    → parse_params bytes ≡ (
      (push_param (param_loop no_params bytes)).params,
      (push_param (param_loop no_params bytes)).overflowed,
    )
unfolding parse_params
parse_cons bytes e = rw e refl

-- Up to 32 numbers that fit a `u32` are read back as their values.
pub parse_params-join_params :
    (n : ℕ) (ks : List ℕ)
    → length ks < 32
    → all is_u32 (n ∷ ks) ≡ true
    → parse_params (join_params n ks) ≡ (numbered none n ks, false)
parse_params-join_params n ks h m =
    let (y, ys, e) = join_params-cons n ks in
    let (params, flag) = loop_numbers no_params n ks (omega arith) m refl in
    parse_cons (join_params n ks) e ∙ λ i. (params i, flag i)

pub all-join_params : (n : ℕ) (ks : List ℕ) → all is_param_byte (join_params n ks) ≡ true
unfolding join_params is_param_byte
all-join_params n [] = all-decimal n
all-join_params n (k ∷ ks) =
    all-append is_param_byte (decimal n) (b';' ∷ join_params k ks) (all-decimal n)
      (all-join_params k ks)

pub length-join_params :
    (n : ℕ) (ks : List ℕ)
    → all is_u32 (n ∷ ks) ≡ true
    → length (join_params n ks) ≤ 10 + 11 * length ks
unfolding join_params
length-join_params n [] m = omega (arith, length-decimal n (ground arith))
length-join_params n (k ∷ ks) m = omega (
  arith,
  length-append (decimal n) (b';' ∷ join_params k ks),
  length-decimal n (ground arith),
  length-join_params k ks (ground arith),
)

-- The token of a control sequence with these numbers.
abbrev pub numbered_token : ℕ → List ℕ → ℕ → SyntaxToken
numbered_token n ks final = SyntaxToken.csi (record {
  bytes = esc_byte ∷ b'[' ∷ join_params n ks ++ final ∷ [];
  params = record {
    private_markers = [];
    param_bytes = join_params n ks;
    params = numbered none n ks;
    params_overflowed = false;
    intermediates = [];
    final_byte = final;
  };
})

module _ (cap n : ℕ) (ks : List ℕ) (final : ℕ) (few : length ks < 32)
    (small : all is_u32 (n ∷ ks) ≡ true) (ends : is_final_byte final ≡ true)
    (no_tilde : (final == b'~') ≡ false) (fits : 10 + 11 * length ks ≤ cap) where
  numbered-IsCsi : IsCsi cap [] (join_params n ks) [] final
  unfolding is_paste_start
  numbered-IsCsi = record {
    marked = refl;
    numbered = all-join_params n ks;
    between = refl;
    ends = ends;
    fits = omega (arith, length-join_params n ks small);
    no_paste = ground arith;
  }

  numbered_params : csi_token [] (join_params n ks) [] final ≡ numbered_token n ks final
  unfolding control_params_new
  numbered_params =
      ap
        (λ parsed. SyntaxToken.csi (record {
          bytes = esc_byte ∷ b'[' ∷ join_params n ks ++ final ∷ [];
          params = record {
            private_markers = [];
            param_bytes = join_params n ks;
            params = parsed.0;
            params_overflowed = parsed.1;
            intermediates = [];
            final_byte = final;
          };
        }))
        (parse_params-join_params n ks few small)

  -- Such a sequence becomes one token with the numbers as its parameters.
  pub run_buffer-numbered_token :
      (rest : Bytes)
      → run_buffer cap (esc_byte ∷ b'[' ∷ join_params n ks ++ final ∷ [] ++ rest)
        ≡ push_tokens (numbered_token n ks final ∷ []) (run_buffer cap rest)
  run_buffer-numbered_token rest =
      run_buffer-csi_token numbered-IsCsi rest
      ∙ ap (λ t. push_tokens (t ∷ []) (run_buffer cap rest)) numbered_params
