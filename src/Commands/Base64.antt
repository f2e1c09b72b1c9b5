-- ===== src/Commands/Base64.antt =====
-- Base64 and the clipboard command (src/commands/osc.rs) against a decoder of RFC 4648.
use qwertty.Prelude.{
  ℕ, ◌+◌, ◌-◌, ◌*◌, ◌/◌, ◌%◌, ◌≤◌, ◌<◌, ◌≡◌, refl, true, false, Option, none, some, [], ◌∷◌, ◌++◌,
  Bytes, all, length, ltb, ◌==◌, if◌then◌else◌, arith, codes, ◌>>=◌, Bool-cases, inl, inr,
}
use qwertty.Commands.{encode, osc}
use qwertty.Commands.Osc.{
  base64_char, base64_three, encode_base64, set_clipboard, ClipboardSelection, clipboard, primary,
  selection_target,
}
use qwertty.Commands.Payloads.{is_payload_byte, osc_token, run_buffer-osc_token}
use qwertty.Syntax.Classes.{within}
use qwertty.Syntax.Parser.{push_tokens, run_buffer}

-- The value of a letter of the alphabet.
unfoldable pub base64_value : ℕ → Option ℕ
base64_value c =
    if within b'A' b'Z' c
    then some (c - b'A')
    else if within b'a' b'z' c
    then some (c - b'a' + 26)
    else if within b'0' b'9' c
    then some (c - b'0' + 52)
    else if c == b'+'
    then some 62
    else if c == b'/'
    then some 63
    else none

-- The bytes of a group whose first two letters are read; the last two may be padding.
abbrev decode_tail : ℕ → ℕ → ℕ → ℕ → Option Bytes
decode_tail n0 n1 c d =
    let first = n0 * 4 + n1 / 16 in
    if c == b'='
    then some (first ∷ [])
    else (base64_value c >>= λ n2.
        let second = n1 % 16 * 16 + n2 / 4 in
        if d == b'='
        then some (first ∷ second ∷ [])
        else (base64_value d >>= λ n3. some (first ∷ second ∷ (n2 % 4 * 64 + n3) ∷ [])))

unfoldable pub decode_four : ℕ → ℕ → ℕ → ℕ → Option Bytes
decode_four a b c d = do n0 ← base64_value a; n1 ← base64_value b; decode_tail n0 n1 c d

unfoldable pub decode_base64 : Bytes → Option Bytes
decode_base64 [] = some []
decode_base64 (a ∷ b ∷ c ∷ d ∷ letters) = do
  rest ← decode_base64 letters
  group ← decode_four a b c d
  some (group ++ rest)
decode_base64 letters = none

value-base64_char : (n : ℕ) → n < 64 → base64_value (base64_char n) ≡ some n
unfolding base64_value base64_char
value-base64_char n h = ground arith

no_padding : (n : ℕ) → n < 64 → (base64_char n == b'=') ≡ false
unfolding base64_char
no_padding n h = ground arith

three_bytes :
    (b0 b1 b2 : ℕ)
    → b0 < 256
    → b1 < 256
    → b2 < 256
    → decode_four
        (base64_char (b0 / 4))
        (base64_char (b0 % 4 * 16 + b1 / 16))
        (base64_char (b1 % 16 * 4 + b2 / 64))
        (base64_char (b2 % 64))
      ≡ some (b0 ∷ b1 ∷ b2 ∷ [])
unfolding decode_four
three_bytes b0 b1 b2 h0 h1 h2 =
    rw
      (
        value-base64_char (b0 / 4) (omega arith),
        value-base64_char (b0 % 4 * 16 + b1 / 16) (omega arith),
        no_padding (b1 % 16 * 4 + b2 / 64) (omega arith),
        value-base64_char (b1 % 16 * 4 + b2 / 64) (omega arith),
        no_padding (b2 % 64) (omega arith),
        value-base64_char (b2 % 64) (omega arith),
      )
      (ground arith)

one_byte :
    (b0 : ℕ)
    → b0 < 256
    → decode_four (base64_char (b0 / 4)) (base64_char (b0 % 4 * 16)) b'=' b'=' ≡ some (b0 ∷ [])
unfolding decode_four
one_byte b0 h0 =
    rw (value-base64_char (b0 / 4) (omega arith), value-base64_char (b0 % 4 * 16) (omega arith))
      (ground arith)

two_bytes :
    (b0 b1 : ℕ)
    → b0 < 256
    → b1 < 256
    → decode_four
        (base64_char (b0 / 4))
        (base64_char (b0 % 4 * 16 + b1 / 16))
        (base64_char (b1 % 16 * 4))
        b'='
      ≡ some (b0 ∷ b1 ∷ [])
unfolding decode_four
two_bytes b0 b1 h0 h1 =
    rw
      (
        value-base64_char (b0 / 4) (omega arith),
        value-base64_char (b0 % 4 * 16 + b1 / 16) (omega arith),
        no_padding (b1 % 16 * 4) (omega arith),
        value-base64_char (b1 % 16 * 4) (omega arith),
      )
      (ground arith)

-- Decoding the encoded bytes gives them back.
pub decode_base64-encode_base64 :
    (bytes : Bytes)
    → all (λ b. ltb b 256) bytes ≡ true
    → decode_base64 (encode_base64 bytes) ≡ some bytes
unfolding decode_base64 encode_base64 base64_three
decode_base64-encode_base64 [] h = refl
decode_base64-encode_base64 (b0 ∷ []) h = rw (one_byte b0 (ground arith)) refl
decode_base64-encode_base64 (b0 ∷ b1 ∷ []) h =
    rw (two_bytes b0 b1 (ground arith) (ground arith)) refl
decode_base64-encode_base64 (b0 ∷ b1 ∷ b2 ∷ bytes) h =
    rw
      (
        decode_base64-encode_base64 bytes (ground arith),
        three_bytes b0 b1 b2 (ground arith) (ground arith) (ground arith),
      )
      refl

letter_payload : (n : ℕ) → n < 64 → is_payload_byte (base64_char n) ≡ true
unfolding is_payload_byte base64_char
letter_payload n h = ground arith

all-encode_base64 :
    (bytes : Bytes)
    → all (λ b. ltb b 256) bytes ≡ true
    → all is_payload_byte (encode_base64 bytes) ≡ true
unfolding encode_base64 base64_three is_payload_byte
all-encode_base64 [] h = refl
all-encode_base64 (b0 ∷ []) h =
    rw (letter_payload (b0 / 4) (ground arith), letter_payload (b0 % 4 * 16) (omega arith)) refl
all-encode_base64 (b0 ∷ b1 ∷ []) h =
    rw
      (
        letter_payload (b0 / 4) (ground arith),
        letter_payload (b0 % 4 * 16 + b1 / 16) (ground arith),
        letter_payload (b1 % 16 * 4) (omega arith),
      )
      refl
all-encode_base64 (b0 ∷ b1 ∷ b2 ∷ bytes) h =
    rw
      (
        letter_payload (b0 / 4) (ground arith),
        letter_payload (b0 % 4 * 16 + b1 / 16) (ground arith),
        letter_payload (b1 % 16 * 4 + b2 / 64) (ground arith),
        letter_payload (b2 % 64) (omega arith),
      )
      (all-encode_base64 bytes (ground arith))

-- The length of the encoded bytes.
pub length-encode_base64 :
    (bytes : Bytes) → length (encode_base64 bytes) ≡ (length bytes + 2) / 3 * 4
unfolding encode_base64 base64_three
length-encode_base64 [] = refl
length-encode_base64 (b0 ∷ []) = refl
length-encode_base64 (b0 ∷ b1 ∷ []) = refl
length-encode_base64 (b0 ∷ b1 ∷ b2 ∷ bytes) = omega (arith, length-encode_base64 bytes)

abbrev pub clipboard_payload : ClipboardSelection → Bytes → Bytes
clipboard_payload selection bytes =
    codes "52;" ++ selection_target selection ∷ b';' ∷ encode_base64 bytes

payload_clean :
    (selection : ClipboardSelection) (bytes : Bytes)
    → all (λ b. ltb b 256) bytes ≡ true
    → all is_payload_byte (clipboard_payload selection bytes) ≡ true
unfolding selection_target is_payload_byte
payload_clean clipboard bytes h = all-encode_base64 bytes h
payload_clean primary bytes h = all-encode_base64 bytes h

payload_fits :
    (limit : ℕ) (selection : ClipboardSelection) (bytes : Bytes)
    → 5 + (length bytes + 2) / 3 * 4 ≤ limit
    → length (clipboard_payload selection bytes) ≤ limit
payload_fits limit selection bytes h = omega (arith, length-encode_base64 bytes)

-- Setting the clipboard writes nothing when there are too many bytes, and else one OSC token.
pub run_buffer-set_clipboard :
    (limit : ℕ) (selection : ClipboardSelection) (bytes : Bytes)
    → all (λ b. ltb b 256) bytes ≡ true
    → 5 + (length bytes + 2) / 3 * 4 ≤ limit
    → (rest : Bytes)
    → run_buffer limit (encode (set_clipboard selection bytes) [] ++ rest) ≡ (
        if ltb 100000 (length bytes)
        then run_buffer limit rest
        else push_tokens
            (osc_token (clipboard_payload selection bytes) ∷ [])
            (run_buffer limit rest))
unfolding set_clipboard osc
run_buffer-set_clipboard limit selection bytes h room rest =
    elim (Bool-cases (ltb 100000 (length bytes))) [
      | inl many ↦ rw many refl
      | inr few ↦ rw few (
          run_buffer-osc_token limit (clipboard_payload selection bytes) rest
            (payload_clean selection bytes h) (payload_fits limit selection bytes room))
    ]
