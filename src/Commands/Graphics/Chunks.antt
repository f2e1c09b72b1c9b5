-- ===== src/Commands/Graphics/Chunks.antt =====
-- The chunks of an image (src/commands/graphics/kitty.rs) make up its payload.
use qwertty.Commands.{apc}
use qwertty.Commands.Graphics.{chunk_body, chunk_commands}
use qwertty.Commands.Payloads.{is_payload_byte, framed, apc_token, run_buffer-apc_token}
use qwertty.Prelude.{length-append, sym, ◌+◌, Bool, false, List, all-append, append_assoc, codes}
use qwertty.Syntax.Parser.{push_tokens, run_buffer}
use qwertty.Syntax.Parser.Fuel.{push_tokens_nil, push_tokens_twice}
use qwertty.Syntax.Token.{SyntaxToken}
use qwertty.Commands.Graphics.{chunks_of}
use qwertty.Prelude.{
  ℕ, zero, suc, ◌≤◌, ◌≡◌, refl, ap, ◌∙◌, true, [], ◌∷◌, ◌++◌, Bytes, all, length, length-take,
  length-drop, take-append-drop, take, drop, concat, leb, arith,
}

-- In order they join to the payload, and none is longer than the limit.
pub chunks_of_lem :
    (fuel n : ℕ) (payload : Bytes)
    → length payload ≤ fuel
    → 1 ≤ n
    → (concat (chunks_of fuel n payload) ≡ payload)
      × (all (λ chunk. leb (length chunk) n) (chunks_of fuel n payload) ≡ true)
unfolding chunks_of
chunks_of_lem zero n [] h k = (refl, refl)
chunks_of_lem zero n (byte ∷ payload) h k = absurd (omega arith)
chunks_of_lem (suc fuel) n [] h k = (refl, refl)
chunks_of_lem (suc fuel) n (byte ∷ payload) h k =
    let (joined, short) =
      chunks_of_lem fuel n (drop n (byte ∷ payload)) (omega (arith, length-drop n (byte ∷ payload)))
        k in
    (
      ap (λ rest. take n (byte ∷ payload) ++ rest) joined ∙ take-append-drop n (byte ∷ payload),
      ground (arith, length-take n (byte ∷ payload), short),
    )

-- One token for each chunk.
unfoldable pub chunk_tokens : Bytes → Bool → List Bytes → List SyntaxToken
chunk_tokens control first [] = []
chunk_tokens control first (chunk ∷ []) = apc_token (chunk_body control first false chunk) ∷ []
chunk_tokens control first (chunk ∷ next ∷ chunks) =
    apc_token (chunk_body control first true chunk) ∷ chunk_tokens control false (next ∷ chunks)

body_clean :
    (control : Bytes) (first more : Bool) (chunk : Bytes)
    → all is_payload_byte control ≡ true
    → all is_payload_byte chunk ≡ true
    → all is_payload_byte (chunk_body control first more chunk) ≡ true
unfolding chunk_body is_payload_byte
body_clean control true true chunk h k =
    all-append is_payload_byte (control ++ b',' ∷ [] ++ codes "m=1") (b';' ∷ chunk)
      (all-append is_payload_byte (control ++ b',' ∷ []) (codes "m=1")
        (all-append is_payload_byte control (b',' ∷ []) h refl) refl)
      k
body_clean control true false chunk h k =
    all-append is_payload_byte (control ++ b',' ∷ [] ++ codes "m=0") (b';' ∷ chunk)
      (all-append is_payload_byte (control ++ b',' ∷ []) (codes "m=0")
        (all-append is_payload_byte control (b',' ∷ []) h refl) refl)
      k
body_clean control false true chunk h k = k
body_clean control false false chunk h k = k

body_fits :
    (control : Bytes) (first more : Bool) (chunk : Bytes)
    → length (chunk_body control first more chunk) ≤ length control + length chunk + 6
unfolding chunk_body
body_fits control true true chunk = omega (
  arith,
  length-append (control ++ b',' ∷ [] ++ codes "m=1") (b';' ∷ chunk),
  length-append (control ++ b',' ∷ []) (codes "m=1"),
  length-append control (b',' ∷ []),
)
body_fits control true false chunk = omega (
  arith,
  length-append (control ++ b',' ∷ [] ++ codes "m=0") (b';' ∷ chunk),
  length-append (control ++ b',' ∷ []) (codes "m=0"),
  length-append control (b',' ∷ []),
)
body_fits control false true chunk = omega arith
body_fits control false false chunk = omega arith

-- The sequences of the chunks become those tokens, and parsing goes on behind them.
pub run_buffer-chunk_tokens :
    (limit : ℕ) (control : Bytes) (first : Bool) (chunks : List Bytes) (rest : Bytes)
    → all is_payload_byte control ≡ true
    → length control + 4102 ≤ limit
    → all (λ chunk. all is_payload_byte chunk) chunks ≡ true
    → all (λ chunk. leb (length chunk) 4096) chunks ≡ true
    → run_buffer limit (chunk_commands control first chunks ++ rest)
      ≡ push_tokens (chunk_tokens control first chunks) (run_buffer limit rest)
unfolding chunk_commands chunk_tokens apc
run_buffer-chunk_tokens limit control first [] rest c l h k =
    sym (push_tokens_nil (run_buffer limit rest))
run_buffer-chunk_tokens limit control first (chunk ∷ []) rest c l h k =
    run_buffer-apc_token limit (chunk_body control first false chunk) rest
      (body_clean control first false chunk c (ground arith))
      (ground (arith, body_fits control first false chunk))
run_buffer-chunk_tokens limit control first (chunk ∷ next ∷ chunks) rest c l h k =
    ap (run_buffer limit) (
      append_assoc (framed b'_' (chunk_body control first true chunk))
        (chunk_commands control false (next ∷ chunks)) rest)
    ∙ run_buffer-apc_token limit (chunk_body control first true chunk)
        (chunk_commands control false (next ∷ chunks) ++ rest)
        (body_clean control first true chunk c (ground arith))
        (ground (arith, body_fits control first true chunk))
    ∙ ap (push_tokens (apc_token (chunk_body control first true chunk) ∷ [])) (
        run_buffer-chunk_tokens limit control false (next ∷ chunks) rest c l (ground arith)
          (ground arith))
    ∙ push_tokens_twice (apc_token (chunk_body control first true chunk) ∷ [])
        (chunk_tokens control false (next ∷ chunks)) (run_buffer limit rest)
