-- ===== src/Commands/Graphics/Images.antt =====
-- Image commands read back (src/commands/graphics/kitty.rs): the tokens of the chunks carry the data.
use qwertty.Commands.{encode, apc}
use qwertty.Commands.Graphics.{chunks_of, chunk_body, graphics_command}
use qwertty.Commands.Graphics.Chunks.{chunks_of_lem, chunk_tokens, run_buffer-chunk_tokens}
use qwertty.Commands.Payloads.{is_payload_byte, apc_token, run_buffer-apc_token}
use qwertty.Prelude.{
  ℕ, zero, suc, ◌+◌, ◌≤◌, ◌≡◌, refl, ap, ◌∙◌, Bool, true, false, not, Option, none, some, List, [],
  ◌∷◌, ◌++◌, append-nil, map, concat, Bytes, all, all-append, all-take, all-drop, length,
  length-append, drop, leb, ◌==◌, codes, arith, Bool-cases, inl, inr, le_refl,
}
use qwertty.Report.Numbers.{split_once}
use qwertty.Syntax.Parser.{push_tokens, run_buffer}
use qwertty.Syntax.Token.{SyntaxToken}

abbrev behind : Option (Bytes × Bytes) → Bytes
behind none = []
behind (some (keys, found)) = found

-- The data of an image token: what stands behind the first semicolon of its payload.
unfoldable pub data_of : SyntaxToken → Bytes
data_of (SyntaxToken.apc s) = behind (split_once b';' s.payload)
data_of token = []

-- No key of a control string holds a semicolon.
unfoldable pub lacks_semicolon : Bytes → Bool
lacks_semicolon bytes = all (λ byte. not (byte == b';')) bytes

split_once-keys :
    (keys found : Bytes)
    → lacks_semicolon keys ≡ true
    → split_once b';' (keys ++ b';' ∷ found) ≡ some (keys, found)
unfolding split_once lacks_semicolon
split_once-keys [] found h = refl
split_once-keys (byte ∷ keys) found h = ground (arith, split_once-keys keys found)

data_of-keys :
    (keys found : Bytes)
    → lacks_semicolon keys ≡ true
    → data_of (apc_token (keys ++ b';' ∷ found)) ≡ found
unfolding data_of
data_of-keys keys found h = ap behind (split_once-keys keys found h)

keys_lack :
    (control mark : Bytes)
    → lacks_semicolon control ≡ true
    → lacks_semicolon mark ≡ true
    → lacks_semicolon ((b'G' ∷ (control ++ b',' ∷ [])) ++ mark) ≡ true
unfolding lacks_semicolon
keys_lack control mark h k =
    all-append (λ byte. not (byte == b';')) (control ++ b',' ∷ []) mark
      (all-append (λ byte. not (byte == b';')) control (b',' ∷ []) h refl) k

data_of-body :
    (control : Bytes) (first more : Bool) (chunk : Bytes)
    → lacks_semicolon control ≡ true
    → data_of (apc_token (chunk_body control first more chunk)) ≡ chunk
unfolding chunk_body lacks_semicolon
data_of-body control true true chunk h =
    data_of-keys ((b'G' ∷ (control ++ b',' ∷ [])) ++ codes "m=1") chunk
      (keys_lack control (codes "m=1") h refl)
data_of-body control true false chunk h =
    data_of-keys ((b'G' ∷ (control ++ b',' ∷ [])) ++ codes "m=0") chunk
      (keys_lack control (codes "m=0") h refl)
data_of-body control false true chunk h = data_of-keys (codes "Gm=1") chunk refl
data_of-body control false false chunk h = data_of-keys (codes "Gm=0") chunk refl

data_of-chunk_tokens :
    (control : Bytes) (first : Bool) (chunks : List Bytes)
    → lacks_semicolon control ≡ true
    → concat (map data_of (chunk_tokens control first chunks)) ≡ concat chunks
unfolding chunk_tokens
data_of-chunk_tokens control first [] h = refl
data_of-chunk_tokens control first (chunk ∷ []) h =
    ap (λ found. found ++ []) (data_of-body control first false chunk h)
data_of-chunk_tokens control first (chunk ∷ next ∷ chunks) h =
    ap (λ found. found ++ concat (map data_of (chunk_tokens control false (next ∷ chunks))))
      (data_of-body control first true chunk h)
    ∙ ap (λ rest. chunk ++ rest) (data_of-chunk_tokens control false (next ∷ chunks) h)

all-chunks_of :
    (p : ℕ → Bool) (fuel n : ℕ) (payload : Bytes)
    → all p payload ≡ true
    → all (λ chunk. all p chunk) (chunks_of fuel n payload) ≡ true
unfolding chunks_of
all-chunks_of p zero n payload h = refl
all-chunks_of p (suc fuel) n [] h = refl
all-chunks_of p (suc fuel) n (byte ∷ payload) h =
    rw (all-take p n (byte ∷ payload) h)
      (all-chunks_of p fuel n (drop n (byte ∷ payload)) (all-drop p n (byte ∷ payload) h))

-- An image command becomes tokens whose data, joined, is the payload, whether it is cut into chunks
-- or not, and parsing goes on behind it.
pub data_of-graphics_command :
    (limit : ℕ) (control payload : Bytes)
    → all is_payload_byte control ≡ true
    → lacks_semicolon control ≡ true
    → all is_payload_byte payload ≡ true
    → length control + 4102 ≤ limit
    → (rest : Bytes)
    → (tokens : List SyntaxToken) × (run_buffer limit
          (encode (graphics_command control payload) [] ++ rest)
        ≡ push_tokens tokens (run_buffer limit rest))
      × (concat (map data_of tokens) ≡ payload)
unfolding graphics_command apc is_payload_byte lacks_semicolon
data_of-graphics_command limit control payload c l d room rest =
    elim (Bool-cases (leb (length payload) 4096)) [
      | inl short ↦
          let body = b'G' ∷ control ++ b';' ∷ payload in
          (
            apc_token body ∷ [],
            rw short (
                run_buffer-apc_token limit body rest
                  (all-append is_payload_byte (b'G' ∷ control) (b';' ∷ payload) c d)
                  (ground (arith, length-append (b'G' ∷ control) (b';' ∷ payload)))),
            append-nil (data_of (apc_token body)) ∙ data_of-keys (b'G' ∷ control) payload l,
          )
      | inr long ↦
          let chunks = chunks_of (length payload) 4096 payload in
          let (joined, sizes) =
            chunks_of_lem (length payload) 4096 payload (le_refl (length payload)) (omega arith) in
          (
            chunk_tokens control true chunks,
            rw long (
                run_buffer-chunk_tokens limit control true chunks rest c room
                  (all-chunks_of is_payload_byte (length payload) 4096 payload d) sizes),
            data_of-chunk_tokens control true chunks l ∙ joined,
          )
    ]
