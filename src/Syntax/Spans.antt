-- ===== src/Syntax/Spans.antt =====
-- Which input a token stands for: all of its raw bytes, and, in a string sequence past the payload
-- bound, the bytes that were counted and dropped between the kept prefix and the terminator.
use qwertty.Prelude.{
  ℕ, ◌+◌, ◌≡◌, refl, sym, ap, ◌∙◌, subst, List, [], ◌∷◌, ◌++◌, append-nil, append_assoc, arith,
  Bytes, length, length-append, map, concat,
}
use qwertty.Syntax.Token.{SyntaxToken, as_bytes, dropped_of}

pub record Spans (token : SyntaxToken) (input : Bytes) : Type 0 where
  pub kept : Bytes
  pub lost : Bytes
  pub close : Bytes
  pub input_eq : input ≡ kept ++ (lost ++ close)
  pub bytes_eq : as_bytes token ≡ kept ++ close
  pub lost_length : length lost ≡ dropped_of token

-- The tokens stand for consecutive pieces that make up the input.
abbrev pub Covers : List SyntaxToken → Bytes → Type 0
Covers [] input = input ≡ []
Covers (token ∷ tokens) input =
    (first rest : Bytes) × (input ≡ first ++ rest) × Spans token first × Covers tokens rest

-- A token without dropped bytes stands for its raw bytes.
pub Spans-whole : (token : SyntaxToken) → dropped_of token ≡ 0 → Spans token (as_bytes token)
Spans-whole token h = record {
  kept = as_bytes token;
  lost = [];
  close = [];
  input_eq = sym (append-nil (as_bytes token));
  bytes_eq = sym (append-nil (as_bytes token));
  lost_length = sym h;
}

pub Covers-append :
    (ts us : List SyntaxToken) (a b : Bytes)
    → Covers ts a
    → Covers us b
    → Covers (ts ++ us) (a ++ b)
Covers-append [] us a b h k = subst (λ x. Covers us (x ++ b)) (sym h) k
Covers-append (t ∷ ts) us a b (first, rest, e, s, h) k =
    (first, rest ++ b, rw e (append_assoc first rest b), s, Covers-append ts us rest b h k)

pub Covers-one :
    (token : SyntaxToken) (input : Bytes) → Spans token input → Covers (token ∷ []) input
Covers-one token input s = (input, [], sym (append-nil input), s, refl)

-- The raw bytes of the tokens, and the bytes that they record as dropped.
abbrev pub bytes_of : List SyntaxToken → Bytes
bytes_of ts = concat (map as_bytes ts)

abbrev pub dropped_total : List SyntaxToken → ℕ
dropped_total [] = 0
dropped_total (t ∷ ts) = dropped_of t + dropped_total ts

nil_of_length : (xs : Bytes) → length xs ≡ 0 → xs ≡ []
nil_of_length [] h = refl
nil_of_length (x ∷ xs) h = absurd (omega arith)

-- With nothing dropped the tokens' bytes are the input.
pub Covers-exact :
    (ts : List SyntaxToken) (input : Bytes)
    → Covers ts input
    → dropped_total ts ≡ 0
    → bytes_of ts ≡ input
Covers-exact [] input h z = sym h
Covers-exact (t ∷ ts) input (first, rest, e, s, h) z =
    let none_lost = nil_of_length s.lost (omega (arith, s.lost_length)) in
    let whole : first ≡ as_bytes t = s.input_eq ∙ rw none_lost (sym s.bytes_eq) in
    rw (e, whole, Covers-exact ts rest h (omega arith))

-- Every input byte is in some token's bytes or counted as dropped.
pub Covers-length :
    (ts : List SyntaxToken) (input : Bytes)
    → Covers ts input
    → length (bytes_of ts) + dropped_total ts ≡ length input
Covers-length [] input h = rw h (omega arith)
Covers-length (t ∷ ts) input (first, rest, e, s, h) = omega (
  arith,
  Covers-length ts rest h,
  ap length e,
  ap length s.input_eq,
  ap length s.bytes_eq,
  s.lost_length,
  length-append first rest,
  length-append s.kept (s.lost ++ s.close),
  length-append s.lost s.close,
  length-append s.kept s.close,
  length-append (as_bytes t) (bytes_of ts),
)
