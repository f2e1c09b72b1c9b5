-- ===== src/Syntax/Paste/Next.antt =====
-- Parsing resumes within the bytes of the chunk.
use qwertty.Prelude.{ℕ, ◌≤◌, List, [], ◌∷◌, arith, Bytes, length}
use qwertty.Syntax.Paste.{
  PasteAccum, PasteOutcome, exhausted, done, PasteRound, closes, goes_on, paste_round, push_before,
  consume_paste,
}
use qwertty.Syntax.Token.{SyntaxToken}

-- The number of bytes that parsing resumes with.
abbrev pub next_length : List SyntaxToken × PasteOutcome → ℕ
next_length (ts, exhausted a) = 0
next_length (ts, done next) = length next

push_before-next_length :
    (ts : List SyntaxToken) (r : List SyntaxToken × PasteOutcome) (n : ℕ)
    → next_length r ≤ n
    → next_length (push_before ts r) ≤ n
push_before-next_length ts (us, exhausted a) n h = h
push_before-next_length ts (us, done next) n h = h

pub consume_paste-next_length :
    (limit : ℕ) (a : PasteAccum) (bytes : Bytes)
    → next_length (consume_paste limit a bytes) ≤ length bytes
unfolding consume_paste
consume_paste-next_length limit a [] = omega arith
consume_paste-next_length limit a (byte ∷ rest) =
    go (paste_round limit a byte) (λ a'. consume_paste-next_length limit a' rest)
  where
    go :
        (r : PasteRound)
        → ((a' : PasteAccum) → next_length (consume_paste limit a' rest) ≤ length rest)
        → next_length (elim r [
          | closes token ↦ (token ∷ [], done rest)
          | goes_on tokens a' ↦ push_before tokens (consume_paste limit a' rest)
        ])
          ≤ length (byte ∷ rest)
    go (closes token) ih = omega arith
    go (goes_on tokens a') ih =
        push_before-next_length tokens (consume_paste limit a' rest) _ (omega (arith, ih a'))
