-- ===== src/Syntax/Paste/Split.antt =====
-- Consuming a paste in two chunks is the same as consuming the chunks joined.
use qwertty.Prelude.{ℕ, ◌≡◌, refl, sym, ap, List, [], ◌∷◌, ◌++◌, append_assoc, Bytes}
use qwertty.Syntax.Paste.{
  PasteAccum, PasteOutcome, exhausted, done, PasteRound, closes, goes_on, paste_round, push_before,
  consume_paste,
}
use qwertty.Syntax.Token.{SyntaxToken}

module _ (limit : ℕ) (more : Bytes) where
  -- How the outcome of one chunk goes on with the next chunk.
  abbrev pub continue : List SyntaxToken × PasteOutcome → List SyntaxToken × PasteOutcome
  continue (ts, exhausted a) = push_before ts (consume_paste limit a more)
  continue (ts, done next) = (ts, done (next ++ more))

  push_before_twice :
      (ts us : List SyntaxToken) (r : List SyntaxToken × PasteOutcome)
      → push_before ts (push_before us r) ≡ push_before (ts ++ us) r
  push_before_twice ts us (vs, outcome) = ap (λ l. (l, outcome)) (sym (append_assoc ts us vs))

  continue-push_before :
      (ts : List SyntaxToken) (r : List SyntaxToken × PasteOutcome)
      → push_before ts (continue r) ≡ continue (push_before ts r)
  continue-push_before ts (us, exhausted a) = push_before_twice ts us (consume_paste limit a more)
  continue-push_before ts (us, done next) = refl

  pub consume_paste-append :
      (a : PasteAccum) (bytes : Bytes)
      → consume_paste limit a (bytes ++ more) ≡ continue (consume_paste limit a bytes)
  unfolding consume_paste
  consume_paste-append a [] = refl
  consume_paste-append a (byte ∷ rest) =
      go (paste_round limit a byte) (λ a'. consume_paste-append a' rest)
    where
      go :
          (r : PasteRound)
          → ((a' : PasteAccum)
              → consume_paste limit a' (rest ++ more) ≡ continue (consume_paste limit a' rest))
          → (elim r [
            | closes token ↦ (token ∷ [], done (rest ++ more))
            | goes_on tokens a' ↦ push_before tokens (consume_paste limit a' (rest ++ more))
          ])
            ≡ continue (elim r [
              | closes token ↦ (token ∷ [], done rest)
              | goes_on tokens a' ↦ push_before tokens (consume_paste limit a' rest)
            ])
      go (closes token) ih = refl
      go (goes_on tokens a') ih =
          rw (ih a') (continue-push_before tokens (consume_paste limit a' rest))
