-- ===== src/Syntax/Parser/Session.antt =====
-- A whole run of the tokenizer: a new parser is fed the chunks of the input in turn, and then
-- flushed. What it returns accounts for the input, and what it holds back on the way is bounded.
use qwertty.Prelude.{
  length, ◌+◌, ℕ, ◌≡◌, refl, sym, ◌∙◌, subst, Option, none, some, List, [], ◌∷◌, ◌++◌, append-nil,
  append_assoc, arith, Bytes, concat, Bool, true, false, if◌then◌else◌,
}
use qwertty.Syntax.Classes.{esc_byte}
use qwertty.Syntax.Parser.Accounts.{Holds, FedAccounts, feed_state-FedAccounts}
use qwertty.Syntax.Parser.{
  State, partial, in_string, in_paste, SyntaxParser, with_payload_limit, feed, feed_state, finish,
  finish_state, finish_pending, Fed, store_state, store_state,
}
use qwertty.Syntax.Paste
use qwertty.Syntax.Spans.{
  Spans-whole, Covers, Covers-append, Covers-one, Covers-exact, Covers-length, bytes_of,
  dropped_total,
}
use qwertty.Syntax.Strings
use qwertty.Syntax.Strings.{StringAccum, push_payload_byte, emit_string_token}
use qwertty.Syntax.Token.{unterminated, SyntaxToken, as_bytes, dropped_of}

abbrev pub Calls : Type 0
Calls = Option (SyntaxParser × List SyntaxToken)

-- Tokens of an earlier call in front of a call's.
abbrev pub prepend : List SyntaxToken → Calls → Calls
prepend ts none = none
prepend ts (some (p, us)) = some (p, ts ++ us)

-- A call on the parser that the calls before leave.
abbrev pub then_call : Calls → (SyntaxParser → Calls) → Calls
then_call none k = none
then_call (some (p, ts)) k = prepend ts (k p)

-- Calls of `feed`, one for each chunk, with their tokens collected.
unfoldable pub feed_all : SyntaxParser → List Bytes → Calls
feed_all p [] = some (p, [])
feed_all p (chunk ∷ chunks) = then_call (feed p chunk) (λ q. feed_all q chunks)

-- The tokens of the calls, and those that `finish` flushes.
abbrev pub flush : Calls → Option (List SyntaxToken)
flush none = none
flush (some (p, ts)) = some (ts ++ (finish p).1)

-- The tokens of a whole run.
unfoldable pub session : ℕ → List Bytes → Option (List SyntaxToken)
session limit chunks = flush (feed_all (with_payload_limit limit) chunks)

finish_pending-bytes : (pending : Bytes) → as_bytes (finish_pending pending) ≡ pending
unfolding finish_pending
finish_pending-bytes [] = refl
finish_pending-bytes (first ∷ rest) = ground arith

finish_pending-dropped : (pending : Bytes) → dropped_of (finish_pending pending) ≡ 0
unfolding finish_pending
finish_pending-dropped [] = refl
finish_pending-dropped (first ∷ rest) = ground arith

module _ (limit : ℕ) where
  finish_string-Covers :
      (a : StringAccum) (input : Bytes)
      → Strings.Accounts.Stands limit a a.esc_held input
      → Covers (finish_state limit (in_string a)) input
  unfolding finish_state
  finish_string-Covers a input st = go a.esc_held st
    where
      go :
          (b : Bool)
          → Strings.Accounts.Stands limit a b input
          → Covers
              (emit_string_token (if b then push_payload_byte a esc_byte limit else a) unterminated
                ∷ [])
              input
      go true h =
          let (s, e, h') = Strings.Loop.before_held limit a input h in
          let pushed = Strings.Accounts.push_payload_byte-Stands limit a esc_byte s h' in
          Covers-one _ input (
            rw (e, ← append-nil (s ++ esc_byte ∷ []))
              (Strings.Accounts.emit_string_token-Spans limit _ unterminated (s ++ esc_byte ∷ [])
                pushed))
      go false h =
          Covers-one _ input (
            rw append-nil at
              (Strings.Accounts.emit_string_token-Spans limit a unterminated input h))

  finish_state-Covers :
      (s : State) (input : Bytes) → Holds limit s input → Covers (finish_state limit s) input
  unfolding finish_state
  finish_state-Covers State.ground input h = h
  finish_state-Covers (partial pending) input h = Covers-one _ input (
      rw (h.0 ∙ sym (finish_pending-bytes pending))
        (Spans-whole _ (finish_pending-dropped pending)))
  finish_state-Covers (in_string a) input h = finish_string-Covers a input h.0
  finish_state-Covers (in_paste a) input h =
      Covers-one _ input (Paste.Loop.flush_pending_match-Spans a input h.0)

module _ (limit : ℕ) where
  -- What the calls so far have returned and hold back.
  abbrev pub SoFar : Bytes → Calls → Type 0
  SoFar input none = ⊥
  SoFar input (some (p, ts)) =
      (x y : Bytes) × (input ≡ x ++ y)
      × Covers ts x
      × Holds p.payload_limit p.state y
      × (p.payload_limit ≡ limit)

  feed-SoFar :
      (p : SyntaxParser) (input bytes : Bytes)
      → Holds p.payload_limit p.state input
      → p.payload_limit ≡ limit
      → SoFar (input ++ bytes) (feed p bytes)
  unfolding feed
  feed-SoFar p input bytes h e =
      go (feed_state p.payload_limit p.state bytes)
        (feed_state-FedAccounts p.payload_limit p.state bytes input h)
    where
      go :
          (r : Fed)
          → FedAccounts p.payload_limit (input ++ bytes) r
          → SoFar (input ++ bytes) (store_state p r)
      go none k = k
      go (some (s, ts)) (x, y, f, c, k) = (x, y, f, c, k, e)

  push-SoFar :
      (ts : List SyntaxToken) (x input : Bytes) (r : Calls)
      → Covers ts x
      → SoFar input r
      → SoFar (x ++ input) (prepend ts r)
  push-SoFar ts x input none c h = h
  push-SoFar ts x input (some (q, us)) c (x', y, e, c', h, l) =
      (x ++ x', y, rw e (sym (append_assoc x x' y)), Covers-append ts us x x' c c', h, l)

  feed_all-SoFar :
      (p : SyntaxParser) (chunks : List Bytes) (input : Bytes)
      → Holds p.payload_limit p.state input
      → p.payload_limit ≡ limit
      → SoFar (input ++ concat chunks) (feed_all p chunks)
  unfolding feed_all
  feed_all-SoFar p [] input h e = ([], input, append-nil input, refl, h, e)
  feed_all-SoFar p (chunk ∷ chunks) input h e =
      rw (← append_assoc input chunk (concat chunks))
        (go (feed p chunk) (feed-SoFar p input chunk h e) (λ q y. feed_all-SoFar q chunks y))
    where
      go :
          (r : Calls)
          → SoFar (input ++ chunk) r
          → ((q : SyntaxParser) (y : Bytes)
              → Holds q.payload_limit q.state y
              → q.payload_limit ≡ limit
              → SoFar (y ++ concat chunks) (feed_all q chunks))
          → SoFar ((input ++ chunk) ++ concat chunks) (then_call r (λ q. feed_all q chunks))
      go none k next = k
      go (some (q, ts)) (x, y, f, c, k, l) next =
          rw (f, append_assoc)
            (push-SoFar ts x (y ++ concat chunks) (feed_all q chunks) c (next q y k l))

  pub feed_all_new :
      (chunks : List Bytes) → SoFar (concat chunks) (feed_all (with_payload_limit limit) chunks)
  feed_all_new chunks = feed_all-SoFar (with_payload_limit limit) chunks [] refl refl

  -- A whole run ends with a result, and its tokens stand for the input: each for a piece of it, in
  -- order, with nothing between the pieces. A piece is the token's raw bytes, but for the bytes of
  -- an over-long string that its token counts as dropped.
  pub session-Covers :
      (chunks : List Bytes)
      → (ts : List SyntaxToken) × (session limit chunks ≡ some ts) × Covers ts (concat chunks)
  unfolding session finish
  session-Covers chunks = go (feed_all (with_payload_limit limit) chunks) (feed_all_new chunks)
    where
      go :
          (r : Calls)
          → SoFar (concat chunks) r
          → (ts : List SyntaxToken) × (flush r ≡ some ts) × Covers ts (concat chunks)
      go none k = absurd k
      go (some (p, us)) (x, y, e, c, h, l) = (
        us ++ finish_state p.payload_limit p.state,
        refl,
        rw e (Covers-append us _ x y c (finish_state-Covers p.payload_limit p.state y h)),
      )

-- If a whole run returns tokens that dropped nothing, their raw bytes, joined, are the input byte
-- for byte.
pub session-exact :
    (limit : ℕ) (chunks : List Bytes) {ts : List SyntaxToken}
    → session limit chunks ≡ some ts
    → dropped_total ts ≡ 0
    → bytes_of ts ≡ concat chunks
session-exact limit chunks {ts} e z =
    let (us, f, c) = session-Covers limit chunks in
    let same : us ≡ ts = cc (sym f ∙ e) in
    Covers-exact ts (concat chunks) (subst (λ l. Covers l (concat chunks)) same c) z

-- What a whole run returns has as many raw bytes and recorded dropped bytes, together, as the input
-- has bytes.
pub session-length :
    (limit : ℕ) (chunks : List Bytes) {ts : List SyntaxToken}
    → session limit chunks ≡ some ts
    → length (bytes_of ts) + dropped_total ts ≡ length (concat chunks)
session-length limit chunks {ts} e =
    let (us, f, c) = session-Covers limit chunks in
    let same : us ≡ ts = cc (sym f ∙ e) in
    Covers-length ts (concat chunks) (subst (λ l. Covers l (concat chunks)) same c)
