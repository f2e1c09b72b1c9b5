-- ===== src/Syntax/Parser/Chunks.antt =====
-- The token sequence of a run does not depend on how the input is cut into chunks, and the memory
-- between calls is bounded.
use qwertty.Prelude.{
  ℕ, ◌+◌, ◌≤◌, ◌≡◌, refl, sym, ap, ◌∙◌, subst, none, some, List, [], ◌∷◌, ◌++◌, append-nil,
  append_assoc, arith, Bytes, length, concat,
}
use qwertty.Syntax.Parser.Accounts.{Holds}
use qwertty.Syntax.Parser.Session.{
  Calls, prepend, then_call, feed_all, session, SoFar, feed_all_new,
}
use qwertty.Syntax.Parser.Split.{feed_state-append, then_feed}
use qwertty.Syntax.Parser.{
  State, partial, in_string, in_paste, SyntaxParser, with_payload_limit, pending_bytes, pending_of,
  feed, feed_loop, run_buffer, feed_state, Fed, push_tokens, store_state,
}
use qwertty.Syntax.Token.{SyntaxToken}

store_state-push :
    (p : SyntaxParser) (ts : List SyntaxToken) (r : Fed)
    → store_state p (push_tokens ts r) ≡ prepend ts (store_state p r)
store_state-push p ts none = refl
store_state-push p ts (some (s, us)) = refl

store_state-then :
    (p : SyntaxParser) (b : Bytes) (r : Fed)
    → store_state p (then_feed p.payload_limit b r)
      ≡ then_call (store_state p r) (λ q. store_state q (feed_state q.payload_limit q.state b))
store_state-then p b none = refl
store_state-then p b (some (s, ts)) = store_state-push p ts (feed_state p.payload_limit s b)

-- Feeding two chunks joined is the same as feeding one and then the other.
pub feed-append :
    (p : SyntaxParser) (a b : Bytes) → feed p (a ++ b) ≡ then_call (feed p a) (λ q. feed q b)
unfolding feed
feed-append p a b =
    ap (store_state p) (feed_state-append p.payload_limit b p.state a)
    ∙ store_state-then p b (feed_state p.payload_limit p.state a)

then_call_nil : (r : Calls) → then_call r (λ q. some (q, [])) ≡ r
then_call_nil none = refl
then_call_nil (some (p, ts)) = rw append-nil

prepend_twice :
    (ts us : List SyntaxToken) (r : Calls) → prepend (ts ++ us) r ≡ prepend ts (prepend us r)
prepend_twice ts us none = refl
prepend_twice ts us (some (q, vs)) = rw append_assoc

prepend_then :
    (ts : List SyntaxToken) (r : Calls) (l : SyntaxParser → Calls)
    → then_call (prepend ts r) l ≡ prepend ts (then_call r l)
prepend_then ts none l = refl
prepend_then ts (some (q, us)) l = prepend_twice ts us (l q)

then_call_assoc :
    (r : Calls) (k l : SyntaxParser → Calls)
    → then_call (then_call r k) l ≡ then_call r (λ p. then_call (k p) l)
then_call_assoc none k l = refl
then_call_assoc (some (p, ts)) k l = prepend_then ts (k p) l

feed_all-concat :
    (p : SyntaxParser) (x : Bytes) (chunks : List Bytes)
    → then_call (feed p x) (λ q. feed_all q chunks) ≡ feed p (x ++ concat chunks)
unfolding feed_all
feed_all-concat p x [] = then_call_nil (feed p x) ∙ rw append-nil
feed_all-concat p x (chunk ∷ chunks) =
    sym (then_call_assoc (feed p x) (λ q. feed q chunk) (λ q. feed_all q chunks))
    ∙ ap (λ r. then_call r (λ q. feed_all q chunks)) (sym (feed-append p x chunk))
    ∙ feed_all-concat p (x ++ chunk) chunks
    ∙ rw append_assoc

feed_new-nil :
    (limit : ℕ) → feed (with_payload_limit limit) [] ≡ some (with_payload_limit limit, [])
unfolding feed feed_state run_buffer feed_loop
feed_new-nil limit = refl

call_nil : (r : Calls) → prepend [] r ≡ r
call_nil none = refl
call_nil (some (q, us)) = refl

-- However the input is cut into chunks, the calls return the tokens of the input fed whole, and
-- leave the same parser.
pub feed_all_whole :
    (limit : ℕ) (chunks : List Bytes)
    → feed_all (with_payload_limit limit) chunks ≡ feed (with_payload_limit limit) (concat chunks)
feed_all_whole limit chunks =
    sym (call_nil _)
    ∙ ap (λ r. then_call r (λ q. feed_all q chunks)) (sym (feed_new-nil limit))
    ∙ feed_all-concat (with_payload_limit limit) [] chunks

pub session-concat :
    (limit : ℕ) (chunks others : List Bytes)
    → concat chunks ≡ concat others
    → session limit chunks ≡ session limit others
unfolding session
session-concat limit chunks others e =
    rw (feed_all_whole limit chunks, feed_all_whole limit others, e)

-- Between calls the parser retains at most the limit and six bytes, whatever was fed.
pub feed_all-bounded :
    (limit : ℕ) (chunks : List Bytes) {p : SyntaxParser} {ts : List SyntaxToken}
    → feed_all (with_payload_limit limit) chunks ≡ some (p, ts)
    → length (pending_bytes p) ≤ limit + 6
feed_all-bounded limit chunks {p} e =
    let (x, y, f, c, h, l) = subst (SoFar limit (concat chunks)) e (feed_all_new limit chunks) in
    subst (λ n. length (pending_bytes p) ≤ n + 6) l (bound p.payload_limit p.state y h)
  where
    bound : (n : ℕ) (s : State) (y : Bytes) → Holds n s y → length (pending_of s) ≤ n + 6
    bound n State.ground y h = omega arith
    bound n (partial pending) y h = omega (arith, h.1)
    bound n (in_string a) y h = omega (arith, h.1.bounded, h.1.short_introducer)
    bound n (in_paste a) y h = omega (arith, h.1.bounded, h.1.short_bracket)
