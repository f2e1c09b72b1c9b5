-- ===== src/Input/Session.antt =====
-- The decoder over a whole run (src/event.rs): it adds to the tokenizer one pass over its tokens, so
-- that the events do not depend on how the input is cut into chunks.
use qwertty.Input.{
  Events, Carry, SemanticDecoder, decoder_with_limit, no_carry, map_token, map_tokens, decoded,
  feed, finish, key_event,
}
use qwertty.Input.Win32.{orphan}
use qwertty.Prelude.{
  ℕ, ◌≡◌, refl, sym, ap, ◌∙◌, Option, none, some, List, [], ◌∷◌, ◌++◌, append_assoc, map, Bytes,
  concat, ◌>>=◌,
}
use qwertty.Syntax.Parser
use qwertty.Syntax.Parser.{SyntaxParser, with_payload_limit}
use qwertty.Syntax.Parser.Chunks.{session-concat}
use qwertty.Syntax.Parser.Session
use qwertty.Syntax.Parser.Session.{Calls, then_call, prepend, feed_all, flush, session-Covers}
use qwertty.Syntax.Token.{SyntaxToken}

-- Token lists in two parts: the second goes on with the carry of the first.
pub map_tokens-append :
    (carry : Carry) (xs ys : List SyntaxToken)
    → map_tokens carry (xs ++ ys) ≡ (
      (map_tokens (map_tokens carry xs).0 ys).0,
      (map_tokens carry xs).1 ++ (map_tokens (map_tokens carry xs).0 ys).1,
    )
unfolding map_tokens
map_tokens-append carry [] ys = refl
map_tokens-append carry (token ∷ xs) ys =
    let (carry', events) = map_token carry token in
    let ih = map_tokens-append carry' xs ys in
    λ i. (
      (ih i).0,
      (ap (λ e. events ++ e) (ap (λ (r : Carry × Events). r.1) ih)
            ∙ sym (
                append_assoc events (map_tokens carry' xs).1
                  (map_tokens (map_tokens carry' xs).0 ys).1))
          i,
    )

-- What the calls of the decoder leave: the decoder, and the events so far.
abbrev Decoded : Type 0
Decoded = Option (SemanticDecoder × Events)

abbrev and_events : Events → Decoded → Decoded
and_events events none = none
and_events events (some (d, more)) = some (d, events ++ more)

abbrev then_decode : Decoded → (SemanticDecoder → Decoded) → Decoded
then_decode none k = none
then_decode (some (d, events)) k = and_events events (k d)

-- Calls of `feed`, one for each chunk, with their events collected.
unfoldable pub decode_all : SemanticDecoder → List Bytes → Decoded
decode_all d [] = some (d, [])
decode_all d (chunk ∷ chunks) = then_decode (feed d chunk) (λ d'. decode_all d' chunks)

-- The events of the calls, and those that `finish` flushes.
abbrev finished : Decoded → Option Events
finished none = none
finished (some (d, events)) = some (events ++ (finish d).1)

-- The events of a whole run of a new decoder.
unfoldable pub decode_session : ℕ → List Bytes → Option Events
decode_session limit chunks = finished (decode_all (decoder_with_limit limit) chunks)

-- The calls of the parser, their tokens mapped to events.
abbrev decode_calls : Carry → Calls → Decoded
decode_calls carry calls = calls >>= λ fed. some (decoded carry fed)

decode_calls-prepend :
    (carry : Carry) (ts : List SyntaxToken) (calls : Calls)
    → decode_calls carry (prepend ts calls)
      ≡ and_events (map_tokens carry ts).1 (decode_calls (map_tokens carry ts).0 calls)
decode_calls-prepend carry ts none = refl
decode_calls-prepend carry ts (some (p, us)) = λ i. some (
  record { parser = p; carry = (map_tokens-append carry ts us i).0 },
  (map_tokens-append carry ts us i).1,
)

decode_all-calls :
    (d : SemanticDecoder) (chunks : List Bytes)
    → decode_all d chunks ≡ decode_calls d.carry (feed_all d.parser chunks)
unfolding decode_all feed_all feed map_tokens
decode_all-calls d [] = refl
decode_all-calls d (chunk ∷ chunks) =
    go (λ d'. decode_all-calls d' chunks) (Parser.feed d.parser chunk)
  where
    go :
        ((d' : SemanticDecoder)
          → decode_all d' chunks ≡ decode_calls d'.carry (feed_all d'.parser chunks))
        → (fed : Option (SyntaxParser × List SyntaxToken))
        → then_decode (fed >>= λ f. some (decoded d.carry f)) (λ d'. decode_all d' chunks)
          ≡ decode_calls d.carry (then_call fed (λ q. feed_all q chunks))
    go ih none = refl
    go ih (some (p, ts)) =
        let d' : SemanticDecoder = record { parser = p; carry = (map_tokens d.carry ts).0 } in
        ap (and_events (map_tokens d.carry ts).1) (ih d')
        ∙ sym (decode_calls-prepend d.carry ts (feed_all p chunks))

-- The events of all tokens of a run, and what is left of a surrogate pair.
unfoldable pub events_of : List SyntaxToken → Events
events_of tokens =
    let (carry, events) = map_tokens no_carry tokens in
    events ++ map key_event (orphan carry.pending_high_surrogate)

abbrev pub events_of_run : Option (List SyntaxToken) → Option Events
events_of_run none = none
events_of_run (some tokens) = some (events_of tokens)

finished-calls :
    (calls : Calls) → finished (decode_calls no_carry calls) ≡ events_of_run (flush calls)
unfolding finish events_of
finished-calls none = refl
finished-calls (some (p, ts)) =
    let us = (Parser.finish p).1 in
    let carry = (map_tokens no_carry ts).0 in
    let whole = map_tokens-append no_carry ts us in
    ap some (
      sym (
        append_assoc (map_tokens no_carry ts).1 (map_tokens carry us).1
          (map key_event (orphan (map_tokens carry us).0.pending_high_surrogate)))
      ∙ sym (
          ap (λ (r : Carry × Events). r.1 ++ map key_event (orphan r.0.pending_high_surrogate))
            whole))

-- The events of a run are those of the tokens of the run.
pub decode_session-session :
    (limit : ℕ) (chunks : List Bytes)
    → decode_session limit chunks ≡ events_of_run (Session.session limit chunks)
unfolding decode_session Session.session
decode_session-session limit chunks =
    ap finished (decode_all-calls (decoder_with_limit limit) chunks)
    ∙ finished-calls (feed_all (with_payload_limit limit) chunks)

-- Two ways to cut the same input into chunks give the same events.
pub decode_session-concat :
    (limit : ℕ) (chunks others : List Bytes)
    → concat chunks ≡ concat others
    → decode_session limit chunks ≡ decode_session limit others
decode_session-concat limit chunks others same =
    decode_session-session limit chunks
    ∙ ap events_of_run (session-concat limit chunks others same)
    ∙ sym (decode_session-session limit others)

-- A run ends with a result.
pub decode_session-ne-none :
    (limit : ℕ) (chunks : List Bytes)
    → (events : Events) × (decode_session limit chunks ≡ some events)
decode_session-ne-none limit chunks =
    let (tokens, run, covers) = session-Covers limit chunks in
    (events_of tokens, decode_session-session limit chunks ∙ ap events_of_run run)
