-- ===== src/Query/Ends.antt =====
-- The end of a query (`run_query` of src/session.rs) and the answers of the typed helpers.
use qwertty.Caps.Registers.{must_register-some}
use qwertty.Commands.{Command, encode}
use qwertty.Commands.Cursor.{request_position}
use qwertty.Commands.Terminal.{request_status}
use qwertty.Correlate.Matcher.{
  syntax, input, Expectation, Reply, match_event, match_token, csi_of, match_cursor_position,
}
use qwertty.Report.{CursorPositionReport, TerminalStatus, terminal_status_report}
use qwertty.Query.Kept.{some_inj}
use mathlib.Core.Option
use qwertty.Input
use qwertty.Input.{SemanticDecoder, Events, decoded, InputEvent}
use qwertty.Prelude.{
  ℕ, ◌≡◌, ◌≢◌, inl, inr, refl, sym, ap, ◌∙◌, Bool, true, false, ◌||◌, Option, none, some, List, [],
  ◌∷◌, ◌++◌, Bytes, Option-cases, ◌>>=◌,
}
use qwertty.Query.{
  QueryState, Replies, Reading, read_byte, read_bytes, settle, read_start, read_end, match_chunk,
}
use qwertty.Query.Driver.{
  Wait, elapsed, no_descriptor, idle, poll_failed, read_failed, readable, QueryError, Answer, ok,
  failed, Outcome, after_read, query_loop, QuerySession, cursor_answer, status_answer,
  request_cursor_position, request_terminal_status, run_query, map_answer, with_device, after_send,
  send, sweep_active_query,
}
use qwertty.Query.Spans.{IsReply}
use qwertty.Query.Tidy.{Tidy, replied, stopped, Ran, end_of, is_expected, run_query-Ended}
use qwertty.Session.{TerminalDevice}
use qwertty.Syntax.Parser
use qwertty.Syntax.Parser.{
  Fed, State, ground, partial, in_string, in_paste, SyntaxParser, feed_state, run_buffer,
  push_tokens, after_string, after_paste, store_state,
}
use qwertty.Syntax.Parser.Accounts.{FedAccounts, run_buffer-FedAccounts}
use qwertty.Syntax.Paste.{PasteOutcome, consume_paste}
use qwertty.Syntax.Strings.{StringOutcome, consume_string, held_esc_buffer}
use qwertty.Syntax.Token.{SyntaxToken}

abbrev pub Gives {ℓ} : {A : Type ℓ} → Option A → Type ℓ
Gives {A} m = (a : A) × (m ≡ some a)

module _ (limit : ℕ) where
  accounted : (bytes : Bytes) (r : Fed) → FedAccounts limit bytes r → Gives r
  accounted bytes none k = absurd k
  accounted bytes (some fed) k = (fed, refl)

  run_buffer-Gives : (bytes : Bytes) → Gives (run_buffer limit bytes)
  run_buffer-Gives bytes =
      accounted bytes (run_buffer limit bytes) (run_buffer-FedAccounts limit bytes)

  push-Gives : (tokens : List SyntaxToken) {r : Fed} → Gives r → Gives (push_tokens tokens r)
  push-Gives tokens ((s, us), e) = ((s, tokens ++ us), ap (push_tokens tokens) e)

  string-Gives : (o : StringOutcome) → Gives (after_string (run_buffer limit) o)
  string-Gives (StringOutcome.exhausted a) = (_, refl)
  string-Gives (StringOutcome.done token next) = push-Gives (token ∷ []) (run_buffer-Gives next)
  string-Gives (StringOutcome.done_with_held_esc token next) =
      push-Gives (token ∷ []) (run_buffer-Gives (held_esc_buffer next))

  paste-Gives : (o : List SyntaxToken × PasteOutcome) → Gives (after_paste (run_buffer limit) o)
  paste-Gives (tokens, PasteOutcome.exhausted a) = (_, refl)
  paste-Gives (tokens, PasteOutcome.done next) = push-Gives tokens (run_buffer-Gives next)

  feed_state-Gives : (s : State) (bytes : Bytes) → Gives (feed_state limit s bytes)
  unfolding feed_state
  feed_state-Gives ground bytes = run_buffer-Gives bytes
  feed_state-Gives (partial pending) bytes = run_buffer-Gives (pending ++ bytes)
  feed_state-Gives (in_string a) bytes = string-Gives (consume_string limit a bytes)
  feed_state-Gives (in_paste a) bytes = paste-Gives (consume_paste limit a bytes)

pub decode-Gives : (d : SemanticDecoder) (bytes : Bytes) → Gives (Input.feed d bytes)
unfolding Input.feed Parser.feed
decode-Gives d bytes =
    let (fed, e) = feed_state-Gives d.parser.payload_limit d.parser.state bytes in
    (_, ap (λ r. store_state d.parser r >>= λ fed. some (decoded d.carry fed)) e)

read_bytes-Gives : (ids : List ℕ) (bytes : Bytes) (r : Reading) → Gives (read_bytes ids bytes r)
unfolding read_bytes read_byte
read_bytes-Gives ids [] r = (r, refl)
read_bytes-Gives ids (byte ∷ bytes) r =
    let (fed, e) = decode-Gives r.query.decoder (byte ∷ []) in rw e (read_bytes-Gives ids bytes _)

pub match_chunk-Gives :
    (ids : List ℕ) (chunk : Bytes) (q : QueryState) → Gives (match_chunk ids chunk q)
unfolding match_chunk
match_chunk-Gives ids chunk q =
    let (r, e) = read_bytes-Gives ids chunk (read_start q) in
    (read_end (settle ids r), ap (λ m. m >>= λ r. some (read_end (settle ids r))) e)

-- A round that is no read with bytes ends the loop.
abbrev pub ends_loop : {E : Type 0} → Wait E → Bool
ends_loop (readable (byte ∷ bytes)) = false
ends_loop other = true

abbrev pub has_end : {E : Type 0} → List (Wait E) → Bool
has_end [] = false
has_end (wait ∷ waits) = ends_loop wait || has_end waits

module _ {E : Type 0} where
  after_read-Gives :
      (read : QueryState × Replies) (next : QueryState → Outcome E)
      → ((q : QueryState) → Gives (next q))
      → Gives (after_read read next)
  after_read-Gives (q, []) next h = h q
  after_read-Gives (q, (id, reply) ∷ replies) next h = (_, refl)

  query_loop-Gives :
      (id : ℕ) (waits : List (Wait E)) (q : QueryState)
      → has_end waits ≡ true
      → Gives (query_loop id waits q)
  unfolding query_loop
  query_loop-Gives id [] q h = cc
  query_loop-Gives id (elapsed ∷ waits) q h = (_, refl)
  query_loop-Gives id (idle ∷ waits) q h = (_, refl)
  query_loop-Gives id (no_descriptor ∷ waits) q h = (_, refl)
  query_loop-Gives id (poll_failed error ∷ waits) q h = (_, refl)
  query_loop-Gives id (read_failed error ∷ waits) q h = (_, refl)
  query_loop-Gives id (readable [] ∷ waits) q h = (_, refl)
  query_loop-Gives id (readable (byte ∷ bytes) ∷ waits) q h =
      let (read, e) = match_chunk-Gives (id ∷ []) (byte ∷ bytes) q in
      rw e (after_read-Gives read (query_loop id waits) (λ q'. query_loop-Gives id waits q' h))

pub with_device-Gives :
    {D A : Type 0} (d : D) {m : Option (QueryState × A)} → Gives m → Gives (with_device d m)
with_device-Gives d ((q, answer), e) = (_, ap (with_device d) e)

module _ {D E : Type 0} where
  after_send-Gives :
      (id : ℕ) (waits : List (Wait E)) (q : QueryState) (sent : D × Option E)
      → has_end waits ≡ true
      → Gives (after_send id waits q sent)
  unfolding after_send
  after_send-Gives id waits q (d, some error) h = (_, refl)
  after_send-Gives id waits q (d, none) h = with_device-Gives d (query_loop-Gives id waits q h)

  module _ (terminal : TerminalDevice D E) where
    -- A query returns, whatever state it starts in and whatever its reads give, if the time runs out
    -- in one of the rounds, or the poll or the read fails or the input ends there.
    pub run_query-some :
        (e : Expectation) (request : Command) (waits : List (Wait E)) (s : QuerySession D)
        → has_end waits ≡ true
        → (result : QuerySession D × Answer E (Option Reply)) × (run_query terminal e request waits
              s
            ≡ some result)
    unfolding run_query
    run_query-some e request waits s h =
        let q = sweep_active_query s.query in
        let (c, id, registered) = must_register-some q.correlator e in
        rw registered (after_send-Gives id waits _ (send terminal (encode request []) s.device) h)

-- What a bind and a map give is a value of the map.
mapped :
    {A B C : Type 0} (m : Option A) (g : A → Option B) (f : B → C) {c : C}
    → (m >>= λ a. Option.map f (g a)) ≡ some c
    → (b : B) × (f b ≡ c)
mapped none g f h = cc
mapped (some a) g f h = elim (Option-cases (g a)) [
  | inl e ↦ (let k : ◌≡◌ {A = Option _} none (some _) = sym (ap (Option.map f) e) ∙ h in cc k)
  | inr (b, e) ↦ (b, some_inj (sym (ap (Option.map f) e) ∙ h))
]

cursor_reply :
    (reply : Reply)
    → IsReply Expectation.cursor_position reply
    → (report : CursorPositionReport) × (Reply.cursor_position report ≡ reply)
unfolding match_event match_token
cursor_reply reply (syntax t, h) = mapped (csi_of t) match_cursor_position Reply.cursor_position h
cursor_reply reply (input i, h) = cc

status_reply :
    (reply : Reply)
    → IsReply Expectation.terminal_status reply
    → (report : TerminalStatus) × (Reply.terminal_status report ≡ reply)
unfolding match_event match_token
status_reply reply (syntax t, h) = mapped (csi_of t) terminal_status_report Reply.terminal_status h
status_reply reply (input i, h) = cc

-- No round without a reply gives one, or a reply of another type.
end-IsReply :
    {E : Type 0} (e : Expectation) (end : Wait E) (reply : Reply)
    → end_of end ≡ some (ok (some reply))
    → IsReply e reply
end-IsReply e elapsed reply h = cc
end-IsReply e idle reply h = cc
end-IsReply e no_descriptor reply h = cc
end-IsReply e (poll_failed error) reply h = cc
end-IsReply e (read_failed error) reply h = cc
end-IsReply e (readable []) reply h = cc
end-IsReply e (readable (byte ∷ bytes)) reply h = cc

end-is_expected :
    {E : Type 0} (end : Wait E) (error : QueryError E)
    → end_of end ≡ some (failed error)
    → is_expected error ≡ true
end-is_expected elapsed error h = cc
end-is_expected idle error h = cc
end-is_expected no_descriptor error h =
    let same : QueryError.unsupported ≡ error = cc in sym (ap is_expected same)
end-is_expected (poll_failed given) error h =
    let same : QueryError.device given ≡ error = cc in sym (ap is_expected same)
end-is_expected (read_failed given) error h =
    let same : QueryError.device given ≡ error = cc in sym (ap is_expected same)
end-is_expected (readable []) error h =
    let same : QueryError.closed ≡ error = cc in sym (ap is_expected same)
end-is_expected (readable (byte ∷ bytes)) error h = cc

IsReply-Ran :
    {E : Type 0} (e : Expectation) (waits : List (Wait E)) (q q' : QueryState) (reply : Reply)
    (sent : Option E)
    → Ran e waits q sent q' (ok (some reply))
    → IsReply e reply
IsReply-Ran e waits q q' reply (some error) (same, _, _, _, _) = cc
IsReply-Ran e waits q q' _ none
      (replied reads byte bytes unread d held kept pieces last reply whole run quiet final found t
        rests) =
    (found.found.event, found.found.answers)
IsReply-Ran e waits q q' reply none
      (stopped reads end unread pieces answer whole run quiet ends t rests) =
    end-IsReply e end reply ends

is_expected-Ran :
    {E : Type 0} (e : Expectation) (waits : List (Wait E)) (q q' : QueryState)
    (error : QueryError E) (sent : Option E)
    → Ran e waits q sent q' (failed error)
    → is_expected error ≡ true
is_expected-Ran e waits q q' error (some given) (same, _, _, _, _) =
    let same_error : error ≡ QueryError.device given = cc in ap is_expected same_error
is_expected-Ran e waits q q' error none
      (stopped reads end unread pieces answer whole run quiet ends t rests) =
    end-is_expected end error ends

-- A typed helper does not fail with an unexpected reply if it answers each reply of its expectation.
typed :
    {D E A : Type 0} (e : Expectation) (waits : List (Wait E)) (q : QueryState) (sent : Option E)
    (f : Option Reply → Answer E A) (r : Option (QuerySession D × Answer E (Option Reply)))
    (s' : QuerySession D) (answer : Answer E A)
    → ((s1 : QuerySession D) (a : Answer E (Option Reply))
        → r ≡ some (s1, a)
        → Ran e waits q sent s1.query a)
    → ((reply : Reply) → IsReply e reply → f (some reply) ≢ failed QueryError.unexpected_reply)
    → f none ≢ failed QueryError.unexpected_reply
    → map_answer f r ≡ some (s', answer)
    → answer ≢ failed QueryError.unexpected_reply
typed e waits q sent f none s' answer ended some_ok none_ok h k = cc
typed e waits q sent f (some (s1, ok none)) s' answer ended some_ok none_ok h k = none_ok (cc)
typed e waits q sent f (some (s1, ok (some reply))) s' answer ended some_ok none_ok h k =
    some_ok reply (IsReply-Ran e waits q s1.query reply sent (ended s1 (ok (some reply)) refl)) (cc)
typed e waits q sent f (some (s1, failed error)) s' answer ended some_ok none_ok h k =
    let mine = is_expected-Ran e waits q s1.query error sent (ended s1 (failed error) refl) in
    let same : error ≡ QueryError.unexpected_reply = cc in
    let other : is_expected error ≡ false = ap is_expected same in cc

module _ {D E : Type 0} (terminal : TerminalDevice D E) (waits : List (Wait E))
    (s s' : QuerySession D) (tidy : Tidy s.query) where
  -- From a tidy state request_cursor_position never fails with an unexpected reply.
  pub request_cursor_position-typed :
      (answer : Answer E (Option CursorPositionReport))
      → request_cursor_position terminal waits s ≡ some (s', answer)
      → answer ≢ failed QueryError.unexpected_reply
  unfolding request_cursor_position cursor_answer
  request_cursor_position-typed answer h =
      typed Expectation.cursor_position waits s.query
        (send terminal (encode request_position []) s.device).1 cursor_answer
        (run_query terminal Expectation.cursor_position request_position waits s) s' answer
        (λ s1 a g.
          (run_query-Ended terminal Expectation.cursor_position request_position waits s s1 a tidy
            g).1)
        (λ reply is_reply k.
          let (report, e) = cursor_reply reply is_reply in
          let l : cursor_answer {E = E} (some (Reply.cursor_position report))
              ≡ failed QueryError.unexpected_reply =
            ap (λ r. cursor_answer (some r)) e ∙ k in
          cc l)
        (λ k. cc k) h

  -- From a tidy state request_terminal_status never fails with an unexpected reply.
  pub request_terminal_status-typed :
      (answer : Answer E (Option TerminalStatus))
      → request_terminal_status terminal waits s ≡ some (s', answer)
      → answer ≢ failed QueryError.unexpected_reply
  unfolding request_terminal_status status_answer
  request_terminal_status-typed answer h =
      typed Expectation.terminal_status waits s.query
        (send terminal (encode request_status []) s.device).1 status_answer
        (run_query terminal Expectation.terminal_status request_status waits s) s' answer
        (λ s1 a g.
          (run_query-Ended terminal Expectation.terminal_status request_status waits s s1 a tidy
            g).1)
        (λ reply is_reply k.
          let (report, e) = status_reply reply is_reply in
          let l : status_answer {E = E} (some (Reply.terminal_status report))
              ≡ failed QueryError.unexpected_reply =
            ap (λ r. status_answer (some r)) e ∙ k in
          cc l)
        (λ k. cc k) h
