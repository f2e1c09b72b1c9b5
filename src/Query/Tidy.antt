-- ===== src/Query/Tidy.antt =====
-- A query from its request to its end (`run_query` of src/session.rs): what it answers, what becomes of
-- the input, and what it leaves in the correlator.
use qwertty.Caps.Bundle.{must_register}
use qwertty.Commands.{Command, encode}
use qwertty.Correlate.{
  Resolution, cancelled, no_reply, eof, find_slot, release_slot, resolve, register, register_scan,
}
use qwertty.Correlate.Matcher.{Expectation, Reply}
use qwertty.Prelude.{
  ℕ, ◌+◌, ◌%◌, ◌^◌, ◌≡◌, refl, sym, ap, ◌∙◌, subst, Bool, true, false, Option, none, some, List, [],
  ◌∷◌, ◌++◌, append_assoc, append-nil, Bytes, ◌>>=◌,
}
use qwertty.Query.{QueryState, Replies, match_chunk}
use qwertty.Query.Driver.{
  Wait, elapsed, no_descriptor, idle, poll_failed, read_failed, readable, QueryError, Answer, ok,
  failed, Outcome, after_read, query_loop, close_query, give_up, sweep_active_query, swept,
  QuerySession, after_send, send, run_query, with_device,
}
use qwertty.Query.Kept.{Kept, waiting, answered, between, match_chunk-Kept, some_inj, bind_some}
use qwertty.Input.{SemanticDecoder}
use qwertty.Query.Pieces.{
  Piece, ReadOf, Reads, no_read, read_then, spans, Quiets, Answered, Quiets-append, spans-append,
}
use qwertty.Query.Spans.{waiting_for, cleared, ==-self}
use qwertty.Session.{TerminalDevice}

-- Between queries: no slot is there, or only that of the active query, which the next one sweeps.
pub data Tidy (q : QueryState) : Type 0 where
  clear : (n : ℕ) → q.correlator ≡ cleared n → Tidy q
  active :
      (e : Expectation) (id n : ℕ)
      → q.correlator ≡ waiting_for e id n
      → q.active_query ≡ some id
      → Tidy q

-- An error other than that of a reply of another type.
abbrev pub is_expected : {E : Type 0} → QueryError E → Bool
is_expected (QueryError.device error) = true
is_expected QueryError.unsupported = true
is_expected QueryError.closed = true
is_expected QueryError.unexpected_reply = false

-- The answer of a round that ends the loop without a reply.
abbrev pub end_of : {E : Type 0} → Wait E → Option (Answer E (Option Reply))
end_of elapsed = some (ok none)
end_of idle = some (ok none)
end_of no_descriptor = some (failed QueryError.unsupported)
end_of (poll_failed error) = some (failed (QueryError.device error))
end_of (read_failed error) = some (failed (QueryError.device error))
end_of (readable []) = some (failed QueryError.closed)
end_of (readable (byte ∷ bytes)) = none

-- Behind an answer no slot is left and no query is active; behind an error the state is tidy.
abbrev pub Rests : {E : Type 0} → QueryState → Answer E (Option Reply) → Type 0
Rests q (ok answer) = (n : ℕ) × (q.correlator ≡ cleared n) × (q.active_query ≡ none)
Rests q (failed error) = Tidy q

abbrev pub as_waits : {E : Type 0} → List Bytes → List (Wait E)
as_waits [] = []
as_waits (bytes ∷ reads) = readable bytes ∷ as_waits reads

-- How the loop of a query ends, from a state to a state: some reads without a reply and one with it,
-- whose first piece with a reply is taken away; or some reads without a reply and a round that ends
-- the loop. The decoder and the bytes that it holds are those behind these reads, all pieces but that
-- of the reply are typeahead, and no wait behind has an effect.
pub data Ended {E : Type 0} (e : Expectation) (waits : List (Wait E)) (q q' : QueryState)
    : Answer E (Option Reply) → Type 0 where
  replied :
      (reads : List Bytes) (byte : ℕ) (bytes : Bytes) (unread : List (Wait E)) (d : SemanticDecoder)
      (held kept : Bytes) (pieces last : List Piece) (reply : Reply)
      → waits ≡ as_waits reads ++ readable (byte ∷ bytes) ∷ unread
      → Reads q.decoder q.decoder_carry reads pieces d held
      → Quiets e pieces
      → ReadOf d held (byte ∷ bytes) last q'.decoder q'.decoder_carry
      → Answered e last reply kept
      → q'.typeahead ≡ q.typeahead ++ (spans pieces ++ kept)
      → Rests {E = E} q' (ok (some reply))
      → Ended e waits q q' (ok (some reply))
  stopped :
      (reads : List Bytes) (end : Wait E) (unread : List (Wait E)) (pieces : List Piece)
      (answer : Answer E (Option Reply))
      → waits ≡ as_waits reads ++ end ∷ unread
      → Reads q.decoder q.decoder_carry reads pieces q'.decoder q'.decoder_carry
      → Quiets e pieces
      → end_of end ≡ some answer
      → q'.typeahead ≡ q.typeahead ++ spans pieces
      → Rests q' answer
      → Ended e waits q q' answer

pub resolve-waiting :
    (e : Expectation) (id n : ℕ) (resolution : Resolution)
    → (resolve (waiting_for e id n) id resolution).0 ≡ cleared n
unfolding resolve find_slot release_slot
resolve-waiting e id n resolution = rw (==-self id) (rw (==-self id) refl)

pub resolve-cleared :
    (id n : ℕ) (resolution : Resolution) → (resolve (cleared n) id resolution).0 ≡ cleared n
unfolding resolve find_slot
resolve-cleared id n resolution = refl

gone :
    (e : Expectation) (id n : ℕ) (resolution : Resolution) (q : QueryState)
    → q.correlator ≡ waiting_for e id n
    → (give_up id resolution q).correlator ≡ cleared n
gone e id n resolution q c =
    ap (λ d. (resolve d id resolution).0) c ∙ resolve-waiting e id n resolution

module _ {E : Type 0} (e : Expectation) where
  -- The loop ends in its first round.
  at_once :
      (end : Wait E) (waits : List (Wait E)) (q q1 q' : QueryState)
      (given answer : Answer E (Option Reply))
      → end_of end ≡ some given
      → q1.decoder ≡ q.decoder
      → q1.decoder_carry ≡ q.decoder_carry
      → q1.typeahead ≡ q.typeahead
      → Rests q1 given
      → ◌≡◌ {A = Outcome E} (some (q1, given)) (some (q', answer))
      → Ended e (end ∷ waits) q q' answer
  at_once end waits q q1 q' given answer ends same_decoder same_carry same rests h =
      subst (λ (x : QueryState × Answer E (Option Reply)). Ended e (end ∷ waits) q x.0 x.1)
        (some_inj h)
        (stopped [] end waits [] given refl
          (subst (λ d. Reads q.decoder q.decoder_carry [] [] d q1.decoder_carry) (sym same_decoder)
            (subst (Reads q.decoder q.decoder_carry [] [] q.decoder) (sym same_carry) no_read))
          tt ends (same ∙ sym (append-nil q.typeahead)) rests)

  -- A read without a reply in front.
  behind_read :
      (byte : ℕ) (bytes : Bytes) (waits : List (Wait E)) (q q1 q' : QueryState)
      (pieces : List Piece) (answer : Answer E (Option Reply))
      → ReadOf q.decoder q.decoder_carry (byte ∷ bytes) pieces q1.decoder q1.decoder_carry
      → Quiets e pieces
      → q1.typeahead ≡ q.typeahead ++ spans pieces
      → Ended e waits q1 q' answer
      → Ended e (readable (byte ∷ bytes) ∷ waits) q q' answer
  behind_read byte bytes waits q q1 q' pieces _ read quiet t
        (replied reads byte' bytes' unread d held kept more last reply whole run mute final found t'
          rests) =
      replied ((byte ∷ bytes) ∷ reads) byte' bytes' unread d held kept (pieces ++ more) last reply
        (ap (◌∷◌ (readable (byte ∷ bytes))) whole) (read_then read run)
        (Quiets-append e pieces more quiet mute) final found
        (t'
          ∙ ap (λ b. b ++ (spans more ++ kept)) t
          ∙ append_assoc q.typeahead (spans pieces) (spans more ++ kept)
          ∙ ap (λ b. q.typeahead ++ b)
              (sym (append_assoc (spans pieces) (spans more) kept)
                ∙ ap (λ b. b ++ kept) (sym (spans-append pieces more))))
        rests
  behind_read byte bytes waits q q1 q' pieces answer read quiet t
        (stopped reads end unread more _ whole run mute ends t' rests) =
      stopped ((byte ∷ bytes) ∷ reads) end unread (pieces ++ more) answer
        (ap (◌∷◌ (readable (byte ∷ bytes))) whole) (read_then read run)
        (Quiets-append e pieces more quiet mute) ends
        (t'
          ∙ ap (λ b. b ++ spans more) t
          ∙ append_assoc q.typeahead (spans pieces) (spans more)
          ∙ ap (λ b. q.typeahead ++ b) (sym (spans-append pieces more)))
        rests

  module _ (id n : ℕ) where
    after_read-Ended :
        (byte : ℕ) (bytes : Bytes) (waits : List (Wait E)) (q q1 q' : QueryState)
        (replies : Replies) (pieces : List Piece) (next : QueryState → Outcome E)
        (answer : Answer E (Option Reply))
        → ((q2 : QueryState)
            → q2.correlator ≡ waiting_for e id n
            → q2.active_query ≡ some id
            → next q2 ≡ some (q', answer)
            → Ended e waits q2 q' answer)
        → after_read (q1, replies) next ≡ some (q', answer)
        → ReadOf q.decoder q.decoder_carry (byte ∷ bytes) pieces q1.decoder q1.decoder_carry
        → Kept e id n q.typeahead pieces (between q1 replies)
        → Ended e (readable (byte ∷ bytes) ∷ waits) q q' answer
    after_read-Ended byte bytes waits q q1 q' [] pieces next answer ih h read
          (waiting c live none_yet quiet t) =
        behind_read byte bytes waits q q1 q' pieces answer read quiet t (ih q1 c live h)
    after_read-Ended byte bytes waits q q1 q' [] pieces next answer ih h read
          (answered reply kept c one found t) =
        cc
    after_read-Ended byte bytes waits q q1 q' ((i, reply) ∷ replies) pieces next answer ih h read
          (waiting c live none_yet quiet t) =
        cc
    after_read-Ended byte bytes waits q q1 q' ((i, reply) ∷ replies) pieces next answer ih h read
          (answered reply' kept c one found t) =
        subst
          (λ (x : QueryState × Answer E (Option Reply)).
            Ended e (readable (byte ∷ bytes) ∷ waits) q x.0 x.1)
          (some_inj h)
          (replied [] byte bytes waits q.decoder q.decoder_carry kept [] pieces reply refl no_read
            tt read (subst (λ x. Answered e pieces x kept) (cc) found) t (n, c, refl))

    pub query_loop-Ended :
        (waits : List (Wait E)) (q q' : QueryState) (answer : Answer E (Option Reply))
        → q.correlator ≡ waiting_for e id n
        → q.active_query ≡ some id
        → query_loop id waits q ≡ some (q', answer)
        → Ended e waits q q' answer
    unfolding query_loop close_query
    query_loop-Ended [] q q' answer c live h = cc
    query_loop-Ended (elapsed ∷ waits) q q' answer c live h =
        at_once elapsed waits q _ q' (ok none) answer refl refl refl refl
          (n, gone e id n no_reply q c, refl) h
    query_loop-Ended (idle ∷ waits) q q' answer c live h =
        at_once idle waits q _ q' (ok none) answer refl refl refl refl
          (n, gone e id n no_reply q c, refl) h
    query_loop-Ended (no_descriptor ∷ waits) q q' answer c live h =
        at_once no_descriptor waits q _ q' (failed QueryError.unsupported) answer refl refl refl
          refl (clear n (gone e id n cancelled q c)) h
    query_loop-Ended (poll_failed error ∷ waits) q q' answer c live h =
        at_once (poll_failed error) waits q q q' (failed (QueryError.device error)) answer refl refl
          refl refl (Tidy.active e id n c live) h
    query_loop-Ended (read_failed error ∷ waits) q q' answer c live h =
        at_once (read_failed error) waits q q q' (failed (QueryError.device error)) answer refl refl
          refl refl (Tidy.active e id n c live) h
    query_loop-Ended (readable [] ∷ waits) q q' answer c live h =
        at_once (readable []) waits q _ q' (failed QueryError.closed) answer refl refl refl refl
          (clear n (gone e id n eof q c)) h
    query_loop-Ended (readable (byte ∷ bytes) ∷ waits) q q' answer c live h =
        let (read, matched, rest) =
          bind_some (match_chunk (id ∷ []) (byte ∷ bytes) q)
            (λ read. after_read read (query_loop id waits)) h in
        let (pieces, kept, run) =
          match_chunk-Kept e id n (byte ∷ bytes) q read.0 read.1 c live matched in
        after_read-Ended byte bytes waits q read.0 q' read.1 pieces (query_loop id waits) answer
          (λ q2 c2 live2 g. query_loop-Ended waits q2 q' answer c2 live2 g) rest run kept

abbrev Swept : QueryState → QueryState → Type 0
Swept q q' =
    (n : ℕ) × (q'.correlator ≡ cleared n)
    × (q'.typeahead ≡ q.typeahead)
    × (q'.decoder_carry ≡ q.decoder_carry)
    × (q'.decoder ≡ q.decoder)

swept-Tidy : (q : QueryState) (o : Option ℕ) → q.active_query ≡ o → Tidy q → Swept q (swept o q)
swept-Tidy q none h (clear n c) = (n, c, refl, refl, refl)
swept-Tidy q (some i) h (clear n c) =
    (n, ap (λ d. (resolve d i cancelled).0) c ∙ resolve-cleared i n cancelled, refl, refl, refl)
swept-Tidy q none h (active e id n c live) = cc
swept-Tidy q (some i) h (active e id n c live) =
    let same : i ≡ id = cc in
    (
      n,
      ap (λ d. (resolve d i cancelled).0) c
          ∙ ap (λ j. (resolve (waiting_for e id n) j cancelled).0) same
          ∙ resolve-waiting e id n cancelled,
      refl,
      refl,
      refl,
    )

pub must_register-cleared :
    (n : ℕ) (e : Expectation)
    → must_register (cleared n) e ≡ some (waiting_for e n ((n + 1) % 2 ^ 64), n)
unfolding register register_scan
must_register-cleared n e = refl

-- What becomes of a query, by what the write of its request came to: with an error nothing was read
-- and the state is as it was but for the query, which the next one sweeps; without one its loop ends.
abbrev pub Ran :
    {E : Type 0}
    → Expectation
    → List (Wait E)
    → QueryState
    → Option E
    → QueryState
    → Answer E (Option Reply)
    → Type 0
Ran e waits q (some error) q' answer =
    (answer ≡ failed (QueryError.device error))
    × Tidy q'
    × (q'.decoder ≡ q.decoder)
    × (q'.decoder_carry ≡ q.decoder_carry)
    × (q'.typeahead ≡ q.typeahead)
Ran e waits q none q' answer = Ended e waits q q' answer

-- Only the decoder, what it holds and the typeahead of the state before count.
same_start :
    {E : Type 0} (e : Expectation) (waits : List (Wait E)) (q q1 : QueryState) (result : Option E)
    (q' : QueryState) (answer : Answer E (Option Reply))
    → q1.decoder ≡ q.decoder
    → q1.decoder_carry ≡ q.decoder_carry
    → q1.typeahead ≡ q.typeahead
    → Ran e waits q1 result q' answer
    → Ran e waits q result q' answer
same_start e waits q q1 (some error) q' answer d c t (is_error, tidy, d', c', t') =
    (is_error, tidy, d' ∙ d, c' ∙ c, t' ∙ t)
same_start e waits q q1 none q' _ d c t
      (replied reads byte bytes unread d1 held kept pieces last reply whole run mute final found t'
        rests) =
    replied reads byte bytes unread d1 held kept pieces last reply whole
      (subst (λ h. Reads q.decoder h reads pieces d1 held) c
        (subst (λ x. Reads x q1.decoder_carry reads pieces d1 held) d run))
      mute final found (t' ∙ ap (λ b. b ++ (spans pieces ++ kept)) t) rests
same_start e waits q q1 none q' answer d c t
      (stopped reads end unread pieces _ whole run mute ends t' rests) =
    stopped reads end unread pieces answer whole
      (subst (λ h. Reads q.decoder h reads pieces q'.decoder q'.decoder_carry) c
        (subst (λ x. Reads x q1.decoder_carry reads pieces q'.decoder q'.decoder_carry) d run))
      mute ends (t' ∙ ap (λ b. b ++ spans pieces) t) rests

module _ {D E : Type 0} where
  with_device-some :
      (d : D) (m : Outcome E) {s' : QuerySession D} {answer : Answer E (Option Reply)}
      → with_device d m ≡ some (s', answer)
      → (loop : QueryState × Answer E (Option Reply)) × (m ≡ some loop)
        × (◌≡◌ {A = QuerySession D × Answer E (Option Reply)}
            (record { device = d; query = loop.0 }, loop.1)
            (s', answer))
  with_device-some d none h = cc
  with_device-some d (some (q, answer)) h = ((q, answer), refl, some_inj h)

  after_send-Ran :
      (e : Expectation) (id n : ℕ) (waits : List (Wait E)) (q : QueryState) (sent : D × Option E)
      (s' : QuerySession D) (answer : Answer E (Option Reply))
      → q.correlator ≡ waiting_for e id n
      → q.active_query ≡ some id
      → after_send id waits q sent ≡ some (s', answer)
      → (s'.device ≡ sent.0) × Ran e waits q sent.1 s'.query answer
  unfolding after_send
  after_send-Ran e id n waits q (d, some error) s' answer c live h =
      subst
        (λ (x : QuerySession D × Answer E (Option Reply)).
          (x.0.device ≡ d) × Ran e waits q (some error) x.0.query x.1)
        (some_inj h) (refl, (refl, Tidy.active e id n c live, refl, refl, refl))
  after_send-Ran e id n waits q (d, none) s' answer c live h =
      let (loop, ended, e') = with_device-some d (query_loop id waits q) h in
      subst
        (λ (x : QuerySession D × Answer E (Option Reply)).
          (x.0.device ≡ d) × Ran e waits q none x.0.query x.1)
        e' (refl, query_loop-Ended e id n waits q loop.0 loop.1 c live ended)

  module _ (terminal : TerminalDevice D E) where
    -- From a tidy state, a query that returns has sent its request, and if that gave an error it fails
    -- with it and has read nothing. Else some reads had no reply, and then one had it or a round ended
    -- the loop and gave the answer. The decoder alone cuts the reads into pieces: each byte that makes
    -- events ends one, and so does settled text at the end of a read, where the bytes that the decoder
    -- then holds begin. The first piece with an event that answers the expectation gives the reply and
    -- is gone; all other pieces are typeahead in their order, and the bytes behind the last piece are
    -- held. After an answer, a timeout included, no slot is left; after an error the state is tidy.
    pub run_query-Ended :
        (e : Expectation) (request : Command) (waits : List (Wait E)) (s s' : QuerySession D)
        (answer : Answer E (Option Reply))
        → Tidy s.query
        → run_query terminal e request waits s ≡ some (s', answer)
        → (s'.device ≡ (send terminal (encode request []) s.device).0)
          × Ran e waits s.query (send terminal (encode request []) s.device).1 s'.query answer
    unfolding run_query sweep_active_query
    run_query-Ended e request waits s s' answer tidy h =
        let (n, c, t, carry, decoder) = swept-Tidy s.query s.query.active_query refl tidy in
        let q = sweep_active_query s.query in
        let sent = send terminal (encode request []) s.device in
        let asked : QueryState = record q {
          correlator = waiting_for e n ((n + 1) % 2 ^ 64);
          active_query = some n;
        } in
        let registered : must_register q.correlator e
            ≡ some (waiting_for e n ((n + 1) % 2 ^ 64), n) =
          ap (λ d. must_register d e) c ∙ must_register-cleared n e in
        let here : after_send n waits asked sent ≡ some (s', answer) =
          sym (
            ap
              (λ m. m >>= λ (d, id).
                after_send id waits (record q { correlator = d; active_query = some id }) sent)
              registered)
          ∙ h in
        let (device, ran) =
          after_send-Ran e n ((n + 1) % 2 ^ 64) waits asked sent s' answer refl refl here in
        (device, same_start e waits s.query asked sent.1 s'.query answer decoder carry t ran)
