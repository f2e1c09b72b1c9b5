-- ===== src/Query/Driver.antt =====
-- The deadline loop of a synchronous query and the typed helpers (src/session.rs). What the clock,
-- `poll` and the device's reads do is a list of waits, one for each round of the loop; a list that ends
-- before the loop does gives `none`.
use qwertty.Caps.Bundle.{must_register}
use qwertty.Commands.{Command, encode}
use qwertty.Commands.Cursor.{request_position}
use qwertty.Commands.Terminal.{request_status}
use qwertty.Correlate.{Correlator, Resolution, eof, cancelled, no_reply, resolve}
use qwertty.Correlate.Matcher.{Expectation, Reply}
use qwertty.Prelude.{
  ℕ, min, not, Option, none, some, List, [], ◌∷◌, Bytes, length, take, drop, is_empty, ◌==◌,
  if◌then◌else◌, ◌>>=◌,
}
use qwertty.Report.{CursorPositionReport, TerminalStatus}
use qwertty.Session.{TerminalDevice}
use qwertty.Query.{QueryState, Replies, match_chunk}

-- What a round of a deadline loop meets, in the order of its tests: no time left, a device without a
-- descriptor, no input in time, an error of poll or of the read, or the bytes of a read, none at the
-- end of the input.
pub data Wait (E : Type 0) : Type 0 where
  elapsed no_descriptor idle : Wait E
  poll_failed : E → Wait E
  read_failed : E → Wait E
  readable : Bytes → Wait E

pub data QueryError (E : Type 0) : Type 0 where
  device : E → QueryError E
  unsupported closed unexpected_reply : QueryError E

-- `terminal::Result<T>`
pub data Answer (E A : Type 0) : Type 0 where
  ok : A → Answer E A
  failed : QueryError E → Answer E A

abbrev pub resolve_each : Resolution → List ℕ → Correlator → Correlator
resolve_each resolution [] c = c
resolve_each resolution (id ∷ ids) c = resolve_each resolution ids (resolve c id resolution).0

-- The end of the input in `read_and_match`.
unfoldable pub close_query : List ℕ → QueryState → QueryState
close_query ids q = record q { correlator = resolve_each eof ids q.correlator; active_query = none }

abbrev pub swept : Option ℕ → QueryState → QueryState
swept none q = q
swept (some id) q = record q {
  correlator = (resolve q.correlator id cancelled).0;
  active_query = none;
}

unfoldable pub sweep_active_query : QueryState → QueryState
sweep_active_query q = swept q.active_query q

-- The query's expectation resolved, by a timeout or by a device without a descriptor.
abbrev pub give_up : ℕ → Resolution → QueryState → QueryState
give_up id resolution q = record q {
  correlator = (resolve q.correlator id resolution).0;
  active_query = none;
}

-- `resolve_query_timeout`
abbrev pub resolve_query_timeout : ℕ → QueryState → QueryState
resolve_query_timeout id q = give_up id no_reply q

abbrev pub Outcome : Type 0 → Type 0
Outcome E = Option (QueryState × Answer E (Option Reply))

module _ {E : Type 0} where
  -- The first reply ends the loop.
  abbrev pub after_read : QueryState × Replies → (QueryState → Outcome E) → Outcome E
  after_read (q, []) next = next q
  after_read (q, (id, reply) ∷ replies) next =
      some (record q { active_query = none }, ok (some reply))

  -- The deadline loop of `run_query`.
  unfoldable pub query_loop : ℕ → List (Wait E) → QueryState → Outcome E
  query_loop id [] q = none
  query_loop id (elapsed ∷ waits) q = some (resolve_query_timeout id q, ok none)
  query_loop id (idle ∷ waits) q = some (resolve_query_timeout id q, ok none)
  query_loop id (no_descriptor ∷ waits) q = some (give_up id cancelled q, failed unsupported)
  query_loop id (poll_failed error ∷ waits) q = some (q, failed (device error))
  query_loop id (read_failed error ∷ waits) q = some (q, failed (device error))
  query_loop id (readable [] ∷ waits) q = some (close_query (id ∷ []) q, failed closed)
  query_loop id (readable (byte ∷ bytes) ∷ waits) q =
      match_chunk (id ∷ []) (byte ∷ bytes) q >>= λ read. after_read read (query_loop id waits)

-- The fields of a session that a query uses.
pub record QuerySession (D : Type 0) : Type 0 where
  pub device : D
  pub query : QueryState

abbrev pub with_device : {D A : Type 0} → D → Option (QueryState × A) → Option (QuerySession D × A)
with_device d none = none
with_device d (some (q, answer)) = some (record { device = d; query = q }, answer)

module _ {D E : Type 0} where
  -- `run_query` behind the request, which may fail.
  unfoldable pub after_send :
      ℕ
      → List (Wait E)
      → QueryState
      → D × Option E
      → Option (QuerySession D × Answer E (Option Reply))
  after_send id waits q (d, some error) =
      some (record { device = d; query = q }, failed (device error))
  after_send id waits q (d, none) = with_device d (query_loop id waits q)

  abbrev pub map_answer :
      {A B : Type 0}
      → (A → Answer E B)
      → Option (QuerySession D × Answer E A)
      → Option (QuerySession D × Answer E B)
  map_answer f none = none
  map_answer f (some (s, ok a)) = some (s, f a)
  map_answer f (some (s, failed error)) = some (s, failed error)

-- The `match` of `request_cursor_position` on the reply.
unfoldable pub cursor_answer : {E : Type 0} → Option Reply → Answer E (Option CursorPositionReport)
cursor_answer (some (Reply.cursor_position report)) = ok (some report)
cursor_answer none = ok none
cursor_answer (some other) = failed unexpected_reply

unfoldable pub status_answer : {E : Type 0} → Option Reply → Answer E (Option TerminalStatus)
status_answer (some (Reply.terminal_status report)) = ok (some report)
status_answer none = ok none
status_answer (some other) = failed unexpected_reply

module _ {D E : Type 0} (terminal : TerminalDevice D E) where
  abbrev pub then_flush : D × Option E → D × Option E
  then_flush (d, some error) = (d, some error)
  then_flush (d, none) = terminal.flush d

  -- `self.bytes(bytes)?.flush()?`
  unfoldable pub send : Bytes → D → D × Option E
  send bytes d = then_flush (terminal.write_all bytes d)

  -- `run_query`; the `expect` on `register` is the bind.
  unfoldable pub run_query :
      Expectation
      → Command
      → List (Wait E)
      → QuerySession D
      → Option (QuerySession D × Answer E (Option Reply))
  run_query expectation request waits s =
      let q = sweep_active_query s.query in
      must_register q.correlator expectation >>= λ (c, id).
      after_send id waits (record q { correlator = c; active_query = some id })
        (send (encode request []) s.device)

  unfoldable pub request_cursor_position :
      List (Wait E)
      → QuerySession D
      → Option (QuerySession D × Answer E (Option CursorPositionReport))
  request_cursor_position waits s =
      map_answer cursor_answer (run_query Expectation.cursor_position request_position waits s)

  unfoldable pub request_terminal_status :
      List (Wait E) → QuerySession D → Option (QuerySession D × Answer E (Option TerminalStatus))
  request_terminal_status waits s =
      map_answer status_answer (run_query Expectation.terminal_status request_status waits s)

-- `read_input` into a buffer of a length; typeahead comes before a read of the device, which gives at
-- most as many bytes as it is asked for.
unfoldable pub read_input :
    {D E : Type 0}
    → (ℕ → D → D × Answer E Bytes)
    → ℕ
    → QuerySession D
    → QuerySession D × Answer E Bytes
read_input read room s =
    let count = min (length s.query.typeahead) room in
    let (d, answer) = read room s.device in
    if room == 0
    then (s, ok [])
    else if not (is_empty s.query.typeahead)
    then (
      record s { query = record s.query { typeahead = drop count s.query.typeahead } },
      ok (take count s.query.typeahead),
    )
    else (record s { device = d }, answer)
