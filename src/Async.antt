-- ===== src/Async.antt =====
-- The asynchronous session (src/tokio_session.rs): its queue of events, its queries and its probe, and
-- how it suspends and resumes. Awaiting a read or a deadline is a list of waits, one for each read; the
-- descriptor's flags and the reactor are left out.
pub mod Bundle
pub mod Await
pub mod Suspended
pub mod Coalesced
pub mod Queries
pub mod Runs
pub mod Ends
pub mod Resumed
use qwertty.Caps.{Capabilities, EnvSource, env_seeded_capabilities}
use qwertty.Caps.Bundle.{
  ProbeBundle, expected, must_register, register_bundle, probe_bundle_commands, ids, resolve_all,
  store_bundle_reply,
}
use qwertty.Correlate
use qwertty.Correlate.{
  Correlator, Feed, completed, passthrough, Resolution, timeout, eof, cancelled, no_reply,
  take_reply, resolve,
}
use qwertty.Correlate.Matcher.{Event, syntax, input, Expectation, Reply}
use qwertty.Input
use qwertty.Input.{
  InputEvent, resize, Events, SemanticDecoder, new_decoder, has_settled_text, finish,
  has_pending_lone_escape, flush_pending_escape,
}
use qwertty.Input.Reports.{TerminalSize, ResizeEvent}
use qwertty.Prelude.{
  ℕ, zero, suc, ◌-◌, Bool, true, false, ◌&&◌, ◌||◌, not, Option, none, some, List, [], ◌∷◌, ◌++◌,
  Bytes, length, ltb, ◌==◌, if◌then◌else◌, ◌>>=◌,
}
use qwertty.Query.Probe.{is_fence}
use qwertty.Session.{TerminalDevice, TerminalSession, enter, leave}

-- The fields that the queries and the event loop use.
pub record TokioTerminalSession : Type 0 where
  pub decoder : SemanticDecoder
  pub correlator : Correlator
  pub pending : Events
  pub active_query : Option ℕ
  pub active_probe : List ℕ
  pub has_esc_flush_timeout : Bool

unfoldable pub is_resize : Event InputEvent → Bool
is_resize (input (resize event)) = true
is_resize (input other) = false
is_resize (syntax token) = false

abbrev pub any_resize : Events → Bool
any_resize [] = false
any_resize (event ∷ events) = is_resize event || any_resize events

-- `take_coalesced_event`: the event and the queue behind it.
unfoldable pub take_coalesced_event : Events → Option (Event InputEvent × Events)
take_coalesced_event [] = none
take_coalesced_event (event ∷ pending) =
    let next = take_coalesced_event pending in
    if is_resize event && any_resize pending then next else some (event, pending)

-- The loop of `feed_events_into_query` and `drain_pending_into_query`: the correlator, the events that
-- are kept, and the reply. What stands behind the reply is not fed.
abbrev pub feed_step :
    ℕ
    → Events
    → Correlator × Feed InputEvent
    → (Correlator → Correlator × Events × Option Reply)
    → Correlator × Events × Option Reply
feed_step id events (c, completed other reply) next =
    let (c', taken) = take_reply c id in
    let rest = next c in if other == id then (c', events, taken) else rest
feed_step id events (c, passthrough event) next =
    let (c', kept, reply) = next c in (c', event ∷ kept, reply)

unfoldable pub feed_query : ℕ → Events → Correlator → Correlator × Events × Option Reply
feed_query id [] c = (c, [], none)
feed_query id (event ∷ events) c =
    feed_step id events (Correlate.feed c event) (λ c'. feed_query id events c')

unfoldable pub feed_events_into_query :
    ℕ → Events → TokioTerminalSession → TokioTerminalSession × Option Reply
feed_events_into_query id events s =
    let (c, kept, reply) = feed_query id events s.correlator in
    (record s { correlator = c; pending = s.pending ++ kept }, reply)

unfoldable pub drain_pending_into_query :
    ℕ → TokioTerminalSession → TokioTerminalSession × Option Reply
drain_pending_into_query id s =
    let (c, kept, reply) = feed_query id s.pending s.correlator in
    (record s { correlator = c; pending = kept }, reply)

-- The loop of `buffer_events`.
abbrev pub buffer_step : Correlator × Feed InputEvent → Events → Correlator × Events
buffer_step (c, passthrough event) pending = (c, pending ++ event ∷ [])
buffer_step (c, completed id reply) pending = (c, pending)

unfoldable pub buffer_events : Events → TokioTerminalSession → TokioTerminalSession
buffer_events [] s = s
buffer_events (event ∷ events) s =
    let (c, pending) = buffer_step (Correlate.feed s.correlator event) s.pending in
    buffer_events events (record s { correlator = c; pending = pending })

-- `READ_BUFFER_LEN`
abbrev pub read_buffer_len : ℕ
read_buffer_len = 1024

-- `read_events` behind the read, on its bytes.
unfoldable pub decode_read : Bytes → SemanticDecoder → Option (SemanticDecoder × Events)
decode_read bytes d = Input.feed d bytes >>= λ (d', events).
    let (d'', flushed) = finish d' in
    let settled = ltb (length bytes) read_buffer_len && has_settled_text d' in
    some (if settled then (d'', events ++ flushed) else (d', events))

-- What awaiting a read ends with: the deadline, an error of the read, or its bytes, none at the end of
-- the input.
pub data Awaited (E : Type 0) : Type 0 where
  elapsed : Awaited E
  read_failed : E → Awaited E
  readable : Bytes → Awaited E

-- The errors of a query that are no error of a write.
pub data AsyncError (E : Type 0) : Type 0 where
  device : E → AsyncError E
  query_timeout unexpected_eof : AsyncError E

pub data Result (E A : Type 0) : Type 0 where
  ok : A → Result E A
  failed : AsyncError E → Result E A

abbrev pub swept : Option ℕ → TokioTerminalSession → TokioTerminalSession
swept none s = s
swept (some id) s = record s {
  correlator = (resolve s.correlator id cancelled).0;
  active_query = none;
}

unfoldable pub sweep_active_query : TokioTerminalSession → TokioTerminalSession
sweep_active_query s = swept s.active_query s

abbrev pub resolve_list : Resolution → List ℕ → Correlator → Correlator
resolve_list resolution [] c = c
resolve_list resolution (id ∷ ids) c = resolve_list resolution ids (resolve c id resolution).0

unfoldable pub sweep_active_probe : TokioTerminalSession → TokioTerminalSession
sweep_active_probe s = record s {
  correlator = resolve_list cancelled s.active_probe s.correlator;
  active_probe = [];
}

-- The expectation resolved, and no query active.
abbrev pub end_query : ℕ → Resolution → TokioTerminalSession → TokioTerminalSession
end_query id resolution s = record s {
  correlator = (resolve s.correlator id resolution).0;
  active_query = none;
}

module _ {E : Type 0} where
  -- `if let Some(reply) = …` ends the query, and else it goes on.
  abbrev pub replied_or :
      TokioTerminalSession × Option Reply
      → (TokioTerminalSession → Option (TokioTerminalSession × Result E Reply))
      → Option (TokioTerminalSession × Result E Reply)
  replied_or (s, some reply) next = some (record s { active_query = none }, ok reply)
  replied_or (s, none) next = next s

  -- The deadline loop of `run_query`; `is_eof` tells the errors that are an unexpected end of input.
  unfoldable pub await_reply :
      (E → Bool)
      → ℕ
      → List (Awaited E)
      → TokioTerminalSession
      → Option (TokioTerminalSession × Result E Reply)
  await_reply is_eof id [] s = none
  await_reply is_eof id (elapsed ∷ waits) s = some (end_query id timeout s, failed query_timeout)
  await_reply is_eof id (read_failed error ∷ waits) s =
      some (end_query id (if is_eof error then eof else cancelled) s, failed (device error))
  await_reply is_eof id (readable [] ∷ waits) s = some (end_query id eof s, failed unexpected_eof)
  await_reply is_eof id (readable (byte ∷ bytes) ∷ waits) s =
      decode_read (byte ∷ bytes) s.decoder >>= λ (decoder, events).
      replied_or (feed_events_into_query id events (record s { decoder = decoder }))
        (await_reply is_eof id waits)

  -- `run_query` behind the write of the request, whose error it returns.
  abbrev pub after_request :
      (E → Bool)
      → ℕ
      → List (Awaited E)
      → TokioTerminalSession
      → Option E
      → Option (TokioTerminalSession × Result E Reply)
  after_request is_eof id waits s (some error) = some (s, failed (device error))
  after_request is_eof id waits s none =
      replied_or (drain_pending_into_query id s) (await_reply is_eof id waits)

  -- `run_query`; `sent` is what the write of the request comes to.
  unfoldable pub run_async_query :
      (E → Bool)
      → Expectation
      → Option E
      → List (Awaited E)
      → TokioTerminalSession
      → Option (TokioTerminalSession × Result E Reply)
  run_async_query is_eof expectation sent waits s =
      let swept = sweep_active_probe (sweep_active_query s) in
      must_register swept.correlator expectation >>= λ (c, id).
      after_request is_eof id waits (record swept { correlator = c; active_query = some id }) sent
