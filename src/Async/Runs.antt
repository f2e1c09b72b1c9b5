-- ===== src/Async/Runs.antt =====
-- Whole runs of an asynchronous query (`run_query` of src/tokio_session.rs).
use qwertty.Async.{
  TokioTerminalSession, feed_query, feed_events_into_query, drain_pending_into_query, decode_read,
  Awaited, elapsed, read_failed, readable, device, query_timeout, unexpected_eof, Result, swept,
  sweep_active_query, resolve_list, sweep_active_probe, replied_or, await_reply, after_request,
  run_async_query,
}
use qwertty.Async.Queries.{
  Fed, feed_query-Fed, reads_of, Settled, given_up, Settled-decode_read, fed-Settled, at_end,
}
use qwertty.Caps.Bundle.{must_register}
use qwertty.Correlate.{timeout, eof, cancelled, resolve}
use qwertty.Correlate.Matcher.{Expectation, Reply}
use qwertty.Input.{Events}
use qwertty.Prelude.{
  ℕ, ◌+◌, ◌%◌, ◌^◌, ◌≡◌, refl, sym, ap, ◌∙◌, subst, Bool, Option, none, some, List, [], ◌∷◌, ◌++◌,
  Bytes, ◌>>=◌, if◌then◌else◌,
}
use qwertty.Query.Kept.{bind_some}
use qwertty.Query.Spans.{waiting_for, cleared}
use qwertty.Query.Tidy.{resolve-waiting, resolve-cleared, must_register-cleared}

module _ {E : Type 0} (is_eof : E → Bool) (e : Expectation) (id n : ℕ) where
  feed_events-Settled :
      (events : Events) (reads : List Bytes) (s s' : TokioTerminalSession) (result : Result E Reply)
      (next : TokioTerminalSession → Option (TokioTerminalSession × Result E Reply))
      → s.correlator ≡ waiting_for e id n
      → ((s1 : TokioTerminalSession)
          → s1.correlator ≡ waiting_for e id n
          → s1.decoder ≡ s.decoder
          → s1.pending ≡ s.pending ++ events
          → next s1 ≡ some (s', result)
          → Settled e (s.pending ++ events) s.decoder reads s' result)
      → replied_or (feed_events_into_query id events s) next ≡ some (s', result)
      → Settled e (s.pending ++ events) s.decoder reads s' result
  unfolding feed_events_into_query
  feed_events-Settled events reads s s' result next c ih h =
      fed-Settled is_eof e id n events reads s s' result next (feed_query id events s.correlator)
        (subst (λ d. Fed e id n events (feed_query id events d)) (sym c)
          (feed_query-Fed e id n events))
        ih h

  pub await_reply-Settled :
      (waits : List (Awaited E)) (s s' : TokioTerminalSession) (result : Result E Reply)
      → s.correlator ≡ waiting_for e id n
      → await_reply is_eof id waits s ≡ some (s', result)
      → Settled e s.pending s.decoder (reads_of waits) s' result
  unfolding await_reply
  await_reply-Settled [] s s' result c h = cc
  await_reply-Settled (elapsed ∷ waits) s s' result c h =
      at_end is_eof e id n s.pending s.decoder (reads_of waits)
        (given_up is_eof e id n timeout query_timeout (reads_of waits) s c) h
  await_reply-Settled (read_failed error ∷ waits) s s' result c h =
      at_end is_eof e id n s.pending s.decoder (reads_of waits)
        (given_up is_eof e id n (if is_eof error then eof else cancelled) (device error)
          (reads_of waits) s c)
        h
  await_reply-Settled (readable [] ∷ waits) s s' result c h =
      at_end is_eof e id n s.pending s.decoder (reads_of waits)
        (given_up is_eof e id n eof unexpected_eof (reads_of waits) s c) h
  await_reply-Settled (readable (byte ∷ bytes) ∷ waits) s s' result c h =
      let chunk = byte ∷ bytes in
      let ((decoder, events), read, rest) =
        bind_some (decode_read chunk s.decoder)
          (λ (decoder, events).
            replied_or (feed_events_into_query id events (record s { decoder = decoder }))
              (await_reply is_eof id waits))
          h in
      Settled-decode_read is_eof e id n s.pending events s.decoder decoder chunk (reads_of waits) s'
        result read
        (feed_events-Settled events (reads_of waits) (record s { decoder = decoder }) s' result
          (await_reply is_eof id waits) c
          (λ s1 c1 d1 p1 g.
            subst (λ d. Settled e (s.pending ++ events) d (reads_of waits) s' result) d1
              (subst (λ p. Settled e p s1.decoder (reads_of waits) s' result) p1
                (await_reply-Settled waits s1 s' result c1 g)))
          rest)

  -- Behind the request: the events that wait are fed first.
  after_request-Settled :
      (waits : List (Awaited E)) (s s' : TokioTerminalSession) (result : Result E Reply)
      → s.correlator ≡ waiting_for e id n
      → after_request is_eof id waits s none ≡ some (s', result)
      → Settled e s.pending s.decoder (reads_of waits) s' result
  unfolding drain_pending_into_query
  after_request-Settled waits s s' result c h =
      fed-Settled is_eof e id n s.pending (reads_of waits) (record s { pending = [] }) s' result
        (await_reply is_eof id waits) (feed_query id s.pending s.correlator)
        (subst (λ d. Fed e id n s.pending (feed_query id s.pending d)) (sym c)
          (feed_query-Fed e id n s.pending))
        (λ s1 c1 d1 p1 g.
          subst (λ d. Settled e s.pending d (reads_of waits) s' result) d1
            (subst (λ p. Settled e p s1.decoder (reads_of waits) s' result) p1
              (await_reply-Settled waits s1 s' result c1 g)))
        h

-- Before a query: no slot is there, or that of a query whose future was dropped.
pub data Idle (s : TokioTerminalSession) : Type 0 where
  clear : (n : ℕ) → s.correlator ≡ cleared n → s.active_probe ≡ [] → Idle s
  dropped :
      (e : Expectation) (id n : ℕ)
      → s.correlator ≡ waiting_for e id n
      → s.active_query ≡ some id
      → s.active_probe ≡ []
      → Idle s

abbrev Swept : TokioTerminalSession → TokioTerminalSession → Type 0
Swept s s' =
    (n : ℕ) × (s'.correlator ≡ cleared n) × (s'.pending ≡ s.pending) × (s'.decoder ≡ s.decoder)

swept-clear :
    (s : TokioTerminalSession) (o : Option ℕ) (n : ℕ)
    → s.correlator ≡ cleared n
    → (swept o s).correlator ≡ cleared n
swept-clear s none n c = c
swept-clear s (some i) n c = ap (λ d. (resolve d i cancelled).0) c ∙ resolve-cleared i n cancelled

swept_state :
    (s : TokioTerminalSession) (o : Option ℕ)
    → ((swept o s).pending ≡ s.pending)
      × ((swept o s).decoder ≡ s.decoder)
      × ((swept o s).active_probe ≡ s.active_probe)
swept_state s none = (refl, refl, refl)
swept_state s (some i) = (refl, refl, refl)

sweeps : (s : TokioTerminalSession) → Idle s → Swept s (sweep_active_probe (sweep_active_query s))
unfolding sweep_active_probe sweep_active_query
sweeps s (clear n c p) =
    let (q, d, probe) = swept_state s s.active_query in
    (
      n,
      ap (λ l. resolve_list cancelled l (swept s.active_query s).correlator) (probe ∙ p)
          ∙ swept-clear s s.active_query n c,
      q,
      d,
    )
sweeps s (dropped e id n c live p) =
    let (q, d, probe) = swept_state s s.active_query in
    let gone : (swept s.active_query s).correlator ≡ cleared n =
      ap (λ o. (swept o s).correlator) live
      ∙ ap (λ k. (resolve k id cancelled).0) c
      ∙ resolve-waiting e id n cancelled in
    (
      n,
      ap (λ l. resolve_list cancelled l (swept s.active_query s).correlator) (probe ∙ p) ∙ gone,
      q,
      d,
    )

-- From a session without a slot, or with that of a query whose future was dropped, a query whose
-- request was written ends so: some of the reads were decoded; of the events that waited and those
-- that the reads gave, one is its reply and all others wait in their order, or it fails and all of
-- them wait; no slot is left and no query is active.
pub run_async_query-Settled :
    {E : Type 0} (is_eof : E → Bool) (e : Expectation) (waits : List (Awaited E))
    (s s' : TokioTerminalSession) (result : Result E Reply)
    → Idle s
    → run_async_query is_eof e none waits s ≡ some (s', result)
    → Settled e s.pending s.decoder (reads_of waits) s' result
unfolding run_async_query
run_async_query-Settled is_eof e waits s s' result idle h =
    let (n, c, p, d) = sweeps s idle in
    let start = sweep_active_probe (sweep_active_query s) in
    let registered : must_register start.correlator e
        ≡ some (waiting_for e n ((n + 1) % 2 ^ 64), n) =
      ap (λ k. must_register k e) c ∙ must_register-cleared n e in
    let here : after_request is_eof n waits
          (record start { correlator = waiting_for e n ((n + 1) % 2 ^ 64); active_query = some n })
          none
        ≡ some (s', result) =
      sym (
        ap
          (λ m. m >>= λ (k, id).
            after_request is_eof id waits (record start { correlator = k; active_query = some id })
              none)
          registered)
      ∙ h in
    subst (λ queued. Settled e queued s.decoder (reads_of waits) s' result) p
      (subst (λ k. Settled e start.pending k (reads_of waits) s' result) d
        (after_request-Settled is_eof e n ((n + 1) % 2 ^ 64) waits _ s' result refl here))
