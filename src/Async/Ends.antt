-- ===== src/Async/Ends.antt =====
-- The end of an asynchronous query (`run_query` of src/tokio_session.rs).
use qwertty.Async.{
  TokioTerminalSession, Awaited, elapsed, read_failed, readable, Result, replied_or,
  feed_events_into_query, drain_pending_into_query, await_reply, run_async_query,
  sweep_active_query, sweep_active_probe,
}
use qwertty.Async.Bundle.Gathers.{decode_read-some}
use qwertty.Async.Queries.{reads_of, Settled}
use qwertty.Async.Runs.{Idle, run_async_query-Settled}
use qwertty.Caps.Registers.{must_register-some}
use qwertty.Correlate.Matcher.{Expectation, Reply}
use qwertty.Prelude.{ℕ, ◌≡◌, refl, Bool, true, false, ◌||◌, Option, none, some, List, [], ◌∷◌}
use qwertty.Query.Ends.{Gives}

-- One of the awaits ends the loop.
abbrev pub ends_loop : {E : Type 0} → Awaited E → Bool
ends_loop (readable (byte ∷ bytes)) = false
ends_loop other = true

abbrev pub has_end : {E : Type 0} → List (Awaited E) → Bool
has_end [] = false
has_end (wait ∷ waits) = ends_loop wait || has_end waits

module _ {E : Type 0} (is_eof : E → Bool) where
  replied_or-Gives :
      (r : TokioTerminalSession × Option Reply)
      (next : TokioTerminalSession → Option (TokioTerminalSession × Result E Reply))
      → ((s : TokioTerminalSession) → Gives (next s))
      → Gives (replied_or r next)
  replied_or-Gives (s, some reply) next h = (_, refl)
  replied_or-Gives (s, none) next h = h s

  await_reply-Gives :
      (id : ℕ) (waits : List (Awaited E)) (s : TokioTerminalSession)
      → has_end waits ≡ true
      → Gives (await_reply is_eof id waits s)
  unfolding await_reply
  await_reply-Gives id [] s h = cc
  await_reply-Gives id (elapsed ∷ waits) s h = (_, refl)
  await_reply-Gives id (read_failed error ∷ waits) s h = (_, refl)
  await_reply-Gives id (readable [] ∷ waits) s h = (_, refl)
  await_reply-Gives id (readable (byte ∷ bytes) ∷ waits) s h =
      let (decoder, events, read) = decode_read-some (byte ∷ bytes) s.decoder in
      rw read (
        replied_or-Gives (feed_events_into_query id events (record s { decoder = decoder }))
          (await_reply is_eof id waits) (λ s1. await_reply-Gives id waits s1 h))

  run_async_query-Gives :
      (e : Expectation) (waits : List (Awaited E)) (s : TokioTerminalSession)
      → has_end waits ≡ true
      → Gives (run_async_query is_eof e none waits s)
  unfolding run_async_query
  run_async_query-Gives e waits s h =
      let (c, id, registered) =
        must_register-some (sweep_active_probe (sweep_active_query s)).correlator e in
      rw registered (
        replied_or-Gives (drain_pending_into_query id _) (await_reply is_eof id waits)
          (λ s1. await_reply-Gives id waits s1 h))

-- From a session without a slot, or with that of a query whose future was dropped, a query whose
-- request was written returns if one of its awaits ends it. Then some of the reads were decoded; of
-- the events that waited and those that the reads gave, one is its reply and all others wait in their
-- order, or it fails and all of them wait; no slot is left and no query is active.
pub run_async_query-Settles :
    {E : Type 0} (is_eof : E → Bool) (e : Expectation) (waits : List (Awaited E))
    (s : TokioTerminalSession)
    → Idle s
    → has_end waits ≡ true
    → (s' : TokioTerminalSession) × (result : Result E Reply) × (run_async_query is_eof e none waits
          s
        ≡ some (s', result))
      × Settled e s.pending s.decoder (reads_of waits) s' result
run_async_query-Settles is_eof e waits s idle h =
    let ((s', result), k) = run_async_query-Gives is_eof e waits s h in
    (s', result, k, run_async_query-Settled is_eof e waits s s' result idle k)
