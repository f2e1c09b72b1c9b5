-- ===== src/Async/Await.antt =====
-- The loop of `next_event` (src/tokio_session.rs).
use qwertty.Correlate.Matcher.{Event}
use qwertty.Input.{InputEvent, has_pending_lone_escape, flush_pending_escape}
use qwertty.Prelude.{◌&&◌, Option, none, some, List, [], ◌∷◌, if◌then◌else◌, ◌>>=◌}
use qwertty.Async.{
  TokioTerminalSession, Awaited, elapsed, read_failed, readable, device, unexpected_eof, Result, ok,
  failed, decode_read, take_coalesced_event, buffer_events,
}

module _ {E : Type 0} where
  -- One await of `next_event`: whether its deadline, which it has for a lone Escape only, ran out.
  unfoldable pub await_event :
      Awaited E
      → TokioTerminalSession
      → (TokioTerminalSession → Option (TokioTerminalSession × Result E (Event InputEvent)))
      → Option (TokioTerminalSession × Result E (Event InputEvent))
  await_event (read_failed error) s next = some (s, failed (device error))
  await_event (readable []) s next = some (s, failed unexpected_eof)
  await_event (readable (byte ∷ bytes)) s next =
      decode_read (byte ∷ bytes) s.decoder >>= λ (decoder, events).
      next (buffer_events events (record s { decoder = decoder }))
  await_event elapsed s next =
      let (decoder, flushed) = flush_pending_escape s.decoder in
      let again = next (record s { decoder = decoder }) in
      let other = next s in
      if s.has_esc_flush_timeout && has_pending_lone_escape s.decoder
      then elim flushed [
        | some event ↦ some (record s { decoder = decoder }, ok event)
        | none ↦ again
      ]
      else other

  -- `next_event`; without a deadline a wait does not elapse, and such a wait is passed over.
  unfoldable pub next_event :
      List (Awaited E)
      → TokioTerminalSession
      → Option (TokioTerminalSession × Result E (Event InputEvent))
  next_event [] s = elim (take_coalesced_event s.pending) [
    | some (event, pending) ↦ some (record s { pending = pending }, ok event)
    | none ↦ none
  ]
  next_event (wait ∷ waits) s = elim (take_coalesced_event s.pending) [
    | some (event, pending) ↦ some (record s { pending = pending }, ok event)
    | none ↦ await_event wait (record s { pending = [] }) (next_event waits)
  ]
