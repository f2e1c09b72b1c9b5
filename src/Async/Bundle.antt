-- ===== src/Async/Bundle.antt =====
-- The asynchronous probe of the capabilities (`probe_capabilities_inner` of src/tokio_session.rs).
pub mod Gathers
pub mod Returns
pub mod Room
use qwertty.Caps.{Capabilities, EnvSource, env_seeded_capabilities}
use qwertty.Caps.Bundle.{ProbeBundle, register_bundle, ids, resolve_all, store_bundle_reply}
use qwertty.Correlate
use qwertty.Correlate.{
  Correlator, Feed, completed, passthrough, Resolution, timeout, eof, cancelled, no_reply,
  take_reply, resolve,
}
use qwertty.Input.{InputEvent, Events}
use qwertty.Prelude.{
  Bool, true, false, ◌||◌, Option, none, some, List, [], ◌∷◌, ◌++◌, if◌then◌else◌, ◌>>=◌,
}
use qwertty.Query.Probe.{is_fence}
use qwertty.Async.{
  TokioTerminalSession, Awaited, elapsed, read_failed, readable, device, Result, ok, failed,
  decode_read, sweep_active_query, sweep_active_probe,
}

-- `feed_batch_into_bundle`: whether the fence completed; the `expect` on `take_reply` is the `none`.
abbrev pub bundle_step :
    EnvSource
    → ProbeBundle
    → Correlator × Feed InputEvent
    → TokioTerminalSession
    → Capabilities
    → Option (TokioTerminalSession × Capabilities × Bool)
bundle_step env bundle (c, passthrough event) s capabilities =
    some (record s { correlator = c; pending = s.pending ++ event ∷ [] }, capabilities, false)
bundle_step env bundle (c, completed id held) s capabilities =
    let (c', taken) = take_reply c id in
    taken >>= λ reply. some (
      record s { correlator = c' },
      store_bundle_reply env bundle id reply capabilities,
      is_fence bundle.fence id,
    )

unfoldable pub feed_batch_into_bundle :
    EnvSource
    → ProbeBundle
    → Events
    → TokioTerminalSession
    → Capabilities
    → Option (TokioTerminalSession × Capabilities × Bool)
feed_batch_into_bundle env bundle [] s capabilities = some (s, capabilities, false)
feed_batch_into_bundle env bundle (event ∷ events) s capabilities =
    bundle_step env bundle (Correlate.feed s.correlator event) s capabilities >>= λ (s', c', fence).
    feed_batch_into_bundle env bundle events s' c' >>= λ (s'', c'', fenced).
    some (s'', c'', fence || fenced)

unfoldable pub finish_probe : ProbeBundle → TokioTerminalSession → TokioTerminalSession
finish_probe bundle s = record s {
  correlator = resolve_all bundle s.correlator no_reply;
  active_probe = [];
}

module _ {E : Type 0} where
  -- Step 5 of `probe_capabilities_inner`: what is left to do behind a batch.
  abbrev pub fenced_or :
      ProbeBundle
      → TokioTerminalSession × Capabilities × Bool
      → (TokioTerminalSession
          → Capabilities
          → Option (TokioTerminalSession × Result E Capabilities))
      → Option (TokioTerminalSession × Result E Capabilities)
  fenced_or bundle (s, capabilities, true) next = some (finish_probe bundle s, ok capabilities)
  fenced_or bundle (s, capabilities, false) next = next s capabilities

  unfoldable pub await_bundle :
      EnvSource
      → (E → Bool)
      → ProbeBundle
      → List (Awaited E)
      → TokioTerminalSession
      → Capabilities
      → Option (TokioTerminalSession × Result E Capabilities)
  await_bundle env is_eof bundle [] s c = none
  await_bundle env is_eof bundle (elapsed ∷ waits) s c = some (finish_probe bundle s, ok c)
  await_bundle env is_eof bundle (read_failed error ∷ waits) s c =
      if is_eof error
      then some (finish_probe bundle s, ok c)
      else some (
        record s { correlator = resolve_all bundle s.correlator cancelled; active_probe = [] },
        failed (device error),
      )
  await_bundle env is_eof bundle (readable [] ∷ waits) s c = some (finish_probe bundle s, ok c)
  await_bundle env is_eof bundle (readable (byte ∷ bytes) ∷ waits) s c =
      decode_read (byte ∷ bytes) s.decoder >>= λ (decoder, events).
      feed_batch_into_bundle env bundle events (record s { decoder = decoder }) c >>= λ fed.
      fenced_or bundle fed (await_bundle env is_eof bundle waits)

  abbrev pub bundle_sent :
      EnvSource
      → (E → Bool)
      → ProbeBundle
      → List (Awaited E)
      → TokioTerminalSession
      → Option E
      → Option (TokioTerminalSession × Result E Capabilities)
  bundle_sent env is_eof bundle waits s (some error) = some (s, failed (device error))
  bundle_sent env is_eof bundle waits s none =
      feed_batch_into_bundle env bundle s.pending (record s { pending = [] })
        (env_seeded_capabilities env)
      >>= λ fed. fenced_or bundle fed (await_bundle env is_eof bundle waits)

  -- `probe_capabilities_inner`
  unfoldable pub probe_capabilities_inner :
      EnvSource
      → (E → Bool)
      → Option E
      → List (Awaited E)
      → TokioTerminalSession
      → Option (TokioTerminalSession × Result E Capabilities)
  probe_capabilities_inner env is_eof sent waits s =
      let swept = sweep_active_probe (sweep_active_query s) in
      register_bundle swept.correlator >>= λ (c, bundle).
      bundle_sent env is_eof bundle waits
        (record swept { correlator = c; active_probe = swept.active_probe ++ ids bundle }) sent
