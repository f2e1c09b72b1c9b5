-- ===== src/Query/Probe.antt =====
-- The probe of the capabilities (`probe_capabilities_from_env` of src/session.rs) over the bundle of
-- src/caps.rs.
pub mod Honest
use qwertty.Caps.{
  Capabilities, EnvSource, probe_skip_from_env, skipped_capabilities, env_seeded_capabilities,
}
use qwertty.Caps.Bundle.{ProbeBundle, register_bundle, probe_bundle_commands, ids, resolve_all}
use qwertty.Caps.Honest.{store_replies}
use qwertty.Correlate.{Correlator, Resolution, no_reply, cancelled}
use qwertty.Prelude.{
  ℕ, Bool, true, false, ◌||◌, Option, none, some, List, [], ◌∷◌, Bytes, ◌==◌, if◌then◌else◌, ◌>>=◌,
}
use qwertty.Query.{QueryState, Replies, match_chunk}
use qwertty.Query.Driver.{
  Wait, elapsed, no_descriptor, idle, poll_failed, read_failed, readable, QueryError, Answer, ok,
  failed, QuerySession, close_query, sweep_active_query, with_device, send,
}
use qwertty.Session.{TerminalDevice}

-- `Some(id) == bundle.fence()` for one of the replies
abbrev pub is_fence : Option ℕ → ℕ → Bool
is_fence none id = false
is_fence (some fence) id = fence == id

abbrev pub is_fenced : ProbeBundle → Replies → Bool
is_fenced bundle [] = false
is_fenced bundle ((id, reply) ∷ replies) = is_fence bundle.fence id || is_fenced bundle replies

-- `bundle.resolve_all(&mut self.query.correlator, …)`
abbrev pub resolve_bundle : ProbeBundle → Resolution → QueryState → QueryState
resolve_bundle bundle resolution q = record q {
  correlator = resolve_all bundle q.correlator resolution;
}

module _ {E : Type 0} where
  abbrev pub probe_read :
      EnvSource
      → ProbeBundle
      → QueryState × Replies
      → Capabilities
      → (QueryState → Capabilities → Option (QueryState × Answer E Capabilities))
      → Option (QueryState × Answer E Capabilities)
  probe_read env bundle (q, replies) c next =
      let c' = store_replies env bundle replies c in
      let rest = next q c' in
      if is_fenced bundle replies then some (resolve_bundle bundle no_reply q, ok c') else rest

  -- The deadline loop of the probe; `is_eof` tells the errors of a read that are an unexpected end of
  -- the input.
  unfoldable pub probe_loop :
      EnvSource
      → (E → Bool)
      → ProbeBundle
      → List (Wait E)
      → QueryState
      → Capabilities
      → Option (QueryState × Answer E Capabilities)
  probe_loop env is_eof bundle [] q c = none
  probe_loop env is_eof bundle (elapsed ∷ waits) q c = some (resolve_bundle bundle no_reply q, ok c)
  probe_loop env is_eof bundle (idle ∷ waits) q c = some (resolve_bundle bundle no_reply q, ok c)
  probe_loop env is_eof bundle (no_descriptor ∷ waits) q c =
      some (resolve_bundle bundle cancelled q, failed QueryError.unsupported)
  probe_loop env is_eof bundle (poll_failed error ∷ waits) q c =
      some (q, failed (QueryError.device error))
  probe_loop env is_eof bundle (read_failed error ∷ waits) q c =
      some (q, (if is_eof error then ok c else failed (QueryError.device error)))
  probe_loop env is_eof bundle (readable [] ∷ waits) q c = some (close_query (ids bundle) q, ok c)
  probe_loop env is_eof bundle (readable (byte ∷ bytes) ∷ waits) q c =
      match_chunk (ids bundle) (byte ∷ bytes) q >>= λ read.
      probe_read env bundle read c (probe_loop env is_eof bundle waits)

  abbrev pub probe_sent :
      {D : Type 0}
      → EnvSource
      → (E → Bool)
      → ProbeBundle
      → List (Wait E)
      → QueryState
      → D × Option E
      → Option (QuerySession D × Answer E Capabilities)
  probe_sent env is_eof bundle waits q (d, some error) =
      some (record { device = d; query = q }, failed (QueryError.device error))
  probe_sent env is_eof bundle waits q (d, none) =
      with_device d (probe_loop env is_eof bundle waits q (env_seeded_capabilities env))

module _ {D E : Type 0} (terminal : TerminalDevice D E) (std_env : EnvSource)
    (is_eof : E → Bool) where
  -- Behind the guard for dumb terminals.
  unfoldable pub run_probe :
      List (Wait E) → QuerySession D → Option (QuerySession D × Answer E Capabilities)
  run_probe waits s =
      let q = sweep_active_query s.query in
      register_bundle q.correlator >>= λ (c, bundle).
      probe_sent std_env is_eof bundle waits (record q { correlator = c })
        (send terminal probe_bundle_commands.bytes s.device)

  -- `probe_capabilities_from_env`: the guard reads `env`, all else the environment of the process.
  unfoldable pub probe_capabilities :
      EnvSource → List (Wait E) → QuerySession D → Option (QuerySession D × Answer E Capabilities)
  probe_capabilities env waits s = elim (probe_skip_from_env env) [
    | some skip ↦ some (s, ok (skipped_capabilities skip env))
    | none ↦ run_probe waits s
  ]
