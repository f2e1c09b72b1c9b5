-- ===== src/Query/Probe/Honest.antt =====
-- Runs of the synchronous probe (`probe_capabilities_from_env` of src/session.rs) and their answers.
use qwertty.Caps.{
  Capabilities, EnvSource, ProbeSkip, probe_skip_from_env, skipped_capabilities,
  env_seeded_capabilities,
}
use qwertty.Caps.Bundle.{ProbeBundle, ids}
use qwertty.Caps.Honest.{has_evidence, store_replies, stored-has_evidence, seeded}
use qwertty.Caps.Registers.{register_bundle-some}
use qwertty.Prelude.{
  ◌≡◌, refl, ap, Bool, true, Option, none, some, List, [], ◌∷◌, Bool-cases, Option-cases, inl, inr,
  if◌then◌else◌,
}
use qwertty.Query.{QueryState, Replies}
use qwertty.Query.Driver.{
  Wait, elapsed, no_descriptor, idle, poll_failed, read_failed, readable, QueryError, Answer, ok,
  failed, QuerySession, sweep_active_query, with_device,
}
use qwertty.Query.Ends.{match_chunk-Gives, has_end}
use qwertty.Query.Probe.{
  is_fenced, probe_read, probe_loop, probe_sent, run_probe, probe_capabilities,
}
use qwertty.Session.{TerminalDevice}

-- An answer whose findings have evidence, or an error.
abbrev pub IsHonest : {E : Type 0} → Answer E Capabilities → Type 0
IsHonest (ok c) = has_evidence c ≡ true
IsHonest (failed error) = Unit {0}

-- A result with an honest answer.
abbrev pub Returns : {S E : Type 0} → Option (S × Answer E Capabilities) → Type 0
Returns {S} {E} m =
    (s : S) × (answer : Answer E Capabilities) × (m ≡ some (s, answer)) × IsHonest answer

module _ {E : Type 0} (env : EnvSource) (is_eof : E → Bool) (bundle : ProbeBundle) where
  probe_read-Returns :
      (read : QueryState × Replies) (c : Capabilities)
      (next : QueryState → Capabilities → Option (QueryState × Answer E Capabilities))
      → has_evidence c ≡ true
      → ((q : QueryState) (c' : Capabilities) → has_evidence c' ≡ true → Returns (next q c'))
      → Returns (probe_read env bundle read c next)
  probe_read-Returns (q, replies) c next h ih =
      let kept = stored-has_evidence env bundle replies c h in
      elim (Bool-cases (is_fenced bundle replies)) [
        | inl fenced ↦ rw fenced (_, _, refl, kept)
        | inr open_ ↦ rw open_ (ih q (store_replies env bundle replies c) kept)
      ]

  read_failed-Returns :
      (error : E) (q : QueryState) (c : Capabilities)
      → has_evidence c ≡ true
      → Returns {S = QueryState} {E = E}
          (some (q, (if is_eof error then ok c else failed (QueryError.device error))))
  read_failed-Returns error q c h = elim (Bool-cases (is_eof error)) [
    | inl e ↦ rw e (_, _, refl, h)
    | inr e ↦ rw e (_, _, refl, tt)
  ]

  probe_loop-Returns :
      (waits : List (Wait E)) (q : QueryState) (c : Capabilities)
      → has_end waits ≡ true
      → has_evidence c ≡ true
      → Returns (probe_loop env is_eof bundle waits q c)
  unfolding probe_loop
  probe_loop-Returns [] q c e h = cc
  probe_loop-Returns (elapsed ∷ waits) q c e h = (_, _, refl, h)
  probe_loop-Returns (idle ∷ waits) q c e h = (_, _, refl, h)
  probe_loop-Returns (no_descriptor ∷ waits) q c e h = (_, _, refl, tt)
  probe_loop-Returns (poll_failed error ∷ waits) q c e h = (_, _, refl, tt)
  probe_loop-Returns (read_failed error ∷ waits) q c e h = read_failed-Returns error q c h
  probe_loop-Returns (readable [] ∷ waits) q c e h = (_, _, refl, h)
  probe_loop-Returns (readable (byte ∷ bytes) ∷ waits) q c e h =
      let (read, k) = match_chunk-Gives (ids bundle) (byte ∷ bytes) q in
      rw k (
        probe_read-Returns read c (probe_loop env is_eof bundle waits) h
          (λ q' c' h'. probe_loop-Returns waits q' c' e h'))

with_device-Returns :
    {D E : Type 0} (d : D) {m : Option (QueryState × Answer E Capabilities)}
    → Returns m
    → Returns (with_device d m)
with_device-Returns d (q, answer, e, h) = (_, answer, ap (with_device d) e, h)

skipped-has_evidence :
    (env : EnvSource) (skip : ProbeSkip) → has_evidence (skipped_capabilities skip env) ≡ true
unfolding skipped_capabilities has_evidence
skipped-has_evidence env skip = unfold has_evidence in (seeded env).0

module _ {D E : Type 0} (terminal : TerminalDevice D E) (std_env : EnvSource)
    (is_eof : E → Bool) where
  probe_sent-Returns :
      (bundle : ProbeBundle) (waits : List (Wait E)) (q : QueryState) (sent : D × Option E)
      → has_end waits ≡ true
      → Returns (probe_sent std_env is_eof bundle waits q sent)
  probe_sent-Returns bundle waits q (d, some error) e = (_, _, refl, tt)
  probe_sent-Returns bundle waits q (d, none) e = with_device-Returns d (
      probe_loop-Returns std_env is_eof bundle waits q (env_seeded_capabilities std_env) e
        (seeded std_env).0)

  -- The probe returns, whatever is registered, answered or skipped, if the time runs out in one of
  -- its rounds, or the poll or the read fails or the input ends there; and every capability that its
  -- answer gives a value has evidence for it.
  pub probe_capabilities-Returns :
      (env : EnvSource) (waits : List (Wait E)) (s : QuerySession D)
      → has_end waits ≡ true
      → Returns (probe_capabilities terminal std_env is_eof env waits s)
  unfolding probe_capabilities run_probe
  probe_capabilities-Returns env waits s e = elim (Option-cases (probe_skip_from_env env)) [
    | inl none_ ↦
        (let (c, bundle, k) = register_bundle-some (sweep_active_query s.query).correlator in
          rw (none_, probe_capabilities) (rw k (probe_sent-Returns bundle waits _ _ e)))
    | inr (skip, k) ↦ rw (k, probe_capabilities) (_, _, refl, skipped-has_evidence env skip)
  ]
