-- ===== src/Async/Bundle/Returns.antt =====
-- Runs of the asynchronous probe (`probe_capabilities_inner` of src/tokio_session.rs): what it answers,
-- and what it leaves in the queue.
use qwertty.Async.{
  TokioTerminalSession, Awaited, elapsed, read_failed, readable, device, Result, ok, failed,
  decode_read, sweep_active_query, sweep_active_probe, swept, resolve_list,
}
use qwertty.Async.Bundle.{
  finish_probe, fenced_or, await_bundle, bundle_sent, probe_capabilities_inner,
}
use qwertty.Async.Bundle.Gathers.{
  Passed, at_end, passed, taken, decode_read-some, feed_batch_into_bundle-Batch,
}
use qwertty.Async.Bundle.Room.{Room, register_bundle-IsValid}
use qwertty.Async.Ends.{has_end}
use qwertty.Async.Queries.{reads_of, decode_reads}
use qwertty.Caps.{Capabilities, EnvSource, env_seeded_capabilities}
use qwertty.Caps.Bundle.{ProbeBundle, ids}
use qwertty.Caps.Honest.{has_evidence, seeded}
use qwertty.Correlate.{Correlator, Resolution, cancelled, resolve}
use qwertty.Correlate.Waiters.{resolve-Sound}
use qwertty.Correlate.Contract.{IsValid}
use qwertty.Input.{Events, SemanticDecoder}
use qwertty.Prelude.{
  ℕ, ◌≡◌, refl, sym, ap, ◌∙◌, subst, Bool, true, false, Option, none, some, List, [], ◌∷◌, ◌++◌,
  append_assoc, append-nil, Bytes, Bool-cases, inl, inr, ◌>>=◌,
}

-- Capabilities with evidence for each that has a value, or an error.
abbrev pub IsHonest : {E : Type 0} → Result E Capabilities → Type 0
IsHonest (ok c) = has_evidence c ≡ true
IsHonest (failed error) = Unit {0}

-- A result with an honest answer: some of the reads were decoded, and of the events that were still to
-- be fed and those that the reads gave all that are no reply wait behind the queue; no probe is active.
pub record Gathered {E : Type 0} (queued unfed : Events) (decoder : SemanticDecoder)
    (reads : List Bytes) (m : Option (TokioTerminalSession × Result E Capabilities)) : Type 0 where
  pub after : TokioTerminalSession
  pub result : Result E Capabilities
  pub read : List Bytes
  pub unread : List Bytes
  pub got : Events
  pub kept : Events
  pub returns : m ≡ some (after, result)
  pub honest : IsHonest result
  pub all_reads : reads ≡ read ++ unread
  pub decoded : decode_reads decoder read ≡ some (after.decoder, got)
  pub sorted : Passed (unfed ++ got) kept
  pub in_order : after.pending ≡ queued ++ kept
  pub no_probe : after.active_probe ≡ []

append-Passed :
    {events kept events' kept' : Events}
    → Passed events kept
    → Passed events' kept'
    → Passed (events ++ events') (kept ++ kept')
append-Passed at_end q = q
append-Passed (passed event p) q = passed event (append-Passed p q)
append-Passed (taken event e reply h p) q = taken event e reply h (append-Passed p q)

module _ {E : Type 0} (env : EnvSource) (is_eof : E → Bool) (bundle : ProbeBundle) where
  -- The end of a probe without another read.
  stops :
      (s after : TokioTerminalSession) (result : Result E Capabilities) (reads : List Bytes)
      → IsHonest result
      → after.decoder ≡ s.decoder
      → after.pending ≡ s.pending
      → after.active_probe ≡ []
      → Gathered s.pending [] s.decoder reads (some (after, result))
  unfolding decode_reads
  stops s after result reads h same queue none_left = record {
    after = after;
    result = result;
    read = [];
    unread = reads;
    got = [];
    kept = [];
    returns = refl;
    honest = h;
    all_reads = refl;
    decoded = ap (λ d. some (d, [])) (sym same);
    sorted = at_end;
    in_order = queue ∙ sym (append-nil s.pending);
    no_probe = none_left;
  }

  -- A read in front of the rest.
  reads_on :
      (s s1 : TokioTerminalSession) (chunk : Bytes) (reads : List Bytes) (events kept : Events)
      (m m' : Option (TokioTerminalSession × Result E Capabilities))
      → decode_read chunk s.decoder ≡ some (s1.decoder, events)
      → Passed events kept
      → s1.pending ≡ s.pending ++ kept
      → m ≡ m'
      → Gathered s1.pending [] s1.decoder reads m'
      → Gathered s.pending [] s.decoder (chunk ∷ reads) m
  unfolding decode_reads
  reads_on s s1 chunk reads events kept m m' read p queue same g = record {
    after = g.after;
    result = g.result;
    read = chunk ∷ g.read;
    unread = g.unread;
    got = events ++ g.got;
    kept = kept ++ g.kept;
    returns = same ∙ g.returns;
    honest = g.honest;
    all_reads = ap (◌∷◌ chunk) g.all_reads;
    decoded = rw (read, g.decoded) refl;
    sorted = append-Passed p g.sorted;
    in_order = g.in_order ∙ ap (λ b. b ++ g.kept) queue ∙ append_assoc s.pending kept g.kept;
    no_probe = g.no_probe;
  }

  -- The fence ends the probe.
  fence_or_rest :
      (waits : List (Awaited E)) (s : TokioTerminalSession) (c : Capabilities) (fenced : Bool)
      → has_evidence c ≡ true
      → Gathered s.pending [] s.decoder (reads_of waits) (await_bundle env is_eof bundle waits s c)
      → Gathered s.pending [] s.decoder
          (reads_of waits)
          (fenced_or bundle (s, c, fenced) (await_bundle env is_eof bundle waits))
  unfolding finish_probe
  fence_or_rest waits s c true h rest = stops s _ (ok c) (reads_of waits) h refl refl refl
  fence_or_rest waits s c false h rest = rest

  await_bundle-Gathered :
      (waits : List (Awaited E)) (s : TokioTerminalSession) (c : Capabilities)
      → has_end waits ≡ true
      → IsValid s.correlator
      → has_evidence c ≡ true
      → Gathered s.pending [] s.decoder (reads_of waits) (await_bundle env is_eof bundle waits s c)
  unfolding await_bundle finish_probe
  await_bundle-Gathered [] s c e v h = cc
  await_bundle-Gathered (elapsed ∷ waits) s c e v h = stops s _ (ok c) _ h refl refl refl
  await_bundle-Gathered (readable [] ∷ waits) s c e v h = stops s _ (ok c) _ h refl refl refl
  await_bundle-Gathered (read_failed error ∷ waits) s c e v h = elim (Bool-cases (is_eof error)) [
    | inl f ↦ rw f (stops s _ (ok c) (reads_of waits) h refl refl refl)
    | inr f ↦ rw f (stops s _ (failed (device error)) (reads_of waits) tt refl refl refl)
  ]
  await_bundle-Gathered (readable (byte ∷ bytes) ∷ waits) s c e v h =
      let (decoder, events, read) = decode_read-some (byte ∷ bytes) s.decoder in
      let s1 : TokioTerminalSession = record s { decoder = decoder } in
      let b = feed_batch_into_bundle-Batch env bundle events s1 c v h in
      let next = await_bundle env is_eof bundle waits in
      reads_on s b.after (byte ∷ bytes) (reads_of waits) events b.kept _
        (fenced_or bundle (b.after, b.gathered, b.fenced) next)
        (read ∙ ap (λ d. some (d, events)) (sym b.decoder)) b.sorted b.in_order
        (rw read (ap (λ m. m >>= λ fed. fenced_or bundle fed next) b.returns))
        (fence_or_rest waits b.after b.gathered b.fenced b.known
          (await_bundle-Gathered waits b.after b.gathered e b.valid b.known))

  -- The events that wait when the probe begins are fed first.
  bundle_sent-Gathered :
      (waits : List (Awaited E)) (s : TokioTerminalSession)
      → has_end waits ≡ true
      → IsValid s.correlator
      → Gathered [] s.pending s.decoder
          (reads_of waits)
          (bundle_sent env is_eof bundle waits s none)
  bundle_sent-Gathered waits s e v =
      let s1 : TokioTerminalSession = record s { pending = [] } in
      let b =
        feed_batch_into_bundle-Batch env bundle s.pending s1 (env_seeded_capabilities env) v
          (seeded env).0 in
      let next = await_bundle env is_eof bundle waits in
      let g =
        fence_or_rest waits b.after b.gathered b.fenced b.known
          (await_bundle-Gathered waits b.after b.gathered e b.valid b.known) in
      record {
        after = g.after;
        result = g.result;
        read = g.read;
        unread = g.unread;
        got = g.got;
        kept = b.kept ++ g.kept;
        returns = ap (λ m. m >>= λ fed. fenced_or bundle fed next) b.returns ∙ g.returns;
        honest = g.honest;
        all_reads = g.all_reads;
        decoded = ap (λ d. decode_reads d g.read) (sym b.decoder) ∙ g.decoded;
        sorted = append-Passed b.sorted g.sorted;
        in_order = g.in_order ∙ ap (λ q. q ++ g.kept) b.in_order;
        no_probe = g.no_probe;
      }

-- A session behind the sweeps.
abbrev pub both_swept : TokioTerminalSession → TokioTerminalSession
both_swept s = sweep_active_probe (sweep_active_query s)

resolve_list-IsValid :
    (resolution : Resolution) (ids : List ℕ) (c : Correlator)
    → IsValid c
    → IsValid (resolve_list resolution ids c)
resolve_list-IsValid resolution [] c v = v
resolve_list-IsValid resolution (id ∷ ids) c v =
    resolve_list-IsValid resolution ids (resolve c id resolution).0
      (resolve-Sound c id resolution v).0

-- What the sweeps keep.
abbrev Keeps : TokioTerminalSession → TokioTerminalSession → Type 0
Keeps s s' = IsValid s'.correlator × (s'.pending ≡ s.pending) × (s'.decoder ≡ s.decoder)

swept-Keeps :
    (active : Option ℕ) (s : TokioTerminalSession) → IsValid s.correlator → Keeps s (swept active s)
swept-Keeps none s v = (v, refl, refl)
swept-Keeps (some id) s v = ((resolve-Sound s.correlator id cancelled v).0, refl, refl)

both_swept-Keeps : (s : TokioTerminalSession) → IsValid s.correlator → Keeps s (both_swept s)
unfolding sweep_active_probe sweep_active_query
both_swept-Keeps s v =
    let (v', queue, same) = swept-Keeps s.active_query s v in
    (resolve_list-IsValid cancelled (swept s.active_query s).active_probe _ v', queue, same)

-- A probe whose request was written returns if one of its awaits ends it, from every session with a
-- valid correlator and, behind the sweeps, room for twelve registrations. Every capability that it
-- answers has evidence, no probe is active, and of the events that waited and those that the decoded
-- reads gave, all that are no reply are in the queue, in their order.
pub probe_capabilities_inner-Gathered :
    {E : Type 0} (env : EnvSource) (is_eof : E → Bool) (waits : List (Awaited E))
    (s : TokioTerminalSession)
    → has_end waits ≡ true
    → IsValid s.correlator
    → Room 12 (both_swept s).correlator
    → Gathered [] s.pending s.decoder
        (reads_of waits)
        (probe_capabilities_inner env is_eof none waits s)
unfolding probe_capabilities_inner
probe_capabilities_inner-Gathered {E} env is_eof waits s e v room =
    let (v', queue, same) = both_swept-Keeps s v in
    let (c, bundle, k, v'') = register_bundle-IsValid (both_swept s).correlator v' room in
    let asked : TokioTerminalSession = record (both_swept s) {
      correlator = c;
      active_probe = (both_swept s).active_probe ++ ids bundle;
    } in
    let g = bundle_sent-Gathered env is_eof bundle waits asked e v'' in
    rw k (
      subst
        (λ q.
          Gathered [] q s.decoder (reads_of waits) (bundle_sent env is_eof bundle waits asked none))
        queue
        (subst
          (λ d.
            Gathered [] asked.pending d (reads_of waits)
              (bundle_sent env is_eof bundle waits asked none))
          same g))
