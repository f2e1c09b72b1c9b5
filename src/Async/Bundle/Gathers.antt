-- ===== src/Async/Bundle/Gathers.antt =====
-- What the loop of the asynchronous probe gathers (`feed_batch_into_bundle` and
-- `probe_capabilities_inner` of src/tokio_session.rs).
use qwertty.Async.{TokioTerminalSession, decode_read, read_buffer_len}
use qwertty.Async.Bundle.{bundle_step, feed_batch_into_bundle}
use qwertty.Caps.{Capabilities, EnvSource}
use qwertty.Caps.Bundle.{ProbeBundle, store_bundle_reply}
use qwertty.Caps.Honest.{has_evidence, store_reply-has_evidence}
use qwertty.Correlate
use qwertty.Correlate.{
  Correlator, Slot, Feed, completed, passthrough, Resolution, cancelled, no_reply, find_slot,
  take_reply,
}
use qwertty.Correlate.Contract.{IsValid, Updates}
use qwertty.Correlate.Matcher.{Event, Expectation, Reply, match_event}
use qwertty.Correlate.Pending.{Feeds, feed-Sound}
use qwertty.Correlate.Waiters.{TakesReply, take_reply-Sound}
use qwertty.Input.{InputEvent, Events, SemanticDecoder, finish, has_settled_text}
use qwertty.Prelude.{
  ℕ, ◌≡◌, refl, sym, ap, ◌∙◌, Bool, true, false, ◌||◌, Option, none, some, [], ◌∷◌, ◌++◌, ◌&&◌, ltb,
  length, append_assoc, append-nil, Bytes, Bool-cases, inl, inr,
}
use qwertty.Query.Ends.{decode-Gives}
use qwertty.Query.Probe.{is_fence}

-- The events that are no reply to any expectation are kept, in their order.
pub data Passed : Events → Events → Type 0 where
  at_end : Passed [] []
  passed :
      (event : Event InputEvent) {events kept : Events}
      → Passed events kept
      → Passed (event ∷ events) (event ∷ kept)
  taken :
      (event : Event InputEvent) (e : Expectation) (reply : Reply) {events kept : Events}
      → match_event e event ≡ some reply
      → Passed events kept
      → Passed (event ∷ events) kept

-- What a batch comes to.
pub record Batch (s : TokioTerminalSession) (events : Events)
    (m : Option (TokioTerminalSession × Capabilities × Bool)) : Type 0 where
  pub after : TokioTerminalSession
  pub gathered : Capabilities
  pub fenced : Bool
  pub kept : Events
  pub returns : m ≡ some (after, gathered, fenced)
  pub valid : IsValid after.correlator
  pub known : has_evidence gathered ≡ true
  pub sorted : Passed events kept
  pub in_order : after.pending ≡ s.pending ++ kept
  pub decoder : after.decoder ≡ s.decoder

-- A slot that holds a reply gives it.
held-take_reply :
    (c : Correlator) (id : ℕ) (slot : Slot) (reply : Reply)
    → IsValid c
    → find_slot id c.slots ≡ some slot
    → slot.reply ≡ some reply
    → (c' : Correlator) × (answer : Reply) × IsValid c' × (take_reply c id ≡ (c', some answer))
unfolding TakesReply
held-take_reply c id slot reply v found held =
    by_answer (take_reply c id) (take_reply-Sound c id v).0 (take_reply-Sound c id v).1 refl
  where
    by_answer :
        (r : Correlator × Option Reply)
        → IsValid r.0
        → TakesReply c id r.0 r.1
        → take_reply c id ≡ r
        → (c' : Correlator) × (answer : Reply) × IsValid c' × (take_reply c id ≡ (c', some answer))
    by_answer (c', none) v' (same, empty) e = cc (empty slot found, held)
    by_answer (c', some answer) v' sound e = (c', answer, v', e)

pub decode_read-some :
    (bytes : Bytes) (d : SemanticDecoder)
    → (d' : SemanticDecoder) × (events : Events) × (decode_read bytes d ≡ some (d', events))
unfolding decode_read
decode_read-some bytes d =
    let ((d', events), e) = decode-Gives d bytes in
    let (d'', flushed) = finish d' in
    let is_flushed = ltb (length bytes) read_buffer_len && has_settled_text d' in
    elim (Bool-cases is_flushed) [
      | inl h ↦ (d'', events ++ flushed, rw (e, h) refl)
      | inr h ↦ (d', events, rw (e, h) refl)
    ]

module _ (env : EnvSource) (bundle : ProbeBundle) where
  -- A step, and the rest of the batch behind it.
  with_step :
      (event : Event InputEvent) (events : Events) (s : TokioTerminalSession) (c : Capabilities)
      (s1 : TokioTerminalSession) (c1 : Capabilities) (fence : Bool) (first : Events)
      → bundle_step env bundle (Correlate.feed s.correlator event) s c ≡ some (s1, c1, fence)
      → s1.pending ≡ s.pending ++ first
      → s1.decoder ≡ s.decoder
      → ((kept : Events) → Passed events kept → Passed (event ∷ events) (first ++ kept))
      → Batch s1 events (feed_batch_into_bundle env bundle events s1 c1)
      → Batch s (event ∷ events) (feed_batch_into_bundle env bundle (event ∷ events) s c)
  unfolding feed_batch_into_bundle
  with_step event events s c s1 c1 fence first step queue same grow rest = record {
    after = rest.after;
    gathered = rest.gathered;
    fenced = fence || rest.fenced;
    kept = first ++ rest.kept;
    returns = rw (step, rest.returns) refl;
    valid = rest.valid;
    known = rest.known;
    sorted = grow rest.kept rest.sorted;
    in_order =
        rest.in_order ∙ ap (λ b. b ++ rest.kept) queue ∙ append_assoc s.pending first rest.kept;
    decoder = rest.decoder ∙ same;
  }

  by_feed :
      (event : Event InputEvent) (events : Events) (s : TokioTerminalSession) (c : Capabilities)
      (r : Correlator × Feed InputEvent)
      → has_evidence c ≡ true
      → ((s1 : TokioTerminalSession) (c1 : Capabilities)
          → IsValid s1.correlator
          → has_evidence c1 ≡ true
          → Batch s1 events (feed_batch_into_bundle env bundle events s1 c1))
      → IsValid r.0
      → Feeds event s.correlator r.0 r.1
      → Correlate.feed s.correlator event ≡ r
      → Batch s (event ∷ events) (feed_batch_into_bundle env bundle (event ∷ events) s c)
  unfolding Feeds Updates
  by_feed event events s c (c1, passthrough other) h rest v1 (same, _, _) e =
      let s1 : TokioTerminalSession = record s {
        correlator = c1;
        pending = s.pending ++ event ∷ [];
      } in
      with_step event events s c s1 c false (event ∷ [])
        (ap (λ r. bundle_step env bundle r s c) e
          ∙ ap (λ x. some (record s { correlator = c1; pending = s.pending ++ x ∷ [] }, c, false))
              same)
        refl refl (λ kept p. passed event p) (rest s1 c v1 h)
  by_feed event events s c (c1, completed id reply) h rest v1
        (slot, free, answers, (old, new, others)) e =
      let (c2, answer, v2, took) =
        held-take_reply c1 id (record slot { reply = some reply }) reply v1 new refl in
      let c' = store_bundle_reply env bundle id answer c in
      let s1 : TokioTerminalSession = record s { correlator = c2 } in
      with_step event events s c s1 c' (is_fence bundle.fence id) []
        (ap (λ r. bundle_step env bundle r s c) e ∙ (rw took refl)) (sym (append-nil s.pending))
        refl (λ kept p. taken event slot.expectation reply answers p)
        (rest s1 c' v2 (store_reply-has_evidence env bundle id answer c h))

  -- From a valid correlator and known capabilities a batch never panics, keeps both so, and passes
  -- every event that is no reply on to the queue.
  pub feed_batch_into_bundle-Batch :
      (events : Events) (s : TokioTerminalSession) (c : Capabilities)
      → IsValid s.correlator
      → has_evidence c ≡ true
      → Batch s events (feed_batch_into_bundle env bundle events s c)
  unfolding feed_batch_into_bundle
  feed_batch_into_bundle-Batch [] s c v h = record {
    after = s;
    gathered = c;
    fenced = false;
    kept = [];
    returns = refl;
    valid = v;
    known = h;
    sorted = at_end;
    in_order = sym (append-nil s.pending);
    decoder = refl;
  }
  feed_batch_into_bundle-Batch (event ∷ events) s c v h =
      by_feed event events s c (Correlate.feed s.correlator event) h
        (λ s1 c1 v1 h1. feed_batch_into_bundle-Batch events s1 c1 v1 h1)
        (feed-Sound s.correlator event v).0 (feed-Sound s.correlator event v).1 refl
