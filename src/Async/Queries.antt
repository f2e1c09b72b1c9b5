-- ===== src/Async/Queries.antt =====
-- The events that an asynchronous query is fed (`run_query` of src/tokio_session.rs): what has to become
-- of them, and what its single steps do.
use qwertty.Async.{
  TokioTerminalSession, feed_step, feed_query, decode_read, Awaited, elapsed, read_failed, readable,
  AsyncError, Result, ok, failed, end_query, replied_or,
}
use qwertty.Correlate.{Correlator, Resolution, completed, resolve}
use qwertty.Correlate.Matcher.{Event, Expectation, Reply, match_event}
use qwertty.Input.{InputEvent, Events, SemanticDecoder}
use qwertty.Prelude.{
  ℕ, ◌≡◌, inl, inr, refl, sym, ap, ◌∙◌, subst, Bool, Option, none, some, List, [], ◌∷◌, ◌++◌,
  append_assoc, append-nil, Bytes, Option-cases, ◌>>=◌,
}
use qwertty.Query.Kept.{some_inj}
use qwertty.Query.Spans.{
  waiting_for, cleared, ==-self, held_reply, feed-other, feed-match, take_reply-held,
}
use qwertty.Query.Tidy.{resolve-waiting}

-- One of the events answers the expectation, and the others are `kept`.
pub record Found (e : Expectation) (events kept : Events) (reply : Reply) : Type 0 where
  pub before : Events
  pub event : Event InputEvent
  pub behind : Events
  pub split : events ≡ before ++ event ∷ behind
  pub left : kept ≡ before ++ behind
  pub answers : match_event e event ≡ some reply

module _ (e : Expectation) (id n : ℕ) where
  -- What the events do to the query that waits.
  abbrev pub Fed : Events → Correlator × Events × Option Reply → Type 0
  Fed events (c, kept, none) = (c ≡ waiting_for e id n) × (kept ≡ events)
  Fed events (c, kept, some reply) = (c ≡ cleared n) × Found e events kept reply

  fed_on :
      (event : Event InputEvent) (events : Events) (r : Correlator × Events × Option Reply)
      → Fed events r
      → Fed (event ∷ events) (r.0, event ∷ r.1, r.2)
  fed_on event events (c, kept, none) (waits, all_) = (waits, ap (◌∷◌ event) all_)
  fed_on event events (c, kept, some reply) (gone, found) = (
    gone,
    record {
      before = event ∷ found.before;
      event = found.event;
      behind = found.behind;
      split = ap (◌∷◌ event) found.split;
      left = ap (◌∷◌ event) found.left;
      answers = found.answers;
    },
  )

  step-held :
      (events : Events) (reply : Reply)
      → feed_step id events (held_reply e id n reply, completed id reply) (feed_query id events)
        ≡ (cleared n, events, some reply)
  step-held events reply = rw (==-self id, take_reply-held e id n reply) refl

  pub feed_query-Fed : (events : Events) → Fed events (feed_query id events (waiting_for e id n))
  unfolding feed_query
  feed_query-Fed [] = (refl, refl)
  feed_query-Fed (event ∷ events) = elim (Option-cases (match_event e event)) [
    | inl other ↦
        subst (Fed (event ∷ events))
          (sym (
            ap (λ fed. feed_step id events fed (feed_query id events))
              (feed-other e id n event other)))
          (fed_on event events (feed_query id events (waiting_for e id n)) (feed_query-Fed events))
    | inr (reply, h) ↦
        subst (Fed (event ∷ events))
          (sym (
            ap (λ fed. feed_step id events fed (feed_query id events))
              (feed-match e id n event reply h)
            ∙ step-held events reply))
          (
            refl,
            record {
              before = [];
              event = event;
              behind = events;
              split = refl;
              left = refl;
              answers = h;
            },
          )
  ]

-- The reads of the waits that have bytes.
abbrev pub reads_of : {E : Type 0} → List (Awaited E) → List Bytes
reads_of [] = []
reads_of (elapsed ∷ waits) = reads_of waits
reads_of (read_failed error ∷ waits) = reads_of waits
reads_of (readable [] ∷ waits) = reads_of waits
reads_of (readable (byte ∷ bytes) ∷ waits) = (byte ∷ bytes) ∷ reads_of waits

-- The reads decoded one by one.
unfoldable pub decode_reads : SemanticDecoder → List Bytes → Option (SemanticDecoder × Events)
decode_reads d [] = some (d, [])
decode_reads d (bytes ∷ reads) = decode_read bytes d >>= λ (d', events).
    decode_reads d' reads >>= λ (d'', rest). some (d'', events ++ rest)

-- The reply and the events that are kept, or all events with an error.
abbrev pub IsOutcome : {E : Type 0} → Expectation → Events → Events → Result E Reply → Type 0
IsOutcome e events pending (ok reply) = Found e events pending reply
IsOutcome e events pending (failed error) = pending ≡ events

-- How a query ends that had `queued` events: some of the reads were decoded, and either one event is
-- its reply and all others wait in the queue, or it fails and all of them wait there; in both cases no
-- slot is left and no query is active.
pub record Settled {E : Type 0} (e : Expectation) (queued : Events) (decoder : SemanticDecoder)
    (reads : List Bytes) (s : TokioTerminalSession) (result : Result E Reply) : Type 0 where
  pub read : List Bytes
  pub unread : List Bytes
  pub got : Events
  pub next_id : ℕ
  pub all_reads : reads ≡ read ++ unread
  pub decoded : decode_reads decoder read ≡ some (s.decoder, got)
  pub no_slot : s.correlator ≡ cleared next_id
  pub no_query : s.active_query ≡ none
  pub outcome : IsOutcome e (queued ++ got) s.pending result

-- A reply found behind other events.
Found-append :
    {e : Expectation} (queued events kept : Events) {reply : Reply}
    → Found e events kept reply
    → Found e (queued ++ events) (queued ++ kept) reply
Found-append queued events kept found = record {
  before = queued ++ found.before;
  event = found.event;
  behind = found.behind;
  split =
      ap (λ b. queued ++ b) found.split
      ∙ sym (append_assoc queued found.before (found.event ∷ found.behind));
  left = ap (λ b. queued ++ b) found.left ∙ sym (append_assoc queued found.before found.behind);
  answers = found.answers;
}

module _ {E : Type 0} (is_eof : E → Bool) (e : Expectation) (id n : ℕ) where
  -- The query fails with all events still in the queue.
  pub given_up :
      (resolution : Resolution) (error : AsyncError E) (reads : List Bytes)
      (s : TokioTerminalSession)
      → s.correlator ≡ waiting_for e id n
      → Settled e s.pending s.decoder reads (end_query id resolution s) (failed error)
  unfolding decode_reads
  given_up resolution error reads s c = record {
    read = [];
    unread = reads;
    got = [];
    next_id = n;
    all_reads = refl;
    decoded = refl;
    no_slot = ap (λ d. (resolve d id resolution).0) c ∙ resolve-waiting e id n resolution;
    no_query = refl;
    outcome = sym (append-nil s.pending);
  }

  -- A query that is settled behind a read is settled before it.
  pub Settled-decode_read :
      (queued events : Events) (d d' : SemanticDecoder) (bytes : Bytes) (reads : List Bytes)
      (s' : TokioTerminalSession) (result : Result E Reply)
      → decode_read bytes d ≡ some (d', events)
      → Settled e (queued ++ events) d' reads s' result
      → Settled e queued d (bytes ∷ reads) s' result
  unfolding decode_reads
  Settled-decode_read queued events d d' bytes reads s' result h rest = record {
    read = bytes ∷ rest.read;
    unread = rest.unread;
    got = events ++ rest.got;
    next_id = rest.next_id;
    all_reads = ap (◌∷◌ bytes) rest.all_reads;
    decoded = rw h (rw (rest.decoded) refl);
    no_slot = rest.no_slot;
    no_query = rest.no_query;
    outcome =
        subst (λ all_. IsOutcome e all_ s'.pending result) (append_assoc queued events rest.got)
          rest.outcome;
  }

  -- The queue after some events were fed, and what goes on if none of them is the reply.
  pub fed-Settled :
      (events : Events) (reads : List Bytes) (s s' : TokioTerminalSession) (result : Result E Reply)
      (next : TokioTerminalSession → Option (TokioTerminalSession × Result E Reply))
      (r : Correlator × Events × Option Reply)
      → Fed e id n events r
      → ((s1 : TokioTerminalSession)
          → s1.correlator ≡ waiting_for e id n
          → s1.decoder ≡ s.decoder
          → s1.pending ≡ s.pending ++ events
          → next s1 ≡ some (s', result)
          → Settled e (s.pending ++ events) s.decoder reads s' result)
      → replied_or (record s { correlator = r.0; pending = s.pending ++ r.1 }, r.2) next
        ≡ some (s', result)
      → Settled e (s.pending ++ events) s.decoder reads s' result
  unfolding decode_reads
  fed-Settled events reads s s' result next (c, kept, none) (waits, all_) ih h =
      ih (record s { correlator = c; pending = s.pending ++ kept }) waits refl
        (ap (λ b. s.pending ++ b) all_) h
  fed-Settled events reads s s' result next (c, kept, some reply) (gone, found) ih h =
      subst
        (λ (x : TokioTerminalSession × Result E Reply).
          Settled e (s.pending ++ events) s.decoder reads x.0 x.1)
        (some_inj h)
        (record {
          read = [];
          unread = reads;
          got = [];
          next_id = n;
          all_reads = refl;
          decoded = refl;
          no_slot = gone;
          no_query = refl;
          outcome =
              subst (λ all_. Found e all_ (s.pending ++ kept) reply)
                (sym (append-nil (s.pending ++ events))) (Found-append s.pending events kept found);
        })

  pub at_end :
      (queued : Events) (d : SemanticDecoder) (reads : List Bytes) {s s' : TokioTerminalSession}
      {result result' : Result E Reply}
      → Settled e queued d reads s result
      → ◌≡◌ {A = Option (TokioTerminalSession × Result E Reply)}
          (some (s, result))
          (some (s', result'))
      → Settled e queued d reads s' result'
  at_end queued d reads settled h =
      subst (λ (x : TokioTerminalSession × Result E Reply). Settled e queued d reads x.0 x.1)
        (some_inj h) settled
