-- ===== src/Query/Spans.antt =====
-- A query that waits alone (`run_query` of src/session.rs, with src/correlate.rs): what the events of
-- a span do to its one slot.
use qwertty.Correlate.{
  Correlator, Slot, completed, passthrough, feed, feed_scan, find_slot, release_slot, take_reply,
}
use qwertty.Correlate.Contract.{of_slots}
use qwertty.Correlate.Matcher.{Event, Expectation, Reply, match_event}
use qwertty.Input.{InputEvent, Events}
use qwertty.Prelude.{
  ℕ, ◌≡◌, ◌⊎◌, inl, inr, refl, ap, ◌∙◌, Bool, true, false, none, some, [], ◌∷◌, ◌++◌, ◌==◌,
  Option-cases, arith,
}
use qwertty.Query.{Attribution, Replies, attribute_feed, attribute_events}

-- The slot of the query, and the correlator that has it alone or has none.
abbrev pub waiting_slot : Expectation → ℕ → Slot
waiting_slot e id = record { id = id; expectation = e; outstanding = 1; reply = none }

abbrev pub waiting_for : Expectation → ℕ → ℕ → Correlator
waiting_for e id n = of_slots (waiting_slot e id ∷ []) n

abbrev pub cleared : ℕ → Correlator
cleared n = of_slots [] n

pub ==-self : (n : ℕ) → (n == n) ≡ true
==-self n = ground arith

abbrev pub attribution : Correlator → Replies → Bool → Attribution
attribution c replies taken = record { correlator = c; replies = replies; span_is_reply = taken }

-- The reply to an expectation is what some event is to it.
abbrev pub IsReply : Expectation → Reply → Type 0
IsReply e reply = (event : Event InputEvent) × (match_event e event ≡ some reply)

-- None of the events answers the expectation.
abbrev pub Quiet : Expectation → Events → Type 0
Quiet e [] = Unit {0}
Quiet e (event ∷ events) = (match_event e event ≡ none) × Quiet e events

-- The first of the events that answers the expectation gives the reply.
pub record Replied (e : Expectation) (events : Events) (reply : Reply) : Type 0 where
  pub first : Events
  pub event : Event InputEvent
  pub later : Events
  pub split : events ≡ first ++ event ∷ later
  pub quiet : Quiet e first
  pub answers : match_event e event ≡ some reply

behind_other :
    {e : Expectation} {events : Events} {reply : Reply} (event : Event InputEvent)
    → match_event e event ≡ none
    → Replied e events reply
    → Replied e (event ∷ events) reply
behind_other event h found = record {
  first = event ∷ found.first;
  event = found.event;
  later = found.later;
  split = ap (◌∷◌ event) found.split;
  quiet = (h, found.quiet);
  answers = found.answers;
}

module _ (e : Expectation) (id n : ℕ) where
  abbrev pub held_reply : Reply → Correlator
  held_reply reply = of_slots (record (waiting_slot e id) { reply = some reply } ∷ []) n

  pub feed-other :
      (event : Event InputEvent)
      → match_event e event ≡ none
      → feed (waiting_for e id n) event ≡ (waiting_for e id n, passthrough event)
  unfolding feed feed_scan
  feed-other event h = rw h refl

  pub feed-match :
      (event : Event InputEvent) (reply : Reply)
      → match_event e event ≡ some reply
      → feed (waiting_for e id n) event ≡ (held_reply reply, completed id reply)
  unfolding feed feed_scan
  feed-match event reply h = rw h refl

  pub take_reply-held : (reply : Reply) → take_reply (held_reply reply) id ≡ (cleared n, some reply)
  unfolding take_reply find_slot release_slot
  take_reply-held reply = rw (==-self id) (rw (==-self id) refl)

  attribute-match :
      (event : Event InputEvent) (reply : Reply) (replies : Replies) (taken : Bool)
      → match_event e event ≡ some reply
      → attribute_feed
          (id ∷ [])
          (attribution (waiting_for e id n) replies taken)
          (feed (waiting_for e id n) event)
        ≡ attribution (cleared n) (replies ++ (id, reply) ∷ []) true
  unfolding attribute_feed
  attribute-match event reply replies taken h =
      rw (feed-match event reply h, ==-self id, take_reply-held reply) refl

  attribute-other :
      (event : Event InputEvent) (replies : Replies) (taken : Bool)
      → match_event e event ≡ none
      → attribute_feed
          (id ∷ [])
          (attribution (waiting_for e id n) replies taken)
          (feed (waiting_for e id n) event)
        ≡ attribution (waiting_for e id n) replies taken
  unfolding attribute_feed
  attribute-other event replies taken h = rw (feed-other event h) refl

  -- With no slot, events change nothing.
  pub attribute-cleared :
      (events : Events) (replies : Replies) (taken : Bool)
      → attribute_events (id ∷ []) events (attribution (cleared n) replies taken)
        ≡ attribution (cleared n) replies taken
  unfolding attribute_events attribute_feed feed feed_scan
  attribute-cleared [] replies taken = refl
  attribute-cleared (event ∷ events) replies taken = attribute-cleared events replies taken

  -- Events leave the slot as it waits, or the first of them that answers it is its reply and the slot
  -- is gone.
  pub attribute-waiting :
      (events : Events) (replies : Replies)
      → (Quiet e events
          × (attribute_events (id ∷ []) events (attribution (waiting_for e id n) replies false)
              ≡ attribution (waiting_for e id n) replies false))
        ⊎ ((reply : Reply) × Replied e events reply
            × (attribute_events (id ∷ []) events (attribution (waiting_for e id n) replies false)
                ≡ attribution (cleared n) (replies ++ (id, reply) ∷ []) true))
  unfolding attribute_events
  attribute-waiting [] replies = inl (tt, refl)
  attribute-waiting (event ∷ events) replies = elim (Option-cases (match_event e event)) [
    | inl h ↦ rw (attribute-other event replies false h) (elim (attribute-waiting events replies) [
      | inl (quiet, same) ↦ inl ((h, quiet), same)
      | inr (reply, found, same) ↦ inr (reply, behind_other event h found, same)
    ])
    | inr (reply, h) ↦ inr (
      reply,
      record { first = []; event = event; later = events; split = refl; quiet = tt; answers = h },
      ap (attribute_events (id ∷ []) events) (attribute-match event reply replies false h)
          ∙ attribute-cleared events (replies ++ (id, reply) ∷ []) true,
    )
  ]
