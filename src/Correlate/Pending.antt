-- ===== src/Correlate/Pending.antt =====
-- How slots come and are completed: `register` and `feed` of src/correlate.rs.
use qwertty.Prelude.{
  ℕ, ◌≤◌, ◌+◌, ◌%◌, ◌^◌, ◌≡◌, refl, sym, ◌∙◌, subst, true, false, Option, none, some, List, [], ◌∷◌,
  ◌++◌, ◌⊎◌, inl, inr, arith,
}
use qwertty.Correlate.{
  Slot, Correlator, Registered, Feed, add_waiter, register, register_scan, feed, feed_scan,
  slot_match, find_slot, mint, feed_result,
}
use qwertty.Correlate.Discriminator.{expectation_eq_sound}
use qwertty.Correlate.Matcher.{Event, Expectation, Reply, match_event}
use qwertty.Correlate.Scans.{
  RegisterScan, joined, absent, RegisterScan-cases, FeedScan, completes, ignores, FeedScan-cases,
  IsIgnored,
}
use qwertty.Correlate.Slots.{
  IsFresh, Slots, find-exchanged, Slots-exchanged, find-push, find-push_other, Slots-push,
  find-next, find-waiting,
}
use qwertty.Correlate.Contract.{IsValid, HasRoom, Updates, Updates-exchanged, of_slots}

-- What `register` does for an expectation: a waiter more on the slot of an equal one, or a slot of
-- its own with the next id.
unfoldable pub Registers : Correlator → Expectation → Correlator → Registered → Type 0
Registers c e c' (Registered.ok id) =
    ((slot : Slot) × (slot.expectation ≡ e)
      × Updates c c' id (some slot) (some (record slot { outstanding = slot.outstanding + 1 })))
    ⊎ ((id ≡ c.next_id)
        × IsFresh e c.slots
        × Updates c c' id none
            (some (record { id = id; expectation = e; outstanding = 1; reply = none })))
Registers c e c' (Registered.ambiguous conflicting) = false ≡ true

abbrev RegisterSound : Correlator → Expectation → Correlator × Registered → Type 0
RegisterSound c e (c', result) = IsValid c' × Registers c e c' result

register_scan-Sound :
    (slots : List Slot) (n : ℕ) (e : Expectation)
    → IsValid (of_slots slots n)
    → HasRoom (of_slots slots n)
    → RegisterScan e slots
    → RegisterSound (of_slots slots n) e (mint (of_slots slots n) e (register_scan e slots))
unfolding IsValid HasRoom Registers Updates
register_scan-Sound _ n e v (ids, waiters) (joined front slot back same scan) =
    let c = of_slots (front ++ slot ∷ back) n in
    let update = Updates-exchanged n n front slot (add_waiter slot) back refl v in
    let room = waiters slot.id slot update.0 in
    let added : add_waiter slot ≡ record slot { outstanding = slot.outstanding + 1 } =
      ground arith in
    subst (λ scanned. RegisterSound c e (mint c e scanned)) (sym scan)
      (
        Slots-exchanged front slot (add_waiter slot) back refl refl (ground arith) v,
        inl (
          slot,
          expectation_eq_sound slot.expectation e same,
          subst
              (λ now.
                Updates c (of_slots (front ++ add_waiter slot ∷ back) n) slot.id (some slot)
                  (some now))
              added update,
        ),
      )
register_scan-Sound slots n e v (ids, waiters) (absent fresh scan) =
    let slot : Slot = record { id = n; expectation = e; outstanding = 1; reply = none } in
    let next : n + 1 ≡ (n + 1) % 2 ^ 64 = ground arith in
    subst (λ scanned. RegisterSound (of_slots slots n) e (mint (of_slots slots n) e scanned))
      (sym scan)
      (
        subst (λ m. Slots m 0 (slots ++ slot ∷ [])) next
            (Slots-push slots slot v refl (ground arith) fresh),
        inr (
          refl,
          fresh,
          (
            find-next n slots v (ground arith),
            find-push slots slot v refl,
            λ other ne. find-push_other slots slot other ne,
          ),
        ),
      )

-- `register` never refuses: it adds a waiter to the slot of an equal expectation and returns its
-- id, or makes a slot with the next id, and keeps the correlator valid, as long as its counters
-- have room.
pub register-Sound :
    (c : Correlator) (e : Expectation)
    → IsValid c
    → HasRoom c
    → IsValid (register c e).0 × Registers c e (register c e).0 (register c e).1
unfolding register
register-Sound c e v room =
    register_scan-Sound c.slots c.next_id e v room (RegisterScan-cases e c.slots)

waiting_slot :
    (front : List Slot) (slot : Slot) (back : List Slot) {hi lo : ℕ}
    → Slots hi lo (front ++ slot ∷ back)
    → 1 ≤ slot.outstanding
waiting_slot front slot back v =
    find-waiting slot.id slot v (find-exchanged front slot slot back refl v)

module _ {I : Type 0} where
  -- What `feed` does with an event.
  unfoldable pub Feeds : Event I → Correlator → Correlator → Feed I → Type 0
  Feeds event c c' (Feed.completed id reply) =
      (slot : Slot) × (slot.reply ≡ none)
      × (match_event slot.expectation event ≡ some reply)
      × Updates c c' id (some slot) (some (record slot { reply = some reply }))
  Feeds event c c' (Feed.passthrough passed) =
      (passed ≡ event)
      × (c' ≡ c)
      × ((id : ℕ) (slot : Slot)
          → find_slot id c.slots ≡ some slot
          → slot.reply ≡ none
          → match_event slot.expectation event ≡ none)

  ignored-find :
      (event : Event I) (slots : List Slot) (id : ℕ) (slot : Slot)
      → IsIgnored event slots
      → find_slot id slots ≡ some slot
      → slot_match event slot ≡ none
  unfolding find_slot IsIgnored
  ignored-find event [] id slot g e = ground arith
  ignored-find event (first ∷ slots) id slot g e = ground (arith, ignored-find event slots id slot)

  waiting_match :
      (event : Event I) (slot : Slot)
      → slot.reply ≡ none
      → slot_match event slot ≡ match_event slot.expectation event
  waiting_match event slot e = ground arith

  matched-waits :
      (event : Event I) (slot : Slot) {reply : Reply}
      → slot_match event slot ≡ some reply
      → slot.reply ≡ none
  matched-waits event slot e = ground arith

  abbrev FeedSound : Event I → Correlator → Correlator × Feed I → Type 0
  FeedSound event c (c', result) = IsValid c' × Feeds event c c' result

  feed_scan-Sound :
      (slots : List Slot) (n : ℕ) (event : Event I)
      → IsValid (of_slots slots n)
      → FeedScan event slots
      → FeedSound event
          (of_slots slots n)
          (of_slots (feed_scan event slots).0 n, feed_result event (feed_scan event slots).1)
  unfolding IsValid Feeds
  feed_scan-Sound _ n event v (completes front slot back reply hit scan) =
      let new : Slot = record slot { reply = some reply } in
      let waits = matched-waits event slot hit in
      subst
        (λ (scanned : List Slot × Option (ℕ × Reply)).
          FeedSound event (of_slots (front ++ slot ∷ back) n)
            (of_slots scanned.0 n, feed_result event scanned.1))
        (sym scan)
        (
          Slots-exchanged front slot new back refl refl (waiting_slot front slot back v) v,
          (
            slot,
            waits,
            sym (waiting_match event slot waits) ∙ hit,
            Updates-exchanged n n front slot new back refl v,
          ),
        )
  feed_scan-Sound slots n event v (ignores rest scan) =
      subst
        (λ (scanned : List Slot × Option (ℕ × Reply)).
          FeedSound event (of_slots slots n) (of_slots scanned.0 n, feed_result event scanned.1))
        (sym scan)
        (
          v,
          (
            refl,
            refl,
            λ id slot e waits.
                sym (waiting_match event slot waits) ∙ ignored-find event slots id slot rest e,
          ),
        )

  -- `feed` completes one slot that waited and that the event matches, and stores the reply there;
  -- or no slot that waits matches, the event comes back as it was, and nothing changes.
  pub feed-Sound :
      (c : Correlator) (event : Event I)
      → IsValid c
      → IsValid (feed c event).0 × Feeds event c (feed c event).0 (feed c event).1
  unfolding feed
  feed-Sound c event v = feed_scan-Sound c.slots c.next_id event v (FeedScan-cases event c.slots)
