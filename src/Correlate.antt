-- ===== src/Correlate.antt =====
-- The query correlator (`Correlator` of src/correlate.rs): which pending expectation an event
-- answers, and how a reply is shared by the waiters that coalesced on one expectation.
pub mod Matcher
pub mod Discriminator
pub mod Slots
mod Scans
pub mod Contract
pub mod Waiters
pub mod Pending
pub mod Replies
pub mod History
use mathlib.Core.Option
use qwertty.Correlate.Matcher.{
  Expectation, Reply, Event, expectation_eq, distinguishes, match_event,
}
use qwertty.Prelude.{
  ℕ, ◌+◌, ◌-◌, ◌%◌, ◌^◌, Bool, true, false, not, Option, none, some, List, [], ◌∷◌, ◌++◌, ◌==◌,
  if◌then◌else◌,
}

pub record Slot : Type 0 where
  pub id : ℕ
  pub expectation : Expectation
  pub outstanding : ℕ
  pub reply : Option Reply

pub record Correlator : Type 0 where
  pub slots : List Slot
  pub next_id : ℕ

abbrev pub new : Correlator
new = record { slots = []; next_id = 0 }

-- `Result<ExpectationId, RegisterError>`
pub data Registered : Type 0 where
  ok : (id : ℕ) → Registered
  ambiguous : (conflicting : ℕ) → Registered

pub data Feed (I : Type 0) : Type 0 where
  completed : (id : ℕ) (reply : Reply) → Feed I
  passthrough : Event I → Feed I

pub data Resolution : Type 0 where
  timeout eof cancelled no_reply : Resolution

pub data Resolved : Type 0 where
  waiter_removed : (remaining : ℕ) → Resolved
  removed : Resolved
  already_completed : (unread : ℕ) → Resolved
  unknown : Resolved

abbrev pub is_some {ℓ} : {A : Type ℓ} → Option A → Bool
is_some none = false
is_some (some a) = true

-- `slot.outstanding += 1` on a `u32`
abbrev pub add_waiter : Slot → Slot
add_waiter slot = record slot { outstanding = (slot.outstanding + 1) % 2 ^ 32 }

-- The loop of `register`: the slots afterwards and the early return, if it makes one.
unfoldable pub register_scan : Expectation → List Slot → List Slot × Option Registered
register_scan e [] = ([], none)
register_scan e (slot ∷ slots) =
    let (slots', result) = register_scan e slots in
    if expectation_eq slot.expectation e
    then (add_waiter slot ∷ slots, some (ok slot.id))
    else if not (distinguishes slot.expectation e)
    then (slot ∷ slots, some (ambiguous slot.id))
    else (slot ∷ slots', result)

-- What `register` does behind the loop; `next_id` is a `u64`.
abbrev pub mint : Correlator → Expectation → List Slot × Option Registered → Correlator × Registered
mint c e (slots, some result) = (record c { slots = slots }, result)
mint c e (slots, none) = (
  record {
    slots = slots ++ record { id = c.next_id; expectation = e; outstanding = 1; reply = none } ∷ [];
    next_id = (c.next_id + 1) % 2 ^ 64;
  },
  ok c.next_id,
)

unfoldable pub register : Correlator → Expectation → Correlator × Registered
register c e = mint c e (register_scan e c.slots)

-- What `feed` makes of a slot and the slots behind it, by what the event is to the slot.
abbrev pub complete :
    Slot
    → List Slot
    → Option Reply
    → List Slot × Option (ℕ × Reply)
    → List Slot × Option (ℕ × Reply)
complete slot slots none (slots', result) = (slot ∷ slots', result)
complete slot slots (some reply) rest =
    (record slot { reply = some reply } ∷ slots, some (slot.id, reply))

module _ {I : Type 0} where
  -- Whether a slot still waits, and what the event is to it.
  abbrev pub slot_match : Event I → Slot → Option Reply
  slot_match event slot = if is_some slot.reply then none else match_event slot.expectation event

  -- The loop of `feed`; `none` when no slot is completed.
  unfoldable pub feed_scan : Event I → List Slot → List Slot × Option (ℕ × Reply)
  feed_scan event [] = ([], none)
  feed_scan event (slot ∷ slots) =
      complete slot slots (slot_match event slot) (feed_scan event slots)

  abbrev pub feed_result : Event I → Option (ℕ × Reply) → Feed I
  feed_result event none = passthrough event
  feed_result event (some (id, reply)) = completed id reply

  unfoldable pub feed : Correlator → Event I → Correlator × Feed I
  feed c event =
      let (slots, result) = feed_scan event c.slots in
      (record c { slots = slots }, feed_result event result)

-- `slots.iter().position(|slot| slot.id == id)` and the slot there
unfoldable pub find_slot : ℕ → List Slot → Option Slot
find_slot id [] = none
find_slot id (slot ∷ slots) =
    let rest = find_slot id slots in if slot.id == id then some slot else rest

-- `slot.outstanding = slot.outstanding.saturating_sub(1)` at the first slot with the id, and
-- `slots.remove(index)` at 0. On ℕ subtraction stops at 0.
unfoldable pub release_slot : ℕ → List Slot → List Slot
release_slot id [] = []
release_slot id (slot ∷ slots) =
    let rest = slot ∷ release_slot id slots in
    if slot.id == id
    then (if slot.outstanding - 1 == 0
        then slots
        else record slot { outstanding = slot.outstanding - 1 } ∷ slots)
    else rest

abbrev pub release : ℕ → Correlator → Correlator
release id c = record c { slots = release_slot id c.slots }

abbrev pub take_held : ℕ → Correlator → Option Reply → Correlator × Option Reply
take_held id c none = (c, none)
take_held id c (some reply) = (release id c, some reply)

abbrev pub take_found : ℕ → Correlator → Option Slot → Correlator × Option Reply
take_found id c none = (c, none)
take_found id c (some slot) = take_held id c slot.reply

unfoldable pub take_reply : Correlator → ℕ → Correlator × Option Reply
take_reply c id = take_found id c (find_slot id c.slots)

-- What `resolve` returns for the slot that it found.
abbrev pub resolved : Slot → Resolved
resolved slot =
    if is_some slot.reply
    then already_completed (slot.outstanding - 1)
    else if slot.outstanding - 1 == 0
    then removed
    else waiter_removed (slot.outstanding - 1)

abbrev pub resolve_found : ℕ → Correlator → Option Slot → Correlator × Resolved
resolve_found id c none = (c, unknown)
resolve_found id c (some slot) = (release id c, resolved slot)

unfoldable pub resolve : Correlator → ℕ → Resolution → Correlator × Resolved
resolve c id resolution = resolve_found id c (find_slot id c.slots)

-- `feed_batch`: one result per event, in order.
unfoldable pub feed_batch : {I : Type 0} → Correlator → List (Event I) → Correlator × List (Feed I)
feed_batch c [] = (c, [])
feed_batch c (event ∷ events) =
    let (c', result) = feed c event in
    let (c'', results) = feed_batch c' events in (c'', result ∷ results)

unfoldable pub waiters : Correlator → ℕ → Option ℕ
waiters c id = Option.map (λ slot. slot.outstanding) (find_slot id c.slots)
