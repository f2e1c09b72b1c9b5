-- ===== src/Correlate/Scans.antt =====
-- What the loops of `register` and `feed` (src/correlate.rs) do to the slots, on every branch.
use qwertty.Prelude.{
  ◌≡◌, refl, true, false, none, some, List, [], ◌∷◌, ◌++◌, inl, inr, arith, Bool-cases,
  Option-cases,
}
use qwertty.Correlate.{Slot, add_waiter, Registered, register_scan, feed_scan, slot_match}
use qwertty.Correlate.Matcher.{Event, Expectation, Reply, expectation_eq, distinguishes}
use qwertty.Correlate.Slots.{IsFresh}

-- The scan of `register` stops at a slot with an equal expectation and adds a waiter to it, or it
-- finds no such slot and changes none. It never reports a conflict.
pub data RegisterScan (e : Expectation) : List Slot → Type 0 where
  joined :
      (front : List Slot) (slot : Slot) (back : List Slot)
      → expectation_eq slot.expectation e ≡ true
      → register_scan e (front ++ slot ∷ back)
        ≡ (front ++ add_waiter slot ∷ back, some (Registered.ok slot.id))
      → RegisterScan e (front ++ slot ∷ back)
  absent :
      {slots : List Slot}
      → IsFresh e slots
      → register_scan e slots ≡ (slots, none)
      → RegisterScan e slots

RegisterScan-next :
    {e : Expectation} (slot : Slot) (slots : List Slot)
    → expectation_eq slot.expectation e ≡ false
    → RegisterScan e slots
    → RegisterScan e (slot ∷ slots)
unfolding register_scan distinguishes IsFresh
RegisterScan-next slot _ ne (joined front found back same scan) =
    joined (slot ∷ front) found back same (ground arith)
RegisterScan-next slot slots ne (absent fresh scan) = absent (ne, fresh) (ground arith)

pub RegisterScan-cases : (e : Expectation) (slots : List Slot) → RegisterScan e slots
unfolding register_scan IsFresh
RegisterScan-cases e [] = absent refl refl
RegisterScan-cases e (slot ∷ slots) =
    let next = RegisterScan-cases e slots in
    elim (Bool-cases (expectation_eq slot.expectation e)) [
      | inl same ↦ joined [] slot slots same (ground arith)
      | inr ne ↦ RegisterScan-next slot slots ne next
    ]

module _ {I : Type 0} where
  -- No slot that waits matches the event.
  unfoldable pub IsIgnored : Event I → List Slot → Type 0
  IsIgnored event [] = true ≡ true
  IsIgnored event (slot ∷ slots) = (slot_match event slot ≡ none) × IsIgnored event slots

  -- The scan of `feed` completes the first slot that waits and matches, or it changes none.
  pub data FeedScan (event : Event I) : List Slot → Type 0 where
    completes :
        (front : List Slot) (slot : Slot) (back : List Slot) (reply : Reply)
        → slot_match event slot ≡ some reply
        → feed_scan event (front ++ slot ∷ back)
          ≡ (front ++ record slot { reply = some reply } ∷ back, some (slot.id, reply))
        → FeedScan event (front ++ slot ∷ back)
    ignores :
        {slots : List Slot}
        → IsIgnored event slots
        → feed_scan event slots ≡ (slots, none)
        → FeedScan event slots

  FeedScan-next :
      {event : Event I} (slot : Slot) (slots : List Slot)
      → slot_match event slot ≡ none
      → FeedScan event slots
      → FeedScan event (slot ∷ slots)
  unfolding feed_scan IsIgnored
  FeedScan-next slot _ miss (completes front found back reply hit scan) =
      completes (slot ∷ front) found back reply hit (ground arith)
  FeedScan-next slot slots miss (ignores rest scan) = ignores (miss, rest) (ground arith)

  pub FeedScan-cases : (event : Event I) (slots : List Slot) → FeedScan event slots
  unfolding feed_scan IsIgnored
  FeedScan-cases event [] = ignores refl refl
  FeedScan-cases event (slot ∷ slots) =
      let next = FeedScan-cases event slots in
      elim (Option-cases (slot_match event slot)) [
        | inl miss ↦ FeedScan-next slot slots miss next
        | inr (reply, hit) ↦ completes [] slot slots reply hit (ground arith)
      ]
