-- ===== src/Correlate/History.antt =====
-- Histories of the correlator (src/correlate.rs): its calls one after another, and the ids that
-- never come back.
use qwertty.Prelude.{
  ℕ, ◌≤◌, ◌<◌, ◌+◌, ◌^◌, ◌≡◌, refl, ap, ◌∙◌, Option, none, some, List, inl, inr, ◌==◌, arith,
  Bool-cases, ==_iff,
}
use qwertty.Correlate.{
  register_scan, mint, new, Slot, Correlator, Registered, Feed, Resolution, Resolved, register,
  feed, take_reply, resolve, find_slot,
}
use qwertty.Correlate.Contract.{IsValid, HasRoom, Updates}
use qwertty.Correlate.Matcher.{Event, Expectation, Reply}
use qwertty.Correlate.Pending.{Registers, register-Sound, Feeds, feed-Sound}
use qwertty.Correlate.Waiters.{TakesReply, take_reply-Sound, Resolves, resolve-Sound}

-- Calls one after another, `register` with room in its counters.
pub data Run (I : Type 0) : Correlator → Correlator → Type 1 where
  stop : {c : Correlator} → Run I c c
  and_register :
      {c c' : Correlator} (e : Expectation) → HasRoom c → Run I (register c e).0 c' → Run I c c'
  and_feed : {c c' : Correlator} (event : Event I) → Run I (feed c event).0 c' → Run I c c'
  and_take_reply : {c c' : Correlator} (id : ℕ) → Run I (take_reply c id).0 c' → Run I c c'
  and_resolve :
      {c c' : Correlator} (id : ℕ) (resolution : Resolution)
      → Run I (resolve c id resolution).0 c'
      → Run I c c'

-- An id that was given out and whose slot is gone.
unfoldable pub IsRetired : Correlator → ℕ → Type 0
IsRetired c id = (id < c.next_id) × (find_slot id c.slots ≡ none)

Updates-gone :
    (c c' : Correlator) (i id : ℕ) (slot : Slot) (new : Option Slot)
    → Updates c c' i (some slot) new
    → find_slot id c.slots ≡ none
    → find_slot id c'.slots ≡ none
unfolding Updates
Updates-gone c c' i id slot new (old, now, others) gone = elim (Bool-cases (id == i)) [
  | inl same ↦ ground (arith, ap (λ n. find_slot n c.slots) ((==_iff id i).0 same))
  | inr ne ↦ others id (λ e. ground arith) ∙ gone
]

mint-next_id :
    (c : Correlator) (e : Expectation) (scanned : List Slot × Option Registered)
    → c.next_id + 1 < 2 ^ 64
    → c.next_id ≤ (mint c e scanned).0.next_id
mint-next_id c e (slots, some result) h = ground arith
mint-next_id c e (slots, none) h = ground arith

register-next_id :
    (c : Correlator) (e : Expectation) → HasRoom c → c.next_id ≤ (register c e).0.next_id
unfolding register HasRoom
register-next_id c e (ids, waiters) = mint-next_id c e (register_scan e c.slots) ids

feed-next_id :
    {I : Type 0} (c : Correlator) (event : Event I) → (feed c event).0.next_id ≡ c.next_id
unfolding feed
feed-next_id c event = refl

take_reply-next_id : (c : Correlator) (id : ℕ) → (take_reply c id).0.next_id ≡ c.next_id
unfolding take_reply
take_reply-next_id c id = ground arith

resolve-next_id :
    (c : Correlator) (id : ℕ) (resolution : Resolution)
    → (resolve c id resolution).0.next_id ≡ c.next_id
unfolding resolve
resolve-next_id c id resolution = ground arith

Registers-gone :
    (c c' : Correlator) (e : Expectation) (result : Registered) (id : ℕ)
    → IsRetired c id
    → Registers c e c' result
    → find_slot id c'.slots ≡ none
unfolding Registers IsRetired Updates
Registers-gone c c' e (Registered.ok i) id (lt, gone) (inl (slot, same, update)) =
    Updates-gone c c' i id slot _ update gone
Registers-gone c c' e (Registered.ok i) id (lt, gone) (inr (next, fresh, (old, now, others))) =
    others id (λ p. ground arith) ∙ gone
Registers-gone c c' e (Registered.ambiguous i) id retired absurd = ground arith

Feeds-gone :
    {I : Type 0} (c c' : Correlator) (event : Event I) (result : Feed I) (id : ℕ)
    → Feeds event c c' result
    → find_slot id c.slots ≡ none
    → find_slot id c'.slots ≡ none
unfolding Feeds
Feeds-gone c c' event (Feed.completed i reply) id (slot, waits, hit, update) gone =
    Updates-gone c c' i id slot _ update gone
Feeds-gone c c' event (Feed.passthrough passed) id (same, kept, rest) gone = ground arith

TakesReply-gone :
    (c c' : Correlator) (i : ℕ) (result : Option Reply) (id : ℕ)
    → TakesReply c i c' result
    → find_slot id c.slots ≡ none
    → find_slot id c'.slots ≡ none
unfolding TakesReply
TakesReply-gone c c' i none id (kept, rest) gone = ground arith
TakesReply-gone c c' i (some reply) id (slot, held, update) gone =
    Updates-gone c c' i id slot _ update gone

Resolves-gone :
    (c c' : Correlator) (i : ℕ) (result : Resolved) (id : ℕ)
    → Resolves c i c' result
    → find_slot id c.slots ≡ none
    → find_slot id c'.slots ≡ none
unfolding Resolves
Resolves-gone c c' i (Resolved.waiter_removed n) id (slot, r, w, one, update) gone =
    Updates-gone c c' i id slot _ update gone
Resolves-gone c c' i Resolved.removed id (slot, r, w, update) gone =
    Updates-gone c c' i id slot _ update gone
Resolves-gone c c' i (Resolved.already_completed n) id (slot, r, w, update) gone =
    Updates-gone c c' i id slot _ update gone
Resolves-gone c c' i Resolved.unknown id (kept, rest) gone = ground arith

module _ {I : Type 0} where
  -- Every call keeps the correlator valid.
  pub Run-IsValid : {c c' : Correlator} → IsValid c → Run I c c' → IsValid c'
  Run-IsValid v stop = v
  Run-IsValid {c = c} v (and_register e room run) = Run-IsValid (register-Sound c e v room).0 run
  Run-IsValid {c = c} v (and_feed event run) = Run-IsValid (feed-Sound c event v).0 run
  Run-IsValid {c = c} v (and_take_reply id run) = Run-IsValid (take_reply-Sound c id v).0 run
  Run-IsValid {c = c} v (and_resolve id resolution run) =
      Run-IsValid (resolve-Sound c id resolution v).0 run

  -- An id that was given out and whose slot is gone never names a slot again.
  pub Run-IsRetired :
      {c c' : Correlator} (id : ℕ) → IsValid c → IsRetired c id → Run I c c' → IsRetired c' id
  unfolding IsRetired
  Run-IsRetired id v retired stop = retired
  Run-IsRetired {c = c} id v (lt, gone) (and_register e room run) =
      let (v', now) = register-Sound c e v room in
      let up = register-next_id c e room in
      Run-IsRetired id v'
        (ground arith, Registers-gone c (register c e).0 e (register c e).1 id (lt, gone) now) run
  Run-IsRetired {c = c} id v (lt, gone) (and_feed event run) =
      let (v', now) = feed-Sound c event v in
      let up = feed-next_id c event in
      Run-IsRetired id v'
        (ground arith, Feeds-gone c (feed c event).0 event (feed c event).1 id now gone) run
  Run-IsRetired {c = c} id v (lt, gone) (and_take_reply i run) =
      let (v', now) = take_reply-Sound c i v in
      let up = take_reply-next_id c i in
      Run-IsRetired id v'
        (ground arith, TakesReply-gone c (take_reply c i).0 i (take_reply c i).1 id now gone) run
  Run-IsRetired {c = c} id v (lt, gone) (and_resolve i resolution run) =
      let (v', now) = resolve-Sound c i resolution v in
      let up = resolve-next_id c i resolution in
      Run-IsRetired id v'
        (
          ground arith,
          Resolves-gone c (resolve c i resolution).0 i (resolve c i resolution).1 id now gone,
        )
        run
