-- ===== src/Correlate/Waiters.antt =====
-- How waiters leave a slot: `take_reply` and `resolve` of src/correlate.rs.
use qwertty.Prelude.{
  ℕ, suc, ◌≤◌, ◌-◌, ◌≡◌, ◌≢◌, refl, subst, Option, none, some, inl, inr, ◌==◌, arith, Option-cases,
  Bool-cases,
}
use qwertty.Correlate.{
  Slot, Correlator, Resolution, Resolved, take_reply, resolve, find_slot, release, take_held,
  take_found, resolved, resolve_found,
}
use qwertty.Correlate.Matcher.{Reply}
use qwertty.Correlate.Slots.{left_by_one, Slots-release, find-waiting}
use qwertty.Correlate.Contract.{IsValid, Updates, Updates-release}

-- What `take_reply` does.
unfoldable pub TakesReply : Correlator → ℕ → Correlator → Option Reply → Type 0
TakesReply c id c' none =
    (c' ≡ c) × ((slot : Slot) → find_slot id c.slots ≡ some slot → slot.reply ≡ none)
TakesReply c id c' (some reply) =
    (slot : Slot) × (slot.reply ≡ some reply) × Updates c c' id (some slot) (left_by_one slot)

take_held-Sound :
    (c : Correlator) (id : ℕ) (slot : Slot)
    → IsValid c
    → find_slot id c.slots ≡ some slot
    → (reply : Option Reply) → slot.reply ≡ reply
    → IsValid (take_held id c reply).0
      × TakesReply c id (take_held id c reply).0 (take_held id c reply).1
unfolding TakesReply IsValid
take_held-Sound c id slot v e none r = (v, (refl, λ other p. ground arith))
take_held-Sound c id slot v e (some reply) r =
    (Slots-release id v, (slot, r, Updates-release c id slot v e))

take_found-Sound :
    (c : Correlator) (id : ℕ)
    → IsValid c
    → (found : Option Slot) → find_slot id c.slots ≡ found
    → IsValid (take_found id c found).0
      × TakesReply c id (take_found id c found).0 (take_found id c found).1
unfolding TakesReply
take_found-Sound c id v none e = (v, (refl, λ slot p. ground arith))
take_found-Sound c id v (some slot) e = take_held-Sound c id slot v e slot.reply refl

-- With a reply in hand, `take_reply` hands it out and one waiter leaves the slot of the id; it
-- hands out nothing and changes nothing if the id has no slot, or one that waits.
pub take_reply-Sound :
    (c : Correlator) (id : ℕ)
    → IsValid c
    → IsValid (take_reply c id).0 × TakesReply c id (take_reply c id).0 (take_reply c id).1
unfolding take_reply
take_reply-Sound c id v = take_found-Sound c id v (find_slot id c.slots) refl

-- What `resolve` does, by what it returns.
unfoldable pub Resolves : Correlator → ℕ → Correlator → Resolved → Type 0
Resolves c id c' (Resolved.waiter_removed remaining) =
    (slot : Slot) × (slot.reply ≡ none)
    × (slot.outstanding ≡ suc remaining)
    × (1 ≤ remaining)
    × Updates c c' id (some slot) (some (record slot { outstanding = remaining }))
Resolves c id c' Resolved.removed =
    (slot : Slot) × (slot.reply ≡ none) × (slot.outstanding ≡ 1) × Updates c c' id (some slot) none
Resolves c id c' (Resolved.already_completed unread) =
    (slot : Slot) × (slot.reply ≢ none)
    × (slot.outstanding ≡ suc unread)
    × Updates c c' id (some slot) (left_by_one slot)
Resolves c id c' Resolved.unknown = (c' ≡ c) × (find_slot id c.slots ≡ none)

resolved-Sound :
    (c : Correlator) (id : ℕ) (slot : Slot)
    → IsValid c
    → find_slot id c.slots ≡ some slot
    → 1 ≤ slot.outstanding
    → Resolves c id (release id c) (resolved slot)
unfolding Resolves
resolved-Sound c id slot v e w =
    let update = Updates-release c id slot v e in
    elim (Option-cases slot.reply) [
      | inl waits ↦ elim (Bool-cases (slot.outstanding - 1 == 0)) [
        | inl last ↦
            let which : Resolved.removed ≡ resolved slot = ground arith in
            let gone : left_by_one slot ≡ none = ground arith in
            subst (Resolves c id (release id c)) which (
              slot,
              waits,
              ground arith,
              subst (Updates c (release id c) id (some slot)) gone update,
            )
        | inr more ↦
            let which : Resolved.waiter_removed (slot.outstanding - 1) ≡ resolved slot =
              ground arith in
            let kept : left_by_one slot
                ≡ some (record slot { outstanding = slot.outstanding - 1 }) =
              ground arith in
            subst (Resolves c id (release id c)) which (
              slot,
              waits,
              ground arith,
              ground arith,
              subst (Updates c (release id c) id (some slot)) kept update,
            )
      ]
      | inr (reply, held) ↦
          let which : Resolved.already_completed (slot.outstanding - 1) ≡ resolved slot =
            ground arith in
          subst (Resolves c id (release id c)) which
            (slot, (λ waits. ground arith), ground arith, update)
    ]

resolve_found-Sound :
    (c : Correlator) (id : ℕ)
    → IsValid c
    → (found : Option Slot) → find_slot id c.slots ≡ found
    → IsValid (resolve_found id c found).0
      × Resolves c id (resolve_found id c found).0 (resolve_found id c found).1
unfolding Resolves IsValid
resolve_found-Sound c id v none e = (v, (refl, e))
resolve_found-Sound c id v (some slot) e =
    (Slots-release id v, resolved-Sound c id slot v e (find-waiting id slot v e))

-- `resolve` takes one waiter off the slot of the id, which goes with its last waiter, and says how
-- many are left and whether a reply was there; without such a slot it changes nothing.
pub resolve-Sound :
    (c : Correlator) (id : ℕ) (resolution : Resolution)
    → IsValid c
    → IsValid (resolve c id resolution).0
      × Resolves c id (resolve c id resolution).0 (resolve c id resolution).1
unfolding resolve
resolve-Sound c id resolution v = resolve_found-Sound c id v (find_slot id c.slots) refl
