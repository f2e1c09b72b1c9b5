-- ===== src/Correlate/Contract.antt =====
-- The contract of the correlator (`Correlator` of src/correlate.rs): each operation changes the
-- slot of one id and no other, and keeps the slots ordered and distinct.
use qwertty.Prelude.{ℕ, ◌<◌, ◌+◌, ◌^◌, ◌≡◌, ◌≢◌, refl, sym, Option, some, List, ◌∷◌, ◌++◌, arith}
use qwertty.Correlate.{Slot, Correlator, find_slot, release_slot, new}
use qwertty.Correlate.Slots.{
  Slots, none_left, left_by_one, find-release, find-release_other, find-exchanged,
  find-exchanged_other,
}

-- The ids of the slots increase and are below `next_id`, every slot has a waiter, and no two slots
-- are for the same expectation.
unfoldable pub IsValid : Correlator → Type 0
IsValid c = Slots c.next_id 0 c.slots

-- The counters of `register` have room: no `u32` and no `u64` wraps around.
unfoldable pub HasRoom : Correlator → Type 0
HasRoom c =
    (c.next_id + 1 < 2 ^ 64)
    × ((id : ℕ) (slot : Slot) → find_slot id c.slots ≡ some slot → slot.outstanding + 1 < 2 ^ 32)

-- From `c` to `c'` the slot of the id goes from `old` to `new`, and every other id keeps its slot.
unfoldable pub Updates : Correlator → Correlator → ℕ → Option Slot → Option Slot → Type 0
Updates c c' id old new =
    (find_slot id c.slots ≡ old)
    × (find_slot id c'.slots ≡ new)
    × ((other : ℕ) → other ≢ id → find_slot other c'.slots ≡ find_slot other c.slots)

pub new-IsValid : IsValid new
unfolding IsValid
new-IsValid = none_left (ground arith)

-- A slot exchanged in the list is an update of its id.
pub Updates-exchanged :
    (n m : ℕ) (front : List Slot) (old new : Slot) (back : List Slot)
    → new.id ≡ old.id
    → Slots n 0 (front ++ old ∷ back)
    → Updates
        (record { slots = front ++ old ∷ back; next_id = n })
        (record { slots = front ++ new ∷ back; next_id = m })
        old.id
        (some old)
        (some new)
unfolding Updates
Updates-exchanged n m front old new back same v = (
  find-exchanged front old old back refl v,
  find-exchanged front old new back same v,
  λ other ne. find-exchanged_other front old new back other same ne,
)

-- One waiter leaving is an update of its id.
pub Updates-release :
    (c : Correlator) (id : ℕ) (slot : Slot)
    → IsValid c
    → find_slot id c.slots ≡ some slot
    → Updates c (record c { slots = release_slot id c.slots }) id (some slot) (left_by_one slot)
unfolding Updates IsValid
Updates-release c id slot v e =
    (e, find-release id slot v e, λ other ne. find-release_other id other c.slots (λ p. ne (sym p)))

-- A correlator by its fields.
abbrev pub of_slots : List Slot → ℕ → Correlator
of_slots slots n = record { slots = slots; next_id = n }
