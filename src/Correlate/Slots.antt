-- ===== src/Correlate/Slots.antt =====
-- The slots of the correlator (src/correlate.rs): their order, and the lookup of an id in them.
use qwertty.Prelude.{
  ℕ, suc, ◌≤◌, ◌<◌, ◌+◌, ◌-◌, ◌≡◌, ◌≢◌, refl, sym, ◌∙◌, subst, true, false, Option, none, some,
  List, [], ◌∷◌, ◌++◌, ◌==◌, if◌then◌else◌, arith,
}
use qwertty.Correlate.{Slot, find_slot, release_slot}
use qwertty.Correlate.Discriminator.{expectation_eq_sym}
use qwertty.Correlate.Matcher.{Expectation, expectation_eq}

-- No slot is for the expectation.
unfoldable pub IsFresh : Expectation → List Slot → Type 0
IsFresh e [] = true ≡ true
IsFresh e (slot ∷ slots) = (expectation_eq slot.expectation e ≡ false) × IsFresh e slots

-- The ids increase from `lo` on and stay below `hi`, every slot has a waiter, and no two slots are
-- for the same expectation.
pub data Slots (hi : ℕ) : ℕ → List Slot → Type 0 where
  none_left : {lo : ℕ} → lo ≤ hi → Slots hi lo []
  slot_first :
      {lo : ℕ} {slot : Slot} {slots : List Slot}
      → lo ≤ slot.id
      → 1 ≤ slot.outstanding
      → IsFresh slot.expectation slots
      → Slots hi (suc slot.id) slots
      → Slots hi lo (slot ∷ slots)

pub Slots-bound : {hi lo : ℕ} {slots : List Slot} → Slots hi lo slots → lo ≤ hi
Slots-bound (none_left le) = le
Slots-bound (slot_first le w f v) = ground (arith, Slots-bound v)

pub Slots-lower :
    {hi lo lo' : ℕ} {slots : List Slot} → lo' ≤ lo → Slots hi lo slots → Slots hi lo' slots
Slots-lower h (none_left le) = none_left (ground arith)
Slots-lower h (slot_first le w f v) = slot_first (ground arith) w f v

-- An id below the slots' ids names none of them.
pub find-below :
    (id : ℕ) {hi lo : ℕ} {slots : List Slot}
    → Slots hi lo slots
    → id < lo
    → find_slot id slots ≡ none
unfolding find_slot
find-below id (none_left le) h = refl
find-below id (slot_first le w f v) h = ground (arith, find-below id v)

-- What a slot becomes when one waiter leaves it.
abbrev pub left_by_one : Slot → Option Slot
left_by_one slot =
    if slot.outstanding - 1 == 0
    then none
    else some (record slot { outstanding = slot.outstanding - 1 })

pub find-release :
    (id : ℕ) {hi lo : ℕ} {slots : List Slot} (found : Slot)
    → Slots hi lo slots
    → find_slot id slots ≡ some found
    → find_slot id (release_slot id slots) ≡ left_by_one found
unfolding find_slot release_slot
find-release id found (none_left le) e = ground arith
find-release id found (slot_first le w f v) e =
    ground (arith, find-release id found v, find-below id v)

pub find-release_other :
    (i j : ℕ) (slots : List Slot) → i ≢ j → find_slot j (release_slot i slots) ≡ find_slot j slots
unfolding find_slot release_slot
find-release_other i j [] ne = refl
find-release_other i j (slot ∷ slots) ne = ground (arith, find-release_other i j slots ne)

IsFresh-release :
    (e : Expectation) (id : ℕ) (slots : List Slot)
    → IsFresh e slots
    → IsFresh e (release_slot id slots)
unfolding IsFresh release_slot
IsFresh-release e id [] f = refl
IsFresh-release e id (slot ∷ slots) f = ground (arith, IsFresh-release e id slots)

pub Slots-release :
    (id : ℕ) {hi lo : ℕ} {slots : List Slot}
    → Slots hi lo slots
    → Slots hi lo (release_slot id slots)
unfolding release_slot
Slots-release id (none_left le) = none_left le
Slots-release id {slots = slot ∷ slots} (slot_first le w f v) =
    grind (arith, slot_first, IsFresh-release, Slots-release id v, Slots-lower)

-- The ids behind a bound are not below it.
Slots-first :
    (front : List Slot) (slot : Slot) (back : List Slot) {hi lo : ℕ}
    → Slots hi lo (front ++ slot ∷ back)
    → lo ≤ slot.id
Slots-first [] slot back (slot_first le w f v) = le
Slots-first (first ∷ front) slot back (slot_first le w f v) =
    ground (arith, Slots-first front slot back v)

-- A slot in the list exchanged for one with the same id and expectation.
pub find-exchanged :
    (front : List Slot) (old new : Slot) (back : List Slot) {hi lo : ℕ}
    → new.id ≡ old.id
    → Slots hi lo (front ++ old ∷ back)
    → find_slot old.id (front ++ new ∷ back) ≡ some new
unfolding find_slot
find-exchanged [] old new back same v = ground arith
find-exchanged (slot ∷ front) old new back same (slot_first le w f v) =
    ground (arith, find-exchanged front old new back same v, Slots-first front old back v)

pub find-exchanged_other :
    (front : List Slot) (old new : Slot) (back : List Slot) (j : ℕ)
    → new.id ≡ old.id
    → j ≢ old.id
    → find_slot j (front ++ new ∷ back) ≡ find_slot j (front ++ old ∷ back)
unfolding find_slot
find-exchanged_other [] old new back j same ne = ground arith
find-exchanged_other (slot ∷ front) old new back j same ne =
    ground (arith, find-exchanged_other front old new back j same ne)

IsFresh-exchanged :
    (e : Expectation) (front : List Slot) (old new : Slot) (back : List Slot)
    → new.expectation ≡ old.expectation
    → IsFresh e (front ++ old ∷ back)
    → IsFresh e (front ++ new ∷ back)
unfolding IsFresh
IsFresh-exchanged e [] old new back same f = ground arith
IsFresh-exchanged e (slot ∷ front) old new back same f =
    ground (arith, IsFresh-exchanged e front old new back same)

pub Slots-exchanged :
    (front : List Slot) (old new : Slot) (back : List Slot) {hi lo : ℕ}
    → new.id ≡ old.id
    → new.expectation ≡ old.expectation
    → 1 ≤ new.outstanding
    → Slots hi lo (front ++ old ∷ back)
    → Slots hi lo (front ++ new ∷ back)
Slots-exchanged [] old new back {hi} same same_e w' (slot_first le w f v) =
    slot_first (ground arith) w' (subst (λ e. IsFresh e back) (sym same_e) f)
      (subst (λ id. Slots hi (suc id) back) (sym same) v)
Slots-exchanged (slot ∷ front) old new back same same_e w' (slot_first le w f v) =
    slot_first le w (IsFresh-exchanged slot.expectation front old new back same_e f)
      (Slots-exchanged front old new back same same_e w' v)

-- `slots.push(slot)`
pub find-push :
    (slots : List Slot) (slot : Slot) {hi lo : ℕ}
    → Slots hi lo slots
    → slot.id ≡ hi
    → find_slot slot.id (slots ++ slot ∷ []) ≡ some slot
unfolding find_slot
find-push [] slot (none_left le) same = ground arith
find-push (first ∷ slots) slot (slot_first le w f v) same =
    ground (arith, find-push slots slot v same, Slots-bound v)

pub find-push_other :
    (slots : List Slot) (slot : Slot) (j : ℕ)
    → j ≢ slot.id
    → find_slot j (slots ++ slot ∷ []) ≡ find_slot j slots
unfolding find_slot
find-push_other [] slot j ne = ground arith
find-push_other (first ∷ slots) slot j ne = ground (arith, find-push_other slots slot j ne)

IsFresh-push :
    (e : Expectation) (slots : List Slot) (slot : Slot)
    → IsFresh e slots
    → expectation_eq slot.expectation e ≡ false
    → IsFresh e (slots ++ slot ∷ [])
unfolding IsFresh
IsFresh-push e [] slot f ne = ground arith
IsFresh-push e (first ∷ slots) slot f ne = ground (arith, IsFresh-push e slots slot)

pub Slots-push :
    (slots : List Slot) (slot : Slot) {hi lo : ℕ}
    → Slots hi lo slots
    → slot.id ≡ hi
    → 1 ≤ slot.outstanding
    → IsFresh slot.expectation slots
    → Slots (hi + 1) lo (slots ++ slot ∷ [])
unfolding IsFresh
Slots-push [] slot (none_left le) same w fresh =
    slot_first (ground arith) w refl (none_left (ground arith))
Slots-push (first ∷ slots) slot (slot_first le w' f v) same w fresh =
    slot_first le w'
      (IsFresh-push first.expectation slots slot f
        (expectation_eq_sym slot.expectation first.expectation ∙ fresh.0))
      (Slots-push slots slot v same w fresh.1)

-- The id that `next_id` stands for names no slot.
pub find-next :
    (id : ℕ) (slots : List Slot) {hi lo : ℕ}
    → Slots hi lo slots
    → hi ≤ id
    → find_slot id slots ≡ none
unfolding find_slot
find-next id [] (none_left le) h = refl
find-next id (slot ∷ slots) (slot_first le w f v) h =
    ground (arith, find-next id slots v h, Slots-bound v)

-- Every slot has a waiter.
pub find-waiting :
    (id : ℕ) {hi lo : ℕ} {slots : List Slot} (slot : Slot)
    → Slots hi lo slots
    → find_slot id slots ≡ some slot
    → 1 ≤ slot.outstanding
unfolding find_slot
find-waiting id slot (none_left le) e = ground arith
find-waiting id slot (slot_first le w f v) e = ground (arith, find-waiting id slot v)
