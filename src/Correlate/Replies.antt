-- ===== src/Correlate/Replies.antt =====
-- One reply and its readers (src/correlate.rs): at most one slot matches an event, and all waiters
-- of a slot read the same reply.
use qwertty.Prelude.{ℕ, zero, suc, ◌-◌, ◌≡◌, false, Option, none, some, List, [], ◌∷◌, arith}
use qwertty.Correlate.{Slot, Correlator, take_reply, find_slot, release}
use qwertty.Correlate.Contract.{IsValid}
use qwertty.Correlate.Discriminator.{match_event_unique, expectation_eq_refl}
use qwertty.Correlate.Matcher.{Event, Expectation, Reply, expectation_eq, match_event}
use qwertty.Correlate.Slots.{Slots, none_left, slot_first, IsFresh, find-release, Slots-release}

fresh-find :
    (e : Expectation) (slots : List Slot) (id : ℕ) (slot : Slot)
    → IsFresh e slots
    → find_slot id slots ≡ some slot
    → expectation_eq slot.expectation e ≡ false
unfolding find_slot IsFresh
fresh-find e [] id slot f p = ground arith
fresh-find e (first ∷ slots) id slot f p = ground (arith, fresh-find e slots id slot)

-- Two slots for the same expectation are found by the same id.
pub find-distinct :
    {hi lo : ℕ} {slots : List Slot} (i j : ℕ) (s t : Slot)
    → Slots hi lo slots
    → find_slot i slots ≡ some s
    → find_slot j slots ≡ some t
    → s.expectation ≡ t.expectation
    → i ≡ j
unfolding find_slot
find-distinct i j s t (none_left le) p q same = ground arith
find-distinct {slots = first ∷ slots} i j s t (slot_first le w f v) p q same = ground (
  arith,
  find-distinct i j s t v,
  fresh-find first.expectation slots i s f,
  fresh-find first.expectation slots j t f,
  expectation_eq_refl first.expectation,
)

-- In a valid correlator at most one slot matches an event.
pub match_unique :
    {I : Type 0} (c : Correlator) (event : Event I) (i j : ℕ) (s t : Slot) {r r' : Reply}
    → IsValid c
    → find_slot i c.slots ≡ some s
    → find_slot j c.slots ≡ some t
    → match_event s.expectation event ≡ some r
    → match_event t.expectation event ≡ some r'
    → i ≡ j
unfolding IsValid
match_unique c event i j s t v p q m m' =
    find-distinct i j s t v p q (match_event_unique s.expectation t.expectation event m m')

-- `take_reply` a number of times, as the waiters call it.
unfoldable pub take_replies : ℕ → Correlator → ℕ → Correlator × List (Option Reply)
take_replies zero c id = (c, [])
take_replies (suc n) c id =
    let (c', reply) = take_reply c id in
    let (c'', replies) = take_replies n c' id in (c'', reply ∷ replies)

unfoldable pub copies : {A : Type 0} → ℕ → A → List A
copies zero a = []
copies (suc n) a = a ∷ copies n a

take_reply-held :
    (c : Correlator) (id : ℕ) (slot : Slot) {reply : Reply}
    → find_slot id c.slots ≡ some slot
    → slot.reply ≡ some reply
    → take_reply c id ≡ (release id c, some reply)
unfolding take_reply
take_reply-held c id slot e r = ground arith

-- As many calls of `take_reply` as a completed slot has waiters each return its reply, and then the
-- slot is gone.
pub take_replies_all :
    (n : ℕ) (c : Correlator) (id : ℕ) (slot : Slot) (reply : Reply)
    → IsValid c
    → find_slot id c.slots ≡ some slot
    → slot.reply ≡ some reply
    → slot.outstanding ≡ suc n
    → ((take_replies (suc n) c id).1 ≡ copies (suc n) (some reply))
      × (find_slot id (take_replies (suc n) c id).0.slots ≡ none)
unfolding take_replies copies IsValid
take_replies_all zero c id slot reply v e r w =
    ground (arith, take_reply-held c id slot e r, find-release id slot v e)
take_replies_all (suc n) c id slot reply v e r w =
    let left : Slot = record slot { outstanding = slot.outstanding - 1 } in
    ground (
      arith,
      take_reply-held c id slot e r,
      find-release id slot v e,
      take_replies_all n (release id c) id left reply (Slots-release id v),
    )
