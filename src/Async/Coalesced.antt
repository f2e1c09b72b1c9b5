-- ===== src/Async/Coalesced.antt =====
-- The coalescing of resize events (`take_coalesced_event` of src/tokio_session.rs) over a whole queue.
use qwertty.Async.{is_resize, any_resize, take_coalesced_event}
use qwertty.Correlate.Matcher.{Event}
use qwertty.Input.{InputEvent, Events}
use qwertty.Prelude.{
  ℕ, zero, suc, ◌≤◌, ◌≡◌, inl, inr, refl, sym, ap, ◌∙◌, true, false, ◌&&◌, Option, none, some, [],
  ◌∷◌, length, if◌then◌else◌, Bool-cases, arith, le_refl,
}

abbrev then_drain : (Events → Events) → Option (Event InputEvent × Events) → Events
then_drain drain none = []
then_drain drain (some (event, rest)) = event ∷ drain rest

-- The events that calls of `take_coalesced_event` give until it gives none, on fuel for each event.
unfoldable pub drain_events : ℕ → Events → Events
drain_events zero pending = []
drain_events (suc fuel) pending = then_drain (drain_events fuel) (take_coalesced_event pending)

abbrev pub without_resize : Events → Events
without_resize [] = []
without_resize (event ∷ events) =
    if is_resize event then without_resize events else event ∷ without_resize events

-- The last resize event, if there is one.
abbrev pub last_resize : Events → Events
last_resize [] = []
last_resize (event ∷ events) =
    if any_resize events then last_resize events else if is_resize event then event ∷ [] else []

abbrev pub only_resize : Events → Events
only_resize [] = []
only_resize (event ∷ events) =
    if is_resize event then event ∷ only_resize events else only_resize events

-- What a whole drain has to give.
abbrev Drained : Events → Events → Type 0
Drained pending events =
    (without_resize events ≡ without_resize pending)
    × (only_resize events ≡ last_resize pending)
    × (any_resize events ≡ any_resize pending)

last_resize-none : (events : Events) → any_resize events ≡ false → last_resize events ≡ []
last_resize-none [] h = refl
last_resize-none (event ∷ events) h =
    let none_here : is_resize event ≡ false = ground arith in
    let none_behind : any_resize events ≡ false = ground arith in rw (none_behind, none_here) refl

take-skips :
    (event : Event InputEvent) (pending : Events)
    → is_resize event ≡ true
    → any_resize pending ≡ true
    → take_coalesced_event (event ∷ pending) ≡ take_coalesced_event pending
unfolding take_coalesced_event
take-skips event pending r later = rw (r, later) refl

take-last :
    (event : Event InputEvent) (pending : Events)
    → (is_resize event && any_resize pending) ≡ false
    → take_coalesced_event (event ∷ pending) ≡ some (event, pending)
unfolding take_coalesced_event
take-last event pending h = rw h refl

only_resize-none : (events : Events) → any_resize events ≡ false → only_resize events ≡ []
only_resize-none [] h = refl
only_resize-none (event ∷ events) h =
    let none_here : is_resize event ≡ false = ground arith in
    rw none_here (only_resize-none events (ground arith))

last_resize-other :
    (event : Event InputEvent) (pending : Events)
    → is_resize event ≡ false
    → last_resize (event ∷ pending) ≡ last_resize pending
last_resize-other event pending h = elim (Bool-cases (any_resize pending)) [
  | inl some_ ↦ rw some_ refl
  | inr none_ ↦ rw (none_, h) (sym (last_resize-none pending none_))
]

drained :
    (fuel : ℕ) (pending : Events)
    → length pending ≤ fuel
    → Drained pending (drain_events fuel pending)
unfolding drain_events
drained zero [] h = (refl, refl, refl)
drained zero (event ∷ pending) h = absurd (omega arith)
drained (suc fuel) [] h = unfold take_coalesced_event in (refl, refl, refl)
drained (suc fuel) (event ∷ pending) h = elim (Bool-cases (is_resize event)) [
  | inl r ↦ elim (Bool-cases (any_resize pending)) [
    | inl later ↦
        (let (others, kept, there) = drained (suc fuel) pending (omega arith) in
          let step = ap (then_drain (drain_events fuel)) (take-skips event pending r later) in
          (
            ap without_resize step ∙ others ∙ (rw r refl),
            ap only_resize step ∙ kept ∙ (rw later refl),
            ap any_resize step ∙ there ∙ (rw (r, later) refl),
          ))
    | inr last ↦
        (let (others, kept, there) = drained fuel pending (omega arith) in
          let step =
            ap (then_drain (drain_events fuel)) (take-last event pending (rw (r, last) refl)) in
          (
            ap without_resize step ∙ (rw r others),
            ap only_resize step
                ∙ (rw (r, last)
                    (ap (◌∷◌ event) (only_resize-none (drain_events fuel pending) (there ∙ last)))),
            ap any_resize step ∙ (rw r refl),
          ))
  ]
  | inr other ↦
      (let (others, kept, there) = drained fuel pending (omega arith) in
        let step = ap (then_drain (drain_events fuel)) (take-last event pending (rw other refl)) in
        (
          ap without_resize step ∙ (rw other (ap (◌∷◌ event) others)),
          ap only_resize step ∙ (rw other kept) ∙ sym (last_resize-other event pending other),
          ap any_resize step ∙ (rw other there),
        ))
]

-- Taking events from a queue until there is none gives all its events but the resize events, in
-- their order, and of the resize events the last alone.
pub drain_events-coalesced :
    (pending : Events)
    → (without_resize (drain_events (length pending) pending) ≡ without_resize pending)
      × (only_resize (drain_events (length pending) pending) ≡ last_resize pending)
drain_events-coalesced pending =
    let (others, kept, there) = drained (length pending) pending (le_refl (length pending)) in
    (others, kept)
