-- ===== src/Console/MouseReports.antt =====
-- The codes of console mouse reports (src/terminal/console_translate.rs) as the mouse decoder
-- (src/event/mouse.rs) reads them.
use qwertty.Console.{
  ConsoleMouse, wheel_delta, masked, lowest_button, sgr_button_number, has_flag, one_if, not_u32,
  is_negative, mouse_report, report_of,
}
use qwertty.Input.Keys.{no_modifiers}
use qwertty.Input.Mouse.{
  ScrollDirection, MouseEventKind, press, release, moved, scroll, MouseButton,
  decode_mouse_modifiers, decode_button, decode_kind_and_button, scroll_direction,
}
use qwertty.Prelude.{
  ℕ, ◌^◌, ◌<◌, ◌≡◌, ◌⊎◌, inl, inr, refl, Bool, true, false, not, Option, none, some, if◌then◌else◌,
  Bool-cases, bit_and, bit_or, arith,
}
use qwertty.Prelude.Int.{ℤ, pos, negsuc}
use qwertty.Console.Buttons.{
  button_of, first_button, with_kind, or_no_button, or_else, is_forward, meaning, Chosen-lowest,
  lowest-masked,
}

-- A report that the mouse decoder reads as the kind and the button, with no modifiers.
abbrev Reads : Option (ℕ × Bool) → Option (MouseEventKind × MouseButton) → Type 0
Reads report event =
    ((report ≡ none) × (event ≡ none))
    ⊎ ((code : ℕ) × (is_release : Bool) × (kind : MouseEventKind) × (button : MouseButton) × (report
          ≡ some (code, is_release))
        × (event ≡ some (kind, button))
        × (decode_kind_and_button code is_release ≡ (kind, button))
        × (decode_mouse_modifiers code ≡ no_modifiers)
        × (code < 2 ^ 16))

Reads-press :
    (x : ℕ) {other : Option (ℕ × Bool)} {event : Option (MouseEventKind × MouseButton)}
    → Reads other event
    → Reads
        (report_of (λ bit. (sgr_button_number bit, false)) other (lowest_button x))
        (or_else (with_kind press (button_of (masked x))) event)
Reads-press x behind = elim (Chosen-lowest (masked x) (omega arith)) [
  | inl (e, f) ↦ rw (lowest-masked x, e, f) behind
  | inr (bit, button, e, f, plain) ↦
      rw (lowest-masked x, e, f)
        (inr (
          sgr_button_number bit,
          false,
          press,
          button,
          refl,
          refl,
          plain.pressed,
          plain.bare,
          plain.small.0,
        ))
]

Reads-release :
    (x : ℕ)
    → Reads
        (report_of (λ bit. (sgr_button_number bit, true)) none (lowest_button x))
        (with_kind release (button_of (masked x)))
Reads-release x = elim (Chosen-lowest (masked x) (omega arith)) [
  | inl (e, f) ↦ rw (lowest-masked x, e, f) (inl (refl, refl))
  | inr (bit, button, e, f, plain) ↦
      rw (lowest-masked x, e, f)
        (inr (
          sgr_button_number bit,
          true,
          release,
          button,
          refl,
          refl,
          plain.released,
          plain.bare,
          plain.small.0,
        ))
]

bare_motion :
    (decode_kind_and_button (bit_or 3 0x20) false ≡ (moved, MouseButton.no_button))
    × (decode_mouse_modifiers (bit_or 3 0x20) ≡ no_modifiers)
unfolding decode_kind_and_button decode_button decode_mouse_modifiers
bare_motion = (refl, refl)

Reads-motion :
    (x : ℕ)
    → Reads
        (report_of
          (λ bit. (bit_or (sgr_button_number bit) 0x20, false))
          (some (bit_or 3 0x20, false))
          (lowest_button x))
        (some (moved, or_no_button (button_of (masked x))))
Reads-motion x = elim (Chosen-lowest (masked x) (omega arith)) [
  | inl (e, f) ↦
      rw (lowest-masked x, e, f)
        (inr (
          bit_or 3 0x20,
          false,
          moved,
          MouseButton.no_button,
          refl,
          refl,
          bare_motion.0,
          bare_motion.1,
          omega arith,
        ))
  | inr (bit, button, e, f, plain) ↦
      rw (lowest-masked x, e, f)
        (inr (
          bit_or (sgr_button_number bit) 0x20,
          false,
          moved,
          button,
          refl,
          refl,
          plain.moving,
          plain.bare_moving,
          plain.small.1,
        ))
]

scroll_code :
    (code : ℕ) (direction : ScrollDirection)
    → decode_kind_and_button code false ≡ (scroll direction, MouseButton.no_button)
    → decode_mouse_modifiers code ≡ no_modifiers
    → code < 2 ^ 16
    → Reads (some (code, false)) (some (scroll direction, MouseButton.no_button))
scroll_code code direction e m h =
    inr (code, false, scroll direction, MouseButton.no_button, refl, refl, e, m, h)

Reads-wheel :
    (delta : ℤ)
    → Reads (some (bit_or 0x40 (one_if (not (is_forward delta))), false)) (
        some (
          scroll (if is_forward delta then ScrollDirection.up else ScrollDirection.down),
          MouseButton.no_button,
        ))
unfolding decode_kind_and_button scroll_direction decode_mouse_modifiers
Reads-wheel (pos n) = scroll_code 64 ScrollDirection.up refl refl (omega arith)
Reads-wheel (negsuc n) = scroll_code 65 ScrollDirection.down refl refl (omega arith)

Reads-hwheel :
    (delta : ℤ)
    → Reads (some (bit_or (bit_or 0x40 2) (one_if (is_forward delta)), false)) (
        some (
          scroll (if is_forward delta then ScrollDirection.right else ScrollDirection.left),
          MouseButton.no_button,
        ))
unfolding decode_kind_and_button scroll_direction decode_mouse_modifiers
Reads-hwheel (pos n) = scroll_code 67 ScrollDirection.right refl refl (omega arith)
Reads-hwheel (negsuc n) = scroll_code 66 ScrollDirection.left refl refl (omega arith)

negative_lem : (delta : ℤ) → is_negative delta ≡ not (is_forward delta)
negative_lem (pos n) = refl
negative_lem (negsuc n) = refl

not_negative : (delta : ℤ) → not (is_negative delta) ≡ is_forward delta
not_negative (pos n) = refl
not_negative (negsuc n) = refl

or_else-none : (event : Option (MouseEventKind × MouseButton)) → or_else event none ≡ event
or_else-none none = refl
or_else-none (some event) = refl

pub report-Reads :
    (mouse : ConsoleMouse) (prev : ℕ) → Reads (mouse_report mouse prev) (meaning mouse prev)
unfolding mouse_report meaning
report-Reads mouse prev =
    let current = masked mouse.button_state in
    let delta = wheel_delta mouse.button_state in
    elim (Bool-cases (has_flag mouse.event_flags 0x4)) [
      | inl wheel ↦ rw (wheel, negative_lem delta) (Reads-wheel delta)
      | inr no_wheel ↦ elim (Bool-cases (has_flag mouse.event_flags 0x8)) [
        | inl hwheel ↦ rw (no_wheel, hwheel, not_negative delta) (Reads-hwheel delta)
        | inr no_hwheel ↦ elim (Bool-cases (has_flag mouse.event_flags 0x1)) [
          | inl move ↦ rw (no_wheel, no_hwheel, move) (Reads-motion current)
          | inr no_move ↦ elim (Bool-cases (has_flag mouse.event_flags 0x2)) [
            | inl double ↦
                rw
                  (
                    no_wheel,
                    no_hwheel,
                    no_move,
                    double,
                    ← or_else-none (with_kind press (first_button current)),
                  )
                  (Reads-press current (inl (refl, refl)))
            | inr single ↦
                rw (no_wheel, no_hwheel, no_move, single)
                  (Reads-press (bit_and current (not_u32 prev))
                    (Reads-release (bit_and prev (not_u32 current))))
          ]
        ]
      ]
    ]
