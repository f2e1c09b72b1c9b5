-- ===== src/Console/Buttons.antt =====
-- The buttons of console mouse records (src/terminal/console_translate.rs): what a record means, and
-- the button that a state reports.
use qwertty.Console.{
  ConsoleMouse, wheel_delta, masked, lowest_button, trailing_zeros, sgr_button_number, has_flag,
  not_u32,
}
use qwertty.Input.Keys.{no_modifiers}
use qwertty.Input.Mouse.{
  ScrollDirection, MouseEventKind, press, release, moved, scroll, MouseButton,
  decode_mouse_modifiers, decode_button, decode_kind_and_button,
}
use qwertty.Prelude.{
  ℕ, suc, ◌/◌, ◌%◌, ◌^◌, ◌<◌, ◌≡◌, ◌≢◌, ◌⊎◌, inl, inr, refl, ap, ◌∙◌, Bool, true, false, Option,
  none, some, ◌==◌, if◌then◌else◌, Bool-cases, bit_and, bit_or, arith,
}
use qwertty.Prelude.Int.{ℤ, pos, negsuc}

-- The button that the lowest bit of a state stands for.
unfoldable pub button_of : ℕ → Option MouseButton
button_of buttons =
    if buttons % 2 == 1
    then some MouseButton.left
    else if buttons / 2 % 2 == 1
    then some MouseButton.right
    else if buttons / 4 % 2 == 1
    then some MouseButton.middle
    else if buttons / 8 % 2 == 1
    then some (MouseButton.other 8)
    else if buttons / 16 % 2 == 1
    then some (MouseButton.other 9)
    else none

-- The same of the five bits that are buttons.
abbrev pub first_button : ℕ → Option MouseButton
first_button state = button_of (masked state)

abbrev pub with_kind : MouseEventKind → Option MouseButton → Option (MouseEventKind × MouseButton)
with_kind kind none = none
with_kind kind (some button) = some (kind, button)

abbrev pub or_no_button : Option MouseButton → MouseButton
or_no_button none = MouseButton.no_button
or_no_button (some button) = button

abbrev pub or_else :
    Option (MouseEventKind × MouseButton)
    → Option (MouseEventKind × MouseButton)
    → Option (MouseEventKind × MouseButton)
or_else none other = other
or_else (some event) other = some event

-- A wheel delta of 0 or more is up or to the right.
abbrev pub is_forward : ℤ → Bool
is_forward (pos n) = true
is_forward (negsuc n) = false

-- What a console mouse record says, with the buttons that were held before it.
unfoldable pub meaning : ConsoleMouse → ℕ → Option (MouseEventKind × MouseButton)
meaning mouse prev =
    let current = masked mouse.button_state in
    let forward = is_forward (wheel_delta mouse.button_state) in
    if has_flag mouse.event_flags 0x4
    then some (
      scroll (if forward then ScrollDirection.up else ScrollDirection.down),
      MouseButton.no_button,
    )
    else if has_flag mouse.event_flags 0x8
    then some (
      scroll (if forward then ScrollDirection.right else ScrollDirection.left),
      MouseButton.no_button,
    )
    else if has_flag mouse.event_flags 0x1
    then some (moved, or_no_button (first_button current))
    else if has_flag mouse.event_flags 0x2
    then with_kind press (first_button current)
    else or_else (with_kind press (first_button (bit_and current (not_u32 prev))))
        (with_kind release (first_button (bit_and prev (not_u32 current))))

-- How the mouse decoder reads the code of a button bit.
pub record Plain (bit : ℕ) (button : MouseButton) : Type 0 where
  pub pressed : decode_kind_and_button (sgr_button_number bit) false ≡ (press, button)
  pub released : decode_kind_and_button (sgr_button_number bit) true ≡ (release, button)
  pub moving : decode_kind_and_button (bit_or (sgr_button_number bit) 0x20) false ≡ (moved, button)
  pub bare : decode_mouse_modifiers (sgr_button_number bit) ≡ no_modifiers
  pub bare_moving : decode_mouse_modifiers (bit_or (sgr_button_number bit) 0x20) ≡ no_modifiers
  pub small : (sgr_button_number bit < 2 ^ 16) × (bit_or (sgr_button_number bit) 0x20 < 2 ^ 16)

Plain-left : Plain 1 MouseButton.left
unfolding decode_kind_and_button decode_button decode_mouse_modifiers sgr_button_number
Plain-left = record {
  pressed = refl;
  released = refl;
  moving = refl;
  bare = refl;
  bare_moving = refl;
  small = omega arith;
}

Plain-right : Plain 2 MouseButton.right
unfolding decode_kind_and_button decode_button decode_mouse_modifiers sgr_button_number
Plain-right = record {
  pressed = refl;
  released = refl;
  moving = refl;
  bare = refl;
  bare_moving = refl;
  small = omega arith;
}

Plain-middle : Plain 4 MouseButton.middle
unfolding decode_kind_and_button decode_button decode_mouse_modifiers sgr_button_number
Plain-middle = record {
  pressed = refl;
  released = refl;
  moving = refl;
  bare = refl;
  bare_moving = refl;
  small = omega arith;
}

Plain-x1 : Plain 8 (MouseButton.other 8)
unfolding decode_kind_and_button decode_button decode_mouse_modifiers sgr_button_number
Plain-x1 = record {
  pressed = refl;
  released = refl;
  moving = refl;
  bare = refl;
  bare_moving = refl;
  small = omega arith;
}

Plain-x2 : Plain 16 (MouseButton.other 9)
unfolding decode_kind_and_button decode_button decode_mouse_modifiers sgr_button_number
Plain-x2 = record {
  pressed = refl;
  released = refl;
  moving = refl;
  bare = refl;
  bare_moving = refl;
  small = omega arith;
}

abbrev pub Chosen : ℕ → Type 0
Chosen m =
    ((lowest_button m ≡ none) × (button_of m ≡ none))
    ⊎ ((bit : ℕ) × (button : MouseButton) × (lowest_button m ≡ some bit)
        × (button_of m ≡ some button)
        × Plain bit button)

zeros-odd : (bits n : ℕ) → (n % 2 == 1) ≡ true → trailing_zeros (suc bits) n ≡ 0
unfolding trailing_zeros
zeros-odd bits n h = rw h refl

zeros-even :
    (bits n : ℕ)
    → (n % 2 == 1) ≡ false
    → trailing_zeros (suc bits) n ≡ suc (trailing_zeros bits (n / 2))
unfolding trailing_zeros
zeros-even bits n h = rw h refl

lowest_of :
    (m places : ℕ)
    → m < 32
    → m ≢ 0
    → trailing_zeros 32 m ≡ places
    → lowest_button m ≡ some (2 ^ places)
unfolding lowest_button
lowest_of m places h ne e =
    let whole : m % 0x20 ≡ m = omega arith in
    let there : (m == 0) ≡ false = ground arith in rw (whole, there, e) refl

Chosen-zero : (m : ℕ) → m ≡ 0 → Chosen m
unfolding lowest_button button_of
Chosen-zero m e = rw e (inl (refl, refl))

-- Two more places are empty below the third.
zeros-even_2 :
    (m places : ℕ)
    → (m % 2 == 1) ≡ false
    → (m / 2 % 2 == 1) ≡ false
    → trailing_zeros 30 (m / 2 / 2) ≡ places
    → trailing_zeros 32 m ≡ suc (suc places)
zeros-even_2 m places a b e = zeros-even 31 m a ∙ ap suc (zeros-even 30 (m / 2) b ∙ ap suc e)

Chosen-high : (m : ℕ) → m < 32 → (m % 2 == 1) ≡ false → (m / 2 % 2 == 1) ≡ false → Chosen m
unfolding button_of
Chosen-high m h a b = elim (Bool-cases (m / 2 / 2 % 2 == 1)) [
  | inl c ↦
      (let e : (m / 4 % 2 == 1) ≡ true = ground arith in
        inr (
          4,
          MouseButton.middle,
          lowest_of m 2 h (ground arith) (zeros-even_2 m 0 a b (zeros-odd 29 (m / 2 / 2) c)),
          rw (a, b, e) refl,
          Plain-middle,
        ))
  | inr c ↦
      (let e : (m / 4 % 2 == 1) ≡ false = ground arith in
        let two = λ (places : ℕ). zeros-even_2 m (suc places) a b in
        let three = zeros-even 29 (m / 2 / 2) c in
        elim (Bool-cases (m / 2 / 2 / 2 % 2 == 1)) [
          | inl d ↦
              (let f : (m / 8 % 2 == 1) ≡ true = ground arith in
                inr (
                  8,
                  MouseButton.other 8,
                  lowest_of m 3 h (ground arith)
                      (two 0 (three ∙ ap suc (zeros-odd 28 (m / 2 / 2 / 2) d))),
                  rw (a, b, e, f) refl,
                  Plain-x1,
                ))
          | inr d ↦
              (let f : (m / 8 % 2 == 1) ≡ false = ground arith in
                elim (Bool-cases (m / 2 / 2 / 2 / 2 % 2 == 1)) [
                  | inl g ↦
                      (let k : (m / 16 % 2 == 1) ≡ true = ground arith in
                        inr (
                          16,
                          MouseButton.other 9,
                          lowest_of m 4 h (ground arith) (
                              two 1 (
                                three
                                ∙ ap suc (
                                    zeros-even 28 (m / 2 / 2 / 2) d
                                    ∙ ap suc (zeros-odd 27 (m / 2 / 2 / 2 / 2) g)))),
                          rw (a, b, e, f, k) refl,
                          Plain-x2,
                        ))
                  | inr g ↦ Chosen-zero m (ground arith)
                ])
        ])
]

-- The button of a state is that of its lowest bit.
pub Chosen-lowest : (m : ℕ) → m < 32 → Chosen m
unfolding button_of
Chosen-lowest m h = elim (Bool-cases (m % 2 == 1)) [
  | inl a ↦ inr (
    1,
    MouseButton.left,
    lowest_of m 0 h (ground arith) (zeros-odd 31 m a),
    rw a refl,
    Plain-left,
  )
  | inr a ↦ elim (Bool-cases (m / 2 % 2 == 1)) [
    | inl b ↦ inr (
      2,
      MouseButton.right,
      lowest_of m 1 h (ground arith) (zeros-even 31 m a ∙ ap suc (zeros-odd 30 (m / 2) b)),
      rw (a, b) refl,
      Plain-right,
    )
    | inr b ↦ Chosen-high m h a b
  ]
]

pub lowest-masked : (x : ℕ) → lowest_button x ≡ lowest_button (masked x)
unfolding lowest_button
lowest-masked x = let e : masked (masked x) ≡ masked x = omega arith in rw e refl
