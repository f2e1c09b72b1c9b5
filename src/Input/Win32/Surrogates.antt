-- ===== src/Input/Win32/Surrogates.antt =====
-- win32-input-mode (src/event/win32.rs): surrogate pairs become their character, and a record's
-- repeat count cannot flood.
use qwertty.Prelude.{
  ℕ, zero, suc, ◌+◌, ◌-◌, ◌/◌, ◌%◌, ◌≤◌, ◌≡◌, refl, ap, ◌∙◌, true, false, Option, none, some, List,
  length, length-append, ◌==◌, if◌then◌else◌, arith,
}
use qwertty.Input.Keys.{KeyEvent, press, release, char_from_u32}
use qwertty.Input.Win32.{
  Fields, decode_fields, combine_surrogates, repeated, repeat_count, decode_state, text_key_event,
  orphan, pushed, paired, key_event,
}
use qwertty.Syntax.Classes.{within}

-- The halves of a character beyond the basic plane, as UTF-16 has them.
abbrev pub high_half : ℕ → ℕ
high_half c = 0xd800 + (c - 0x10000) / 0x400

abbrev pub low_half : ℕ → ℕ
low_half c = 0xdc00 + (c - 0x10000) % 0x400

combine_halves :
    (c : ℕ) → 0x10000 ≤ c → c ≤ 0x10ffff → combine_surrogates (high_half c) (low_half c) ≡ c
unfolding combine_surrogates char_from_u32
combine_halves c lo hi = ground arith

halves_in_range :
    (c : ℕ)
    → 0x10000 ≤ c
    → c ≤ 0x10ffff
    → (within 0xd800 0xdbff (high_half c) ≡ true)
      × (within 0xdc00 0xdfff (low_half c) ≡ true)
      × (within 0xd800 0xdbff (low_half c) ≡ false)
halves_in_range c lo hi = (ground arith, ground arith, ground arith)

high_step :
    (pending : Option ℕ) (f : Fields)
    → within 0xd800 0xdbff f.uc ≡ true
    → decode_fields pending f ≡ (some f.uc, orphan pending)
unfolding decode_fields
high_step pending f h = rw h refl

low_step :
    (high : ℕ) (g : Fields)
    → within 0xd800 0xdbff g.uc ≡ false
    → within 0xdc00 0xdfff g.uc ≡ true
    → decode_fields (some high) g ≡ (
      none,
      repeated
          (text_key_event
            (combine_surrogates high g.uc)
            (decode_state g.cs)
            (if g.kd == 0 then release else press))
          (repeat_count g.rc),
    )
unfolding decode_fields
low_step high g n l = rw (n, l) refl

-- A record with the high half pushes what an orphan before it left and nothing else, and the next
-- record, with the low half, pushes the events of the character, once for each repeat.
pub decode_fields_pair :
    (c : ℕ) (pending : Option ℕ) (f g : Fields)
    → 0x10000 ≤ c
    → c ≤ 0x10ffff
    → f.uc ≡ high_half c
    → g.uc ≡ low_half c
    → (decode_fields pending f ≡ (some (high_half c), orphan pending))
      × (decode_fields (decode_fields pending f).0 g ≡ (
        none,
        repeated
            (text_key_event c (decode_state g.cs) (if g.kd == 0 then release else press))
            (repeat_count g.rc),
      ))
decode_fields_pair c pending f g lo hi eh el =
    let (h, l, n) = halves_in_range c lo hi in
    let first = high_step pending f (ap (within 0xd800 0xdbff) eh ∙ h) in
    let event = λ (character : ℕ).
      text_key_event character (decode_state g.cs) (if g.kd == 0 then release else press) in
    let whole : combine_surrogates f.uc g.uc ≡ c =
      ap (λ u. combine_surrogates u g.uc) eh
      ∙ ap (combine_surrogates (high_half c)) el
      ∙ combine_halves c lo hi in
    (
      first ∙ ap (λ u. (some u, orphan pending)) eh,
      ap (λ (step : Option ℕ × List KeyEvent). decode_fields step.0 g) first
          ∙ low_step f.uc g (ap (within 0xd800 0xdbff) el ∙ n) (ap (within 0xdc00 0xdfff) el ∙ l)
          ∙ ap (λ u. (none, repeated (event u) (repeat_count g.rc))) whole,
    )

length-repeated :
    (event : KeyEvent) (count : ℕ) → length (repeated event count) ≤ count + (1 - count)
unfolding repeated
length-repeated event zero = omega arith
length-repeated event (suc zero) = omega arith
length-repeated event (suc (suc count)) = ground (arith, length-repeated event (suc count))

repeat_count_bound : (rc : ℕ) → repeat_count rc ≤ 32
unfolding repeat_count
repeat_count_bound rc = ground arith

length-orphan : (pending : Option ℕ) → length (orphan pending) ≤ 1
length-orphan none = omega arith
length-orphan (some high) = omega arith

length-pushed : (event : Option KeyEvent) (rc : ℕ) → length (pushed event (repeat_count rc)) ≤ 32
length-pushed none rc = omega arith
length-pushed (some event) rc =
    omega (arith, length-repeated event (repeat_count rc), repeat_count_bound rc)

-- A record pushes 33 events at most, whatever its fields are.
pub length-decode_fields :
    (pending : Option ℕ) (f : Fields) → length (decode_fields pending f).1 ≤ 33
unfolding decode_fields
length-decode_fields pending f =
    let event =
      text_key_event (paired pending f.uc) (decode_state f.cs)
        (if f.kd == 0 then release else press) in
    let typed = key_event f.vk f.uc (decode_state f.cs) (if f.kd == 0 then release else press) in
    ground (
      arith,
      length-orphan pending,
      length-pushed typed f.rc,
      length-pushed (some event) f.rc,
      length-append {0} (orphan pending) (pushed typed (repeat_count f.rc)),
    )
