-- ===== src/Console/Units.antt =====
-- `SurrogateCarry` (src/terminal/console_translate.rs) against UTF-16 read with a unit of lookahead.
use qwertty.Console.{
  high_surrogates, low_surrogates, combine_units, push_fresh, push_unit, flush_pending,
  encode_replacement,
}
use qwertty.Input.Characters.{encode_utf8}
use qwertty.Input.Keys.{char_from_u32, replacement_character}
use qwertty.Input.Win32.Surrogates.{high_half, low_half}
use qwertty.Prelude.{
  ℕ, ◌+◌, ◌-◌, ◌*◌, ◌^◌, ◌<◌, ◌≡◌, inl, inr, refl, sym, ap, ◌∙◌, Bool, true, false, ◌&&◌, ◌||◌,
  Option, none, some, List, [], ◌∷◌, ◌++◌, append_assoc, append-nil, Bytes, all, concat, map, ltb,
  if◌then◌else◌, Bool-cases, arith,
}
use qwertty.Syntax.Classes.{within}

-- The calls of `push` for the units of an input.
unfoldable pub push_units : Option ℕ → List ℕ → Option ℕ × Bytes
push_units pending [] = (pending, [])
push_units pending (unit ∷ units) =
    let (pending', bytes) = push_unit pending unit in
    let (pending'', rest) = push_units pending' units in (pending'', bytes ++ rest)

abbrev is_unit : ℕ → Bool
is_unit unit = ltb unit (2 ^ 16)

-- A unit that is no half of a pair.
abbrev pub alone : ℕ → ℕ
alone unit = if within 0xd800 0xdfff unit then replacement_character else unit

-- The characters that units of UTF-16 stand for, with a replacement for each half that is alone.
unfoldable pub decode_lossy : List ℕ → List ℕ
decode_lossy [] = []
decode_lossy (unit ∷ []) = alone unit ∷ []
decode_lossy (unit ∷ next ∷ units) =
    let pair = (0x10000 + (unit - 0xd800) * 0x400 + (next - 0xdc00)) ∷ decode_lossy units in
    let single = alone unit ∷ decode_lossy (next ∷ units) in
    if within 0xd800 0xdbff unit && within 0xdc00 0xdfff next then pair else single

abbrev pub written : List ℕ → Bytes
written characters = concat (map encode_utf8 characters)

decode_lossy-alone :
    (unit : ℕ) (units : List ℕ)
    → within 0xd800 0xdbff unit ≡ false
    → decode_lossy (unit ∷ units) ≡ alone unit ∷ decode_lossy units
unfolding decode_lossy
decode_lossy-alone unit [] h = refl
decode_lossy-alone unit (next ∷ units) h = rw h refl

decode_lossy-pair :
    (unit next : ℕ) (units : List ℕ)
    → within 0xd800 0xdbff unit ≡ true
    → within 0xdc00 0xdfff next ≡ true
    → decode_lossy (unit ∷ next ∷ units)
      ≡ (0x10000 + (unit - 0xd800) * 0x400 + (next - 0xdc00)) ∷ decode_lossy units
unfolding decode_lossy
decode_lossy-pair unit next units h k = rw (h, k) refl

decode_lossy-high :
    (unit next : ℕ) (units : List ℕ)
    → within 0xd800 0xdbff unit ≡ true
    → within 0xdc00 0xdfff next ≡ false
    → decode_lossy (unit ∷ next ∷ units) ≡ replacement_character ∷ decode_lossy (next ∷ units)
unfolding decode_lossy
decode_lossy-high unit next units h k =
    let e : within 0xd800 0xdfff unit ≡ true = ground arith in rw (h, k, e) refl

combine_units_lem :
    (high low : ℕ)
    → high_surrogates high ≡ true
    → low_surrogates low ≡ true
    → combine_units high low ≡ 0x10000 + (high - 0xd800) * 0x400 + (low - 0xdc00)
unfolding combine_units char_from_u32
combine_units_lem high low h l = ground arith

-- The bytes of the units, and the replacement for a half that is left.
abbrev pub whole : Option ℕ → List ℕ → Bytes
whole pending units =
    let (pending', bytes) = push_units pending units in bytes ++ flush_pending pending'

whole-cons :
    (pending : Option ℕ) (unit : ℕ) (units : List ℕ)
    → whole pending (unit ∷ units)
      ≡ (push_unit pending unit).1 ++ whole (push_unit pending unit).0 units
unfolding push_units
whole-cons pending unit units =
    append_assoc (push_unit pending unit).1 (push_units (push_unit pending unit).0 units).1
      (flush_pending (push_units (push_unit pending unit).0 units).0)

push_fresh-high : (unit : ℕ) → high_surrogates unit ≡ true → push_fresh unit ≡ (some unit, [])
unfolding push_fresh
push_fresh-high unit h = rw h refl

push_fresh-other :
    (unit : ℕ)
    → unit < 2 ^ 16
    → high_surrogates unit ≡ false
    → push_fresh unit ≡ (none, encode_utf8 (alone unit))
unfolding push_fresh char_from_u32
push_fresh-other unit small h = ground arith

high-push_unit :
    (high unit : ℕ)
    → low_surrogates unit ≡ false
    → push_unit (some high) unit
      ≡ ((push_unit none unit).0, encode_replacement ++ (push_unit none unit).1)
unfolding push_unit
high-push_unit high unit h = rw h refl

high-push_unit_low :
    (high unit : ℕ)
    → low_surrogates unit ≡ true
    → push_unit (some high) unit ≡ (none, encode_utf8 (combine_units high unit))
unfolding push_unit
high-push_unit_low high unit h = rw h refl

-- With a half pending, the units go on as if they stood behind it.
abbrev Goes : List ℕ → Type 0
Goes units =
    (whole none units ≡ written (decode_lossy units))
    × ((high : ℕ)
        → high_surrogates high ≡ true
        → whole (some high) units ≡ written (decode_lossy (high ∷ units)))

Goes-none :
    (unit : ℕ) (units : List ℕ)
    → unit < 2 ^ 16
    → Goes units
    → whole none (unit ∷ units) ≡ written (decode_lossy (unit ∷ units))
unfolding push_unit
Goes-none unit units small ih = elim (Bool-cases (high_surrogates unit)) [
  | inl h ↦
      whole-cons none unit units
      ∙ ap (λ (r : Option ℕ × Bytes). r.1 ++ whole r.0 units) (push_fresh-high unit h)
      ∙ ih.1 unit h
  | inr h ↦
      whole-cons none unit units
      ∙ ap (λ (r : Option ℕ × Bytes). r.1 ++ whole r.0 units) (push_fresh-other unit small h)
      ∙ ap (λ b. encode_utf8 (alone unit) ++ b) ih.0
      ∙ ap written (sym (decode_lossy-alone unit units h))
]

goes-high :
    (high unit : ℕ) (units : List ℕ)
    → high_surrogates high ≡ true
    → whole none units ≡ written (decode_lossy units)
    → whole none (unit ∷ units) ≡ written (decode_lossy (unit ∷ units))
    → whole (some high) (unit ∷ units) ≡ written (decode_lossy (high ∷ unit ∷ units))
goes-high high unit units hh behind here = elim (Bool-cases (low_surrogates unit)) [
  | inl l ↦
      whole-cons (some high) unit units
      ∙ ap (λ (r : Option ℕ × Bytes). r.1 ++ whole r.0 units) (high-push_unit_low high unit l)
      ∙ ap (λ b. encode_utf8 (combine_units high unit) ++ b) behind
      ∙ ap (λ c. encode_utf8 c ++ written (decode_lossy units)) (combine_units_lem high unit hh l)
      ∙ ap written (sym (decode_lossy-pair high unit units hh l))
  | inr l ↦
      whole-cons (some high) unit units
      ∙ ap (λ (r : Option ℕ × Bytes). r.1 ++ whole r.0 units) (high-push_unit high unit l)
      ∙ append_assoc encode_replacement (push_unit none unit).1
          (whole (push_unit none unit).0 units)
      ∙ ap (λ b. encode_replacement ++ b) (sym (whole-cons none unit units) ∙ here)
      ∙ ap written (sym (decode_lossy-high high unit units hh l))
]

goes : (units : List ℕ) → all is_unit units ≡ true → Goes units
unfolding push_units decode_lossy flush_pending
goes [] h = (
  refl,
  λ high hh.
      (let e : within 0xd800 0xdfff high ≡ true = ground arith in
        rw e (sym (append-nil encode_replacement))),
)
goes (unit ∷ units) h =
    let ih = goes units (ground arith) in
    let here = Goes-none unit units (ground arith) ih in
    (here, λ high hh. goes-high high unit units hh ih.0 here)

-- The bytes that the calls of push append for 16-bit units, and what flush appends behind them, are
-- the UTF-8 of the characters that the units stand for, each half that is alone read as U+FFFD.
pub push_units-decode_lossy :
    (units : List ℕ)
    → all (λ unit. ltb unit (2 ^ 16)) units ≡ true
    → (push_units none units).1 ++ flush_pending (push_units none units).0
      ≡ concat (map encode_utf8 (decode_lossy units))
push_units-decode_lossy units h = (goes units h).0

pub push_units-append :
    (pending : Option ℕ) (xs ys : List ℕ)
    → push_units pending (xs ++ ys) ≡ (
      (push_units (push_units pending xs).0 ys).0,
      (push_units pending xs).1 ++ (push_units (push_units pending xs).0 ys).1,
    )
unfolding push_units
push_units-append pending [] ys = refl
push_units-append pending (x ∷ xs) ys =
    let first = push_unit pending x in
    let middle = push_units first.0 xs in
    let last = push_units middle.0 ys in
    ap (λ (r : Option ℕ × Bytes). (r.0, first.1 ++ r.1)) (push_units-append first.0 xs ys)
    ∙ ap (λ b. (last.0, b)) (sym (append_assoc first.1 middle.1 last.1))

-- A character as units of UTF-16.
unfoldable pub encode_utf16 : ℕ → List ℕ
encode_utf16 c = if ltb c 0x10000 then c ∷ [] else high_half c ∷ low_half c ∷ []

-- A scalar value other than NUL.
abbrev pub is_scalar : ℕ → Bool
is_scalar c = within 1 0xd7ff c || within 0xe000 0x10ffff c

decode_lossy-encode_utf16 :
    (c : ℕ) (units : List ℕ)
    → is_scalar c ≡ true
    → decode_lossy (encode_utf16 c ++ units) ≡ c ∷ decode_lossy units
unfolding encode_utf16
decode_lossy-encode_utf16 c units h = elim (Bool-cases (ltb c 0x10000)) [
  | inl small ↦
      (let e : alone c ≡ c = ground arith in
        rw small (decode_lossy-alone c units (ground arith) ∙ ap (λ d. d ∷ decode_lossy units) e))
  | inr large ↦
      (let e : 0x10000 + (high_half c - 0xd800) * 0x400 + (low_half c - 0xdc00) ≡ c =
          ground arith in
        rw large (
          decode_lossy-pair (high_half c) (low_half c) units (ground arith) (ground arith)
          ∙ ap (λ d. d ∷ decode_lossy units) e))
]

pub decode_lossy-text :
    (text : List ℕ)
    → all is_scalar text ≡ true
    → decode_lossy (concat (map encode_utf16 text)) ≡ text
decode_lossy-text [] h = unfold decode_lossy in refl
decode_lossy-text (c ∷ text) h =
    decode_lossy-encode_utf16 c (concat (map encode_utf16 text)) (ground arith)
    ∙ ap (◌∷◌ c) (decode_lossy-text text (ground arith))

pub all-encode_utf16 :
    (text : List ℕ)
    → all is_scalar text ≡ true
    → all (λ unit. ltb 0 unit && ltb unit (2 ^ 16)) (concat (map encode_utf16 text)) ≡ true
unfolding encode_utf16
all-encode_utf16 [] h = refl
all-encode_utf16 (c ∷ text) h = elim (Bool-cases (ltb c 0x10000)) [
  | inl small ↦ rw small (ground (arith, all-encode_utf16 text))
  | inr large ↦ rw large (ground (arith, all-encode_utf16 text))
]

one : (c : ℕ) → is_scalar c ≡ true → (push_units none (encode_utf16 c)).0 ≡ none
unfolding push_units push_unit push_fresh encode_utf16
one c h = elim (Bool-cases (ltb c 0x10000)) [
  | inl small ↦
      rw small
        (ap (λ (r : Option ℕ × Bytes). r.0) (push_fresh-other c (ground arith) (ground arith)))
  | inr large ↦
      (let high : high_surrogates (high_half c) ≡ true = ground arith in
        let low : low_surrogates (low_half c) ≡ true = ground arith in rw (large, high, low) refl)
]

-- The units of a text leave nothing pending.
pub push_units-text :
    (text : List ℕ)
    → all is_scalar text ≡ true
    → (push_units none (concat (map encode_utf16 text))).0 ≡ none
unfolding push_units
push_units-text [] h = refl
push_units-text (c ∷ text) h =
    ap (λ (r : Option ℕ × Bytes). r.0)
      (push_units-append none (encode_utf16 c) (concat (map encode_utf16 text)))
    ∙ ap (λ pending. (push_units pending (concat (map encode_utf16 text))).0) (one c (ground arith))
    ∙ push_units-text text (ground arith)
