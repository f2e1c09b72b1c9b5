-- ===== src/Input/Characters/Lossless.antt =====
-- A text run and its characters (`str::chars`): the characters written again are the run.
use qwertty.Prelude.{
  ℕ, zero, suc, ◌+◌, ◌-◌, ◌*◌, ◌≡◌, ◌≢◌, ◌<◌, refl, sym, ap, ◌∙◌, true, false, List, [], ◌∷◌, ◌++◌,
  Bytes, concat, map, length, ◌≤◌, ◌⊎◌, inl, inr, ltb, ◌==◌, if◌then◌else◌, arith, some,
}
use qwertty.Input.Characters.{chars_from, chars, follow_count, lead_bits, encode_utf8}
use qwertty.Syntax.Classes.{within, is_utf8, utf8_ok, utf8_follow}

abbrev written : List ℕ → Bytes
written characters = concat (map encode_utf8 characters)

encode_1 : (b : ℕ) → b < 0x80 → encode_utf8 b ≡ b ∷ []
unfolding encode_utf8
encode_1 b h = ground arith

encode_2 :
    (b c : ℕ)
    → within 0xc2 0xdf b ≡ true
    → within 0x80 0xbf c ≡ true
    → encode_utf8 ((b - 0xc0) * 64 + (c - 0x80)) ≡ b ∷ c ∷ []
unfolding encode_utf8
encode_2 b c hb hc = ground arith

encode_3 :
    (b c d : ℕ)
    → within 0xe0 0xef b ≡ true
    → (b ≡ 0xe0 → within 0xa0 0xbf c ≡ true)
    → within 0x80 0xbf c ≡ true
    → within 0x80 0xbf d ≡ true
    → encode_utf8 (((b - 0xe0) * 64 + (c - 0x80)) * 64 + (d - 0x80)) ≡ b ∷ c ∷ d ∷ []
unfolding encode_utf8
encode_3 b c d hb low hc hd = ground (arith, low)

encode_4 :
    (b c d e : ℕ)
    → within 0xf0 0xf4 b ≡ true
    → (b ≡ 0xf0 → within 0x90 0xbf c ≡ true)
    → within 0x80 0xbf c ≡ true
    → within 0x80 0xbf d ≡ true
    → within 0x80 0xbf e ≡ true
    → encode_utf8 ((((b - 0xf0) * 64 + (c - 0x80)) * 64 + (d - 0x80)) * 64 + (e - 0x80))
      ≡ b ∷ c ∷ d ∷ e ∷ []
unfolding encode_utf8
encode_4 b c d e hb low hc hd he = ground (arith, low)

chars_from-bits :
    (bits bits' : ℕ) (bytes : Bytes) → chars_from 0 bits bytes ≡ chars_from 0 bits' bytes
unfolding chars_from
chars_from-bits bits bits' [] = refl
chars_from-bits bits bits' (byte ∷ bytes) = refl

-- The character in front of some bytes, and the rest.
Front : ℕ → Bytes → Type 0
Front bits bytes =
    (c : ℕ) × (rest : Bytes) × (encode_utf8 c ++ rest ≡ bytes)
    × (chars_from 0 bits bytes ≡ c ∷ chars_from 0 0 rest)
    × (utf8_ok 0 0x80 0xbf rest ≡ true)
    × (length rest < length bytes)

-- What follows a lead byte: how many bytes, and the range of the first.
Follows : ℕ → ℕ → ℕ → Type 0
Follows b n base =
    (lo : ℕ) × (hi : ℕ) × (utf8_follow b ≡ some (n, lo, hi))
    × (0x80 ≤ lo)
    × (hi ≤ 0xbf)
    × (b ≡ 0xe0 → lo ≡ 0xa0)
    × (b ≡ 0xf0 → lo ≡ 0x90)
    × (ltb b 0x80 ≡ false)
    × (follow_count b ≡ n)
    × (lead_bits b ≡ b - base)

follow_2 : (b : ℕ) → within 0xc2 0xdf b ≡ true → Follows b 1 0xc0
unfolding Follows utf8_follow follow_count lead_bits
follow_2 b h = (
  0x80,
  0xbf,
  ground arith,
  omega arith,
  omega arith,
  λ e. ground arith,
  λ e. ground arith,
  ground arith,
  ground arith,
  ground arith,
)

follow_3 : (b : ℕ) → within 0xe0 0xef b ≡ true → Follows b 2 0xe0
unfolding Follows utf8_follow follow_count lead_bits
follow_3 b h = (
  if b == 0xe0 then 0xa0 else 0x80,
  if b == 0xed then 0x9f else 0xbf,
  ground arith,
  ground arith,
  ground arith,
  λ e. ground arith,
  λ e. ground arith,
  ground arith,
  ground arith,
  ground arith,
)

follow_4 : (b : ℕ) → within 0xf0 0xf4 b ≡ true → Follows b 3 0xf0
unfolding Follows utf8_follow follow_count lead_bits
follow_4 b h = (
  if b == 0xf0 then 0x90 else 0x80,
  if b == 0xf4 then 0x8f else 0xbf,
  ground arith,
  ground arith,
  ground arith,
  λ e. ground arith,
  λ e. ground arith,
  ground arith,
  ground arith,
  ground arith,
)

-- The checks on the bytes behind a lead byte.
ok-lead :
    (b : ℕ) {n lo hi : ℕ} (bytes : Bytes)
    → utf8_follow b ≡ some (n, lo, hi)
    → utf8_ok 0 0x80 0xbf (b ∷ bytes) ≡ utf8_ok n lo hi bytes
unfolding utf8_ok
ok-lead b bytes e = rw (utf8_ok, e) refl

ok-next :
    (n lo hi c : ℕ) (bytes : Bytes)
    → utf8_ok (suc n) lo hi (c ∷ bytes) ≡ true
    → (within lo hi c ≡ true) × (utf8_ok n 0x80 0xbf bytes ≡ true)
unfolding utf8_ok
ok-next n lo hi c bytes h = ground arith

ok-nil : (n lo hi : ℕ) → utf8_ok (suc n) lo hi [] ≢ true
unfolding utf8_ok
ok-nil n lo hi h = cc

chars-lead :
    (b : ℕ) {n base : ℕ} (bits : ℕ) (bytes : Bytes)
    → ltb b 0x80 ≡ false
    → follow_count b ≡ n
    → lead_bits b ≡ base
    → chars_from 0 bits (b ∷ bytes) ≡ chars_from n base bytes
unfolding chars_from
chars-lead b bits bytes small count lead = rw (small, count, lead) refl

within_widen :
    (lo hi c : ℕ) → 0x80 ≤ lo → hi ≤ 0xbf → within lo hi c ≡ true → within 0x80 0xbf c ≡ true
within_widen lo hi c p q h = ground arith

within_low :
    (lo hi low c : ℕ) → lo ≡ low → hi ≤ 0xbf → within lo hi c ≡ true → within low 0xbf c ≡ true
within_low lo hi low c e q h = ground arith

front_1 :
    (bits b : ℕ) (bytes : Bytes)
    → b < 0x80
    → utf8_ok 0 0x80 0xbf (b ∷ bytes) ≡ true
    → Front bits (b ∷ bytes)
unfolding Front utf8_ok utf8_follow chars_from follow_count
front_1 bits b bytes h ok = (
  b,
  bytes,
  ap (λ s. s ++ bytes) (encode_1 b h),
  ground (arith, chars_from-bits (lead_bits b) 0 bytes),
  ground arith,
  omega arith,
)

front_2 :
    (bits b : ℕ) (bytes : Bytes)
    → within 0xc2 0xdf b ≡ true
    → utf8_ok 0 0x80 0xbf (b ∷ bytes) ≡ true
    → Front bits (b ∷ bytes)
unfolding Front Follows
front_2 bits b [] h ok =
    let (lo, hi, e, p, q, r, t, small, count, lead) = follow_2 b h in
    absurd (ok-nil 0 lo hi (sym (ok-lead b [] e) ∙ ok))
front_2 bits b (c ∷ bytes) h ok =
    let (lo, hi, e, p, q, r, t, small, count, lead) = follow_2 b h in
    let (hc, ok1) = ok-next 0 lo hi c bytes (sym (ok-lead b (c ∷ bytes) e) ∙ ok) in
    (
      (b - 0xc0) * 64 + (c - 0x80),
      bytes,
      ap (λ s. s ++ bytes) (encode_2 b c h (within_widen lo hi c p q hc)),
      chars-lead b bits (c ∷ bytes) small count lead ∙ (unfold chars_from in refl),
      ok1,
      omega arith,
    )

front_3 :
    (bits b : ℕ) (bytes : Bytes)
    → within 0xe0 0xef b ≡ true
    → utf8_ok 0 0x80 0xbf (b ∷ bytes) ≡ true
    → Front bits (b ∷ bytes)
unfolding Front Follows
front_3 bits b [] h ok =
    let (lo, hi, e, p, q, r, t, small, count, lead) = follow_3 b h in
    absurd (ok-nil 1 lo hi (sym (ok-lead b [] e) ∙ ok))
front_3 bits b (c ∷ []) h ok =
    let (lo, hi, e, p, q, r, t, small, count, lead) = follow_3 b h in
    absurd (ok-nil 0 0x80 0xbf (ok-next 1 lo hi c [] (sym (ok-lead b (c ∷ []) e) ∙ ok)).1)
front_3 bits b (c ∷ d ∷ bytes) h ok =
    let (lo, hi, e, p, q, r, t, small, count, lead) = follow_3 b h in
    let (hc, ok1) = ok-next 1 lo hi c (d ∷ bytes) (sym (ok-lead b (c ∷ d ∷ bytes) e) ∙ ok) in
    let (hd, ok2) = ok-next 0 0x80 0xbf d bytes ok1 in
    (
      ((b - 0xe0) * 64 + (c - 0x80)) * 64 + (d - 0x80),
      bytes,
      ap (λ s. s ++ bytes)
          (encode_3 b c d h (λ z. within_low lo hi 0xa0 c (r z) q hc) (within_widen lo hi c p q hc)
            hd),
      chars-lead b bits (c ∷ d ∷ bytes) small count lead ∙ (unfold chars_from in refl),
      ok2,
      omega arith,
    )

front_4 :
    (bits b : ℕ) (bytes : Bytes)
    → within 0xf0 0xf4 b ≡ true
    → utf8_ok 0 0x80 0xbf (b ∷ bytes) ≡ true
    → Front bits (b ∷ bytes)
unfolding Front Follows
front_4 bits b [] h ok =
    let (lo, hi, e, p, q, r, t, small, count, lead) = follow_4 b h in
    absurd (ok-nil 2 lo hi (sym (ok-lead b [] e) ∙ ok))
front_4 bits b (c ∷ []) h ok =
    let (lo, hi, e, p, q, r, t, small, count, lead) = follow_4 b h in
    absurd (ok-nil 1 0x80 0xbf (ok-next 2 lo hi c [] (sym (ok-lead b (c ∷ []) e) ∙ ok)).1)
front_4 bits b (c ∷ d ∷ []) h ok =
    let (lo, hi, e, p, q, r, t, small, count, lead) = follow_4 b h in
    let (hc, ok1) = ok-next 2 lo hi c (d ∷ []) (sym (ok-lead b (c ∷ d ∷ []) e) ∙ ok) in
    absurd (ok-nil 0 0x80 0xbf (ok-next 1 0x80 0xbf d [] ok1).1)
front_4 bits b (c ∷ d ∷ f ∷ bytes) h ok =
    let (lo, hi, e, p, q, r, t, small, count, lead) = follow_4 b h in
    let (hc, ok1) =
      ok-next 2 lo hi c (d ∷ f ∷ bytes) (sym (ok-lead b (c ∷ d ∷ f ∷ bytes) e) ∙ ok) in
    let (hd, ok2) = ok-next 1 0x80 0xbf d (f ∷ bytes) ok1 in
    let (hf, ok3) = ok-next 0 0x80 0xbf f bytes ok2 in
    (
      (((b - 0xf0) * 64 + (c - 0x80)) * 64 + (d - 0x80)) * 64 + (f - 0x80),
      bytes,
      ap (λ s. s ++ bytes)
          (encode_4 b c d f h (λ z. within_low lo hi 0x90 c (t z) q hc)
            (within_widen lo hi c p q hc) hd hf),
      chars-lead b bits (c ∷ d ∷ f ∷ bytes) small count lead ∙ (unfold chars_from in refl),
      ok3,
      omega arith,
    )

-- A lead byte is of one of the four widths.
lead_cases :
    (b : ℕ) (bytes : Bytes)
    → utf8_ok 0 0x80 0xbf (b ∷ bytes) ≡ true
    → (b < 0x80)
      ⊎ (within 0xc2 0xdf b ≡ true)
      ⊎ (within 0xe0 0xef b ≡ true)
      ⊎ (within 0xf0 0xf4 b ≡ true)
unfolding utf8_ok utf8_follow
lead_cases b bytes ok = ground arith

front :
    (bits b : ℕ) (bytes : Bytes) → utf8_ok 0 0x80 0xbf (b ∷ bytes) ≡ true → Front bits (b ∷ bytes)
front bits b bytes ok = elim (lead_cases b bytes ok) [
  | inl h ↦ front_1 bits b bytes h ok
  | inr (inl h) ↦ front_2 bits b bytes h ok
  | inr (inr (inl h)) ↦ front_3 bits b bytes h ok
  | inr (inr (inr h)) ↦ front_4 bits b bytes h ok
]

written_fuel :
    (fuel bits : ℕ) (bytes : Bytes)
    → length bytes ≤ fuel
    → utf8_ok 0 0x80 0xbf bytes ≡ true
    → written (chars_from 0 bits bytes) ≡ bytes
unfolding Front
written_fuel fuel bits [] h ok = unfold chars_from in refl
written_fuel zero bits (b ∷ bytes) h ok = absurd (omega arith)
written_fuel (suc fuel) bits (b ∷ bytes) h ok =
    let (c, rest, whole, first, ok', shorter) = front bits b bytes ok in
    ap written first
    ∙ ap (λ s. encode_utf8 c ++ s) (written_fuel fuel 0 rest (omega arith) ok')
    ∙ whole

-- The characters of valid UTF-8, written again, are the bytes.
pub encode_utf8-chars :
    (bytes : Bytes) → is_utf8 bytes ≡ true → concat (map encode_utf8 (chars bytes)) ≡ bytes
unfolding chars is_utf8
encode_utf8-chars bytes ok = written_fuel (length bytes) 0 bytes (omega arith) ok
