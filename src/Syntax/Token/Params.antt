-- ===== src/Syntax/Token/Params.antt =====
-- The parameter parser (src/syntax/token.rs) against its fields, read one by one.
use qwertty.Prelude.{
  zero, suc, ◌<◌, take-append_le, length-take, ℕ, ◌+◌, ◌-◌, ◌*◌, ◌^◌, ◌≤◌, min, ◌≡◌, ◌≢◌, refl, sym,
  ap, ◌∙◌, Bool, true, false, ◌&&◌, ◌||◌, Option, none, some, List, [], ◌∷◌, ◌++◌, append_assoc,
  map, take, arith, Bytes, length, length-append, leb, ltb, ◌==◌, if◌then◌else◌, Bool-cases, inl,
  inr,
}
use qwertty.Syntax.Token.{
  Param, ParamSeparator, semicolon, colon, ParamScan, push_param, param_byte, param_loop,
  parse_params, no_params, value_or_zero,
}

abbrev is_separator : ℕ → Bool
is_separator byte = byte == b';' || byte == b':'

abbrev is_digit : ℕ → Bool
is_digit byte = leb b'0' byte && leb byte b'9'

abbrev separator_of : ℕ → ParamSeparator
separator_of byte = if byte == b';' then semicolon else colon

-- A field: the separator in front of it, and its bytes.
abbrev Field : Type 0
Field = Option ParamSeparator × Bytes

abbrev with_byte : ℕ → List Field → List Field
with_byte byte [] = []
with_byte byte ((separator, bytes) ∷ fields) = (separator, byte ∷ bytes) ∷ fields

-- Parameter bytes cut at each separator.
unfoldable pub fields_of : Option ParamSeparator → Bytes → List Field
fields_of separator [] = (separator, []) ∷ []
fields_of separator (byte ∷ bytes) =
    if is_separator byte
    then (separator, []) ∷ fields_of (some (separator_of byte)) bytes
    else with_byte byte (fields_of separator bytes)

-- The number that the digits among the bytes stand for, read from the left after `value`, exactly.
unfoldable pub number : ℕ → Bytes → ℕ
number value [] = value
number value (byte ∷ bytes) =
    if is_digit byte then number (value * 10 + (byte - b'0')) bytes else number value bytes

abbrev has_digit : Bytes → Bool
has_digit [] = false
has_digit (byte ∷ bytes) = is_digit byte || has_digit bytes

-- The value of a field: none without a digit, and else its number, at most the greatest u32.
abbrev pub field_value : Bytes → Option ℕ
field_value bytes = if has_digit bytes then some (min (number 0 bytes) (2 ^ 32 - 1)) else none

abbrev pub param_of : Field → Param
param_of (separator, bytes) = record { separator = separator; value = field_value bytes }

-- The parameters of some bytes, none of them dropped.
abbrev pub all_params : Bytes → List Param
all_params bytes = map param_of (fields_of none bytes)

-- The value of the bytes behind those that gave `value`.
abbrev value_from : Option ℕ → Bytes → Option ℕ
value_from none bytes = field_value bytes
value_from (some value) bytes = some (min (number value bytes) (2 ^ 32 - 1))

-- The fields where the first has a value so far.
abbrev from_value : Option ℕ → List Field → List Param
from_value value [] = []
from_value value ((separator, bytes) ∷ fields) =
    record { separator = separator; value = value_from value bytes } ∷ map param_of fields

abbrev u32_max : ℕ
u32_max = 2 ^ 32 - 1

number-lower : (value : ℕ) (bytes : Bytes) → value ≤ number value bytes
unfolding number
number-lower value [] = omega arith
number-lower value (byte ∷ bytes) =
    ground (arith, number-lower (value * 10 + (byte - b'0')) bytes, number-lower value bytes)

-- What is over the greatest u32 stays over it.
number-min :
    (value : ℕ) (bytes : Bytes)
    → min (number (min value u32_max) bytes) u32_max ≡ min (number value bytes) u32_max
number-min value bytes = elim (Bool-cases (leb value u32_max)) [
  | inl small ↦ (let e : min value u32_max ≡ value = ground arith in rw e refl)
  | inr large ↦
      (let e : min value u32_max ≡ u32_max = ground arith in
        let a = number-lower value bytes in
        let b = number-lower u32_max bytes in rw e (ground arith))
]

-- The value so far behind a digit.
abbrev next_value : Option ℕ → ℕ → ℕ
next_value value byte = min (min (value_or_zero value * 10) u32_max + (byte - b'0')) u32_max

value_from-digit :
    (value : Option ℕ) (byte : ℕ) (bytes : Bytes)
    → is_digit byte ≡ true
    → value_from value (byte ∷ bytes) ≡ value_from (some (next_value value byte)) bytes
unfolding number
value_from-digit none byte bytes h =
    let e : next_value none byte ≡ min (0 * 10 + (byte - b'0')) u32_max = omega arith in
    rw (h, e) (ap some (sym (number-min (0 * 10 + (byte - b'0')) bytes)))
value_from-digit (some value) byte bytes h =
    let e : next_value (some value) byte ≡ min (value * 10 + (byte - b'0')) u32_max = omega arith in
    rw (h, e) (ap some (sym (number-min (value * 10 + (byte - b'0')) bytes)))

value_from-other :
    (value : Option ℕ) (byte : ℕ) (bytes : Bytes)
    → is_digit byte ≡ false
    → value_from value (byte ∷ bytes) ≡ value_from value bytes
unfolding number
value_from-other none byte bytes h = rw h refl
value_from-other (some value) byte bytes h = rw h refl

from_value-digit :
    (value : Option ℕ) (byte : ℕ) (fields : List Field)
    → is_digit byte ≡ true
    → from_value value (with_byte byte fields) ≡ from_value (some (next_value value byte)) fields
from_value-digit value byte [] h = refl
from_value-digit value byte ((separator, bytes) ∷ fields) h =
    ap (λ v. record { separator = separator; value = v } ∷ map param_of fields)
      (value_from-digit value byte bytes h)

from_value-other :
    (value : Option ℕ) (byte : ℕ) (fields : List Field)
    → is_digit byte ≡ false
    → from_value value (with_byte byte fields) ≡ from_value value fields
from_value-other value byte [] h = refl
from_value-other value byte ((separator, bytes) ∷ fields) h =
    ap (λ v. record { separator = separator; value = v } ∷ map param_of fields)
      (value_from-other value byte bytes h)

from_value-none : (fields : List Field) → from_value none fields ≡ map param_of fields
from_value-none [] = refl
from_value-none (field ∷ fields) = refl

abbrev Small : Option ℕ → Type 0
Small none = Unit {0}
Small (some value) = value ≤ u32_max

-- The scan after some fields: the first 32 are kept, and it is known whether there were more.
record Counts (all : List Param) (s : ParamScan) : Type 0 where
  kept : s.params ≡ take 32 all
  flag : s.overflowed ≡ ltb 32 (length all)
  small : Small s.value

take-short : (n : ℕ) (xs : List Param) → length xs ≤ n → take n xs ≡ xs
take-short zero [] h = refl
take-short zero (x ∷ xs) h = absurd (omega arith)
take-short (suc n) [] h = refl
take-short (suc n) (x ∷ xs) h = ap (◌∷◌ x) (take-short n xs (omega arith))

abbrev field_now : ParamScan → Param
field_now s = record { separator = s.separator; value = s.value }

push_param-Counts :
    (all : List Param) (s : ParamScan)
    → Counts all s
    → ((push_param s).params ≡ take 32 (all ++ field_now s ∷ []))
      × ((push_param s).overflowed ≡ ltb 32 (length (all ++ field_now s ∷ [])))
unfolding push_param
push_param-Counts all s c =
    let count : length s.params ≡ min 32 (length all) = ap length c.kept ∙ length-take 32 all in
    let more = length-append all (field_now s ∷ []) in
    elim (Bool-cases (leb 32 (length s.params))) [
      | inl full ↦
          (let over : 32 ≤ length all = ground arith in
            rw full (
              c.kept ∙ sym (take-append_le 32 all (field_now s ∷ []) over),
              (let e : ltb 32 (length (all ++ field_now s ∷ [])) ≡ true = ground arith in
                  rw e refl),
            ))
      | inr room ↦
          (let under : length all < 32 = ground arith in
            rw room (
              ap (λ ps. ps ++ field_now s ∷ []) (c.kept ∙ take-short 32 all (omega arith))
                  ∙ sym (take-short 32 (all ++ field_now s ∷ []) (omega arith)),
              (let e : ltb 32 (length (all ++ field_now s ∷ [])) ≡ false = ground arith in
                  let k : ltb 32 (length all) ≡ false = ground arith in c.flag ∙ k ∙ sym e),
            ))
    ]

-- The scan and the last field behind it keep the fields that the bytes still have.
abbrev Ends : List Param → ParamScan → Bytes → Type 0
Ends all s bytes =
    let scanned = push_param (param_loop s bytes) in
    let now = all ++ from_value s.value (fields_of s.separator bytes) in
    (scanned.params ≡ take 32 now) × (scanned.overflowed ≡ ltb 32 (length now))

next_value-Small : (value : Option ℕ) (byte : ℕ) → Small (some (next_value value byte))
next_value-Small none byte = omega arith
next_value-Small (some value) byte = omega arith

value_from-nil : (value : Option ℕ) → Small value → value_from value [] ≡ value
unfolding number
value_from-nil none h = refl
value_from-nil (some value) h = let e : min value u32_max ≡ value = omega arith in ap some e

param_loop-Ends :
    (bytes : Bytes) (all : List Param) (s : ParamScan) → Counts all s → Ends all s bytes
unfolding param_loop param_byte fields_of
param_loop-Ends [] all s c = rw (value_from-nil s.value c.small) (push_param-Counts all s c)
param_loop-Ends (byte ∷ bytes) all s c = elim (Bool-cases (is_separator byte)) [
  | inl cut ↦
      (let (kept, flag) = push_param-Counts all s c in
        let s1 : ParamScan = record (push_param s) {
          separator = some (separator_of byte);
          value = none;
        } in
        let ih =
          param_loop-Ends bytes (all ++ field_now s ∷ []) s1
            (record { kept = kept; flag = flag; small = tt }) in
        let now : (all ++ field_now s ∷ []) ++ from_value none (fields_of s1.separator bytes)
            ≡ all ++ field_now s ∷ map param_of (fields_of s1.separator bytes) =
          append_assoc all (field_now s ∷ []) (from_value none (fields_of s1.separator bytes))
          ∙ ap (λ ps. all ++ field_now s ∷ ps) (from_value-none (fields_of s1.separator bytes)) in
        rw (cut, value_from-nil s.value c.small)
          (ih.0 ∙ ap (take 32) now, ih.1 ∙ ap (λ ps. ltb 32 (length ps)) now))
  | inr inside ↦ elim (Bool-cases (is_digit byte)) [
    | inl digit ↦
        (let s1 : ParamScan = record s { value = some (next_value s.value byte) } in
          let ih =
            param_loop-Ends bytes all s1
              (record { kept = c.kept; flag = c.flag; small = next_value-Small s.value byte }) in
          let now = sym (from_value-digit s.value byte (fields_of s.separator bytes) digit) in
          rw (inside, digit)
            (
              ih.0 ∙ ap (λ ps. take 32 (all ++ ps)) now,
              ih.1 ∙ ap (λ ps. ltb 32 (length (all ++ ps))) now,
            ))
    | inr other ↦
        (let ih = param_loop-Ends bytes all s c in
          let now = sym (from_value-other s.value byte (fields_of s.separator bytes) other) in
          rw (inside, other)
            (
              ih.0 ∙ ap (λ ps. take 32 (all ++ ps)) now,
              ih.1 ∙ ap (λ ps. ltb 32 (length (all ++ ps))) now,
            ))
  ]
]

-- Parameter bytes that are not empty are read as the fields between their separators `;` and `:`:
-- each field has the separator in front of it and the number of its digits, at most the greatest u32,
-- or no value without a digit. The first 32 fields are kept, and the overflow flag is set exactly if
-- there are more.
pub parse_params_fields :
    (bytes : Bytes)
    → bytes ≢ []
    → ((parse_params bytes).0 ≡ take 32 (all_params bytes))
      × ((parse_params bytes).1 ≡ ltb 32 (length (all_params bytes)))
unfolding parse_params
parse_params_fields [] ne = absurd (ne refl)
parse_params_fields (byte ∷ bytes) ne =
    let (kept, flag) =
      param_loop-Ends (byte ∷ bytes) [] no_params
        (record { kept = refl; flag = refl; small = tt }) in
    let now = from_value-none (fields_of none (byte ∷ bytes)) in
    (kept ∙ ap (take 32) now, flag ∙ ap (λ ps. ltb 32 (length ps)) now)
