-- ===== src/Commands/Decimal.antt =====
-- Decimal numbers in commands: what they are read back as (src/report.rs, src/syntax.rs).
use qwertty.Prelude.{
  ℕ, zero, suc, ◌+◌, ◌-◌, ◌*◌, ◌/◌, ◌%◌, ◌^◌, ◌≤◌, ◌<◌, ◌≡◌, refl, sym, ap, ◌∙◌, true, false, none,
  some, [], ◌∷◌, ◌++◌, Bytes, all, length, length-append, ltb, arith, digits, decimal, Bool-cases,
  inl, inr,
}
use qwertty.Report.Bounds.{decimal_value, is_decimal, bounded, parse_decimal_lem}
use qwertty.Report.Numbers.{parse_decimal}
use qwertty.Syntax.Classes.{is_param_byte}
use qwertty.Syntax.Token.{ParamScan, param_byte, param_loop}

decimal_value-append :
    (value : ℕ) (xs : Bytes) (d : ℕ)
    → decimal_value value (xs ++ d ∷ []) ≡ decimal_value value xs * 10 + (d - b'0')
unfolding decimal_value
decimal_value-append value [] d = refl
decimal_value-append value (x ∷ xs) d = decimal_value-append (value * 10 + (x - b'0')) xs d

is_decimal-append :
    (xs : Bytes) (d : ℕ) → is_decimal xs ≡ true → d < 10 → is_decimal (xs ++ (b'0' + d) ∷ []) ≡ true
unfolding is_decimal
is_decimal-append [] d h l = ground arith
is_decimal-append (x ∷ xs) d h l = ground (arith, is_decimal-append xs d)

digits_short : (fuel n : ℕ) → ltb n 10 ≡ true → digits (suc fuel) n ≡ (b'0' + n) ∷ []
unfolding digits
digits_short fuel n h = rw (digits, h) refl

digits_long :
    (fuel n : ℕ)
    → ltb n 10 ≡ false
    → digits (suc fuel) n ≡ digits fuel (n / 10) ++ (b'0' + n % 10) ∷ []
unfolding digits
digits_long fuel n h = rw (digits, h) refl

-- Fuel above the number is enough for its digits.
digits_lem :
    (fuel n : ℕ)
    → n < fuel
    → (decimal_value 0 (digits fuel n) ≡ n) × (is_decimal (digits fuel n) ≡ true)
unfolding decimal_value is_decimal
digits_lem zero n h = absurd (omega arith)
digits_lem (suc fuel) n h = elim (Bool-cases (ltb n 10)) [
  | inl short ↦ rw (digits_short fuel n short) (ground arith, ground arith)
  | inr long ↦
      let (value, shape) = digits_lem fuel (n / 10) (ground arith) in
      rw (digits_long fuel n long) (
        decimal_value-append 0 (digits fuel (n / 10)) (b'0' + n % 10)
            ∙ ap (λ v. v * 10 + (b'0' + n % 10 - b'0')) value
            ∙ omega arith,
        is_decimal-append (digits fuel (n / 10)) (n % 10) shape (omega arith),
      )
]

pub decimal_value-decimal : (n : ℕ) → decimal_value 0 (decimal n) ≡ n
unfolding decimal
decimal_value-decimal n = (digits_lem (suc n) n (omega arith)).0

pub is_decimal-decimal : (n : ℕ) → is_decimal (decimal n) ≡ true
unfolding decimal
is_decimal-decimal n = (digits_lem (suc n) n (omega arith)).1

append-cons : (xs : Bytes) (d : ℕ) → (y : ℕ) × (ys : Bytes) × (xs ++ d ∷ [] ≡ y ∷ ys)
append-cons [] d = (d, [], refl)
append-cons (x ∷ xs) d = (x, xs ++ d ∷ [], refl)

pub decimal-cons : (n : ℕ) → (y : ℕ) × (ys : Bytes) × (decimal n ≡ y ∷ ys)
unfolding decimal
decimal-cons n = elim (Bool-cases (ltb n 10)) [
  | inl short ↦ (b'0' + n, [], digits_short n n short)
  | inr long ↦
      let (y, ys, e) = append-cons (digits n (n / 10)) (b'0' + n % 10) in
      (y, ys, digits_long n n long ∙ e)
]

-- A number that fits its type is read back from its print.
pub parse_decimal-decimal : (max n : ℕ) → n ≤ max → parse_decimal max (decimal n) ≡ some n
unfolding bounded
parse_decimal-decimal max n h =
    let (y, ys, e) = decimal-cons n in
    ap (parse_decimal max) e
    ∙ parse_decimal_lem max y ys
    ∙ ap (λ bytes. bounded max (is_decimal bytes) (decimal_value 0 bytes)) (sym e)
    ∙ rw (is_decimal-decimal n, decimal_value-decimal n) (ground arith)

is_decimal-all : (bytes : Bytes) → is_decimal bytes ≡ true → all is_param_byte bytes ≡ true
unfolding is_decimal is_param_byte
is_decimal-all [] h = refl
is_decimal-all (byte ∷ bytes) h = ground (arith, is_decimal-all bytes)

-- The digits of a number are parameter bytes.
pub all-decimal : (n : ℕ) → all is_param_byte (decimal n) ≡ true
all-decimal n = is_decimal-all (decimal n) (is_decimal-decimal n)

pub param_loop-append :
    (s : ParamScan) (xs ys : Bytes) → param_loop s (xs ++ ys) ≡ param_loop (param_loop s xs) ys
unfolding param_loop
param_loop-append s [] ys = refl
param_loop-append s (x ∷ xs) ys = param_loop-append (param_byte s x) xs ys

param_loop-digits :
    (fuel n : ℕ) (s : ParamScan)
    → n < fuel
    → n < 2 ^ 32
    → s.value ≡ none
    → param_loop s (digits fuel n) ≡ record s { value = some n }
unfolding param_loop param_byte
param_loop-digits zero n s h m e = absurd (omega arith)
param_loop-digits (suc fuel) n s h m e = elim (Bool-cases (ltb n 10)) [
  | inl short ↦ rw (digits_short fuel n short) (ground arith)
  | inr long ↦
      let ih = param_loop-digits fuel (n / 10) s (ground arith) (omega arith) e in
      rw (digits_long fuel n long) (
        param_loop-append s (digits fuel (n / 10)) ((b'0' + n % 10) ∷ [])
        ∙ ap (λ scan. param_loop scan ((b'0' + n % 10) ∷ [])) ih
        ∙ ground arith)
]

-- The parameter parser reads a number that fits a `u32` as its value.
pub param_loop-decimal :
    (n : ℕ) (s : ParamScan)
    → n < 2 ^ 32
    → s.value ≡ none
    → param_loop s (decimal n) ≡ record s { value = some n }
unfolding decimal
param_loop-decimal n s m e = param_loop-digits (suc n) n s (omega arith) m e

-- The numbers of at most this many digits are below it.
abbrev power_of_ten : ℕ → ℕ
power_of_ten zero = 1
power_of_ten (suc k) = 10 * power_of_ten k

length-digits : (fuel n k : ℕ) → n < power_of_ten (suc k) → length (digits fuel n) ≤ suc k
unfolding digits
length-digits zero n k h = omega arith
length-digits (suc fuel) n zero h = rw (digits_short fuel n (ground arith)) (omega arith)
length-digits (suc fuel) n (suc k) h = elim (Bool-cases (ltb n 10)) [
  | inl short ↦ rw (digits_short fuel n short) (omega arith)
  | inr long ↦ rw (digits_long fuel n long) (
      omega (
        arith,
        length-append (digits fuel (n / 10)) ((b'0' + n % 10) ∷ []),
        length-digits fuel (n / 10) k (omega arith),
      ))
]

-- A `u32` has at most ten digits.
pub length-decimal : (n : ℕ) → n < 2 ^ 32 → length (decimal n) ≤ 10
unfolding decimal
length-decimal n h = length-digits (suc n) n 9 (omega arith)
