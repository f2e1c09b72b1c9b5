-- ===== src/Syntax/Strings/Next.antt =====
-- Parsing resumes within the bytes of the chunk, or at an ESC that was held in front of them.
use qwertty.Prelude.{
  ℕ, suc, ◌+◌, ◌≤◌, ◌≡◌, Bool, true, false, Option, none, some, [], ◌∷◌, arith, Bytes, length, ap,
}
use qwertty.Syntax.Classes.{esc_byte}
use qwertty.Syntax.Strings.Split.{HeldAt}
use qwertty.Syntax.Strings.{
  StringAccum, StringOutcome, exhausted, done, done_with_held_esc, held_round, open_round,
  string_round, string_loop, consume_string, push_payload_byte,
}

-- The number of bytes that parsing resumes with.
abbrev pub next_length : StringOutcome → ℕ
next_length (exhausted a) = 0
next_length (done token next) = length next
next_length (done_with_held_esc token next) = suc (length next)

abbrev pub held_length : Bool → ℕ
held_length true = 1
held_length false = 0

held_round-next_length :
    (a : StringAccum) (p : Option Bytes) (byte : ℕ) (rest : Bytes)
    → HeldAt true p (byte ∷ rest)
    → next_length (held_round a p byte rest) ≤ suc (suc (length rest))
unfolding held_round
held_round-next_length a none byte rest h = ground arith
held_round-next_length a (some position) byte rest h = ground (arith, ap length h)

string_loop-next_length :
    (limit : ℕ) (a : StringAccum) (held : Bool) (p : Option Bytes) (bytes : Bytes)
    → HeldAt held p bytes
    → next_length (string_loop limit a held p bytes) ≤ length bytes + held_length held
unfolding string_loop string_round open_round
string_loop-next_length limit a held p [] h = omega arith
string_loop-next_length limit a true p (byte ∷ rest) h =
    omega (arith, held_round-next_length a p byte rest h)
string_loop-next_length limit a false p (byte ∷ rest) h =
    let held = λ (z : byte ≡ esc_byte).
      string_loop-next_length limit a true (some (byte ∷ rest)) rest (ap (λ c. c ∷ rest) z) in
    let on = string_loop-next_length limit (push_payload_byte a byte limit) false p rest tt in
    ground (arith, held, on)

pub consume_string-next_length :
    (limit : ℕ) (a : StringAccum) (bytes : Bytes)
    → a.esc_held ≡ false
    → next_length (consume_string limit a bytes) ≤ length bytes
unfolding consume_string
consume_string-next_length limit a bytes h = rw h (
    omega
      (arith, string_loop-next_length limit (record a { esc_held = false }) false none bytes tt))
