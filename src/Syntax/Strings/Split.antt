-- ===== src/Syntax/Strings/Split.antt =====
-- Consuming a string sequence in two chunks comes to the same as consuming the chunks joined, once
-- a held ESC is put back in front of the bytes that it is parsed with.
use qwertty.Prelude.{
  ℕ, ◌≡◌, refl, ap, ◌∙◌, Bool, true, false, Option, none, some, [], ◌∷◌, ◌++◌, arith, Bytes,
}
use qwertty.Syntax.Classes.{esc_byte}
use qwertty.Syntax.Strings.{
  StringAccum, StringOutcome, exhausted, done, done_with_held_esc, held_round, open_round,
  string_round, string_loop, consume_string, push_payload_byte,
}

-- The outcome with a held ESC put back.
abbrev pub normal : StringOutcome → StringOutcome
normal (exhausted a) = exhausted a
normal (done token next) = done token next
normal (done_with_held_esc token next) = done token (esc_byte ∷ next)

-- A held ESC stands right before the bytes that follow.
abbrev pub HeldAt : Bool → Option Bytes → Bytes → Type 0
HeldAt true (some position) bytes = position ≡ esc_byte ∷ bytes
HeldAt _ _ bytes = Unit {0}

module _ (limit : ℕ) (more : Bytes) where
  -- How the outcome of one chunk goes on with the next chunk.
  abbrev pub continue : StringOutcome → StringOutcome
  continue (exhausted a) = normal (consume_string limit a more)
  continue (done token next) = done token (next ++ more)
  continue (done_with_held_esc token next) = done token (esc_byte ∷ (next ++ more))

  held_round-append :
      (a : StringAccum) (p q : Option Bytes) (byte : ℕ) (rest : Bytes)
      → HeldAt true p (byte ∷ rest)
      → HeldAt true q (byte ∷ (rest ++ more))
      → normal (held_round a q byte (rest ++ more)) ≡ continue (held_round a p byte rest)
  unfolding held_round
  held_round-append a none none byte rest h k = ground arith
  held_round-append a (some x) none byte rest h k = ground arith
  held_round-append a none (some y) byte rest h k = ground arith
  held_round-append a (some x) (some y) byte rest h k = ground arith

  clear_held : (a : StringAccum) → a.esc_held ≡ false → record a { esc_held = false } ≡ a
  clear_held a h = ground arith

  push_payload_byte-held :
      (a : StringAccum) (byte : ℕ) → (push_payload_byte a byte limit).esc_held ≡ a.esc_held
  unfolding push_payload_byte
  push_payload_byte-held a byte = ground arith

  -- It does not matter whether the held ESC came with this chunk or with an earlier one.
  string_loop_pos :
      (a : StringAccum) (held : Bool) (p q : Option Bytes) (bytes : Bytes)
      → HeldAt held p bytes
      → HeldAt held q bytes
      → normal (string_loop limit a held p bytes) ≡ normal (string_loop limit a held q bytes)
  unfolding string_loop string_round open_round
  string_loop_pos a held p q [] h k = refl
  string_loop_pos a true none none (byte ∷ rest) h k = refl
  string_loop_pos a true none (some y) (byte ∷ rest) h k = unfold held_round in ground arith
  string_loop_pos a true (some x) none (byte ∷ rest) h k = unfold held_round in ground arith
  string_loop_pos a true (some x) (some y) (byte ∷ rest) h k = unfold held_round in ground arith
  string_loop_pos a false p q (byte ∷ rest) h k =
      let ih = string_loop_pos (push_payload_byte a byte limit) false p q rest tt tt in
      ground (arith, ih)

  string_loop-append :
      (a : StringAccum) (held : Bool) (p q : Option Bytes) (bytes : Bytes)
      → a.esc_held ≡ false
      → HeldAt held p bytes
      → HeldAt held q (bytes ++ more)
      → normal (string_loop limit a held q (bytes ++ more))
        ≡ continue (string_loop limit a held p bytes)
  unfolding string_loop string_round open_round
  string_loop-append a held p q [] e h k =
      string_loop_pos a held q none more k (none_held held)
      ∙ unfold consume_string in rw (clear_held a e)
    where
      none_held : (b : Bool) → HeldAt b none more
      none_held true = tt
      none_held false = tt
  string_loop-append a true p q (byte ∷ rest) e h k = held_round-append a p q byte rest h k
  string_loop-append a false p q (byte ∷ rest) e h k =
      let on = push_payload_byte a byte limit in
      let ih = string_loop-append on false p q rest (push_payload_byte-held a byte ∙ e) tt tt in
      let held = λ (z : byte ≡ esc_byte).
        string_loop-append a true (some (byte ∷ rest)) (some (byte ∷ (rest ++ more))) rest e
          (ap (λ c. c ∷ rest) z) (ap (λ c. c ∷ (rest ++ more)) z) in
      ground (arith, ih, held)

  -- `a` is the accumulator between chunks, its `esc_held` set or not.
  pub consume_string-append :
      (a : StringAccum) (bytes : Bytes)
      → normal (consume_string limit a (bytes ++ more)) ≡ continue (consume_string limit a bytes)
  unfolding consume_string
  consume_string-append a bytes =
      string_loop-append (record a { esc_held = false }) a.esc_held none none bytes refl
        (none_held a.esc_held bytes) (none_held a.esc_held (bytes ++ more))
    where
      none_held : (b : Bool) (xs : Bytes) → HeldAt b none xs
      none_held true xs = tt
      none_held false xs = tt
