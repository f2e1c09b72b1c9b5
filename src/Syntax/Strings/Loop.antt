-- ===== src/Syntax/Strings/Loop.antt =====
-- `consume_string` accounts for every byte: what it has read is in the token that it emits, among
-- the bytes that the token counts as dropped, or in the accumulator that it leaves.
use qwertty.Prelude.{
  ℕ, ◌≡◌, refl, sym, ap, inl, inr, Bool, true, false, Option, none, some, [], ◌∷◌, ◌++◌, append-nil,
  append_assoc, arith, Bytes, Bool-cases, ◌==◌, ==_iff, ◌||◌,
}
use qwertty.Syntax.Classes.{esc_byte, can_byte, sub_byte, bel_byte, c1_st}
use qwertty.Syntax.Spans.{Spans, Spans-whole}
use qwertty.Syntax.Strings.Accounts.{
  Stands, Fits, emit_string_token-Spans, Stands-exact, push_payload_byte-Stands,
  push_payload_byte-Fits,
}
use qwertty.Syntax.Strings.Split.{HeldAt}
use qwertty.Syntax.Strings.{
  StringAccum, StringOutcome, exhausted, done, done_with_held_esc, StringRound, returns, goes_on,
  held_round, open_round, string_round, string_loop, consume_string, emit_string_token, reparse_esc,
}
use qwertty.Syntax.Token.{
  StringTerminator, terminator_bytes, unterminated, esc_backslash, bel, c1, SyntaxToken, malformed,
}

module _ (limit : ℕ) where
  -- What an outcome makes of the input of the sequence so far.
  abbrev pub Accounted : Bytes → StringOutcome → Type 0
  Accounted input (exhausted a) = Stands limit a a.esc_held input × Fits limit a
  Accounted input (done token next) = (s : Bytes) × (input ≡ s ++ next) × Spans token s
  Accounted input (done_with_held_esc token next) =
      (s : Bytes) × (input ≡ s ++ (esc_byte ∷ next)) × Spans token s

  reparse_esc-Accounted :
      (token : SyntaxToken) (p : Option Bytes) (s bytes : Bytes)
      → HeldAt true p bytes
      → Spans token s
      → Accounted (s ++ (esc_byte ∷ bytes)) (reparse_esc token p bytes)
  reparse_esc-Accounted token none s bytes h t = (s, refl, t)
  reparse_esc-Accounted token (some position) s bytes h t = (s, rw h, t)

  -- The ESC taken off again.
  pub before_held :
      (a : StringAccum) (input : Bytes)
      → Stands limit a true input
      → (s : Bytes) × (input ≡ s ++ esc_byte ∷ []) × Stands limit a false s
  before_held a input s = (
    a.retained ++ s.lost,
    rw s.input_eq (sym (append_assoc a.retained s.lost (esc_byte ∷ []))),
    record { lost = s.lost; input_eq = rw append-nil; lost_length = s.lost_length; full = s.full },
  )

  held_round-Accounted :
      (a : StringAccum) (p : Option Bytes) (byte : ℕ) (rest s : Bytes)
      → Stands limit a false s
      → HeldAt true p (byte ∷ rest)
      → Accounted (s ++ (esc_byte ∷ byte ∷ rest)) (held_round a p byte rest)
  unfolding held_round
  held_round-Accounted a p byte rest s st h = elim (Bool-cases (byte == b'\\')) [
    | inl ends ↦ rw ends (
      s ++ esc_byte ∷ b'\\' ∷ [],
      rw ((==_iff byte b'\\').0 ends, append_assoc),
      emit_string_token-Spans limit a esc_backslash s st,
    )
    | inr on ↦ elim (Bool-cases (a.dropped == 0)) [
      | inl whole ↦ elim (Bool-cases (byte == can_byte || byte == sub_byte)) [
        | inl aborts ↦
            rw (on, whole, aborts)
              (
                a.retained ++ esc_byte ∷ byte ∷ [],
                rw (exact whole) (simp (append_assoc, append-nil)),
                Spans-whole (malformed (a.retained ++ esc_byte ∷ byte ∷ [])) refl,
              )
        | inr breaks ↦
            rw (on, whole, breaks)
              (reparse_esc-Accounted (malformed a.retained) p s (byte ∷ rest) h
                (rw (exact whole, append-nil) (Spans-whole (malformed a.retained) refl)))
      ]
      | inr lossy ↦ elim (Bool-cases (byte == can_byte || byte == sub_byte)) [
        | inl aborts ↦ rw (on, lossy, aborts) truncated
        | inr breaks ↦ rw (on, lossy, breaks) truncated
      ]
    ]
  ]
    where
      exact : (a.dropped == 0) ≡ true → s ≡ a.retained ++ []
      exact whole = Stands-exact limit a false s st ((==_iff a.dropped 0).0 whole)

      truncated :
          Accounted
            (s ++ esc_byte ∷ byte ∷ rest)
            (reparse_esc (emit_string_token a unterminated) p (byte ∷ rest))
      truncated =
          reparse_esc-Accounted (emit_string_token a unterminated) p s (byte ∷ rest) h
            (rw append-nil at (emit_string_token-Spans limit a unterminated s st))

  -- What a round of the loop makes of the input so far.
  abbrev RoundAccounted : Bytes → ℕ → Bytes → StringRound → Type 0
  RoundAccounted input byte rest (returns o) = Accounted (input ++ byte ∷ rest) o
  RoundAccounted input byte rest (goes_on a held p) =
      Stands limit a held (input ++ byte ∷ []) × Fits limit a × HeldAt held p rest

  module _ (a : StringAccum) (input : Bytes) (st : Stands limit a false input) where
    closes :
        (t : StringTerminator) (byte : ℕ) (rest : Bytes)
        → byte ∷ [] ≡ terminator_bytes t
        → Accounted (input ++ byte ∷ rest) (done (emit_string_token a t) rest)
    closes t byte rest e = (
      input ++ byte ∷ [],
      sym (append_assoc input (byte ∷ []) rest),
      rw e (emit_string_token-Spans limit a t input st),
    )

    holds_esc : (byte : ℕ) → byte ≡ esc_byte → Stands limit a true (input ++ byte ∷ [])
    holds_esc byte e = record {
      lost = st.lost;
      input_eq = rw (e, st.input_eq) (simp (append_assoc, append-nil));
      lost_length = st.lost_length;
      full = st.full;
    }

    aborts_whole :
        (byte : ℕ) (rest : Bytes)
        → a.dropped ≡ 0
        → Accounted (input ++ byte ∷ rest) (done (malformed (a.retained ++ byte ∷ [])) rest)
    aborts_whole byte rest z = (
      a.retained ++ byte ∷ [],
      rw (Stands-exact limit a false input st z) (simp (append_assoc, append-nil)),
      Spans-whole (malformed (a.retained ++ byte ∷ [])) refl,
    )

    aborts_lossy :
        (byte : ℕ) (rest : Bytes)
        → Accounted (input ++ byte ∷ rest) (done (emit_string_token a unterminated) (byte ∷ rest))
    aborts_lossy byte rest =
        (input, refl, rw append-nil at (emit_string_token-Spans limit a unterminated input st))

    open_round-Accounted :
        (p : Option Bytes) (byte : ℕ) (rest : Bytes)
        → Fits limit a
        → RoundAccounted input byte rest (open_round limit a p byte rest)
    unfolding open_round
    open_round-Accounted p byte rest f = ground (
      arith,
      λ (z : byte ≡ bel_byte). closes bel byte rest (ap (λ b. b ∷ []) z),
      λ (z : byte ≡ c1_st). closes c1 byte rest (ap (λ b. b ∷ []) z),
      holds_esc byte,
      aborts_whole byte rest,
      aborts_lossy byte rest,
      push_payload_byte-Stands limit a byte input st,
      push_payload_byte-Fits limit a byte f,
    )

  string_loop-Accounted :
      (a : StringAccum) (held : Bool) (p : Option Bytes) (bytes input : Bytes)
      → Stands limit a held input
      → Fits limit a
      → HeldAt held p bytes
      → Accounted (input ++ bytes) (string_loop limit a held p bytes)
  unfolding string_loop string_round
  string_loop-Accounted a held p [] input st f h = (
    record {
      lost = st.lost;
      input_eq = rw append-nil st.input_eq;
      lost_length = st.lost_length;
      full = st.full;
    },
    record {
      short_introducer = f.short_introducer;
      introduced = f.introduced;
      bounded = f.bounded;
    },
  )
  string_loop-Accounted a true p (byte ∷ rest) input st f h =
      let (s, e, st') = before_held a input st in
      rw (e, append_assoc) (held_round-Accounted a p byte rest s st' h)
  string_loop-Accounted a false p (byte ∷ rest) input st f h =
      go (open_round limit a p byte rest) (open_round-Accounted a input st p byte rest f)
        (λ a' held' p' r.
          rw append_assoc at
            (string_loop-Accounted a' held' p' rest (input ++ byte ∷ []) r.0 r.1 r.2))
    where
      go :
          (r : StringRound)
          → RoundAccounted input byte rest r
          → ((a' : StringAccum) (held' : Bool) (p' : Option Bytes)
              → RoundAccounted input byte rest (goes_on a' held' p')
              → Accounted (input ++ byte ∷ rest) (string_loop limit a' held' p' rest))
          → Accounted (input ++ byte ∷ rest) (elim r [
            | returns outcome ↦ outcome
            | goes_on a' held' p' ↦ string_loop limit a' held' p' rest
          ])
      go (returns o) k next = k
      go (goes_on a' held' p') k next = next a' held' p' k

  pub consume_string-Accounted :
      (a : StringAccum) (bytes input : Bytes)
      → Stands limit a a.esc_held input
      → Fits limit a
      → Accounted (input ++ bytes) (consume_string limit a bytes)
  unfolding consume_string
  consume_string-Accounted a bytes input st f =
      string_loop-Accounted (record a { esc_held = false }) a.esc_held none bytes input
        (record {
          lost = st.lost;
          input_eq = st.input_eq;
          lost_length = st.lost_length;
          full = st.full;
        })
        (record {
          short_introducer = f.short_introducer;
          introduced = f.introduced;
          bounded = f.bounded;
        })
        (none_held a.esc_held)
    where
      none_held : (b : Bool) → HeldAt b none bytes
      none_held true = tt
      none_held false = tt
