-- ===== src/Syntax/Strings/Accounts.antt =====
-- What a string sequence in progress stands for, that every byte of it ends in a token or among
-- the dropped bytes that the token counts, and the bound on what is retained.
use qwertty.Prelude.{
  ℕ, ◌+◌, ◌-◌, ◌≤◌, ◌≡◌, refl, sym, ◌∙◌, ◌⊎◌, inl, inr, Bool, true, false, [], ◌∷◌, ◌++◌,
  append-nil, append_assoc, arith, Bytes, length, length-append, Bool-cases, ltb,
}
use qwertty.Syntax.Classes.{esc_byte}
use qwertty.Syntax.Spans.{Spans}
use qwertty.Syntax.Strings.{StringAccum, push_payload_byte, emit_string_token, string_token}
use qwertty.Syntax.Token.{
  StringKind, StringSequence, StringTerminator, terminator_bytes, as_bytes, dropped_of,
}

abbrev pub held_bytes : Bool → Bytes
held_bytes true = esc_byte ∷ []
held_bytes false = []

-- The input that an accumulator stands for: the retained bytes, those dropped behind them, and an
-- ESC that is held.
pub record Stands (limit : ℕ) (a : StringAccum) (held : Bool) (input : Bytes) : Type 0 where
  pub lost : Bytes
  pub input_eq : input ≡ a.retained ++ (lost ++ held_bytes held)
  pub lost_length : length lost ≡ a.dropped
  pub full : (a.dropped ≡ 0) ⊎ (limit ≤ length a.retained - a.introducer_len)

-- The retained bytes stay within the introducer, the limit and a DCS prefix's final byte.
pub record Fits (limit : ℕ) (a : StringAccum) : Type 0 where
  pub short_introducer : a.introducer_len ≤ 2
  pub introduced : a.introducer_len ≤ length a.retained
  pub bounded : length a.retained ≤ a.introducer_len + limit + 1

as_bytes-string_token :
    (k : StringKind) (s : StringSequence) → as_bytes (string_token k s) ≡ s.bytes
as_bytes-string_token StringKind.osc s = refl
as_bytes-string_token _ s = refl

dropped_of-string_token :
    (k : StringKind) (s : StringSequence) → dropped_of (string_token k s) ≡ s.dropped_bytes
dropped_of-string_token StringKind.osc s = refl
dropped_of-string_token _ s = refl

module _ (limit : ℕ) where
  pub emit_string_token-Spans :
      (a : StringAccum) (t : StringTerminator) (input : Bytes)
      → Stands limit a false input
      → Spans (emit_string_token a t) (input ++ terminator_bytes t)
  unfolding emit_string_token
  emit_string_token-Spans a t input s = record {
    kept = a.retained;
    lost = s.lost;
    close = terminator_bytes t;
    input_eq = rw s.input_eq (simp (append_assoc, append-nil));
    bytes_eq = as_bytes-string_token a.kind _;
    lost_length = s.lost_length ∙ sym (dropped_of-string_token a.kind _);
  }

  -- With nothing dropped the input is what is retained.
  pub Stands-exact :
      (a : StringAccum) (held : Bool) (input : Bytes)
      → Stands limit a held input
      → a.dropped ≡ 0
      → input ≡ a.retained ++ held_bytes held
  Stands-exact a held input s z = s.input_eq ∙ rw (nil_of_length s.lost (s.lost_length ∙ z))
    where
      nil_of_length : (xs : Bytes) → length xs ≡ 0 → xs ≡ []
      nil_of_length [] h = refl
      nil_of_length (x ∷ xs) h = absurd (omega arith)

  pub push_payload_byte-Stands :
      (a : StringAccum) (byte : ℕ) (input : Bytes)
      → Stands limit a false input
      → Stands limit (push_payload_byte a byte limit) false (input ++ byte ∷ [])
  unfolding push_payload_byte
  push_payload_byte-Stands a byte input s =
      elim (Bool-cases (ltb (length a.retained - a.introducer_len) limit)) [
        | inl room ↦ rw room (record {
          lost = [];
          input_eq =
              rw (Stands-exact a false input s (ground arith)) (simp (append_assoc, append-nil));
          lost_length = ground arith;
          full = inl (ground arith);
        })
        | inr no_room ↦ rw no_room (record {
          lost = s.lost ++ byte ∷ [];
          input_eq = rw s.input_eq (simp (append_assoc, append-nil));
          lost_length = omega (arith, s.lost_length, length-append s.lost (byte ∷ []));
          full = inr (ground arith);
        })
      ]

  pub push_payload_byte-Fits :
      (a : StringAccum) (byte : ℕ) → Fits limit a → Fits limit (push_payload_byte a byte limit)
  unfolding push_payload_byte
  push_payload_byte-Fits a byte f = ground (arith, length-append a.retained (byte ∷ []))
