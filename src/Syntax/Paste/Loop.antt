-- ===== src/Syntax/Paste/Loop.antt =====
-- `consume_paste` accounts for every byte: what it has read is in the segments that it emits or in
-- the accumulator that it leaves.
use qwertty.Prelude.{
  ℕ, ◌≡◌, refl, sym, ◌∙◌, inl, inr, true, false, List, [], ◌∷◌, ◌++◌, append-nil, append_assoc,
  arith, Bytes, length-append, Bool-cases,
}
use qwertty.Syntax.Paste.Accounts.{
  Stands, Fits, Shifted, shift_candidate-Shifted, short_candidate, RoundAccounted,
  cut_segment-Accounted,
}
use qwertty.Syntax.Paste.{
  PasteAccum, PasteOutcome, exhausted, done, PasteRound, closes, goes_on, advance_after_break,
  shift_candidate, is_paste_end, is_paste_end_prefix, into_final_token, paste_round, consume_paste,
  push_before, push_all, flush_pending_match, push_payload,
}
use qwertty.Syntax.Spans.{Spans, Spans-whole, Covers, Covers-append, Covers-one}
use qwertty.Syntax.Token.{SyntaxToken}

module _ (limit : ℕ) where
  paste_round-Accounted :
      (a : PasteAccum) (byte : ℕ) (input : Bytes)
      → Stands a input
      → Fits limit a
      → RoundAccounted limit (input ++ byte ∷ []) (paste_round limit a byte)
  unfolding paste_round advance_after_break into_final_token
  paste_round-Accounted a byte input st f = elim (Bool-cases (is_paste_end candidate)) [
    | inl ends ↦ rw ends (
        rw (st, append_assoc)
          (Spans-whole (into_final_token (record a { pending_match = candidate }) true) refl))
    | inr unended ↦ elim (Bool-cases (is_paste_end_prefix candidate)) [
      | inl live ↦
          rw (unended, live)
            (cut_segment-Accounted limit (record a { pending_match = candidate })
              (input ++ byte ∷ []) held f.short_bracket f.starts
              (short_candidate candidate live unended))
      | inr broken ↦
          rw (unended, broken)
            (cut_segment-Accounted limit
              (shift_candidate (record a { pending_match = [] }) candidate) (input ++ byte ∷ [])
              (held ∙ shifted.same_bytes) (omega (arith, shifted.same_start, f.short_bracket))
              (omega (arith, shifted.same_start, shifted.grows, f.starts))
              (omega
                (arith, shifted.shorter, f.short_match, length-append a.pending_match (byte ∷ []))))
    ]
  ]
    where
      candidate : Bytes
      candidate = a.pending_match ++ byte ∷ []

      held : input ++ byte ∷ [] ≡ a.retained ++ candidate
      held = rw (st, append_assoc)

      shifted :
          Shifted
            (record a { pending_match = [] })
            candidate
            (shift_candidate (record a { pending_match = [] }) candidate)
      shifted = shift_candidate-Shifted (record a { pending_match = [] }) candidate

  -- What consuming a chunk makes of the input so far.
  abbrev pub Accounted : Bytes → List SyntaxToken × PasteOutcome → Type 0
  Accounted input (ts, exhausted a) =
      (s r : Bytes) × (input ≡ s ++ r) × Covers ts s × Stands a r × Fits limit a
  Accounted input (ts, done next) = (s : Bytes) × (input ≡ s ++ next) × Covers ts s

  push_before-Accounted :
      (ts : List SyntaxToken) (s input : Bytes) (r : List SyntaxToken × PasteOutcome)
      → Covers ts s
      → Accounted input r
      → Accounted (s ++ input) (push_before ts r)
  push_before-Accounted ts s input (us, exhausted a) h (s', r, e, c, k, f) =
      (s ++ s', r, rw e (sym (append_assoc s s' r)), Covers-append ts us s s' h c, k, f)
  push_before-Accounted ts s input (us, done next) h (s', e, c) =
      (s ++ s', rw e (sym (append_assoc s s' next)), Covers-append ts us s s' h c)

  pub consume_paste-Accounted :
      (a : PasteAccum) (bytes input : Bytes)
      → Stands a input
      → Fits limit a
      → Accounted (input ++ bytes) (consume_paste limit a bytes)
  unfolding consume_paste
  consume_paste-Accounted a [] input st f = ([], input, append-nil input, refl, st, f)
  consume_paste-Accounted a (byte ∷ rest) input st f =
      go (paste_round limit a byte) (paste_round-Accounted a byte input st f)
        (λ a' r st' f'. consume_paste-Accounted a' rest r st' f')
    where
      go :
          (r : PasteRound)
          → RoundAccounted limit (input ++ byte ∷ []) r
          → ((a' : PasteAccum) (r : Bytes)
              → Stands a' r
              → Fits limit a'
              → Accounted (r ++ rest) (consume_paste limit a' rest))
          → Accounted (input ++ byte ∷ rest) (elim r [
            | closes token ↦ (token ∷ [], done rest)
            | goes_on tokens a' ↦ push_before tokens (consume_paste limit a' rest)
          ])
      go (closes token) k next = (
        input ++ byte ∷ [],
        sym (append_assoc input (byte ∷ []) rest),
        Covers-one token (input ++ byte ∷ []) k,
      )
      go (goes_on tokens a') (s, r, e, c, st', f') next =
          rw (← append_assoc input (byte ∷ []) rest, e, append_assoc)
            (push_before-Accounted tokens s (r ++ rest) _ c (next a' r st' f'))

push_all-retained :
    (a : PasteAccum) (held : Bytes) → (push_all a held).retained ≡ a.retained ++ held
push_all-retained a [] = sym (append-nil a.retained)
push_all-retained a (byte ∷ held) =
    push_all-retained (push_payload a byte) held ∙ append_assoc a.retained (byte ∷ []) held

-- At the end of the input the last segment takes the held candidate as payload.
pub flush_pending_match-Spans :
    (a : PasteAccum) (input : Bytes)
    → Stands a input
    → Spans (into_final_token (flush_pending_match a) false) input
unfolding flush_pending_match into_final_token
flush_pending_match-Spans a input st =
    rw (st ∙ sym (push_all-retained (record a { pending_match = [] }) a.pending_match))
      (Spans-whole (into_final_token (flush_pending_match a) false) refl)
