-- ===== src/Syntax/Paste/Accounts.antt =====
-- What a paste in progress stands for, that every byte of it ends in a segment, and the bound on
-- what is retained between chunks.
use qwertty.Prelude.{
  ℕ, ◌+◌, ◌≤◌, ◌<◌, ◌≡◌, refl, sym, ◌∙◌, ◌⊎◌, inl, inr, Bool, true, false, [], ◌∷◌, ◌++◌,
  append_assoc, arith, Bytes, length, length-append, Bool-cases, leb, starts_with, bytes_eq,
}
use qwertty.Syntax.Paste.{
  PasteAccum, PasteRound, closes, goes_on, shift_candidate, is_paste_end, is_paste_end_prefix,
  cut_segment, segment_token, segment_payload_len, paste_end_7bit, paste_end_8bit, push_payload,
}
use qwertty.Syntax.Spans.{Spans, Spans-whole, Covers, Covers-one}

-- The input that an accumulator stands for: the segment so far, and a candidate for the end bracket
-- that is held.
abbrev pub Stands : PasteAccum → Bytes → Type 0
Stands a input = input ≡ a.retained ++ a.pending_match

-- Between bytes a segment's payload is under the limit, or empty, behind a start bracket of at most
-- six bytes; a held candidate is at most five bytes.
pub record Fits (limit : ℕ) (a : PasteAccum) : Type 0 where
  pub short_bracket : a.payload_start ≤ 6
  pub starts : a.payload_start ≤ length a.retained
  pub bounded :
      (length a.retained < a.payload_start + limit) ⊎ (length a.retained ≡ a.payload_start)
  pub short_match : length a.pending_match ≤ 5

starts_with_short :
    (whole part : Bytes)
    → starts_with whole part ≡ true
    → (bytes_eq part whole ≡ true) ⊎ (length part < length whole)
starts_with_short [] [] h = inl refl
starts_with_short (x ∷ xs) [] h = inr (omega arith)
starts_with_short [] (y ∷ ys) h = cc
starts_with_short (x ∷ xs) (y ∷ ys) h = ground (arith, starts_with_short xs ys)

-- A proper prefix of an end bracket is at most five bytes.
pub short_candidate :
    (bytes : Bytes)
    → is_paste_end_prefix bytes ≡ true
    → is_paste_end bytes ≡ false
    → length bytes ≤ 5
unfolding is_paste_end is_paste_end_prefix
short_candidate bytes h k = elim (Bool-cases (starts_with paste_end_7bit bytes)) [
  | inl a ↦ elim (starts_with_short paste_end_7bit bytes a) [
    | inl e ↦ cc (rw e at k)
    | inr l ↦ omega arith
  ]
  | inr a ↦ elim (starts_with_short paste_end_8bit bytes (rw a at h)) [
    | inl e ↦ ground (arith, e)
    | inr l ↦ omega arith
  ]
]

-- What `advance_after_break` keeps.
pub record Shifted (a : PasteAccum) (candidate : Bytes) (a' : PasteAccum) : Type 0 where
  pub same_bytes : a.retained ++ candidate ≡ a'.retained ++ a'.pending_match
  pub same_start : a'.payload_start ≡ a.payload_start
  pub shorter : (length a'.pending_match < length candidate) ⊎ (length a'.pending_match ≡ 0)
  pub grows : length a.retained ≤ length a'.retained

pub shift_candidate-Shifted :
    (a : PasteAccum) (candidate : Bytes) → Shifted a candidate (shift_candidate a candidate)
unfolding shift_candidate
shift_candidate-Shifted a [] = record {
  same_bytes = refl;
  same_start = refl;
  shorter = inr (omega arith);
  grows = omega arith;
}
shift_candidate-Shifted a (byte ∷ suffix) =
    go (is_paste_end_prefix suffix) (shift_candidate-Shifted (push_payload a byte) suffix)
  where
    go :
        (b : Bool)
        → Shifted (push_payload a byte) suffix (shift_candidate (push_payload a byte) suffix)
        → Shifted a (byte ∷ suffix) (elim b [
          | true ↦ record (push_payload a byte) { pending_match = suffix }
          | false ↦ shift_candidate (push_payload a byte) suffix
        ])
    go true ih = record {
      same_bytes = sym (append_assoc a.retained (byte ∷ []) suffix);
      same_start = refl;
      shorter = inl (omega arith);
      grows = omega (arith, length-append a.retained (byte ∷ []));
    }
    go false ih = record {
      same_bytes = sym (append_assoc a.retained (byte ∷ []) suffix) ∙ ih.same_bytes;
      same_start = ih.same_start;
      shorter = omega (arith, ih.shorter);
      grows = omega (arith, ih.grows, length-append a.retained (byte ∷ []));
    }

module _ (limit : ℕ) where
  -- What a round makes of the input so far.
  abbrev pub RoundAccounted : Bytes → PasteRound → Type 0
  RoundAccounted input (closes token) = Spans token input
  RoundAccounted input (goes_on ts a) =
      (s r : Bytes) × (input ≡ s ++ r) × Covers ts s × Stands a r × Fits limit a

  pub cut_segment-Accounted :
      (a : PasteAccum) (input : Bytes)
      → Stands a input
      → a.payload_start ≤ 6
      → a.payload_start ≤ length a.retained
      → length a.pending_match ≤ 5
      → RoundAccounted input (cut_segment limit a)
  unfolding cut_segment
  cut_segment-Accounted a input st h k l = elim (Bool-cases (leb limit (segment_payload_len a))) [
    | inl cut ↦ rw cut (
      a.retained,
      a.pending_match,
      st,
      Covers-one (segment_token a) a.retained (Spans-whole (segment_token a) refl),
      refl,
      record {
        short_bracket = omega arith;
        starts = omega arith;
        bounded = inr refl;
        short_match = l;
      },
    )
    | inr room ↦ rw room (
      [],
      input,
      refl,
      refl,
      st,
      record { short_bracket = h; starts = k; bounded = inl (ground arith); short_match = l },
    )
  ]
