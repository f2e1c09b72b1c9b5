-- ===== src/Syntax/Paste.antt =====
-- Bracketed pastes in progress (`PasteAccum` and `consume_paste` in src/syntax.rs). A position in
-- the chunk is the list of the bytes from that position on.
pub mod Split
pub mod Accounts
pub mod Loop
pub mod Next
use qwertty.Prelude.{
  ℕ, ◌-◌, Bool, true, false, ◌||◌, List, [], ◌∷◌, ◌++◌, Bytes, length, drop, leb, bytes_eq,
  starts_with, if◌then◌else◌,
}
use qwertty.Syntax.Classes.{esc_byte}
use qwertty.Syntax.Token.{SyntaxToken}

-- `PASTE_END_7BIT`: `ESC [ 2 0 1 ~`
abbrev pub paste_end_7bit : Bytes
paste_end_7bit = esc_byte ∷ b'[' ∷ b'2' ∷ b'0' ∷ b'1' ∷ b'~' ∷ []

-- `PASTE_END_8BIT`: `0x9b 2 0 1 ~`
abbrev pub paste_end_8bit : Bytes
paste_end_8bit = 0x9b ∷ b'2' ∷ b'0' ∷ b'1' ∷ b'~' ∷ []

pub record PasteAccum : Type 0 where
  pub retained : Bytes
  pub payload_start : ℕ
  pub is_first : Bool
  pub pending_match : Bytes

-- `PasteAccum::new`
abbrev pub paste_new : Bytes → PasteAccum
paste_new start_bracket = record {
  retained = start_bracket;
  payload_start = length start_bracket;
  is_first = true;
  pending_match = [];
}

abbrev pub segment_payload_len : PasteAccum → ℕ
segment_payload_len a = length a.retained - a.payload_start

abbrev pub push_payload : PasteAccum → ℕ → PasteAccum
push_payload a byte = record a { retained = a.retained ++ byte ∷ [] }

unfoldable pub is_paste_end_prefix : Bytes → Bool
is_paste_end_prefix bytes = starts_with paste_end_7bit bytes || starts_with paste_end_8bit bytes

unfoldable pub is_paste_end : Bytes → Bool
is_paste_end bytes = bytes_eq bytes paste_end_7bit || bytes_eq bytes paste_end_8bit

-- The loop of `advance_after_break`; the list is the candidate from `start - 1` on, and the first
-- clause is the return at `start == candidate.len()`.
unfoldable pub shift_candidate : PasteAccum → Bytes → PasteAccum
shift_candidate a [] = record a { pending_match = [] }
shift_candidate a (byte ∷ suffix) = elim (is_paste_end_prefix suffix) [
  | true ↦ record (push_payload a byte) { pending_match = suffix }
  | false ↦ shift_candidate (push_payload a byte) suffix
]

unfoldable pub advance_after_break : PasteAccum → ℕ → PasteAccum
advance_after_break a byte =
    shift_candidate (record a { pending_match = [] }) (a.pending_match ++ byte ∷ [])

-- The loop of `flush_pending_match`.
abbrev pub push_all : PasteAccum → Bytes → PasteAccum
push_all a [] = a
push_all a (byte ∷ held) = push_all (push_payload a byte) held

unfoldable pub flush_pending_match : PasteAccum → PasteAccum
flush_pending_match a = push_all (record a { pending_match = [] }) a.pending_match

-- `emit_segment`: the token that it pushes, and the accumulator that it leaves.
abbrev pub segment_token : PasteAccum → SyntaxToken
segment_token a = SyntaxToken.paste (record {
  bytes = a.retained;
  payload = drop a.payload_start a.retained;
  is_first = a.is_first;
  is_final = false;
  terminated = false;
})

abbrev pub next_segment : PasteAccum → PasteAccum
next_segment a = record a { retained = []; is_first = false; payload_start = 0 }

unfoldable pub into_final_token : PasteAccum → Bool → SyntaxToken
into_final_token a terminated = SyntaxToken.paste (record {
  bytes = if terminated then a.retained ++ a.pending_match else a.retained;
  payload = drop a.payload_start a.retained;
  is_first = a.is_first;
  is_final = true;
  terminated = terminated;
})

pub data PasteOutcome : Type 0 where
  exhausted : PasteAccum → PasteOutcome
  done : Bytes → PasteOutcome

-- What one round of the loop does: push the final token and return, or push segments and go on.
pub data PasteRound : Type 0 where
  closes : SyntaxToken → PasteRound
  goes_on : List SyntaxToken → PasteAccum → PasteRound

-- `if accum.segment_payload_len() >= limit`
unfoldable pub cut_segment : ℕ → PasteAccum → PasteRound
cut_segment limit a =
    if leb limit (segment_payload_len a)
    then goes_on (segment_token a ∷ []) (next_segment a)
    else goes_on [] a

unfoldable pub paste_round : ℕ → PasteAccum → ℕ → PasteRound
paste_round limit a byte =
    let candidate = a.pending_match ++ byte ∷ [] in
    if is_paste_end candidate
    then closes (into_final_token (record a { pending_match = candidate }) true)
    else if is_paste_end_prefix candidate
    then cut_segment limit (record a { pending_match = candidate })
    else cut_segment limit (advance_after_break a byte)

abbrev pub push_before :
    List SyntaxToken → List SyntaxToken × PasteOutcome → List SyntaxToken × PasteOutcome
push_before ts (us, outcome) = (ts ++ us, outcome)

unfoldable pub consume_paste : ℕ → PasteAccum → Bytes → List SyntaxToken × PasteOutcome
consume_paste limit a [] = ([], exhausted a)
consume_paste limit a (byte ∷ rest) = elim (paste_round limit a byte) [
  | closes token ↦ (token ∷ [], done rest)
  | goes_on tokens a' ↦ push_before tokens (consume_paste limit a' rest)
]
