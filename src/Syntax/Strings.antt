-- ===== src/Syntax/Strings.antt =====
-- String sequences in progress: OSC, DCS, APC, PM and SOS payloads (`StringAccum`,
-- `consume_string`, `push_payload_byte` and `emit_string_token` in src/syntax.rs).
-- A position in the chunk is the list of the bytes from that position on.
pub mod Split
pub mod Accounts
pub mod Loop
pub mod Next
use qwertty.Prelude.{
  ℕ, ◌+◌, ◌-◌, Bool, true, false, ◌&&◌, ◌||◌, Option, none, some, [], ◌∷◌, ◌++◌, Bytes, length,
  drop, ltb, ◌==◌, if◌then◌else◌,
}
use qwertty.Syntax.Classes.{esc_byte, bel_byte, can_byte, sub_byte, c1_st}
use qwertty.Syntax.Token.{
  StringKind, StringTerminator, bel, esc_backslash, c1, unterminated, terminator_bytes,
  ControlParams, StringSequence, SyntaxToken, malformed,
}

pub record StringAccum : Type 0 where
  pub kind : StringKind
  pub retained : Bytes
  pub introducer_len : ℕ
  pub payload_start : ℕ
  pub dropped : ℕ
  pub esc_held : Bool
  pub control_params : Option ControlParams

-- Each way to close pushes exactly one token, which stands beside the position to go on at.
pub data StringOutcome : Type 0 where
  exhausted : StringAccum → StringOutcome
  done : SyntaxToken → Bytes → StringOutcome
  done_with_held_esc : SyntaxToken → Bytes → StringOutcome

unfoldable pub held_esc_buffer : Bytes → Bytes
held_esc_buffer rest = esc_byte ∷ rest

unfoldable pub push_payload_byte : StringAccum → ℕ → ℕ → StringAccum
push_payload_byte a byte limit =
    if ltb (length a.retained - a.introducer_len) limit
    then record a { retained = a.retained ++ byte ∷ [] }
    else record a { dropped = a.dropped + 1 }

-- `string_token` on a sequence of the kind
abbrev pub string_token : StringKind → StringSequence → SyntaxToken
string_token StringKind.osc s = SyntaxToken.osc s
string_token StringKind.dcs s = SyntaxToken.dcs s
string_token StringKind.apc s = SyntaxToken.apc s
string_token StringKind.pm s = SyntaxToken.pm s
string_token StringKind.sos s = SyntaxToken.sos s

-- `emit_string_token`: the token that it pushes.
unfoldable pub emit_string_token : StringAccum → StringTerminator → SyntaxToken
emit_string_token a terminator = string_token a.kind (record {
  kind = a.kind;
  bytes = a.retained ++ terminator_bytes terminator;
  payload = drop a.payload_start a.retained;
  dropped_bytes = a.dropped;
  terminator = terminator;
  control_params = a.control_params;
})

-- `matches!(accum.kind, StringKind::Osc)`
abbrev is_osc : StringKind → Bool
is_osc StringKind.osc = true
is_osc _ = false

-- What one round of the loop does: return, or go on with the accumulator, `esc_held` and
-- `esc_pos`.
pub data StringRound : Type 0 where
  returns : StringOutcome → StringRound
  goes_on : StringAccum → Bool → Option Bytes → StringRound

-- Where parsing resumes when a held ESC did not start a terminator.
abbrev pub reparse_esc : SyntaxToken → Option Bytes → Bytes → StringOutcome
reparse_esc token (some position) here = done token position
reparse_esc token none here = done_with_held_esc token here

-- The round's `if esc_held` block; `here` starts at `byte`, `rest` behind it.
unfoldable pub held_round : StringAccum → Option Bytes → ℕ → Bytes → StringOutcome
held_round a esc_pos byte rest =
    if byte == b'\\'
    then done (emit_string_token a esc_backslash) rest
    else if byte == can_byte || byte == sub_byte
    then (if a.dropped == 0
        then done (malformed (a.retained ++ esc_byte ∷ byte ∷ [])) rest
        else reparse_esc (emit_string_token a unterminated) esc_pos (byte ∷ rest))
    else if a.dropped == 0
    then reparse_esc (malformed a.retained) esc_pos (byte ∷ rest)
    else reparse_esc (emit_string_token a unterminated) esc_pos (byte ∷ rest)

-- The round's `match byte`.
unfoldable pub open_round : ℕ → StringAccum → Option Bytes → ℕ → Bytes → StringRound
open_round limit a esc_pos byte rest =
    if byte == bel_byte && is_osc a.kind
    then returns (done (emit_string_token a bel) rest)
    else if byte == c1_st
    then returns (done (emit_string_token a c1) rest)
    else if byte == esc_byte
    then goes_on a true (some (byte ∷ rest))
    else if byte == can_byte || byte == sub_byte
    then returns (
        if a.dropped == 0
        then done (malformed (a.retained ++ byte ∷ [])) rest
        else done (emit_string_token a unterminated) (byte ∷ rest))
    else goes_on (push_payload_byte a byte limit) false esc_pos

unfoldable pub string_round : ℕ → StringAccum → Bool → Option Bytes → ℕ → Bytes → StringRound
string_round limit a esc_held esc_pos byte rest =
    if esc_held
    then returns (held_round a esc_pos byte rest)
    else open_round limit a esc_pos byte rest

unfoldable pub string_loop : ℕ → StringAccum → Bool → Option Bytes → Bytes → StringOutcome
string_loop limit a esc_held esc_pos [] = exhausted (record a { esc_held = esc_held })
string_loop limit a esc_held esc_pos (byte ∷ rest) =
    elim (string_round limit a esc_held esc_pos byte rest) [
      | returns outcome ↦ outcome
      | goes_on a' esc_held' esc_pos' ↦ string_loop limit a' esc_held' esc_pos' rest
    ]

unfoldable pub consume_string : ℕ → StringAccum → Bytes → StringOutcome
consume_string limit a bytes =
    string_loop limit (record a { esc_held = false }) a.esc_held none bytes
