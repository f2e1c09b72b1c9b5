-- ===== src/Syntax/Parser.antt =====
-- `SyntaxParser` (src/syntax.rs): `feed`, `finish` and `pending_bytes`.
pub mod Accounts
pub mod Session
pub mod Fuel
pub mod Split
pub mod Chunks
use qwertty.Prelude.{
  ℕ, zero, suc, ◌*◌, false, ◌&&◌, Option, none, some, List, [], ◌∷◌, ◌++◌, Bytes, length, all, ◌==◌,
  if◌then◌else◌,
}
use qwertty.Syntax.Classes.{esc_byte, is_text_start, is_intermediate_byte, is_utf8}
use qwertty.Syntax.Paste.{
  PasteAccum, PasteOutcome, consume_paste, flush_pending_match, into_final_token,
}
use qwertty.Syntax.Step.{Step, emit, need_more, enter_string, enter_paste, step}
use qwertty.Syntax.Strings.{
  StringAccum, StringOutcome, consume_string, held_esc_buffer, push_payload_byte, emit_string_token,
}
use qwertty.Syntax.Token.{unterminated, SyntaxToken, text, esc, malformed}

pub data State : Type 0 where
  ground : State
  partial : Bytes → State
  in_string : StringAccum → State
  in_paste : PasteAccum → State

pub record SyntaxParser : Type 0 where
  pub state : State
  pub payload_limit : ℕ

-- `DEFAULT_PAYLOAD_LIMIT`
abbrev pub default_payload_limit : ℕ
default_payload_limit = 64 * 1024

-- `SyntaxParser::with_payload_limit`
abbrev pub with_payload_limit : ℕ → SyntaxParser
with_payload_limit limit = record { state = ground; payload_limit = limit }

-- `SyntaxParser::new`
abbrev pub new : SyntaxParser
new = with_payload_limit default_payload_limit

abbrev pub pending_of : State → Bytes
pending_of ground = []
pending_of (partial pending) = pending
pending_of (in_string a) = a.retained
pending_of (in_paste a) = a.retained

-- `SyntaxParser::pending_bytes`
abbrev pub pending_bytes : SyntaxParser → Bytes
pending_bytes p = pending_of p.state

-- What a call leaves: the parser's state, and the tokens that it returns. `none` is the fuel's end.
abbrev pub Fed : Type 0
Fed = Option (State × List SyntaxToken)

-- Tokens pushed before the rest of the call.
abbrev pub push_tokens : List SyntaxToken → Fed → Fed
push_tokens ts none = none
push_tokens ts (some (s, us)) = some (s, ts ++ us)

-- How `feed` goes on with the outcome of `consume_string`; `loop` is its loop on a new buffer.
abbrev pub after_string : (Bytes → Fed) → StringOutcome → Fed
after_string loop (StringOutcome.exhausted a) = some (in_string a, [])
after_string loop (StringOutcome.done token next) = push_tokens (token ∷ []) (loop next)
after_string loop (StringOutcome.done_with_held_esc token next) =
    push_tokens (token ∷ []) (loop (held_esc_buffer next))

-- How `feed` goes on with the outcome of `consume_paste`.
abbrev pub after_paste : (Bytes → Fed) → List SyntaxToken × PasteOutcome → Fed
after_paste loop (tokens, PasteOutcome.exhausted a) = some (in_paste a, tokens)
after_paste loop (tokens, PasteOutcome.done next) = push_tokens tokens (loop next)

-- How the loop of `feed` goes on with a step at `buffer`; `loop` is the loop on what is left.
abbrev pub after_step : ℕ → (Bytes → Fed) → Bytes → Step → Fed
after_step limit loop buffer (emit token next) = push_tokens (token ∷ []) (loop next)
after_step limit loop buffer need_more = some (partial buffer, [])
after_step limit loop buffer (enter_string a next) = after_string loop (consume_string limit a next)
after_step limit loop buffer (enter_paste a next) = after_paste loop (consume_paste limit a next)

-- The loop of `feed` on fuel; the list is the buffer from `index` on.
unfoldable pub feed_loop : ℕ → ℕ → Bytes → Fed
feed_loop fuel limit [] = some (ground, [])
feed_loop zero limit (byte ∷ rest) = none
feed_loop (suc fuel) limit (byte ∷ rest) =
    after_step limit (feed_loop fuel limit) (byte ∷ rest) (step byte rest limit)

-- The loop with a round for each byte of the buffer.
unfoldable pub run_buffer : ℕ → Bytes → Fed
run_buffer limit buffer = feed_loop (length buffer) limit buffer

unfoldable pub feed_state : ℕ → State → Bytes → Fed
feed_state limit ground bytes = run_buffer limit bytes
feed_state limit (partial pending) bytes = run_buffer limit (pending ++ bytes)
feed_state limit (in_string a) bytes =
    after_string (run_buffer limit) (consume_string limit a bytes)
feed_state limit (in_paste a) bytes = after_paste (run_buffer limit) (consume_paste limit a bytes)

-- The state stored back in the parser.
abbrev pub store_state : SyntaxParser → Fed → Option (SyntaxParser × List SyntaxToken)
store_state p none = none
store_state p (some (s, tokens)) = some (record p { state = s }, tokens)

-- `SyntaxParser::feed`
unfoldable pub feed : SyntaxParser → Bytes → Option (SyntaxParser × List SyntaxToken)
feed p bytes = store_state p (feed_state p.payload_limit p.state bytes)

-- `finish_pending`. It reads `pending[0]`: an empty list, on which the source would panic, is never
-- pending.
unfoldable pub finish_pending : Bytes → SyntaxToken
finish_pending [] = malformed []
finish_pending (first ∷ rest) =
    if is_text_start first
    then (if is_utf8 (first ∷ rest) then text (first ∷ rest) else malformed (first ∷ rest))
    else if first == esc_byte && all is_intermediate_byte rest
    then esc (record { bytes = first ∷ rest; intermediates = rest; final_byte = none })
    else malformed (first ∷ rest)

unfoldable pub finish_state : ℕ → State → List SyntaxToken
finish_state limit ground = []
finish_state limit (partial pending) = finish_pending pending ∷ []
finish_state limit (in_string a) =
    emit_string_token (if a.esc_held then push_payload_byte a esc_byte limit else a) unterminated
    ∷ []
finish_state limit (in_paste a) = into_final_token (flush_pending_match a) false ∷ []

-- `SyntaxParser::finish`
unfoldable pub finish : SyntaxParser → SyntaxParser × List SyntaxToken
finish p = (record p { state = ground }, finish_state p.payload_limit p.state)
