-- ===== src/Input/Settled.antt =====
-- What a drained read flushes (src/event.rs, has_settled_text, flush_pending_escape and finish).
use qwertty.Input.{
  SemanticDecoder, finish, has_settled_text, is_settled, flush_pending_escape,
  has_pending_lone_escape, text_events, key_event, escape_event, map_token, map_tokens,
}
use qwertty.Input.Keys.{Key, plain_key}
use qwertty.Input.Win32.{orphan}
use qwertty.Prelude.{ℕ, ◌≡◌, refl, true, none, some, [], ◌∷◌, ◌++◌, map, append-nil, Bytes, arith}
use qwertty.Syntax.Classes.{
  esc_byte, is_text_start, is_text_boundary, is_c1_introducer, is_utf8, utf8_ok, utf8_follow,
}
use qwertty.Syntax.Parser
use qwertty.Syntax.Parser.{partial, in_paste, finish_pending, finish_state}
use qwertty.Syntax.Token.{text}

-- The decoder after a call of `finish`.
abbrev pub finished_decoder : SemanticDecoder → SemanticDecoder
finished_decoder d = record {
  parser = record d.parser { state = Parser.ground };
  carry = record d.carry { pending_high_surrogate = none };
}

settled-is_text_start :
    (first : ℕ) (rest : Bytes) → is_settled (first ∷ rest) ≡ true → is_text_start first ≡ true
unfolding is_settled is_text_start is_text_boundary is_c1_introducer is_utf8 utf8_ok utf8_follow
settled-is_text_start first rest h = ground arith

settled-is_utf8 :
    (first : ℕ) (rest : Bytes) → is_settled (first ∷ rest) ≡ true → is_utf8 (first ∷ rest) ≡ true
unfolding is_settled
settled-is_utf8 first rest h = ground arith

finish_pending-settled :
    (bytes : Bytes) → is_settled bytes ≡ true → finish_pending bytes ≡ text bytes
unfolding finish_pending is_settled
finish_pending-settled [] h = absurd (ground arith)
finish_pending-settled (first ∷ rest) h =
    rw (settled-is_text_start first rest h, settled-is_utf8 first rest h) refl

-- Pending text that is settled: finish releases its characters, and the orphan of a pair.
pub finish-text :
    (d : SemanticDecoder) (bytes : Bytes)
    → d.parser.state ≡ partial bytes
    → has_settled_text d ≡ true
    → finish d ≡ (
      finished_decoder d,
      text_events bytes ++ map key_event (orphan d.carry.pending_high_surrogate),
    )
unfolding has_settled_text finish finish_state Parser.finish map_tokens map_token
finish-text d bytes e h =
    let settled : is_settled bytes ≡ true = rw e at h in
    rw (e, finish_pending-settled bytes settled) (simp append-nil)

-- A lone pending escape: it is flushed as one Escape key event.
pub flush_pending_escape-partial :
    (d : SemanticDecoder)
    → d.parser.state ≡ partial (esc_byte ∷ [])
    → flush_pending_escape d ≡ (finished_decoder d, some (key_event (plain_key Key.escape)))
unfolding flush_pending_escape has_pending_lone_escape finish finish_state Parser.finish map_tokens
    map_token finish_pending escape_event is_text_start is_text_boundary
flush_pending_escape-partial d e = rw e refl
