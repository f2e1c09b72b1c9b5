-- ===== src/Input.antt =====
-- The semantic decoder (`SemanticDecoder` of src/event.rs): tokens become events, on top of the
-- tokenizer. What it keeps beside the parser is the carry of a paste and of a surrogate pair.
pub mod Keys
pub mod Kitty
pub mod Mouse
pub mod Reports
pub mod Pasted
pub mod Win32
pub mod Characters
pub mod Session
pub mod Replies
pub mod Settled
pub mod Typed
use qwertty.Correlate.Matcher.{Event, syntax, input}
use qwertty.Input.Characters.{chars}
use qwertty.Input.Keys.{Key, KeyEvent, plain_key, with_text}
use qwertty.Input.Kitty.{decode_key}
use qwertty.Input.Mouse.{MouseEvent, decode_sgr}
use qwertty.Input.Pasted.{PasteEvent, decode_paste}
use qwertty.Input.Reports.{FocusState, ResizeEvent, decode_focus, decode_resize}
use qwertty.Input.Win32.{decode_win32, orphan}
use qwertty.Prelude.{
  ℕ, Bool, true, false, ◌&&◌, ◌||◌, not, Option, none, some, List, [], ◌∷◌, ◌++◌, map, Bytes,
  is_empty, bytes_eq, leb, ◌==◌, if◌then◌else◌, ◌>>=◌,
}
use qwertty.Syntax.Classes.{esc_byte, delete_byte, is_utf8}
use qwertty.Syntax.Parser
use qwertty.Syntax.Parser.{SyntaxParser, pending_bytes, with_payload_limit, default_payload_limit}
use qwertty.Syntax.Token.{SyntaxToken, ControlSequence, EscapeSequence, PasteSequence}

-- The typed events of `Event`.
pub data InputEvent : Type 0 where
  key : KeyEvent → InputEvent
  mouse : MouseEvent → InputEvent
  focus : FocusState → InputEvent
  resize : ResizeEvent → InputEvent
  paste : PasteEvent → InputEvent

abbrev pub Events : Type 0
Events = List (Event InputEvent)

-- `paste_pending_cr` and `win32.pending_high_surrogate`
pub record Carry : Type 0 where
  pub paste_pending_cr : Bool
  pub pending_high_surrogate : Option ℕ

pub record SemanticDecoder : Type 0 where
  pub parser : SyntaxParser
  pub carry : Carry

abbrev pub no_carry : Carry
no_carry = record { paste_pending_cr = false; pending_high_surrogate = none }

-- `SemanticDecoder::with_payload_limit`
abbrev pub decoder_with_limit : ℕ → SemanticDecoder
decoder_with_limit limit = record { parser = with_payload_limit limit; carry = no_carry }

-- `SemanticDecoder::new`
abbrev pub new_decoder : SemanticDecoder
new_decoder = decoder_with_limit default_payload_limit

abbrev pub key_event : KeyEvent → Event InputEvent
key_event event = input (key event)

unfoldable pub text_events : Bytes → Events
text_events bytes =
    map (λ character. key_event (with_text character (plain_key (Key.char character))))
      (chars bytes)

unfoldable pub control_key_event : ℕ → KeyEvent
control_key_event byte = plain_key (
    if byte == 0x0d
    then Key.enter
    else if byte == 0x09
    then Key.tab
    else if byte == 0x7f || byte == 0x08
    then Key.backspace
    else Key.control byte)

unfoldable pub arrow_key : ControlSequence → Option Key
arrow_key csi =
    if not (is_empty csi.params.private_markers) || not (is_empty csi.params.intermediates)
    then none
    else if not (is_empty csi.params.param_bytes || bytes_eq csi.params.param_bytes (b'1' ∷ []))
    then none
    else if csi.params.final_byte == b'A'
    then some Key.up
    else if csi.params.final_byte == b'B'
    then some Key.down
    else if csi.params.final_byte == b'C'
    then some Key.right
    else if csi.params.final_byte == b'D'
    then some Key.left
    else none

abbrev pub is_none {ℓ} : {A : Type ℓ} → Option A → Bool
is_none none = true
is_none (some a) = false

unfoldable pub escape_event : EscapeSequence → Event InputEvent
escape_event escape =
    if is_none escape.final_byte
    then key_event (plain_key Key.escape)
    else syntax (SyntaxToken.esc escape)

-- The decoders behind the win32 one, in their order.
unfoldable pub typed_csi : ControlSequence → Event InputEvent
typed_csi csi = elim (decode_key csi) [
  | some event ↦ key_event event
  | none ↦ elim (decode_sgr csi) [
    | some event ↦ input (mouse event)
    | none ↦ elim (decode_focus csi) [
      | some event ↦ input (focus event)
      | none ↦ elim (decode_resize csi) [
        | some event ↦ input (resize event)
        | none ↦ elim (arrow_key csi) [
          | some arrow ↦ key_event (plain_key arrow)
          | none ↦ syntax (SyntaxToken.csi csi)
        ]
      ]
    ]
  ]
]

-- What the win32 decoder's answer means.
abbrev pub csi_events : Carry → ControlSequence → Option (Option ℕ × List KeyEvent) → Carry × Events
csi_events carry csi none = (carry, typed_csi csi ∷ [])
csi_events carry csi (some (pending, keys)) =
    (record carry { pending_high_surrogate = pending }, map key_event keys)

unfoldable pub map_csi : Carry → ControlSequence → Carry × Events
map_csi carry csi = csi_events carry csi (decode_win32 carry.pending_high_surrogate csi)

abbrev pub paste_events : Carry → PasteEvent × Bool → Carry × Events
paste_events carry (event, pending_cr) =
    (record carry { paste_pending_cr = pending_cr }, input (paste event) ∷ [])

unfoldable pub map_token : Carry → SyntaxToken → Carry × Events
map_token carry (SyntaxToken.text bytes) = (carry, text_events bytes)
map_token carry (SyntaxToken.control byte) = (carry, key_event (control_key_event byte) ∷ [])
map_token carry (SyntaxToken.csi csi) = map_csi carry csi
map_token carry (SyntaxToken.paste segment) =
    paste_events carry (decode_paste segment carry.paste_pending_cr)
map_token carry (SyntaxToken.esc escape) = (carry, escape_event escape ∷ [])
map_token carry token = (carry, syntax token ∷ [])

unfoldable pub map_tokens : Carry → List SyntaxToken → Carry × Events
map_tokens carry [] = (carry, [])
map_tokens carry (token ∷ tokens) =
    let (carry', events) = map_token carry token in
    let (carry'', rest) = map_tokens carry' tokens in (carry'', events ++ rest)

-- The decoder after a call of the parser, and the events of its tokens.
abbrev pub decoded : Carry → SyntaxParser × List SyntaxToken → SemanticDecoder × Events
decoded carry (parser, tokens) =
    let (carry', events) = map_tokens carry tokens in
    (record { parser = parser; carry = carry' }, events)

-- `SemanticDecoder::feed`; `none` is the end of the parser's fuel.
unfoldable pub feed : SemanticDecoder → Bytes → Option (SemanticDecoder × Events)
feed d bytes = Parser.feed d.parser bytes >>= λ fed. some (decoded d.carry fed)

-- `win32.flush` at the end of `finish`
abbrev pub flush_carry : SemanticDecoder × Events → SemanticDecoder × Events
flush_carry (d, events) = (
  record d { carry = record d.carry { pending_high_surrogate = none } },
  events ++ map key_event (orphan d.carry.pending_high_surrogate),
)

-- `SemanticDecoder::finish`
unfoldable pub finish : SemanticDecoder → SemanticDecoder × Events
finish d = flush_carry (decoded d.carry (Parser.finish d.parser))

abbrev pub decoder_pending : SemanticDecoder → Bytes
decoder_pending d = pending_bytes d.parser

-- The test of `has_settled_text` on the pending bytes.
unfoldable pub is_settled : Bytes → Bool
is_settled [] = false
is_settled (first ∷ rest) = leb 0x20 first && not (first == delete_byte) && is_utf8 (first ∷ rest)

unfoldable pub has_settled_text : SemanticDecoder → Bool
has_settled_text d = is_settled (decoder_pending d)

unfoldable pub has_pending_lone_escape : SemanticDecoder → Bool
has_pending_lone_escape d = bytes_eq (decoder_pending d) (esc_byte ∷ [])

abbrev pub first_event : Events → Option (Event InputEvent)
first_event [] = none
first_event (event ∷ events) = some event

-- `SemanticDecoder::flush_pending_escape`
unfoldable pub flush_pending_escape : SemanticDecoder → SemanticDecoder × Option (Event InputEvent)
flush_pending_escape d =
    if has_pending_lone_escape d
    then (let (d', events) = finish d in (d', first_event events))
    else (d, none)
