-- ===== src/Input/Win32.antt =====
-- win32-input-mode key records (src/event/win32.rs).
pub mod Surrogates
use qwertty.Prelude.{
  ℕ, zero, suc, ◌+◌, ◌-◌, ◌*◌, ◌^◌, min, Bool, true, false, ◌&&◌, ◌||◌, not, Option, none, some,
  List, [], ◌∷◌, ◌++◌, is_empty, ltb, leb, ◌==◌, if◌then◌else◌, ◌>>=◌, bit_and,
}
use qwertty.Input.Keys.{
  Key, Modifiers, shift, alt, ctrl, caps_lock, num_lock, no_modifiers, insert_if, KeyEventKind,
  press, release, KeyEvent, plain_key, with_text, with_modifiers, char_from_u32,
  replacement_character,
}
use qwertty.Syntax.Classes.{within}
use qwertty.Syntax.Token.{Param, ParamSeparator, semicolon, colon, ControlParams, ControlSequence}

-- `REPEAT_CAP`
abbrev pub repeat_cap : ℕ
repeat_cap = 32

pub record Fields : Type 0 where
  pub vk : ℕ
  pub uc : ℕ
  pub kd : ℕ
  pub cs : ℕ
  pub rc : ℕ

abbrev is_high : ℕ → Bool
is_high = within 0xd800 0xdbff

abbrev is_low : ℕ → Bool
is_low = within 0xdc00 0xdfff

-- The values of the parameters, `none` when one is behind a colon.
unfoldable pub positions : List Param → Option (List (Option ℕ))
positions [] = some []
positions (param ∷ params) = do
  rest ← positions params
  value ← elim param.separator [ some colon ↦ none | _ ↦ some param.value ]
  some (value ∷ rest)

-- `values[index]`, whose default stands where the field is missing or empty
unfoldable pub value_or : ℕ → List (Option ℕ) → ℕ → ℕ
value_or default [] index = default
value_or default (none ∷ values) zero = default
value_or default (some value ∷ values) zero = value
value_or default (value ∷ values) (suc index) = value_or default values index

unfoldable pub positional_fields : List Param → Option Fields
positional_fields params = do
  values ← positions params
  some (record {
    vk = value_or 0 values 0;
    uc = value_or 0 values 2;
    kd = value_or 0 values 3;
    cs = value_or 0 values 4;
    rc = value_or 1 values 5;
  })

-- `rc.clamp(1, REPEAT_CAP)`
unfoldable pub repeat_count : ℕ → ℕ
repeat_count rc = if ltb rc 1 then 1 else if ltb repeat_cap rc then repeat_cap else rc

-- `cs & bit != 0`
abbrev has_state : ℕ → ℕ → Bool
has_state cs bit = not (bit_and cs bit == 0)

unfoldable pub decode_state : ℕ → Modifiers
decode_state cs = insert_if (has_state cs 0x80) caps_lock (
    insert_if (has_state cs 0x20) num_lock (
      insert_if (has_state cs 0x10) shift
        (insert_if (has_state cs 0x0c) ctrl (insert_if (has_state cs 0x03) alt no_modifiers))))

unfoldable pub is_text_char : ℕ → Bool
is_text_char code = leb 0x20 code && not (code == 0x7f) && not (within 0x80 0x9f code)

unfoldable pub text_key_event : ℕ → Modifiers → KeyEventKind → KeyEvent
text_key_event character modifiers press =
    with_text character (with_modifiers modifiers press (plain_key (Key.char character)))
text_key_event character modifiers kind =
    with_modifiers modifiers kind (plain_key (Key.char character))

abbrev pub replacement_event : KeyEvent
replacement_event = with_text replacement_character (plain_key (Key.char replacement_character))

unfoldable pub named_key : ℕ → Option Key
named_key vk =
    if vk == 0x08
    then some Key.backspace
    else if vk == 0x09
    then some Key.tab
    else if vk == 0x0d
    then some Key.enter
    else if vk == 0x1b
    then some Key.escape
    else if vk == 0x21
    then some Key.page_up
    else if vk == 0x22
    then some Key.page_down
    else if vk == 0x23
    then some Key.end
    else if vk == 0x24
    then some Key.home
    else if vk == 0x25
    then some Key.left
    else if vk == 0x26
    then some Key.up
    else if vk == 0x27
    then some Key.right
    else if vk == 0x28
    then some Key.down
    else if vk == 0x2d
    then some Key.insert
    else if vk == 0x2e
    then some Key.delete
    else if within 0x30 0x39 vk
    then some (Key.char vk)
    else if within 0x41 0x5a vk
    then some (Key.char (vk + 0x20))
    else if within 0x70 0x87 vk
    then some (Key.function (vk - 0x70 + 1))
    else none

-- The character of a record, where it is text.
unfoldable pub text_of : ℕ → Option ℕ
text_of uc =
    char_from_u32 uc >>= λ character. if is_text_char character then some character else none

unfoldable pub key_event : ℕ → ℕ → Modifiers → KeyEventKind → Option KeyEvent
key_event vk uc modifiers kind = elim (text_of uc) [
  | some character ↦ some (text_key_event character modifiers kind)
  | none ↦ named_key vk >>= λ key. some (with_modifiers modifiers kind (plain_key key))
]

unfoldable pub combine_surrogates : ℕ → ℕ → ℕ
combine_surrogates high low =
    let code = 0x10000 + (high - 0xd800) * 2 ^ 10 + (low - 0xdc00) in
    elim (char_from_u32 code) [ none ↦ replacement_character | some character ↦ character ]

-- `push_repeated`: the events that it pushes.
unfoldable pub repeated : KeyEvent → ℕ → List KeyEvent
repeated event zero = event ∷ []
repeated event (suc zero) = event ∷ []
repeated event (suc (suc count)) = event ∷ repeated event (suc count)

-- `pending_high_surrogate.take()`, and the event of an orphan
abbrev pub orphan : Option ℕ → List KeyEvent
orphan none = []
orphan (some high) = replacement_event ∷ []

-- The character of a low half.
abbrev pub paired : Option ℕ → ℕ → ℕ
paired none low = replacement_character
paired (some high) low = combine_surrogates high low

abbrev pub pushed : Option KeyEvent → ℕ → List KeyEvent
pushed none count = []
pushed (some event) count = repeated event count

-- `decode_fields`: the pending half afterwards, and the events that it pushes.
unfoldable pub decode_fields : Option ℕ → Fields → Option ℕ × List KeyEvent
decode_fields pending f =
    let count = repeat_count f.rc in
    let kind = if f.kd == 0 then release else press in
    let modifiers = decode_state f.cs in
    if is_high f.uc
    then (some f.uc, orphan pending)
    else if is_low f.uc
    then (none, repeated (text_key_event (paired pending f.uc) modifiers kind) count)
    else (none, orphan pending ++ pushed (key_event f.vk f.uc modifiers kind) count)

-- `Win32Decoder::decode_key`; `none` where the source returns `false`.
unfoldable pub decode_win32 : Option ℕ → ControlSequence → Option (Option ℕ × List KeyEvent)
decode_win32 pending csi =
    if not (csi.params.final_byte == b'_')
      || not (is_empty csi.params.private_markers)
      || not (is_empty csi.params.intermediates)
    then none
    else (positional_fields csi.params.params >>= λ fields. some (decode_fields pending fields))
