-- ===== src/Input/Kitty.antt =====
-- Kitty keyboard events and the legacy functional keys (src/event/kitty.rs).
use qwertty.Prelude.{
  ℕ, ◌+◌, ◌-◌, Bool, ◌&&◌, ◌||◌, not, Option, none, some, List, [], ◌∷◌, ◌++◌, is_empty, get_elem?,
  ltb, ◌==◌, if◌then◌else◌, ◌>>=◌, bit_and,
}
use qwertty.Input.Keys.{
  Key, Modifiers, KeyEventKind, press, repeat, release, KeyEvent, plain_key, with_modifiers,
  from_kitty_bits, union, shift, char_from_u32,
}
use qwertty.Syntax.Classes.{within}
use qwertty.Syntax.Token.{Param, ParamSeparator, semicolon, colon, ControlParams, ControlSequence}

-- `groups.last_mut()` and `push` on it, or a group of its own
unfoldable pub push_last : List (List (Option ℕ)) → Option ℕ → List (List (Option ℕ))
push_last [] value = (value ∷ []) ∷ []
push_last (group ∷ []) value = (group ++ value ∷ []) ∷ []
push_last (group ∷ next ∷ groups) value = group ∷ push_last (next ∷ groups) value

-- The body of the loop in `param_groups`.
unfoldable pub add_param :
    List (List (Option ℕ)) → Option ParamSeparator → Option ℕ → List (List (Option ℕ))
add_param groups none value = groups ++ (value ∷ []) ∷ []
add_param groups (some semicolon) value = groups ++ (value ∷ []) ∷ []
add_param groups (some colon) value = push_last groups value

unfoldable pub group_loop : List (List (Option ℕ)) → List Param → List (List (Option ℕ))
group_loop groups [] = groups
group_loop groups (param ∷ params) =
    group_loop (add_param groups param.separator param.value) params

unfoldable pub param_groups : List Param → List (List (Option ℕ))
param_groups params = group_loop [] params

-- `group.get(index).copied().flatten()`
abbrev pub field : List (Option ℕ) → ℕ → Option ℕ
field group index = get_elem? group index >>= λ value. value

-- `groups.next().unwrap_or_default()`
abbrev pub group_at : List (List (Option ℕ)) → ℕ → List (Option ℕ)
group_at groups index = elim (get_elem? groups index) [ none ↦ [] | some group ↦ group ]

abbrev pub unwrap_or : Option ℕ → ℕ → ℕ
unwrap_or none default = default
unwrap_or (some value) default = value

-- The low byte of the field less one; `saturating_sub` is `-` on ℕ.
unfoldable pub decode_modifiers : Option ℕ → Modifiers
decode_modifiers value = from_kitty_bits (bit_and (unwrap_or value 0 - 1) 0xff)

unfoldable pub decode_event_type : Option ℕ → KeyEventKind
decode_event_type none = press
decode_event_type (some value) =
    if value == 2 then repeat else if value == 3 then release else press

unfoldable pub is_control_codepoint : ℕ → Bool
is_control_codepoint code = ltb code 0x20 || code == 0x7f || within 0x80 0x9f code

-- The loop of `decode_text`: the characters that it keeps.
unfoldable pub text_chars : List (Option ℕ) → List ℕ
text_chars [] = []
text_chars (none ∷ codes) = text_chars codes
text_chars (some code ∷ codes) =
    let rest = text_chars codes in
    elim (char_from_u32 code) [
      | none ↦ rest
      | some character ↦ if is_control_codepoint code then rest else character ∷ rest
    ]

unfoldable pub decode_text : List (Option ℕ) → Option (List ℕ)
decode_text codes = if is_empty (text_chars codes) then none else some (text_chars codes)

unfoldable pub functional_key : ℕ → Key
functional_key code =
    if code == 9
    then Key.tab
    else if code == 13
    then Key.enter
    else if code == 27
    then Key.escape
    else if code == 127
    then Key.backspace
    else if code == 57348
    then Key.insert
    else if code == 57349
    then Key.delete
    else if code == 57350
    then Key.left
    else if code == 57351
    then Key.right
    else if code == 57352
    then Key.up
    else if code == 57353
    then Key.down
    else if code == 57354
    then Key.page_up
    else if code == 57355
    then Key.page_down
    else if code == 57356
    then Key.home
    else if code == 57357
    then Key.end
    else if within 57364 57398 code
    then Key.function (code - 57364 + 1)
    else Key.char code

-- `decode_csi_u` behind the first group
unfoldable pub csi_u_event : List (List (Option ℕ)) → List (Option ℕ) → ℕ → KeyEvent
csi_u_event groups key_group unicode_key = record {
  key = functional_key unicode_key;
  modifiers = decode_modifiers (field (group_at groups 1) 0);
  kind = decode_event_type (field (group_at groups 1) 1);
  text = decode_text (group_at groups 2);
  shifted_key = field key_group 1 >>= char_from_u32;
  base_layout_key = field key_group 2 >>= char_from_u32;
}

unfoldable pub decode_csi_u : ControlParams → Option KeyEvent
decode_csi_u p = do
  let groups = param_groups p.params
  key_group ← get_elem? groups 0
  unicode_key ← field key_group 0 >>= char_from_u32
  some (csi_u_event groups key_group unicode_key)

unfoldable pub legacy_tilde_key : ℕ → Option Key
legacy_tilde_key number =
    if number == 1 || number == 7
    then some Key.home
    else if number == 2
    then some Key.insert
    else if number == 3
    then some Key.delete
    else if number == 4 || number == 8
    then some Key.end
    else if number == 5
    then some Key.page_up
    else if number == 6
    then some Key.page_down
    else if within 11 15 number
    then some (Key.function (number - 10))
    else if within 17 21 number
    then some (Key.function (number - 11))
    else if within 23 24 number
    then some (Key.function (number - 12))
    else none

unfoldable pub legacy_letter_key : ℕ → Option Key
legacy_letter_key final_byte =
    if final_byte == b'A'
    then some Key.up
    else if final_byte == b'B'
    then some Key.down
    else if final_byte == b'C'
    then some Key.right
    else if final_byte == b'D'
    then some Key.left
    else if final_byte == b'H'
    then some Key.home
    else if final_byte == b'F'
    then some Key.end
    else if final_byte == b'P'
    then some (Key.function 1)
    else if final_byte == b'Q'
    then some (Key.function 2)
    else if final_byte == b'S'
    then some (Key.function 4)
    else none

-- `KeyEvent::new(key).with_modifiers(modifiers).with_kind(kind)`, where there is a key
abbrev pub key_with : Modifiers → KeyEventKind → Option Key → Option KeyEvent
key_with modifiers kind none = none
key_with modifiers kind (some key) = some (with_modifiers modifiers kind (plain_key key))

unfoldable pub is_arrow_final : ℕ → Bool
is_arrow_final final_byte = within b'A' b'D' final_byte

-- `decode_legacy_functional` on the final byte, the selector and the modifier group
unfoldable pub legacy_event : ℕ → ℕ → List (Option ℕ) → Option KeyEvent
legacy_event final_byte selector modifier_group =
    let modifiers = decode_modifiers (field modifier_group 0) in
    let kind = decode_event_type (field modifier_group 1) in
    if final_byte == b'~'
    then key_with modifiers kind (legacy_tilde_key selector)
    else if not (selector == 1)
    then none
    else if final_byte == b'Z'
    then key_with (union modifiers shift) kind (some Key.tab)
    else if is_arrow_final final_byte && is_empty modifier_group
    then none
    else key_with modifiers kind (legacy_letter_key final_byte)

unfoldable pub decode_legacy_functional : ControlParams → Option KeyEvent
decode_legacy_functional p =
    let groups = param_groups p.params in
    legacy_event p.final_byte (unwrap_or (field (group_at groups 0) 0) 1) (group_at groups 1)

-- The final bytes of the legacy functional keys.
unfoldable pub is_functional_final : ℕ → Bool
is_functional_final byte =
    within b'A' b'D' byte
    || byte == b'H'
    || byte == b'F'
    || byte == b'P'
    || byte == b'Q'
    || byte == b'S'
    || byte == b'Z'
    || byte == b'~'

-- `kitty::decode_key`
unfoldable pub decode_key : ControlSequence → Option KeyEvent
decode_key csi =
    if not (is_empty csi.params.private_markers) || not (is_empty csi.params.intermediates)
    then none
    else if csi.params.final_byte == b'u'
    then decode_csi_u csi.params
    else if is_functional_final csi.params.final_byte
    then decode_legacy_functional csi.params
    else none
