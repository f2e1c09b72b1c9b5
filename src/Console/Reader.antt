-- ===== src/Console/Reader.antt =====
-- `ConsoleInputReader` (src/terminal/console_input.rs): batches of console records become bytes, and
-- the bytes are handed out by the size of the caller's buffer.
use qwertty.Console.{
  ConsoleMouse, push_unit, flush_pending, translate_mouse, window_extent, is_degenerate,
  format_resize_report,
}
use qwertty.Prelude.{
  ℕ, zero, suc, ◌-◌, ◌^◌, min, Bool, not, ◌&&◌, Option, none, some, List, [], ◌∷◌, ◌++◌, Bytes,
  take, drop, length, leb, ◌==◌, if◌then◌else◌,
}
use qwertty.Prelude.Int.{ℤ, pos, negsuc}

-- The fields of a `KEY_EVENT_RECORD` that the reader needs.
pub record ConsoleKey : Type 0 where
  pub unit : ℕ
  pub key_down : Bool
  pub virtual_key : ℕ
  pub repeat_count : ℕ

pub record WindowRect : Type 0 where
  pub left : ℤ
  pub top : ℤ
  pub right : ℤ
  pub bottom : ℤ

-- An `INPUT_RECORD`. A size record is what `get_screen_buffer_info` then says of the output handle.
pub data InputRecord : Type 0 where
  key : ConsoleKey → InputRecord
  mouse : ConsoleMouse → InputRecord
  window_buffer_size : Option WindowRect → InputRecord
  other : InputRecord

-- `pending` is the byte buffer; `carry` is the pending half of `SurrogateCarry`.
pub record ConsoleInputReader : Type 0 where
  pub pending : Bytes
  pub carry : Option ℕ
  pub previous_mouse_buttons : ℕ

abbrev pub new_reader : ConsoleInputReader
new_reader = record { pending = []; carry = none; previous_mouse_buttons = 0 }

-- `VK_MENU` and `MAX_UNITS_PER_RECORD`
abbrev pub vk_menu : ℕ
vk_menu = 0x12

abbrev pub max_units_per_record : ℕ
max_units_per_record = 1024

-- The loop of `translate_key`.
unfoldable pub push_repeated : ℕ → Option ℕ → ℕ → Option ℕ × Bytes
push_repeated zero carry unit = (carry, [])
push_repeated (suc count) carry unit =
    let (carry', bytes) = push_unit carry unit in
    let (carry'', rest) = push_repeated count carry' unit in (carry'', bytes ++ rest)

unfoldable pub translate_key : Option ℕ → ConsoleKey → Option ℕ × Bytes
translate_key carry k =
    let alt_numpad_release = not k.key_down && k.virtual_key == vk_menu in
    if k.unit == 0
    then (carry, [])
    else if not k.key_down && not alt_numpad_release
    then (carry, [])
    else push_repeated (min k.repeat_count max_units_per_record) carry k.unit

-- `u16::try_from(extent).unwrap_or(u16::MAX)`
unfoldable pub extent_u16 : ℤ → ℕ
extent_u16 (pos n) = if leb n (2 ^ 16 - 1) then n else 2 ^ 16 - 1
extent_u16 (negsuc n) = 2 ^ 16 - 1

unfoldable pub synthesize_resize : Option WindowRect → Bytes
synthesize_resize none = []
synthesize_resize (some window) =
    let (columns, rows) = window_extent window.left window.top window.right window.bottom in
    if is_degenerate columns rows
    then []
    else format_resize_report (extent_u16 rows) (extent_u16 columns)

-- What the reader carries from record to record.
pub record Carried : Type 0 where
  pub carry : Option ℕ
  pub buttons : ℕ

-- `translate_record`
unfoldable pub translate_record : Carried → InputRecord → Carried × Bytes
translate_record s (key k) =
    let (carry, bytes) = translate_key s.carry k in (record s { carry = carry }, bytes)
translate_record s (mouse m) =
    let (bytes, buttons) = translate_mouse m s.buttons in (record s { buttons = buttons }, bytes)
translate_record s (window_buffer_size window) = (s, synthesize_resize window)
translate_record s other = (s, [])

-- The loop of `translate_records`.
unfoldable pub translate_all : Carried → List InputRecord → Carried × Bytes
translate_all s [] = (s, [])
translate_all s (input ∷ inputs) =
    let (s', bytes) = translate_record s input in
    let (s'', rest) = translate_all s' inputs in (s'', bytes ++ rest)

abbrev pub carried : ConsoleInputReader → Carried
carried reader = record { carry = reader.carry; buttons = reader.previous_mouse_buttons }

unfoldable pub translate_records : List InputRecord → ConsoleInputReader → ConsoleInputReader
translate_records records reader =
    let (s, bytes) = translate_all (carried reader) records in
    record {
      pending = reader.pending ++ bytes;
      carry = s.carry;
      previous_mouse_buttons = s.buttons;
    }

unfoldable pub flush_reader : ConsoleInputReader → ConsoleInputReader
flush_reader reader = record reader {
  pending = reader.pending ++ flush_pending reader.carry;
  carry = none;
}

-- `drain_pending` into a buffer of a length: the reader afterwards, and what is copied.
unfoldable pub drain_pending : ℕ → ConsoleInputReader → ConsoleInputReader × Bytes
drain_pending room reader =
    let count = min room (length reader.pending) in
    (record reader { pending = drop count reader.pending }, take count reader.pending)

unfoldable pub take_pending : ConsoleInputReader → ConsoleInputReader × Bytes
take_pending reader = (record reader { pending = [] }, reader.pending)
