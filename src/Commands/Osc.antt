-- ===== src/Commands/Osc.antt =====
-- Operating system commands (src/commands/osc.rs). A `&str` that is sanitized is the list of its
-- characters; the payload of a sequence is bytes.
use qwertty.Commands.{Command, raw, osc}
use qwertty.Input.Characters.{encode_utf8}
use qwertty.Prelude.{
  ℕ, ◌+◌, ◌-◌, ◌*◌, ◌/◌, ◌%◌, Bool, true, false, ◌||◌, Option, none, some, List, [], ◌∷◌, ◌++◌, map,
  Bytes, concat, length, take, ltb, ◌==◌, if◌then◌else◌, codes, decimal,
}
use qwertty.Syntax.Classes.{within}

-- `TITLE_MAX_CHARS`
abbrev pub title_max_chars : ℕ
title_max_chars = 240

-- `CLIPBOARD_MAX_BYTES`
abbrev pub clipboard_max_bytes : ℕ
clipboard_max_bytes = 100000

-- `BLOCKED_TITLE_CHARS`
abbrev pub blocked_title_chars : List ℕ
blocked_title_chars =
    0x200b ∷ 0x200c ∷ 0x200d ∷ 0x200e ∷ 0x200f ∷ 0x2028 ∷ 0x2029 ∷ 0x202a ∷ 0x202b ∷ 0x202c ∷ 0x202d
    ∷ 0x202e ∷ 0x2066 ∷ 0x2067 ∷ 0x2068 ∷ 0x2069 ∷ 0xfeff ∷ []

-- `contains` of a slice
unfoldable pub is_among : List ℕ → ℕ → Bool
is_among [] c = false
is_among (x ∷ xs) c = x == c || is_among xs c

-- The control characters of the two ranges, and DEL.
unfoldable pub is_control_char : ℕ → Bool
is_control_char code = ltb code 0x20 || code == 0x7f || within 0x80 0x9f code

unfoldable pub is_blocked_title_char : ℕ → Bool
is_blocked_title_char c = is_control_char c || is_among blocked_title_chars c

-- `filter(|c| !blocked(c))`
unfoldable pub without : (ℕ → Bool) → List ℕ → List ℕ
without blocked [] = []
without blocked (c ∷ cs) = let rest = without blocked cs in if blocked c then rest else c ∷ rest

unfoldable pub sanitize_title : List ℕ → List ℕ
sanitize_title title = take title_max_chars (without is_blocked_title_char title)

-- The bytes of a string of characters.
unfoldable pub str_bytes : List ℕ → Bytes
str_bytes characters = concat (map encode_utf8 characters)

unfoldable pub set_title : List ℕ → Command
set_title title = osc (codes "2;" ++ str_bytes (sanitize_title title))

unfoldable pub set_icon_and_title : List ℕ → Command
set_icon_and_title title = osc (codes "0;" ++ str_bytes (sanitize_title title))

unfoldable pub sanitize_uri_component : List ℕ → List ℕ
sanitize_uri_component value = without is_control_char value

unfoldable pub hyperlink_params : Option (List ℕ) → Bytes
hyperlink_params none = []
hyperlink_params (some id) = codes "id=" ++ str_bytes (sanitize_uri_component id)

unfoldable pub hyperlink : List ℕ → Option (List ℕ) → Command
hyperlink uri id =
    osc (codes "8;" ++ hyperlink_params id ++ b';' ∷ str_bytes (sanitize_uri_component uri))

abbrev pub close_hyperlink : Command
close_hyperlink = osc (codes "8;;")

abbrev pub request_foreground_color : Command
request_foreground_color = osc (codes "10;?")

abbrev pub request_background_color : Command
request_background_color = osc (codes "11;?")

pub data ClipboardSelection : Type 0 where
  clipboard primary : ClipboardSelection

unfoldable pub selection_target : ClipboardSelection → ℕ
selection_target clipboard = b'c'
selection_target primary = b'p'

-- `BASE64_ALPHABET[n]`
unfoldable pub base64_char : ℕ → ℕ
base64_char n =
    if ltb n 26
    then b'A' + n
    else if ltb n 52
    then b'a' + (n - 26)
    else if ltb n 62
    then b'0' + (n - 52)
    else if n == 62
    then b'+'
    else b'/'

-- One round of the loop of `encode_base64`; the shifts and masks are on bytes.
unfoldable pub base64_three : ℕ → ℕ → ℕ → Bytes
base64_three b0 b1 b2 =
    base64_char (b0 / 4)
    ∷ base64_char (b0 % 4 * 16 + b1 / 16)
    ∷ base64_char (b1 % 16 * 4 + b2 / 64)
    ∷ base64_char (b2 % 64)
    ∷ []

unfoldable pub encode_base64 : Bytes → Bytes
encode_base64 [] = []
encode_base64 (b0 ∷ []) = base64_char (b0 / 4) ∷ base64_char (b0 % 4 * 16) ∷ b'=' ∷ b'=' ∷ []
encode_base64 (b0 ∷ b1 ∷ []) =
    base64_char (b0 / 4)
    ∷ base64_char (b0 % 4 * 16 + b1 / 16)
    ∷ base64_char (b1 % 16 * 4)
    ∷ b'='
    ∷ []
encode_base64 (b0 ∷ b1 ∷ b2 ∷ input) = base64_three b0 b1 b2 ++ encode_base64 input

unfoldable pub set_clipboard : ClipboardSelection → Bytes → Command
set_clipboard selection input =
    if ltb clipboard_max_bytes (length input)
    then raw []
    else osc (codes "52;" ++ selection_target selection ∷ b';' ∷ encode_base64 input)

abbrev pub prompt_start : Command
prompt_start = osc (codes "133;A")

abbrev pub prompt_end : Command
prompt_end = osc (codes "133;B")

abbrev pub command_start : Command
command_start = prompt_end

abbrev pub command_executed : Command
command_executed = osc (codes "133;C")

-- The sign and the magnitude of an `i32`.
abbrev pub signed_decimal : Bool × ℕ → Bytes
signed_decimal (true, n) = b'-' ∷ decimal n
signed_decimal (false, n) = decimal n

unfoldable pub command_finished : Option (Bool × ℕ) → Command
command_finished none = osc (codes "133;D")
command_finished (some code) = osc (codes "133;D;" ++ signed_decimal code)
