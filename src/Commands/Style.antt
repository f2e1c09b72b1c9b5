-- ===== src/Commands/Style.antt =====
-- Style commands (src/commands/style.rs).
use qwertty.Commands.{Command, csi}
use qwertty.Prelude.{
  ℕ, ◌+◌, ◌%◌, Option, none, some, [], ◌∷◌, ◌++◌, Bytes, ltb, if◌then◌else◌, codes, decimal,
}

pub data Color : Type 0 where
  black red green yellow blue magenta cyan white bright_black bright_red bright_green bright_yellow
        bright_blue bright_magenta bright_cyan bright_white :
      Color
  indexed : ℕ → Color
  rgb : ℕ → ℕ → ℕ → Color

unfoldable pub named_offset : Color → Option ℕ
named_offset black = some 0
named_offset red = some 1
named_offset green = some 2
named_offset yellow = some 3
named_offset blue = some 4
named_offset magenta = some 5
named_offset cyan = some 6
named_offset white = some 7
named_offset bright_black = some 8
named_offset bright_red = some 9
named_offset bright_green = some 10
named_offset bright_yellow = some 11
named_offset bright_blue = some 12
named_offset bright_magenta = some 13
named_offset bright_cyan = some 14
named_offset bright_white = some 15
named_offset (indexed _) = none
named_offset (rgb _ _ _) = none

-- The fallback of `palette_index`, for a colour without a name.
abbrev fallback_index : Color → ℕ
fallback_index (indexed index) = index
fallback_index _ = 0

unfoldable pub palette_index : Color → ℕ
palette_index color = elim (named_offset color) [
  | some offset ↦ offset
  | none ↦ fallback_index color
]

-- `push_params` of a colour without a name. The source has no further case.
unfoldable pub extended_params : ℕ → Color → Bytes
extended_params selector (indexed index) = decimal selector ++ codes ";5;" ++ decimal index
extended_params selector (rgb r g b) =
    decimal selector ++ codes ";2;" ++ decimal r ++ b';' ∷ decimal g ++ b';' ∷ decimal b
extended_params selector _ = []

-- `push_params`: what it writes. The codes are at most 107, so the `u8` sum does not overflow.
unfoldable pub push_params : Color → ℕ → ℕ → ℕ → Bytes
push_params color standard_base bright_base extended_selector = elim (named_offset color) [
  | some offset ↦ decimal ((if ltb offset 8 then standard_base else bright_base) + offset % 8)
  | none ↦ extended_params extended_selector color
]

unfoldable pub foreground : Color → Command
foreground color = csi (push_params color 30 90 38) b'm'

unfoldable pub background : Color → Command
background color = csi (push_params color 40 100 48) b'm'

unfoldable pub underline_params : Color → Bytes
underline_params (rgb r g b) = codes "58;2;" ++ decimal r ++ b';' ∷ decimal g ++ b';' ∷ decimal b
underline_params other = codes "58;5;" ++ decimal (palette_index other)

unfoldable pub underline_color : Color → Command
underline_color color = csi (underline_params color) b'm'

abbrev pub reset_foreground : Command
reset_foreground = csi (codes "39") b'm'

abbrev pub reset_background : Command
reset_background = csi (codes "49") b'm'

abbrev pub reset_underline_color : Command
reset_underline_color = csi (codes "59") b'm'

abbrev pub bold : Command
bold = csi (codes "1") b'm'

abbrev pub dim : Command
dim = csi (codes "2") b'm'

abbrev pub italic : Command
italic = csi (codes "3") b'm'

abbrev pub underline : Command
underline = csi (codes "4") b'm'

abbrev pub blink : Command
blink = csi (codes "5") b'm'

abbrev pub reverse : Command
reverse = csi (codes "7") b'm'

abbrev pub hidden : Command
hidden = csi (codes "8") b'm'

abbrev pub strikethrough : Command
strikethrough = csi (codes "9") b'm'

abbrev pub reset_bold_dim : Command
reset_bold_dim = csi (codes "22") b'm'

abbrev pub reset_italic : Command
reset_italic = csi (codes "23") b'm'

abbrev pub reset_underline : Command
reset_underline = csi (codes "24") b'm'

abbrev pub reset_blink : Command
reset_blink = csi (codes "25") b'm'

abbrev pub reset_reverse : Command
reset_reverse = csi (codes "27") b'm'

abbrev pub reset_hidden : Command
reset_hidden = csi (codes "28") b'm'

abbrev pub reset_strikethrough : Command
reset_strikethrough = csi (codes "29") b'm'

abbrev pub reset_all : Command
reset_all = csi (codes "0") b'm'

pub data UnderlineStyle : Type 0 where
  no_underline straight double curly dotted dashed : UnderlineStyle

unfoldable pub subparam : UnderlineStyle → ℕ
subparam no_underline = 0
subparam straight = 1
subparam double = 2
subparam curly = 3
subparam dotted = 4
subparam dashed = 5

unfoldable pub underline_style : UnderlineStyle → Command
underline_style style = csi (codes "4:" ++ decimal (subparam style)) b'm'
