-- ===== src/Commands/Cursor.antt =====
-- Cursor commands (src/commands/cursor.rs).
use qwertty.Commands.{Command, csi, escape, ProtocolPosition}
use qwertty.Prelude.{ℕ, ◌∷◌, ◌++◌, codes, decimal}

unfoldable pub move_to : ProtocolPosition → Command
move_to position = csi (decimal position.row ++ b';' ∷ decimal position.column) b'H'

abbrev pub request_position : Command
request_position = csi (codes "6") b'n'

abbrev pub hide : Command
hide = csi (codes "?25") b'l'

abbrev pub show : Command
show = csi (codes "?25") b'h'

abbrev pub save : Command
save = escape b'7'

abbrev pub restore : Command
restore = escape b'8'

pub data CursorShape : Type 0 where
  default_shape blinking_block steady_block blinking_underline steady_underline blinking_bar
        steady_bar :
      CursorShape

unfoldable pub shape_parameter : CursorShape → ℕ
shape_parameter default_shape = 0
shape_parameter blinking_block = 1
shape_parameter steady_block = 2
shape_parameter blinking_underline = 3
shape_parameter steady_underline = 4
shape_parameter blinking_bar = 5
shape_parameter steady_bar = 6

-- The space is the intermediate byte.
unfoldable pub set_shape : CursorShape → Command
set_shape shape = csi (decimal (shape_parameter shape) ++ codes " ") b'q'

abbrev pub reset_shape : Command
reset_shape = set_shape default_shape
