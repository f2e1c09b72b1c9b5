-- ===== src/Commands/Screen.antt =====
-- Screen commands (src/commands/screen.rs).
use qwertty.Commands.{Command, csi}
use qwertty.Prelude.{ℕ, [], ◌∷◌, ◌++◌, codes, decimal}

abbrev pub clear_screen : Command
clear_screen = csi (codes "2") b'J'

abbrev pub erase_line : Command
erase_line = csi (codes "2") b'K'

abbrev pub enter_alternate_screen : Command
enter_alternate_screen = csi (codes "?1049") b'h'

abbrev pub leave_alternate_screen : Command
leave_alternate_screen = csi (codes "?1049") b'l'

abbrev pub begin_synchronized_update : Command
begin_synchronized_update = csi (codes "?2026") b'h'

abbrev pub end_synchronized_update : Command
end_synchronized_update = csi (codes "?2026") b'l'

unfoldable pub set_scroll_region : ℕ → ℕ → Command
set_scroll_region top bottom = csi (decimal top ++ b';' ∷ decimal bottom) b'r'

abbrev pub reset_scroll_region : Command
reset_scroll_region = csi [] b'r'

unfoldable pub scroll_up : ℕ → Command
scroll_up n = csi (decimal n) b'S'

unfoldable pub scroll_down : ℕ → Command
scroll_down n = csi (decimal n) b'T'

unfoldable pub insert_lines : ℕ → Command
insert_lines n = csi (decimal n) b'L'

unfoldable pub delete_lines : ℕ → Command
delete_lines n = csi (decimal n) b'M'
