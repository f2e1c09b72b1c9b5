-- ===== src/Session/Ledger.antt =====
-- The ledger of reversible terminal modes (`ModeLedger` of src/session/ledger.rs).
use qwertty.Prelude.{Bool, true, false, List, [], ◌∷◌, ◌++◌, map, Bytes, concat, if◌then◌else◌}

pub data DeviceMode : Type 0 where
  raw cooked : DeviceMode

pub data StateAction : Type 0 where
  write_bytes : Bytes → StateAction
  set_mode : DeviceMode → StateAction

pub data ModeKind : Type 0 where
  raw kitty_keyboard mouse focus bracketed_paste in_band_resize alternate_screen cursor_visibility :
      ModeKind

pub record LedgerEntry : Type 0 where
  pub kind : ModeKind
  pub apply : StateAction
  pub undo : StateAction

-- `==` on `ModeKind`, as derived
unfoldable pub kind_eq : ModeKind → ModeKind → Bool
kind_eq ModeKind.raw ModeKind.raw = true
kind_eq kitty_keyboard kitty_keyboard = true
kind_eq mouse mouse = true
kind_eq focus focus = true
kind_eq bracketed_paste bracketed_paste = true
kind_eq in_band_resize in_band_resize = true
kind_eq alternate_screen alternate_screen = true
kind_eq cursor_visibility cursor_visibility = true
kind_eq _ _ = false

-- `ModeLedger` is its list of entries. `ModeLedger::record`:
unfoldable pub record_mode :
    ModeKind → StateAction → StateAction → List LedgerEntry → List LedgerEntry
record_mode kind apply undo [] = record { kind = kind; apply = apply; undo = undo } ∷ []
record_mode kind apply undo (entry ∷ entries) =
    let rest = record_mode kind apply undo entries in
    if kind_eq entry.kind kind
    then record entry { apply = apply; undo = undo } ∷ entries
    else entry ∷ rest

-- `iter().rev()`
unfoldable pub reversed : {A : Type 0} → List A → List A
reversed [] = []
reversed (x ∷ xs) = reversed xs ++ x ∷ []

unfoldable pub apply_actions : List LedgerEntry → List StateAction
apply_actions entries = map (λ entry. entry.apply) entries

unfoldable pub undo_actions : List LedgerEntry → List StateAction
undo_actions entries = map (λ entry. entry.undo) (reversed entries)

-- `KITTY_KEYBOARD_EMERGENCY_RESET`: `CSI < u`
abbrev pub emergency_reset : Bytes
emergency_reset = 0x1b ∷ b'[' ∷ b'<' ∷ b'u' ∷ []

-- The body of the loop in `protocol_undo_bytes`.
abbrev pub emergency_bytes : ModeKind → StateAction → Bytes
emergency_bytes kitty_keyboard (write_bytes undo) = emergency_reset
emergency_bytes _ (write_bytes undo) = undo
emergency_bytes _ (set_mode mode) = []

unfoldable pub protocol_undo_bytes : List LedgerEntry → Bytes
protocol_undo_bytes entries =
    concat (map (λ entry. emergency_bytes entry.kind entry.undo) (reversed entries))
