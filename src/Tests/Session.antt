-- ===== src/Tests/Session.antt =====
-- The session and its ledger at concrete modes.
use qwertty.Prelude.{
  ℕ, ◌≡◌, refl, Bool, true, false, none, some, List, [], ◌∷◌, Bytes, bytes_eq, if◌then◌else◌, arith,
}
use qwertty.Session.{
  TerminalDevice, TerminalSession, RestoreCore, DoubleBuffered, enter, leave, handle_restore,
  after_restore, track_mode, run_actions, restore_state,
}
use qwertty.Session.Blob.{IsCurrent, Life, stop, and_track_mode, and_enter, Life-IsCurrent}
use qwertty.Session.Ledger.{
  ModeKind, DeviceMode, StateAction, LedgerEntry, kind_eq, record_mode, reversed, apply_actions,
  undo_actions, protocol_undo_bytes, emergency_reset,
}
use qwertty.Session.Lifecycle.{IsUndone, leave-enter, leave-handle_restore}
use qwertty.Session.Order.{entry_of, kinds, with_kind, record_mode_lem}

-- `CSI > 1 u` pushes an entry on a stack, and `CSI < 1 u` pops one.
abbrev push : Bytes
push = 0x1b ∷ b'[' ∷ b'>' ∷ b'1' ∷ b'u' ∷ []

abbrev pop : Bytes
pop = 0x1b ∷ b'[' ∷ b'<' ∷ b'1' ∷ b'u' ∷ []

abbrev popped : List Bytes → List Bytes
popped [] = []
popped (top ∷ stack) = stack

-- Whether the device is in raw mode, and its stack of keyboard entries.
abbrev Device : Type 0
Device = Bool × List Bytes

abbrev is_raw : DeviceMode → Bool
is_raw DeviceMode.raw = true
is_raw DeviceMode.cooked = false

-- A switch to a mode sets the mode, whatever it was.
abbrev stack_device : TerminalDevice Device ℕ
stack_device = record {
  write_all = λ bytes d. ((d.0, if bytes_eq bytes pop then popped d.1 else bytes ∷ d.1), none);
  set_mode = λ mode d. ((is_raw mode, d.1), none);
  flush = λ d. (d, none);
}

abbrev modes : List LedgerEntry
modes =
    record {
      kind = ModeKind.raw;
      apply = StateAction.set_mode DeviceMode.raw;
      undo = StateAction.set_mode DeviceMode.cooked;
    }
    ∷ record {
      kind = ModeKind.kitty_keyboard;
      apply = StateAction.write_bytes push;
      undo = StateAction.write_bytes pop;
    }
    ∷ []

abbrev buffers : DoubleBuffered
buffers = record { active = 0; buffer_0 = []; buffer_1 = [] }

abbrev armed_core : RestoreCore
armed_core = record { armed = true; blob = buffers }

abbrev outside : TerminalSession Device
outside = record {
  device = (false, []);
  ledger = modes;
  entered = false;
  restore = some (record { armed = false; blob = buffers });
}

abbrev inside : TerminalSession Device
inside = record {
  device = (true, push ∷ []);
  ledger = modes;
  entered = true;
  restore = some armed_core;
}

entered_run : (enter stack_device outside).0.device ≡ (true, push ∷ [])
unfolding enter run_actions apply_actions
entered_run = refl

undo_run :
    undo_actions modes ≡ StateAction.write_bytes pop ∷ StateAction.set_mode DeviceMode.cooked ∷ []
unfolding undo_actions reversed
undo_run = refl

emergency_run : protocol_undo_bytes modes ≡ emergency_reset
unfolding protocol_undo_bytes reversed
emergency_run = refl

modes-IsUndone : IsUndone stack_device modes outside.device
unfolding IsUndone
modes-IsUndone = (refl, (refl, refl))

leave-enter_example : (leave stack_device (enter stack_device outside).0).0.device ≡ (false, [])
leave-enter_example = leave-enter stack_device outside refl modes-IsUndone refl

-- An emergency restore that goes back to cooked mode and clears the stack.
abbrev clear : Bytes → Device → Device
clear blob d = (false, [])

leave-handle_restore_example :
    ((handle_restore clear inside.device armed_core).2 ≡ true)
    × ((leave stack_device (after_restore clear inside armed_core)).0.device ≡ (false, []))
leave-handle_restore_example = leave-handle_restore stack_device clear inside armed_core refl

left_core : (leave stack_device inside).0.restore ≡ some (record armed_core { armed = false })
unfolding leave restore_state run_actions undo_actions reversed
left_core = refl

record_mode_lem_example :
    (entry_of ModeKind.raw (
        record_mode ModeKind.raw (StateAction.write_bytes push) (StateAction.write_bytes pop) modes)
      ≡ some (record {
        kind = ModeKind.raw;
        apply = StateAction.write_bytes push;
        undo = StateAction.write_bytes pop;
      }))
    × ((other : ModeKind)
        → kind_eq ModeKind.raw other ≡ false
        → entry_of other (
            record_mode ModeKind.raw
              (StateAction.write_bytes push)
              (StateAction.write_bytes pop)
              modes)
          ≡ entry_of other modes)
    × (kinds (
          record_mode ModeKind.raw
            (StateAction.write_bytes push)
            (StateAction.write_bytes pop)
            modes)
        ≡ with_kind ModeKind.raw modes (entry_of ModeKind.raw modes))
record_mode_lem_example =
    record_mode_lem ModeKind.raw (StateAction.write_bytes push) (StateAction.write_bytes pop) modes

outside-IsCurrent : IsCurrent outside
unfolding IsCurrent
outside-IsCurrent in_session core e = ground arith

life :
    Life stack_device clear outside
      (track_mode ModeKind.focus push pop (enter stack_device outside).0)
life = and_enter (and_track_mode ModeKind.focus push pop stop)

Life-IsCurrent_example :
    IsCurrent (track_mode ModeKind.focus push pop (enter stack_device outside).0)
Life-IsCurrent_example = Life-IsCurrent stack_device clear outside-IsCurrent life
