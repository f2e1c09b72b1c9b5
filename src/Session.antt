-- ===== src/Session.antt =====
-- The life of a terminal session (`enter`, `leave` and `track_mode` of src/session.rs) with its
-- emergency restore (`DoubleBuffered` and `RestoreCore` of src/session/restore.rs). The terminal
-- device is a trait of the program: its three calls are a record here, and each returns the new
-- device and an error, if it fails.
pub mod Ledger
pub mod Order
pub mod Lifecycle
pub mod Blob
use qwertty.Prelude.{
  ℕ, ◌-◌, ◌==◌, Bool, true, false, not, Option, none, some, List, [], ◌∷◌, Bytes, if◌then◌else◌,
}
use qwertty.Session.Ledger.{
  DeviceMode, StateAction, ModeKind, LedgerEntry, record_mode, apply_actions, undo_actions,
  protocol_undo_bytes, write_bytes, set_mode,
}

pub record TerminalDevice (D E : Type 0) : Type 0 where
  pub write_all : Bytes → D → D × Option E
  pub set_mode : DeviceMode → D → D × Option E
  pub flush : D → D × Option E

-- `active` is 0 or 1.
pub record DoubleBuffered : Type 0 where
  pub active : ℕ
  pub buffer_0 : Bytes
  pub buffer_1 : Bytes

pub record RestoreCore : Type 0 where
  pub armed : Bool
  pub blob : DoubleBuffered

abbrev pub buffer_at : DoubleBuffered → ℕ → Bytes
buffer_at b index = if index == 0 then b.buffer_0 else b.buffer_1

abbrev pub set_buffer : DoubleBuffered → ℕ → Bytes → DoubleBuffered
set_buffer b index bytes =
    if index == 0 then record b { buffer_0 = bytes } else record b { buffer_1 = bytes }

unfoldable pub publish : DoubleBuffered → Bytes → DoubleBuffered
publish b bytes =
    let inactive = 1 - b.active in record (set_buffer b inactive bytes) { active = inactive }

unfoldable pub read_current : DoubleBuffered → Bytes
read_current b = buffer_at b b.active

pub record TerminalSession (D : Type 0) : Type 0 where
  pub device : D
  pub ledger : List LedgerEntry
  pub entered : Bool
  pub restore : Option RestoreCore

abbrev pub publish_blob : Bytes → RestoreCore → RestoreCore
publish_blob bytes core = record core { blob = publish core.blob bytes }

-- `if let Some(restore) = &self.restore { restore.publish_blob(…) }`
abbrev pub refresh_blob : List LedgerEntry → Option RestoreCore → Option RestoreCore
refresh_blob ledger none = none
refresh_blob ledger (some core) = some (publish_blob (protocol_undo_bytes ledger) core)

abbrev pub arm : Option RestoreCore → Option RestoreCore
arm none = none
arm (some core) = some (record core { armed = true })

abbrev pub disarm : Option RestoreCore → Option RestoreCore
disarm none = none
disarm (some core) = some (record core { armed = false })

-- `!restore.disarm()`, where there is a handle
abbrev pub already_restored : Option RestoreCore → Bool
already_restored none = false
already_restored (some core) = not core.armed

-- `track_mode` with the encoded commands that switch the mode on and off; `record_kitty_keyboard`
-- records its push and its pop in the same way.
unfoldable pub track_mode :
    {D : Type 0} → ModeKind → Bytes → Bytes → TerminalSession D → TerminalSession D
track_mode kind apply undo s =
    let ledger = record_mode kind (write_bytes apply) (write_bytes undo) s.ledger in
    record s { ledger = ledger; restore = refresh_blob ledger s.restore }

-- `first_error` after one more result
abbrev pub first_error {ℓ} : {E : Type ℓ} → Option E → Option E → Option E
first_error (some error) result = some error
first_error none result = result

module _ {D E : Type 0} (terminal : TerminalDevice D E) where
  abbrev pub run_action : StateAction → D → D × Option E
  run_action (write_bytes bytes) d = terminal.write_all bytes d
  run_action (StateAction.set_mode mode) d = terminal.set_mode mode d

  -- The loops of `enter` and `restore_state`.
  unfoldable pub run_actions : List StateAction → Option E → D → D × Option E
  run_actions [] error d = (d, error)
  run_actions (action ∷ actions) error d =
      let (d', result) = run_action action d in run_actions actions (first_error error result) d'

  unfoldable pub restore_state : List LedgerEntry → D → D × Option E
  restore_state ledger d =
      let (d', error) = run_actions (undo_actions ledger) none d in
      let (d'', result) = terminal.flush d' in (d'', first_error error result)

  unfoldable pub enter : TerminalSession D → TerminalSession D × Option E
  enter s =
      let (d, error) = run_actions (apply_actions s.ledger) none s.device in
      if s.entered then (s, none) else (
        record s { device = d; entered = true; restore = arm (refresh_blob s.ledger s.restore) },
        error,
      )

  unfoldable pub leave : TerminalSession D → TerminalSession D × Option E
  leave s =
      let left : TerminalSession D = record s { entered = false; restore = disarm s.restore } in
      let (d, error) = restore_state s.ledger s.device in
      if not s.entered
      then (s, none)
      else if already_restored s.restore
      then (left, none)
      else (record left { device = d }, error)

-- `RestoreHandle::restore`: `emergency` writes the blob and restores the captured mode.
unfoldable pub handle_restore :
    {D : Type 0} → (Bytes → D → D) → D → RestoreCore → D × RestoreCore × Bool
handle_restore emergency d core =
    if core.armed
    then (emergency (read_current core.blob) d, record core { armed = false }, true)
    else (d, core, false)

-- A session after its handle has run.
abbrev pub after_restore :
    {D : Type 0} → (Bytes → D → D) → TerminalSession D → RestoreCore → TerminalSession D
after_restore emergency s core =
    let (d, core', did) = handle_restore emergency s.device core in
    record s { device = d; restore = some core' }
