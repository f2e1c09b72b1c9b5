-- ===== src/Session/Blob.antt =====
-- The emergency blob follows the mode ledger through the life of a session (src/session.rs).
use qwertty.Prelude.{
  ◌≡◌, true, Option, none, some, List, Bytes, arith, Bool-cases, inl, inr, Option-cases,
}
use qwertty.Session.Ledger.{ModeKind, LedgerEntry, protocol_undo_bytes}
use qwertty.Session.{
  TerminalDevice, TerminalSession, RestoreCore, DoubleBuffered, publish, read_current, enter, leave,
  handle_restore, track_mode, refresh_blob, after_restore,
}

-- Inside a session the blob is what undoes the ledger.
unfoldable pub IsCurrent : {D : Type 0} → TerminalSession D → Type 0
IsCurrent s =
    s.entered ≡ true
    → (core : RestoreCore) → s.restore ≡ some core
    → read_current core.blob ≡ protocol_undo_bytes s.ledger

publish_lem : (b : DoubleBuffered) (bytes : Bytes) → read_current (publish b bytes) ≡ bytes
unfolding read_current publish
publish_lem b bytes = ground arith

refresh_blob_lem :
    (ledger : List LedgerEntry) (restore : Option RestoreCore) (core : RestoreCore)
    → refresh_blob ledger restore ≡ some core
    → read_current core.blob ≡ protocol_undo_bytes ledger
refresh_blob_lem ledger none core e = ground arith
refresh_blob_lem ledger (some old) core e =
    ground (arith, publish_lem old.blob (protocol_undo_bytes ledger))

track_mode-IsCurrent :
    {D : Type 0} (kind : ModeKind) (apply undo : Bytes) (s : TerminalSession D)
    → IsCurrent (track_mode kind apply undo s)
unfolding IsCurrent track_mode
track_mode-IsCurrent kind apply undo s inside core e = refresh_blob_lem _ s.restore core e

-- The calls of a session one after another, with restores by its handle in between.
pub data Life {D E : Type 0} (terminal : TerminalDevice D E) (emergency : Bytes → D → D)
    : TerminalSession D → TerminalSession D → Type 1 where
  stop : {s : TerminalSession D} → Life terminal emergency s s
  and_track_mode :
      {s s' : TerminalSession D} (kind : ModeKind) (apply undo : Bytes)
      → Life terminal emergency (track_mode kind apply undo s) s'
      → Life terminal emergency s s'
  and_enter :
      {s s' : TerminalSession D}
      → Life terminal emergency (enter terminal s).0 s'
      → Life terminal emergency s s'
  and_leave :
      {s s' : TerminalSession D}
      → Life terminal emergency (leave terminal s).0 s'
      → Life terminal emergency s s'
  and_restore :
      {s s' : TerminalSession D} (core : RestoreCore)
      → s.restore ≡ some core
      → Life terminal emergency (after_restore emergency s core) s'
      → Life terminal emergency s s'

module _ {D E : Type 0} (terminal : TerminalDevice D E) (emergency : Bytes → D → D) where
  enter-IsCurrent : (s : TerminalSession D) → IsCurrent s → IsCurrent (enter terminal s).0
  unfolding IsCurrent enter
  enter-IsCurrent s current inside core e = elim (Option-cases s.restore) [
    | inl no_handle ↦ ground arith
    | inr (old, handle) ↦
        let now = publish_lem old.blob (protocol_undo_bytes s.ledger) in
        elim (Bool-cases s.entered) [
          | inl was ↦ ground (arith, current was core)
          | inr was ↦ ground arith
        ]
  ]

  leave-IsCurrent : (s : TerminalSession D) → IsCurrent s → IsCurrent (leave terminal s).0
  unfolding IsCurrent leave
  leave-IsCurrent s current inside core e = ground (arith, current)

  restore-IsCurrent :
      (s : TerminalSession D) (core : RestoreCore)
      → s.restore ≡ some core
      → IsCurrent s
      → IsCurrent (after_restore emergency s core)
  unfolding IsCurrent handle_restore
  restore-IsCurrent s core handle current inside core' e =
      ground (arith, current inside core handle)

  -- From a session whose blob is current, whatever calls follow, the blob stays what undoes the
  -- ledger whenever the session is entered.
  pub Life-IsCurrent :
      {s s' : TerminalSession D} → IsCurrent s → Life terminal emergency s s' → IsCurrent s'
  Life-IsCurrent current stop = current
  Life-IsCurrent {s = s} current (and_track_mode kind apply undo life) =
      Life-IsCurrent (track_mode-IsCurrent kind apply undo s) life
  Life-IsCurrent {s = s} current (and_enter life) = Life-IsCurrent (enter-IsCurrent s current) life
  Life-IsCurrent {s = s} current (and_leave life) = Life-IsCurrent (leave-IsCurrent s current) life
  Life-IsCurrent {s = s} current (and_restore core handle life) =
      Life-IsCurrent (restore-IsCurrent s core handle current) life
