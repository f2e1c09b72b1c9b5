-- ===== src/Session/Lifecycle.antt =====
-- Entering and leaving a session (src/session.rs) and its emergency restore
-- (src/session/restore.rs): what was switched on is switched off, and once.
use qwertty.Prelude.{
  ◌≤◌, ◌≡◌, refl, ap, ◌∙◌, true, false, Option, none, some, List, [], ◌∷◌, ◌++◌, map, Bytes, arith,
}
use qwertty.Session.Ledger.{StateAction, LedgerEntry, reversed, apply_actions, undo_actions}
use qwertty.Session.{
  TerminalDevice, TerminalSession, RestoreCore, DoubleBuffered, buffer_at, publish, read_current,
  run_action, run_actions, restore_state, enter, leave, handle_restore, after_restore, first_error,
}

module _ {D E : Type 0} (terminal : TerminalDevice D E) where
  -- Where the apply actions take a device one after the other, the undo action of each entry takes
  -- back its apply action. Nothing is asked of the states that they do not reach.
  unfoldable pub IsUndone : List LedgerEntry → D → Type 0
  IsUndone [] d = true ≡ true
  IsUndone (entry ∷ entries) d =
      ((run_action terminal entry.undo (run_action terminal entry.apply d).0).0 ≡ d)
      × IsUndone entries (run_action terminal entry.apply d).0

  -- The device after some actions does not depend on the error so far.
  run_actions-error :
      (actions : List StateAction) (e e' : Option E) (d : D)
      → (run_actions terminal actions e d).0 ≡ (run_actions terminal actions e' d).0
  unfolding run_actions
  run_actions-error [] e e' d = refl
  run_actions-error (action ∷ actions) e e' d =
      run_actions-error actions (first_error e (run_action terminal action d).1)
        (first_error e' (run_action terminal action d).1) (run_action terminal action d).0

  run_actions-append :
      (xs ys : List StateAction) (e : Option E) (d : D)
      → (run_actions terminal (xs ++ ys) e d).0
        ≡ (run_actions terminal ys none (run_actions terminal xs e d).0).0
  unfolding run_actions
  run_actions-append [] ys e d = run_actions-error ys e none d
  run_actions-append (action ∷ xs) ys e d =
      run_actions-append xs ys (first_error e (run_action terminal action d).1)
        (run_action terminal action d).0

  map_undo-append :
      (xs ys : List LedgerEntry)
      → map (λ entry. entry.undo) (xs ++ ys)
        ≡ map (λ entry. entry.undo) xs ++ map (λ entry. entry.undo) ys
  map_undo-append [] ys = refl
  map_undo-append (x ∷ xs) ys = ap (λ s. x.undo ∷ s) (map_undo-append xs ys)

  undo-apply :
      (entries : List LedgerEntry) (e e' : Option E) (d : D)
      → IsUndone entries d
      → (run_actions terminal
          (undo_actions entries)
          e
          (run_actions terminal (apply_actions entries) e' d).0).0
        ≡ d
  unfolding undo_actions apply_actions reversed run_actions IsUndone
  undo-apply [] e e' d undone = refl
  undo-apply (entry ∷ entries) e e' d (here, rest) =
      let applied = run_action terminal entry.apply d in
      let d' =
        (run_actions terminal (apply_actions entries) (first_error e' applied.1) applied.0).0 in
      ap (λ actions. (run_actions terminal actions e d').0)
        (map_undo-append (reversed entries) (entry ∷ []))
      ∙ run_actions-append (undo_actions entries) (entry.undo ∷ []) e d'
      ∙ ap (λ now. (run_action terminal entry.undo now).0)
          (undo-apply entries e (first_error e' applied.1) applied.0 rest)
      ∙ here

  restore_state-apply :
      (entries : List LedgerEntry) (e : Option E) (d : D)
      → IsUndone entries d
      → (terminal.flush d).0 ≡ d
      → (restore_state terminal entries (run_actions terminal (apply_actions entries) e d).0).0 ≡ d
  unfolding restore_state
  restore_state-apply entries e d undone quiet =
      ap (λ now. (terminal.flush now).0) (undo-apply entries none e d undone) ∙ quiet

  -- Entering a session that is outside and leaving it brings the device back to where it was,
  -- whatever errors its calls return, if each undo action takes back its apply action where the
  -- apply actions, one after the other, take the device, and a flush leaves its state alone.
  pub leave-enter :
      (s : TerminalSession D)
      → s.entered ≡ false
      → IsUndone s.ledger s.device
      → (terminal.flush s.device).0 ≡ s.device
      → (leave terminal (enter terminal s).0).0.device ≡ s.device
  unfolding leave enter
  leave-enter s out undone quiet =
      ground (arith, restore_state-apply s.ledger none s.device undone quiet)

-- A restore handle that runs between enter and leave restores, and leave then touches nothing.
pub leave-handle_restore :
    {D E : Type 0} (terminal : TerminalDevice D E) (emergency : Bytes → D → D)
    (s : TerminalSession D) (core : RestoreCore)
    → core.armed ≡ true
    → ((handle_restore emergency s.device core).2 ≡ true)
      × ((leave terminal (after_restore emergency s core)).0.device
          ≡ emergency (read_current core.blob) s.device)
unfolding leave handle_restore
leave-handle_restore terminal emergency s core armed = ground arith

-- A restore handle that runs after leave does nothing.
pub handle_restore-leave :
    {D E : Type 0} (terminal : TerminalDevice D E) (emergency : Bytes → D → D)
    (s : TerminalSession D) (core : RestoreCore) (d : D)
    → s.entered ≡ true
    → (leave terminal s).0.restore ≡ some core
    → handle_restore emergency d core ≡ (d, core, false)
unfolding leave handle_restore
handle_restore-leave terminal emergency s core d inside e = ground arith

-- Publishing makes the new bytes current and leaves the buffer that was current as it was.
pub read_current-publish :
    (b : DoubleBuffered) (bytes : Bytes)
    → b.active ≤ 1
    → (read_current (publish b bytes) ≡ bytes)
      × (buffer_at (publish b bytes) b.active ≡ read_current b)
unfolding read_current publish
read_current-publish b bytes bound = ground arith
