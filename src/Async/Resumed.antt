-- ===== src/Async/Resumed.antt =====
-- Suspending and resuming (src/tokio_session.rs): whether the session is entered afterwards, and with
-- what ledger.
use qwertty.Async.Suspended.{
  retry_or, reenter, reenter_with_retry, resume_reenter_retries, stopped_by, suspend,
}
use qwertty.Prelude.{
  ℕ, zero, suc, ◌-◌, arith, ◌≡◌, refl, ◌∙◌, Bool, true, false, Option, none, some, List,
}
use qwertty.Session.{TerminalDevice, TerminalSession, RestoreCore, arm, refresh_blob, enter, leave}
use qwertty.Session.Ledger.{LedgerEntry}

module _ {D E : Type 0} (terminal : TerminalDevice D E) where
  leave-state :
      (s : TerminalSession D)
      → ((leave terminal s).0.entered ≡ false) × ((leave terminal s).0.ledger ≡ s.ledger)
  unfolding leave
  leave-state s = ground arith

  -- Armed, if there is a restore handle.
  abbrev pub is_armed : Option RestoreCore → Bool
  is_armed none = true
  is_armed (some core) = core.armed

  arm-is_armed : (restore : Option RestoreCore) → is_armed (arm restore) ≡ true
  arm-is_armed none = refl
  arm-is_armed (some core) = refl

  enter-state :
      (s : TerminalSession D)
      → s.entered ≡ false
      → ((enter terminal s).0.entered ≡ true)
        × ((enter terminal s).0.ledger ≡ s.ledger)
        × (is_armed (enter terminal s).0.restore ≡ true)
  unfolding enter
  enter-state s out = rw out (refl, refl, arm-is_armed (refresh_blob s.ledger s.restore))

  -- Without an error the session is entered and its handle armed, with one it is outside; the ledger
  -- is as it was.
  abbrev pub Resumed : List LedgerEntry → TerminalSession D × Option E → Type 0
  Resumed ledger (s, none) = (s.entered ≡ true) × (is_armed s.restore ≡ true) × (s.ledger ≡ ledger)
  Resumed ledger (s, some error) = (s.entered ≡ false) × (s.ledger ≡ ledger)

  retry-Resumed :
      (ledger : List LedgerEntry) (entered : TerminalSession D × Option E)
      (next : TerminalSession D → E → TerminalSession D × Option E)
      → entered.0.entered ≡ true
      → entered.0.ledger ≡ ledger
      → is_armed entered.0.restore ≡ true
      → ((s : TerminalSession D) (error : E)
          → s.entered ≡ false
          → s.ledger ≡ ledger
          → Resumed ledger (next s error))
      → Resumed ledger (retry_or terminal entered next)
  retry-Resumed ledger (s, none) next inside same armed ih = (inside, armed, same)
  retry-Resumed ledger (s, some error) next inside same armed ih =
      let (out, kept) = leave-state s in ih (leave terminal s).0 error out (kept ∙ same)

  reenter-Resumed :
      (attempts : ℕ) (s : TerminalSession D) (error : E) (ledger : List LedgerEntry)
      → s.entered ≡ false
      → s.ledger ≡ ledger
      → Resumed ledger (reenter terminal attempts s error)
  unfolding reenter
  reenter-Resumed zero s error ledger out same = (out, same)
  reenter-Resumed (suc attempts) s error ledger out same =
      let (inside, kept, armed) = enter-state s out in
      retry-Resumed ledger (enter terminal s) (reenter terminal attempts) inside (kept ∙ same) armed
        (λ s1 error1 out1 same1. reenter-Resumed attempts s1 error1 ledger out1 same1)

  -- Coming back after suspend, whatever errors the device and the stop signal gave: if
  -- reenter_with_retry succeeds the session is entered and its restore handle armed, and if it fails
  -- the session is outside; in both cases the ledger is that from before the suspend.
  pub reenter_with_retry-suspend :
      (stop_signal : Option E) (s : TerminalSession D)
      → Resumed s.ledger (reenter_with_retry terminal (suspend terminal stop_signal s).0)
  unfolding reenter_with_retry suspend
  reenter_with_retry-suspend stop_signal s =
      let (out, kept) = leave-state s in
      let (gone, same) = stopped-state (leave terminal s) out kept in
      let s1 = (stopped_by terminal stop_signal (leave terminal s)).0 in
      let (inside, kept1, armed) = enter-state s1 gone in
      retry-Resumed s.ledger (enter terminal s1) (reenter terminal (resume_reenter_retries - 1))
        inside (kept1 ∙ same) armed
        (λ s2 error out2 same2.
          reenter-Resumed (resume_reenter_retries - 1) s2 error s.ledger out2 same2)
    where
      stopped-state :
          (left : TerminalSession D × Option E)
          → left.0.entered ≡ false
          → left.0.ledger ≡ s.ledger
          → ((stopped_by terminal stop_signal left).0.entered ≡ false)
            × ((stopped_by terminal stop_signal left).0.ledger ≡ s.ledger)
      stopped-state (d, none) out kept = (out, kept)
      stopped-state (d, some error) out kept = (out, kept)
