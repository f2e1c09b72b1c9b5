-- ===== src/Async/Suspended.antt =====
-- Suspending and resuming a session (src/tokio_session.rs), and the signals of the process.
use qwertty.Correlate.Matcher.{input}
use qwertty.Input.{resize}
use qwertty.Input.Reports.{TerminalSize}
use qwertty.Prelude.{ℕ, zero, suc, ◌-◌, Bool, false, not, Option, none, some, [], ◌∷◌, ◌++◌, ◌==◌}
use qwertty.Session.{TerminalDevice, TerminalSession, enter, leave}
use qwertty.Async.{TokioTerminalSession}

-- `RESUME_REENTER_RETRIES`
abbrev pub resume_reenter_retries : ℕ
resume_reenter_retries = 10

module _ {D E : Type 0} (terminal : TerminalDevice D E) where
  abbrev pub retry_or :
      TerminalSession D × Option E
      → (TerminalSession D → E → TerminalSession D × Option E)
      → TerminalSession D × Option E
  retry_or (s, none) next = (s, none)
  retry_or (s, some error) next = next ((leave terminal s).0) error

  -- The loop of `reenter_with_retry`, with the attempts left and the last error.
  unfoldable pub reenter : ℕ → TerminalSession D → E → TerminalSession D × Option E
  reenter zero s error = (s, some error)
  reenter (suc attempts) s error = retry_or (enter terminal s) (reenter attempts)

  -- `reenter_with_retry`: the first attempt, and those behind it.
  unfoldable pub reenter_with_retry : TerminalSession D → TerminalSession D × Option E
  reenter_with_retry s = retry_or (enter terminal s) (reenter (resume_reenter_retries - 1))

  -- `suspend`; `stop_signal` is what the stop signal's send comes to.
  abbrev pub stopped_by : Option E → TerminalSession D × Option E → TerminalSession D × Option E
  stopped_by stop_signal (s, some error) = (s, some error)
  stopped_by stop_signal (s, none) = (s, stop_signal)

  unfoldable pub suspend : Option E → TerminalSession D → TerminalSession D × Option E
  suspend stop_signal s = stopped_by stop_signal (leave terminal s)

-- `process_group_is_suspendable`: the group and the session id, if it is known.
unfoldable pub process_group_is_suspendable : ℕ → Option ℕ → Bool
process_group_is_suspendable pgrp none = false
process_group_is_suspendable pgrp (some sid) = not (pgrp == sid)

pub data ConsoleCtrlEvent : Type 0 where
  ctrl_c ctrl_break ctrl_close : ConsoleCtrlEvent

pub data TerminalSignal : Type 0 where
  suspend_signal continue_signal terminate interrupt : TerminalSignal

unfoldable pub map_ctrl_event : ConsoleCtrlEvent → TerminalSignal
map_ctrl_event ctrl_c = interrupt
map_ctrl_event ctrl_break = interrupt
map_ctrl_event ctrl_close = terminate

-- `queue_synthetic_resize` behind the size of the session
unfoldable pub queue_synthetic_resize : TerminalSize → TokioTerminalSession → TokioTerminalSession
queue_synthetic_resize size s = record s {
  pending = s.pending ++ input (resize (record { cells = size; pixels = none })) ∷ [];
}
