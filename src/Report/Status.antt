-- ===== src/Report/Status.antt =====
-- The terminal status report of src/report.rs: exactly which control sequences carry which status.
use qwertty.Prelude.{◌≡◌, ◌↔◌, ap, true, some, [], ◌∷◌, bytes_eq, bytes_eq→≡, arith}
use qwertty.Report.{
  TerminalStatus, ready, malfunction, has_shape, parameter_bytes, terminal_status_report,
}
use qwertty.Syntax.Token.{ControlSequence}

status-of :
    (csi : ControlSequence) (status : TerminalStatus)
    → terminal_status_report csi ≡ some status
    → (has_shape csi.params b'n' [] [] ≡ true) × (csi.params.param_bytes ≡ parameter_bytes status)
unfolding terminal_status_report
status-of csi ready e = ground (
  arith,
  bytes_eq→≡ csi.params.param_bytes (b'0' ∷ []),
  bytes_eq→≡ csi.params.param_bytes (b'3' ∷ []),
)
status-of csi malfunction e = ground (
  arith,
  bytes_eq→≡ csi.params.param_bytes (b'0' ∷ []),
  bytes_eq→≡ csi.params.param_bytes (b'3' ∷ []),
)

of-status :
    (csi : ControlSequence) (status : TerminalStatus)
    → has_shape csi.params b'n' [] [] ≡ true
    → csi.params.param_bytes ≡ parameter_bytes status
    → terminal_status_report csi ≡ some status
unfolding terminal_status_report
of-status csi ready shape e = ground (arith, ap (λ bytes. bytes_eq bytes (b'0' ∷ [])) e)
of-status csi malfunction shape e =
    ground (
      arith,
      ap (λ bytes. bytes_eq bytes (b'0' ∷ [])) e,
      ap (λ bytes. bytes_eq bytes (b'3' ∷ [])) e,
    )

-- A control sequence is read as a status report exactly if it has the final byte `n`, no private
-- marker and no intermediate, and the status's own parameter bytes.
pub terminal_status_report_lem :
    (csi : ControlSequence) (status : TerminalStatus)
    → (terminal_status_report csi ≡ some status) ↔ (
        (has_shape csi.params b'n' [] [] ≡ true)
        × (csi.params.param_bytes ≡ parameter_bytes status))
terminal_status_report_lem csi status =
    (status-of csi status, λ (shape, bytes). of-status csi status shape bytes)
