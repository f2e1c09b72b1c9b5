-- ===== src/Policy.antt =====
-- The security policy and its gates (src/policy.rs).
use qwertty.Prelude.{Bool, true, false}

pub record Policy : Type 0 where
  pub clipboard_write : Bool
  pub clipboard_read : Bool
  pub notifications : Bool
  pub file_transfer : Bool
  pub mux_passthrough : Bool

-- `Policy::restricted`
abbrev pub restricted : Policy
restricted = record {
  clipboard_write = true;
  clipboard_read = false;
  notifications = false;
  file_transfer = false;
  mux_passthrough = false;
}

-- `Policy::interactive`
abbrev pub interactive : Policy
interactive = record restricted { notifications = true; mux_passthrough = true }

-- `Policy::trusted`
abbrev pub trusted : Policy
trusted = record {
  clipboard_write = true;
  clipboard_read = true;
  notifications = true;
  file_transfer = true;
  mux_passthrough = true;
}

pub data PolicyGate : Type 0 where
  clipboard_write clipboard_read notification file_transfer mux_passthrough : PolicyGate

-- `Policy::allows`
unfoldable pub allows : Policy → PolicyGate → Bool
allows policy clipboard_write = policy.clipboard_write
allows policy clipboard_read = policy.clipboard_read
allows policy notification = policy.notifications
allows policy file_transfer = policy.file_transfer
allows policy mux_passthrough = policy.mux_passthrough
