-- ===== src/Commands.antt =====
-- Commands (src/command.rs) and the builders of escape sequences (src/escape.rs).
pub mod Decimal
pub mod Cursor
pub mod Screen
pub mod Terminal
pub mod Style
pub mod Osc
pub mod Graphics
pub mod Buffer
pub mod Tokens
pub mod Numbered
pub mod Base64
pub mod Sanitized
pub mod RoundTrip
pub mod Payloads
use qwertty.Input.Characters.{encode_utf8}
use qwertty.Prelude.{ℕ, Bool, [], ◌∷◌, ◌++◌, Bytes, length, is_empty}
use qwertty.Syntax.Classes.{esc_byte}

pub data Command : Type 0 where
  raw : Bytes → Command

-- `Command::encode`
abbrev pub encode : Command → Bytes → Bytes
encode (raw bytes) out = out ++ bytes

-- `escape::csi`; the parameters are the bytes of the string, the final byte a character.
unfoldable pub csi : Bytes → ℕ → Command
csi parameters final_byte = raw (esc_byte ∷ b'[' ∷ parameters ++ encode_utf8 final_byte)

-- `escape::escape`
unfoldable pub escape : ℕ → Command
escape final_byte = raw (esc_byte ∷ final_byte ∷ [])

-- `escape::osc`
unfoldable pub osc : Bytes → Command
osc payload = raw (esc_byte ∷ b']' ∷ payload ++ esc_byte ∷ b'\\' ∷ [])

-- `escape::apc`
unfoldable pub apc : Bytes → Command
apc payload = raw (esc_byte ∷ b'_' ∷ payload ++ esc_byte ∷ b'\\' ∷ [])

pub record ProtocolPosition : Type 0 where
  pub row : ℕ
  pub column : ℕ

-- `ProtocolPosition::ORIGIN`
abbrev pub origin : ProtocolPosition
origin = record { row = 1; column = 1 }
