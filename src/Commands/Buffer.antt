-- ===== src/Commands/Buffer.antt =====
-- `CommandBuffer` (src/command.rs).
use qwertty.Commands.{Command, encode}
use qwertty.Prelude.{ℕ, Bool, [], ◌++◌, Bytes, length, is_empty}

pub record CommandBuffer : Type 0 where
  pub bytes : Bytes

abbrev pub new : CommandBuffer
new = record { bytes = [] }

unfoldable pub command : CommandBuffer → Command → CommandBuffer
command buffer added = record { bytes = encode added buffer.bytes }

unfoldable pub append_bytes : CommandBuffer → Bytes → CommandBuffer
append_bytes buffer bytes = record { bytes = buffer.bytes ++ bytes }

-- `text`, on the bytes of the string
unfoldable pub append_text : CommandBuffer → Bytes → CommandBuffer
append_text buffer text = append_bytes buffer text

abbrev pub len : CommandBuffer → ℕ
len buffer = length buffer.bytes

unfoldable pub clear : CommandBuffer → CommandBuffer
clear buffer = record { bytes = [] }

-- `is_empty`
abbrev pub holds_none : CommandBuffer → Bool
holds_none buffer = is_empty buffer.bytes
