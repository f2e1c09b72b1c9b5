-- ===== src/Input/Pasted.antt =====
-- Paste events (src/event/paste.rs): line breaks are normalized across segments.
pub mod Segments
use qwertty.Prelude.{
  ℕ, Bool, true, false, ◌&&◌, ◌||◌, not, [], ◌∷◌, Bytes, leb, ◌==◌, if◌then◌else◌,
}
use qwertty.Syntax.Token.{PasteSequence}

abbrev pub cr : ℕ
cr = 0x0d

abbrev pub lf : ℕ
lf = 0x0a

pub record PasteEvent : Type 0 where
  pub bytes : Bytes
  pub is_first : Bool
  pub is_final : Bool
  pub terminated : Bool

-- The loop of `normalize`: what it appends to `out`, and `pending_cr` behind it.
unfoldable pub normalize : Bytes → Bool → Bytes × Bool
normalize [] pending_cr = ([], pending_cr)
normalize (byte ∷ payload) pending_cr =
    let (out, carry) = normalize payload (byte == cr) in
    if pending_cr && byte == lf
    then (out, carry)
    else ((if byte == cr then lf else byte) ∷ out, carry)

-- `paste::decode`
unfoldable pub decode_paste : PasteSequence → Bool → PasteEvent × Bool
decode_paste paste pending_cr =
    let (normalized, carry) = normalize paste.payload pending_cr in
    (
      record {
        bytes = normalized;
        is_first = paste.is_first;
        is_final = paste.is_final;
        terminated = paste.terminated;
      },
      if paste.is_final then false else carry,
    )

-- The test of `contains_control` on one byte.
abbrev is_control : ℕ → Bool
is_control byte = (leb byte 0x1f && not (byte == lf)) || byte == 0x7f

-- `PasteEvent::contains_control`
unfoldable pub contains_control : Bytes → Bool
contains_control [] = false
contains_control (byte ∷ bytes) = is_control byte || contains_control bytes
