-- ===== src/Input/Characters.antt =====
-- The characters of a text run: `str::chars` on valid UTF-8, and `char::encode_utf8`.
pub mod Lossless
use qwertty.Prelude.{
  ℕ, zero, suc, ◌+◌, ◌-◌, ◌*◌, ◌/◌, ◌%◌, List, [], ◌∷◌, Bytes, ltb, if◌then◌else◌,
}

-- How many bytes follow a lead byte.
unfoldable pub follow_count : ℕ → ℕ
follow_count byte =
    if ltb byte 0x80 then 0 else if ltb byte 0xe0 then 1 else if ltb byte 0xf0 then 2 else 3

-- The bits of the character that a lead byte holds.
unfoldable pub lead_bits : ℕ → ℕ
lead_bits byte =
    if ltb byte 0x80
    then byte
    else if ltb byte 0xe0
    then byte - 0xc0
    else if ltb byte 0xf0
    then byte - 0xe0
    else byte - 0xf0

-- The characters of the bytes, where so many bytes of a character with these bits are to come.
unfoldable pub chars_from : ℕ → ℕ → Bytes → List ℕ
chars_from n bits [] = []
chars_from zero bits (byte ∷ bytes) =
    let rest = chars_from (follow_count byte) (lead_bits byte) bytes in
    if ltb byte 0x80 then byte ∷ rest else rest
chars_from (suc zero) bits (byte ∷ bytes) = (bits * 64 + (byte - 0x80)) ∷ chars_from 0 0 bytes
chars_from (suc (suc n)) bits (byte ∷ bytes) = chars_from (suc n) (bits * 64 + (byte - 0x80)) bytes

unfoldable pub chars : Bytes → List ℕ
chars bytes = chars_from 0 0 bytes

unfoldable pub encode_utf8 : ℕ → Bytes
encode_utf8 c =
    if ltb c 0x80
    then c ∷ []
    else if ltb c 0x800
    then (0xc0 + c / 64) ∷ (0x80 + c % 64) ∷ []
    else if ltb c 0x10000
    then (0xe0 + c / 4096) ∷ (0x80 + c / 64 % 64) ∷ (0x80 + c % 64) ∷ []
    else (0xf0 + c / 262144) ∷ (0x80 + c / 4096 % 64) ∷ (0x80 + c / 64 % 64) ∷ (0x80 + c % 64) ∷ []
