-- ===== src/Prelude/Literals.antt =====
-- String literals as bytes, and the decimal print of a number.
use Prim.Native.Char.{code}
use Prim.Native.Nat.{ℕ, zero, suc, ◌+◌, ◌/◌, ◌%◌}
use Prim.Native.String.{String}
use mathlib.Core.Bool.{true, false}
use mathlib.Core.List.{[], ◌∷◌, ◌++◌}
use qwertty.Prelude.Lists.{Bytes}
use qwertty.Prelude.Tests.{ltb}

-- The bytes of an ASCII literal.
abbrev pub codes : String → Bytes
codes String.[] = []
codes (String.◌∷◌ c s) = code c ∷ codes s

-- The digits of a number of at most `fuel` digits.
unfoldable pub digits : ℕ → ℕ → Bytes
digits zero n = []
digits (suc fuel) n = elim (ltb n 10) [
  | true ↦ (b'0' + n) ∷ []
  | false ↦ digits fuel (n / 10) ++ (b'0' + n % 10) ∷ []
]

-- `format!("{n}")` of an unsigned number; it has fewer digits than `n + 1`.
unfoldable pub decimal : ℕ → Bytes
unfolding digits
decimal n = digits (suc n) n
