-- ===== src/Flags.antt =====
-- Kitty keyboard flags and what was granted of them (src/session/kitty.rs).
use qwertty.Prelude.{ℕ, Bool, true, false, Option, none, some, ◌==◌, bit_and, bit_or}

-- `KittyKeyboardFlags`, a bit set in a `u8`
pub record KittyKeyboardFlags : Type 0 where
  pub bits : ℕ

abbrev pub disambiguate_escape_codes : KittyKeyboardFlags
disambiguate_escape_codes = record { bits = 1 }

abbrev pub report_event_types : KittyKeyboardFlags
report_event_types = record { bits = 2 }

abbrev pub report_alternate_keys : KittyKeyboardFlags
report_alternate_keys = record { bits = 4 }

abbrev pub report_all_keys_as_escape_codes : KittyKeyboardFlags
report_all_keys_as_escape_codes = record { bits = 8 }

abbrev pub report_associated_text : KittyKeyboardFlags
report_associated_text = record { bits = 16 }

abbrev pub no_flags : KittyKeyboardFlags
no_flags = record { bits = 0 }

unfoldable pub are_none : KittyKeyboardFlags → Bool
are_none flags = flags.bits == 0

unfoldable pub union_flags : KittyKeyboardFlags → KittyKeyboardFlags → KittyKeyboardFlags
union_flags flags other = record { bits = bit_or flags.bits other.bits }

unfoldable pub intersection : KittyKeyboardFlags → KittyKeyboardFlags → KittyKeyboardFlags
intersection flags other = record { bits = bit_and flags.bits other.bits }

unfoldable pub contains_flags : KittyKeyboardFlags → KittyKeyboardFlags → Bool
contains_flags flags other = bit_and flags.bits other.bits == other.bits

pub record KittyKeyboardGrant : Type 0 where
  pub requested : KittyKeyboardFlags
  pub granted : Option KittyKeyboardFlags

unfoldable pub is_unknown : KittyKeyboardGrant → Bool
is_unknown grant = elim grant.granted [ none ↦ true | some granted ↦ false ]

unfoldable pub granted_all_requested : KittyKeyboardGrant → Bool
granted_all_requested grant = elim grant.granted [
  | none ↦ false
  | some granted ↦ contains_flags granted grant.requested
]
