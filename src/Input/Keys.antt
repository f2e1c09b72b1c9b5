-- ===== src/Input/Keys.antt =====
-- Key events (src/event/key.rs). A `char` is its scalar value, and a `TextPayload` the list of its
-- characters.
use qwertty.Prelude.{
  ℕ, Bool, ◌&&◌, ◌||◌, Option, none, some, List, [], ◌∷◌, ltb, leb, ◌==◌, if◌then◌else◌, bit_and,
  bit_or,
}

pub data Key : Type 0 where
  char : ℕ → Key
  up down right left enter tab backspace escape home end page_up page_down insert delete : Key
  function control : ℕ → Key

-- `Modifiers`, a bit set in a `u8`
pub record Modifiers : Type 0 where
  pub bits : ℕ

abbrev pub shift : Modifiers
shift = record { bits = 1 }

abbrev pub alt : Modifiers
alt = record { bits = 2 }

abbrev pub ctrl : Modifiers
ctrl = record { bits = 4 }

abbrev pub caps_lock : Modifiers
caps_lock = record { bits = 64 }

abbrev pub num_lock : Modifiers
num_lock = record { bits = 128 }

-- `Modifiers::empty`
abbrev pub no_modifiers : Modifiers
no_modifiers = record { bits = 0 }

-- `Modifiers::from_kitty_bits`
abbrev pub from_kitty_bits : ℕ → Modifiers
from_kitty_bits bits = record { bits = bits }

unfoldable pub contains : Modifiers → Modifiers → Bool
contains m other = bit_and m.bits other.bits == other.bits

-- `Modifiers::union`, and `insert` on a mutable set
unfoldable pub union : Modifiers → Modifiers → Modifiers
union m other = record { bits = bit_or m.bits other.bits }

-- `if test { modifiers.insert(other) }`
abbrev pub insert_if : Bool → Modifiers → Modifiers → Modifiers
insert_if test other m = if test then union m other else m

pub data KeyEventKind : Type 0 where
  press repeat release : KeyEventKind

pub record KeyEvent : Type 0 where
  pub key : Key
  pub modifiers : Modifiers
  pub kind : KeyEventKind
  pub text : Option (List ℕ)
  pub shifted_key : Option ℕ
  pub base_layout_key : Option ℕ

-- `KeyEvent::new`
abbrev pub plain_key : Key → KeyEvent
plain_key key = record {
  key = key;
  modifiers = no_modifiers;
  kind = press;
  text = none;
  shifted_key = none;
  base_layout_key = none;
}

abbrev pub with_text : ℕ → KeyEvent → KeyEvent
with_text character event = record event { text = some (character ∷ []) }

abbrev pub with_modifiers : Modifiers → KeyEventKind → KeyEvent → KeyEvent
with_modifiers modifiers kind event = record event { modifiers = modifiers; kind = kind }

-- `char::from_u32`
unfoldable pub char_from_u32 : ℕ → Option ℕ
char_from_u32 code =
    if ltb code 0xd800 || (leb 0xe000 code && leb code 0x10ffff) then some code else none

-- `char::REPLACEMENT_CHARACTER`
abbrev pub replacement_character : ℕ
replacement_character = 0xfffd
