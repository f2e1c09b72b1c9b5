-- ===== src/Commands/RoundTrip.antt =====
-- Commands read back from their bytes: the cursor position (src/commands/cursor.rs) and the colours
-- (src/commands/style.rs).
use qwertty.Prelude.{
  ℕ, ◌+◌, ◌-◌, ◌^◌, ◌≤◌, ◌<◌, ◌≡◌, refl, ap, ◌∙◌, Bool, true, false, ◌&&◌, Option, none, some, List,
  [], ◌∷◌, ◌++◌, append_assoc, Bytes, all, length, ltb, ◌==◌, if◌then◌else◌, arith, decimal,
}
use qwertty.Commands.{Command, encode, csi, ProtocolPosition}
use qwertty.Commands.Cursor.{move_to}
use qwertty.Commands.Numbered.{join_params, numbered_token, run_buffer-numbered_token}
use qwertty.Commands.Style.{
  Color, black, red, green, yellow, blue, magenta, cyan, white, bright_black, bright_red,
  bright_green, bright_yellow, bright_blue, bright_magenta, bright_cyan, bright_white, indexed, rgb,
  named_offset, push_params, extended_params, foreground, background,
}
use qwertty.Input.Characters.{encode_utf8}
use qwertty.Syntax.Classes.{is_final_byte, within}
use qwertty.Syntax.Parser.{push_tokens, run_buffer}

-- The bytes of `CSI row ; column H` become one token with the row and the column.
pub run_buffer-move_to :
    (cap : ℕ) (position : ProtocolPosition)
    → 21 ≤ cap
    → position.row < 2 ^ 16
    → position.column < 2 ^ 16
    → (rest : Bytes)
    → run_buffer cap (encode (move_to position) [] ++ rest)
      ≡ push_tokens
          (numbered_token position.row (position.column ∷ []) b'H' ∷ [])
          (run_buffer cap rest)
unfolding move_to csi encode_utf8 join_params is_final_byte
run_buffer-move_to cap position room r c rest =
    run_buffer-numbered_token cap position.row (position.column ∷ []) b'H' (omega arith)
      (ground arith) refl refl (omega arith) rest

-- How a terminal reads SGR numbers that set a colour of the text or of the background: whether it is
-- the foreground, and the colour.
unfoldable pub named_color : ℕ → Color
named_color n =
    if n == 0
    then black
    else if n == 1
    then red
    else if n == 2
    then green
    else if n == 3
    then yellow
    else if n == 4
    then blue
    else if n == 5
    then magenta
    else if n == 6
    then cyan
    else white

unfoldable pub bright_color : ℕ → Color
bright_color n =
    if n == 0
    then bright_black
    else if n == 1
    then bright_red
    else if n == 2
    then bright_green
    else if n == 3
    then bright_yellow
    else if n == 4
    then bright_blue
    else if n == 5
    then bright_magenta
    else if n == 6
    then bright_cyan
    else bright_white

-- The layer that an extended colour is for: 38 for the foreground, 48 for the background.
unfoldable pub read_selector : ℕ → Color → Option (Bool × Color)
read_selector n color =
    if n == 38 then some (true, color) else if n == 48 then some (false, color) else none

unfoldable pub read_color : ℕ → List ℕ → Option (Bool × Color)
read_color n [] =
    if within 30 37 n
    then some (true, named_color (n - 30))
    else if within 40 47 n
    then some (false, named_color (n - 40))
    else if within 90 97 n
    then some (true, bright_color (n - 90))
    else if within 100 107 n
    then some (false, bright_color (n - 100))
    else none
read_color n (k ∷ i ∷ []) = if k == 5 then read_selector n (indexed i) else none
read_color n (k ∷ r ∷ g ∷ b ∷ []) = if k == 2 then read_selector n (rgb r g b) else none
read_color n _ = none

-- A colour whose components are bytes.
unfoldable pub is_color : Color → Bool
is_color (indexed i) = ltb i 256
is_color (rgb r g b) = ltb r 256 && ltb g 256 && ltb b 256
is_color _ = true

-- The numbers that `push_params` writes.
unfoldable pub color_numbers : ℕ → ℕ → ℕ → Color → ℕ × List ℕ
unfolding named_offset
color_numbers standard bright extended (indexed i) = (extended, 5 ∷ i ∷ [])
color_numbers standard bright extended (rgb r g b) = (extended, 2 ∷ r ∷ g ∷ b ∷ [])
color_numbers standard bright extended color = elim (named_offset color) [
  | some offset ↦ ((if ltb offset 8 then standard + offset else bright + (offset - 8)), [])
  | none ↦ (0, [])
]

push_params-color_numbers :
    (standard bright extended : ℕ) (color : Color)
    → push_params color standard bright extended
      ≡ join_params
          (color_numbers standard bright extended color).0
          (color_numbers standard bright extended color).1
unfolding push_params color_numbers named_offset extended_params join_params decimal
push_params-color_numbers standard bright extended (indexed i) = simp append_assoc
push_params-color_numbers standard bright extended (rgb r g b) = simp append_assoc
push_params-color_numbers standard bright extended _ = refl

-- The command of a layer: the foreground for `true`.
abbrev pub colored : Bool → Color → Command
colored true color = foreground color
colored false color = background color

abbrev layer_numbers : Bool → Color → ℕ × List ℕ
layer_numbers true color = color_numbers 30 90 38 color
layer_numbers false color = color_numbers 40 100 48 color

colored-layer_numbers :
    (layer : Bool) (color : Color)
    → colored layer color
      ≡ csi (join_params (layer_numbers layer color).0 (layer_numbers layer color).1) b'm'
unfolding foreground background
colored-layer_numbers true color = ap (λ p. csi p b'm') (push_params-color_numbers 30 90 38 color)
colored-layer_numbers false color = ap (λ p. csi p b'm') (push_params-color_numbers 40 100 48 color)

read_color-layer_numbers :
    (layer : Bool) (color : Color)
    → read_color (layer_numbers layer color).0 (layer_numbers layer color).1 ≡ some (layer, color)
unfolding read_color read_selector color_numbers named_color bright_color named_offset
read_color-layer_numbers true (indexed i) = refl
read_color-layer_numbers true (rgb r g b) = refl
read_color-layer_numbers true _ = refl
read_color-layer_numbers false (indexed i) = refl
read_color-layer_numbers false (rgb r g b) = refl
read_color-layer_numbers false _ = refl

layer_numbers-small :
    (layer : Bool) (color : Color)
    → is_color color ≡ true
    → (length (layer_numbers layer color).1 ≤ 4)
      × (all (λ n. ltb n (2 ^ 32)) ((layer_numbers layer color).0 ∷ (layer_numbers layer color).1)
          ≡ true)
unfolding color_numbers is_color named_offset
layer_numbers-small true (indexed i) h = (omega arith, ground arith)
layer_numbers-small true (rgb r g b) h = (omega arith, ground arith)
layer_numbers-small true _ h = (omega arith, refl)
layer_numbers-small false (indexed i) h = (omega arith, ground arith)
layer_numbers-small false (rgb r g b) h = (omega arith, ground arith)
layer_numbers-small false _ h = (omega arith, refl)

-- The bytes of foreground and background of a colour, whose components are bytes, become one CSI
-- token with the final byte m, whose numbers read as that colour of that layer, 38 being the selector
-- of the foreground and 48 that of the background; what is written behind is parsed as if it stood
-- alone, at any cap of at least 54 bytes.
pub read_color-colored :
    (cap : ℕ) (layer : Bool) (color : Color)
    → 54 ≤ cap
    → is_color color ≡ true
    → (rest : Bytes)
    → (n : ℕ) × (ks : List ℕ) × (run_buffer cap (encode (colored layer color) [] ++ rest)
        ≡ push_tokens (numbered_token n ks b'm' ∷ []) (run_buffer cap rest))
      × (read_color n ks ≡ some (layer, color))
unfolding csi encode_utf8 is_final_byte
read_color-colored cap layer color room valid rest =
    let n = (layer_numbers layer color).0 in
    let ks = (layer_numbers layer color).1 in
    let (few, small) = layer_numbers-small layer color valid in
    (
      n,
      ks,
      ap (λ command. run_buffer cap (encode command [] ++ rest)) (colored-layer_numbers layer color)
          ∙ run_buffer-numbered_token cap n ks b'm' (omega arith) small refl refl (omega arith)
              rest,
      read_color-layer_numbers layer color,
    )
