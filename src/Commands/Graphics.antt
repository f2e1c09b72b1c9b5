-- ===== src/Commands/Graphics.antt =====
-- Image commands (src/commands/graphics/kitty.rs and src/commands/graphics/iterm2.rs).
pub mod Chunks
pub mod Images
use qwertty.Commands.{Command, raw, encode, apc, osc}
use qwertty.Commands.Osc.{encode_base64, signed_decimal}
use qwertty.Prelude.{
  ℕ, zero, suc, Bool, true, false, Option, none, some, List, [], ◌∷◌, ◌++◌, Bytes, length, is_empty,
  take, drop, leb, if◌then◌else◌, codes, decimal,
}

-- `CHUNK_LIMIT`
abbrev pub chunk_limit : ℕ
chunk_limit = 4096

pub data Format : Type 0 where
  rgb_format rgba_format png_format : Format

unfoldable pub format_code : Format → ℕ
format_code rgb_format = 24
format_code rgba_format = 32
format_code png_format = 100

pub record ImageSize : Type 0 where
  pub width : ℕ
  pub height : ℕ

-- The z-index is a sign and a magnitude.
pub record Placement : Type 0 where
  pub id : Option ℕ
  pub columns : Option ℕ
  pub rows : Option ℕ
  pub z_index : Option (Bool × ℕ)

-- `Placement::new`
abbrev pub no_placement : Placement
no_placement = record { id = none; columns = none; rows = none; z_index = none }

-- `,key=value`, where there is a value
abbrev pub with_key : Bytes → Option ℕ → Bytes
with_key name none = []
with_key name (some value) = name ++ decimal value

abbrev pub with_signed_key : Bytes → Option (Bool × ℕ) → Bytes
with_signed_key name none = []
with_signed_key name (some value) = name ++ signed_decimal value

-- `Placement::push_keys`: what it writes.
unfoldable pub placement_keys : Placement → Bytes
placement_keys placement =
    with_key (codes ",p=") placement.id
    ++ with_key (codes ",c=") placement.columns
    ++ with_key (codes ",r=") placement.rows
    ++ with_signed_key (codes ",z=") placement.z_index

-- `chunks(n)` of a slice, with fuel for each byte.
unfoldable pub chunks_of : ℕ → ℕ → Bytes → List Bytes
chunks_of zero n payload = []
chunks_of (suc fuel) n [] = []
chunks_of (suc fuel) n (byte ∷ payload) =
    take n (byte ∷ payload) ∷ chunks_of fuel n (drop n (byte ∷ payload))

-- The body of a chunk: whether it is the first, and whether more follow.
unfoldable pub chunk_body : Bytes → Bool → Bool → Bytes → Bytes
chunk_body control first more chunk =
    b'G' ∷ (if first then control ++ b',' ∷ [] else [])
    ++ (if more then codes "m=1" else codes "m=0")
    ++ b';' ∷ chunk

-- The loop of `command`: the bytes of the sequences.
unfoldable pub chunk_commands : Bytes → Bool → List Bytes → Bytes
chunk_commands control first [] = []
chunk_commands control first (chunk ∷ []) = encode (apc (chunk_body control first false chunk)) []
chunk_commands control first (chunk ∷ next ∷ chunks) =
    encode (apc (chunk_body control first true chunk)) []
    ++ chunk_commands control false (next ∷ chunks)

-- `command` of kitty.rs
unfoldable pub graphics_command : Bytes → Bytes → Command
graphics_command control payload =
    if leb (length payload) chunk_limit
    then apc (b'G' ∷ control ++ b';' ∷ payload)
    else raw (chunk_commands control true (chunks_of (length payload) chunk_limit payload))

unfoldable pub transmit_and_display : Format → Bytes → Command
transmit_and_display format image =
    graphics_command (codes "a=T,f=" ++ decimal (format_code format)) (encode_base64 image)

abbrev size_keys : Option ImageSize → Bytes
size_keys none = []
size_keys (some size) = codes ",s=" ++ decimal size.width ++ codes ",v=" ++ decimal size.height

unfoldable pub transmit_control : ℕ → Format → Option ImageSize → Bytes → Bytes
transmit_control image_id format size medium =
    codes "a=t,i="
    ++ decimal image_id
    ++ codes ",f="
    ++ decimal (format_code format)
    ++ size_keys size
    ++ medium

unfoldable pub transmit : ℕ → Format → Option ImageSize → Bytes → Command
transmit image_id format size image =
    graphics_command (transmit_control image_id format size []) (encode_base64 image)

unfoldable pub place : ℕ → Command
place image_id = graphics_command (codes "a=p,i=" ++ decimal image_id) []

unfoldable pub place_with : ℕ → Placement → Command
place_with image_id placement =
    graphics_command (codes "a=p,i=" ++ decimal image_id ++ placement_keys placement) []

abbrev pub delete_all_images : Command
delete_all_images = graphics_command (codes "a=d") []

abbrev pub delete_all_images_and_data : Command
delete_all_images_and_data = graphics_command (codes "a=d,d=A") []

unfoldable pub delete_image : ℕ → Command
delete_image image_id = graphics_command (codes "a=d,d=i,i=" ++ decimal image_id) []

unfoldable pub delete_image_and_data : ℕ → Command
delete_image_and_data image_id = graphics_command (codes "a=d,d=I,i=" ++ decimal image_id) []

unfoldable pub delete_placement : ℕ → ℕ → Command
delete_placement image_id placement_id =
    graphics_command (codes "a=d,d=i,i=" ++ decimal image_id ++ codes ",p=" ++ decimal placement_id)
      []

unfoldable pub query_support : ℕ → Command
query_support image_id =
    graphics_command (codes "i=" ++ decimal image_id ++ codes ",s=1,v=1,a=q,t=d,f=24")
      (codes "AAAA")

unfoldable pub transmit_file : ℕ → Format → Option ImageSize → Bytes → Command
transmit_file image_id format size path =
    graphics_command (transmit_control image_id format size (codes ",t=f")) (encode_base64 path)

unfoldable pub transmit_temp_file : ℕ → Format → Option ImageSize → Bytes → Command
transmit_temp_file image_id format size path =
    graphics_command (transmit_control image_id format size (codes ",t=t")) (encode_base64 path)

unfoldable pub transmit_shared_memory : ℕ → Format → Option ImageSize → Bytes → Command
transmit_shared_memory image_id format size name =
    graphics_command (transmit_control image_id format size (codes ",t=s")) (encode_base64 name)

-- Of iterm2.rs.
pub data Dimension : Type 0 where
  cells pixels percent : ℕ → Dimension
  auto : Dimension

unfoldable pub dimension_value : Dimension → Bytes
dimension_value (cells n) = decimal n
dimension_value (pixels n) = decimal n ++ codes "px"
dimension_value (percent n) = decimal n ++ codes "%"
dimension_value auto = codes "auto"

unfoldable pub inline_image : Bytes → Command
inline_image image = osc (codes "1337;File=inline=1:" ++ encode_base64 image)

unfoldable pub inline_image_sized : Bytes → Dimension → Dimension → Command
inline_image_sized image width height = osc (
    codes "1337;File=inline=1;width="
    ++ dimension_value width
    ++ codes ";height="
    ++ dimension_value height
    ++ b':' ∷ encode_base64 image)
