-- ===== src/Xwd.antt =====
-- `get_xwd_data` of sanzu/src/utils.rs: the pixels in an image file of the X window dump format.
-- `BigEndian::read_u32` of the byteorder crate is the parameter `read_u32`.
pub mod Limits
use sanzu.Prelude.{
  ℕ, ◌+◌, ◌-◌, ◌*◌, ◌%◌, ◌^◌, String, ◌&&◌, List, [], ◌∷◌, Option, none, some, length, take, drop,
  ltb, leb, if◌then◌else◌,
}
use sanzu.Outcome.{Outcome, ok, err, panic}

abbrev pub max_header_size : ℕ
max_header_size = 256

abbrev pub max_ncolors : ℕ
max_ncolors = 256

abbrev pub max_window_width : ℕ
max_window_width = 8192

abbrev pub max_window_height : ℕ
max_window_height = 8192

abbrev pub max_bytes_per_line : ℕ
max_bytes_per_line = 32768

abbrev pub offset_ncolors : ℕ
offset_ncolors = 19

abbrev pub offset_bytes_per_line : ℕ
offset_bytes_per_line = 12

abbrev pub offset_window_width : ℕ
offset_window_width = 20

abbrev pub offset_window_height : ℕ
offset_window_height = 21

-- What is read of the header.
pub record Header : Type 0 where
  pub header_size : ℕ
  pub ncolors : ℕ
  pub bytes_per_line : ℕ
  pub window_x : ℕ
  pub window_y : ℕ

-- The pixels, the width and height of the window, and the bytes of a line.
pub record Image : Type 0 where
  pub pixels : List ℕ
  pub width : ℕ
  pub height : ℕ
  pub bytes_per_line : ℕ

-- The checks, in their order: the first that fails.
unfoldable pub strange : Header → Option String
strange h =
    if ltb max_header_size h.header_size
    then some "Strange header size"
    else if ltb max_ncolors h.ncolors
    then some "Strange ncolors"
    else if ltb max_bytes_per_line h.bytes_per_line
    then some "Strange bytes_per_line"
    else if ltb max_window_width h.window_x
    then some "Strange window_x"
    else if ltb max_window_height h.window_y
    then some "Strange window_y"
    else none

-- `data.get(offset..last)`, with the rest of the header.
unfoldable pub slice : Header → (offset last : ℕ) → List ℕ → Outcome Image
slice h offset last bytes =
    if leb offset last && leb last (length bytes)
    then ok (record {
      pixels = take (last - offset) (drop offset bytes);
      width = h.window_x;
      height = h.window_y;
      bytes_per_line = h.bytes_per_line;
    })
    else panic "Cannot get source"

-- `u32` arithmetic, which wraps.
unfoldable pub source : Header → List ℕ → Outcome Image
unfolding slice
source h bytes =
    let offset = (h.header_size + h.ncolors * 12 % 2 ^ 32) % 2 ^ 32 in
    let size = h.bytes_per_line * h.window_y % 2 ^ 32 in
    slice h offset ((offset + size) % 2 ^ 32) bytes

module _ (read_u32 : List ℕ → ℕ) where
  -- `&header[i * 4..(i + 1) * 4]`
  unfoldable field : ℕ → List ℕ → ℕ
  field i header = read_u32 (take 4 (drop (i * 4) header))

  unfoldable pub read_header : List ℕ → Header
  unfolding field
  read_header header = record {
    header_size = field 0 header;
    ncolors = field offset_ncolors header;
    bytes_per_line = field offset_bytes_per_line header;
    window_x = field offset_window_width header;
    window_y = field offset_window_height header;
  }

  unfoldable pub get_xwd_data : List ℕ → Outcome Image
  unfolding read_header source
  get_xwd_data bytes =
      if ltb (length bytes) 256
      then panic "Cannot get source header"
      else (let h = read_header (take 256 bytes) in
          elim (strange h) [ some why ↦ err (why ∷ []) | none ↦ source h bytes ])
