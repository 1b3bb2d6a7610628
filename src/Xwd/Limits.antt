-- ===== src/Xwd/Limits.antt =====
-- The bounds that `get_xwd_data` promises to its callers.
use sanzu.Prelude.{
  ℕ, String, ap₂, ◌∙◌, ltb→lt, ◌+◌, ◌*◌, ◌≤◌, ◌<◌, ◌≡◌, ◌⊎◌, le→leb, refl, ◌&&◌, List, none, some,
  length, take, drop, length-take, length-drop, ltb, leb, if◌then◌else◌, if-cases, arith,
  Option-cases, inl, inr,
}
use native.Mathlib.Nat.{le_trans, mul-le-mul}
use sanzu.Outcome.{Outcome, ok, err, panic}
use sanzu.Xwd.{
  Header, Image, slice, read_header, strange, source, get_xwd_data, max_header_size, max_ncolors,
  max_window_width, max_window_height, max_bytes_per_line,
}

-- The header keeps the limits.
record Limited (h : Header) : Type 0 where
  header_size : h.header_size ≤ max_header_size
  ncolors : h.ncolors ≤ max_ncolors
  bytes_per_line : h.bytes_per_line ≤ max_bytes_per_line
  window_x : h.window_x ≤ max_window_width
  window_y : h.window_y ≤ max_window_height

-- Some field is over its limit.
abbrev pub TooLarge : Header → Type 0
TooLarge h =
    (max_header_size < h.header_size)
    ⊎ (max_ncolors < h.ncolors)
    ⊎ (max_bytes_per_line < h.bytes_per_line)
    ⊎ (max_window_width < h.window_x)
    ⊎ (max_window_height < h.window_y)

strange-none : (h : Header) → strange h ≡ none → Limited h
unfolding strange
strange-none h e = record {
  header_size = ground (arith, e);
  ncolors = ground (arith, e);
  bytes_per_line = ground (arith, e);
  window_x = ground (arith, e);
  window_y = ground (arith, e);
}

strange-some : (h : Header) (why : String) → strange h ≡ some why → TooLarge h
unfolding strange
strange-some h why e = ground (arith, e)

-- Where the pixels begin, and their number.
abbrev pub begins : Header → ℕ
begins h = h.header_size + h.ncolors * 12

abbrev pub size : Header → ℕ
size h = h.bytes_per_line * h.window_y

size-le : (h : Header) → Limited h → size h ≤ 268435456
size-le h l = le_trans (mul-le-mul l.bytes_per_line l.window_y) (omega arith)

image : Header → List ℕ → Image
image h pixels = record {
  pixels = pixels;
  width = h.window_x;
  height = h.window_y;
  bytes_per_line = h.bytes_per_line;
}

slice-eq :
    (h : Header) (offset n : ℕ) (bytes : List ℕ)
    → slice h offset (offset + n) bytes ≡ (
        if leb (offset + n) (length bytes)
        then ok (image h (take n (drop offset bytes)))
        else panic "Cannot get source")
unfolding slice image
slice-eq h offset n bytes =
    ap₂
      (λ b k.
        if b && leb (offset + n) (length bytes)
        then ok (image h (take k (drop offset bytes)))
        else panic "Cannot get source")
      (le→leb offset (offset + n) (omega arith)) (omega arith)

-- Under the limits nothing wraps.
source-eq :
    (h : Header) (bytes : List ℕ)
    → Limited h
    → source h bytes ≡ (
        if leb (begins h + size h) (length bytes)
        then ok (image h (take (size h) (drop (begins h) bytes)))
        else panic "Cannot get source")
unfolding source
source-eq h bytes l =
    ap₂ (λ offset last. slice h offset last bytes) (omega (arith, l.header_size, l.ncolors))
      (omega (arith, l.header_size, l.ncolors, size-le h l))
    ∙ slice-eq h (begins h) (size h) bytes

-- What a call can come to, for a file of these bytes with this header.
abbrev pub Within : Header → List ℕ → Outcome Image → Type 0
Within h bytes (ok i) =
    (i.width ≤ max_window_width)
    × (i.height ≤ max_window_height)
    × (i.bytes_per_line ≤ max_bytes_per_line)
    × (length i.pixels ≡ i.bytes_per_line * i.height)
    × (i.pixels ≡ take (size h) (drop (begins h) bytes))
Within h bytes (err why) = TooLarge h
Within h bytes (panic why) = (length bytes < 256) ⊎ (length bytes < begins h + size h)

source-Within : (h : Header) (bytes : List ℕ) → Limited h → Within h bytes (source h bytes)
unfolding image
source-Within h bytes l = rw (source-eq h bytes l) (
    if-cases (Within h bytes) (leb (begins h + size h) (length bytes)) _ _
      (λ long. (
        l.window_x,
        l.window_y,
        l.bytes_per_line,
        ground (
          arith,
          long,
          length-take (size h) (drop (begins h) bytes),
          length-drop (begins h) bytes,
        ),
        refl,
      ))
      (λ short. inr (ground (arith, short))))

-- The image that `get_xwd_data` finds has at most 8192 lines of at most 32768 bytes and is at most
-- 8192 wide; its pixels are exactly its lines, read where the header says. There is an error only
-- if a field of the header is over its limit, and a panic only if the file is shorter than its header,
-- or than the header says.
pub get_xwd_data-Within :
    (read_u32 : List ℕ → ℕ) (bytes : List ℕ)
    → Within (read_header read_u32 (take 256 bytes)) bytes (get_xwd_data read_u32 bytes)
unfolding get_xwd_data
get_xwd_data-Within read_u32 bytes =
    let h = read_header read_u32 (take 256 bytes) in
    if-cases (Within h bytes) (ltb (length bytes) 256) _ _
      (λ short. inl (ltb→lt (length bytes) 256 short))
      (λ long. elim (Option-cases (strange h)) [
        | inl fine ↦ rw (fine) (source-Within h bytes (strange-none h fine))
        | inr (why, e) ↦ rw (e) (strange-some h why e)
      ])
