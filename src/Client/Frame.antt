-- ===== src/Client/Frame.antt =====
-- `put_frame` of sanzu/src/client_x11.rs: an image that is too big for one X request is put in bands.
pub mod Bands
use sanzu.Prelude.{
  ℕ, zero, suc, ◌+◌, ◌-◌, ◌*◌, ◌/◌, ◌%◌, ◌^◌, List, [], ◌∷◌, ◌++◌, Option, none, some, length, take,
  drop, ltb, ◌==◌, if◌then◌else◌,
}
use sanzu.Outcome.{Outcome, ok, err, panic, Io}

-- A request; the sizes and the position have sixteen bits.
pub record Put : Type 0 where
  pub width : ℕ
  pub lines : ℕ
  pub y : ℕ
  pub img : List ℕ

-- The requests that were made, and the number of those that the connection still takes.
pub record Pixmap : Type 0 where
  pub puts : List Put
  pub puts_left : ℕ

unfoldable pub put_image : Put → Io Pixmap (Unit {0})
put_image p s = elim s.puts_left [
  | zero ↦ (err ("Error in put_image" ∷ []), s)
  | suc n ↦ (ok tt, record { puts = s.puts ++ p ∷ []; puts_left = n })
]

abbrev pub put_image_overhead : ℕ
put_image_overhead = 28

-- What a request leads to, with what the later ones come to.
unfoldable pub then_bands :
    Outcome (Unit {0}) × Pixmap
    → Option (Outcome (Unit {0}) × Pixmap)
    → Option (Outcome (Unit {0}) × Pixmap)
then_bands (ok _, s) rest = rest
then_bands (err chain, s) rest = some (err chain, s)
then_bands (panic why, s) rest = some (panic why, s)

module _ (img : List ℕ) (width : ℕ) where
  -- The lines from `cur` on; a line has four bytes for each pixel.
  abbrev pub band : (cur lines : ℕ) → Put
  band cur lines = record {
    width = width % 2 ^ 16;
    lines = lines % 2 ^ 16;
    y = cur % 2 ^ 16;
    img = take (lines * width * 4) (drop (cur * width * 4) img);
  }

  -- `&img[..]`, which must not reach beyond the image, and the request.
  unfoldable pub put_band : (cur lines : ℕ) → Io Pixmap (Unit {0})
  unfolding put_image
  put_band cur lines s =
      if ltb (length img) ((cur + lines) * width * 4)
      then (panic "range end index out of range", s)
      else put_image (band cur lines) s

  abbrev pub lines_todo : (max_lines lines_rem : ℕ) → ℕ
  lines_todo max_lines lines_rem = if ltb max_lines lines_rem then max_lines else lines_rem

  -- `while lines_rem != 0`, on fuel, none if that runs out.
  unfoldable pub put_bands :
      (fuel max_lines lines_rem cur_line : ℕ) → Pixmap → Option (Outcome (Unit {0}) × Pixmap)
  unfolding put_band then_bands
  put_bands zero max_lines lines_rem cur_line s = if lines_rem == 0 then some (ok tt, s) else none
  put_bands (suc fuel) max_lines lines_rem cur_line s =
      let todo = lines_todo max_lines lines_rem in
      let put = put_band cur_line todo s in
      let rest = put_bands fuel max_lines (lines_rem - todo) (cur_line + todo) put.1 in
      if lines_rem == 0 then some (ok tt, s) else then_bands put rest

  -- The most lines of a band: the size of a request, rounded down to 64 KiB.
  abbrev pub most_lines : (max_request_size : ℕ) → ℕ
  most_lines max_request_size =
      let room = max_request_size - put_image_overhead in (room - room % 65536) / (4 * width)

  -- As many rounds as there are lines.
  unfoldable pub put_frame :
      (max_request_size height : ℕ) → Pixmap → Option (Outcome (Unit {0}) × Pixmap)
  unfolding put_bands
  put_frame max_request_size height s =
      if ltb (length img) (max_request_size - put_image_overhead)
      then some (
          put_image (record { width = width % 2 ^ 16; lines = height % 2 ^ 16; y = 0; img = img })
            s)
      else if width == 0
      then some (panic "attempt to divide by zero", s)
      else put_bands height (most_lines max_request_size) height 0 s
