-- ===== src/Osd.antt =====
-- sanzu/src/osd.rs: the drawing of a text on the pixels of an image, four bytes each, of which the
-- last is left alone. What embedded_graphics draws for the letters is a parameter.
pub mod Drawn
use sanzu.Prelude.{
  ℕ, zero, suc, ◌+◌, ◌-◌, ◌*◌, ◌%◌, ◌^◌, Bool, true, false, ◌&&◌, ◌||◌, List, [], ◌∷◌, length, set,
  ltb, leb, if◌then◌else◌,
}
use sanzu.Prelude.Int.{ℤ, pos, negsuc, ◌-ℤ◌}
use sanzu.Buffer.{put_byte}
use sanzu.Outcome.{Outcome, ok, panic, Io, pure, ◌>>=◌, ◌>>◌}

pub record Rgb : Type 0 where
  pub r : ℕ
  pub g : ℕ
  pub b : ℕ

pub record Pixel : Type 0 where
  pub x : ℤ
  pub y : ℤ
  pub color : Rgb

pub record Rectangle : Type 0 where
  pub x : ℤ
  pub y : ℤ
  pub width : ℕ
  pub height : ℕ

abbrev pub black : Rgb
black = record { r = 0; g = 0; b = 0 }

unfoldable pub put_color : ℕ → Rgb → Io (List ℕ) (Unit {0})
put_color index color = do
  put_byte index color.r
  put_byte (index + 1) color.g
  put_byte (index + 2) color.b

-- `((y * self.width + x) * 4) as usize`, on `u32`.
abbrev pub index_of : (width x y : ℕ) → ℕ
index_of width x y = (y * width + x) * 4 % 2 ^ 32

-- A display of `width` and `height`; its buffer is the state.
module _ (width height : ℕ) where
  unfoldable pub draw_at : (x y : ℕ) → Rgb → Io (List ℕ) (Unit {0})
  draw_at x y color =
      if ltb x width && ltb y height then put_color (index_of width x y) color else pure tt

  unfoldable pub draw_pixel : ℤ → ℤ → Rgb → Io (List ℕ) (Unit {0})
  unfolding draw_at
  draw_pixel (pos x) (pos y) color = draw_at x y color
  draw_pixel (pos x) (negsuc y) color = pure tt
  draw_pixel (negsuc x) y color = pure tt

  unfoldable pub draw_iter : List Pixel → Io (List ℕ) (Unit {0})
  draw_iter [] = pure tt
  draw_iter (p ∷ pixels) = do draw_pixel p.x p.y p.color; draw_iter pixels

  -- `for _ in 0..max_width`, and the rows from `j` on.
  unfoldable pub fill_row : ℕ → (index : ℕ) → Rgb → Io (List ℕ) (Unit {0})
  fill_row zero index color = pure tt
  fill_row (suc n) index color = do put_color index color; fill_row n (index + 4) color

  unfoldable pub fill_rows : ℕ → (x j max_width : ℕ) → Rgb → Io (List ℕ) (Unit {0})
  fill_rows zero x j max_width color = pure tt
  fill_rows (suc n) x j max_width color = do
    fill_row max_width (index_of width x j) color
    fill_rows n x (j + 1) max_width color

  -- `if size > remaining`
  abbrev pub at_most : ℕ → ℕ → ℕ
  at_most remaining size = if ltb remaining size then remaining else size

  unfoldable pub fill_at : (x y : ℕ) (rect_width rect_height : ℕ) → Rgb → Io (List ℕ) (Unit {0})
  fill_at x y rect_width rect_height color =
      if leb width x || leb height y
      then pure tt
      else fill_rows (at_most (height - y) rect_height) x y (at_most (width - x) rect_width) color

  -- Nothing of a rectangle that begins left of the image, or above it.
  unfoldable pub fill_from : ℤ → ℤ → (rect_width rect_height : ℕ) → Rgb → Io (List ℕ) (Unit {0})
  unfolding fill_at
  fill_from (pos x) (pos y) rect_width rect_height color = fill_at x y rect_width rect_height color
  fill_from (pos x) (negsuc y) rect_width rect_height color = pure tt
  fill_from (negsuc x) y rect_width rect_height color = pure tt

  unfoldable pub fill_solid : Rectangle → Rgb → Io (List ℕ) (Unit {0})
  unfolding fill_from
  fill_solid area color = fill_from area.x area.y area.width area.height color

  -- A black rectangle behind the letters, thirteen pixels high and seven wide for each byte of the
  -- text; `text_pixels` is what the font draws.
  unfoldable pub draw_text :
      (text_pixels : List Pixel) (text_len : ℕ) (x y : ℤ) → Io (List ℕ) (Unit {0})
  draw_text text_pixels text_len x y = do
    fill_solid (record { x = x; y = y -ℤ pos 9; width = 7 * text_len % 2 ^ 32; height = 13 }) black
    draw_iter text_pixels
