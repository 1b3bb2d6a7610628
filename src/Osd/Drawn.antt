-- ===== src/Osd/Drawn.antt =====
-- The drawing stays on the image.
use sanzu.Prelude.{
  ℕ, zero, suc, ◌+◌, ◌-◌, ◌*◌, ◌^◌, ◌%◌, ◌≤◌, ◌<◌, ◌≡◌, refl, sym, ◌∙◌, ◌&&◌, ◌||◌, List, [], ◌∷◌,
  length, set, get_elem?, length-set, get_elem?-set_ne, lt→ltb, ltb→lt, ltb, leb, if-cases,
  if◌then◌else◌, arith,
}
use mathlib.Core.Path.{subst}
use native.Mathlib.Nat.{mul-le-mul_left}
use sanzu.Prelude.Int.{ℤ, pos, negsuc, ◌-ℤ◌}
use sanzu.Outcome.{Outcome, ok, err, panic, Io, continue, pure, ◌>>◌}
use sanzu.Buffer.{put_byte}
use sanzu.Osd.{
  Rgb, Pixel, black, put_color, index_of, draw_at, draw_pixel, draw_iter, fill_row, fill_rows,
  at_most, fill_at, fill_from, fill_solid, draw_text,
}

-- As many bytes as before, and the fourth byte of each pixel as it was.
pub record Kept (before after : List ℕ) : Type 0 where
  pub length : length after ≡ length before
  pub fourth : (k : ℕ) → get_elem? after (4 * k + 3) ≡ get_elem? before (4 * k + 3)

-- A drawing that comes to its end.
pub record Draws (before : List ℕ) (drawn : Outcome (Unit {0}) × List ℕ) : Type 0 where
  pub returns : drawn.0 ≡ ok tt
  pub kept : Kept before drawn.1

Draws-nothing : (b : List ℕ) → Draws b (ok tt, b)
Draws-nothing b = record { returns = refl; kept = record { length = refl; fourth = λ k. refl } }

Draws-continue :
    (b : List ℕ) (r : Outcome (Unit {0})) (t : List ℕ) (f : Unit {0} → Io (List ℕ) (Unit {0}))
    → Draws b (r, t)
    → (Kept b t → Draws t (f tt t))
    → Draws b (continue r f t)
Draws-continue b (ok u) t f d k =
    let later = k d.kept in
    record {
      returns = later.returns;
      kept = record {
        length = later.kept.length ∙ d.kept.length;
        fourth = λ k. later.kept.fourth k ∙ d.kept.fourth k;
      };
    }
Draws-continue b (err chain) t f d k = ground (arith, d.returns)
Draws-continue b (panic why) t f d k = ground (arith, d.returns)

-- One drawing after another.
Draws-then :
    (b : List ℕ) (m n : Io (List ℕ) (Unit {0}))
    → Draws b (m b)
    → ((t : List ℕ) → length t ≡ length b → Draws t (n t))
    → Draws b ((do m; n) b)
Draws-then b m n d k = Draws-continue b (m b).0 (m b).1 (λ _. n) d (λ kept. k (m b).1 kept.length)

-- A byte that is not the fourth of its pixel.
put_byte-Draws :
    (index v m c : ℕ) (b : List ℕ)
    → index ≡ 4 * m + c
    → c < 3
    → index < length b
    → Draws b (put_byte index v b)
unfolding put_byte
put_byte-Draws index v m c b at small inside =
    subst (λ t. Draws b (if t then (ok tt, set b index v) else (panic "index out of bounds", b)))
      (sym (lt→ltb index (length b) inside))
      (record {
        returns = refl;
        kept = record {
          length = length-set b index v;
          fourth = λ k. get_elem?-set_ne b index (4 * k + 3) v (λ e. omega (arith, e));
        };
      })

put_color-Draws :
    (index m : ℕ) (color : Rgb) (b : List ℕ)
    → index ≡ 4 * m
    → 4 * m + 3 < length b
    → Draws b (put_color index color b)
unfolding put_color
put_color-Draws index m color b at inside =
    Draws-then b (put_byte index color.r)
      (do put_byte (index + 1) color.g; put_byte (index + 2) color.b)
      (put_byte-Draws index color.r m 0 b (omega arith) (omega arith) (omega arith))
      (λ t n.
        Draws-then t (put_byte (index + 1) color.g) (put_byte (index + 2) color.b)
          (put_byte-Draws (index + 1) color.g m 1 t (omega arith) (omega arith) (omega arith))
          (λ u n'.
            put_byte-Draws (index + 2) color.b m 2 u (omega arith) (omega arith) (omega arith)))

-- A pixel of the image, before `n` more of its row.
row_inside : (w h x y n : ℕ) → y < h → x + n ≤ w → y * w + x + n ≤ w * h
row_inside w h x y n low fits =
    let rows : w * suc y ≤ w * h = mul-le-mul_left w low in omega (arith, rows)

-- The bytes of the image are those of `b`, and can be counted in a `u32`.
abbrev pub Fits : (width height : ℕ) → List ℕ → Type 0
Fits width height b = (length b ≡ width * height * 4) × (width * height * 4 ≤ 2 ^ 32)

index_of-eq : (w h x y : ℕ) → x < w → y < h → w * h * 4 ≤ 2 ^ 32 → index_of w x y ≡ 4 * (y * w + x)
index_of-eq w h x y left low small =
    let inside = row_inside w h x y 1 low (omega arith) in omega (arith, inside)

module _ (w h : ℕ) where
  draw_at-Draws :
      (x y : ℕ) (color : Rgb) (b : List ℕ) → Fits w h b → Draws b (draw_at w h x y color b)
  unfolding draw_at
  draw_at-Draws x y color b fits =
      if-cases (λ m. Draws b (m b)) (ltb x w && ltb y h) (put_color (index_of w x y) color)
        (pure tt)
        (λ inside.
          let low = ltb→lt x w (ground (arith, inside)) in
          let high = ltb→lt y h (ground (arith, inside)) in
          let rows = row_inside w h x y 1 high (omega (arith, low)) in
          put_color-Draws (index_of w x y) (y * w + x) color b (index_of-eq w h x y low high fits.1)
            (omega (arith, rows, fits.0)))
        (λ outside. Draws-nothing b)

  draw_pixel-Draws :
      (x y : ℤ) (color : Rgb) (b : List ℕ) → Fits w h b → Draws b (draw_pixel w h x y color b)
  unfolding draw_pixel
  draw_pixel-Draws (pos x) (pos y) color b fits = draw_at-Draws x y color b fits
  draw_pixel-Draws (pos x) (negsuc y) color b fits = Draws-nothing b
  draw_pixel-Draws (negsuc x) y color b fits = Draws-nothing b

  draw_iter-Draws :
      (pixels : List Pixel) (b : List ℕ) → Fits w h b → Draws b (draw_iter w h pixels b)
  unfolding draw_iter
  draw_iter-Draws [] b fits = Draws-nothing b
  draw_iter-Draws (p ∷ pixels) b fits =
      Draws-then b (draw_pixel w h p.x p.y p.color) (draw_iter w h pixels)
        (draw_pixel-Draws p.x p.y p.color b fits)
        (λ t n. draw_iter-Draws pixels t (n ∙ fits.0, fits.1))

  fill_row-Draws :
      (n index m : ℕ) (color : Rgb) (b : List ℕ)
      → index ≡ 4 * m
      → 4 * (m + n) ≤ length b
      → Draws b (fill_row w h n index color b)
  unfolding fill_row
  fill_row-Draws zero index m color b at inside = Draws-nothing b
  fill_row-Draws (suc n) index m color b at inside =
      Draws-then b (put_color index color) (fill_row w h n (index + 4) color)
        (put_color-Draws index m color b at (omega arith))
        (λ t same. fill_row-Draws n (index + 4) (suc m) color t (omega arith) (omega arith))

  fill_rows-Draws :
      (n x j max_width : ℕ) (color : Rgb) (b : List ℕ)
      → Fits w h b
      → x < w
      → x + max_width ≤ w
      → j + n ≤ h
      → Draws b (fill_rows w h n x j max_width color b)
  unfolding fill_rows
  fill_rows-Draws zero x j max_width color b fits left wide high = Draws-nothing b
  fill_rows-Draws (suc n) x j max_width color b fits left wide high =
      Draws-then b (fill_row w h max_width (index_of w x j) color)
        (fill_rows w h n x (j + 1) max_width color)
        (fill_row-Draws max_width (index_of w x j) (j * w + x) color b
          (index_of-eq w h x j left (omega arith) fits.1)
          (let rows = row_inside w h x j max_width (omega arith) wide in
            omega (arith, rows, fits.0)))
        (λ t n'.
          fill_rows-Draws n x (j + 1) max_width color t (n' ∙ fits.0, fits.1) left wide
            (omega arith))

  fill_at-Draws :
      (x y rect_width rect_height : ℕ) (color : Rgb) (b : List ℕ)
      → Fits w h b
      → Draws b (fill_at w h x y rect_width rect_height color b)
  unfolding fill_at
  fill_at-Draws x y rect_width rect_height color b fits =
      if-cases (λ m. Draws b (m b)) (leb w x || leb h y) (pure tt)
        (fill_rows w h (at_most w h (h - y) rect_height) x y (at_most w h (w - x) rect_width) color)
        (λ outside. Draws-nothing b)
        (λ inside.
          fill_rows-Draws (at_most w h (h - y) rect_height) x y (at_most w h (w - x) rect_width)
            color b fits (ground (arith, inside)) (ground (arith, inside)) (ground (arith, inside)))

  fill_from-Draws :
      (x y : ℤ) (rect_width rect_height : ℕ) (color : Rgb) (b : List ℕ)
      → Fits w h b
      → Draws b (fill_from w h x y rect_width rect_height color b)
  unfolding fill_from
  fill_from-Draws (pos x) (pos y) rect_width rect_height color b fits =
      fill_at-Draws x y rect_width rect_height color b fits
  fill_from-Draws (pos x) (negsuc y) rect_width rect_height color b fits = Draws-nothing b
  fill_from-Draws (negsuc x) y rect_width rect_height color b fits = Draws-nothing b

  -- Drawing a text at any place, whatever pixels the font has for it, on a buffer of four bytes for
  -- each pixel of the display (no more than a `u32` counts), comes to its end without a panic: a
  -- buffer of the same size, in which the fourth byte of each pixel is as it was.
  pub draw_text-Draws :
      (text_pixels : List Pixel) (text_len : ℕ) (x y : ℤ) (b : List ℕ)
      → Fits w h b
      → Draws b (draw_text w h text_pixels text_len x y b)
  unfolding draw_text fill_solid
  draw_text-Draws text_pixels text_len x y b fits =
      Draws-then b
        (fill_solid w h
          (record { x = x; y = y -ℤ pos 9; width = 7 * text_len % 2 ^ 32; height = 13 }) black)
        (draw_iter w h text_pixels)
        (fill_from-Draws x (y -ℤ pos 9) (7 * text_len % 2 ^ 32) 13 black b fits)
        (λ t n. draw_iter-Draws text_pixels t (n ∙ fits.0, fits.1))
