-- ===== src/Tests/Osd.antt =====
-- The results on sanzu/src/osd.rs on an image of three by two pixels.
use sanzu.Prelude.{◌≡◌, refl, List, [], ◌∷◌, replicate, arith}
use sanzu.Prelude.Int.{pos, negsuc, ◌-ℤ◌}
use sanzu.Outcome.{ok}
use sanzu.Buffer.{put_byte}
use sanzu.Osd.{Pixel, draw_text, fill_solid, fill_rows, fill_row, put_color, draw_iter, draw_pixel}
use sanzu.Osd.Drawn.{Draws, draw_text-Draws}

-- A letter of two pixels, of which one is outside.
abbrev letter : List Pixel
letter =
    record { x = pos 2; y = pos 1; color = record { r = 255; g = 255; b = 255 } }
    ∷ record { x = negsuc 0; y = pos 0; color = record { r = 255; g = 255; b = 255 } }
    ∷ []

draw_text-Draws_example :
    Draws (replicate 24 9) (draw_text 3 2 letter 1 (pos 1) (pos 9) (replicate 24 9))
draw_text-Draws_example =
    draw_text-Draws 3 2 letter 1 (pos 1) (pos 9) (replicate 24 9) (refl, omega arith)

-- The rectangle covers all but the first column.
drawn_letter : draw_text 3 2 letter 1 (pos 1) (pos 9) (replicate 24 9) ≡ (
  ok tt,
  9 ∷ 9 ∷ 9 ∷ 9 ∷ 0 ∷ 0 ∷ 0 ∷ 9 ∷ 0 ∷ 0 ∷ 0 ∷ 9 ∷ 9 ∷ 9 ∷ 9 ∷ 9 ∷ 0 ∷ 0 ∷ 0 ∷ 9 ∷ 255 ∷ 255 ∷ 255
      ∷ 9 ∷ [],
)
unfolding draw_text fill_solid ◌-ℤ◌ fill_rows fill_row put_color put_byte draw_iter draw_pixel
drawn_letter = refl
