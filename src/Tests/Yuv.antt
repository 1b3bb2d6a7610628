-- ===== src/Tests/Yuv.antt =====
-- The results on sanzu/src/yuv_rgb_rs.rs on an image of two rows of one pixel, and what the
-- conversions make of some colours.
use sanzu.Prelude.{ℕ, ◌≡◌, refl, List, [], ◌∷◌, some, replicate, length, get_elem?, arith}
use sanzu.Outcome.{ok, Ends}
use sanzu.Yuv.{
  YuvType, get_rgb_to_yuv_param, get_yuv_to_rgb_param, chroma, chroma4, sub16, to_rgb, y_byte,
  y_tmp,
}
use sanzu.Yuv.Planar.{
  Planes, rgba_to_yuv444_std, yuv444_to_rgba_std, rows_444, row_444, pixel_444, put_yuv, put_y,
  put_u, put_v, read_rgb,
}
use sanzu.Yuv.Planar.Converted.{Roomy}
use sanzu.Yuv.Planar.Restored.{Holds}
use sanzu.Yuv.Planar.Formula.{Pixel, rgba_to_yuv444_std-Pixel}
use sanzu.Yuv.Planar.Colours.{Coloured}
use sanzu.Yuv.Planar.Grey.{yuv444-grey}
use sanzu.Yuv.Exact.{quarter_level}
use sanzu.Yuv.Blocks.{rgba_to_yuv420_std, rgba_to_nv12_std, nv12_rgba_std, yuv420_to_rgba_std}
use sanzu.Yuv.Blocks.Sums.{Blocky}
use sanzu.Yuv.Blocks.Average.{rgba_to_yuv420_std-Average}
use sanzu.Yuv.Blocks.Shown.{Whole}
use sanzu.Yuv.Blocks.Colours.{yuv420_to_rgba_std-Coloured}
use sanzu.Yuv.Blocks.Interleaved.{pack}
use sanzu.Yuv.Blocks.Turns.{rgba_to_nv12_std-interleaved}
use sanzu.Buffer.{put_byte, get_byte}

-- A red pixel over a grey one, in rows of five bytes.
abbrev image : List ℕ
image = 255 ∷ 0 ∷ 0 ∷ 7 ∷ 7 ∷ 90 ∷ 90 ∷ 90 ∷ 7 ∷ 7 ∷ []

abbrev blank : Planes
blank = record { y = replicate 4 0; u = replicate 2 0; v = replicate 2 0 }

abbrev planes : Planes
planes = record { y = 76 ∷ 0 ∷ 90 ∷ 0 ∷ []; u = 85 ∷ 128 ∷ []; v = 228 ∷ 128 ∷ [] }

image_fits : (t : YuvType) → Roomy 1 5 2 1 1 (get_rgb_to_yuv_param t) image blank 2
image_fits t = record {
  rgba_wide = omega arith;
  y_wide = omega arith;
  u_wide = omega arith;
  v_wide = omega arith;
  rgba_high = omega arith;
  y_high = omega arith;
  u_high = omega arith;
  v_high = omega arith;
}

planes_fit : (t : YuvType) → Holds 1 2 2 1 1 5 (get_yuv_to_rgb_param t) planes (replicate 10 0)
planes_fit t = record {
  y_wide = omega arith;
  u_wide = omega arith;
  v_wide = omega arith;
  rgba_wide = omega arith;
  y_high = omega arith;
  u_high = omega arith;
  v_high = omega arith;
  rgba_high = omega arith;
}

rgba_to_yuv444_std-Pixel_example :
    Ends
      (λ _ t'.
        (length t'.y ≡ 4)
        × (length t'.u ≡ 2)
        × (length t'.v ≡ 2)
        × Pixel YuvType.itu_r709 90 90 90 (get_elem? t'.y 2) (get_elem? t'.u 1) (get_elem? t'.v 1))
      (rgba_to_yuv444_std 1 2 image 5 2 1 1 YuvType.itu_r709 blank)
rgba_to_yuv444_std-Pixel_example =
    rgba_to_yuv444_std-Pixel YuvType.itu_r709 1 2 5 2 1 1 image blank 1 0 (ground arith)
      (image_fits YuvType.itu_r709) (omega arith) (omega arith)

converted : rgba_to_yuv444_std 1 2 image 5 2 1 1 YuvType.itu_t871 blank ≡ (ok tt, planes)
unfolding rgba_to_yuv444_std rows_444 row_444 pixel_444 put_yuv put_y put_u put_v read_rgb put_byte
    get_byte
converted = refl

yuv444-grey_example :
    Ends
      (λ _ b'. (get_elem? b' 5 ≡ some 90) × (get_elem? b' 6 ≡ some 90) × (get_elem? b' 7 ≡ some 90))
      (yuv444_to_rgba_std 1 2 planes 2 1 1 5 YuvType.itu_t871 (replicate 10 0))
yuv444-grey_example =
    yuv444-grey 1 2 5 2 1 1 5 image (replicate 10 0) blank planes 1 0 90
      (image_fits YuvType.itu_t871) converted (planes_fit YuvType.itu_t871) (omega arith)
      (omega arith) (omega arith) refl refl refl

-- Two rows of two pixels, in rows of nine bytes.
abbrev square : List ℕ
square = 255 ∷ 0 ∷ 0 ∷ 7 ∷ 90 ∷ 90 ∷ 90 ∷ 7 ∷ 7 ∷ 0 ∷ 0 ∷ 255 ∷ 7 ∷ 10 ∷ 20 ∷ 30 ∷ 7 ∷ 7 ∷ []

abbrev halves : Planes
halves = record { y = replicate 4 0; u = 0 ∷ []; v = 0 ∷ [] }

square_fits : Blocky 1 1 9 2 1 1 square halves
square_fits = record {
  rgba_wide = omega arith;
  y_wide = omega arith;
  u_wide = omega arith;
  v_wide = omega arith;
  rgba_high = omega arith;
  y_high = omega arith;
  u_high = omega arith;
  v_high = omega arith;
}

-- Blue and red are 375 and 355 together in the block, and the luma 212; the last pixel has 18.
rgba_to_yuv420_std-Average_example :
    Ends
      (λ _ t.
        (length t.y ≡ 4)
        × (length t.u ≡ 1)
        × (length t.v ≡ 1)
        × (get_elem? t.y 3 ≡ some 18)
        × (get_elem? t.u 0 ≡ some (quarter_level 144 375 212))
        × (get_elem? t.v 0 ≡ some (quarter_level 144 355 212)))
      (rgba_to_yuv420_std 2 2 square 9 2 1 1 YuvType.itu_t871 halves)
rgba_to_yuv420_std-Average_example =
    rgba_to_yuv420_std-Average 2 2 9 2 1 1 square halves 1 1 (omega arith) (omega arith)
      (omega arith) (omega arith) (ground arith) square_fits (omega arith) (omega arith)

abbrev luma_and_chroma : Planes
luma_and_chroma = record { y = 76 ∷ 90 ∷ 29 ∷ 18 ∷ []; u = 151 ∷ []; v = 148 ∷ [] }

whole_fits :
    Whole 1 1 2 1 1 9 (get_yuv_to_rgb_param YuvType.itu_r601) luma_and_chroma (replicate 18 0)
whole_fits = record {
  rgba_wide = omega arith;
  y_wide = omega arith;
  u_wide = omega arith;
  v_wide = omega arith;
  rgba_high = omega arith;
  y_high = omega arith;
  u_high = omega arith;
  v_high = omega arith;
}

yuv420_to_rgba_std-Coloured_example :
    Ends
      (λ _ b'.
        (length b' ≡ 18)
        × Coloured
            (get_yuv_to_rgb_param YuvType.itu_r601)
            29
            151
            148
            (get_elem? b' 9)
            (get_elem? b' 10)
            (get_elem? b' 11))
      (yuv420_to_rgba_std 2 2 luma_and_chroma 2 1 1 9 YuvType.itu_r601 (replicate 18 0))
yuv420_to_rgba_std-Coloured_example =
    yuv420_to_rgba_std-Coloured YuvType.itu_r601 2 2 2 1 1 9 luma_and_chroma (replicate 18 0) 1 0
      (omega arith) (omega arith) (omega arith) (omega arith) (ground arith) (ground arith)
      (ground arith) whole_fits (omega arith) (omega arith)

-- The image lacks two rows, so that both conversions stop at the second pair.
rgba_to_nv12_std-interleaved_example :
    let (r, n) = rgba_to_nv12_std 2 4 square 9 2 2 YuvType.itu_r601 (pack halves) in
    let (r', t) = rgba_to_yuv420_std 2 4 square 9 2 1 1 YuvType.itu_r601 halves in
    (r ≡ r')
    × (n ≡ pack t)
    × (nv12_rgba_std 2 4 n 2 2 8 YuvType.itu_r709
        ≡ yuv420_to_rgba_std 2 4 t 2 1 1 8 YuvType.itu_r709)
rgba_to_nv12_std-interleaved_example =
    rgba_to_nv12_std-interleaved 2 4 square 9 2 1 8 YuvType.itu_r601 YuvType.itu_r709 halves refl

-- The red of a red pixel comes back as 216: its difference was scaled with the factor for blue.
red_back :
    let p = get_rgb_to_yuv_param YuvType.itu_t871 in
    let y = y_tmp p 255 0 0 in
    to_rgb
      (get_yuv_to_rgb_param YuvType.itu_t871)
      (y_byte p y)
      (chroma p (sub16 0 y))
      (chroma p (sub16 255 y))
    ≡ (216, 20, 0)
red_back = refl

-- A white brighter than the nominal one is black.
bright_is_black : to_rgb (get_yuv_to_rgb_param YuvType.itu_r601) 236 128 128 ≡ (0, 0, 0)
bright_is_black = refl

-- Four pixels whose blue is below their luma by one: the level is not 127, but that of a large
-- difference, since the factor is no multiple of four.
sum_is_wrong : chroma4 (get_rgb_to_yuv_param YuvType.itu_r601) (sub16 0 4) ≡ 63
sum_is_wrong = refl
