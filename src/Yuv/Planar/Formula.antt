-- ===== src/Yuv/Planar/Formula.antt =====
-- The planes of a whole image, pixel by pixel.
use sanzu.Prelude.{
  ℕ, ◌+◌, ◌*◌, ◌/◌, ◌≤◌, ◌<◌, ◌≡◌, refl, ap, ◌∙◌, inl, inr, List, Option, some, All, length,
  get_elem?, arith,
}
use sanzu.Outcome.{Ends, Ends-map}
use sanzu.Buffer.{byte_at, byte_at-All}
use sanzu.Yuv.{YuvType, get_rgb_to_yuv_param, sub16, y_tmp, y_byte, chroma}
use sanzu.Yuv.Exact.{level, chroma-Exact, y_byte-range}
use sanzu.Yuv.Planar.{Planes, rgba_to_yuv444_std}
use sanzu.Yuv.Planar.Converted.{Converted, Roomy, Converted-all}

-- The parts of red, green and blue in the luma, out of 256.
abbrev pub luma_parts : YuvType → ℕ × ℕ × ℕ
luma_parts YuvType.itu_t871 = (77, 150, 29)
luma_parts YuvType.itu_r601 = (77, 150, 29)
luma_parts YuvType.itu_r709 = (54, 184, 18)

-- The byte of a luma: all 256 values, or those from 16 on.
abbrev pub luma_byte : YuvType → ℕ → ℕ
luma_byte YuvType.itu_t871 luma = luma
luma_byte YuvType.itu_r601 luma = luma * 110 / 128 + 16
luma_byte YuvType.itu_r709 luma = luma * 110 / 128 + 16

-- The part of a difference of blue, out of 256.
abbrev pub blue_part : YuvType → ℕ
blue_part YuvType.itu_t871 = 144
blue_part YuvType.itu_r601 = 127
blue_part YuvType.itu_r709 = 121

-- The three bytes of a pixel from its red, green and blue: the luma is a sum of parts of 256, and
-- the two chroma are 128 and a part of the difference of blue, or red, to the luma.
pub record Pixel (t : YuvType) (red green blue : ℕ) (y u v : Option ℕ) : Type 0 where
  pub luma : ℕ
  pub luma_is :
      let (of_red, of_green, of_blue) = luma_parts t in
      luma ≡ (of_red * red + of_green * green + of_blue * blue) / 256
  pub y_is : y ≡ some (luma_byte t luma)
  pub u_is : u ≡ some (level (blue_part t) blue luma)
  pub v_is : v ≡ some (level (blue_part t) red luma)

params-are :
    (t : YuvType) (red green blue luma : ℕ)
    → let p = get_rgb_to_yuv_param t in
      let (of_red, of_green, of_blue) = luma_parts t in
      (p.r_factor * red + p.g_factor * green + p.b_factor * blue
        ≡ of_red * red + of_green * green + of_blue * blue)
      × (luma * p.y_factor / 128 + p.y_offset ≡ luma_byte t luma)
      × (p.cb_factor ≡ blue_part t)
params-are YuvType.itu_t871 red green blue luma = (refl, omega arith, refl)
params-are YuvType.itu_r601 red green blue luma = (refl, refl, refl)
params-are YuvType.itu_r709 red green blue luma = (refl, refl, refl)

Pixel-of :
    (t : YuvType) (red green blue : ℕ) (y u v : Option ℕ)
    → red ≤ 255
    → green ≤ 255
    → blue ≤ 255
    → let p = get_rgb_to_yuv_param t in
      y ≡ some (y_byte p (y_tmp p red green blue))
      → u ≡ some (chroma p (sub16 blue (y_tmp p red green blue)))
      → v ≡ some (chroma p (sub16 red (y_tmp p red green blue)))
      → Pixel t red green blue y u v
Pixel-of t red green blue y u v hr hg hb ey eu ev =
    let range = y_byte-range t red green blue hr hg hb in
    let luma = y_tmp (get_rgb_to_yuv_param t) red green blue in
    let (weights, byte, part) = params-are t red green blue luma in
    record {
      luma = luma;
      luma_is = range.0 ∙ ap (λ sum. sum / 256) weights;
      y_is = ey ∙ ap some (range.1 ∙ byte);
      u_is =
          eu
          ∙ ap some (
              (chroma-Exact t red green blue blue hr hg hb (inr refl)).0
              ∙ ap (λ part. level part blue luma) part);
      v_is =
          ev
          ∙ ap some (
              (chroma-Exact t red green blue red hr hg hb (inl refl)).0
              ∙ ap (λ part. level part red luma) part);
    }

-- The conversion of an image of four bytes for each pixel into three planes, whose rows fit in their
-- strides and whose buffers have all rows, comes to its end without a panic; the buffers keep their
-- sizes, and at each pixel of the image the planes have its luma, of the parts 77, 150 and 29 of 256
-- (54, 184 and 18 for BT.709) and in the range of the type, and 128 with a part of the difference of
-- blue, and of red, to the luma: 144 of 256 (127 for BT.601, 121 for BT.709), the part for blue in
-- both; with nothing of the wrap-around that the source computes with. (The image is of bytes.)
pub rgba_to_yuv444_std-Pixel :
    (t : YuvType) (width height rgba_stride y_stride u_stride v_stride : ℕ) (rgba : List ℕ)
    (s : Planes) (r c : ℕ)
    → All (λ x. x ≤ 255) rgba
    → Roomy width rgba_stride y_stride u_stride v_stride (get_rgb_to_yuv_param t) rgba s height
    → r < height
    → c < width
    → let k = r * rgba_stride + 4 * c in
      Ends
        (λ _ t'.
          (length t'.y ≡ length s.y)
          × (length t'.u ≡ length s.u)
          × (length t'.v ≡ length s.v)
          × Pixel t
              (byte_at rgba k)
              (byte_at rgba (k + 1))
              (byte_at rgba (k + 2))
              (get_elem? t'.y (r * y_stride + c))
              (get_elem? t'.u (r * u_stride + c))
              (get_elem? t'.v (r * v_stride + c)))
        (rgba_to_yuv444_std width height rgba rgba_stride y_stride u_stride v_stride t s)
rgba_to_yuv444_std-Pixel t width height rgba_stride y_stride u_stride v_stride rgba s r c bytes room
      low inside =
    let p = get_rgb_to_yuv_param t in
    let k = r * rgba_stride + 4 * c in
    Ends-map (Converted width rgba_stride y_stride u_stride v_stride p rgba s height 0 0 0) _ _
      (λ t' done. (
        done.in_y.size_kept,
        done.in_u.size_kept,
        done.in_v.size_kept,
        Pixel-of t (byte_at rgba k) (byte_at rgba (k + 1)) (byte_at rgba (k + 2)) _ _ _
            (byte_at-All 255 rgba k bytes) (byte_at-All 255 rgba (k + 1) bytes)
            (byte_at-All 255 rgba (k + 2) bytes) (done.in_y.written r c inside (inl low))
            (done.in_u.written r c inside (inl low)) (done.in_v.written r c inside (inl low)),
      ))
      (Converted-all t width height rgba_stride y_stride u_stride v_stride rgba s room)
