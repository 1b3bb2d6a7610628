-- ===== src/Yuv/Planar/Colours.antt =====
-- The colours of a whole image after its conversion from three planes, and of one that was converted
-- there and back.
use sanzu.Prelude.{
  ℕ, ◌+◌, ◌*◌, ◌≤◌, ◌<◌, ◌≡◌, ap, ◌∙◌, inl, List, Option, some, All, length, get_elem?, arith,
}
use sanzu.Outcome.{Ends, Ends-map}
use sanzu.Buffer.{byte_at, byte_at-All}
use sanzu.Yuv.{YuvToRgbParam, YuvType, get_yuv_to_rgb_param, to_rgb}
use sanzu.Yuv.Exact.{colour, green, top, to_rgb-Exact}
use sanzu.Yuv.Planar.{Planes, yuv444_to_rgba_std}
use sanzu.Buffer.Pixels.{channel}
use sanzu.Yuv.Planar.Restored.{Holds, Restored, Restored-all}

-- The three bytes of a pixel from its luma and chroma.
pub record Coloured (p : YuvToRgbParam) (y u v : ℕ) (red_byte green_byte blue_byte : Option ℕ)
    : Type 0 where
  pub red_is : red_byte ≡ some (colour p.y_factor p.y_offset y p.cr_factor v)
  pub green_is : green_byte ≡ some (green p.y_factor p.y_offset y p.g_cb_factor u p.g_cr_factor v)
  pub blue_is : blue_byte ≡ some (colour p.y_factor p.y_offset y p.cb_factor u)

pub Coloured-of :
    (t : YuvType) (y u v : ℕ) (r g b : Option ℕ)
    → y ≤ top t
    → u ≤ 255
    → v ≤ 255
    → let rgb = to_rgb (get_yuv_to_rgb_param t) y u v in
      r ≡ some rgb.0
      → g ≡ some rgb.1
      → b ≡ some rgb.2
      → Coloured (get_yuv_to_rgb_param t) y u v r g b
Coloured-of t y u v r g b hy hu hv er eg eb =
    let exact = to_rgb-Exact t y u v hy hu hv in
    record {
      red_is = er ∙ ap (λ c. some c.0) exact;
      green_is = eg ∙ ap (λ c. some c.1) exact;
      blue_is = eb ∙ ap (λ c. some c.2) exact;
    }

-- The conversion of three planes, whose rows fit in their strides and whose buffers have all rows,
-- comes to its end without a panic; the buffer keeps its size, and each pixel of the image has the
-- colours of its luma and chroma, cut to a byte, with nothing of an overflow of sixteen bits. (The
-- planes are of bytes, the luma no more than the nominal white where black is not 0.)
pub yuv444_to_rgba_std-Coloured :
    (t : YuvType) (width height y_stride u_stride v_stride rgba_stride : ℕ) (planes : Planes)
    (b : List ℕ) (r c : ℕ)
    → All (λ x. x ≤ top t) planes.y
    → All (λ x. x ≤ 255) planes.u
    → All (λ x. x ≤ 255) planes.v
    → Holds width height y_stride u_stride v_stride rgba_stride (get_yuv_to_rgb_param t) planes b
    → r < height
    → c < width
    → Ends
        (λ _ b'.
          (length b' ≡ length b)
          × Coloured
              (get_yuv_to_rgb_param t)
              (byte_at planes.y (r * y_stride + c))
              (byte_at planes.u (r * u_stride + c))
              (byte_at planes.v (r * v_stride + c))
              (get_elem? b' (channel rgba_stride 0 r c))
              (get_elem? b' (channel rgba_stride 1 r c))
              (get_elem? b' (channel rgba_stride 2 r c)))
        (yuv444_to_rgba_std width height planes y_stride u_stride v_stride rgba_stride t b)
yuv444_to_rgba_std-Coloured t width height y_stride u_stride v_stride rgba_stride planes b r c ys us
      vs holds low inside =
    let p = get_yuv_to_rgb_param t in
    Ends-map (Restored width height y_stride u_stride v_stride rgba_stride p planes b height 0) _ _
      (λ b' done. (
        (done.channels 0 (omega arith)).size_kept,
        Coloured-of t (byte_at planes.y (r * y_stride + c)) (byte_at planes.u (r * u_stride + c))
            (byte_at planes.v (r * v_stride + c)) _ _ _
            (byte_at-All (top t) planes.y (r * y_stride + c) ys)
            (byte_at-All 255 planes.u (r * u_stride + c) us)
            (byte_at-All 255 planes.v (r * v_stride + c) vs)
            ((done.channels 0 (omega arith)).written r c inside (inl low))
            ((done.channels 1 (omega arith)).written r c inside (inl low))
            ((done.channels 2 (omega arith)).written r c inside (inl low)),
      ))
      (Restored-all t width height y_stride u_stride v_stride rgba_stride planes b holds)
