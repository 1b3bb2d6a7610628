-- ===== src/Yuv/Blocks/Colours.antt =====
-- The colours of a whole image after its conversion from planes whose blocks have one chroma.
use sanzu.Prelude.{
  ℕ, ◌+◌, ◌*◌, ◌/◌, ◌%◌, ◌^◌, ◌≤◌, ◌<◌, ◌≡◌, refl, sym, ap, ap₂, ◌∙◌, inl, List, some, All, length,
  get_elem?, arith,
}
use sanzu.Outcome.{Ends, Ends-map}
use sanzu.Buffer.{byte_at, byte_at-All}
use sanzu.Buffer.Groups.{Grouped-start}
use sanzu.Buffer.Pixels.{channel, component}
use sanzu.Yuv.{YuvToRgbParam, YuvType, get_yuv_to_rgb_param, to_rgb}
use sanzu.Yuv.Exact.{top}
use sanzu.Yuv.Planar.{Planes}
use sanzu.Yuv.Planar.Colours.{Coloured, Coloured-of}
use sanzu.Yuv.Blocks.{rounds, yuv420_to_rgba_std}
use sanzu.Yuv.Blocks.Shown.{Whole, Shown, row_pairs_rgba-Shown}

channel_lem : (stride i j m : ℕ) → channel stride m i j ≡ i * stride + (4 * j + m)
channel_lem stride i j m = omega arith

-- The byte `m` of the pixel in the row `i` and the column `j`.
pixel-color :
    (across down y_stride u_stride v_stride stride : ℕ) (p : YuvToRgbParam) (planes : Planes)
    (before b : List ℕ) (i j m : ℕ)
    → m < 3
    → i < 2 * down
    → j < 2 * across
    → Shown across down y_stride u_stride v_stride stride p planes before down 0 0 b
    → get_elem? b (channel stride m i j)
      ≡ some (
          component m (
            to_rgb p
              (byte_at planes.y (i * y_stride + j))
              (byte_at planes.u (i / 2 * u_stride + j / 2))
              (byte_at planes.v (i / 2 * v_stride + j / 2))))
pixel-color across down y_stride u_stride v_stride stride p planes before b i j m m3 low inside
      done =
    let q : ℕ = 2 * (i % 2) + j % 2 in
    let h =
      (done.channels (3 * q + m) (omega (arith, m3))).written (i / 2) (j / 2)
        (omega (arith, inside)) (inl (omega (arith, low))) in
    let row : 2 * (i / 2) + (3 * q + m) / 6 ≡ i = omega (arith, m3) in
    let col : 8 * (j / 2) + 4 * ((3 * q + m) / 3 % 2) + (3 * q + m) % 3 ≡ 4 * j + m =
      omega (arith, m3) in
    let luma_row : 2 * (i / 2) + (3 * q + m) / 3 / 2 ≡ i = omega (arith, m3) in
    let luma_col : 2 * (j / 2) + (3 * q + m) / 3 % 2 ≡ j = omega (arith, m3) in
    let byte : (3 * q + m) % 3 ≡ m = omega (arith, m3) in
    ap (get_elem? b) (channel_lem stride i j m ∙ sym (ap₂ (λ r c. r * stride + c) row col))
    ∙ h
    ∙ ap some (
        ap₂
          (λ n l. component n (
            to_rgb p (byte_at planes.y l) (byte_at planes.u (i / 2 * u_stride + j / 2))
              (byte_at planes.v (i / 2 * v_stride + j / 2))))
          byte (ap₂ (λ r c. r * y_stride + c) luma_row luma_col))

-- The conversion of three planes, of which the two chroma have a byte for each block of two by two
-- pixels, comes to its end without a panic, where the rows fit in their strides and the buffers have
-- all blocks; the buffer keeps its size, and each pixel that is in a block has the colours of its
-- luma and of the chroma of its block, cut to a byte, with nothing of an overflow of sixteen bits.
-- (The planes are of bytes, the luma no more than the nominal white where black is not 0.)
pub yuv420_to_rgba_std-Coloured :
    (t : YuvType) (width height y_stride u_stride v_stride stride : ℕ) (planes : Planes)
    (b : List ℕ) (i j : ℕ)
    → 0 < width
    → width < 2 ^ 64
    → 0 < height
    → height < 2 ^ 64
    → All (λ x. x ≤ top t) planes.y
    → All (λ x. x ≤ 255) planes.u
    → All (λ x. x ≤ 255) planes.v
    → Whole
        (width / 2)
        (height / 2)
        y_stride
        u_stride
        v_stride
        stride
        (get_yuv_to_rgb_param t)
        planes
        b
    → i < 2 * (height / 2)
    → j < 2 * (width / 2)
    → Ends
        (λ _ b'.
          (length b' ≡ length b)
          × Coloured
              (get_yuv_to_rgb_param t)
              (byte_at planes.y (i * y_stride + j))
              (byte_at planes.u (i / 2 * u_stride + j / 2))
              (byte_at planes.v (i / 2 * v_stride + j / 2))
              (get_elem? b' (channel stride 0 i j))
              (get_elem? b' (channel stride 1 i j))
              (get_elem? b' (channel stride 2 i j)))
        (yuv420_to_rgba_std width height planes y_stride u_stride v_stride stride t b)
unfolding yuv420_to_rgba_std
yuv420_to_rgba_std-Coloured t width height y_stride u_stride v_stride stride planes b i j w0 w64 h0
      h64 ys us vs whole low inside =
    let p = get_yuv_to_rgb_param t in
    let wide : rounds width ≡ width / 2 = omega (arith, w0, w64) in
    let high : rounds height ≡ height / 2 = omega (arith, h0, h64) in
    let color = pixel-color (width / 2) (height / 2) y_stride u_stride v_stride stride p planes b in
    Ends-map
      (Shown (width / 2) (height / 2) y_stride u_stride v_stride stride p planes b (height / 2) 0 0)
      _ _
      (λ b' done. (
        (done.channels 0 (omega arith)).size_kept,
        Coloured-of t (byte_at planes.y (i * y_stride + j))
            (byte_at planes.u (i / 2 * u_stride + j / 2))
            (byte_at planes.v (i / 2 * v_stride + j / 2)) _ _ _
            (byte_at-All (top t) planes.y (i * y_stride + j) ys)
            (byte_at-All 255 planes.u (i / 2 * u_stride + j / 2) us)
            (byte_at-All 255 planes.v (i / 2 * v_stride + j / 2) vs)
            (color b' i j 0 (omega arith) low inside done)
            (color b' i j 1 (omega arith) low inside done)
            (color b' i j 2 (omega arith) low inside done),
      ))
      (row_pairs_rgba-Shown (width / 2) (height / 2) y_stride u_stride v_stride stride p planes b
        whole (rounds height) width 0 b wide (omega (arith, high)) (Grouped-start _ _ _ _ _ b refl))
