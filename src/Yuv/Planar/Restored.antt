-- ===== src/Yuv/Planar/Restored.antt =====
-- What an image of four bytes for each pixel holds after its conversion from three planes.
use sanzu.Prelude.{ℕ, zero, suc, ◌+◌, ◌*◌, ◌≤◌, ◌<◌, ◌≡◌, refl, List, length, arith}
use mathlib.Core.Path.{subst}
use sanzu.Outcome.{Ends, Ends-then}
use sanzu.Buffer.{byte_at, get_byte-eq}
use sanzu.Buffer.Rows.{in_row}
use sanzu.Buffer.Groups.{Grouped-start, Grouped-next}
use sanzu.Buffer.Pixels.{Painted, put_three}
use sanzu.Yuv.{YuvToRgbParam, YuvType, get_yuv_to_rgb_param, to_rgb}
use sanzu.Yuv.Planar.{Planes, put_rgb, pixel_rgba, row_rgba, rows_rgba, yuv444_to_rgba_std}

module _ (width height y_stride u_stride v_stride rgba_stride : ℕ) (param : YuvToRgbParam)
    (planes : Planes) (before : List ℕ) where
  -- The strides are wide enough, and the rows fit in the buffers.
  pub record Holds : Type 0 where
    pub y_wide : width ≤ y_stride
    pub u_wide : width ≤ u_stride
    pub v_wide : width ≤ v_stride
    pub rgba_wide : 4 * width ≤ rgba_stride
    pub y_high : height * y_stride ≤ length planes.y
    pub u_high : height * u_stride ≤ length planes.u
    pub v_high : height * v_stride ≤ length planes.v
    pub rgba_high : height * rgba_stride ≤ length before

  -- What is made of the pixel in the row `r` and the column `c`.
  abbrev pub rgb_at : (r c : ℕ) → ℕ × ℕ × ℕ
  rgb_at r c =
      to_rgb param (byte_at planes.y (r * y_stride + c)) (byte_at planes.u (r * u_stride + c))
        (byte_at planes.v (r * v_stride + c))

  -- The pixels, as far as the writing has come.
  abbrev pub Restored : (row col : ℕ) → List ℕ → Type 0
  Restored row col = Painted width height rgba_stride (length before) rgb_at row col 0

  module _ (holds : Holds) where
    put_rgb-Restored :
        (row col i : ℕ) (b : List ℕ)
        → row < height
        → col < width
        → i ≡ row * rgba_stride + 4 * col
        → Restored row col b
        → Ends (λ _. Restored row (suc col)) (put_rgb i (rgb_at row col) b)
    unfolding put_rgb
    put_rgb-Restored =
        put_three width height rgba_stride (length before) rgb_at holds.rgba_wide holds.rgba_high

    pixel_rgba-Restored :
        (row col i j k l : ℕ) (b : List ℕ)
        → row < height
        → col < width
        → i ≡ row * rgba_stride + 4 * col
        → j ≡ row * y_stride + col
        → k ≡ row * u_stride + col
        → l ≡ row * v_stride + col
        → Restored row col b
        → Ends (λ _. Restored row (suc col)) (pixel_rgba param planes i j k l b)
    unfolding pixel_rgba
    pixel_rgba-Restored row col i j k l b low inside at y u v now =
        rw
          (
            y,
            u,
            v,
            get_byte-eq planes.u (row * u_stride + col) (
                in_row height u_stride (length planes.u) row col holds.u_high low
                  (omega (arith, inside, holds.u_wide))),
            get_byte-eq planes.v (row * v_stride + col) (
                in_row height v_stride (length planes.v) row col holds.v_high low
                  (omega (arith, inside, holds.v_wide))),
            get_byte-eq planes.y (row * y_stride + col) (
                in_row height y_stride (length planes.y) row col holds.y_high low
                  (omega (arith, inside, holds.y_wide))),
          )
          (put_rgb-Restored row col i b low inside at now)

    row_rgba-Restored :
        (n row col i j k l : ℕ) (b : List ℕ)
        → row < height
        → col + n ≡ width
        → i ≡ row * rgba_stride + 4 * col
        → j ≡ row * y_stride + col
        → k ≡ row * u_stride + col
        → l ≡ row * v_stride + col
        → Restored row col b
        → Ends (λ _. Restored row width) (row_rgba param planes n i j k l b)
    unfolding row_rgba
    row_rgba-Restored zero row col i j k l b low ends at y u v now =
        subst (λ c. Restored row c b) (omega (arith, ends)) now
    row_rgba-Restored (suc n) row col i j k l b low ends at y u v now =
        Ends-then (Restored row (suc col)) (Restored row width) (pixel_rgba param planes i j k l)
          (row_rgba param planes n (i + 4) (j + 1) (k + 1) (l + 1)) b
          (pixel_rgba-Restored row col i j k l b low (omega (arith, ends)) at y u v now)
          (λ t.
            row_rgba-Restored n row (suc col) (i + 4) (j + 1) (k + 1) (l + 1) t low
              (omega (arith, ends)) (omega (arith, at)) (omega (arith, y)) (omega (arith, u))
              (omega (arith, v)))

    rows_rgba-Restored :
        (n row : ℕ) (b : List ℕ)
        → row + n ≡ height
        → Restored row 0 b
        → Ends
            (λ _. Restored height 0)
            (rows_rgba param planes width y_stride u_stride v_stride rgba_stride n row b)
    unfolding rows_rgba
    rows_rgba-Restored zero row b ends now = subst (λ r. Restored r 0 b) (omega (arith, ends)) now
    rows_rgba-Restored (suc n) row b ends now =
        Ends-then (Restored row width) (Restored height 0)
          (row_rgba param planes width (row * rgba_stride) (row * y_stride) (row * u_stride)
            (row * v_stride))
          (rows_rgba param planes width y_stride u_stride v_stride rgba_stride n (suc row)) b
          (row_rgba-Restored width row 0 (row * rgba_stride) (row * y_stride) (row * u_stride)
            (row * v_stride) b (omega (arith, ends)) (omega arith) (omega arith) (omega arith)
            (omega arith) (omega arith) now)
          (λ t done.
            rows_rgba-Restored n (suc row) t (omega (arith, ends))
              (Grouped-next _ _ _ _ _ row t done))

-- The whole conversion.
pub Restored-all :
    (t : YuvType) (width height y_stride u_stride v_stride rgba_stride : ℕ) (planes : Planes)
    (b : List ℕ)
    → Holds width height y_stride u_stride v_stride rgba_stride (get_yuv_to_rgb_param t) planes b
    → Ends
        (λ _.
          Restored width height y_stride u_stride v_stride rgba_stride
            (get_yuv_to_rgb_param t)
            planes
            b
            height
            0)
        (yuv444_to_rgba_std width height planes y_stride u_stride v_stride rgba_stride t b)
unfolding yuv444_to_rgba_std
Restored-all t width height y_stride u_stride v_stride rgba_stride planes b holds =
    rows_rgba-Restored width height y_stride u_stride v_stride rgba_stride (get_yuv_to_rgb_param t)
      planes b holds height 0 b (omega arith) (Grouped-start _ _ _ _ _ b refl)
