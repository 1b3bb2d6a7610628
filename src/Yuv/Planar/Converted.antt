-- ===== src/Yuv/Planar/Converted.antt =====
-- What the planes of an image hold after its conversion.
use sanzu.Prelude.{ℕ, zero, suc, ◌+◌, ◌*◌, ◌≤◌, ◌<◌, ◌≡◌, refl, ap, List, length, arith}
use mathlib.Core.Path.{subst}
use sanzu.Outcome.{ok, Ends, Ends-then, ◌>>◌}
use sanzu.Buffer.{byte_at, get_byte-eq}
use sanzu.Buffer.Rows.{strided, in_row, Ends-put}
use sanzu.Buffer.Plane.{Written, Written-start, Written-next}
use sanzu.Yuv.{RgbToYuvParam, YuvType, get_rgb_to_yuv_param, sub16, y_tmp, y_byte, chroma}
use sanzu.Yuv.Planar.{
  Planes, put_y, put_u, put_v, read_rgb, put_yuv, pixel_444, row_444, rows_444, rgba_to_yuv444_std,
}

module _ (param : RgbToYuvParam) (rgba : List ℕ) where
  -- What is made of the pixel whose red, green and blue begin at `k`.
  abbrev pub luma_from : ℕ → ℕ
  luma_from k = y_tmp param (byte_at rgba k) (byte_at rgba (k + 1)) (byte_at rgba (k + 2))

  abbrev pub y_from : ℕ → ℕ
  y_from k = y_byte param (luma_from k)

  abbrev pub u_from : ℕ → ℕ
  u_from k = chroma param (sub16 (byte_at rgba (k + 2)) (luma_from k))

  abbrev pub v_from : ℕ → ℕ
  v_from k = chroma param (sub16 (byte_at rgba k) (luma_from k))

  module _ (rgba_stride : ℕ) where
    -- The same of the pixel in the row `r` and the column `c`.
    abbrev pub y_at : (r c : ℕ) → ℕ
    y_at r c = y_from (r * rgba_stride + 4 * c)

    abbrev pub u_at : (r c : ℕ) → ℕ
    u_at r c = u_from (r * rgba_stride + 4 * c)

    abbrev pub v_at : (r c : ℕ) → ℕ
    v_at r c = v_from (r * rgba_stride + 4 * c)

-- The three planes, as far as the writing has come in each.
module _ (width rgba_stride y_stride u_stride v_stride : ℕ) (param : RgbToYuvParam) (rgba : List ℕ)
    (before : Planes) where
  pub record Converted (row y_col u_col v_col : ℕ) (s : Planes) : Type 0 where
    pub in_y :
        Written
          (length before.y)
          (strided y_stride)
          width
          (y_at param rgba rgba_stride)
          row
          y_col
          s.y
    pub in_u :
        Written
          (length before.u)
          (strided u_stride)
          width
          (u_at param rgba rgba_stride)
          row
          u_col
          s.u
    pub in_v :
        Written
          (length before.v)
          (strided v_stride)
          width
          (v_at param rgba rgba_stride)
          row
          v_col
          s.v

  -- The strides are wide enough, and `height` rows fit in the buffers.
  pub record Roomy (height : ℕ) : Type 0 where
    pub rgba_wide : 4 * width ≤ rgba_stride
    pub y_wide : width ≤ y_stride
    pub u_wide : width ≤ u_stride
    pub v_wide : width ≤ v_stride
    pub rgba_high : height * rgba_stride ≤ length rgba
    pub y_high : height * y_stride ≤ length before.y
    pub u_high : height * u_stride ≤ length before.u
    pub v_high : height * v_stride ≤ length before.v

-- The three bytes at an index.
pub read_rgb-eq :
    {S : Type 0} (rgba : List ℕ) (i : ℕ) (s : S)
    → i + 2 < length rgba
    → read_rgb rgba i s ≡ (ok (byte_at rgba i, byte_at rgba (i + 1), byte_at rgba (i + 2)), s)
unfolding read_rgb
read_rgb-eq rgba i s h = rw (
  get_byte-eq rgba i (omega (arith, h)),
  get_byte-eq rgba (i + 1) (omega (arith, h)),
  get_byte-eq rgba (i + 2) h,
)

module _ (width height rgba_stride y_stride u_stride v_stride : ℕ) (param : RgbToYuvParam)
    (rgba : List ℕ) (before : Planes)
    (room : Roomy width rgba_stride y_stride u_stride v_stride param rgba before height) where
  abbrev pub Now : (row y_col u_col v_col : ℕ) → Planes → Type 0
  Now = Converted width rgba_stride y_stride u_stride v_stride param rgba before

  put_yuv-Now :
      (row col i y_index u_index v_index : ℕ) (s : Planes)
      → row < height
      → col < width
      → i ≡ row * rgba_stride + 4 * col
      → y_index ≡ row * y_stride + col
      → u_index ≡ row * u_stride + col
      → v_index ≡ row * v_stride + col
      → Now row col col col s
      → Ends
          (λ _. Now row (suc col) (suc col) (suc col))
          (put_yuv param rgba y_index u_index v_index
            (byte_at rgba i)
            (byte_at rgba (i + 1))
            (byte_at rgba (i + 2))
            s)
  unfolding put_yuv put_y put_u put_v
  put_yuv-Now row col i y_index u_index v_index s low inside at y u v now =
      Ends-then (Now row (suc col) col col) (Now row (suc col) (suc col) (suc col))
        (put_y y_index (y_from param rgba i))
        (do put_u u_index (u_from param rgba i); put_v v_index (v_from param rgba i)) s
        (Ends-put _ (λ b. record s { y = b }) height width y_stride (length before.y)
          (y_at param rgba rgba_stride) row col y_index (y_from param rgba i) s.y room.y_high
          room.y_wide low inside y (ap (y_from param rgba) at) now.in_y
          (λ b w. record { in_y = w; in_u = now.in_u; in_v = now.in_v }))
        (λ t now.
          Ends-then (Now row (suc col) (suc col) col) (Now row (suc col) (suc col) (suc col))
            (put_u u_index (u_from param rgba i)) (put_v v_index (v_from param rgba i)) t
            (Ends-put _ (λ b. record t { u = b }) height width u_stride (length before.u)
              (u_at param rgba rgba_stride) row col u_index (u_from param rgba i) t.u room.u_high
              room.u_wide low inside u (ap (u_from param rgba) at) now.in_u
              (λ b w. record { in_y = now.in_y; in_u = w; in_v = now.in_v }))
            (λ t now.
              Ends-put _ (λ b. record t { v = b }) height width v_stride (length before.v)
                (v_at param rgba rgba_stride) row col v_index (v_from param rgba i) t.v room.v_high
                room.v_wide low inside v (ap (v_from param rgba) at) now.in_v
                (λ b w. record { in_y = now.in_y; in_u = now.in_u; in_v = w })))

  pixel_444-Now :
      (row col i y_index u_index v_index : ℕ) (s : Planes)
      → row < height
      → col < width
      → i ≡ row * rgba_stride + 4 * col
      → y_index ≡ row * y_stride + col
      → u_index ≡ row * u_stride + col
      → v_index ≡ row * v_stride + col
      → Now row col col col s
      → Ends
          (λ _. Now row (suc col) (suc col) (suc col))
          (pixel_444 param rgba i y_index u_index v_index s)
  unfolding pixel_444
  pixel_444-Now row col i y_index u_index v_index s low inside at y u v now =
      let there : i + 2 < length rgba =
        subst (λ k. k < length rgba) (omega (arith, at))
          (in_row height rgba_stride (length rgba) row (4 * col + 2) room.rgba_high low
            (omega (arith, inside, room.rgba_wide))) in
      rw (read_rgb-eq rgba i s there)
        (put_yuv-Now row col i y_index u_index v_index s low inside at y u v now)

  row_444-Now :
      (n row col i j k l : ℕ) (s : Planes)
      → row < height
      → col + n ≡ width
      → i ≡ row * rgba_stride + 4 * col
      → j ≡ row * y_stride + col
      → k ≡ row * u_stride + col
      → l ≡ row * v_stride + col
      → Now row col col col s
      → Ends (λ _. Now row width width width) (row_444 param rgba n i j k l s)
  unfolding row_444
  row_444-Now zero row col i j k l s low ends at y u v now =
      subst (λ c. Now row c c c s) (omega (arith, ends)) now
  row_444-Now (suc n) row col i j k l s low ends at y u v now =
      Ends-then (Now row (suc col) (suc col) (suc col)) (Now row width width width)
        (pixel_444 param rgba i j k l) (row_444 param rgba n (i + 4) (j + 1) (k + 1) (l + 1)) s
        (pixel_444-Now row col i j k l s low (omega (arith, ends)) at y u v now)
        (λ t.
          row_444-Now n row (suc col) (i + 4) (j + 1) (k + 1) (l + 1) t low (omega (arith, ends))
            (omega (arith, at)) (omega (arith, y)) (omega (arith, u)) (omega (arith, v)))

  rows_444-Now :
      (n row : ℕ) (s : Planes)
      → row + n ≡ height
      → Now row 0 0 0 s
      → Ends
          (λ _. Now height 0 0 0)
          (rows_444 param rgba width rgba_stride y_stride u_stride v_stride n row s)
  unfolding rows_444
  rows_444-Now zero row s ends now = subst (λ r. Now r 0 0 0 s) (omega (arith, ends)) now
  rows_444-Now (suc n) row s ends now =
      Ends-then (Now row width width width) (Now height 0 0 0)
        (row_444 param rgba width (row * rgba_stride) (row * y_stride) (row * u_stride)
          (row * v_stride))
        (rows_444 param rgba width rgba_stride y_stride u_stride v_stride n (suc row)) s
        (row_444-Now width row 0 (row * rgba_stride) (row * y_stride) (row * u_stride)
          (row * v_stride) s (omega (arith, ends)) (omega arith) (omega arith) (omega arith)
          (omega arith) (omega arith) now)
        (λ t done. rows_444-Now n (suc row) t (omega (arith, ends)) (record {
          in_y = Written-next _ _ _ _ row t.y done.in_y;
          in_u = Written-next _ _ _ _ row t.u done.in_u;
          in_v = Written-next _ _ _ _ row t.v done.in_v;
        }))

-- The whole conversion.
pub Converted-all :
    (t : YuvType) (width height rgba_stride y_stride u_stride v_stride : ℕ) (rgba : List ℕ)
    (s : Planes)
    → Roomy width rgba_stride y_stride u_stride v_stride (get_rgb_to_yuv_param t) rgba s height
    → Ends
        (λ _.
          Converted width rgba_stride y_stride u_stride v_stride
            (get_rgb_to_yuv_param t)
            rgba
            s
            height
            0
            0
            0)
        (rgba_to_yuv444_std width height rgba rgba_stride y_stride u_stride v_stride t s)
unfolding rgba_to_yuv444_std
Converted-all t width height rgba_stride y_stride u_stride v_stride rgba s room =
    let p = get_rgb_to_yuv_param t in
    rows_444-Now width height rgba_stride y_stride u_stride v_stride p rgba s room height 0 s
      (omega arith)
      (record {
        in_y =
            Written-start (length s.y) (strided y_stride) width (y_at p rgba rgba_stride) s.y refl;
        in_u =
            Written-start (length s.u) (strided u_stride) width (u_at p rgba rgba_stride) s.u refl;
        in_v =
            Written-start (length s.v) (strided v_stride) width (v_at p rgba rgba_stride) s.v refl;
      })
