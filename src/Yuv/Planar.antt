-- ===== src/Yuv/Planar.antt =====
-- The conversions of sanzu/src/yuv_rgb_rs.rs between four bytes for each pixel and three planes of
-- the same size (`yuv444`).
pub mod Converted
pub mod Formula
pub mod Restored
pub mod Colours
pub mod Grey
use sanzu.Prelude.{ℕ, zero, suc, ◌+◌, ◌*◌, List}
use sanzu.Outcome.{Outcome, Io, pure, ◌>>=◌, ◌>>◌}
use sanzu.Session.Server.{of}
use sanzu.Buffer.{put_byte, get_byte}
use sanzu.Yuv.{
  RgbToYuvParam, YuvToRgbParam, YuvType, get_rgb_to_yuv_param, get_yuv_to_rgb_param, sub16, y_tmp,
  y_byte, chroma, to_rgb,
}

-- `buffer_y`, `buffer_u` and `buffer_v`.
pub record Planes : Type 0 where
  pub y : List ℕ
  pub u : List ℕ
  pub v : List ℕ

unfoldable pub put_y : (index value : ℕ) → Io Planes (Unit {0})
put_y index value s = let (r, b) = put_byte index value s.y in (r, record s { y = b })

unfoldable pub put_u : (index value : ℕ) → Io Planes (Unit {0})
put_u index value s = let (r, b) = put_byte index value s.u in (r, record s { u = b })

unfoldable pub put_v : (index value : ℕ) → Io Planes (Unit {0})
put_v index value s = let (r, b) = put_byte index value s.v in (r, record s { v = b })

-- The red, green and blue at an index.
unfoldable pub read_rgb : {S : Type 0} → List ℕ → (index : ℕ) → Io S (ℕ × ℕ × ℕ)
read_rgb rgba index = do
  r ← of (get_byte rgba index)
  g ← of (get_byte rgba (index + 1))
  b ← of (get_byte rgba (index + 2))
  pure (r, g, b)

module _ (param : RgbToYuvParam) (buffer_rgba : List ℕ) where
  unfoldable pub put_yuv : (y_index u_index v_index r g b : ℕ) → Io Planes (Unit {0})
  put_yuv y_index u_index v_index r g b = do
    put_y y_index (y_byte param (y_tmp param r g b))
    put_u u_index (chroma param (sub16 b (y_tmp param r g b)))
    put_v v_index (chroma param (sub16 r (y_tmp param r g b)))

  unfoldable pub pixel_444 : (rgba_index y_index u_index v_index : ℕ) → Io Planes (Unit {0})
  pixel_444 rgba_index y_index u_index v_index = do
    (r, g, b) ← read_rgb buffer_rgba rgba_index
    put_yuv y_index u_index v_index r g b

  -- `n` pixels from these indices on.
  unfoldable pub row_444 : (n rgba_index y_index u_index v_index : ℕ) → Io Planes (Unit {0})
  row_444 zero rgba_index y_index u_index v_index = pure tt
  row_444 (suc n) rgba_index y_index u_index v_index = do
    pixel_444 rgba_index y_index u_index v_index
    row_444 n (rgba_index + 4) (y_index + 1) (u_index + 1) (v_index + 1)

  module _ (width rgba_stride y_stride u_stride v_stride : ℕ) where
    -- `n` rows from `y` on.
    unfoldable pub rows_444 : (n y : ℕ) → Io Planes (Unit {0})
    rows_444 zero y = pure tt
    rows_444 (suc n) y = do
      row_444 width (y * rgba_stride) (y * y_stride) (y * u_stride) (y * v_stride)
      rows_444 n (suc y)

unfoldable pub rgba_to_yuv444_std :
    (width height : ℕ) (buffer_rgba : List ℕ) (rgba_stride y_stride u_stride v_stride : ℕ)
    → YuvType
    → Io Planes (Unit {0})
rgba_to_yuv444_std width height buffer_rgba rgba_stride y_stride u_stride v_stride yuv_type =
    rows_444 (get_rgb_to_yuv_param yuv_type) buffer_rgba width rgba_stride y_stride u_stride
      v_stride height 0

unfoldable pub put_rgb : (rgba_index : ℕ) → ℕ × ℕ × ℕ → Io (List ℕ) (Unit {0})
put_rgb rgba_index (r, g, b) = do
  put_byte rgba_index r
  put_byte (rgba_index + 1) g
  put_byte (rgba_index + 2) b

module _ (param : YuvToRgbParam) (planes : Planes) where
  unfoldable pub pixel_rgba : (rgba_index y_index u_index v_index : ℕ) → Io (List ℕ) (Unit {0})
  pixel_rgba rgba_index y_index u_index v_index = do
    u ← of (get_byte planes.u u_index)
    v ← of (get_byte planes.v v_index)
    y ← of (get_byte planes.y y_index)
    put_rgb rgba_index (to_rgb param y u v)

  unfoldable pub row_rgba : (n rgba_index y_index u_index v_index : ℕ) → Io (List ℕ) (Unit {0})
  row_rgba zero rgba_index y_index u_index v_index = pure tt
  row_rgba (suc n) rgba_index y_index u_index v_index = do
    pixel_rgba rgba_index y_index u_index v_index
    row_rgba n (rgba_index + 4) (y_index + 1) (u_index + 1) (v_index + 1)

  module _ (width y_stride u_stride v_stride rgba_stride : ℕ) where
    unfoldable pub rows_rgba : (n y : ℕ) → Io (List ℕ) (Unit {0})
    rows_rgba zero y = pure tt
    rows_rgba (suc n) y = do
      row_rgba width (y * rgba_stride) (y * y_stride) (y * u_stride) (y * v_stride)
      rows_rgba n (suc y)

unfoldable pub yuv444_to_rgba_std :
    (width height : ℕ)
    → Planes
    → (y_stride u_stride v_stride rgba_stride : ℕ) → YuvType
    → Io (List ℕ) (Unit {0})
yuv444_to_rgba_std width height planes y_stride u_stride v_stride rgba_stride yuv_type =
    rows_rgba (get_yuv_to_rgb_param yuv_type) planes width y_stride u_stride v_stride rgba_stride
      height 0
