-- ===== src/Yuv/Blocks.antt =====
-- The conversions of sanzu/src/yuv_rgb_rs.rs where a block of four pixels has one chroma: with three
-- planes (`yuv420`), or with the two chroma in turns (`nv12`).
pub mod Interleaved
pub mod Turns
pub mod Sums
pub mod Chroma
pub mod Average
pub mod Shown
pub mod Colours
use sanzu.Prelude.{ℕ, zero, suc, ◌+◌, ◌-◌, ◌*◌, ◌/◌, ◌%◌, ◌^◌, List}
use sanzu.Outcome.{Outcome, Io, pure, ◌>>=◌, ◌>>◌}
use sanzu.Session.Server.{of}
use sanzu.Buffer.{put_byte, get_byte}
use sanzu.Yuv.{
  RgbToYuvParam, YuvToRgbParam, YuvType, get_rgb_to_yuv_param, get_yuv_to_rgb_param, sub16, y_tmp,
  y_byte, chroma4, to_rgb,
}
use sanzu.Yuv.Planar.{Planes, put_y, put_u, put_v, put_rgb, read_rgb}

-- `buffer_y` and `buffer_uv`.
pub record Nv12 : Type 0 where
  pub y : List ℕ
  pub uv : List ℕ

-- Where a conversion puts the luma and the two chroma.
pub record Target (S : Type 0) : Type 0 where
  pub put_luma : (index value : ℕ) → Io S (Unit {0})
  pub put_cb : (index value : ℕ) → Io S (Unit {0})
  pub put_cr : (index value : ℕ) → Io S (Unit {0})

unfoldable pub put_y_nv12 : (index value : ℕ) → Io Nv12 (Unit {0})
put_y_nv12 index value s = let (r, b) = put_byte index value s.y in (r, record s { y = b })

unfoldable pub put_uv : (index value : ℕ) → Io Nv12 (Unit {0})
put_uv index value s = let (r, b) = put_byte index value s.uv in (r, record s { uv = b })

abbrev pub planar : Target Planes
planar = record { put_luma = put_y; put_cb = put_u; put_cr = put_v }

abbrev pub semi_planar : Target Nv12
semi_planar = record { put_luma = put_y_nv12; put_cb = put_uv; put_cr = put_uv }

-- The rounds of `for _ in (0..n - 1).step_by(2)`; `usize` wraps at 0.
abbrev pub rounds : ℕ → ℕ
rounds n = ((n + 2 ^ 64 - 1) % 2 ^ 64 + 1) / 2

-- A pixel has `pixel` bytes in the image, and the next chroma is `step` further on.
module _ {S : Type 0} (target : Target S) (pixel step : ℕ) (param : RgbToYuvParam)
    (buffer : List ℕ) where
  -- The luma of a pixel, with the differences of blue and of red to it.
  unfoldable pub luma : (index y_index : ℕ) → Io S (ℕ × ℕ)
  luma index y_index = do
    (r, g, b) ← read_rgb buffer index
    target.put_luma y_index (y_byte param (y_tmp param r g b))
    pure (sub16 b (y_tmp param r g b), sub16 r (y_tmp param r g b))

  unfoldable pub put_block : (u_index v_index : ℕ) → (a b c d : ℕ × ℕ) → Io S (Unit {0})
  put_block u_index v_index a b c d = do
    target.put_cb u_index (chroma4 param ((a.0 + b.0 + c.0 + d.0) % 65536))
    target.put_cr v_index (chroma4 param ((a.1 + b.1 + c.1 + d.1) % 65536))

  unfoldable pub block : (index1 index2 y_index1 y_index2 u_index v_index : ℕ) → Io S (Unit {0})
  block index1 index2 y_index1 y_index2 u_index v_index = do
    a ← luma index1 y_index1
    b ← luma (index1 + pixel) (y_index1 + 1)
    c ← luma index2 y_index2
    d ← luma (index2 + pixel) (y_index2 + 1)
    put_block u_index v_index a b c d

  unfoldable pub blocks : (n index1 index2 y_index1 y_index2 u_index v_index : ℕ) → Io S (Unit {0})
  blocks zero index1 index2 y_index1 y_index2 u_index v_index = pure tt
  blocks (suc n) index1 index2 y_index1 y_index2 u_index v_index = do
    block index1 index2 y_index1 y_index2 u_index v_index
    blocks n (index1 + 2 * pixel) (index2 + 2 * pixel) (y_index1 + 2) (y_index2 + 2)
        (u_index + step) (v_index + step)

  -- `v_first` is the index of the first second chroma in a row.
  module _ (width stride y_stride u_stride v_stride v_first : ℕ) where
    -- `n` pairs of rows from the pair `k` on, where `y` is `2 * k`.
    unfoldable pub row_pairs : (n k : ℕ) → Io S (Unit {0})
    row_pairs zero k = pure tt
    row_pairs (suc n) k = do
      blocks (rounds width) (2 * k * stride) ((2 * k + 1) * stride) (2 * k * y_stride)
          ((2 * k + 1) * y_stride) (k * u_stride) (k * v_stride + v_first)
      row_pairs n (suc k)

unfoldable pub rgb24_yuv420_std :
    (width height : ℕ) (buffer_rgb : List ℕ) (rgb_stride y_stride u_stride v_stride : ℕ)
    → YuvType
    → Io Planes (Unit {0})
rgb24_yuv420_std width height buffer_rgb rgb_stride y_stride u_stride v_stride yuv_type =
    row_pairs planar 3 1 (get_rgb_to_yuv_param yuv_type) buffer_rgb width rgb_stride y_stride
      u_stride v_stride 0 (rounds height) 0

unfoldable pub rgba_to_yuv420_std :
    (width height : ℕ) (buffer_rgba : List ℕ) (rgba_stride y_stride u_stride v_stride : ℕ)
    → YuvType
    → Io Planes (Unit {0})
rgba_to_yuv420_std width height buffer_rgba rgba_stride y_stride u_stride v_stride yuv_type =
    row_pairs planar 4 1 (get_rgb_to_yuv_param yuv_type) buffer_rgba width rgba_stride y_stride
      u_stride v_stride 0 (rounds height) 0

unfoldable pub rgba_to_nv12_std :
    (width height : ℕ) (buffer_rgba : List ℕ) (rgba_stride y_stride uv_stride : ℕ)
    → YuvType
    → Io Nv12 (Unit {0})
rgba_to_nv12_std width height buffer_rgba rgba_stride y_stride uv_stride yuv_type =
    row_pairs semi_planar 4 2 (get_rgb_to_yuv_param yuv_type) buffer_rgba width rgba_stride y_stride
      uv_stride uv_stride 1 (rounds height) 0

-- The next chroma is `step` further on.
module _ (step : ℕ) (param : YuvToRgbParam) (buffer_y buffer_u buffer_v : List ℕ) where
  unfoldable pub pixel_of_block : (u v rgba_index y_index : ℕ) → Io (List ℕ) (Unit {0})
  pixel_of_block u v rgba_index y_index = do
    y ← of (get_byte buffer_y y_index)
    put_rgb rgba_index (to_rgb param y u v)

  unfoldable pub block_rgba :
      (rgba_index1 rgba_index2 y_index1 y_index2 u_index v_index : ℕ) → Io (List ℕ) (Unit {0})
  block_rgba rgba_index1 rgba_index2 y_index1 y_index2 u_index v_index = do
    u ← of (get_byte buffer_u u_index)
    v ← of (get_byte buffer_v v_index)
    pixel_of_block u v rgba_index1 y_index1
    pixel_of_block u v (rgba_index1 + 4) (y_index1 + 1)
    pixel_of_block u v rgba_index2 y_index2
    pixel_of_block u v (rgba_index2 + 4) (y_index2 + 1)

  unfoldable pub blocks_rgba :
      (n rgba_index1 rgba_index2 y_index1 y_index2 u_index v_index : ℕ) → Io (List ℕ) (Unit {0})
  blocks_rgba zero rgba_index1 rgba_index2 y_index1 y_index2 u_index v_index = pure tt
  blocks_rgba (suc n) rgba_index1 rgba_index2 y_index1 y_index2 u_index v_index = do
    block_rgba rgba_index1 rgba_index2 y_index1 y_index2 u_index v_index
    blocks_rgba n (rgba_index1 + 8) (rgba_index2 + 8) (y_index1 + 2) (y_index2 + 2) (u_index + step)
        (v_index + step)

  module _ (width y_stride u_stride v_stride v_first rgba_stride : ℕ) where
    unfoldable pub row_pairs_rgba : (n k : ℕ) → Io (List ℕ) (Unit {0})
    row_pairs_rgba zero k = pure tt
    row_pairs_rgba (suc n) k = do
      blocks_rgba (rounds width) (2 * k * rgba_stride) ((2 * k + 1) * rgba_stride)
          (2 * k * y_stride) ((2 * k + 1) * y_stride) (k * u_stride) (k * v_stride + v_first)
      row_pairs_rgba n (suc k)

unfoldable pub yuv420_to_rgba_std :
    (width height : ℕ)
    → Planes
    → (y_stride u_stride v_stride rgba_stride : ℕ) → YuvType
    → Io (List ℕ) (Unit {0})
yuv420_to_rgba_std width height planes y_stride u_stride v_stride rgba_stride yuv_type =
    row_pairs_rgba 1 (get_yuv_to_rgb_param yuv_type) planes.y planes.u planes.v width y_stride
      u_stride v_stride 0 rgba_stride (rounds height) 0

unfoldable pub nv12_rgba_std :
    (width height : ℕ)
    → Nv12
    → (y_stride uv_stride rgba_stride : ℕ) → YuvType
    → Io (List ℕ) (Unit {0})
nv12_rgba_std width height planes y_stride uv_stride rgba_stride yuv_type =
    row_pairs_rgba 2 (get_yuv_to_rgb_param yuv_type) planes.y planes.uv planes.uv width y_stride
      uv_stride uv_stride 1 rgba_stride (rounds height) 0
