-- ===== src/Yuv/Blocks/Sums.antt =====
-- What a block of four pixels is converted from.
use sanzu.Prelude.{ℕ, ◌+◌, ◌*◌, ◌%◌, ◌≤◌, ◌<◌, ◌≡◌, refl, List, length, set, lt→ltb}
use sanzu.Outcome.{ok}
use sanzu.Buffer.{put_byte, byte_at}
use sanzu.Yuv.{RgbToYuvParam, sub16, y_byte}
use sanzu.Yuv.Planar.{Planes, put_y}
use sanzu.Yuv.Planar.Converted.{luma_from, read_rgb-eq}
use sanzu.Yuv.Blocks.{planar, luma}

put_byte-eq :
    (index v : ℕ) (b : List ℕ) → index < length b → put_byte index v b ≡ (ok tt, set b index v)
unfolding put_byte
put_byte-eq index v b h = rw (lt→ltb index (length b) h) refl

-- For a pair of rows and a column of blocks, the index of the first pixel, and of that below it.
abbrev pub upper : (stride r c : ℕ) → ℕ
upper stride r c = 2 * r * stride + 8 * c

abbrev pub lower : (stride r c : ℕ) → ℕ
lower stride r c = (2 * r + 1) * stride + 8 * c

module _ (p : RgbToYuvParam) (rgba : List ℕ) where
  -- The differences of blue and of red to the luma, for the pixel at an index.
  abbrev pub differences : ℕ → ℕ × ℕ
  differences i = (
    sub16 (byte_at rgba (i + 2)) (luma_from p rgba i),
    sub16 (byte_at rgba i) (luma_from p rgba i),
  )

  pub luma-eq :
      (i j : ℕ) (s : Planes)
      → i + 2 < length rgba
      → j < length s.y
      → luma planar 4 1 p rgba i j s
        ≡ (ok (differences i), record s { y = set s.y j (y_byte p (luma_from p rgba i)) })
  unfolding luma put_y
  luma-eq i j s there room =
      rw (read_rgb-eq rgba i s there, put_byte-eq j (y_byte p (luma_from p rgba i)) s.y room) refl

  module _ (stride : ℕ) where
    -- The four differences of a block, and the bytes of their sum.
    abbrev pub u_sum : (r c : ℕ) → ℕ
    u_sum r c =
        ((differences (upper stride r c)).0
          + (differences (upper stride r c + 4)).0
          + (differences (lower stride r c)).0
          + (differences (lower stride r c + 4)).0)
        % 65536

    abbrev pub v_sum : (r c : ℕ) → ℕ
    v_sum r c =
        ((differences (upper stride r c)).1
          + (differences (upper stride r c + 4)).1
          + (differences (lower stride r c)).1
          + (differences (lower stride r c + 4)).1)
        % 65536

-- As many blocks as `across` by `down`, whose rows fit in their strides, and buffers that have them.
pub record Blocky (across down stride y_stride u_stride v_stride : ℕ) (rgba : List ℕ) (s : Planes)
    : Type 0 where
  pub rgba_wide : 8 * across ≤ stride
  pub y_wide : 2 * across ≤ y_stride
  pub u_wide : across ≤ u_stride
  pub v_wide : across ≤ v_stride
  pub rgba_high : 2 * down * stride ≤ length rgba
  pub y_high : 2 * down * y_stride ≤ length s.y
  pub u_high : down * u_stride ≤ length s.u
  pub v_high : down * v_stride ≤ length s.v
