-- ===== src/Yuv/Blocks/Turns.antt =====
-- The conversions to and from `nv12` against those with three planes.
use sanzu.Prelude.{ℕ, zero, suc, ◌+◌, ◌*◌, ◌≡◌, refl, ap, ap₂, ◌∙◌, List, length, arith}
use sanzu.Outcome.{◌>>◌}
use sanzu.Buffer.Interleave.{interleave, get_byte-even, get_byte-odd}
use sanzu.Yuv.{YuvToRgbParam, YuvType, get_yuv_to_rgb_param}
use sanzu.Yuv.Planar.{Planes}
use sanzu.Yuv.Blocks.{
  rounds, pixel_of_block, block_rgba, blocks_rgba, row_pairs_rgba, yuv420_to_rgba_std,
  nv12_rgba_std, rgba_to_yuv420_std, rgba_to_nv12_std,
}
use sanzu.Yuv.Blocks.Interleaved.{pack, rgba_to_nv12_std-Same}

module _ (param : YuvToRgbParam) (y us vs : List ℕ) (sizes : length us ≡ length vs) where
  block_rgba-eq :
      (i j a b k l m n : ℕ)
      → m ≡ 2 * k
      → n ≡ suc (2 * l)
      → block_rgba 2 param y (interleave us vs) (interleave us vs) i j a b m n
        ≡ block_rgba 1 param y us vs i j a b k l
  unfolding block_rgba pixel_of_block
  block_rgba-eq i j a b k l m n first second =
      rw (first, second, get_byte-even k us vs sizes, get_byte-odd l us vs sizes) refl

  blocks_rgba-eq :
      (count i j a b k l m n : ℕ)
      → m ≡ 2 * k
      → n ≡ suc (2 * l)
      → blocks_rgba 2 param y (interleave us vs) (interleave us vs) count i j a b m n
        ≡ blocks_rgba 1 param y us vs count i j a b k l
  unfolding blocks_rgba
  blocks_rgba-eq zero i j a b k l m n first second = refl
  blocks_rgba-eq (suc count) i j a b k l m n first second =
      ap₂ ◌>>◌ (block_rgba-eq i j a b k l m n first second) (
        blocks_rgba-eq count (i + 8) (j + 8) (a + 2) (b + 2) (k + 1) (l + 1) (m + 2) (n + 2)
          (omega (arith, first)) (omega (arith, second)))

  row_pairs_rgba-eq :
      (width y_stride c_stride stride count k : ℕ)
      → row_pairs_rgba 2 param y
          (interleave us vs)
          (interleave us vs)
          width
          y_stride
          (2 * c_stride)
          (2 * c_stride)
          1
          stride
          count
          k
        ≡ row_pairs_rgba 1 param y us vs width y_stride c_stride c_stride 0 stride count k
  unfolding row_pairs_rgba
  row_pairs_rgba-eq width y_stride c_stride stride zero k = refl
  row_pairs_rgba-eq width y_stride c_stride stride (suc count) k =
      ap₂ ◌>>◌
        (blocks_rgba-eq (rounds width) (2 * k * stride) ((2 * k + 1) * stride) (2 * k * y_stride)
          ((2 * k + 1) * y_stride) (k * c_stride) (k * c_stride + 0) (k * (2 * c_stride))
          (k * (2 * c_stride) + 1) (omega arith) (omega arith))
        (row_pairs_rgba-eq width y_stride c_stride stride count (suc k))

nv12_rgba_std-eq :
    (width height : ℕ) (s : Planes) (y_stride stride rgba_stride : ℕ) (t : YuvType)
    → length s.u ≡ length s.v
    → nv12_rgba_std width height (pack s) y_stride (2 * stride) rgba_stride t
      ≡ yuv420_to_rgba_std width height s y_stride stride stride rgba_stride t
unfolding nv12_rgba_std yuv420_to_rgba_std
nv12_rgba_std-eq width height s y_stride stride rgba_stride t e =
    row_pairs_rgba-eq (get_yuv_to_rgb_param t) s.y s.u s.v e width y_stride stride rgba_stride
      (rounds height) 0

-- The conversion to `nv12` comes to the same end as that to three planes, and writes the same luma,
-- and the chroma of both planes in turns, also where an index is out of bounds; and the conversion
-- from `nv12` makes of what was written the same as that from the three planes does, of any kind, to
-- any buffer and again failures and all. (The planes of the chroma are of one size and of one
-- stride, and the rows of the chroma of `nv12` are twice as wide.)
pub rgba_to_nv12_std-interleaved :
    (width height : ℕ) (rgba : List ℕ) (rgba_stride y_stride stride out_stride : ℕ)
    (kind out_kind : YuvType) (s : Planes)
    → length s.u ≡ length s.v
    → let (r, n) =
        rgba_to_nv12_std width height rgba rgba_stride y_stride (2 * stride) kind (pack s) in
      let (r', t) =
        rgba_to_yuv420_std width height rgba rgba_stride y_stride stride stride kind s in
      (r ≡ r')
      × (n ≡ pack t)
      × (nv12_rgba_std width height n y_stride (2 * stride) out_stride out_kind
          ≡ yuv420_to_rgba_std width height t y_stride stride stride out_stride out_kind)
rgba_to_nv12_std-interleaved width height rgba rgba_stride y_stride stride out_stride kind out_kind
      s e =
    let (same, sizes) =
      (rgba_to_nv12_std-Same width height rgba rgba_stride y_stride stride kind).run s e in
    let t = (rgba_to_yuv420_std width height rgba rgba_stride y_stride stride stride kind s).1 in
    (
      ap (λ x. x.0) same,
      ap (λ x. x.1) same,
      ap (λ x. nv12_rgba_std width height x.1 y_stride (2 * stride) out_stride out_kind) same
          ∙ nv12_rgba_std-eq width height t y_stride stride out_stride out_kind sizes,
    )
