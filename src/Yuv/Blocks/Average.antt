-- ===== src/Yuv/Blocks/Average.antt =====
-- The luma of a whole image, and its chroma by the averages of the blocks.
use sanzu.Prelude.{
  ℕ, ◌+◌, ◌*◌, ◌/◌, ◌%◌, ◌^◌, ◌≤◌, ◌<◌, ◌≡◌, refl, sym, ap, ap₂, ◌∙◌, inl, List, some, All, length,
  get_elem?, arith,
}
use sanzu.Outcome.{Ends, Ends-map}
use sanzu.Buffer.{byte_at, byte_at-All}
use sanzu.Buffer.Groups.{Grouped-start}
use sanzu.Buffer.Plane.{Written-start}
use sanzu.Yuv.{RgbToYuvParam, YuvType, get_rgb_to_yuv_param, sub16, y_byte, chroma4}
use sanzu.Yuv.Exact.{quarter_level, chroma4-Exact}
use sanzu.Yuv.Planar.{Planes}
use sanzu.Yuv.Planar.Converted.{luma_from}
use sanzu.Yuv.Blocks.{rounds, rgba_to_yuv420_std}
use sanzu.Yuv.Blocks.Chroma.{Halved, row_pairs-Halved}
use sanzu.Yuv.Blocks.Sums.{upper, lower, u_sum, v_sum, Blocky}

-- The factors of T.871.
abbrev pub full : RgbToYuvParam
full = get_rgb_to_yuv_param YuvType.itu_t871

-- A value for each pixel, summed over a block.
abbrev pub over_block : (ℕ → ℕ) → (stride r c : ℕ) → ℕ
over_block f stride r c =
    f (upper stride r c)
    + f (upper stride r c + 4)
    + f (lower stride r c)
    + f (lower stride r c + 4)

abbrev pub exact_luma : List ℕ → ℕ → ℕ
exact_luma rgba k =
    (77 * byte_at rgba k + 150 * byte_at rgba (k + 1) + 29 * byte_at rgba (k + 2)) / 256

-- How far a colour can be from the luma.
abbrev Near : (c y : ℕ) → Type 0
Near c y = (c ≤ 255) × (y ≤ 255) × (y ≤ c + 226) × (c ≤ y + 227)

luma_from-eq :
    (rgba : List ℕ) (k : ℕ)
    → All (λ x. x ≤ 255) rgba
    → (luma_from full rgba k ≡ exact_luma rgba k)
      × Near (byte_at rgba k) (exact_luma rgba k)
      × Near (byte_at rgba (k + 2)) (exact_luma rgba k)
luma_from-eq rgba k bytes = omega (
  arith,
  byte_at-All 255 rgba k bytes,
  byte_at-All 255 rgba (k + 1) bytes,
  byte_at-All 255 rgba (k + 2) bytes,
)

sum-sub16 :
    (a b c d w x y z : ℕ)
    → Near a w
    → Near b x
    → Near c y
    → Near d z
    → (sub16 a w + sub16 b x + sub16 c y + sub16 d z) % 65536
      ≡ sub16 (a + b + c + d) (w + x + y + z)
sum-sub16 a b c d w x y z ha hb hc hd = omega (arith, ha, hb, hc, hd)

chroma4-Near :
    (a b c d w x y z : ℕ)
    → Near a w
    → Near b x
    → Near c y
    → Near d z
    → chroma4 full ((sub16 a w + sub16 b x + sub16 c y + sub16 d z) % 65536)
      ≡ quarter_level 144 (a + b + c + d) (w + x + y + z)
chroma4-Near a b c d w x y z ha hb hc hd =
    ap (chroma4 full) (sum-sub16 a b c d w x y z ha hb hc hd)
    ∙ chroma4-Exact (a + b + c + d) (w + x + y + z) (omega (arith, ha, hb, hc, hd))
        (omega (arith, ha, hb, hc, hd)) (omega (arith, ha, hb, hc, hd))
        (omega (arith, ha, hb, hc, hd))

module _ (rgba : List ℕ) (stride r c : ℕ) (bytes : All (λ x. x ≤ 255) rgba) where
  u_of-eq :
      chroma4 full (u_sum full rgba stride r c)
      ≡ quarter_level 144
          (over_block (λ k. byte_at rgba (k + 2)) stride r c)
          (over_block (exact_luma rgba) stride r c)
  u_of-eq =
      let (e1, _, near1) = luma_from-eq rgba (upper stride r c) bytes in
      let (e2, _, near2) = luma_from-eq rgba (upper stride r c + 4) bytes in
      let (e3, _, near3) = luma_from-eq rgba (lower stride r c) bytes in
      let (e4, _, near4) = luma_from-eq rgba (lower stride r c + 4) bytes in
      rw (e1, e2, e3, e4) (chroma4-Near _ _ _ _ _ _ _ _ near1 near2 near3 near4)

  v_of-eq :
      chroma4 full (v_sum full rgba stride r c)
      ≡ quarter_level 144
          (over_block (byte_at rgba) stride r c)
          (over_block (exact_luma rgba) stride r c)
  v_of-eq =
      let (e1, near1, _) = luma_from-eq rgba (upper stride r c) bytes in
      let (e2, near2, _) = luma_from-eq rgba (upper stride r c + 4) bytes in
      let (e3, near3, _) = luma_from-eq rgba (lower stride r c) bytes in
      let (e4, near4, _) = luma_from-eq rgba (lower stride r c + 4) bytes in
      rw (e1, e2, e3, e4) (chroma4-Near _ _ _ _ _ _ _ _ near1 near2 near3 near4)

pub row_of_pixel : (i j : ℕ) → 2 * (i / 2) + (2 * (i % 2) + j % 2) / 2 ≡ i
row_of_pixel i j = omega arith

pub column_of_pixel : (i j : ℕ) → 2 * (j / 2) + (2 * (i % 2) + j % 2) % 2 ≡ j
column_of_pixel i j = omega arith

y_byte-luma :
    (rgba : List ℕ) (k : ℕ)
    → All (λ x. x ≤ 255) rgba
    → y_byte full (luma_from full rgba k) ≡ exact_luma rgba k
y_byte-luma rgba k bytes =
    let (e, near, _) = luma_from-eq rgba k bytes in rw e (omega (arith, near))

four_times : (a c d : ℕ) → a + 8 * c + 4 * d ≡ a + 4 * (2 * c + d)
four_times a c d = omega arith

-- A pixel by its block and its place in it.
pixel-luma :
    (rgba b : List ℕ) (stride y_stride i j : ℕ)
    → All (λ x. x ≤ 255) rgba
    → let q = 2 * (i % 2) + j % 2 in
      let row = 2 * (i / 2) + q / 2 in
      get_elem? b (row * y_stride + (2 * (j / 2) + q % 2))
        ≡ some (y_byte full (luma_from full rgba (row * stride + 8 * (j / 2) + 4 * (q % 2))))
      → get_elem? b (i * y_stride + j) ≡ some (exact_luma rgba (i * stride + 4 * j))
pixel-luma rgba b stride y_stride i j bytes h =
    let q = 2 * (i % 2) + j % 2 in
    let row = 2 * (i / 2) + q / 2 in
    let from : row * stride + 8 * (j / 2) + 4 * (q % 2) ≡ i * stride + 4 * j =
      four_times (row * stride) (j / 2) (q % 2)
      ∙ (ap₂ (λ r c. r * stride + 4 * c) (row_of_pixel i j) (column_of_pixel i j)) in
    sym (ap (get_elem? b) (ap₂ (λ r c. r * y_stride + c) (row_of_pixel i j) (column_of_pixel i j)))
    ∙ h
    ∙ ap some (
        ap (λ k. y_byte full (luma_from full rgba k)) from
        ∙ y_byte-luma rgba (i * stride + 4 * j) bytes)

-- The conversion of an image into three planes, of which the two chroma have a byte for each block of
-- two by two pixels, comes to its end without a panic, where the rows fit in their strides and the
-- buffers have all blocks; the buffers keep their sizes. For each pixel that is in a block, the luma
-- is the sum of the parts 77, 150 and 29 of 256 of its colours, and the chroma of its block are 128
-- and the part 144 of 256 of the average difference of blue, or red, to the luma, rounded down. (The
-- image is of bytes, and the factors are those of T.871, where the one for the chroma is a multiple of
-- four.)
pub rgba_to_yuv420_std-Average :
    (width height stride y_stride u_stride v_stride : ℕ) (rgba : List ℕ) (s : Planes) (i j : ℕ)
    → 0 < width
    → width < 2 ^ 64
    → 0 < height
    → height < 2 ^ 64
    → All (λ x. x ≤ 255) rgba
    → Blocky (width / 2) (height / 2) stride y_stride u_stride v_stride rgba s
    → i < 2 * (height / 2)
    → j < 2 * (width / 2)
    → let luma = over_block (exact_luma rgba) stride (i / 2) (j / 2) in
      let blue = over_block (λ k. byte_at rgba (k + 2)) stride (i / 2) (j / 2) in
      let red = over_block (byte_at rgba) stride (i / 2) (j / 2) in
      Ends
        (λ _ t.
          (length t.y ≡ length s.y)
          × (length t.u ≡ length s.u)
          × (length t.v ≡ length s.v)
          × (get_elem? t.y (i * y_stride + j) ≡ some (exact_luma rgba (i * stride + 4 * j)))
          × (get_elem? t.u (i / 2 * u_stride + j / 2) ≡ some (quarter_level 144 blue luma))
          × (get_elem? t.v (i / 2 * v_stride + j / 2) ≡ some (quarter_level 144 red luma)))
        (rgba_to_yuv420_std width height rgba stride y_stride u_stride v_stride YuvType.itu_t871 s)
unfolding rgba_to_yuv420_std
rgba_to_yuv420_std-Average width height stride y_stride u_stride v_stride rgba s i j w0 w64 h0 h64
      bytes room low inside =
    let wide : rounds width ≡ width / 2 = omega (arith, w0, w64) in
    let high : rounds height ≡ height / 2 = omega (arith, h0, h64) in
    let q : ℕ = 2 * (i % 2) + j % 2 in
    let inside' : j / 2 < width / 2 = omega (arith, inside) in
    let low' : i / 2 < height / 2 = omega (arith, low) in
    Ends-map
      (Halved (width / 2) (height / 2) stride y_stride u_stride v_stride full rgba s (height / 2) 0
        0 0 0)
      _ _
      (λ t done.
        let channel = done.in_y.channels q (omega arith) in
        (
          channel.size_kept,
          done.in_u.size_kept,
          done.in_v.size_kept,
          pixel-luma rgba t.y stride y_stride i j bytes
              (channel.written (i / 2) (j / 2) inside' (inl low')),
          done.in_u.written (i / 2) (j / 2) inside' (inl low')
              ∙ ap some (u_of-eq rgba stride (i / 2) (j / 2) bytes),
          done.in_v.written (i / 2) (j / 2) inside' (inl low')
              ∙ ap some (v_of-eq rgba stride (i / 2) (j / 2) bytes),
        ))
      (row_pairs-Halved (width / 2) (height / 2) stride y_stride u_stride v_stride full rgba s room
        (rounds height) width 0 s wide (omega (arith, high))
        (record {
          in_y = Grouped-start _ _ _ _ _ s.y refl;
          in_u = Written-start _ _ _ _ s.u refl;
          in_v = Written-start _ _ _ _ s.v refl;
        }))
