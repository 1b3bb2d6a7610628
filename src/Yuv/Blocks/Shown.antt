-- ===== src/Yuv/Blocks/Shown.antt =====
-- What an image holds after its conversion from planes whose blocks of four pixels have one chroma.
use sanzu.Prelude.{
  ℕ, zero, suc, ◌+◌, ◌*◌, ◌/◌, ◌%◌, ◌≤◌, ◌<◌, ◌≡◌, ap, ap₂, ◌∙◌, List, length, arith,
}
use mathlib.Core.Path.{subst}
use sanzu.Outcome.{Io, Ends, Ends-then, Ends-map, ◌>>◌}
use sanzu.Buffer.{byte_at, get_byte-eq}
use sanzu.Buffer.Rows.{strided-eq, in_row}
use sanzu.Buffer.Groups
use sanzu.Buffer.Groups.{Grouped, Grouped-group, Grouped-next, Apart}
use sanzu.Buffer.Pixels.{component}
use sanzu.Yuv.{YuvToRgbParam, to_rgb}
use sanzu.Yuv.Planar.{Planes, put_rgb}
use sanzu.Yuv.Blocks.{pixel_of_block, block_rgba, blocks_rgba, row_pairs_rgba, rounds}

assoc_lem : (a b c : ℕ) → a + b + c ≡ a + (b + c)
assoc_lem a b c = omega arith

plus_zero : (a : ℕ) → a ≡ a + 0
plus_zero a = omega arith

three_more : (q : ℕ) → suc (suc (suc (3 * q))) ≡ 3 * suc q
three_more q = omega arith

module _ (across down y_stride u_stride v_stride stride : ℕ) (p : YuvToRgbParam) (planes : Planes)
    (before : List ℕ) where
  -- As many blocks as `across` by `down`, whose rows fit in their strides, and buffers that have
  -- them.
  pub record Whole : Type 0 where
    pub rgba_wide : 8 * across ≤ stride
    pub y_wide : 2 * across ≤ y_stride
    pub u_wide : across ≤ u_stride
    pub v_wide : across ≤ v_stride
    pub rgba_high : 2 * down * stride ≤ length before
    pub y_high : 2 * down * y_stride ≤ length planes.y
    pub u_high : down * u_stride ≤ length planes.u
    pub v_high : down * v_stride ≤ length planes.v

  -- The luma of the pixel `q` of a block.
  abbrev pub luma_place : (q r c : ℕ) → ℕ
  luma_place q r c = (2 * r + q / 2) * y_stride + (2 * c + q % 2)

  abbrev pub u_at : (r c : ℕ) → ℕ
  u_at r c = byte_at planes.u (r * u_stride + c)

  abbrev pub v_at : (r c : ℕ) → ℕ
  v_at r c = byte_at planes.v (r * v_stride + c)

  abbrev pub rgb_of : (q r c : ℕ) → ℕ × ℕ × ℕ
  rgb_of q r c = to_rgb p (byte_at planes.y (luma_place q r c)) (u_at r c) (v_at r c)

  -- The bytes of a block: three for each of its pixels.
  abbrev pub spot : (k r c : ℕ) → ℕ
  spot k r c = (2 * r + k / 6) * stride + (8 * c + 4 * (k / 3 % 2) + k % 3)

  abbrev pub color : (k r c : ℕ) → ℕ
  color k r c = component (k % 3) (rgb_of (k / 3) r c)

  abbrev pub Shown : (row col done : ℕ) → List ℕ → Type 0
  Shown = Grouped across (length before) 12 spot color

  -- The byte `m` of the pixel `q`.
  color-eq :
      (k q m row col : ℕ) → m < 3 → k ≡ 3 * q + m → component m (rgb_of q row col) ≡ color k row col
  color-eq k q m row col m3 e =
      let byte : m ≡ k % 3 = omega (arith, m3, e) in
      let pixel : q ≡ k / 3 = omega (arith, m3, e) in
      ap₂ (λ a b. component a (rgb_of b row col)) byte pixel

  spot-eq :
      (k q m row col : ℕ)
      → m < 3
      → k ≡ 3 * q + m
      → (2 * row + q / 2) * stride + (8 * col + 4 * (q % 2)) + m ≡ spot k row col
  spot-eq k q m row col m3 e =
      let half : q / 2 ≡ k / 6 = omega (arith, m3, e) in
      let rest : 8 * col + 4 * (q % 2) + m ≡ 8 * col + 4 * (k / 3 % 2) + k % 3 =
        omega (arith, m3, e) in
      assoc_lem ((2 * row + q / 2) * stride) (8 * col + 4 * (q % 2)) m
      ∙ ap₂ (λ a b. (2 * row + a) * stride + b) half rest

  abbrev pub now_at : (row col i x : ℕ) → Io (List ℕ) (Unit {0})
  now_at row col = pixel_of_block 1 p planes.y planes.u planes.v (u_at row col) (v_at row col)

  module _ (whole : Whole) where
    spot-Apart : Apart across (length before) 12 spot color
    spot-Apart k l r c r' c' k12 l12 h h' e =
        let (rows, columns) =
          strided-eq stride (2 * r + k / 6) (2 * r' + l / 6) (8 * c + 4 * (k / 3 % 2) + k % 3)
            (8 * c' + 4 * (l / 3 % 2) + l % 3) (omega (arith, whole.rgba_wide, h))
            (omega (arith, whole.rgba_wide, h')) e in
        omega (arith, rows, columns, k12, l12)

    spot-inside :
        (k row col : ℕ) → row < down → col < across → k < 12 → spot k row col < length before
    spot-inside k row col low inside k12 =
        in_row (2 * down) stride (length before) (2 * row + k / 6)
          (8 * col + 4 * (k / 3 % 2) + k % 3) whole.rgba_high (omega (arith, low, k12))
          (omega (arith, inside, whole.rgba_wide))

    luma-inside :
        (q row col : ℕ) → row < down → col < across → q < 4 → luma_place q row col < length planes.y
    luma-inside q row col low inside q4 =
        in_row (2 * down) y_stride (length planes.y) (2 * row + q / 2) (2 * col + q % 2)
          whole.y_high (omega (arith, low, q4)) (omega (arith, inside, whole.y_wide))

    pixel_of_block-Shown :
        (row col q i x : ℕ) (b : List ℕ)
        → row < down
        → col < across
        → q < 4
        → i ≡ (2 * row + q / 2) * stride + (8 * col + 4 * (q % 2))
        → x ≡ luma_place q row col
        → Shown row col (3 * q) b
        → Ends
            (λ _. Shown row col (3 * suc q))
            (pixel_of_block 1 p planes.y planes.u planes.v (u_at row col) (v_at row col) i x b)
    unfolding pixel_of_block put_rgb
    pixel_of_block-Shown row col q i x b low inside q4 at_i at_x now =
        rw (at_x, get_byte-eq planes.y (luma_place q row col) (luma-inside q row col low inside q4))
          (subst (λ d. Ends (λ _. Shown row col d) (put_rgb i (rgb_of q row col) b)) (three_more q)
            (Groups.put_three across (length before) 12 spot color row col (3 * q) i _ _ _ b
              spot-Apart inside (omega (arith, q4))
              (spot-inside _ row col low inside (omega (arith, q4)))
              (spot-inside _ row col low inside (omega (arith, q4)))
              (spot-inside _ row col low inside (omega (arith, q4)))
              (at_i ∙ plus_zero _ ∙ spot-eq (3 * q) q 0 row col (omega arith) (omega arith))
              (ap (λ n. n + 1) at_i ∙ spot-eq (suc (3 * q)) q 1 row col (omega arith) (omega arith))
              (ap (λ n. n + 2) at_i
                ∙ spot-eq (suc (suc (3 * q))) q 2 row col (omega arith) (omega arith))
              (color-eq (3 * q) q 0 row col (omega arith) (omega arith))
              (color-eq (suc (3 * q)) q 1 row col (omega arith) (omega arith))
              (color-eq (suc (suc (3 * q))) q 2 row col (omega arith) (omega arith)) now))

    block_rgba-Shown :
        (row col i j x y k l : ℕ) (b : List ℕ)
        → row < down
        → col < across
        → i ≡ 2 * row * stride + 8 * col
        → j ≡ (2 * row + 1) * stride + 8 * col
        → x ≡ 2 * row * y_stride + 2 * col
        → y ≡ (2 * row + 1) * y_stride + 2 * col
        → k ≡ row * u_stride + col
        → l ≡ row * v_stride + col
        → Shown row col 0 b
        → Ends
            (λ _. Shown row (suc col) 0)
            (block_rgba 1 p planes.y planes.u planes.v i j x y k l b)
    unfolding block_rgba
    block_rgba-Shown row col i j x y k l b low inside at_i at_j at_x at_y at_u at_v now =
        rw
          (
            at_u,
            at_v,
            get_byte-eq planes.u (row * u_stride + col) (
                in_row down u_stride (length planes.u) row col whole.u_high low
                  (omega (arith, inside, whole.u_wide))),
            get_byte-eq planes.v (row * v_stride + col) (
                in_row down v_stride (length planes.v) row col whole.v_high low
                  (omega (arith, inside, whole.v_wide))),
          )
          (Ends-then (Shown row col 3) (Shown row (suc col) 0) (now_at row col i x)
            (do now_at row col (i + 4) (x + 1); now_at row col j y; now_at row col (j + 4) (y + 1))
            b
            (pixel_of_block-Shown row col 0 i x b low inside (omega arith) (omega (arith, at_i))
              (omega (arith, at_x)) now)
            (λ t now.
              Ends-then (Shown row col 6) (Shown row (suc col) 0) (now_at row col (i + 4) (x + 1))
                (do now_at row col j y; now_at row col (j + 4) (y + 1)) t
                (pixel_of_block-Shown row col 1 (i + 4) (x + 1) t low inside (omega arith)
                  (omega (arith, at_i)) (omega (arith, at_x)) now)
                (λ t now.
                  Ends-then (Shown row col 9) (Shown row (suc col) 0) (now_at row col j y)
                    (now_at row col (j + 4) (y + 1)) t
                    (pixel_of_block-Shown row col 2 j y t low inside (omega arith)
                      (omega (arith, at_j)) (omega (arith, at_y)) now)
                    (λ t now.
                      Ends-map (Shown row col 12) (Shown row (suc col) 0) _
                        (Grouped-group across (length before) 12 spot color row col)
                        (pixel_of_block-Shown row col 3 (j + 4) (y + 1) t low inside (omega arith)
                          (omega (arith, at_j)) (omega (arith, at_y)) now)))))

    blocks_rgba-Shown :
        (n row col i j x y k l : ℕ) (b : List ℕ)
        → row < down
        → col + n ≡ across
        → i ≡ 2 * row * stride + 8 * col
        → j ≡ (2 * row + 1) * stride + 8 * col
        → x ≡ 2 * row * y_stride + 2 * col
        → y ≡ (2 * row + 1) * y_stride + 2 * col
        → k ≡ row * u_stride + col
        → l ≡ row * v_stride + col
        → Shown row col 0 b
        → Ends
            (λ _. Shown row across 0)
            (blocks_rgba 1 p planes.y planes.u planes.v n i j x y k l b)
    unfolding blocks_rgba
    blocks_rgba-Shown zero row col i j x y k l b low ends at_i at_j at_x at_y at_u at_v now =
        subst (λ c. Shown row c 0 b) (omega (arith, ends)) now
    blocks_rgba-Shown (suc n) row col i j x y k l b low ends at_i at_j at_x at_y at_u at_v now =
        Ends-then (Shown row (suc col) 0) (Shown row across 0)
          (block_rgba 1 p planes.y planes.u planes.v i j x y k l)
          (blocks_rgba 1 p planes.y planes.u planes.v n (i + 8) (j + 8) (x + 2) (y + 2) (k + 1)
            (l + 1))
          b
          (block_rgba-Shown row col i j x y k l b low (omega (arith, ends)) at_i at_j at_x at_y at_u
            at_v now)
          (λ t.
            blocks_rgba-Shown n row (suc col) (i + 8) (j + 8) (x + 2) (y + 2) (k + 1) (l + 1) t low
              (omega (arith, ends)) (omega (arith, at_i)) (omega (arith, at_j))
              (omega (arith, at_x)) (omega (arith, at_y)) (omega (arith, at_u))
              (omega (arith, at_v)))

    pub row_pairs_rgba-Shown :
        (n width row : ℕ) (b : List ℕ)
        → rounds width ≡ across
        → row + n ≡ down
        → Shown row 0 0 b
        → Ends
            (λ _. Shown down 0 0)
            (row_pairs_rgba 1 p planes.y planes.u planes.v width y_stride u_stride v_stride 0 stride
              n row b)
    unfolding row_pairs_rgba
    row_pairs_rgba-Shown zero width row b wide ends now =
        subst (λ r. Shown r 0 0 b) (omega (arith, ends)) now
    row_pairs_rgba-Shown (suc n) width row b wide ends now =
        Ends-then (Shown row across 0) (Shown down 0 0)
          (blocks_rgba 1 p planes.y planes.u planes.v (rounds width) (2 * row * stride)
            ((2 * row + 1) * stride) (2 * row * y_stride) ((2 * row + 1) * y_stride)
            (row * u_stride) (row * v_stride + 0))
          (row_pairs_rgba 1 p planes.y planes.u planes.v width y_stride u_stride v_stride 0 stride n
            (suc row))
          b
          (rw wide (
            blocks_rgba-Shown across row 0 (2 * row * stride) ((2 * row + 1) * stride)
              (2 * row * y_stride) ((2 * row + 1) * y_stride) (row * u_stride) (row * v_stride + 0)
              b (omega (arith, ends)) (omega arith) (omega arith) (omega arith) (omega arith)
              (omega arith) (omega arith) (omega arith) now))
          (λ t done.
            row_pairs_rgba-Shown n width (suc row) t wide (omega (arith, ends))
              (Grouped-next _ _ _ _ _ row t done))
