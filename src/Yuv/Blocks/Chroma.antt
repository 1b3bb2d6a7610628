-- ===== src/Yuv/Blocks/Chroma.antt =====
-- The planes of an image whose blocks of four pixels have one chroma.
use sanzu.Prelude.{ℕ, zero, suc, ◌+◌, ◌*◌, ◌/◌, ◌%◌, ◌<◌, ◌≡◌, refl, ap, List, length, set, arith}
use mathlib.Core.Path.{subst}
use sanzu.Outcome.{Io, ◌>>=◌, Ends, Ends-then}
use sanzu.Buffer.Rows.{strided, strided-eq, in_row, Ends-put}
use sanzu.Buffer.Groups.{Grouped, Grouped-group, Grouped-next, Grouped-length, Apart, set_channel}
use sanzu.Buffer.Plane.{Written, Written-next}
use sanzu.Yuv.{RgbToYuvParam, y_byte, chroma4}
use sanzu.Yuv.Planar.{Planes, put_u, put_v}
use sanzu.Yuv.Planar.Converted.{luma_from}
use sanzu.Yuv.Blocks.{planar, luma, put_block, block, blocks, row_pairs, rounds}
use sanzu.Yuv.Blocks.Sums.{upper, lower, differences, luma-eq, u_sum, v_sum, Blocky}

module _ (across down stride y_stride u_stride v_stride : ℕ) (p : RgbToYuvParam) (rgba : List ℕ)
    (before : Planes) where
  abbrev pub u_of : (r c : ℕ) → ℕ
  u_of r c = chroma4 p (u_sum p rgba stride r c)

  abbrev pub v_of : (r c : ℕ) → ℕ
  v_of r c = chroma4 p (v_sum p rgba stride r c)

  -- Where the luma of the pixel `q` of a block comes from, and where it goes to.
  abbrev pub source : (q r c : ℕ) → ℕ
  source q r c = (2 * r + q / 2) * stride + 8 * c + 4 * (q % 2)

  abbrev pub place : (q r c : ℕ) → ℕ
  place q r c = (2 * r + q / 2) * y_stride + (2 * c + q % 2)

  abbrev pub luma_of : (q r c : ℕ) → ℕ
  luma_of q r c = y_byte p (luma_from p rgba (source q r c))

  -- The planes, as far as the writing has come; in the block, `done` pixels have their luma.
  pub record Halved (row col done u_col v_col : ℕ) (s : Planes) : Type 0 where
    pub in_y : Grouped across (length before.y) 4 place luma_of row col done s.y
    pub in_u : Written (length before.u) (strided u_stride) across u_of row u_col s.u
    pub in_v : Written (length before.v) (strided v_stride) across v_of row v_col s.v

  module _ (room : Blocky across down stride y_stride u_stride v_stride rgba before) where
    place-Apart : Apart across (length before.y) 4 place luma_of
    place-Apart k l r c r' c' k4 l4 h h' e =
        let (rows, columns) =
          strided-eq y_stride (2 * r + k / 2) (2 * r' + l / 2) (2 * c + k % 2) (2 * c' + l % 2)
            (omega (arith, room.y_wide, h)) (omega (arith, room.y_wide, h')) e in
        omega (arith, rows, columns, k4, l4)

    place-inside :
        (q row col : ℕ) → row < down → col < across → q < 4 → place q row col < length before.y
    place-inside q row col low inside q4 =
        in_row (2 * down) y_stride (length before.y) (2 * row + q / 2) (2 * col + q % 2) room.y_high
          (omega (arith, low, q4)) (omega (arith, inside, room.y_wide))

    source-inside :
        (q row col : ℕ) → row < down → col < across → q < 4 → source q row col + 2 < length rgba
    source-inside q row col low inside q4 =
        subst (λ n. n < length rgba) (omega arith)
          (in_row (2 * down) stride (length rgba) (2 * row + q / 2) (8 * col + 4 * (q % 2) + 2)
            room.rgba_high (omega (arith, low, q4)) (omega (arith, inside, room.rgba_wide)))

    put_block-Halved :
        (row col k l : ℕ) (s : Planes)
        → row < down
        → col < across
        → k ≡ row * u_stride + col
        → l ≡ row * v_stride + col
        → Halved row col 4 col col s
        → let i = upper stride row col in
          let j = lower stride row col in
          Ends
            (λ _. Halved row (suc col) 0 (suc col) (suc col))
            (put_block planar 4 1 p rgba k l
              (differences p rgba i)
              (differences p rgba (i + 4))
              (differences p rgba j)
              (differences p rgba (j + 4))
              s)
    unfolding put_block put_u put_v
    put_block-Halved row col k l s low inside at_u at_v now =
        Ends-then (Halved row col 4 (suc col) col) (Halved row (suc col) 0 (suc col) (suc col))
          (put_u k (u_of row col)) (put_v l (v_of row col)) s
          (Ends-put _ (λ b. record s { u = b }) down across u_stride (length before.u) u_of row col
            k (u_of row col) s.u room.u_high room.u_wide low inside at_u refl now.in_u
            (λ b w. record { in_y = now.in_y; in_u = w; in_v = now.in_v }))
          (λ t now.
            Ends-put _ (λ b. record t { v = b }) down across v_stride (length before.v) v_of row col
              l (v_of row col) t.v room.v_high room.v_wide low inside at_v refl now.in_v
              (λ b w. record {
                in_y = Grouped-group _ _ _ _ _ row col t.y now.in_y;
                in_u = now.in_u;
                in_v = w;
              }))

    -- The luma of the next pixel of a block.
    luma-Halved :
        (row col q i x : ℕ) (f : ℕ × ℕ → Io Planes (Unit {0})) (s : Planes)
        → row < down
        → col < across
        → q < 4
        → i ≡ source q row col
        → x ≡ place q row col
        → Halved row col q col col s
        → ((t : Planes)
            → Halved row col (suc q) col col t
            → Ends (λ _. Halved row (suc col) 0 (suc col) (suc col)) (f (differences p rgba i) t))
        → Ends
            (λ _. Halved row (suc col) 0 (suc col) (suc col))
            ((luma planar 4 1 p rgba i x >>= f) s)
    luma-Halved row col q i x f s low inside q4 at_i at_x now rest =
        let fits = place-inside q row col low inside q4 in
        let size = Grouped-length _ _ _ _ _ row col q s.y q4 now.in_y in
        let there = source-inside q row col low inside q4 in
        rw (luma-eq p rgba i x s (omega (arith, at_i, there)) (omega (arith, at_x, fits, size))) (
          rest (record s { y = set s.y x (y_byte p (luma_from p rgba i)) })
            (record {
              in_y =
                  set_channel _ _ _ _ _ row col q x (y_byte p (luma_from p rgba i)) s.y place-Apart
                    inside q4 fits at_x (ap (λ k. y_byte p (luma_from p rgba k)) at_i) now.in_y;
              in_u = now.in_u;
              in_v = now.in_v;
            }))

    block-Halved :
        (row col i j x y k l : ℕ) (s : Planes)
        → row < down
        → col < across
        → i ≡ upper stride row col
        → j ≡ lower stride row col
        → x ≡ 2 * row * y_stride + 2 * col
        → y ≡ (2 * row + 1) * y_stride + 2 * col
        → k ≡ row * u_stride + col
        → l ≡ row * v_stride + col
        → Halved row col 0 col col s
        → Ends
            (λ _. Halved row (suc col) 0 (suc col) (suc col))
            (block planar 4 1 p rgba i j x y k l s)
    unfolding block
    block-Halved row col i j x y k l s low inside at_i at_j at_x at_y at_u at_v now =
        luma-Halved row col 0 i x _ s low inside (omega arith) (omega (arith, at_i))
          (omega (arith, at_x)) now
          (λ t now.
            luma-Halved row col 1 (i + 4) (x + 1) _ t low inside (omega arith) (omega (arith, at_i))
              (omega (arith, at_x)) now
              (λ t now.
                luma-Halved row col 2 j y _ t low inside (omega arith) (omega (arith, at_j))
                  (omega (arith, at_y)) now
                  (λ t now.
                    luma-Halved row col 3 (j + 4) (y + 1) _ t low inside (omega arith)
                      (omega (arith, at_j)) (omega (arith, at_y)) now
                      (λ t now.
                        rw (at_i, at_j)
                          (put_block-Halved row col k l t low inside at_u at_v now)))))

    blocks-Halved :
        (n row col i j x y k l : ℕ) (s : Planes)
        → row < down
        → col + n ≡ across
        → i ≡ upper stride row col
        → j ≡ lower stride row col
        → x ≡ 2 * row * y_stride + 2 * col
        → y ≡ (2 * row + 1) * y_stride + 2 * col
        → k ≡ row * u_stride + col
        → l ≡ row * v_stride + col
        → Halved row col 0 col col s
        → Ends (λ _. Halved row across 0 across across) (blocks planar 4 1 p rgba n i j x y k l s)
    unfolding blocks
    blocks-Halved zero row col i j x y k l s low ends at_i at_j at_x at_y at_u at_v now =
        subst (λ c. Halved row c 0 c c s) (omega (arith, ends)) now
    blocks-Halved (suc n) row col i j x y k l s low ends at_i at_j at_x at_y at_u at_v now =
        Ends-then (Halved row (suc col) 0 (suc col) (suc col)) (Halved row across 0 across across)
          (block planar 4 1 p rgba i j x y k l)
          (blocks planar 4 1 p rgba n (i + 8) (j + 8) (x + 2) (y + 2) (k + 1) (l + 1)) s
          (block-Halved row col i j x y k l s low (omega (arith, ends)) at_i at_j at_x at_y at_u
            at_v now)
          (λ t.
            blocks-Halved n row (suc col) (i + 8) (j + 8) (x + 2) (y + 2) (k + 1) (l + 1) t low
              (omega (arith, ends)) (omega (arith, at_i)) (omega (arith, at_j))
              (omega (arith, at_x)) (omega (arith, at_y)) (omega (arith, at_u))
              (omega (arith, at_v)))

    pub row_pairs-Halved :
        (n width row : ℕ) (s : Planes)
        → rounds width ≡ across
        → row + n ≡ down
        → Halved row 0 0 0 0 s
        → Ends
            (λ _. Halved down 0 0 0 0)
            (row_pairs planar 4 1 p rgba width stride y_stride u_stride v_stride 0 n row s)
    unfolding row_pairs
    row_pairs-Halved zero width row s wide ends now =
        subst (λ r. Halved r 0 0 0 0 s) (omega (arith, ends)) now
    row_pairs-Halved (suc n) width row s wide ends now =
        Ends-then (Halved row across 0 across across) (Halved down 0 0 0 0)
          (blocks planar 4 1 p rgba (rounds width) (2 * row * stride) ((2 * row + 1) * stride)
            (2 * row * y_stride) ((2 * row + 1) * y_stride) (row * u_stride) (row * v_stride + 0))
          (row_pairs planar 4 1 p rgba width stride y_stride u_stride v_stride 0 n (suc row)) s
          (rw wide (
            blocks-Halved across row 0 (2 * row * stride) ((2 * row + 1) * stride)
              (2 * row * y_stride) ((2 * row + 1) * y_stride) (row * u_stride) (row * v_stride + 0)
              s (omega (arith, ends)) (omega arith) (omega arith) (omega arith) (omega arith)
              (omega arith) (omega arith) (omega arith) now))
          (λ t done. row_pairs-Halved n width (suc row) t wide (omega (arith, ends)) (record {
            in_y = Grouped-next _ _ _ _ _ row t.y done.in_y;
            in_u = Written-next _ _ _ _ row t.u done.in_u;
            in_v = Written-next _ _ _ _ row t.v done.in_v;
          }))
