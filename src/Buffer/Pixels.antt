-- ===== src/Buffer/Pixels.antt =====
-- An image of four bytes for each pixel, of which three are written pixel by pixel.
use sanzu.Prelude.{ℕ, suc, ◌+◌, ◌*◌, ◌≤◌, ◌<◌, ◌≡◌, refl, List, ◌==◌, if◌then◌else◌, arith}
use mathlib.Core.Path.{subst}
use sanzu.Outcome.{Ends, Ends-map, ◌>>◌}
use sanzu.Buffer.{put_byte}
use sanzu.Buffer.Rows.{in_row, strided-eq}
use sanzu.Buffer.Groups
use sanzu.Buffer.Groups.{Grouped, Grouped-group, Apart}

-- The byte `k` of the pixel in the row `r` and the column `c`.
abbrev pub channel : (stride k r c : ℕ) → ℕ
channel stride k r c = r * stride + 4 * c + k

-- The byte `k` of three.
abbrev pub component : (k : ℕ) → ℕ × ℕ × ℕ → ℕ
component k rgb = if k == 0 then rgb.0 else if k == 1 then rgb.1 else rgb.2

module _ (width height stride size : ℕ) (rgb : (r c : ℕ) → ℕ × ℕ × ℕ) where
  abbrev pub bytes : (k r c : ℕ) → ℕ
  bytes k r c = component k (rgb r c)

  -- The three colours, of which `done` are written for this pixel.
  abbrev pub Painted : (row col done : ℕ) → List ℕ → Type 0
  Painted = Grouped width size 3 (channel stride) bytes

  module _ (wide : 4 * width ≤ stride) (high : height * stride ≤ size) where
    channel-Apart : Apart width size 3 (channel stride) bytes
    channel-Apart k l r c r' c' k3 l3 h h' e =
        let (rows, columns) =
          strided-eq stride r r' (4 * c + k) (4 * c' + l) (omega (arith, wide, h, k3))
            (omega (arith, wide, h', l3)) (omega (arith, e)) in
        (omega (arith, columns, k3, l3), rows, omega (arith, columns, k3, l3))

    channel-inside :
        (row col k : ℕ) → row < height → col < width → k < 3 → channel stride k row col < size
    channel-inside row col k low inside k3 =
        subst (λ i. i < size) (omega arith)
          (in_row height stride size row (4 * col + k) high low (omega (arith, wide, inside, k3)))

    -- The bytes of a pixel, one after the other.
    pub put_three :
        (row col i : ℕ) (b : List ℕ)
        → row < height
        → col < width
        → i ≡ row * stride + 4 * col
        → Painted row col 0 b
        → Ends
            (λ _. Painted row (suc col) 0)
            ((do
              put_byte i (rgb row col).0
              put_byte (i + 1) (rgb row col).1
              put_byte (i + 2) (rgb row col).2)
              b)
    put_three row col i b low inside at now =
        Ends-map (Painted row col 3) (Painted row (suc col) 0) _
          (Grouped-group width size 3 (channel stride) bytes row col)
          (Groups.put_three width size 3 (channel stride) bytes row col 0 i (rgb row col).0
            (rgb row col).1 (rgb row col).2 b channel-Apart inside (omega arith)
            (channel-inside row col 0 low inside (omega arith))
            (channel-inside row col 1 low inside (omega arith))
            (channel-inside row col 2 low inside (omega arith)) (omega (arith, at))
            (omega (arith, at)) (omega (arith, at)) refl refl refl now)
