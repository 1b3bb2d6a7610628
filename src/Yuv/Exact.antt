-- ===== src/Yuv/Exact.antt =====
-- The arithmetic of the colour conversions that wraps comes to the formulas over the integers.
use sanzu.Prelude.{ℕ, ◌+◌, ◌-◌, ◌*◌, ◌/◌, ◌%◌, ◌≤◌, ◌<◌, ◌≡◌, ◌⊎◌, inl, inr, min, arith}
use sanzu.Yuv.{
  YuvType, get_rgb_to_yuv_param, get_yuv_to_rgb_param, sub16, y_tmp, y_byte, chroma, chroma4,
  to_rgb, sar, clamp,
}

-- 128 and the difference of a colour and the luma, times a factor in parts of 256, rounded down.
abbrev pub level : (factor c y : ℕ) → ℕ
level factor c y = (factor * c + 128 * 256 - factor * y) / 256

-- A colour is a byte, and nothing of a level is cut off below.
abbrev pub Exact : (factor byte c y : ℕ) → Type 0
Exact factor byte c y =
    (byte ≡ level factor c y) × (factor * y ≤ factor * c + 128 * 256) × (byte < 256)

-- The chroma of a pixel, in the source's three kinds: no wrap-around is left in it.
pub chroma-Exact :
    (t : YuvType) (r g b c : ℕ)
    → r ≤ 255
    → g ≤ 255
    → b ≤ 255
    → (c ≡ r) ⊎ (c ≡ b)
    → let p = get_rgb_to_yuv_param t in
      Exact p.cb_factor (chroma p (sub16 c (y_tmp p r g b))) c (y_tmp p r g b)
chroma-Exact YuvType.itu_t871 r g b c hr hg hb (inl e) = omega (arith, e)
chroma-Exact YuvType.itu_t871 r g b c hr hg hb (inr e) = omega (arith, e)
chroma-Exact YuvType.itu_r601 r g b c hr hg hb (inl e) = omega (arith, e)
chroma-Exact YuvType.itu_r601 r g b c hr hg hb (inr e) = omega (arith, e)
chroma-Exact YuvType.itu_r709 r g b c hr hg hb (inl e) = omega (arith, e)
chroma-Exact YuvType.itu_r709 r g b c hr hg hb (inr e) = omega (arith, e)

-- The sum of the four differences of a block, of which a quarter is taken, rounded down.
abbrev pub quarter_level : (factor cs ys : ℕ) → ℕ
quarter_level factor cs ys = (factor * ((cs + 4 * 256 - ys) / 4) + 128 * 256 - factor * 256) / 256

pub chroma4-Exact :
    (cs ys : ℕ)
    → cs ≤ 4 * 255
    → ys ≤ 4 * 255
    → ys ≤ cs + 4 * 226
    → cs ≤ ys + 4 * 227
    → let p = get_rgb_to_yuv_param YuvType.itu_t871 in
      chroma4 p (sub16 cs ys) ≡ quarter_level p.cb_factor cs ys
chroma4-Exact cs ys hc hy low high = omega arith

-- The luma keeps within its range.
pub y_byte-range :
    (t : YuvType) (r g b : ℕ)
    → r ≤ 255
    → g ≤ 255
    → b ≤ 255
    → let p = get_rgb_to_yuv_param t in
      let y = y_tmp p r g b in
      (y ≡ (p.r_factor * r + p.g_factor * g + p.b_factor * b) / 256)
      × (y_byte p y ≡ y * p.y_factor / 128 + p.y_offset)
      × (p.y_offset ≤ y_byte p y)
      × (y_byte p y + p.y_offset ≤ 255)
y_byte-range YuvType.itu_t871 r g b hr hg hb = omega arith
y_byte-range YuvType.itu_r601 r g b hr hg hb = omega arith
y_byte-range YuvType.itu_r709 r g b hr hg hb = omega arith

-- 512 and the `n`-th part of `factor` times a signed difference, rounded down. (The 512 keeps all
-- above zero.)
abbrev pub part : (n factor c middle : ℕ) → ℕ
part n factor c middle = (factor * c + n * 512 - factor * middle) / n

-- A colour from the luma `y` and a chroma `c`, and green, from both.
abbrev pub colour : (y_factor y_offset y factor c : ℕ) → ℕ
colour y_factor y_offset y factor c =
    min 255 (part 128 y_factor y y_offset + part 64 factor c 128 - 1024)

abbrev pub green : (y_factor y_offset y g_cb u g_cr v : ℕ) → ℕ
green y_factor y_offset y g_cb u g_cr v =
    min 255
      (part 128 y_factor y y_offset - (g_cb * u + g_cr * v + 128 * 512 - (g_cb + g_cr) * 128) / 128)

-- The shift of the bits of a difference.
sar-part :
    (a b x : ℕ)
    → x ≡ (a + 65536 - b) % 65536
    → a < b + 32768
    → b ≤ a + 32768
    → sar x 7 ≡ ((a + 128 * 512 - b) / 128 + 65024) % 65536
sar-part a b x e high low = ground arith

clamp-sub16 :
    (a b : ℕ)
    → a ≤ 1024
    → b ≤ 1024
    → clamp (sub16 ((a + 65024) % 65536) ((b + 65024) % 65536)) ≡ min 255 (a - b)
clamp-sub16 a b ha hb = ground arith

-- The largest luma that does not overflow: with an offset, no more than the nominal white.
abbrev pub top : YuvType → ℕ
top YuvType.itu_t871 = 255
top YuvType.itu_r601 = 235
top YuvType.itu_r709 = 235

red-Exact :
    (t : YuvType) (y u v : ℕ)
    → y ≤ top t
    → v ≤ 255
    → let p = get_yuv_to_rgb_param t in
      (to_rgb p y u v).0 ≡ colour p.y_factor p.y_offset y p.cr_factor v
red-Exact YuvType.itu_t871 y u v hy hv = ground arith
red-Exact YuvType.itu_r601 y u v hy hv = ground arith
red-Exact YuvType.itu_r709 y u v hy hv = ground arith

-- The difference of two shifts.
green-bits :
    (a b x c d z : ℕ)
    → x ≡ (a + 65536 - b) % 65536
    → a < b + 32768
    → b ≤ a + 32768
    → z ≡ (c + 65536 - d) % 65536
    → c < d + 32768
    → d ≤ c + 32768
    → clamp (sub16 (sar x 7) (sar z 7))
      ≡ min 255 ((a + 128 * 512 - b) / 128 - (c + 128 * 512 - d) / 128)
green-bits a b x c d z ex high low ez high' low' = rw (
  sar-part a b x ex high low,
  sar-part c d z ez high' low',
  clamp-sub16 ((a + 128 * 512 - b) / 128) ((c + 128 * 512 - d) / 128) (omega (arith, high))
      (omega (arith, high')),
)

green-Exact :
    (t : YuvType) (y u v : ℕ)
    → y ≤ top t
    → u ≤ 255
    → v ≤ 255
    → let p = get_yuv_to_rgb_param t in
      (to_rgb p y u v).1 ≡ green p.y_factor p.y_offset y p.g_cb_factor u p.g_cr_factor v
green-Exact YuvType.itu_t871 y u v hy hu hv =
    green-bits (128 * y) 0 (128 * sub16 y 0 % 65536) (44 * u + 91 * v) (135 * 128)
      ((44 * sub16 u 128 + 91 * sub16 v 128) % 65536) (omega arith) (omega arith) (omega arith)
      (omega arith) (omega arith) (omega arith)
green-Exact YuvType.itu_r601 y u v hy hu hv =
    green-bits (149 * y) (149 * 16) (149 * sub16 y 16 % 65536) (50 * u + 104 * v) (154 * 128)
      ((50 * sub16 u 128 + 104 * sub16 v 128) % 65536) (omega arith) (omega arith) (omega arith)
      (omega arith) (omega arith) (omega arith)
green-Exact YuvType.itu_r709 y u v hy hu hv =
    green-bits (149 * y) (149 * 16) (149 * sub16 y 16 % 65536) (27 * u + 68 * v) (95 * 128)
      ((27 * sub16 u 128 + 68 * sub16 v 128) % 65536) (omega arith) (omega arith) (omega arith)
      (omega arith) (omega arith) (omega arith)

blue-Exact :
    (t : YuvType) (y u v : ℕ)
    → y ≤ top t
    → u ≤ 255
    → let p = get_yuv_to_rgb_param t in
      (to_rgb p y u v).2 ≡ colour p.y_factor p.y_offset y p.cb_factor u
blue-Exact YuvType.itu_t871 y u v hy hu = ground arith
blue-Exact YuvType.itu_r601 y u v hy hu = ground arith
blue-Exact YuvType.itu_r709 y u v hy hu = ground arith

-- A pixel becomes what the formulas say, in the source's three kinds: no overflow of sixteen bits
-- shows in it, up to the nominal white where black is not 0. (The chroma are bytes.)
pub to_rgb-Exact :
    (t : YuvType) (y u v : ℕ)
    → y ≤ top t
    → u ≤ 255
    → v ≤ 255
    → let p = get_yuv_to_rgb_param t in
      to_rgb p y u v ≡ (
        colour p.y_factor p.y_offset y p.cr_factor v,
        green p.y_factor p.y_offset y p.g_cb_factor u p.g_cr_factor v,
        colour p.y_factor p.y_offset y p.cb_factor u,
      )
to_rgb-Exact t y u v hy hu hv =
    rw (red-Exact t y u v hy hv, green-Exact t y u v hy hu hv, blue-Exact t y u v hy hu)

three : {a b c : ℕ} (k : ℕ) → a ≡ k → b ≡ k → c ≡ k → ◌≡◌ {A = ℕ × ℕ × ℕ} (a, b, c) (k, k, k)
three k e f g = rw (e, f, g)

-- A grey pixel comes back as it was, and the blue of any pixel up to five.
pub grey-back :
    (k : ℕ)
    → k ≤ 255
    → let p = get_rgb_to_yuv_param YuvType.itu_t871 in
      let y = y_tmp p k k k in
      to_rgb
        (get_yuv_to_rgb_param YuvType.itu_t871)
        (y_byte p y)
        (chroma p (sub16 k y))
        (chroma p (sub16 k y))
      ≡ (k, k, k)
grey-back k h =
    let p = get_rgb_to_yuv_param YuvType.itu_t871 in
    let luma : y_byte p (y_tmp p k k k) ≡ k = omega arith in
    let none : chroma p (sub16 k (y_tmp p k k k)) ≡ 128 = omega arith in
    rw (luma, none, to_rgb-Exact YuvType.itu_t871 k 128 128 h (omega arith) (omega arith))
      (three k (omega arith) (omega arith) (omega arith))

blue-back :
    (r g b : ℕ)
    → r ≤ 255
    → g ≤ 255
    → b ≤ 255
    → let p = get_rgb_to_yuv_param YuvType.itu_t871 in
      let y = y_tmp p r g b in
      let back =
        (to_rgb
          (get_yuv_to_rgb_param YuvType.itu_t871)
          (y_byte p y)
          (chroma p (sub16 b y))
          (chroma p (sub16 r y))).2 in
      (back ≤ b + 5) × (b ≤ back + 5)
blue-back r g b hr hg hb = ground arith
