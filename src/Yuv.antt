-- ===== src/Yuv.antt =====
-- The portable colour conversions of sanzu/src/yuv_rgb_rs.rs: their factors, and what they compute
-- of one pixel. Arithmetic on `u16` and `i16` wraps, as in a release build.
pub mod Exact
pub mod Planar
pub mod Blocks
use sanzu.Prelude.{ℕ, ◌+◌, ◌-◌, ◌*◌, ◌/◌, ◌%◌, ◌^◌, Bool, min, ltb, if◌then◌else◌}

pub record RgbToYuvParam : Type 0 where
  pub r_factor : ℕ
  pub g_factor : ℕ
  pub b_factor : ℕ
  pub cb_factor : ℕ
  pub cr_factor : ℕ
  pub y_factor : ℕ
  pub y_offset : ℕ

pub record YuvToRgbParam : Type 0 where
  pub cb_factor : ℕ
  pub cr_factor : ℕ
  pub g_cb_factor : ℕ
  pub g_cr_factor : ℕ
  pub y_factor : ℕ
  pub y_offset : ℕ

pub data YuvType : Type 0 where
  itu_t871 : YuvType
  itu_r601 : YuvType
  itu_r709 : YuvType

-- Of the fraction `num / den`; a value that is too big for a byte is 255. The fractions are exact
-- where the source has `f32`, and none of those below is within a hundredth of where the result
-- changes.
abbrev pub f32_to_fixed_point : (num den precision : ℕ) → ℕ
f32_to_fixed_point num den precision = min 255 ((2 * num * 2 ^ precision + den) / (2 * den))

-- `rf` and `bf` are in parts of 10,000.
abbrev pub gen_rgb_to_yuv_param : (rf bf ymin ymax cbcrrange : ℕ) → RgbToYuvParam
gen_rgb_to_yuv_param rf bf ymin ymax cbcrrange = record {
  r_factor = f32_to_fixed_point rf 10_000 8;
  g_factor = 255 - f32_to_fixed_point rf 10_000 8 - f32_to_fixed_point bf 10_000 8 + 1;
  b_factor = f32_to_fixed_point bf 10_000 8;
  cb_factor = f32_to_fixed_point (cbcrrange * 10_000) (255 * 2 * (10_000 - bf)) 8;
  cr_factor = f32_to_fixed_point (cbcrrange * 10_000) (255 * 2 * (10_000 - rf)) 8;
  y_factor = f32_to_fixed_point (ymax - ymin) 255 7;
  y_offset = ymin;
}

abbrev pub gen_yuv_to_rgb_param : (rf bf ymin ymax cbcrrange : ℕ) → YuvToRgbParam
gen_yuv_to_rgb_param rf bf ymin ymax cbcrrange = record {
  cb_factor = f32_to_fixed_point (255 * 2 * (10_000 - bf)) (cbcrrange * 10_000) 6;
  cr_factor = f32_to_fixed_point (255 * 2 * (10_000 - rf)) (cbcrrange * 10_000) 6;
  g_cb_factor =
      f32_to_fixed_point (bf * 255 * 2 * (10_000 - bf)) ((10_000 - bf - rf) * cbcrrange * 10_000) 7;
  g_cr_factor =
      f32_to_fixed_point (rf * 255 * 2 * (10_000 - rf)) ((10_000 - bf - rf) * cbcrrange * 10_000) 7;
  y_factor = f32_to_fixed_point 255 (ymax - ymin) 7;
  y_offset = ymin;
}

abbrev pub get_rgb_to_yuv_param : YuvType → RgbToYuvParam
get_rgb_to_yuv_param YuvType.itu_t871 = gen_rgb_to_yuv_param 2990 1140 0 255 255
get_rgb_to_yuv_param YuvType.itu_r601 = gen_rgb_to_yuv_param 2990 1140 16 235 224
get_rgb_to_yuv_param YuvType.itu_r709 = gen_rgb_to_yuv_param 2126 722 16 235 224

abbrev pub get_yuv_to_rgb_param : YuvType → YuvToRgbParam
get_yuv_to_rgb_param YuvType.itu_t871 = gen_yuv_to_rgb_param 2990 1140 0 255 255
get_yuv_to_rgb_param YuvType.itu_r601 = gen_yuv_to_rgb_param 2990 1140 16 235 224
get_yuv_to_rgb_param YuvType.itu_r709 = gen_yuv_to_rgb_param 2126 722 16 235 224

-- `a - b` on 16 bits.
abbrev pub sub16 : ℕ → ℕ → ℕ
sub16 a b = (a + 65536 - b) % 65536

module _ (param : RgbToYuvParam) where
  -- `y_tmp` of a pixel, and the byte of it.
  abbrev pub y_tmp : (r g b : ℕ) → ℕ
  y_tmp r g b = (param.r_factor * r + param.g_factor * g + param.b_factor * b) % 65536 / 256

  abbrev pub y_byte : ℕ → ℕ
  y_byte y = (y * param.y_factor % 65536 / 128 + param.y_offset) % 256

  -- The byte of a difference between a colour and `y_tmp`, for a pixel.
  abbrev pub chroma : ℕ → ℕ
  chroma d = (d * param.cb_factor % 65536 / 256 + 128) % 256

  -- The byte of the sum of the differences of four pixels; the shift is one of unsigned numbers.
  abbrev pub chroma4 : ℕ → ℕ
  chroma4 sum = (sum / 4 * param.cb_factor % 65536 / 256 + 128) % 256

-- `i16` values by their bits. `x >> k` repeats the sign.
abbrev pub negative : ℕ → Bool
negative x = ltb 32767 x

abbrev pub sar : ℕ → ℕ → ℕ
sar x k = if negative x then 65536 - (65536 - x + 2 ^ k - 1) / 2 ^ k else x / 2 ^ k

abbrev pub add16 : ℕ → ℕ → ℕ
add16 a b = (a + b) % 65536

abbrev pub clamp : ℕ → ℕ
clamp value = if negative value then 0 else if ltb 255 value then 255 else value

module _ (param : YuvToRgbParam) where
  abbrev pub b_cb_offset : ℕ → ℕ
  b_cb_offset u_tmp = sar (param.cb_factor * u_tmp % 65536) 6

  abbrev pub r_cr_offset : ℕ → ℕ
  r_cr_offset v_tmp = sar (param.cr_factor * v_tmp % 65536) 6

  abbrev pub g_cbcr_offset : ℕ → ℕ → ℕ
  g_cbcr_offset u_tmp v_tmp =
      sar ((param.g_cb_factor * u_tmp + param.g_cr_factor * v_tmp) % 65536) 7

  abbrev pub y_signed : ℕ → ℕ
  y_signed y = sar (param.y_factor * sub16 y param.y_offset % 65536) 7

  -- The three bytes of a pixel with the luma `y` and the chroma `u` and `v`.
  abbrev pub to_rgb : (y u v : ℕ) → ℕ × ℕ × ℕ
  to_rgb y u v = (
    clamp (add16 (y_signed y) (r_cr_offset (sub16 v 128))),
    clamp (sub16 (y_signed y) (g_cbcr_offset (sub16 u 128) (sub16 v 128))),
    clamp (add16 (y_signed y) (b_cb_offset (sub16 u 128))),
  )
