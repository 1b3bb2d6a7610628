-- ===== src/Yuv/Planar/Grey.antt =====
-- An image that is converted to three planes and back.
use sanzu.Prelude.{
  ℕ, zero, suc, ◌+◌, ◌*◌, ◌≤◌, ◌<◌, ◌≡◌, ap, ◌∙◌, inl, List, [], ◌∷◌, some, get_elem?, arith,
}
use mathlib.Core.Option.{some-injective}
use mathlib.Core.Path.{subst}
use sanzu.Outcome.{ok, Ends, Ends-map}
use sanzu.Buffer.{byte_at}
use sanzu.Yuv.{YuvType, get_rgb_to_yuv_param, get_yuv_to_rgb_param}
use sanzu.Yuv.Exact.{grey-back}
use sanzu.Yuv.Planar.{Planes, rgba_to_yuv444_std, yuv444_to_rgba_std}
use sanzu.Yuv.Planar.Converted.{Roomy, Converted, Converted-all}
use sanzu.Buffer.Pixels.{channel}
use sanzu.Yuv.Planar.Restored.{rgb_at, Holds, Restored, Restored-all}

byte_at-some : (b : List ℕ) (i v : ℕ) → get_elem? b i ≡ some v → byte_at b i ≡ v
byte_at-some [] i v e = absurd (cc e)
byte_at-some (x ∷ b) zero v e = some-injective _ _ e
byte_at-some (x ∷ b) (suc i) v e = byte_at-some b i v e

-- A grey pixel of an image that is converted to three planes with the factors of T.871, and from
-- these into another buffer with those of T.871, has its shade there, exactly, in all three bytes.
-- (The strides are wide enough, and the buffers have all rows. With the factors of BT.601 and BT.709
-- a shade can be lost.)
pub yuv444-grey :
    (width height rgba_stride y_stride u_stride v_stride out_stride : ℕ) (rgba b : List ℕ)
    (s s' : Planes) (r c shade : ℕ)
    → Roomy width rgba_stride y_stride u_stride v_stride
        (get_rgb_to_yuv_param YuvType.itu_t871)
        rgba
        s
        height
    → rgba_to_yuv444_std width height rgba rgba_stride y_stride u_stride v_stride YuvType.itu_t871 s
      ≡ (ok tt, s')
    → Holds width height y_stride u_stride v_stride out_stride
        (get_yuv_to_rgb_param YuvType.itu_t871)
        s'
        b
    → r < height
    → c < width
    → shade ≤ 255
    → byte_at rgba (r * rgba_stride + 4 * c) ≡ shade
    → byte_at rgba (r * rgba_stride + 4 * c + 1) ≡ shade
    → byte_at rgba (r * rgba_stride + 4 * c + 2) ≡ shade
    → Ends
        (λ _ b'.
          (get_elem? b' (channel out_stride 0 r c) ≡ some shade)
          × (get_elem? b' (channel out_stride 1 r c) ≡ some shade)
          × (get_elem? b' (channel out_stride 2 r c) ≡ some shade))
        (yuv444_to_rgba_std width height s' y_stride u_stride v_stride out_stride YuvType.itu_t871
          b)
yuv444-grey width height rgba_stride y_stride u_stride v_stride out_stride rgba b s s' r c shade
      room converted holds low inside byte red green blue =
    let p = get_rgb_to_yuv_param YuvType.itu_t871 in
    let q = get_yuv_to_rgb_param YuvType.itu_t871 in
    let planes =
      subst
        (Ends (λ _. Converted width rgba_stride y_stride u_stride v_stride p rgba s height 0 0 0))
        converted
        (Converted-all YuvType.itu_t871 width height rgba_stride y_stride u_stride v_stride rgba s
          room) in
    let y = byte_at-some s'.y _ _ (planes.in_y.written r c inside (inl low)) in
    let u = byte_at-some s'.u _ _ (planes.in_u.written r c inside (inl low)) in
    let v = byte_at-some s'.v _ _ (planes.in_v.written r c inside (inl low)) in
    let back : rgb_at width height y_stride u_stride v_stride out_stride q s' b r c
        ≡ (shade, shade, shade) =
      rw (y, u, v, red, green, blue) (grey-back shade byte) in
    Ends-map (Restored width height y_stride u_stride v_stride out_stride q s' b height 0) _ _
      (λ b' done. (
        (done.channels 0 (omega arith)).written r c inside (inl low) ∙ ap (λ x. some x.0) back,
        (done.channels 1 (omega arith)).written r c inside (inl low) ∙ ap (λ x. some x.1) back,
        (done.channels 2 (omega arith)).written r c inside (inl low) ∙ ap (λ x. some x.2) back,
      ))
      (Restored-all YuvType.itu_t871 width height y_stride u_stride v_stride out_stride s' b holds)
