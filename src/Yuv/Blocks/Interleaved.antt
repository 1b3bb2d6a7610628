-- ===== src/Yuv/Blocks/Interleaved.antt =====
-- The conversion to `nv12` against that to three planes.
use sanzu.Prelude.{ℕ, zero, suc, ◌+◌, ◌*◌, ◌≡◌, refl, sym, ap, ◌∙◌, List, length, arith}
use sanzu.Outcome.{Outcome, ok, err, panic, Io, ◌>>=◌, ◌>>◌, pure, continue}
use sanzu.Session.Server.{of}
use sanzu.Buffer.{get_byte}
use sanzu.Buffer.Interleave.{interleave, put_byte-even, put_byte-odd, length-put_byte}
use sanzu.Yuv.{RgbToYuvParam, YuvType, get_rgb_to_yuv_param, sub16, y_tmp, y_byte}
use sanzu.Yuv.Planar.{Planes, put_y, put_u, put_v, read_rgb}
use sanzu.Yuv.Blocks.{
  Nv12, planar, semi_planar, put_y_nv12, put_uv, luma, put_block, block, blocks, row_pairs, rounds,
  rgba_to_yuv420_std, rgba_to_nv12_std,
}

abbrev pub pack : Planes → Nv12
pack s = record { y = s.y; uv = interleave s.u s.v }

-- The second does on interleaved planes what the first does on planes of one size, failures and all,
-- and leaves them of one size.
pub record Same {A : Type 0} (f : Io Planes A) (g : Io Nv12 A) : Type 0 where
  pub run :
      (s : Planes)
      → length s.u ≡ length s.v
      → (g (pack s) ≡ ((f s).0, pack (f s).1)) × (length (f s).1.u ≡ length (f s).1.v)

module _ {A B : Type 0} (h : A → Io Planes B) (k : A → Io Nv12 B) where
  Same-continue :
      (r : Outcome A) (s : Planes)
      → length s.u ≡ length s.v
      → ((a : A) → Same (h a) (k a))
      → (continue r k (pack s) ≡ ((continue r h s).0, pack (continue r h s).1))
        × (length (continue r h s).1.u ≡ length (continue r h s).1.v)
  Same-continue (ok a) s e rest = (rest a).run s e
  Same-continue (err chain) s e rest = (refl, e)
  Same-continue (panic why) s e rest = (refl, e)

  Same-bind :
      (f : Io Planes A) (g : Io Nv12 A)
      → Same f g
      → ((a : A) → Same (h a) (k a))
      → Same (f >>= h) (g >>= k)
  Same-bind f g first rest = record {
    run = λ s e.
        let (done, size) = first.run s e in
        let (end, last) = Same-continue (f s).0 (f s).1 size rest in
        (ap (λ x. continue x.0 k x.1) done ∙ end, last);
  }

Same-then :
    {A B : Type 0} (f : Io Planes A) (g : Io Nv12 A) (m : Io Planes B) (n : Io Nv12 B)
    → Same f g
    → Same m n
    → Same (f >> m) (g >> n)
Same-then f g m n first rest = Same-bind (λ _. m) (λ _. n) f g first (λ _. rest)

Same-put_y : (index value : ℕ) → Same (put_y index value) (put_y_nv12 index value)
unfolding put_y put_y_nv12
Same-put_y index value = record { run = λ s e. (refl, e) }

Same-put_u : (k m value : ℕ) → m ≡ 2 * k → Same (put_u k value) (put_uv m value)
unfolding put_u put_uv
Same-put_u k m value at = record {
  run = λ s e. (rw (at, put_byte-even k value s.u s.v e) refl, length-put_byte k value s.u ∙ e);
}

Same-put_v : (k m value : ℕ) → m ≡ suc (2 * k) → Same (put_v k value) (put_uv m value)
unfolding put_v put_uv
Same-put_v k m value at = record {
  run =
      λ s e. (rw (at, put_byte-odd k value s.u s.v e) refl, e ∙ sym (length-put_byte k value s.v));
}

Same-of : {A : Type 0} (r : Outcome A) → Same (of r) (of r)
Same-of r = record { run = λ s e. (refl, e) }

Same-pure : {A : Type 0} (a : A) → Same (pure a) (pure a)
Same-pure a = record { run = λ s e. (refl, e) }

Same-read_rgb : (rgba : List ℕ) (index : ℕ) → Same (read_rgb rgba index) (read_rgb rgba index)
unfolding read_rgb
Same-read_rgb rgba index = Same-bind _ _ _ _ (Same-of (get_byte rgba index)) (λ r.
    Same-bind _ _ _ _ (Same-of (get_byte rgba (index + 1)))
      (λ g. Same-bind _ _ _ _ (Same-of (get_byte rgba (index + 2))) (λ b. Same-pure (r, g, b))))

module _ (param : RgbToYuvParam) (rgba : List ℕ) where
  Same-luma :
      (i j : ℕ) → Same (luma planar 4 1 param rgba i j) (luma semi_planar 4 2 param rgba i j)
  unfolding luma
  Same-luma i j = Same-bind _ _ _ _ (Same-read_rgb rgba i) (λ (r, g, b).
      Same-then _ _ _ _ (Same-put_y j (y_byte param (y_tmp param r g b)))
        (Same-pure (sub16 b (y_tmp param r g b), sub16 r (y_tmp param r g b))))

  Same-put_block :
      (k l m n : ℕ) (a b c d : ℕ × ℕ)
      → m ≡ 2 * k
      → n ≡ suc (2 * l)
      → Same
          (put_block planar 4 1 param rgba k l a b c d)
          (put_block semi_planar 4 2 param rgba m n a b c d)
  unfolding put_block
  Same-put_block k l m n a b c d first second =
      Same-then _ _ _ _ (Same-put_u k m _ first) (Same-put_v l n _ second)

  Same-block :
      (i j x y k l m n : ℕ)
      → m ≡ 2 * k
      → n ≡ suc (2 * l)
      → Same
          (block planar 4 1 param rgba i j x y k l)
          (block semi_planar 4 2 param rgba i j x y m n)
  unfolding block
  Same-block i j x y k l m n first second = Same-bind _ _ _ _ (Same-luma i x) (λ a.
      Same-bind _ _ _ _ (Same-luma (i + 4) (x + 1)) (λ b. Same-bind _ _ _ _ (Same-luma j y) (λ c.
        Same-bind _ _ _ _ (Same-luma (j + 4) (y + 1))
          (λ d. Same-put_block k l m n a b c d first second))))

  Same-blocks :
      (count i j x y k l m n : ℕ)
      → m ≡ 2 * k
      → n ≡ suc (2 * l)
      → Same
          (blocks planar 4 1 param rgba count i j x y k l)
          (blocks semi_planar 4 2 param rgba count i j x y m n)
  unfolding blocks
  Same-blocks zero i j x y k l m n first second = Same-pure tt
  Same-blocks (suc count) i j x y k l m n first second =
      Same-then _ _ _ _ (Same-block i j x y k l m n first second) (
        Same-blocks count (i + 8) (j + 8) (x + 2) (y + 2) (k + 1) (l + 1) (m + 2) (n + 2)
          (omega (arith, first)) (omega (arith, second)))

  Same-row_pairs :
      (width stride y_stride c_stride count k : ℕ)
      → Same (row_pairs planar 4 1 param rgba width stride y_stride c_stride c_stride 0 count k) (
          row_pairs semi_planar 4 2 param rgba width stride y_stride
            (2 * c_stride)
            (2 * c_stride)
            1
            count
            k)
  unfolding row_pairs
  Same-row_pairs width stride y_stride c_stride zero k = Same-pure tt
  Same-row_pairs width stride y_stride c_stride (suc count) k =
      Same-then _ _ _ _
        (Same-blocks (rounds width) (2 * k * stride) ((2 * k + 1) * stride) (2 * k * y_stride)
          ((2 * k + 1) * y_stride) (k * c_stride) (k * c_stride + 0) (k * (2 * c_stride))
          (k * (2 * c_stride) + 1) (omega arith) (omega arith))
        (Same-row_pairs width stride y_stride c_stride count (suc k))

-- The whole conversions.
pub rgba_to_nv12_std-Same :
    (width height : ℕ) (rgba : List ℕ) (rgba_stride y_stride stride : ℕ) (t : YuvType)
    → Same
        (rgba_to_yuv420_std width height rgba rgba_stride y_stride stride stride t)
        (rgba_to_nv12_std width height rgba rgba_stride y_stride (2 * stride) t)
unfolding rgba_to_nv12_std rgba_to_yuv420_std
rgba_to_nv12_std-Same width height rgba rgba_stride y_stride stride t =
    Same-row_pairs (get_rgb_to_yuv_param t) rgba width rgba_stride y_stride stride (rounds height) 0
