-- ===== src/Raw/Copied.antt =====
-- What the raw decoder makes of an image.
use sanzu.Prelude.{
  ℕ, zero, suc, ◌+◌, ◌*◌, ◌≤◌, ◌<◌, ◌≡◌, refl, sym, ap, ◌∙◌, true, List, [], ◌∷◌, ◌++◌,
  append_assoc, Option, none, some, length, drop, length-append, length-take, length-drop,
  length-replicate, take-append, take-append-drop, drop-drop, drop_past, ltb-false, arith,
}
use mathlib.Core.Path.{subst}
use native.Mathlib.Nat.{mul-le-mul_left}
use sanzu.Outcome.{ok}
use sanzu.Raw.{encode_image, DecoderNull, alloc, row_of, copy_row, copy_rows, decode_img}

-- The rows of an image without what lies between them.
abbrev pub rows : (data_in : List ℕ) (line width n row : ℕ) → List ℕ
rows data_in line width zero row = []
rows data_in line width (suc n) row =
    row_of data_in line width row ++ rows data_in line width n (suc row)

-- Every row lies in the data_in.
abbrev pub Covers : (data_in : List ℕ) (line width n row : ℕ) → Type 0
Covers data_in line width n row = (r : ℕ) → r < n → (row + r) * line + 4 * width ≤ length data_in

module _ (data_in : List ℕ) (line width : ℕ) where
  length-row_of :
      (row : ℕ)
      → row * line + 4 * width ≤ length data_in
      → length (row_of data_in line width row) ≡ 4 * width
  length-row_of row inside =
      length-take (4 * width) (drop (row * line) data_in)
      ∙ (let dropped = length-drop (row * line) data_in in ground (arith, dropped, inside))

  copy_row-eq :
      (row : ℕ) (pre rest : List ℕ)
      → length pre ≡ 4 * (row * width)
      → 4 * width ≤ length rest
      → row * line + 4 * width ≤ length data_in
      → copy_row data_in line width row (pre ++ rest)
        ≡ (ok tt, pre ++ (row_of data_in line width row ++ drop (4 * width) rest))
  unfolding copy_row
  copy_row-eq row pre rest before room inside = rw (
    sym before,
    take-append pre rest,
    drop_past pre rest (4 * width),
    ltb-false (length (pre ++ rest)) (length pre + 4 * width)
        (let all = length-append pre rest in omega (arith, all, room)),
    ltb-false (length data_in) (row * line + 4 * width) inside,
  )

  copy_rows-eq :
      (n row : ℕ) (pre rest : List ℕ)
      → length pre ≡ 4 * (row * width)
      → length rest ≡ 4 * width * n
      → Covers data_in line width n row
      → copy_rows data_in line width n row (pre ++ rest)
        ≡ (ok tt, pre ++ rows data_in line width n row)
  unfolding copy_rows
  copy_rows-eq zero row pre [] before room inside = refl
  copy_rows-eq zero row pre (x ∷ rest) before room inside = absurd (omega (arith, room))
  copy_rows-eq (suc n) row pre rest before room inside =
      let here =
        subst (λ k. k * line + 4 * width ≤ length data_in) (omega arith) (inside 0 (omega arith)) in
      let sliced = length-row_of row here in
      rw (
        copy_row-eq row pre rest before (omega (arith, room)) here,
        sym (append_assoc pre (row_of data_in line width row) (drop (4 * width) rest)),
        copy_rows-eq n (suc row) (pre ++ row_of data_in line width row) (drop (4 * width) rest)
            (let all = length-append pre (row_of data_in line width row) in
              omega (arith, all, sliced, before))
            (let left = length-drop (4 * width) rest in omega (arith, left, room))
            (λ r low.
              subst (λ k. k * line + 4 * width ≤ length data_in) (omega arith)
                (inside (suc r) (omega (arith, low)))),
        append_assoc pre (row_of data_in line width row) (rows data_in line width n (suc row)),
      )

-- The buffer of a decoder, if it has one, is for images of this size.
abbrev pub Sized : (size : ℕ) → Option (List ℕ) → Type 0
Sized size none = Unit
Sized size (some buffer) = length buffer ≡ size

length-alloc : (size : ℕ) (o : Option (List ℕ)) → Sized size o → length (alloc o size) ≡ size
length-alloc size none h = length-replicate size 0
length-alloc size (some buffer) h = h

-- The decoder of raw images makes, of data that reaches to the end of every row, the rows of the
-- image one after the other, each four bytes for each pixel, without what lies between them. (Its
-- buffer, if it has one, is for this size.)
pub decode_img-rows :
    (data_in : List ℕ) (width height line : ℕ) (d : DecoderNull)
    → Sized (width * height * 4) d.data_rgba
    → Covers data_in line width height 0
    → decode_img data_in width height (some line) d ≡ (
      ok true,
      record {
        data_rgba = some (rows data_in line width height 0);
        data_rgb = some (alloc d.data_rgb (width * height * 3));
      },
    )
unfolding decode_img
decode_img-rows data_in width height line d sized inside = rw (
    copy_rows-eq data_in line width height 0 [] (alloc d.data_rgba (width * height * 4))
      (omega arith)
      (let size = length-alloc (width * height * 4) d.data_rgba sized in omega (arith, size))
      inside)

empty_of : {A : Type 0} (xs : List A) → length xs ≡ 0 → [] ≡ xs
empty_of [] e = refl
empty_of (x ∷ xs) e = absurd (omega (arith, e))

next_row : (row width : ℕ) → suc row * (4 * width) ≡ row * (4 * width) + 4 * width
next_row row width = omega arith

rows-whole :
    (image : List ℕ) (width n row : ℕ)
    → length image ≡ 4 * width * (row + n)
    → rows image (4 * width) width n row ≡ drop (row * (4 * width)) image
rows-whole image width zero row size =
    empty_of (drop (row * (4 * width)) image)
      (let left = length-drop (row * (4 * width)) image in omega (arith, left, size))
rows-whole image width (suc n) row size = rw (
  rows-whole image width n (suc row) (omega (arith, size)),
  ap (λ k. drop k image) (next_row row width),
  drop-drop (row * (4 * width)) (4 * width) image,
  take-append-drop (4 * width) (drop (row * (4 * width)) image),
)

-- An image without gaps between its rows comes out of the raw decoder as it went into the raw
-- encoder. (The buffer of the decoder, if it has one, is for this size.)
pub decode_img-encode_image :
    (image : List ℕ) (width height count : ℕ) (d : DecoderNull)
    → Sized (width * height * 4) d.data_rgba
    → length image ≡ 4 * width * height
    → decode_img
        (encode_image image width height (4 * width) count)
        width
        height
        (some (4 * width))
        d
      ≡ (
        ok true,
        record { data_rgba = some image; data_rgb = some (alloc d.data_rgb (width * height * 3)) },
      )
decode_img-encode_image image width height count d sized size =
    let undropped : 0 * (4 * width) ≡ 0 = omega arith in
    decode_img-rows image width height (4 * width) d sized (λ r low.
      let fits : 4 * width * suc r ≤ 4 * width * height = mul-le-mul_left (4 * width) low in
      omega (arith, fits, size))
    ∙ ap
        (λ rgba. (
          ok true,
          record { data_rgba = some rgba; data_rgb = some (alloc d.data_rgb (width * height * 3)) },
        ))
        (rows-whole image width height 0 (omega (arith, size)) ∙ ap (λ k. drop k image) undropped)
