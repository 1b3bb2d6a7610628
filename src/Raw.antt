-- ===== src/Raw.antt =====
-- The encoder and the decoder that pass raw images on: `EncoderNull` of
-- sanzu/src/video_encoder.rs and `DecoderNull` of sanzu/src/video_decoder.rs.
pub mod Copied
use sanzu.Prelude.{
  ℕ, zero, suc, ◌+◌, ◌*◌, Bool, true, false, ◌||◌, List, [], ◌∷◌, ◌++◌, Option, none, some, length,
  take, drop, replicate, ltb, if◌then◌else◌,
}
use sanzu.Outcome.{Outcome, ok, err, panic, Io, pure, ◌>>=◌, ◌>>◌}

-- `encode_image` of `EncoderNull`: the bytes of the image as they are.
abbrev pub encode_image : (image : List ℕ) (width height bytes_per_line count : ℕ) → List ℕ
encode_image image width height bytes_per_line count = image

pub record DecoderNull : Type 0 where
  pub data_rgba : Option (List ℕ)
  pub data_rgb : Option (List ℕ)

abbrev pub reload : DecoderNull → DecoderNull
reload d = record { data_rgba = none; data_rgb = none }

-- A buffer that is made once.
abbrev pub alloc : Option (List ℕ) → ℕ → List ℕ
alloc none size = replicate size 0
alloc (some buffer) size = buffer

-- The bytes of a row.
abbrev pub row_of : (data_in : List ℕ) (line width row : ℕ) → List ℕ
row_of data_in line width row = take (4 * width) (drop (row * line) data_in)

module _ (data_in : List ℕ) (line width : ℕ) where
  -- `dst[a..a + n].clone_from_slice(&data_in[b..b + n])`
  unfoldable pub copy_row : ℕ → Io (List ℕ) (Unit {0})
  copy_row row dst =
      if ltb (length dst) (4 * (row * width) + 4 * width)
        || ltb (length data_in) (row * line + 4 * width)
      then (panic "range end index out of range", dst)
      else (
        ok tt,
        take (4 * (row * width)) dst
            ++ (row_of data_in line width row ++ drop (4 * (row * width) + 4 * width) dst),
      )

  -- `n` rows from `row` on.
  unfoldable pub copy_rows : (n row : ℕ) → Io (List ℕ) (Unit {0})
  copy_rows zero row = pure tt
  copy_rows (suc n) row = do copy_row row; copy_rows n (suc row)

-- Was there an image?
abbrev pub copied : Outcome (Unit {0}) → Outcome Bool
copied (ok _) = ok true
copied (err chain) = err chain
copied (panic why) = panic why

-- `decode_img` of `DecoderNull`: true for an image, false where the bytes of a line are not known.
unfoldable pub decode_img :
    (data_in : List ℕ) (width height : ℕ) (line : Option ℕ) → Io DecoderNull Bool
decode_img data_in width height none d = (ok false, d)
decode_img data_in width height (some line) d =
    let (r, rgba) =
      copy_rows data_in line width height 0 (alloc d.data_rgba (width * height * 4)) in
    (
      copied r,
      record { data_rgba = some rgba; data_rgb = some (alloc d.data_rgb (width * height * 3)) },
    )
