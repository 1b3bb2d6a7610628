-- ===== src/Tests/Raw.antt =====
-- The results on the raw decoder at an image of one by two pixels, with a gap after each row.
use sanzu.Prelude.{◌≡◌, true, [], ◌∷◌, none, some, replicate, arith}
use sanzu.Outcome.{ok}
use sanzu.Raw.{DecoderNull, decode_img}
use sanzu.Raw.Copied.{decode_img-rows}

abbrev fresh : DecoderNull
fresh = record { data_rgba = none; data_rgb = none }

decode_img-rows_example : decode_img (1 ∷ 2 ∷ 3 ∷ 4 ∷ 0 ∷ 5 ∷ 6 ∷ 7 ∷ 8 ∷ []) 1 2 (some 5) fresh ≡ (
  ok true,
  record { data_rgba = some (1 ∷ 2 ∷ 3 ∷ 4 ∷ 5 ∷ 6 ∷ 7 ∷ 8 ∷ []); data_rgb = some (replicate 6 0) },
)
decode_img-rows_example =
    decode_img-rows (1 ∷ 2 ∷ 3 ∷ 4 ∷ 0 ∷ 5 ∷ 6 ∷ 7 ∷ 8 ∷ []) 1 2 5 fresh tt
      (λ r low. omega (arith, low))
