-- ===== src/Tests/Xwd.antt =====
-- The result on `get_xwd_data` at a file that is shorter than its header.
use sanzu.Prelude.{ℕ, List, [], ◌∷◌, replicate, take, ◌++◌}
use sanzu.Outcome.{ok}
use sanzu.Xwd.{get_xwd_data, read_header, strange}
use sanzu.Xwd.Limits.{Within, get_xwd_data-Within}

-- Every field of the header is the first of its bytes.
abbrev first_byte : List ℕ → ℕ
first_byte [] = 0
first_byte (b ∷ bytes) = b

-- One line of two bytes, behind a header of 256 bytes.
abbrev small_file : List ℕ
small_file = 100 ∷ replicate 47 0 ++ 2 ∷ replicate 31 0 ++ 5 ∷ 0 ∷ 0 ∷ 0 ∷ 1 ∷ replicate 200 7

get_xwd_data-Within_example :
    Within
      (read_header first_byte (take 256 small_file))
      small_file
      (ok (record { pixels = 7 ∷ 7 ∷ []; width = 5; height = 1; bytes_per_line = 2 }))
unfolding get_xwd_data read_header strange
get_xwd_data-Within_example = get_xwd_data-Within first_byte small_file
