-- ===== src/Tests/Frame.antt =====
-- The results on `put_frame` at an image of two lines of 64 KiB, on a connection with requests for
-- one of them.
use sanzu.Prelude.{ℕ, ◌≡◌, List, [], ◌++◌, some, length, replicate, length-replicate, arith}
use sanzu.Outcome.{ok}
use sanzu.Client.Frame.{Put, Pixmap, put_frame}
use sanzu.Client.Frame.Bands.{Banded, put_frame-Banded}

-- An image of `n` black bytes.
black_image : (n : ℕ) → (img : List ℕ) × (length img ≡ n)
black_image n = (replicate n 0, length-replicate n 0)

abbrev empty : Pixmap
empty = record { puts = []; puts_left = 2 }

put_frame-Banded_example :
    (puts : List Put) × (left : ℕ) × (put_frame (black_image 131072).0 16384 65564 2 empty
      ≡ some (ok tt, record { puts = [] ++ puts; puts_left = left }))
    × Banded (black_image 131072).0 16384 2 65536 puts
put_frame-Banded_example =
    put_frame-Banded (black_image 131072).0 16384 2 65564 empty
      (omega (arith, (black_image 131072).1)) (omega arith) (omega arith) (omega arith)
      (omega (arith, (black_image 131072).1))
