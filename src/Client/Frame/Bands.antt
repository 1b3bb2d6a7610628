-- ===== src/Client/Frame/Bands.antt =====
-- The bands of an image.
use sanzu.Prelude.{
  ℕ, zero, suc, ◌+◌, ◌-◌, ◌*◌, ◌%◌, ◌^◌, ◌≤◌, ◌<◌, ◌≡◌, sym, ap, ◌∙◌, false, List, [], ◌∷◌, ◌++◌,
  append_assoc, append-nil, Option, some, length, take, drop, take-sum, drop-drop, length-take, All,
  ltb-false, ◌==◌, arith,
}
use mathlib.Core.Path.{subst}
use native.Mathlib.Nat.{mul-le-mul_left, div-mul-le_self}
use sanzu.Outcome.{Outcome, ok}
use sanzu.Client.Frame.{
  Put, Pixmap, then_bands, band, put_band, lines_todo, put_bands, put_image_overhead, most_lines,
  put_frame,
}

nonzero : (n : ℕ) → (suc n == 0) ≡ false
nonzero n = ground arith

module _ (img : List ℕ) (width max_lines : ℕ) where
  -- Bands of some lines each, but no more than `max_lines`, one after the other from line `cur` on,
  -- for `rem` lines in all: each is put at its own first line, as wide as the image, with its own
  -- bytes of the image. (Lines and width go into 16 bits.)
  pub data Tiles : (cur rem : ℕ) → List Put → Type 0 where
    done : (cur : ℕ) → Tiles cur 0 []
    tile :
        (cur lines rem : ℕ) (puts : List Put)
        → 0 < lines
        → lines ≤ max_lines
        → Tiles (cur + lines) rem puts
        → Tiles cur (lines + rem) (
            record {
              width = width % 2 ^ 16;
              lines = lines % 2 ^ 16;
              y = cur % 2 ^ 16;
              img = take (lines * width * 4) (drop (cur * width * 4) img);
            }
            ∷ puts)

  -- Requests that the connection takes.
  put_band-eq :
      (cur lines n : ℕ) (s : Pixmap)
      → (cur + lines) * width * 4 ≤ length img
      → s.puts_left ≡ suc n
      → put_band img width cur lines s
        ≡ (ok tt, record { puts = s.puts ++ band img width cur lines ∷ []; puts_left = n })
  unfolding put_band
  put_band-eq cur lines n s inside left =
      rw (ltb-false (length img) ((cur + lines) * width * 4) inside, left)

  room_for :
      (cur lines rem : ℕ)
      → lines ≤ rem
      → (cur + rem) * width * 4 ≤ length img
      → (cur + lines) * width * 4 ≤ length img
  room_for cur lines rem fewer inside =
      let more : width * 4 * (cur + lines) ≤ width * 4 * (cur + rem) =
        mul-le-mul_left (width * 4) (omega (arith, fewer)) in
      omega (arith, more, inside)

  abbrev as_done : ℕ → List Put → Option (Outcome (Unit {0}) × Pixmap)
  as_done left puts = some (ok tt, record { puts = puts; puts_left = left })

  put_bands-Tiles :
      (fuel rem cur : ℕ) (s : Pixmap)
      → 0 < max_lines
      → rem ≤ fuel
      → rem ≤ s.puts_left
      → (cur + rem) * width * 4 ≤ length img
      → (puts : List Put) × (left : ℕ) × (put_bands img width fuel max_lines rem cur s
          ≡ some (ok tt, record { puts = s.puts ++ puts; puts_left = left }))
        × Tiles cur rem puts
  unfolding put_bands
  put_bands-Tiles zero zero cur s some_lines enough takes inside =
      ([], s.puts_left, ap (as_done s.puts_left) (sym (append-nil s.puts)), done cur)
  put_bands-Tiles (suc fuel) zero cur s some_lines enough takes inside =
      ([], s.puts_left, ap (as_done s.puts_left) (sym (append-nil s.puts)), done cur)
  put_bands-Tiles (suc fuel) (suc rem) cur s some_lines enough takes inside =
      let todo = lines_todo img width max_lines (suc rem) in
      let some_todo : 0 < todo = ground arith in
      let at_most : todo ≤ max_lines = ground arith in
      let within : todo ≤ suc rem = ground arith in
      let whole : cur + todo + (suc rem - todo) ≡ cur + suc rem = omega (arith, within) in
      let put =
        put_band-eq cur todo (s.puts_left - 1) s (room_for cur todo (suc rem) within inside)
          (omega (arith, takes)) in
      let (puts, left, e, tiles) =
        put_bands-Tiles fuel (suc rem - todo) (cur + todo)
          (record { puts = s.puts ++ band img width cur todo ∷ []; puts_left = s.puts_left - 1 })
          some_lines (omega (arith, enough, some_todo)) (omega (arith, takes, some_todo))
          (subst (λ k. k * width * 4 ≤ length img) (sym whole) inside) in
      (
        band img width cur todo ∷ puts,
        left,
        rw (
          nonzero rem,
          put,
          e,
          then_bands,
          append_assoc s.puts (band img width cur todo ∷ []) puts,
        ),
        subst (λ k. Tiles cur k (band img width cur todo ∷ puts)) (omega (arith, within))
            (tile cur todo (suc rem - todo) puts some_todo at_most tiles),
      )
  put_bands-Tiles zero (suc rem) cur s some_lines enough takes inside =
      absurd (omega (arith, enough))

-- The bytes of all requests.
abbrev pub joined : List Put → List ℕ
joined [] = []
joined (p ∷ puts) = p.img ++ joined puts

times_sum : (a b c : ℕ) → (a + b) * c * 4 ≡ a * c * 4 + b * c * 4
times_sum a b c = omega arith

Tiles-joined :
    (img : List ℕ) (width max_lines cur rem : ℕ) (puts : List Put)
    → Tiles img width max_lines cur rem puts
    → joined puts ≡ take (rem * width * 4) (drop (cur * width * 4) img)
Tiles-joined img width max_lines cur rem puts (Tiles.done _) =
    ap (λ k. take k (drop (cur * width * 4) img)) {x = 0} (omega arith)
Tiles-joined img width max_lines cur rem puts
      (Tiles.tile _ lines rest later some_lines at_most tiles) =
    ap (λ ys. take (lines * width * 4) (drop (cur * width * 4) img) ++ ys)
      (Tiles-joined img width max_lines (cur + lines) rest later tiles)
    ∙ sym (
        ap (λ k. take k (drop (cur * width * 4) img)) (times_sum lines rest width)
        ∙ take-sum (lines * width * 4) (rest * width * 4) (drop (cur * width * 4) img)
        ∙ ap
            (λ ys.
              take (lines * width * 4) (drop (cur * width * 4) img) ++ take (rest * width * 4) ys)
            (sym (drop-drop (cur * width * 4) (lines * width * 4) img)
              ∙ ap (λ j. drop j img) (sym (times_sum cur lines width))))

-- The bytes of each request.
Tiles-small :
    (img : List ℕ) (width max_lines room cur rem : ℕ) (puts : List Put)
    → max_lines * width * 4 ≤ room
    → Tiles img width max_lines cur rem puts
    → All (λ p. length p.img ≤ room) puts
Tiles-small img width max_lines room cur rem puts most (Tiles.done _) = tt
Tiles-small img width max_lines room cur rem puts most
      (Tiles.tile _ lines rest later some_lines at_most tiles) =
    (
      (let taken = length-take (lines * width * 4) (drop (cur * width * 4) img) in
          let more : width * 4 * lines ≤ width * 4 * max_lines =
            mul-le-mul_left (width * 4) at_most in
          ground (arith, taken, more, most)),
      Tiles-small img width max_lines room (cur + lines) rest later most tiles,
    )

-- What a frame is put as: bands from the top to the bottom, that have together the bytes of the
-- image in their order, none of which is too big for a request.
pub record Banded (img : List ℕ) (width height room : ℕ) (puts : List Put) : Type 0 where
  pub lines : ℕ
  pub tiles : Tiles img width lines 0 height puts
  pub bytes : joined puts ≡ take (height * width * 4) img
  pub small : All (λ p. length p.img ≤ room) puts

-- An image that does not fit in one request, with the bytes for all its lines, on a connection that
-- takes as many requests as there are lines and that has room for a line in 64 KiB steps, is put:
-- the loop ends, with the image in bands from the top to the bottom, which have together the bytes
-- of the image in their order, and each of which fits in a request.
pub put_frame-Banded :
    (img : List ℕ) (width height max_request_size : ℕ) (s : Pixmap)
    → max_request_size - put_image_overhead ≤ length img
    → 0 < width
    → 0 < most_lines img width max_request_size
    → height ≤ s.puts_left
    → height * width * 4 ≤ length img
    → (puts : List Put) × (left : ℕ) × (put_frame img width max_request_size height s
        ≡ some (ok tt, record { puts = s.puts ++ puts; puts_left = left }))
      × Banded img width height (max_request_size - put_image_overhead) puts
unfolding put_frame
put_frame-Banded img width height max_request_size s big wide some_lines takes inside =
    let most = most_lines img width max_request_size in
    let (puts, left, e, tiles) =
      put_bands-Tiles img width most height height 0 s some_lines (omega arith) takes
        (omega (arith, inside)) in
    let not_one = ltb-false (length img) (max_request_size - put_image_overhead) big in
    let divides : (width == 0) ≡ false = ground (arith, wide) in
    let undropped : 0 * width * 4 ≡ 0 = omega arith in
    let room = max_request_size - put_image_overhead in
    let fits : most * (4 * width) ≤ room - room % 65536 =
      div-mul-le_self (room - room % 65536) (4 * width) in
    (
      puts,
      left,
      rw (not_one, divides, e),
      record {
        lines = most;
        tiles = tiles;
        bytes =
            Tiles-joined img width most 0 height puts tiles
            ∙ ap (λ j. take (height * width * 4) (drop j img)) undropped;
        small = Tiles-small img width most room 0 height puts (omega (arith, fits)) tiles;
      },
    )
