-- ===== src/Buffer/Rows.antt =====
-- Buffers of rows that are written in a state that holds several of them.
use sanzu.Prelude.{ℕ, suc, ◌+◌, ◌*◌, ◌≤◌, ◌<◌, ◌≡◌, List, arith}
use mathlib.Core.Path.{subst}
use sanzu.Outcome.{Outcome, ok, err, panic, Ends}
use sanzu.Buffer.{put_byte}
use sanzu.Buffer.Plane.{Written, Written-put, other_place}

-- The place of a row and a column.
abbrev pub strided : (stride r c : ℕ) → ℕ
strided stride r c = r * stride + c

pub in_row :
    (height stride size row x : ℕ)
    → height * stride ≤ size
    → row < height
    → x < stride
    → row * stride + x < size
in_row height stride size row x high low inside = grind arith

row_of-eq : (stride a b x y : ℕ) → x < stride → y < stride → a * stride + x ≡ b * stride + y → a ≡ b
row_of-eq stride a b x y hx hy e = grind arith

-- Two places in rows of `stride` bytes have one row and one column if they are the same.
pub strided-eq :
    (stride a b x y : ℕ)
    → x < stride
    → y < stride
    → a * stride + x ≡ b * stride + y
    → (a ≡ b) × (x ≡ y)
strided-eq stride a b x y hx hy e =
    let same = row_of-eq stride a b x y hx hy e in
    let moved : b * stride + x ≡ b * stride + y =
      subst (λ i. i * stride + x ≡ b * stride + y) same e in
    (same, omega (arith, moved))

-- A write into one plane of several.
Ends-plane :
    {S : Type 0} (P : List ℕ → Type 0) (Q : S → Type 0) (into : List ℕ → S)
    (x : Outcome (Unit {0}) × List ℕ)
    → Ends (λ _. P) x
    → ((b : List ℕ) → P b → Q (into b))
    → Ends (λ _. Q) (x.0, into x.1)
Ends-plane P Q into (ok u, b) h k = k b h
Ends-plane P Q into (err chain, b) h k = absurd h
Ends-plane P Q into (panic why, b) h k = absurd h

-- The next byte of a row, in a buffer of as many rows as it has to have.
pub Ends-put :
    {S : Type 0} (Q : S → Type 0) (into : List ℕ → S) (height width stride size : ℕ) (f : ℕ → ℕ → ℕ)
    (row col index value : ℕ) (b : List ℕ)
    → height * stride ≤ size
    → width ≤ stride
    → row < height
    → col < width
    → index ≡ row * stride + col
    → value ≡ f row col
    → Written size (strided stride) width f row col b
    → ((b' : List ℕ) → Written size (strided stride) width f row (suc col) b' → Q (into b'))
    → let (r, b') = put_byte index value b in Ends (λ _. Q) (r, into b')
Ends-put Q into height width stride size f row col index value b high wide low inside at is now
      rest =
    Ends-plane (Written size (strided stride) width f row (suc col)) Q into (put_byte index value b)
      (Written-put size (strided stride) width f row col index value b
        (λ r c h.
          other_place stride r c row col (omega (arith, h, wide)) (omega (arith, inside, wide)))
        (in_row height stride size row col high low (omega (arith, inside, wide))) at is now)
      rest
