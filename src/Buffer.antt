-- ===== src/Buffer.antt =====
-- A slice of bytes that is read and written by index; an index out of bounds is a panic.
pub mod Interleave
pub mod Plane
pub mod Rows
pub mod Groups
pub mod Pixels
use sanzu.Prelude.{
  ℕ, zero, suc, ◌≤◌, ◌<◌, ◌≡◌, refl, sym, ap, List, [], ◌∷◌, Option, none, some, All, length,
  get_elem?, set, ltb, lt→ltb, if◌then◌else◌, arith,
}
use mathlib.Core.Path.{subst}
use sanzu.Outcome.{Outcome, ok, panic, Io, Ends}

-- `buffer[index] = v`
unfoldable pub put_byte : ℕ → ℕ → Io (List ℕ) (Unit {0})
put_byte index v buffer =
    if ltb index (length buffer)
    then (ok tt, set buffer index v)
    else (panic "index out of bounds", buffer)

-- `buffer[index]`
unfoldable pub get_byte : List ℕ → ℕ → Outcome ℕ
get_byte buffer index = elim (get_elem? buffer index) [
  | none ↦ panic "index out of bounds"
  | some v ↦ ok v
]

-- The byte there, 0 beyond the end.
abbrev pub byte_at : List ℕ → ℕ → ℕ
byte_at [] index = 0
byte_at (x ∷ xs) zero = x
byte_at (x ∷ xs) (suc index) = byte_at xs index

pub get_byte-eq : (b : List ℕ) (i : ℕ) → i < length b → get_byte b i ≡ ok (byte_at b i)
unfolding get_byte
get_byte-eq [] i h = absurd (omega (arith, h))
get_byte-eq (x ∷ xs) zero h = refl
get_byte-eq (x ∷ xs) (suc i) h = get_byte-eq xs i (omega (arith, h))

-- A write within bounds.
pub put_byte-Ends :
    (P : List ℕ → Type 0) (index v : ℕ) (b : List ℕ)
    → index < length b
    → P (set b index v)
    → Ends (λ _. P) (put_byte index v b)
unfolding put_byte
put_byte-Ends P index v b within h =
    subst (Ends (λ _. P))
      (ap (λ t. if t then (ok tt, set b index v) else (panic "index out of bounds", b))
        (sym (lt→ltb index (length b) within)))
      h

pub byte_at-All : (n : ℕ) (b : List ℕ) (i : ℕ) → All (λ x. x ≤ n) b → byte_at b i ≤ n
byte_at-All n [] i h = omega arith
byte_at-All n (x ∷ b) zero h = h.0
byte_at-All n (x ∷ b) (suc i) h = byte_at-All n b i h.1
