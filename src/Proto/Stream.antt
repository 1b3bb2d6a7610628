-- ===== src/Proto/Stream.antt =====
-- The `ReadWrite` stream that messages go through: what is still to be read before the end of
-- file, what was written, and how many writes the peer will still take before it closes.
use sanzu.Prelude.{
  ℕ, zero, suc, ◌≡◌, refl, ◌⊎◌, inl, inr, String, List, [], ◌∷◌, ◌++◌, length, take, drop, leb,
  if◌then◌else◌,
}
use sanzu.Outcome.{ok, err, Io}

pub record Stream : Type 0 where
  pub input : List ℕ
  pub output : List ℕ
  pub writes_left : ℕ

-- The texts of `std::io`.
abbrev pub broken_pipe : String
broken_pipe = "Broken pipe"

abbrev pub end_of_file : String
end_of_file = "failed to fill whole buffer"

write_some : ℕ → List ℕ → Io Stream (Unit {0})
write_some zero bytes s = (err (broken_pipe ∷ []), s)
write_some (suc n) bytes s = (ok tt, record s { output = s.output ++ bytes; writes_left = n })

-- `write_all`: all bytes, or an error once the peer has closed.
unfoldable pub write_all : List ℕ → Io Stream (Unit {0})
unfolding write_some
write_all bytes s = write_some s.writes_left bytes s

write_some-input : (n : ℕ) (bytes : List ℕ) (s : Stream) → (write_some n bytes s).1.input ≡ s.input
unfolding write_some
write_some-input zero bytes s = refl
write_some-input (suc n) bytes s = refl

pub write_all-input : (bytes : List ℕ) (s : Stream) → (write_all bytes s).1.input ≡ s.input
unfolding write_all
write_all-input bytes s = write_some-input s.writes_left bytes s

write_some-cases :
    (n : ℕ) (bytes : List ℕ) (s : Stream)
    → (write_some n bytes s ≡ (err (broken_pipe ∷ []), s))
      ⊎ ((k : ℕ) × (write_some n bytes s
            ≡ (ok tt, record s { output = s.output ++ bytes; writes_left = k })))
unfolding write_some
write_some-cases zero bytes s = inl refl
write_some-cases (suc n) bytes s = inr (n, refl)

-- All of it is written, or nothing.
pub write_all-cases :
    (bytes : List ℕ) (s : Stream)
    → (write_all bytes s ≡ (err (broken_pipe ∷ []), s))
      ⊎ ((k : ℕ) × (write_all bytes s
            ≡ (ok tt, record s { output = s.output ++ bytes; writes_left = k })))
unfolding write_all
write_all-cases bytes s = write_some-cases s.writes_left bytes s

-- `read_exact`: `n` bytes, or an error that leaves the stream at its end.
unfoldable pub read_exact : ℕ → Io Stream (List ℕ)
read_exact n s =
    if leb n (length s.input)
    then (ok (take n s.input), record s { input = drop n s.input })
    else (err (end_of_file ∷ []), record s { input = [] })
