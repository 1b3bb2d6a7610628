-- ===== src/Buffer/Interleave.antt =====
-- Two buffers of one size in one, byte by byte in turns.
use sanzu.Prelude.{
  ℕ, zero, suc, ◌*◌, ◌≡◌, refl, sym, ap, List, [], ◌∷◌, length, length-set, set, ltb, arith,
  Bool-cases, inl, inr,
}
use sanzu.Buffer.{put_byte, get_byte}

abbrev pub interleave : List ℕ → List ℕ → List ℕ
interleave [] vs = []
interleave (u ∷ us) [] = []
interleave (u ∷ us) (v ∷ vs) = u ∷ v ∷ interleave us vs

twice : (k : ℕ) → 2 * suc k ≡ suc (suc (2 * k))
twice k = omega arith

length-interleave :
    (us vs : List ℕ) → length us ≡ length vs → length (interleave us vs) ≡ 2 * length us
length-interleave [] vs h = refl
length-interleave (u ∷ us) [] h = absurd (omega (arith, h))
length-interleave (u ∷ us) (v ∷ vs) h = omega (arith, length-interleave us vs (omega (arith, h)))

set-even :
    (k x : ℕ) (us vs : List ℕ)
    → length us ≡ length vs
    → set (interleave us vs) (2 * k) x ≡ interleave (set us k x) vs
set-even k x [] vs h = refl
set-even k x (u ∷ us) [] h = absurd (omega (arith, h))
set-even zero x (u ∷ us) (v ∷ vs) h = refl
set-even (suc k) x (u ∷ us) (v ∷ vs) h =
    rw (twice k) (ap (λ l. u ∷ v ∷ l) (set-even k x us vs (omega (arith, h))))

set-odd :
    (k x : ℕ) (us vs : List ℕ)
    → length us ≡ length vs
    → set (interleave us vs) (suc (2 * k)) x ≡ interleave us (set vs k x)
set-odd k x [] vs h = refl
set-odd k x (u ∷ us) [] h = absurd (omega (arith, h))
set-odd zero x (u ∷ us) (v ∷ vs) h = refl
set-odd (suc k) x (u ∷ us) (v ∷ vs) h =
    rw (twice k) (ap (λ l. u ∷ v ∷ l) (set-odd k x us vs (omega (arith, h))))

pub get_byte-even :
    (k : ℕ) (us vs : List ℕ)
    → length us ≡ length vs
    → get_byte (interleave us vs) (2 * k) ≡ get_byte us k
unfolding get_byte
get_byte-even k [] vs h = refl
get_byte-even k (u ∷ us) [] h = absurd (omega (arith, h))
get_byte-even zero (u ∷ us) (v ∷ vs) h = refl
get_byte-even (suc k) (u ∷ us) (v ∷ vs) h = rw (twice k) (get_byte-even k us vs (omega (arith, h)))

pub get_byte-odd :
    (k : ℕ) (us vs : List ℕ)
    → length us ≡ length vs
    → get_byte (interleave us vs) (suc (2 * k)) ≡ get_byte vs k
unfolding get_byte
get_byte-odd k [] [] h = refl
get_byte-odd k [] (v ∷ vs) h = absurd (omega (arith, h))
get_byte-odd k (u ∷ us) [] h = absurd (omega (arith, h))
get_byte-odd zero (u ∷ us) (v ∷ vs) h = refl
get_byte-odd (suc k) (u ∷ us) (v ∷ vs) h = rw (twice k) (get_byte-odd k us vs (omega (arith, h)))

ltb-twice : (k n : ℕ) → ltb (2 * k) (2 * n) ≡ ltb k n
ltb-twice k n = ground arith

ltb-suc_twice : (k n : ℕ) → ltb (suc (2 * k)) (2 * n) ≡ ltb k n
ltb-suc_twice k n = ground arith

pub put_byte-even :
    (k x : ℕ) (us vs : List ℕ)
    → length us ≡ length vs
    → put_byte (2 * k) x (interleave us vs) ≡ (let (r, b) = put_byte k x us in (r, interleave b vs))
unfolding put_byte
put_byte-even k x us vs h = elim (Bool-cases (ltb k (length us))) [
  | inl e ↦ rw (length-interleave us vs h, ltb-twice k (length us), e, set-even k x us vs h) refl
  | inr e ↦ rw (length-interleave us vs h, ltb-twice k (length us), e) refl
]

pub put_byte-odd :
    (k x : ℕ) (us vs : List ℕ)
    → length us ≡ length vs
    → put_byte (suc (2 * k)) x (interleave us vs)
      ≡ (let (r, b) = put_byte k x vs in (r, interleave us b))
unfolding put_byte
put_byte-odd k x us vs h = elim (Bool-cases (ltb k (length us))) [
  | inl e ↦
      rw (length-interleave us vs h, ltb-suc_twice k (length us), sym h, e, set-odd k x us vs h)
        refl
  | inr e ↦ rw (length-interleave us vs h, ltb-suc_twice k (length us), sym h, e) refl
]

pub length-put_byte : (k x : ℕ) (b : List ℕ) → length (put_byte k x b).1 ≡ length b
unfolding put_byte
length-put_byte k x b = elim (Bool-cases (ltb k (length b))) [
  | inl e ↦ rw e (length-set b k x)
  | inr e ↦ rw e refl
]
