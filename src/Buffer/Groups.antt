-- ===== src/Buffer/Groups.antt =====
-- A buffer that is written in groups of bytes, for each row and each column one group.
use sanzu.Prelude.{
  ℕ, suc, ◌+◌, ◌<◌, ◌≡◌, ◌≢◌, sym, ◌∙◌, List, length, set, ltb, ◌==◌, if◌then◌else◌, Bool-cases,
  inl, inr, arith,
}
use mathlib.Core.Path.{subst}
use sanzu.Outcome.{Ends, Ends-then, ◌>>◌}
use sanzu.Buffer.{put_byte, put_byte-Ends}
use sanzu.Buffer.Plane.{Before, Written, Written-set, Written-keep, Written-next, Written-start}

-- How far the byte `k` has come, when `done` of a group are written for the column `col`.
abbrev pub column : (k done col : ℕ) → ℕ
column k done col = if ltb k done then suc col else col

column-here : (k col : ℕ) → column k k col ≡ col
column-here k col = ground arith

column-done : (k col : ℕ) → column k (suc k) col ≡ suc col
column-done k col = ground arith

column-other : (l k col : ℕ) → l ≢ k → column l (suc k) col ≡ column l k col
column-other l k col differ = ground arith

column-all : (n k col : ℕ) → k < n → column k n col ≡ suc col
column-all n k col h = ground arith

column-none : (k col : ℕ) → column k 0 col ≡ col
column-none k col = ground arith

-- The byte `k` of the group in the row `r` and the column `c` stands at `pos k r c`, and is to be
-- `f k r c`.
module _ (width size n : ℕ) (pos f : (k r c : ℕ) → ℕ) where
  -- The byte `k` of all groups, as far as the writing has come.
  abbrev pub Channel : (k row col : ℕ) → List ℕ → Type 0
  Channel k = Written size (pos k) width (f k)

  -- All bytes, of which `done` are written for this group.
  pub record Grouped (row col done : ℕ) (b : List ℕ) : Type 0 where
    pub channels : (k : ℕ) → k < n → Channel k row (column k done col) b

  pub Grouped-start : (b : List ℕ) → length b ≡ size → Grouped 0 0 0 b
  Grouped-start b e = record {
    channels =
        λ k h. subst (λ c. Channel k 0 c b) (sym (column-none k 0)) (Written-start _ _ _ _ b e);
  }

  pub Grouped-next : (row : ℕ) (b : List ℕ) → Grouped row width 0 b → Grouped (suc row) 0 0 b
  Grouped-next row b now = record {
    channels = λ k h.
        subst (λ c. Channel k (suc row) c b) (sym (column-none k 0))
          (Written-next _ _ _ _ row b
            (subst (λ c. Channel k row c b) (column-none k width) (now.channels k h)));
  }

  pub Grouped-group : (row col : ℕ) (b : List ℕ) → Grouped row col n b → Grouped row (suc col) 0 b
  Grouped-group row col b now = record {
    channels = λ k h.
        subst (λ c. Channel k row c b) (column-all n k col h ∙ sym (column-none k (suc col)))
          (now.channels k h);
  }

  -- Two bytes at one place are one byte.
  abbrev pub Apart : Type 0
  Apart =
      (k l r c r' c' : ℕ)
      → k < n
      → l < n
      → c < width
      → c' < width
      → pos k r c ≡ pos l r' c'
      → (k ≡ l) × (r ≡ r') × (c ≡ c')

  Before-irrefl : (r c row col : ℕ) → Before r c row col → row ≡ r → col ≡ c → ⊥
  Before-irrefl r c row col before e d = ground (arith, before)

  -- The next byte of a group.
  pub set_channel :
      (row col k index value : ℕ) (b : List ℕ)
      → Apart
      → col < width
      → k < n
      → pos k row col < size
      → index ≡ pos k row col
      → value ≡ f k row col
      → Grouped row col k b
      → Grouped row col (suc k) (set b index value)
  set_channel row col k index value b apart inside kn fits at is now =
      let here : Channel k row col b =
        subst (λ c. Channel k row c b) (column-here k col) (now.channels k kn) in
      record {
        channels = λ l ln. elim (Bool-cases (l == k)) [
          | inl same ↦
              let e : k ≡ l = ground (arith, same) in
              subst (λ n. Channel n row (column n (suc k) col) (set b index value)) e
                (subst (λ c. Channel k row c (set b index value)) (sym (column-done k col))
                  (Written-set _ _ _ _ row col index value b
                    (λ r c h before e.
                      let (_, d, d') = apart k k row col r c kn kn inside h e in
                      Before-irrefl r c row col before d d')
                    fits at is here))
          | inr other ↦
              let differ : l ≢ k = ground (arith, other) in
              subst (λ c. Channel l row c (set b index value)) (sym (column-other l k col differ))
                (Written-keep _ _ _ _ row (column l k col) index value b
                  (λ r c h e. differ (sym (apart k l row col r c kn ln inside h (sym at ∙ e)).0))
                  (now.channels l ln))
        ];
      }

  pub Grouped-length : (row col k : ℕ) (b : List ℕ) → k < n → Grouped row col k b → length b ≡ size
  Grouped-length row col k b kn now = (now.channels k kn).size_kept

  pub put_channel :
      (row col k index value : ℕ) (b : List ℕ)
      → Apart
      → col < width
      → k < n
      → pos k row col < size
      → index ≡ pos k row col
      → value ≡ f k row col
      → Grouped row col k b
      → Ends (λ _. Grouped row col (suc k)) (put_byte index value b)
  put_channel row col k index value b apart inside kn fits at is now =
      put_byte-Ends (Grouped row col (suc k)) index value b
        (omega (arith, at, fits, Grouped-length row col k b kn now))
        (set_channel row col k index value b apart inside kn fits at is now)

  -- Three bytes of a group, one after the other.
  pub put_three :
      (row col k i x y z : ℕ) (b : List ℕ)
      → Apart
      → col < width
      → 2 + k < n
      → pos k row col < size
      → pos (suc k) row col < size
      → pos (suc (suc k)) row col < size
      → i ≡ pos k row col
      → i + 1 ≡ pos (suc k) row col
      → i + 2 ≡ pos (suc (suc k)) row col
      → x ≡ f k row col
      → y ≡ f (suc k) row col
      → z ≡ f (suc (suc k)) row col
      → Grouped row col k b
      → Ends
          (λ _. Grouped row col (suc (suc (suc k))))
          ((do put_byte i x; put_byte (i + 1) y; put_byte (i + 2) z) b)
  put_three row col k i x y z b apart inside kn in0 in1 in2 at0 at1 at2 is0 is1 is2 now =
      Ends-then (Grouped row col (suc k)) (Grouped row col (suc (suc (suc k)))) (put_byte i x)
        (do put_byte (i + 1) y; put_byte (i + 2) z) b
        (put_channel row col k i x b apart inside (omega (arith, kn)) in0 at0 is0 now)
        (λ t now.
          Ends-then (Grouped row col (suc (suc k))) (Grouped row col (suc (suc (suc k))))
            (put_byte (i + 1) y) (put_byte (i + 2) z) t
            (put_channel row col (suc k) (i + 1) y t apart inside (omega (arith, kn)) in1 at1 is1
              now)
            (λ t now.
              put_channel row col (suc (suc k)) (i + 2) z t apart inside (omega (arith, kn)) in2 at2
                is2 now))
