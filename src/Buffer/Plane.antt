-- ===== src/Buffer/Plane.antt =====
-- A buffer that is written row by row from the left, with the byte of a row and a column at `pos`.
use sanzu.Prelude.{
  ℕ, suc, ◌+◌, ◌*◌, ◌<◌, ◌≡◌, ◌≢◌, ◌⊎◌, inl, inr, ◌∙◌, sym, ap, ap₂, List, some, length, get_elem?,
  set, length-set, get_elem?-set_self, get_elem?-set_ne, arith,
}
use mathlib.Core.Path.{subst}
use sanzu.Outcome.{Ends}
use sanzu.Buffer.{put_byte, put_byte-Ends}

-- The places before the column `col` of the row `row`, in the order of writing.
abbrev pub Before : (r c row col : ℕ) → Type 0
Before r c row col = (r < row) ⊎ ((r ≡ row) × (c < col))

-- The bytes of the columns below `width` are those of `f`, as far as the writing has come.
pub record Written (size : ℕ) (pos : ℕ → ℕ → ℕ) (width : ℕ) (f : ℕ → ℕ → ℕ) (row col : ℕ)
    (b : List ℕ) : Type 0 where
  pub size_kept : length b ≡ size
  pub written : (r c : ℕ) → c < width → Before r c row col → get_elem? b (pos r c) ≡ some (f r c)

pub other_place :
    (stride r c row col : ℕ)
    → c < stride
    → col < stride
    → Before r c row col
    → row * stride + col ≢ r * stride + c
other_place stride r c row col hc hcol (inl above) e = grind arith
other_place stride r c row col hc hcol (inr (same, left)) e = grind arith

Before-suc :
    (r c row col : ℕ) → Before r c row (suc col) → Before r c row col ⊎ ((r ≡ row) × (c ≡ col))
Before-suc r c row col before = ground (arith, before)

Before-above : (width row r c : ℕ) → r < suc row → c < width → Before r c row width
Before-above width row r c above h = ground arith

pub within :
    (size : ℕ) (pos : ℕ → ℕ → ℕ) (width : ℕ) (f : ℕ → ℕ → ℕ) (row col index : ℕ) (b : List ℕ)
    → Written size pos width f row col b
    → index ≡ pos row col
    → pos row col < size
    → index < length b
within size pos width f row col index b w at low =
    subst (λ n. index < n) (sym w.size_kept) (omega (arith, at, low))

module _ (size : ℕ) (pos : ℕ → ℕ → ℕ) (width : ℕ) (f : ℕ → ℕ → ℕ) where
  pub Written-start : (b : List ℕ) → length b ≡ size → Written size pos width f 0 0 b
  Written-start b e = record {
    size_kept = e;
    written = λ r c h before. elim before [
      | inl above ↦ absurd (omega (arith, above))
      | inr (same, left) ↦ absurd (omega (arith, left))
    ];
  }

  -- The next byte of the row.
  pub Written-set :
      (row col index v : ℕ) (b : List ℕ)
      → ((r c : ℕ) → c < width → Before r c row col → pos row col ≢ pos r c)
      → pos row col < size
      → index ≡ pos row col
      → v ≡ f row col
      → Written size pos width f row col b
      → Written size pos width f row (suc col) (set b index v)
  Written-set row col index v b new low at is w = record {
    size_kept = length-set b index v ∙ w.size_kept;
    written = λ r c h before. elim (Before-suc r c row col before) [
      | inl earlier ↦
          get_elem?-set_ne b index (pos r c) v (λ e. new r c h earlier (sym at ∙ e))
          ∙ w.written r c h earlier
      | inr (same, here) ↦
          subst (λ k. get_elem? (set b index v) k ≡ some v) (at ∙ ap₂ pos (sym same) (sym here))
            (get_elem?-set_self b index v (within size pos width f row col index b w at low))
          ∙ ap some (is ∙ ap₂ f (sym same) (sym here))
    ];
  }

  pub Written-put :
      (row col index v : ℕ) (b : List ℕ)
      → ((r c : ℕ) → c < width → Before r c row col → pos row col ≢ pos r c)
      → pos row col < size
      → index ≡ pos row col
      → v ≡ f row col
      → Written size pos width f row col b
      → Ends (λ _ b'. Written size pos width f row (suc col) b') (put_byte index v b)
  Written-put row col index v b new low at is w =
      put_byte-Ends (Written size pos width f row (suc col)) index v b
        (within size pos width f row col index b w at low)
        (Written-set row col index v b new low at is w)

  -- A byte that is none of these.
  pub Written-keep :
      (row col index v : ℕ) (b : List ℕ)
      → ((r c : ℕ) → c < width → index ≢ pos r c)
      → Written size pos width f row col b
      → Written size pos width f row col (set b index v)
  Written-keep row col index v b other w = record {
    size_kept = length-set b index v ∙ w.size_kept;
    written =
        λ r c h before. get_elem?-set_ne b index (pos r c) v (other r c h) ∙ w.written r c h before;
  }

  -- The rows above, and then this one.
  pub Written-next :
      (row : ℕ) (b : List ℕ)
      → Written size pos width f row width b
      → Written size pos width f (suc row) 0 b
  Written-next row b w = record {
    size_kept = w.size_kept;
    written = λ r c h before. w.written r c h (elim before [
      | inl above ↦ Before-above width row r c above h
      | inr (same, left) ↦ absurd (omega (arith, left))
    ]);
  }
