-- ===== src/Server/Areas/Distinct.antt =====
-- Predicates on every area, and areas of distinct keys and windows, under the updates of the map.
use sanzu.Prelude.{
  ℕ, ◌≡◌, ◌≢◌, refl, Bool, true, false, [], ◌∷◌, Option, none, some, ◌==◌, if◌then◌else◌, arith,
}
use sanzu.Prelude.Int.{ℤ}
use sanzu.Server.Areas.{Area, Areas, find_last, remove, has_key, set_mapped, move_first}

-- `P` of every key and area.
abbrev pub Each : (ℕ → Area → Type 0) → Areas → Type 0
Each P [] = Unit
Each P ((index, area) ∷ areas) = P index area × Each P areas

-- Another key and another window.
abbrev pub Apart : ℕ → Area → ℕ → Area → Type 0
Apart index area i a = (i ≢ index) × (a.drawable ≢ area.drawable)

abbrev pub Distinct : Areas → Type 0
Distinct [] = Unit
Distinct ((index, area) ∷ areas) = Each (Apart index area) areas × Distinct areas

pub Each-remove :
    (P : ℕ → Area → Type 0) (key : ℕ) (areas : Areas) → Each P areas → Each P (remove key areas)
unfolding remove
Each-remove P key [] h = tt
Each-remove P key ((index, area) ∷ areas) h = ground (arith, Each-remove P key areas h.1)

pub Distinct-remove : (key : ℕ) (areas : Areas) → Distinct areas → Distinct (remove key areas)
unfolding remove
Distinct-remove key [] h = tt
Distinct-remove key ((index, area) ∷ areas) h =
    ground (arith, Distinct-remove key areas h.1, Each-remove (Apart index area) key areas h.0)

-- What a predicate says of an area does not depend on the fields that are updated.
abbrev pub Stable : (ℕ → Area → Type 0) → Type 0
Stable P = (i : ℕ) (a b : Area) → b.drawable ≡ a.drawable → P i a → P i b

pub Each-set_mapped :
    (P : ℕ → Area → Type 0) (key : ℕ) (map : Bool) (areas : Areas)
    → Stable P
    → Each P areas
    → Each P (set_mapped key map areas)
unfolding set_mapped
Each-set_mapped P key map [] stable h = tt
Each-set_mapped P key map ((index, area) ∷ areas) stable h =
    (stable index area _ (ground arith) h.0, Each-set_mapped P key map areas stable h.1)

pub Each-imp :
    (P Q : ℕ → Area → Type 0) (areas : Areas)
    → ((i : ℕ) (a : Area) → P i a → Q i a)
    → Each P areas
    → Each Q areas
Each-imp P Q [] f h = tt
Each-imp P Q ((index, area) ∷ areas) f h = (f index area h.0, Each-imp P Q areas f h.1)

-- A changed head that keeps its window is as far apart from the rest.
pub Each-Apart :
    (index : ℕ) (a b : Area) (areas : Areas)
    → b.drawable ≡ a.drawable
    → Each (Apart index a) areas
    → Each (Apart index b) areas
Each-Apart index a b areas e =
    Each-imp (Apart index a) (Apart index b) areas (λ i x h. (h.0, rw e (h.1)))

pub drawable-if :
    (t : Bool) (a b : Area) → a.drawable ≡ b.drawable → (if t then a else b).drawable ≡ b.drawable
drawable-if true a b e = e
drawable-if false a b e = refl

pub Distinct-set_mapped :
    (key : ℕ) (map : Bool) (areas : Areas) → Distinct areas → Distinct (set_mapped key map areas)
unfolding set_mapped
Distinct-set_mapped key map [] h = tt
Distinct-set_mapped key map ((index, area) ∷ areas) h = (
  Each-Apart index area (if index == key then record area { mapped = map } else area)
      (set_mapped key map areas)
      (drawable-if (index == key) (record area { mapped = map }) area refl)
      (Each-set_mapped (Apart index area) key map areas (λ i a b e g. (g.0, rw e (g.1))) h.0),
  Distinct-set_mapped key map areas h.1,
)

pub Each-move_first :
    (P : ℕ → Area → Type 0) (window : ℕ) (position : ℤ × ℤ) (size : ℕ × ℕ) (areas : Areas)
    → Stable P
    → Each P areas
    → Each P (move_first window position size areas).0
unfolding move_first
Each-move_first P window position size [] stable h = tt
Each-move_first P window position size ((index, area) ∷ areas) stable h = ground (
  arith,
  stable index area (record area { position = position; size = size }) refl h.0,
  Each-move_first P window position size areas stable h.1,
)

pub Distinct-move_first :
    (window : ℕ) (position : ℤ × ℤ) (size : ℕ × ℕ) (areas : Areas)
    → Distinct areas
    → Distinct (move_first window position size areas).0
unfolding move_first
Distinct-move_first window position size [] h = tt
Distinct-move_first window position size ((index, area) ∷ areas) h = ground (
  arith,
  Each-Apart index area (record area { position = position; size = size }) areas refl h.0,
  Each-move_first (Apart index area) window position size areas (λ i a b e g. (g.0, rw e (g.1)))
      h.0,
  Distinct-move_first window position size areas h.1,
)

-- A loop that found nothing met no area of the window.
pub find_last-none :
    (found : Option ℕ) (window : ℕ) (areas : Areas)
    → find_last found window areas ≡ none
    → (found ≡ none) × Each (λ i a. a.drawable ≢ window) areas
unfolding find_last
find_last-none found window [] h = (h, tt)
find_last-none found window ((index, area) ∷ areas) h =
    ground
      (arith, find_last-none (if area.drawable == window then some index else found) window areas h)

pub has_key-false :
    (key : ℕ) (areas : Areas) → has_key key areas ≡ false → Each (λ i a. i ≢ key) areas
unfolding has_key
has_key-false key [] h = tt
has_key-false key ((index, area) ∷ areas) h = ground (arith, has_key-false key areas)
