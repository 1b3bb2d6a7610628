-- ===== src/Server/Areas/Windows.antt =====
-- The areas as a map from windows: what the operations do to the key and the area of each window.
use sanzu.Prelude.{
  ℕ, ◌≡◌, ◌≢◌, refl, inl, inr, Bool, [], ◌∷◌, Option, none, some, ◌==◌, if◌then◌else◌, arith,
  Bool-cases, ==_iff,
}
use sanzu.Prelude.Int.{ℤ}
use sanzu.Server.Areas.{Area, Areas, find_first, find_last, remove, set_mapped, move_first}
use sanzu.Server.Areas.Distinct.{Each, Apart, Distinct}

-- The key and the area of a window.
abbrev pub area_of : ℕ → Areas → Option (ℕ × Area)
area_of w [] = none
area_of w ((index, area) ∷ areas) =
    if area.drawable == w then some (index, area) else area_of w areas

abbrev pub key_of : Option (ℕ × Area) → Option ℕ
key_of none = none
key_of (some (index, area)) = some index

pub Each-none :
    (w : ℕ) (areas : Areas) → Each (λ i a. a.drawable ≢ w) areas → area_of w areas ≡ none
Each-none w [] h = refl
Each-none w ((index, area) ∷ areas) h = ground (arith, Each-none w areas h.1)

pub Apart-key :
    (w index i : ℕ) (area a : Area) (areas : Areas)
    → Each (Apart index area) areas
    → area_of w areas ≡ some (i, a)
    → i ≢ index
Apart-key w index i area a [] h e = cc
Apart-key w index i area a ((j, b) ∷ areas) h e =
    ground (arith, Apart-key w index i area a areas h.1)

pub find_first-key : (w : ℕ) (areas : Areas) → find_first w areas ≡ key_of (area_of w areas)
unfolding find_first
find_first-key w [] = refl
find_first-key w ((index, area) ∷ areas) = ground (arith, find_first-key w areas)

find_last-absent :
    (found : Option ℕ) (w : ℕ) (areas : Areas)
    → Each (λ i a. a.drawable ≢ w) areas
    → find_last found w areas ≡ found
unfolding find_last
find_last-absent found w [] h = refl
find_last-absent found w ((index, area) ∷ areas) h =
    ground (arith, find_last-absent found w areas h.1)

pub Apart-window :
    (index : ℕ) (area : Area) (areas : Areas)
    → Each (Apart index area) areas
    → Each (λ i a. a.drawable ≢ area.drawable) areas
Apart-window index area [] h = tt
Apart-window index area ((i, a) ∷ areas) h = (h.0.1, Apart-window index area areas h.1)

-- Where windows are distinct, the last hit is the first.
pub find_last-key :
    (w : ℕ) (areas : Areas) → Distinct areas → find_last none w areas ≡ key_of (area_of w areas)
unfolding find_last
find_last-key w [] h = refl
find_last-key w ((index, area) ∷ areas) h = elim (Bool-cases (area.drawable == w)) [
  | inr other ↦ rw other (find_last-key w areas h.1)
  | inl hit ↦ rw hit (
      find_last-absent (some index) w areas
        (rw ((==_iff area.drawable w).0 hit) at (Apart-window index area areas h.0)))
]

remove-absent : (key : ℕ) (areas : Areas) → Each (λ i a. i ≢ key) areas → remove key areas ≡ areas
unfolding remove
remove-absent key [] h = refl
remove-absent key ((index, area) ∷ areas) h = ground (arith, remove-absent key areas h.1)

pub Apart-keys :
    (index : ℕ) (area : Area) (areas : Areas)
    → Each (Apart index area) areas
    → Each (λ i a. i ≢ index) areas
Apart-keys index area [] h = tt
Apart-keys index area ((i, a) ∷ areas) h = (h.0.0, Apart-keys index area areas h.1)

-- To remove the key of a window is to remove the window.
pub area_of-remove :
    (v w i : ℕ) (a : Area) (areas : Areas)
    → Distinct areas
    → area_of w areas ≡ some (i, a)
    → area_of v (remove i areas) ≡ (if w == v then none else area_of v areas)
unfolding remove
area_of-remove v w i a [] h e = cc
area_of-remove v w i a ((index, area) ∷ areas) h e = elim (Bool-cases (area.drawable == w)) [
  | inl hit ↦ ground (
    arith,
    remove-absent index areas (Apart-keys index area areas h.0),
    Each-none w areas (rw ((==_iff area.drawable w).0 hit) at (Apart-window index area areas h.0)),
  )
  | inr other ↦
      ground (arith, area_of-remove v w i a areas h.1, Apart-key w index i area a areas h.0)
]

set_mapped-absent :
    (key : ℕ) (map : Bool) (areas : Areas)
    → Each (λ i a. i ≢ key) areas
    → set_mapped key map areas ≡ areas
unfolding set_mapped
set_mapped-absent key map [] h = refl
set_mapped-absent key map ((index, area) ∷ areas) h =
    ground (arith, set_mapped-absent key map areas h.1)

pub area_of-set_mapped :
    (v w i : ℕ) (a : Area) (map : Bool) (areas : Areas)
    → Distinct areas
    → area_of w areas ≡ some (i, a)
    → area_of v (set_mapped i map areas)
      ≡ (if w == v then some (i, record a { mapped = map }) else area_of v areas)
unfolding set_mapped
area_of-set_mapped v w i a map [] h e = cc
area_of-set_mapped v w i a map ((index, area) ∷ areas) h e =
    elim (Bool-cases (area.drawable == w)) [
      | inl hit ↦
          ground (arith, set_mapped-absent index map areas (Apart-keys index area areas h.0))
      | inr other ↦
          ground
            (arith, area_of-set_mapped v w i a map areas h.1, Apart-key w index i area a areas h.0)
    ]

pub area_of-move_first :
    (v w : ℕ) (position : ℤ × ℤ) (size : ℕ × ℕ) (areas : Areas)
    → area_of v (move_first w position size areas).0 ≡ (
        if w == v
        then (elim (area_of v areas) [
          | none ↦ none
          | some (i, a) ↦ some (i, record a { position = position; size = size })
        ])
        else area_of v areas)
unfolding move_first
area_of-move_first v w position size [] = ground arith
area_of-move_first v w position size ((index, area) ∷ areas) =
    ground (arith, area_of-move_first v w position size areas)
