-- ===== src/Server/Areas/WellFormed.antt =====
-- The areas stay well formed: no key twice, no window twice, and never the root window.
use sanzu.Prelude.{
  ℕ, zero, suc, ◌+◌, ◌≤◌, ◌<◌, ◌≡◌, ◌≢◌, refl, inl, inr, Bool, true, false, [], ◌∷◌, none, some,
  length, ◌==◌, leb, if◌then◌else◌, arith, Bool-cases, Option-cases, ==_iff,
}
use sanzu.Prelude.Int.{ℤ}
use sanzu.Outcome.{Outcome, ok, err, panic}
use sanzu.Server.Areas.{
  Area, Areas, Screen, XServer, init_area, find_first, find_last, remove, has_key, reparent_window,
  first_free, insert_free, insert_created, create_area, destroy_area, map_area, update_area,
}
use sanzu.Server.Areas.Distinct.{
  Each, Apart, Distinct, Each-remove, Distinct-remove, Each-set_mapped, Distinct-set_mapped,
  Each-move_first, Distinct-move_first, find_last-none, has_key-false,
}

pub record IsWellFormed (s : Screen) : Type 0 where
  pub distinct : Distinct s.areas
  pub no_root : Each (λ i a. a.drawable ≢ s.root) s.areas

-- How many areas have a key of at least `k`.
pub above : ℕ → Areas → ℕ
above k [] = 0
above k ((index, area) ∷ areas) = (if leb k index then 1 else 0) + above k areas

pub above_le : (k : ℕ) (areas : Areas) → above k areas ≤ length areas
unfolding above
above_le k [] = omega arith
above_le k ((index, area) ∷ areas) = ground (arith, above_le k areas)

above_mono : (k : ℕ) (areas : Areas) → above (k + 1) areas ≤ above k areas
unfolding above
above_mono k [] = omega arith
above_mono k ((index, area) ∷ areas) = ground (arith, above_mono k areas)

above_falls : (k : ℕ) (areas : Areas) → has_key k areas ≡ true → above (k + 1) areas < above k areas
unfolding above has_key
above_falls k [] h = cc
above_falls k ((index, area) ∷ areas) h = ground (arith, above_falls k areas, above_mono k areas)

-- With more fuel than areas from `index` on, the search ends at the first key that is free.
pub first_free-least :
    (fuel index : ℕ) (areas : Areas)
    → above index areas < fuel
    → (i : ℕ) × (first_free fuel index areas ≡ some i)
      × (has_key i areas ≡ false)
      × (index ≤ i)
      × ((j : ℕ) → index ≤ j → j < i → has_key j areas ≡ true)
unfolding first_free
first_free-least zero index areas h = elim h [ ]
first_free-least (suc fuel) index areas h = elim (Bool-cases (has_key index areas)) [
  | inr free ↦ (index, rw free, free, omega arith, λ j above_ below. absurd (omega arith))
  | inl taken ↦
      let (i, found, free, above_, least) =
        first_free-least fuel (index + 1) areas (omega (arith, above_falls index areas taken)) in
      (
        i,
        rw taken found,
        free,
        omega arith,
        λ j from below. elim (Bool-cases (j == index)) [
          | inl same ↦ rw ((==_iff j index).0 same) taken
          | inr other ↦ least j (ground arith) below
        ],
      )
]

Each-both :
    (index : ℕ) (area : Area) (areas : Areas)
    → Each (λ i a. i ≢ index) areas
    → Each (λ i a. a.drawable ≢ area.drawable) areas
    → Each (Apart index area) areas
Each-both index area [] h g = tt
Each-both index area ((i, a) ∷ areas) h g = ((h.0, g.0), Each-both index area areas h.1 g.1)

insert_free-IsWellFormed :
    (area : Area) (s : Screen)
    → area.drawable ≢ s.root
    → Each (λ i a. a.drawable ≢ area.drawable) s.areas
    → IsWellFormed s
    → IsWellFormed (insert_free area s).0
unfolding insert_free
insert_free-IsWellFormed area s no_root fresh v =
    let (index, found, free, _, _) =
      first_free-least (suc (length s.areas)) 0 s.areas (omega (arith, above_le 0 s.areas)) in
    rw (found, insert_free)
      (record {
        distinct =
            (Each-both index area s.areas (has_key-false index s.areas free) fresh, v.distinct);
        no_root = (no_root, v.no_root);
      })

remove-IsWellFormed :
    (key : ℕ) (s : Screen) → IsWellFormed s → IsWellFormed (record s { areas = remove key s.areas })
remove-IsWellFormed key s v = record {
  distinct = Distinct-remove key s.areas v.distinct;
  no_root = Each-remove (λ i a. a.drawable ≢ s.root) key s.areas v.no_root;
}

-- The area of a window is about that window.
pub init_area-drawable :
    (x : XServer) (root window : ℕ) (area : Area)
    → init_area x root window ≡ ok area
    → area.drawable ≡ window
unfolding init_area
init_area-drawable x root window area e = ground arith

insert_created-IsWellFormed :
    (x : XServer) (window : ℕ) (s : Screen) (r : Outcome Area)
    → init_area x s.root window ≡ r
    → window ≢ s.root
    → Each (λ i a. a.drawable ≢ window) s.areas
    → IsWellFormed s
    → IsWellFormed (insert_created r s).0
unfolding insert_created
insert_created-IsWellFormed x window s (ok area) e other fresh v =
    let d = init_area-drawable x s.root window area e in
    insert_free-IsWellFormed area s (rw d other) (rw d fresh) v
insert_created-IsWellFormed x window s (err chain) e other fresh v = v
insert_created-IsWellFormed x window s (panic why) e other fresh v = v

-- Creating an area keeps the areas well formed, whatever the X server answers.
pub create_area-IsWellFormed :
    (x : XServer) (window : ℕ) (s : Screen)
    → IsWellFormed s
    → IsWellFormed (create_area x window s).0
unfolding create_area
create_area-IsWellFormed x window s v = elim (Bool-cases (s.root == window)) [
  | inl is_root ↦ rw is_root v
  | inr other ↦ elim (Option-cases (find_last none window s.areas)) [
    | inr (i, known) ↦ rw (other, known, create_area) v
    | inl unknown ↦
        rw (other, unknown, create_area)
          (insert_created-IsWellFormed x window s (init_area x s.root window) refl (ground arith)
            (find_last-none none window s.areas unknown).1 v)
  ]
]

pub destroy_area-IsWellFormed :
    (window : ℕ) (s : Screen) → IsWellFormed s → IsWellFormed (destroy_area window s).0
unfolding destroy_area
destroy_area-IsWellFormed window s v = elim (Option-cases (find_last none window s.areas)) [
  | inl unknown ↦ rw (unknown, destroy_area) v
  | inr (i, known) ↦ rw (known, destroy_area) (remove-IsWellFormed i s v)
]

pub reparent_window-IsWellFormed :
    (window parent : ℕ) (s : Screen)
    → IsWellFormed s
    → IsWellFormed (reparent_window window parent s).0
unfolding reparent_window
reparent_window-IsWellFormed window parent s v = elim (Option-cases (find_first window s.areas)) [
  | inl unknown ↦ rw (unknown, reparent_window) v
  | inr (i, known) ↦ elim (Option-cases (find_first parent s.areas)) [
    | inl alone ↦ rw (known, alone, reparent_window) v
    | inr (j, also) ↦ rw (known, also, reparent_window) (remove-IsWellFormed i s v)
  ]
]

pub map_area-IsWellFormed :
    (window : ℕ) (map : Bool) (s : Screen) → IsWellFormed s → IsWellFormed (map_area window map s).0
unfolding map_area
map_area-IsWellFormed window map s v = elim (Option-cases (find_last none window s.areas)) [
  | inl unknown ↦ rw (unknown, map_area) v
  | inr (i, known) ↦
      rw (known, map_area)
        (record {
          distinct = Distinct-set_mapped i map s.areas v.distinct;
          no_root =
              Each-set_mapped (λ i a. a.drawable ≢ s.root) i map s.areas (λ i a b e g. rw e g)
                v.no_root;
        })
]

pub update_area-IsWellFormed :
    (window : ℕ) (x y : ℤ) (width height : ℕ) (s : Screen)
    → IsWellFormed s
    → IsWellFormed (update_area window x y width height s).0
unfolding update_area
update_area-IsWellFormed window x y width height s v = record {
  distinct = Distinct-move_first window (x, y) (width, height) s.areas v.distinct;
  no_root =
      Each-move_first (λ i a. a.drawable ≢ s.root) window (x, y) (width, height) s.areas
        (λ i a b e g. rw e g) v.no_root;
}
