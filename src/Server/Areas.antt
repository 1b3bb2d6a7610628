-- ===== src/Server/Areas.antt =====
-- The areas of sanzu/src/server_x11.rs: what the server knows of the windows on its screen.
pub mod Distinct
pub mod WellFormed
pub mod Windows
pub mod Refines
pub mod Operations
use sanzu.Prelude.{
  ℕ, zero, suc, ◌+◌, String, Bool, true, false, ◌||◌, List, [], ◌∷◌, Option, none, some, length,
  ◌==◌, if◌then◌else◌,
}
use sanzu.Prelude.Int.{ℤ}
use sanzu.Outcome.{Outcome, ok, err, panic, context}

pub record Area : Type 0 where
  pub drawable : ℕ
  pub position : ℤ × ℤ
  pub size : ℕ × ℕ
  pub mapped : Bool
  pub is_app : Bool
  pub name : String

-- `HashMap<usize, Area>`, in the order in which it happens to be traversed.
abbrev pub Areas : Type 0
Areas = List (ℕ × Area)

-- The X server, as the queries of one moment find it; `none` is a failed request.
pub record XServer : Type 0 where
  pub get_geometry : ℕ → Option ((ℤ × ℤ) × (ℕ × ℕ))
  pub is_viewable : ℕ → Bool
  pub get_client_list : ℕ → Option (List ℕ)
  pub get_window_children : ℕ → Option (List ℕ)
  pub get_window_name : ℕ → Option String

pub contains : List ℕ → ℕ → Bool
contains [] w = false
contains (x ∷ xs) w = x == w || contains xs w

-- The first child that is a client, with its name if it has one: `is_app` and `name`.
pub find_app : XServer → List ℕ → List ℕ → Bool × String
unfolding contains
find_app x app_list [] = (false, "")
find_app x app_list (child ∷ children) =
    let rest = find_app x app_list children in
    if contains app_list child
    then (true, elim (x.get_window_name child) [ none ↦ "" | some name ↦ name ])
    else rest

-- A window whose children cannot be listed is no app.
pub app_of : XServer → List ℕ → Option (List ℕ) → Bool × String
unfolding find_app
app_of x app_list none = (false, "")
app_of x app_list (some children) = find_app x app_list children

pub init_area : XServer → (root window : ℕ) → Outcome Area
unfolding app_of
init_area x root window = elim (x.get_geometry window) [
  | none ↦ err ("Error in get geometry" ∷ [])
  | some (position, size) ↦ elim (x.get_client_list root) [
    | none ↦ err ("Error in get_client_list" ∷ [])
    | some app_list ↦
        let (is_app, name) = app_of x app_list (x.get_window_children window) in
        ok (record {
          drawable = window;
          position = position;
          size = size;
          mapped = x.is_viewable window;
          is_app = is_app;
          name = name;
        })
  ]
]

-- The key of the first area of a window in the traversal: `break` at the first hit.
pub find_first : ℕ → Areas → Option ℕ
find_first window [] = none
find_first window ((index, area) ∷ areas) =
    if area.drawable == window then some index else find_first window areas

-- The key of the last one: a loop with no `break`.
pub find_last : Option ℕ → ℕ → Areas → Option ℕ
find_last found window [] = found
find_last found window ((index, area) ∷ areas) =
    find_last (if area.drawable == window then some index else found) window areas

-- `HashMap::remove`
pub remove : ℕ → Areas → Areas
remove key [] = []
remove key ((index, area) ∷ areas) =
    let rest = remove key areas in if index == key then rest else (index, area) ∷ rest

-- `contains_key`, which `Entry::Vacant` refutes
pub has_key : ℕ → Areas → Bool
has_key key [] = false
has_key key ((index, area) ∷ areas) = index == key || has_key key areas

-- `get_mut(key).mapped = map`
pub set_mapped : ℕ → Bool → Areas → Areas
set_mapped key map [] = []
set_mapped key map ((index, area) ∷ areas) =
    (index, if index == key then record area { mapped = map } else area) ∷ set_mapped key map areas

-- The state that these operations read and change: the root window and the areas.
pub record Screen : Type 0 where
  pub root : ℕ
  pub areas : Areas

pub reparent_window : (window parent : ℕ) → Screen → Screen × Bool
reparent_window window parent s = elim (find_first window s.areas) [
  | none ↦ (s, false)
  | some index_window ↦ elim (find_first parent s.areas) [
    | none ↦ (s, false)
    | some _ ↦ (record s { areas = remove index_window s.areas }, true)
  ]
]

-- `for index in 0..`, from `index` on, for at most `fuel` rounds
pub first_free : ℕ → ℕ → Areas → Option ℕ
first_free zero index areas = none
first_free (suc fuel) index areas =
    let next = first_free fuel (index + 1) areas in if has_key index areas then next else some index

-- The insertion, at the place where the traversal will meet it first.
pub insert_free : Area → Screen → Screen × Bool
insert_free area s = elim (first_free (suc (length s.areas)) 0 s.areas) [
  | none ↦ (s, false)
  | some index ↦ (record s { areas = (index, area) ∷ s.areas }, true)
]

pub insert_created : Outcome Area → Screen → Screen × Bool
unfolding insert_free
insert_created (ok area) s = insert_free area s
insert_created (err _) s = (s, false)
insert_created (panic _) s = (s, false)

pub create_area : XServer → (window : ℕ) → Screen → Screen × Bool
unfolding insert_created find_last
create_area x window s =
    if s.root == window then (s, false) else elim (find_last none window s.areas) [
      | some _ ↦ (s, false)
      | none ↦ insert_created (init_area x s.root window) s
    ]

pub destroy_area : (window : ℕ) → Screen → Screen × Bool
unfolding find_last
destroy_area window s = elim (find_last none window s.areas) [
  | none ↦ (s, false)
  | some index ↦ (record s { areas = remove index s.areas }, true)
]

pub map_area : (window : ℕ) → (map : Bool) → Screen → Screen × Bool
unfolding find_last set_mapped
map_area window map s = elim (find_last none window s.areas) [
  | none ↦ (s, false)
  | some index ↦ (record s { areas = set_mapped index map s.areas }, true)
]

-- The first area of the window gets its new place; the loop returns there.
pub move_first : (window : ℕ) → ℤ × ℤ → ℕ × ℕ → Areas → Areas × Bool
move_first window position size [] = ([], false)
move_first window position size ((index, area) ∷ areas) =
    let (moved, found) = move_first window position size areas in
    if area.drawable == window
    then ((index, record area { position = position; size = size }) ∷ areas, true)
    else ((index, area) ∷ moved, found)

pub update_area : (window : ℕ) → (x y : ℤ) → (width height : ℕ) → Screen → Screen × Bool
unfolding move_first
update_area window x y width height s =
    let (areas, found) = move_first window (x, y) (width, height) s.areas in
    (record s { areas = areas }, found)
