-- ===== src/Server/Areas/Operations.antt =====
-- The operations on areas together, against the map from windows to keys and areas.
use sanzu.Prelude.{ℕ, Bool, ◌≡◌, none, some, ◌==◌, ◌&&◌, if◌then◌else◌}
use sanzu.Prelude.Int.{ℤ}
use sanzu.Server.Areas.{
  Screen, XServer, reparent_window, create_area, destroy_area, map_area, update_area,
}
use sanzu.Server.Areas.WellFormed.{IsWellFormed}
use sanzu.Server.Areas.Refines.{
  at, known, Created, create_area-at, destroy_area-at, map_area-at, update_area-at,
  reparent_window-at,
}

-- A call of one of the operations, with its arguments.
pub data Operation : Type 0 where
  created : (window : ℕ) → Operation
  destroyed : (window : ℕ) → Operation
  mapped : (window : ℕ) → Bool → Operation
  configured : (window : ℕ) → (x y : ℤ) → (width height : ℕ) → Operation
  reparented : (window parent : ℕ) → Operation

abbrev pub perform : XServer → Operation → Screen → Screen × Bool
perform xserver (Operation.created window) s = create_area xserver window s
perform xserver (Operation.destroyed window) s = destroy_area window s
perform xserver (Operation.mapped window to) s = map_area window to s
perform xserver (Operation.configured window x y width height) s =
    update_area window x y width height s
perform xserver (Operation.reparented window parent) s = reparent_window window parent s

-- What the window `v` has after an operation, from what the windows had before it, and the answer.
abbrev pub Refined : XServer → Operation → Screen → (v : ℕ) → Screen × Bool → Type 0
Refined xserver (Operation.created window) s v r = Created xserver window s v r
Refined xserver (Operation.destroyed window) s v r =
    (at r.0 v ≡ (if window == v then none else at s v)) × (r.1 ≡ known (at s window))
Refined xserver (Operation.mapped window to) s v r =
    (at r.0 v ≡ (
      if window == v
      then (elim (at s v) [ none ↦ none | some (i, a) ↦ some (i, record a { mapped = to }) ])
      else at s v))
    × (r.1 ≡ known (at s window))
Refined xserver (Operation.configured window x y width height) s v r =
    (at r.0 v ≡ (
      if window == v
      then (elim (at s v) [
        | none ↦ none
        | some (i, a) ↦ some (i, record a { position = (x, y); size = (width, height) })
      ])
      else at s v))
    × (r.1 ≡ known (at s window))
Refined xserver (Operation.reparented window parent) s v r =
    (at r.0 v
      ≡ (if known (at s window) && known (at s parent) && window == v then none else at s v))
    × (r.1 ≡ (known (at s window) && known (at s parent)))

-- Every operation on the areas does to the map from windows to keys and areas what it is for, and
-- leaves the other windows as they are. A destroyed window has no area any more, and neither has one
-- that gets a known window as its parent; mapping and configuring set the flag, or the place and the
-- size, under the old key; a created window, other than the root, which is new and can be queried,
-- has the queried area under the least free key. The answer is whether there was something to do.
-- (The areas are well formed.)
pub perform-Refined :
    (xserver : XServer) (operation : Operation) (v : ℕ) (s : Screen)
    → IsWellFormed s
    → Refined xserver operation s v (perform xserver operation s)
perform-Refined xserver (Operation.created window) v s h = create_area-at xserver window v s h
perform-Refined xserver (Operation.destroyed window) v s h = destroy_area-at window v s h
perform-Refined xserver (Operation.mapped window to) v s h = map_area-at window v to s h
perform-Refined xserver (Operation.configured window x y width height) v s h =
    update_area-at window v x y width height s
perform-Refined xserver (Operation.reparented window parent) v s h =
    reparent_window-at window parent v s h
