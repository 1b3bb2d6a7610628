-- ===== src/Server/Areas/Refines.antt =====
-- The operations on areas, as their effect on the map from windows to keys and areas.
use sanzu.Prelude.{
  ℕ, ◌≡◌, ◌≢◌, refl, ap, ◌⊎◌, inl, inr, Bool, true, false, [], ◌∷◌, Option, none, some, ◌==◌, suc,
  ◌<◌, length, if◌then◌else◌, arith, Bool-cases, Option-cases, sym, ◌∙◌, ◌&&◌,
}
use sanzu.Prelude.Int.{ℤ}
use sanzu.Outcome.{Outcome, ok, err, panic}
use sanzu.Server.Areas.{
  Area, Areas, Screen, XServer, init_area, find_first, find_last, has_key, reparent_window,
  create_area, destroy_area, map_area, move_first, update_area, insert_created, insert_free,
}
use sanzu.Server.Areas.WellFormed.{IsWellFormed, first_free-least, above_le, init_area-drawable}
use sanzu.Server.Areas.Windows.{
  area_of, key_of, find_first-key, find_last-key, area_of-remove, area_of-set_mapped,
  area_of-move_first,
}

-- The operations as functions of what a window has.
abbrev pub at : Screen → ℕ → Option (ℕ × Area)
at s w = area_of w s.areas

abbrev pub known : Option (ℕ × Area) → Bool
known none = false
known (some _) = true

key_none : (o : Option (ℕ × Area)) → key_of o ≡ none → o ≡ none
key_none none e = refl
key_none (some (i, a)) e = cc

key_some : (o : Option (ℕ × Area)) (i : ℕ) → key_of o ≡ some i → (a : Area) × (o ≡ some (i, a))
key_some none i e = cc
key_some (some (j, a)) i e = (a, ground arith)

moved :
    (w : ℕ) (position : ℤ × ℤ) (size : ℕ × ℕ) (areas : Areas)
    → (move_first w position size areas).1 ≡ known (area_of w areas)
unfolding move_first
moved w position size [] = refl
moved w position size ((index, area) ∷ areas) = ground (arith, moved w position size areas)

-- A destroyed window has no area any more, and every other window has the key and the area that it
-- had; the answer is whether the window had one. (The areas are well formed.)
pub destroy_area-at :
    (w v : ℕ) (s : Screen)
    → IsWellFormed s
    → (at (destroy_area w s).0 v ≡ (if w == v then none else at s v))
      × ((destroy_area w s).1 ≡ known (at s w))
unfolding destroy_area
destroy_area-at w v s h = elim (Option-cases (find_last none w s.areas)) [
  | inl missing ↦
      let absent = key_none (at s w) (sym (find_last-key w s.areas h.distinct) ∙ missing) in
      rw (missing, destroy_area) (ground (arith, absent), ground (arith, absent))
  | inr (i, found) ↦
      let (a, e) = key_some (at s w) i (sym (find_last-key w s.areas h.distinct) ∙ found) in
      rw (found, destroy_area) (area_of-remove v w i a s.areas h.distinct e, ground (arith, e))
]

-- Mapping or unmapping a window sets that flag of its area, if it has one, and changes nothing else;
-- the answer is whether it has one. (The areas are well formed.)
pub map_area-at :
    (w v : ℕ) (map : Bool) (s : Screen)
    → IsWellFormed s
    → (at (map_area w map s).0 v ≡ (
        if w == v
        then (elim (at s v) [ none ↦ none | some (i, a) ↦ some (i, record a { mapped = map }) ])
        else at s v))
      × ((map_area w map s).1 ≡ known (at s w))
unfolding map_area
map_area-at w v map s h = elim (Option-cases (find_last none w s.areas)) [
  | inl missing ↦
      let absent = key_none (at s w) (sym (find_last-key w s.areas h.distinct) ∙ missing) in
      rw (missing, map_area) (ground (arith, absent), ground (arith, absent))
  | inr (i, found) ↦
      let (a, e) = key_some (at s w) i (sym (find_last-key w s.areas h.distinct) ∙ found) in
      rw (found, map_area)
        (ground (arith, area_of-set_mapped v w i a map s.areas h.distinct e, e), ground (arith, e))
]

-- A configured window has the new place and size under its old key, if it has an area, and no other
-- window changes; the answer is whether it has one.
pub update_area-at :
    (w v : ℕ) (x y : ℤ) (width height : ℕ) (s : Screen)
    → (at (update_area w x y width height s).0 v ≡ (
        if w == v
        then (elim (at s v) [
          | none ↦ none
          | some (i, a) ↦ some (i, record a { position = (x, y); size = (width, height) })
        ])
        else at s v))
      × ((update_area w x y width height s).1 ≡ known (at s w))
unfolding update_area
update_area-at w v x y width height s =
    (area_of-move_first v w (x, y) (width, height) s.areas, moved w (x, y) (width, height) s.areas)

-- A window that gets another known window as its parent has no area any more; where one of the two
-- is unknown, and for every other window, nothing changes. (The areas are well formed.)
pub reparent_window-at :
    (w parent v : ℕ) (s : Screen)
    → IsWellFormed s
    → (at (reparent_window w parent s).0 v
        ≡ (if known (at s w) && known (at s parent) && w == v then none else at s v))
      × ((reparent_window w parent s).1 ≡ (known (at s w) && known (at s parent)))
unfolding reparent_window
reparent_window-at w parent v s h = elim (Option-cases (find_first w s.areas)) [
  | inl missing ↦
      let absent = key_none (at s w) (sym (find_first-key w s.areas) ∙ missing) in
      rw (missing, reparent_window) (ground (arith, absent), ground (arith, absent))
  | inr (i, found) ↦
      let (a, e) = key_some (at s w) i (sym (find_first-key w s.areas) ∙ found) in
      elim (Option-cases (find_first parent s.areas)) [
        | inl alone ↦
            let absent = key_none (at s parent) (sym (find_first-key parent s.areas) ∙ alone) in
            rw (found, alone, reparent_window)
              (ground (arith, absent, e), ground (arith, absent, e))
        | inr (j, also) ↦
            let (b, f) = key_some (at s parent) j (sym (find_first-key parent s.areas) ∙ also) in
            rw (found, also, reparent_window)
              (
                ground (arith, area_of-remove v w i a s.areas h.distinct e, e, f),
                ground (arith, e, f),
              )
      ]
]

-- The least key that no area has.
abbrev pub LeastFree : ℕ → Areas → Type 0
LeastFree key areas = (has_key key areas ≡ false) × ((j : ℕ) → j < key → has_key j areas ≡ true)

insert_free-at :
    (area : Area) (v : ℕ) (s : Screen)
    → (key : ℕ) × LeastFree key s.areas
      × (at (insert_free area s).0 v ≡ (if area.drawable == v then some (key, area) else at s v))
      × ((insert_free area s).1 ≡ true)
unfolding insert_free
insert_free-at area v s =
    let (key, found, free, _, least) =
      first_free-least (suc (length s.areas)) 0 s.areas (omega (arith, above_le 0 s.areas)) in
    (
      key,
      (free, λ j below. least j (omega arith) below),
      rw (found, insert_free),
      rw (found, insert_free),
    )

-- What `create_area` does about a window: nothing, where it is the root, known, or cannot be
-- queried; else the window has the area that was queried, under the least free key.
pub data Created (x : XServer) (w : ℕ) (s : Screen) (v : ℕ) (r : Screen × Bool) : Type 0 where
  kept :
      (w ≡ s.root) ⊎ (known (at s w) ≡ true) ⊎ ((area : Area) → init_area x s.root w ≢ ok area)
      → r ≡ (s, false)
      → Created x w s v r
  made :
      (area : Area) (key : ℕ)
      → w ≢ s.root
      → known (at s w) ≡ false
      → init_area x s.root w ≡ ok area
      → LeastFree key s.areas
      → at r.0 v ≡ (if w == v then some (key, area) else at s v)
      → r.1 ≡ true
      → Created x w s v r

insert_created-at :
    (x : XServer) (w v : ℕ) (s : Screen) (r : Outcome Area)
    → w ≢ s.root
    → known (at s w) ≡ false
    → init_area x s.root w ≡ r
    → Created x w s v (insert_created r s)
unfolding insert_created
insert_created-at x w v s (ok area) other new e =
    let (key, least, at_v, done) = insert_free-at area v s in
    made area key other new e least
      (at_v
        ∙ ap (λ (d : ℕ). if d == v then some (key, area) else at s v)
            (init_area-drawable x s.root w area e))
      done
insert_created-at x w v s (err chain) other new e = kept (inr (inr (λ area f. cc))) refl
insert_created-at x w v s (panic why) other new e = kept (inr (inr (λ area f. cc))) refl

-- `create_area` gives a new window, other than the root, the area that the X server describes,
-- under the least free key, and no other window changes; for the root, a known window and one that
-- cannot be queried it does nothing. (The areas are well formed.)
pub create_area-at :
    (x : XServer) (w v : ℕ) (s : Screen) → IsWellFormed s → Created x w s v (create_area x w s)
unfolding create_area
create_area-at x w v s h = elim (Bool-cases (s.root == w)) [
  | inl is_root ↦ rw is_root (kept (inl (ground arith)) refl)
  | inr other ↦ elim (Option-cases (find_last none w s.areas)) [
    | inr (i, found) ↦
        let (a, e) = key_some (at s w) i (sym (find_last-key w s.areas h.distinct) ∙ found) in
        rw (other, found, create_area) (kept (inr (inl (ground (arith, e)))) refl)
    | inl missing ↦
        let absent = key_none (at s w) (sym (find_last-key w s.areas h.distinct) ∙ missing) in
        rw (other, missing, create_area)
          (insert_created-at x w v s (init_area x s.root w) (ground arith) (ground (arith, absent))
            refl)
  ]
]
