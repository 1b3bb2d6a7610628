-- ===== src/Principal.antt =====
-- sanzu-common/src/utils.rs: the user name of a principal "user@realm", for a list of realms. A
-- text is the list of its code points.
pub mod Accepted
use sanzu.Prelude.{
  ℕ, Bool, true, false, ◌&&◌, List, [], ◌∷◌, Option, none, some, ◌==◌, if◌then◌else◌,
}
use mathlib.Core.Option
use sanzu.Outcome.{Outcome, ok, err}

abbrev pub Text : Type 0
Text = List ℕ

abbrev pub same_text : Text → Text → Bool
same_text [] [] = true
same_text (x ∷ xs) (y ∷ ys) = x == y && same_text xs ys
same_text _ _ = false

-- `str::strip_suffix`
unfoldable pub strip_suffix : Text → Text → Option Text
strip_suffix [] suffix = if same_text [] suffix then some [] else none
strip_suffix (x ∷ xs) suffix =
    let rest = Option.map (◌∷◌ x) (strip_suffix xs suffix) in
    if same_text (x ∷ xs) suffix then some [] else rest

unfoldable pub get_username_from_principal : Text → List Text → Outcome Text
get_username_from_principal username [] = err ("Invalid realm" ∷ [])
get_username_from_principal username (realm ∷ realms) =
    let rest = get_username_from_principal username realms in
    elim (strip_suffix username (b'@' ∷ realm)) [ some user ↦ ok user | none ↦ rest ]
