-- ===== src/Tests/Principal.antt =====
-- The results on sanzu-common/src/utils.rs at a concrete principal.
use sanzu.Prelude.{◌≡◌, ◌⊎◌, List, [], ◌∷◌, ◌++◌, All}
use sanzu.Outcome.{ok, err}
use sanzu.Principal.{Text, get_username_from_principal}
use sanzu.Principal.Accepted.{IsUserAt, get_username_first}

-- "ann@b" among the realms "a" and "b".
abbrev ann : Text
ann = b'a' ∷ b'n' ∷ b'n' ∷ b'@' ∷ b'b' ∷ []

abbrev realms : List Text
realms = (b'a' ∷ []) ∷ (b'b' ∷ []) ∷ []

get_username_first_example :
    ((get_username_from_principal ann realms ≡ err ("Invalid realm" ∷ []))
      × All (λ realm. (user : Text) → ¬ IsUserAt ann user realm) realms)
    ⊎ ((earlier : List Text) × (later : List Text) × (realm : Text) × (user : Text)
        × (get_username_from_principal ann realms ≡ ok user)
        × (realms ≡ earlier ++ realm ∷ later)
        × IsUserAt ann user realm
        × All (λ r. (u : Text) → ¬ IsUserAt ann u r) earlier)
get_username_first_example = get_username_first ann realms
