-- ===== src/Principal/Accepted.antt =====
-- Which principals are accepted, and as which user.
use sanzu.Prelude.{
  ℕ, ◌≡◌, refl, ap, ◌⊎◌, inl, inr, true, false, List, [], ◌∷◌, ◌++◌, none, some, All, arith,
  Bool-cases, Option-cases, length, length-append,
}
use sanzu.Outcome.{ok, err}
use sanzu.Principal.{Text, same_text, strip_suffix, get_username_from_principal}

same_text-eq : (xs ys : Text) → same_text xs ys ≡ true → xs ≡ ys
same_text-eq [] [] h = refl
same_text-eq [] (y ∷ ys) h = cc
same_text-eq (x ∷ xs) [] h = cc
same_text-eq (x ∷ xs) (y ∷ ys) h = ground (arith, same_text-eq xs ys)

same_text_refl : (xs : Text) → same_text xs xs ≡ true
same_text_refl [] = refl
same_text_refl (x ∷ xs) = ground (arith, same_text_refl xs)

-- What is left after a suffix was stripped, put before it, is the whole text.
strip_suffix-append : (xs suffix u : Text) → strip_suffix xs suffix ≡ some u → xs ≡ u ++ suffix
unfolding strip_suffix
strip_suffix-append [] suffix u h = ground (arith, same_text-eq [] suffix)
strip_suffix-append (x ∷ xs) suffix u h = elim (Bool-cases (same_text (x ∷ xs) suffix)) [
  | inl e ↦ ground (arith, same_text-eq (x ∷ xs) suffix)
  | inr e ↦ elim (Option-cases (strip_suffix xs suffix)) [
    | inl f ↦ ground arith
    | inr (v, f) ↦ let tail = ap (◌∷◌ x) (strip_suffix-append xs suffix v f) in ground (arith, tail)
  ]
]

append_ne : (x : ℕ) (u suffix : Text) → same_text (x ∷ (u ++ suffix)) suffix ≡ false
append_ne x u suffix = elim (Bool-cases (same_text (x ∷ (u ++ suffix)) suffix)) [
  | inl e ↦
      absurd (
        omega
          (arith, ap length (same_text-eq (x ∷ (u ++ suffix)) suffix e), length-append u suffix))
  | inr e ↦ e
]

append-strip_suffix : (u suffix : Text) → strip_suffix (u ++ suffix) suffix ≡ some u
unfolding strip_suffix
append-strip_suffix [] [] = refl
append-strip_suffix [] (y ∷ ys) = rw (same_text_refl (y ∷ ys))
append-strip_suffix (x ∷ u) suffix = rw (append_ne x u suffix, append-strip_suffix u suffix)

-- The name is `user@realm`.
abbrev pub IsUserAt : Text → Text → Text → Type 0
IsUserAt name user realm = name ≡ user ++ b'@' ∷ realm

stripped_none :
    (name realm : Text)
    → strip_suffix name (b'@' ∷ realm) ≡ none
    → (user : Text) → ¬ IsUserAt name user realm
stripped_none name realm e user at =
    cc (e, ap (λ n. strip_suffix n (b'@' ∷ realm)) at, append-strip_suffix user (b'@' ∷ realm))

-- A user is accepted as the part before "@realm" for the first realm of the list that the name
-- ends in; the name is refused, with "Invalid realm", exactly if it ends in none of them.
pub get_username_first :
    (name : Text) (realms : List Text)
    → ((get_username_from_principal name realms ≡ err ("Invalid realm" ∷ []))
        × All (λ realm. (user : Text) → ¬ IsUserAt name user realm) realms)
      ⊎ ((earlier : List Text) × (later : List Text) × (realm : Text) × (user : Text)
          × (get_username_from_principal name realms ≡ ok user)
          × (realms ≡ earlier ++ realm ∷ later)
          × IsUserAt name user realm
          × All (λ r. (u : Text) → ¬ IsUserAt name u r) earlier)
unfolding get_username_from_principal
get_username_first name [] = inl (refl, tt)
get_username_first name (realm ∷ realms) = elim (Option-cases (strip_suffix name (b'@' ∷ realm))) [
  | inr (user, e) ↦ inr (
    [],
    realms,
    realm,
    user,
    rw (e, get_username_from_principal),
    refl,
    strip_suffix-append name (b'@' ∷ realm) user e,
    tt,
  )
  | inl e ↦ elim (get_username_first name realms) [
    | inl (refused, none_fits) ↦
        inl (rw (e, get_username_from_principal) refused, (stripped_none name realm e, none_fits))
    | inr (earlier, later, r, u, found, split, at, before) ↦ inr (
      realm ∷ earlier,
      later,
      r,
      u,
      rw (e, get_username_from_principal) found,
      ap (◌∷◌ realm) split,
      at,
      (stripped_none name realm e, before),
    )
  ]
]
