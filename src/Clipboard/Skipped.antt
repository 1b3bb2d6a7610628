-- ===== src/Clipboard/Skipped.antt =====
-- Which of the texts heard are reported.
use sanzu.Prelude.{
  ℕ, zero, suc, ◌-◌, ◌≡◌, refl, ap, ◌∙◌, List, [], ◌∷◌, Option, none, some, length, drop, arith,
}
use sanzu.Clipboard.{trim_nul, take_text, listen_clipboard}

-- A text that is not empty, before others.
abbrev pub nonempty : List ℕ → List (List ℕ) → List (List ℕ)
nonempty [] texts = texts
nonempty (c ∷ text) texts = (c ∷ text) ∷ texts

-- The texts heard that are not empty once they are trimmed.
abbrev pub copied : List (Option (List ℕ)) → List (List ℕ)
copied [] = []
copied (none ∷ heard) = copied heard
copied (some text ∷ heard) = nonempty (trim_nul text) (copied heard)

take_text-eq :
    (text : List ℕ) (skip : ℕ) (rest : ℕ → List (List ℕ) × ℕ) (texts : List (List ℕ))
    → ((n : ℕ) → rest n ≡ (drop n texts, n - length texts))
    → take_text text skip rest
      ≡ (drop skip (nonempty text texts), skip - length (nonempty text texts))
unfolding take_text
take_text-eq [] skip rest texts h = h skip
take_text-eq (c ∷ text) (suc skip) rest texts h =
    h skip ∙ ap (λ n. (drop skip texts, n)) (omega arith)
take_text-eq (c ∷ text) zero rest texts h =
    rw (h zero) (ap (λ n. ((c ∷ text) ∷ texts, n)) (omega arith))

-- Of the texts heard that are not empty, the listener passes over as many as it is to skip and sends
-- the others, in their order; the skips that are left are those that no text has used up.
pub listen_clipboard-drop :
    (heard : List (Option (List ℕ))) (skip : ℕ)
    → listen_clipboard heard skip ≡ (drop skip (copied heard), skip - length (copied heard))
unfolding listen_clipboard
listen_clipboard-drop [] zero = refl
listen_clipboard-drop [] (suc skip) = ap (λ n. ([], n)) (omega arith)
listen_clipboard-drop (none ∷ heard) skip = listen_clipboard-drop heard skip
listen_clipboard-drop (some text ∷ heard) skip =
    take_text-eq (trim_nul text) skip (listen_clipboard heard) (copied heard)
      (listen_clipboard-drop heard)
