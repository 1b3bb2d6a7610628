-- ===== src/Clipboard.antt =====
-- `listen_clipboard` of sanzu/src/utils_x11.rs: the texts of a selection that are reported. A text is
-- the list of its characters; a failed load is `none`.
pub mod Skipped
use sanzu.Prelude.{
  ℕ, zero, suc, Bool, true, false, List, [], ◌∷◌, Option, none, some, ◌==◌, if◌then◌else◌,
}

-- `trim_matches('\u{0}')`
trim_start : List ℕ → List ℕ
trim_start [] = []
trim_start (c ∷ text) = let rest = trim_start text in if c == 0 then rest else c ∷ text

-- A character before what is left of those behind it.
trim_before : ℕ → List ℕ → List ℕ
trim_before c [] = if c == 0 then [] else c ∷ []
trim_before c (d ∷ rest) = c ∷ d ∷ rest

trim_end : List ℕ → List ℕ
unfolding trim_before
trim_end [] = []
trim_end (c ∷ text) = trim_before c (trim_end text)

pub trim_nul : List ℕ → List ℕ
unfolding trim_start trim_end
trim_nul text = trim_end (trim_start text)

-- One text behind the trimming, before the rest of the loop: an empty one is passed over, one that
-- the program may have set itself uses up a skip, any other is sent.
take_text : List ℕ → ℕ → (ℕ → List (List ℕ) × ℕ) → List (List ℕ) × ℕ
take_text [] skip_clipboard rest = rest skip_clipboard
take_text (c ∷ text) (suc skip) rest = rest skip
take_text (c ∷ text) zero rest = let (sent, skip) = rest zero in ((c ∷ text) ∷ sent, skip)

-- What is sent of the texts heard, and the skips that are left.
pub listen_clipboard : List (Option (List ℕ)) → ℕ → List (List ℕ) × ℕ
unfolding take_text trim_nul
listen_clipboard [] skip_clipboard = ([], skip_clipboard)
listen_clipboard (none ∷ heard) skip_clipboard = listen_clipboard heard skip_clipboard
listen_clipboard (some text ∷ heard) skip_clipboard =
    take_text (trim_nul text) skip_clipboard (listen_clipboard heard)
