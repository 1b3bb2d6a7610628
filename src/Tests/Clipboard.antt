-- ===== src/Tests/Clipboard.antt =====
-- The result on `listen_clipboard`: a selection that the program has set to the empty text, and then
-- two texts, of which the first is passed over.
use sanzu.Prelude.{ℕ, ◌≡◌, List, [], ◌∷◌, Option, none, some, drop, ◌-◌, length}
use sanzu.Clipboard.{listen_clipboard}
use sanzu.Clipboard.Skipped.{copied, listen_clipboard-drop}

abbrev heard : List (Option (List ℕ))
heard = some [] ∷ none ∷ some (97 ∷ 0 ∷ []) ∷ some (98 ∷ []) ∷ []

listen_clipboard-drop_example :
    listen_clipboard heard 1 ≡ (drop 1 (copied heard), 1 - length (copied heard))
listen_clipboard-drop_example = listen_clipboard-drop heard 1
