-- ===== src/Tests/Client.antt =====
-- The results on sanzu/src/client_x11.rs at a client with two keys down.
use sanzu.Prelude.{
  ℕ, ◌≡◌, ◌==◌, ◌||◌, refl, Bool, true, false, List, [], ◌∷◌, Option, none, some, replicate, arith,
  set, ◌⊎◌,
}
use sanzu.Server.Poll.{get_clipboard_events}
use sanzu.Outcome.{Safe}
use sanzu.Messages.Client.{ClientEvent}
use sanzu.Client.{chord, ClientInfo, ClipboardConfig, Calls, XEvent}
use sanzu.Client.Poll.{toggle_stats, trig_clipboard, toggle_grab, poll_events, LockKeyState}
use sanzu.Client.Poll.Pressed.{Held}
use sanzu.Client.Poll.Held.{poll_events-Held, Still}
use sanzu.Client.Poll.Reports.{poll_events-moves, poll_events-clipboard, Resized, Lets, started}
use sanzu.Client.Poll.Coalesced.{moves, PressesC}

abbrev four_keys : List Bool
four_keys = false ∷ true ∷ false ∷ true ∷ []

abbrev idle : List Bool → ClipboardConfig → ClientInfo
idle keys config = record {
  width = 80;
  height = 60;
  keys_state = keys;
  need_update = false;
  clipboard_config = config;
  clipboard_last_value = some "old";
  display_stats = false;
  clipbard_trig = false;
  sync_key_locks = false;
  sync_key_locks_needed = false;
  grab_keyboard = false;
}

abbrev calls : Calls
calls = record {
  release_flush = true;
  ungrab = true;
  ungrab_flush = true;
  grab_flush = true;
  grab = true;
  grab_reply = true;
  grab_flush_after = true;
}

-- Keys 1 and 3.
abbrev down : ℕ → Bool
down k = (k == 1) || (k == 3)

down-Held : Held four_keys down
down-Held k d = ground arith

abbrev all_up : List Bool
all_up = replicate 256 false

abbrev typing : List XEvent
typing = XEvent.key_press calls 38 ∷ XEvent.motion_notify 3 4 ∷ XEvent.focus_out calls false ∷ []

poll_events-Held_example :
    Safe
      (Still (λ _. false))
      (poll_events (λ key. some LockKeyState.disabled) typing [] (idle all_up ClipboardConfig.deny))
poll_events-Held_example =
    poll_events-Held (λ _. false) (λ _. LockKeyState.disabled) typing []
      (idle all_up ClipboardConfig.deny) ((omega arith, refl), (tt, (refl, tt))) refl
      (λ k d. ground (arith, d))

abbrev moving : List XEvent
moving = XEvent.motion_notify 1 2 ∷ XEvent.configure_notify 90 60 ∷ XEvent.motion_notify 3 4 ∷ []

-- The last move, then the new size.
abbrev reported : List (Option ClientEvent)
reported =
    some (ClientEvent.move (record { x = 3; y = 4 }))
    ∷ some (ClientEvent.display (record { width = 90; height = 60 }))
    ∷ []

poll_events-moves_example :
    (moves reported ≡ record { x = 3; y = 4 } ∷ [])
    × Resized
        (idle four_keys ClipboardConfig.deny)
        (record (idle four_keys ClipboardConfig.deny) { width = 90; need_update = true })
        (record { width = 90; height = 60 } ∷ [])
unfolding poll_events get_clipboard_events
poll_events-moves_example =
    poll_events-moves (λ key. none) moving [] (idle four_keys ClipboardConfig.deny) _ reported refl

-- Control, shift and alt are down.
abbrev chorded : List Bool
chorded = set (set (set all_up 37 true) 50 true) 64 true

abbrev copying : List XEvent
copying = XEvent.key_press calls 54 ∷ []

abbrev triggered : ClientInfo
triggered = record (idle chorded ClipboardConfig.trig) {
  keys_state = set chorded 54 true;
  clipboard_last_value = some "new";
}

abbrev copied : List (Option ClientEvent)
copied = some (ClientEvent.clipboard (record { text = "new" })) ∷ []

poll_events-clipboard_example :
    Lets ClipboardConfig.trig
      ((false ≡ true)
        ⊎ PressesC copying (started (λ key. none) (idle chorded ClipboardConfig.trig)))
      (some "new")
      ("new" ∷ [])
      triggered
unfolding poll_events get_clipboard_events toggle_stats trig_clipboard toggle_grab chord
poll_events-clipboard_example =
    poll_events-clipboard (λ key. none) copying ("old" ∷ "new" ∷ [])
      (idle chorded ClipboardConfig.trig) triggered copied refl
