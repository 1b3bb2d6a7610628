-- ===== src/Client/Poll/Held.antt =====
-- No key stays down on the server that is up at the client.
use sanzu.Prelude.{
  ℕ, ◌<◌, ◌≡◌, refl, ◌∙◌, Bool, true, false, not, ◌||◌, ◌&&◌, List, [], ◌∷◌, ◌++◌, Option, none,
  some, length, ◌==◌, if-cases, All, String, if◌then◌else◌,
}
use sanzu.Outcome.{Outcome, ok, err, panic, Safe, Safe-bind}
use sanzu.Messages.{EventDisplay}
use sanzu.Messages.Client.{EventMove, ClientEvent}
use sanzu.Client.{ClientInfo, XEvent, Polling, send_button, append_events, change, ClipboardConfig}
use sanzu.Client.Poll.{
  resize, handle_event, handle_events, LockKey, LockKeyState, read_lock, key_state_to_bool,
  poll_events, sync_locks, send_locks, finish, begin_poll, end_poll, last_move_message,
  last_resize_message, share_clipboard, keep_clipboard, clipboard_message,
}
use sanzu.Server.Poll.{get_clipboard_events}
use sanzu.Client.Poll.Pressed.{pressed, pressed-append, Held}
use sanzu.Client.Poll.Released.{
  Tracked, Tracked-client, Tracked-event, press_key-Safe, release_key-Safe, enter-Safe, leave-Safe,
}

-- Key codes are bytes, and the flush of `release_keys` succeeds.
abbrev pub Usable : XEvent → Type 0
Usable (XEvent.key_press calls detail) = (detail < 256) × (calls.release_flush ≡ true)
Usable (XEvent.key_release detail) = detail < 256
Usable (XEvent.focus_out calls while_grabbed) = calls.release_flush ≡ true
Usable _ = Unit

module _ (down : ℕ → Bool) where
  handle_event-Safe :
      (event : XEvent) (p : Polling)
      → Usable event
      → Tracked down p
      → Safe (λ _. Tracked down) (handle_event event p)
  unfolding handle_event send_button append_events change resize
  handle_event-Safe (XEvent.motion_notify x y) p u t = record { sized = t.sized; held = t.held }
  handle_event-Safe (XEvent.button_press x y detail) p u t =
      Tracked-event down p _ (λ k d. t.held k d) t
  handle_event-Safe (XEvent.button_release x y detail) p u t =
      Tracked-event down p _ (λ k d. t.held k d) t
  handle_event-Safe (XEvent.key_press calls detail) p u t =
      press_key-Safe down calls detail p u.0 u.1 t
  handle_event-Safe (XEvent.key_release detail) p u t = release_key-Safe down detail p u t
  handle_event-Safe (XEvent.focus_in calls) p u t = enter-Safe down calls p t
  handle_event-Safe (XEvent.focus_out calls while_grabbed) p u t =
      leave-Safe down calls while_grabbed p u t
  handle_event-Safe (XEvent.configure_notify width height) p u t =
      if-cases (Safe {A = Unit {0}} (λ _. Tracked down))
        (not (width == p.client.width) || not (height == p.client.height)) _ _
        (λ _. record { sized = t.sized; held = t.held })
        (λ _. record { sized = t.sized; held = t.held })
  handle_event-Safe XEvent.map_notify p u t = Tracked-client down p _ refl t
  handle_event-Safe XEvent.ignored p u t = t
  handle_event-Safe XEvent.poll_failed p u t = tt

  handle_events-Safe :
      (events : List XEvent) (p : Polling)
      → All Usable events
      → Tracked down p
      → Safe (λ _. Tracked down) (handle_events events p)
  unfolding handle_events
  handle_events-Safe [] p u t = t
  handle_events-Safe (event ∷ events) p u t =
      Safe-bind (λ _. Tracked down) _ (handle_event event) _ p (handle_event-Safe event p u.0 t)
        λ _ q t. handle_events-Safe events q u.1 t

  sync_locks-Safe :
      (locks : LockKey → LockKeyState) (p : Polling)
      → Tracked down p
      → Safe (λ _. Tracked down) (sync_locks (λ key. some (locks key)) p)
  unfolding sync_locks send_locks read_lock key_state_to_bool append_events change
  sync_locks-Safe locks p t =
      if-cases (Safe {A = Unit {0}} (λ _. Tracked down))
        (p.client.sync_key_locks && p.client.sync_key_locks_needed) _ _
        (λ _. Tracked-client down _ _ refl (Tracked-event down p _ (λ k d. t.held k d) t)) (λ _. t)

-- Messages that press no key.
pressed-last :
    (move : Option EventMove) (size : Option EventDisplay) (text : Option String) (down : ℕ → Bool)
    → pressed (last_move_message move ++ (last_resize_message size ++ clipboard_message text)) down
      ≡ down
unfolding last_move_message last_resize_message clipboard_message
pressed-last none none none down = refl
pressed-last none none (some _) down = refl
pressed-last none (some _) none down = refl
pressed-last none (some _) (some _) down = refl
pressed-last (some _) none none down = refl
pressed-last (some _) none (some _) down = refl
pressed-last (some _) (some _) none down = refl
pressed-last (some _) (some _) (some _) down = refl

message_if :
    (b : Bool) (text : Option String)
    → (if b then clipboard_message text else []) ≡ clipboard_message (if b then text else none)
unfolding clipboard_message
message_if true text = refl
message_if false text = refl

share_clipboard-shares :
    (config : ClipboardConfig) (c : ClientInfo)
    → (text : Option String) × ((share_clipboard config c).0 ≡ clipboard_message text)
      × ((share_clipboard config c).1.keys_state ≡ c.keys_state)
unfolding share_clipboard clipboard_message
share_clipboard-shares ClipboardConfig.deny c = (none, refl, refl)
share_clipboard-shares ClipboardConfig.allow c = (c.clipboard_last_value, refl, refl)
share_clipboard-shares ClipboardConfig.trig c = (
  if c.clipbard_trig then c.clipboard_last_value else none,
  message_if c.clipbard_trig c.clipboard_last_value,
  refl,
)

keep_clipboard-keys :
    (text : Option String) (c : ClientInfo) → (keep_clipboard text c).keys_state ≡ c.keys_state
unfolding keep_clipboard
keep_clipboard-keys none c = refl
keep_clipboard-keys (some text) c = refl

module _ (down : ℕ → Bool) where
  -- What a server believes after a poll that ends with a value.
  abbrev pub Still : List (Option ClientEvent) → ClientInfo → Type 0
  Still msgs c = (length c.keys_state ≡ 256) × Held c.keys_state (pressed msgs down)

  finish-Still :
      (clipboard : List String) (p : Polling)
      → Tracked down p
      → Still (finish clipboard p).0 (finish clipboard p).1
  unfolding finish
  finish-Still clipboard p t =
      let client = keep_clipboard (get_clipboard_events clipboard) p.client in
      let (text, shares, keys) = share_clipboard-shares p.client.clipboard_config client in
      let same = keys ∙ keep_clipboard-keys (get_clipboard_events clipboard) p.client in
      let last = pressed-last p.last_move p.last_resize text (pressed p.events down) in
      rw (same, shares, pressed-append p.events _ down, last) (t.sized, t.held)

  end_poll-Safe :
      (clipboard : List String) (r : Outcome (Unit {0})) (p : Polling)
      → Safe (λ _. Tracked down) (r, p)
      → Safe Still (end_poll clipboard r p)
  unfolding end_poll
  end_poll-Safe clipboard (ok _) p t = finish-Still clipboard p t
  end_poll-Safe clipboard (err chain) p t = tt
  end_poll-Safe clipboard (panic why) p t = absurd t

  -- If every key that the server believes down is down at the client, so it is after the server has
  -- handled the messages of a poll, whatever the events; and no event makes the poll panic. (The
  -- client's table has its 256 keys, key codes are bytes, the lock keys can be read, and the flush
  -- of `release_keys` succeeds.)
  pub poll_events-Held :
      (locks : LockKey → LockKeyState) (events : List XEvent) (clipboard : List String)
      (c : ClientInfo)
      → All Usable events
      → length c.keys_state ≡ 256
      → Held c.keys_state down
      → Safe Still (poll_events (λ key. some (locks key)) events clipboard c)
  unfolding poll_events begin_poll
  poll_events-Held locks events clipboard c u sized held = end_poll-Safe clipboard _ _ (
      Safe-bind (λ _. Tracked down) (λ _. Tracked down) (sync_locks (λ key. some (locks key)))
        (λ _. handle_events events) (begin_poll c)
        (sync_locks-Safe down locks (begin_poll c) (record { sized = sized; held = held }))
        (λ _ p t. handle_events-Safe down events p u t))
