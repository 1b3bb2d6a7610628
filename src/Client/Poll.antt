-- ===== src/Client/Poll.antt =====
-- `poll_events` of sanzu/src/client_x11.rs: the events of the X server become messages.
pub mod Pressed
pub mod Shortcuts
pub mod Released
pub mod Held
pub mod Chord
pub mod Framed
pub mod Handlers
pub mod Coalesced
pub mod Reports
use sanzu.Prelude.{
  ℕ, String, Bool, true, false, not, ◌&&◌, ◌||◌, List, [], ◌∷◌, ◌++◌, Option, none, some, ◌%◌, ◌==◌,
  if◌then◌else◌,
}
use sanzu.Outcome.{Outcome, ok, err, panic, Io, pure, fail, in_context, ◌>>=◌, ◌>>◌}
use sanzu.Messages.{EventClipboard, EventDisplay}
use sanzu.Messages.Client.{EventMove, EventKeyLocks, ClientEvent}
use sanzu.Server.Poll.{get_clipboard_events}
use sanzu.Client.{
  ClipboardConfig, key_s, key_c, key_h, ClientInfo, Calls, XEvent, Polling, change, append_events,
  send_key, send_button, write_key, chord, focus_in_calls, append_releases, focus_out_calls,
}

-- Control, shift, alt and S toggle the statistics. Each shortcut says whether the key is skipped.
unfoldable pub toggle_stats : (detail : ℕ) → Io Polling Bool
unfolding change
toggle_stats detail =
    if detail == key_s
    then (do
      down ← chord
      if down
          then (do change (λ c. record c { display_stats = not c.display_stats }); pure true)
          else pure false)
    else pure false

-- Control, shift, alt and C send the clipboard.
unfoldable pub trig_clipboard : (detail : ℕ) → Io Polling Bool
unfolding change
trig_clipboard detail =
    if detail == key_c
    then (do
      down ← chord
      if down then (do change (λ c. record c { clipbard_trig = true }); pure true) else pure false)
    else pure false

pub move_grab : Calls → Io Polling (Unit {0})
unfolding focus_out_calls focus_in_calls
move_grab calls p =
    if p.client.grab_keyboard
    then in_context "Cannot focus out" (focus_out_calls calls) p
    else in_context "Cannot focus in" (focus_in_calls calls) p

-- Control, shift, alt and H take or give back the keyboard.
unfoldable pub toggle_grab : Calls → (detail : ℕ) → Io Polling Bool
unfolding move_grab change
toggle_grab calls detail =
    if detail == key_h
    then (do
      down ← chord
      if down
          then (do
            move_grab calls
            change (λ c. record c { grab_keyboard = not c.grab_keyboard })
            pure true)
          else pure false)
    else pure false

pub press_key : Calls → (detail : ℕ) → Io Polling (Unit {0})
unfolding write_key send_key
press_key calls detail = do
  write_key (detail % 256) true
  stats ← toggle_stats detail
  clip ← trig_clipboard detail
  grab ← toggle_grab calls detail
  if stats || clip || grab then pure tt else send_key detail true

pub release_key : (detail : ℕ) → Io Polling (Unit {0})
unfolding write_key send_key
release_key detail = do write_key (detail % 256) false; send_key detail false

pub grab_focus : Calls → Io Polling (Unit {0})
unfolding focus_in_calls
grab_focus calls p =
    if p.client.grab_keyboard
    then in_context "Cannot focus in" (focus_in_calls calls) p
    else (ok tt, p)

pub refresh : Io Polling (Unit {0})
unfolding change
refresh = change (λ c. record c { need_update = true; sync_key_locks_needed = true })

pub enter : Calls → Io Polling (Unit {0})
unfolding grab_focus refresh
enter calls = do grab_focus calls; refresh

pub leave : Calls → (while_grabbed : Bool) → Io Polling (Unit {0})
unfolding focus_out_calls append_releases
leave calls while_grabbed p =
    if p.client.grab_keyboard
    then (if while_grabbed then in_context "Cannot focus out" (focus_out_calls calls) else pure tt)
        p
    else append_releases calls p

pub resize : (width height : ℕ) → Io Polling (Unit {0})
resize width height p =
    let resized = record p {
      client = record p.client { width = width; height = height; need_update = true };
      last_resize = some (record { width = width; height = height });
    } in
    if not (width == p.client.width) || not (height == p.client.height)
    then (ok tt, resized)
    else (ok tt, record p { client = record p.client { need_update = true } })

-- One turn of the event loop.
pub handle_event : XEvent → Io Polling (Unit {0})
unfolding change press_key release_key enter leave resize send_button
handle_event (XEvent.motion_notify x y) =
    λ p. (ok tt, record p { last_move = some (record { x = x; y = y }) })
handle_event (XEvent.button_press x y detail) = send_button x y detail true
handle_event (XEvent.button_release x y detail) = send_button x y detail false
handle_event (XEvent.key_press calls detail) = press_key calls detail
handle_event (XEvent.key_release detail) = release_key detail
handle_event (XEvent.focus_in calls) = enter calls
handle_event (XEvent.focus_out calls while_grabbed) = leave calls while_grabbed
handle_event (XEvent.configure_notify width height) = resize width height
handle_event XEvent.map_notify = change (λ c. record c { need_update = true })
handle_event XEvent.ignored = pure tt
handle_event XEvent.poll_failed = fail ("Error in poll_for_event" ∷ [])

-- `while let Some(event)`
pub handle_events : List XEvent → Io Polling (Unit {0})
unfolding handle_event
handle_events [] = pure tt
handle_events (event ∷ events) = do handle_event event; handle_events events

pub data LockKey : Type 0 where
  capital_lock : LockKey
  number_lock : LockKey
  scrolling_lock : LockKey

pub data LockKeyState : Type 0 where
  enabled : LockKeyState
  disabled : LockKeyState

key_state_to_bool : LockKeyState → Bool
key_state_to_bool enabled = true
key_state_to_bool disabled = false

pub read_lock : (LockKey → Option LockKeyState) → LockKey → Io Polling Bool
unfolding key_state_to_bool
read_lock state key p = elim (state key) [
  | none ↦ (panic "Cannot get key state", p)
  | some s ↦ (ok (key_state_to_bool s), p)
]

pub send_locks : (LockKey → Option LockKeyState) → Io Polling (Unit {0})
unfolding read_lock append_events change
send_locks state = do
  caps_lock ← read_lock state capital_lock
  num_lock ← read_lock state number_lock
  scroll_lock ← read_lock state scrolling_lock
  append_events (
      some (
        ClientEvent.keylocks
          (record { caps_lock = caps_lock; num_lock = num_lock; scroll_lock = scroll_lock }))
      ∷ [])
  change (λ c. record c { sync_key_locks_needed = false })

-- The state of the lock keys, where it is to be sent.
pub sync_locks : (LockKey → Option LockKeyState) → Io Polling (Unit {0})
unfolding send_locks
sync_locks state p =
    if p.client.sync_key_locks && p.client.sync_key_locks_needed
    then send_locks state p
    else (ok tt, p)

-- `events.extend(last_move)` and `events.extend(last_resize)`
pub last_move_message : Option EventMove → List (Option ClientEvent)
last_move_message none = []
last_move_message (some event) = some (ClientEvent.move event) ∷ []

pub last_resize_message : Option EventDisplay → List (Option ClientEvent)
last_resize_message none = []
last_resize_message (some event) = some (ClientEvent.display event) ∷ []

pub keep_clipboard : Option String → ClientInfo → ClientInfo
keep_clipboard none c = c
keep_clipboard (some text) c = record c { clipboard_last_value = some text }

pub clipboard_message : Option String → List (Option ClientEvent)
clipboard_message none = []
clipboard_message (some text) = some (ClientEvent.clipboard (record { text = text })) ∷ []

-- What the configuration lets through, and the client after that.
pub share_clipboard : ClipboardConfig → ClientInfo → List (Option ClientEvent) × ClientInfo
unfolding clipboard_message
share_clipboard ClipboardConfig.deny c = ([], c)
share_clipboard ClipboardConfig.allow c =
    (clipboard_message c.clipboard_last_value, record c { clipboard_last_value = none })
share_clipboard ClipboardConfig.trig c = (
  if c.clipbard_trig then clipboard_message c.clipboard_last_value else [],
  record c { clipbard_trig = false },
)

-- The end of `poll_events`: the clipboard texts that wait, and the messages in their order.
pub finish : (clipboard : List String) → Polling → List (Option ClientEvent) × ClientInfo
unfolding last_move_message last_resize_message keep_clipboard share_clipboard
finish clipboard p =
    let (shared, client) =
      share_clipboard p.client.clipboard_config
        (keep_clipboard (get_clipboard_events clipboard) p.client) in
    (
      p.events ++ (last_move_message p.last_move ++ (last_resize_message p.last_resize ++ shared)),
      client,
    )

pub begin_poll : ClientInfo → Polling
begin_poll c = record {
  client = record c { need_update = false };
  events = [];
  last_move = none;
  last_resize = none;
}

-- A poll that fails loses its messages; what it did to the client stays.
pub end_poll :
    (clipboard : List String)
    → Outcome (Unit {0})
    → Polling
    → Outcome (List (Option ClientEvent)) × ClientInfo
unfolding finish
end_poll clipboard (ok _) p = let (events, client) = finish clipboard p in (ok events, client)
end_poll clipboard (err chain) p = (err chain, p.client)
end_poll clipboard (panic why) p = (panic why, p.client)

unfoldable pub poll_events :
    (LockKey → Option LockKeyState)
    → List XEvent
    → (clipboard : List String) → Io ClientInfo (List (Option ClientEvent))
unfolding sync_locks handle_events end_poll begin_poll
poll_events locks xevents clipboard c =
    let (r, p) = (do sync_locks locks; handle_events xevents) (begin_poll c) in
    end_poll clipboard r p
