-- ===== src/Server/Poll.antt =====
-- `poll_events` of sanzu/src/server_x11.rs: the events of the X server become messages. What the X
-- server, the clipboard listeners, and dbus have queued is an argument of the call.
pub mod Invariant
pub mod Waiting
pub mod Report
use sanzu.Prelude.{
  ℕ, ◌+◌, ◌%◌, ◌^◌, String, Bool, true, false, ◌||◌, List, [], ◌∷◌, ◌++◌, map, Option, none, some,
  if◌then◌else◌,
}
use sanzu.Prelude.Bytes.{LittleEndian}
use sanzu.Prelude.Int.{ℤ}
use sanzu.Outcome.{Outcome, ok, err, Io, pure, fail, ◌>>=◌, ◌>>◌}
use sanzu.Messages.Server.{ServerEvent, EventAreaUpdt, Notification}
use sanzu.Server.Areas.{
  Area, Areas, XServer, Screen, find_first, create_area, map_area, reparent_window, destroy_area,
  update_area,
}

-- `reply` of a request for the cursor's image, which may fail when it is sent or when it is answered.
pub data CursorReply : Type 0 where
  no_request no_reply : CursorReply
  image : (pixels : List ℕ) → (width height xhot yhot : ℕ) → CursorReply

pub data XEvent : Type 0 where
  cursor_notify : CursorReply → XEvent
  damage_notify : XEvent
  create_notify : XServer → (window : ℕ) → XEvent
  map_notify : XServer → (window : ℕ) → XEvent
  reparent_notify : (window parent : ℕ) → XEvent
  destroy_notify : (window : ℕ) → XEvent
  unmap_notify : (window : ℕ) → XEvent
  configure_notify : (window : ℕ) → (x y : ℤ) → (width height : ℕ) → XEvent
  client_message : XEvent
  ignored : XEvent
  poll_failed : XEvent

-- The fields of `ServerX11` that polling uses.
pub record ServerX11 : Type 0 where
  pub screen : Screen
  pub img_count : ℕ
  pub frozen_frames_count : ℕ
  pub modified_img : Bool
  pub modified_area : Bool

-- `if f(self, ..) { self.modified_area = true; }`
abbrev pub on_screen : (Screen → Screen × Bool) → ServerX11 → ServerX11
on_screen f s =
    let (screen, changed) = f s.screen in
    record s { screen = screen; modified_area = changed || s.modified_area }

-- `MapNotify` of a window that no area is about adds it first.
add_unknown : XServer → (window : ℕ) → ServerX11 → ServerX11
add_unknown x window s = elim (find_first window s.screen.areas) [
  | none ↦ on_screen (create_area x window) s
  | some _ ↦ s
]

module _ (b : LittleEndian) where
  -- Each pixel on four bytes.
  pub cursor_bytes : List ℕ → List ℕ
  cursor_bytes [] = []
  cursor_bytes (pixel ∷ pixels) = b.write_u32 pixel ++ cursor_bytes pixels

  handle_cursor : CursorReply → Io ServerX11 (List (Option ServerEvent))
  handle_cursor no_request = pure []
  handle_cursor no_reply = fail ("Error in get_cursor_image reply" ∷ [])
  handle_cursor (image pixels width height xhot yhot) = pure (
      some (
        ServerEvent.cursor (record {
          pixels = cursor_bytes pixels;
          width = width;
          height = height;
          xhot = xhot;
          yhot = yhot;
        }))
      ∷ [])

  -- One turn of the event loop: the messages that it pushes.
  pub handle_event : XEvent → Io ServerX11 (List (Option ServerEvent))
  unfolding handle_cursor add_unknown
  handle_event (cursor_notify reply) = handle_cursor reply
  handle_event damage_notify = λ s. (ok [], record s { modified_img = true })
  handle_event (create_notify x window) = λ s. (ok [], on_screen (create_area x window) s)
  handle_event (map_notify x window) =
      λ s. (ok [], on_screen (map_area window true) (add_unknown x window s))
  handle_event (reparent_notify window parent) =
      λ s. (ok [], on_screen (reparent_window window parent) s)
  handle_event (destroy_notify window) = λ s. (ok [], on_screen (destroy_area window) s)
  handle_event (unmap_notify window) = λ s. (ok [], on_screen (map_area window false) s)
  handle_event (configure_notify window x y width height) =
      λ s. (ok [], on_screen (update_area window x y width height) s)
  handle_event client_message = λ s. (ok [], record s { modified_area = true })
  handle_event ignored = pure []
  handle_event poll_failed = fail ("Error in poll_for_event" ∷ [])

  -- `while let Some(event)`
  pub handle_events : List XEvent → Io ServerX11 (List (Option ServerEvent))
  handle_events [] = pure []
  handle_events (event ∷ events) = do
    pushed ← handle_event event
    later ← handle_events events
    pure (pushed ++ later)

-- `get_clipboard_events`: the last text that waits.
unfoldable pub get_clipboard_events : List String → Option String
get_clipboard_events [] = none
get_clipboard_events (text ∷ texts) = elim (get_clipboard_events texts) [
  | none ↦ some text
  | some last ↦ some last
]

pub clipboard_messages : Option String → List (Option ServerEvent)
clipboard_messages none = []
clipboard_messages (some text) = some (ServerEvent.clipboard (record { text = text })) ∷ []

pub area_message : ℕ × Area → Option ServerEvent
area_message (index, area) = some (
    ServerEvent.area_updt (record {
      id = index % 2 ^ 32;
      x = area.position.0;
      y = area.position.1;
      width = area.size.0;
      height = area.size.1;
      mapped = area.mapped;
      is_app = area.is_app;
      name = area.name;
    }))

-- What waits in the channels when the events are read.
pub record Queued : Type 0 where
  pub clipboard : List String
  pub printfiles : List String
  pub notifications : List (List Notification)

-- The messages behind those of the events: clipboard, areas, files to print, notifications.
pub pending : Queued → Areas → List (Option ServerEvent)
unfolding get_clipboard_events clipboard_messages area_message
pending q areas =
    clipboard_messages (get_clipboard_events q.clipboard)
    ++ (map area_message areas
        ++ (map (λ path. some (ServerEvent.printfile path)) q.printfiles
            ++ map (λ n. some (ServerEvent.notifications (map some n))) q.notifications))

count_frame : ServerX11 → ServerX11
count_frame s = record s {
  frozen_frames_count = if s.modified_img then 0 else (s.frozen_frames_count + 1) % 2 ^ 32;
}

begin_poll : ServerX11 → ServerX11
begin_poll s = record s { img_count = s.img_count + 1; modified_img = false; modified_area = false }

-- `flushed` says whether the first flush of the connection succeeds.
pub poll_events :
    LittleEndian
    → (flushed : Bool) → List XEvent
    → Queued
    → Io ServerX11 (List (Option ServerEvent))
unfolding count_frame begin_poll
poll_events b flushed xevents q s =
    let start = begin_poll s in
    if flushed
    then (do
      pushed ← handle_events b xevents
      λ t. (ok (pushed ++ pending q t.screen.areas), count_frame t))
        start
    else (err ("Cannot flush" ∷ []), start)
