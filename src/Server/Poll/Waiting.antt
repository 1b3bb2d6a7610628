-- ===== src/Server/Poll/Waiting.antt =====
-- What waits for a poll, message by message: `get_clipboard_events` and the channels of `poll_events`
-- in sanzu/src/server_x11.rs.
use sanzu.Prelude.{
  ◌%◌, ◌^◌, ◌≡◌, refl, ap, ap₂, ◌∙◌, List, [], ◌∷◌, ◌++◌, Option, none, some, map, String,
}
use sanzu.Messages.Server.{ServerEvent, Notification}
use sanzu.Server.Areas.{Areas}
use sanzu.Server.Poll.{Queued, pending, get_clipboard_events, clipboard_messages, area_message}

-- The last of the texts.
abbrev pub last_text : List String → Option String
last_text [] = none
last_text (text ∷ []) = some text
last_text (text ∷ next ∷ texts) = last_text (next ∷ texts)

last_text-some :
    (text : String) (texts : List String) → (last : String) × (last_text (text ∷ texts) ≡ some last)
last_text-some text [] = (text, refl)
last_text-some text (next ∷ texts) = last_text-some next texts

pub get_clipboard_events-last_text :
    (texts : List String) → get_clipboard_events texts ≡ last_text texts
unfolding get_clipboard_events
get_clipboard_events-last_text [] = refl
get_clipboard_events-last_text (text ∷ []) = refl
get_clipboard_events-last_text (text ∷ next ∷ texts) =
    let rest = get_clipboard_events-last_text (next ∷ texts) in
    let (last, e) = last_text-some next texts in rw (rest, e) refl

-- A message for each area, in their order: its number on 32 bits, where it is, and what it is.
abbrev pub area_messages : Areas → List (Option ServerEvent)
area_messages [] = []
area_messages ((index, area) ∷ areas) =
    some (
      ServerEvent.area_updt (record {
        id = index % 2 ^ 32;
        x = area.position.0;
        y = area.position.1;
        width = area.size.0;
        height = area.size.1;
        mapped = area.mapped;
        is_app = area.is_app;
        name = area.name;
      }))
    ∷ area_messages areas

abbrev pub text_messages : Option String → List (Option ServerEvent)
text_messages none = []
text_messages (some text) = some (ServerEvent.clipboard (record { text = text })) ∷ []

abbrev pub print_messages : List String → List (Option ServerEvent)
print_messages [] = []
print_messages (path ∷ paths) = some (ServerEvent.printfile path) ∷ print_messages paths

abbrev pub somes : List Notification → List (Option Notification)
somes [] = []
somes (n ∷ notifications) = some n ∷ somes notifications

abbrev pub notification_messages : List (List Notification) → List (Option ServerEvent)
notification_messages [] = []
notification_messages (ns ∷ rest) =
    some (ServerEvent.notifications (somes ns)) ∷ notification_messages rest

-- What waits: the last text, the areas, the files to print, the notifications.
abbrev pub waiting : Queued → Areas → List (Option ServerEvent)
waiting q areas =
    text_messages (last_text q.clipboard)
    ++ (area_messages areas
        ++ (print_messages q.printfiles ++ notification_messages q.notifications))

text_messages-eq : (text : Option String) → clipboard_messages text ≡ text_messages text
unfolding clipboard_messages
text_messages-eq none = refl
text_messages-eq (some text) = refl

area_messages-eq : (areas : Areas) → map area_message areas ≡ area_messages areas
unfolding area_message
area_messages-eq [] = refl
area_messages-eq ((index, area) ∷ areas) = rw (area_messages-eq areas) refl

print_messages-eq :
    (paths : List String)
    → map (λ path. some (ServerEvent.printfile path)) paths ≡ print_messages paths
print_messages-eq [] = refl
print_messages-eq (path ∷ paths) = rw (print_messages-eq paths) refl

somes-eq : (ns : List Notification) → map some ns ≡ somes ns
somes-eq [] = refl
somes-eq (n ∷ ns) = rw (somes-eq ns) refl

notification_messages-eq :
    (rest : List (List Notification))
    → map (λ n. some (ServerEvent.notifications (map some n))) rest ≡ notification_messages rest
notification_messages-eq [] = refl
notification_messages-eq (ns ∷ rest) =
    ap₂ ◌∷◌ (ap (λ ms. some (ServerEvent.notifications ms)) (somes-eq ns))
      (notification_messages-eq rest)

pub pending-eq : (q : Queued) (areas : Areas) → pending q areas ≡ waiting q areas
unfolding pending
pending-eq q areas =
    ap₂ ◌++◌
      (text_messages-eq (get_clipboard_events q.clipboard)
        ∙ ap text_messages (get_clipboard_events-last_text q.clipboard))
      (ap₂ ◌++◌ (area_messages-eq areas)
        (ap₂ ◌++◌ (print_messages-eq q.printfiles) (notification_messages-eq q.notifications)))
