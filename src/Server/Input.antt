-- ===== src/Server/Input.antt =====
-- `handle_client_event` of sanzu/src/server_x11.rs: the messages of the client become fake input of
-- the X server. What the X server answers to a message comes with the message.
pub mod Faked
use sanzu.Prelude.{
  ℕ, ◌+◌, ◌%◌, ◌^◌, String, Bool, true, false, ◌&&◌, List, [], ◌∷◌, ◌++◌, Option, none, some, take,
  ◌==◌, if◌then◌else◌,
}
use sanzu.Outcome.{Outcome, ok, err, panic, Io, pure, fail, ◌>>=◌, ◌>>◌}
use sanzu.Messages.Client.{EventMove, EventButton, EventKey, EventKeyLocks, ClientEvent}
use sanzu.Server.Areas.{Area, Areas, XServer, contains}

-- A request of the XTEST extension. Coordinates are `as i16`: sixteen bits.
pub record FakeInput : Type 0 where
  pub event_type : ℕ
  pub detail : ℕ
  pub x : ℕ
  pub y : ℕ

-- How the calls for one message end: the fake input; the two selections;
-- the lock keys; how many messages to windows can be sent; and what the X server knows of windows.
pub record Replies : Type 0 where
  pub faked : Bool
  pub stored_clipboard : Bool
  pub stored_primary : Bool
  pub locks_set : Bool
  pub sends : ℕ
  pub x_server : XServer

-- What the handler reads and changes, with what it has asked of the X server so far.
pub record InputServer : Type 0 where
  pub root : ℕ
  pub areas : Areas
  pub frozen_frames_count : ℕ
  pub skip_clipboard_clipboard : ℕ
  pub skip_clipboard_primary : ℕ
  pub inputs : List FakeInput
  pub clipboard : Option String
  pub primary : Option String
  pub locks : Option EventKeyLocks
  pub activated : List ℕ

-- A failure is only logged.
pub fake_input : Replies → FakeInput → InputServer → InputServer
fake_input r i s = if r.faked then record s { inputs = s.inputs ++ i ∷ [] } else s

pub fake_move : Replies → EventMove → InputServer → InputServer
unfolding fake_input
fake_move r e =
    fake_input r (record { event_type = 6; detail = 0; x = e.x % 2 ^ 16; y = e.y % 2 ^ 16 })

pub fake_button : Replies → EventButton → InputServer → InputServer
unfolding fake_input
fake_button r e = fake_input r (record {
  event_type = if e.updown then 4 else 5;
  detail = e.button % 256;
  x = e.x % 2 ^ 16;
  y = e.y % 2 ^ 16;
})

pub fake_key : Replies → EventKey → InputServer → InputServer
unfolding fake_input
fake_key r e =
    fake_input r
      (record { event_type = if e.updown then 2 else 3; detail = e.keycode % 256; x = 0; y = 0 })

-- Both selections are set; each is to be skipped once when the listener hears of it. The first
-- failure ends it.
pub set_clipboard : Replies → String → InputServer → InputServer
set_clipboard r text s =
    let s₁ = record s { skip_clipboard_clipboard = s.skip_clipboard_clipboard + 1 } in
    if r.stored_clipboard
    then (let s₂ = record s₁ {
      clipboard = some text;
      skip_clipboard_primary = s₁.skip_clipboard_primary + 1;
    } in
        if r.stored_primary then record s₂ { primary = some text } else s₂)
    else s₁

-- `self.areas.get(&win_id)`
area_at : ℕ → Areas → Option Area
area_at key [] = none
area_at key ((index, area) ∷ areas) =
    let rest = area_at key areas in if index == key then some area else rest

-- The children that are windows of applications.
app_children : List ℕ → List ℕ → List ℕ
app_children client_list [] = []
app_children client_list (child ∷ children) =
    let rest = app_children client_list children in
    if contains client_list child then child ∷ rest else rest

-- The windows that `activate_window` sends a message to.
targets : XServer → (root : ℕ) → Option Area → List ℕ
targets x root none = []
targets x root (some area) = elim (x.get_client_list root) [
  | none ↦ []
  | some client_list ↦ elim (x.get_window_children area.drawable) [
    | none ↦ []
    | some children ↦ app_children client_list children
  ]
]

-- The first message that cannot be sent ends it.
pub activate_window : Replies → (win_id : ℕ) → InputServer → InputServer
unfolding area_at app_children targets
activate_window r win_id s = record s {
  activated = s.activated ++ take r.sends (targets r.x_server s.root (area_at win_id s.areas));
}

set_locks : Replies → EventKeyLocks → Io InputServer (List (ℕ × ℕ))
set_locks r e s =
    if r.locks_set
    then (ok [], record s { locks = some e })
    else (panic "called `Result::unwrap()` on an `Err` value", s)

-- One message; the value lists the changes of resolution that it asks for.
pub handle_message : Option ClientEvent → Replies → Io InputServer (List (ℕ × ℕ))
unfolding fake_move fake_button fake_key set_clipboard activate_window set_locks
handle_message none r = pure []
handle_message (some (ClientEvent.move e)) r = λ s. (ok [], fake_move r e s)
handle_message (some (ClientEvent.button e)) r = λ s. (ok [], fake_button r e s)
handle_message (some (ClientEvent.key e)) r = λ s. (ok [], fake_key r e s)
handle_message (some (ClientEvent.clipboard e)) r = λ s. (ok [], set_clipboard r e.text s)
handle_message (some (ClientEvent.display e)) r =
    λ s. (ok ((e.width, e.height) ∷ []), record s { frozen_frames_count = 0 })
handle_message (some (ClientEvent.activate id)) r = λ s. (ok [], activate_window r id s)
handle_message (some (ClientEvent.keylocks e)) r = set_locks r e

pub handle_client_event : List (Option ClientEvent × Replies) → Io InputServer (List (ℕ × ℕ))
unfolding handle_message
handle_client_event [] = pure []
handle_client_event ((msg, r) ∷ msgs) = do
  changes ← handle_message msg r
  later ← handle_client_event msgs
  pure (changes ++ later)
