-- ===== src/Client.antt =====
-- The state of sanzu/src/client_x11.rs that `poll_events` works on, and the keys held down in it. The
-- calls of the X connection that an event leads to come with the event, as whether they succeed.
pub mod Poll
pub mod Frame
use sanzu.Prelude.{
  ℕ, ◌+◌, ◌%◌, ◌^◌, String, Bool, true, false, List, [], ◌∷◌, ◌++◌, map, Option, none, some, length,
  get_elem?, set, ltb, ◌==◌, if◌then◌else◌,
}
use sanzu.Outcome.{Outcome, ok, err, panic, Io, pure, fail, ◌>>=◌, ◌>>◌}
use sanzu.Messages.{EventClipboard, EventDisplay}
use sanzu.Messages.Client.{EventMove, EventButton, EventKey, EventKeyLocks, ClientEvent}

pub data ClipboardConfig : Type 0 where
  allow : ClipboardConfig
  deny : ClipboardConfig
  trig : ClipboardConfig

-- Key codes of X11.
abbrev pub key_ctrl : ℕ
key_ctrl = 37

abbrev pub key_shift : ℕ
key_shift = 50

abbrev pub key_alt : ℕ
key_alt = 64

abbrev pub key_s : ℕ
key_s = 39

abbrev pub key_c : ℕ
key_c = 54

abbrev pub key_h : ℕ
key_h = 43

-- What polling reads and changes of `ClientInfo`.
pub record ClientInfo : Type 0 where
  pub width : ℕ
  pub height : ℕ
  pub keys_state : List Bool
  pub need_update : Bool
  pub clipboard_config : ClipboardConfig
  pub clipboard_last_value : Option String
  pub display_stats : Bool
  pub clipbard_trig : Bool
  pub sync_key_locks : Bool
  pub sync_key_locks_needed : Bool
  pub grab_keyboard : Bool

-- Which calls of the connection succeed: the flush of `release_keys`, then those of `focus_out`
-- and of `focus_in`.
pub record Calls : Type 0 where
  pub release_flush : Bool
  pub ungrab : Bool
  pub ungrab_flush : Bool
  pub grab_flush : Bool
  pub grab : Bool
  pub grab_reply : Bool
  pub grab_flush_after : Bool

-- The events of the X server that the client tells apart. Coordinates are `as u32` already.
pub data XEvent : Type 0 where
  motion_notify : (x y : ℕ) → XEvent
  button_press : (x y detail : ℕ) → XEvent
  button_release : (x y detail : ℕ) → XEvent
  key_press : Calls → (detail : ℕ) → XEvent
  key_release : (detail : ℕ) → XEvent
  focus_in : Calls → XEvent
  focus_out : Calls → (while_grabbed : Bool) → XEvent
  configure_notify : (width height : ℕ) → XEvent
  map_notify : XEvent
  ignored : XEvent
  poll_failed : XEvent

-- The client, and the local variables of `poll_events`, of which the last two are a message each.
pub record Polling : Type 0 where
  pub client : ClientInfo
  pub events : List (Option ClientEvent)
  pub last_move : Option EventMove
  pub last_resize : Option EventDisplay

pub change : (ClientInfo → ClientInfo) → Io Polling (Unit {0})
change f p = (ok tt, record p { client = f p.client })

pub append_events : List (Option ClientEvent) → Io Polling (Unit {0})
append_events events p = (ok tt, record p { events = p.events ++ events })

pub send_key : ℕ → Bool → Io Polling (Unit {0})
unfolding append_events
send_key keycode updown =
    append_events (some (ClientEvent.key (record { keycode = keycode; updown = updown })) ∷ [])

pub send_button : (x y button : ℕ) → Bool → Io Polling (Unit {0})
unfolding append_events
send_button x y button updown =
    append_events
      (some (ClientEvent.button (record { x = x; y = y; button = button; updown = updown })) ∷ [])

-- A call that may fail.
pub call : String → Bool → Io Polling (Unit {0})
call text true = pure tt
call text false = fail (text ∷ [])

-- `self.keys_state[index] = value`
pub write_key : ℕ → Bool → Io Polling (Unit {0})
unfolding change
write_key index value p =
    if ltb index (length p.client.keys_state)
    then change (λ c. record c { keys_state = set c.keys_state index value }) p
    else (panic "index out of bounds", p)

-- `self.keys_state[index]`
pub read_key : ℕ → Io Polling Bool
read_key index p = elim (get_elem? p.client.keys_state index) [
  | none ↦ (panic "index out of bounds", p)
  | some value ↦ (ok value, p)
]

-- Are control, shift and alt down?
unfoldable pub chord : Io Polling Bool
unfolding read_key
chord = do
  ctrl ← read_key key_ctrl
  if ctrl
      then (do shift ← read_key key_shift; if shift then read_key key_alt else pure false)
      else pure false

-- A release for every key that is down, from `index` on.
pub releases : ℕ → List Bool → List (Option ClientEvent)
releases index [] = []
releases index (key_state ∷ states) =
    let rest = releases (index + 1) states in
    if key_state
    then some (ClientEvent.key (record { keycode = index % 2 ^ 32; updown = false })) ∷ rest
    else rest

-- The keys are up in any case; the messages are lost if the flush fails.
pub release_keys : Calls → ClientInfo → List (Option ClientEvent) × ClientInfo
unfolding releases
release_keys calls c = (
  if calls.release_flush then releases 0 c.keys_state else [],
  record c { keys_state = map (λ _. false) c.keys_state },
)

pub focus_in_calls : Calls → Io Polling (Unit {0})
unfolding call
focus_in_calls calls = do
  call "Error in x11rb flush" calls.grab_flush
  call "Error in grab keyboard" calls.grab
  call "Error in grab keyboard replyerror" calls.grab_reply
  call "Error in x11rb flush" calls.grab_flush_after

-- `release_keys` at both its callers: the messages go to the end.
pub append_releases : Calls → Io Polling (Unit {0})
unfolding release_keys
append_releases calls p =
    let (events, client) = release_keys calls p.client in
    (ok tt, record p { client = client; events = p.events ++ events })

-- `focus_out`, whose messages go to the end if the calls succeed.
pub focus_out_calls : Calls → Io Polling (Unit {0})
unfolding release_keys call
focus_out_calls calls p =
    let (events, client) = release_keys calls p.client in
    let q = record p { client = client } in
    (do
      call "Cannot ungrab" calls.ungrab
      call "Error in x11rb flush" calls.ungrab_flush
      λ r. (ok tt, record r { events = r.events ++ events }))
      q
