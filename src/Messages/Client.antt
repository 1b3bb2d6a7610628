-- ===== src/Messages/Client.antt =====
-- The messages of sanzu-common/proto/tunnel.proto3 that a client sends.
use sanzu.Prelude.{ℕ, String, Bool, List, Option}
use sanzu.Messages.{Version, EventClipboard, EventKerberos, EventDisplay, EventError}

pub record ClientHelloFullscreen : Type 0 where
  pub audio : Bool
  pub audio_sample_rate : ℕ

pub record ClientHelloResolution : Type 0 where
  pub audio : Bool
  pub audio_sample_rate : ℕ
  pub width : ℕ
  pub height : ℕ

pub record EventMove : Type 0 where
  pub x : ℕ
  pub y : ℕ

pub record EventButton : Type 0 where
  pub x : ℕ
  pub y : ℕ
  pub button : ℕ
  pub updown : Bool

pub record EventKey : Type 0 where
  pub keycode : ℕ
  pub updown : Bool

pub record EventKeyLocks : Type 0 where
  pub caps_lock : Bool
  pub num_lock : Bool
  pub scroll_lock : Bool

-- `message_client::Msg`
pub data ClientEvent : Type 0 where
  move : EventMove → ClientEvent
  key : EventKey → ClientEvent
  button : EventButton → ClientEvent
  clipboard : EventClipboard → ClientEvent
  display : EventDisplay → ClientEvent
  activate : (id : ℕ) → ClientEvent
  keylocks : EventKeyLocks → ClientEvent

-- `message_client_ok::Msg`
pub data ClientOk : Type 0 where
  msgsclient : List (Option ClientEvent) → ClientOk
  kerberos : EventKerberos → ClientOk
  clienthellofullscreen : ClientHelloFullscreen → ClientOk
  clienthelloresolution : ClientHelloResolution → ClientOk
  pamuser : (user : String) → ClientOk
  pampwd : (password : String) → ClientOk
  version : Version → ClientOk

-- `client_msg_or_err::Msg`
pub data ClientAnswer : Type 0 where
  answer : Option ClientOk → ClientAnswer
  refusal : EventError → ClientAnswer

pub record ClientMsgOrErr : Type 0 where
  pub msg : Option ClientAnswer
