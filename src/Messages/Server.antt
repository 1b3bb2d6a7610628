-- ===== src/Messages/Server.antt =====
-- The messages of sanzu-common/proto/tunnel.proto3 that a server sends.
use sanzu.Prelude.{ℕ, String, Bool, List, Option}
use sanzu.Prelude.Int.{ℤ}
use sanzu.Messages.{Version, EventClipboard, EventKerberos, EventDisplay, EventError}

pub data PamConversation : Type 0 where
  echo blind info error : String → PamConversation
  end : Bool → PamConversation

pub data HelloMode : Type 0 where
  adapt_screen : (seamless : Bool) → HelloMode
  fullscreen : (width height : ℕ) → HelloMode

pub record ServerHello : Type 0 where
  pub codec_name : String
  pub audio : Bool
  pub msg : Option HelloMode

pub record ImageRaw : Type 0 where
  pub pixels : List ℕ
  pub width : ℕ
  pub height : ℕ
  pub bytes_per_line : ℕ

pub record ImageEncoded : Type 0 where
  pub packet : List ℕ
  pub width : ℕ
  pub height : ℕ

pub record EventCursor : Type 0 where
  pub pixels : List ℕ
  pub width : ℕ
  pub height : ℕ
  pub xhot : ℕ
  pub yhot : ℕ

pub record EventAreaUpdt : Type 0 where
  pub id : ℕ
  pub width : ℕ
  pub height : ℕ
  pub x : ℤ
  pub y : ℤ
  pub mapped : Bool
  pub is_app : Bool
  pub name : String

pub data Notification : Type 0 where
  title message : String → Notification
  icon : (width height : ℕ) → List ℕ → Notification

-- `message_srv::Msg`
pub data ServerEvent : Type 0 where
  img_raw : ImageRaw → ServerEvent
  img_encoded : ImageEncoded → ServerEvent
  clipboard : EventClipboard → ServerEvent
  sound_raw : List ℕ → ServerEvent
  sound_encoded : List (List ℕ) → ServerEvent
  cursor : EventCursor → ServerEvent
  area_updt : EventAreaUpdt → ServerEvent
  notifications : List (Option Notification) → ServerEvent
  display : EventDisplay → ServerEvent
  stats : String → ServerEvent
  printfile : String → ServerEvent

-- `message_server_ok::Msg`
pub data ServerOk : Type 0 where
  msgssrv : List (Option ServerEvent) → ServerOk
  kerberos : EventKerberos → ServerOk
  hello : ServerHello → ServerOk
  pamconversation : Option PamConversation → ServerOk
  version : Version → ServerOk

-- `server_msg_or_err::Msg`
pub data ServerAnswer : Type 0 where
  answer : Option ServerOk → ServerAnswer
  refusal : EventError → ServerAnswer

pub record ServerMsgOrErr : Type 0 where
  pub msg : Option ServerAnswer
