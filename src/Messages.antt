-- ===== src/Messages.antt =====
-- The messages of sanzu-common/proto/tunnel.proto3 that both directions use. `oneof` is an option
-- of a data type, `bytes` a list of numbers.
pub mod Server
pub mod Client
use sanzu.Prelude.{ℕ, String, Bool, List}

pub record Version : Type 0 where
  pub version : String

pub record EventClipboard : Type 0 where
  pub text : String

pub record EventKerberos : Type 0 where
  pub token : List ℕ

pub record EventDisplay : Type 0 where
  pub width : ℕ
  pub height : ℕ

pub record EventError : Type 0 where
  pub errors : List String
