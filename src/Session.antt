-- ===== src/Session.antt =====
-- The beginning of a connection in sanzu/src/server.rs and client.rs, which the broker and the
-- proxy share: each side tells its version and wants the same of the other.
pub mod Server
pub mod Client
pub mod Offers
pub mod Agree
pub mod Refused
pub mod Login
pub mod Serving
pub mod Viewer
pub mod Viewing
pub mod Sized
pub mod Blind
pub mod Turns
pub mod Resized
pub mod Within
use sanzu.Prelude.{String, List, [], ◌∷◌, Option, none, some, same, if◌then◌else◌}
use sanzu.Outcome.{Outcome, ok, err, panic, Io, pure, fail, in_context, ◌>>=◌, ◌>>◌}
use sanzu.Messages.{Version}
use sanzu.Messages.Server.{ServerOk}
use sanzu.Messages.Client.{ClientOk}
use sanzu.Proto.Stream.{Stream}
use sanzu.Proto.Events.{
  Wire, send_server_msg_type, recv_server_msg_type, send_client_msg_type, recv_client_msg_type,
  send_server_err_event, send_client_err_event,
}

-- `VERSION`
abbrev pub our_version : Version
our_version = record { version = "0.1.1" }

abbrev pub server_version : ServerOk → Option Version
server_version (ServerOk.version v) = some v
server_version _ = none

abbrev pub client_version : ClientOk → Option Version
client_version (ClientOk.version v) = some v
client_version _ = none

-- The version that the peer told, if it is ours.
unfoldable pub check_version : {S : Type 0} → Version → Io S Version
check_version v s =
    if same v.version our_version.version then pure v s else fail ("Version mismatch" ∷ []) s

module _ (w : Wire) where
  unfoldable pub greet_client : Io Stream Version
  unfolding check_version
  greet_client = do
    in_context "Error in send Version" (send_server_msg_type w (ServerOk.version our_version))
    v ← in_context "Error in send client version" (recv_client_msg_type w client_version)
    check_version v

  unfoldable pub greet_server : Io Stream Version
  unfolding check_version
  greet_server = do
    in_context "Error in send Version" (send_client_msg_type w (ClientOk.version our_version))
    v ← in_context "Error in send server version" (recv_server_msg_type w server_version)
    check_version v

  -- An error that the client is told of before the server gives up.
  unfoldable pub tell_client : {A : Type 0} → Outcome A → Io Stream A
  tell_client (ok a) s = (ok a, s)
  tell_client (err chain) s = let (chain', t) = send_server_err_event w chain s in (err chain', t)
  tell_client (panic why) s = (panic why, s)

  unfoldable pub told_client : {A : Type 0} → Io Stream A → Io Stream A
  unfolding tell_client
  told_client m s = let (r, s') = m s in tell_client r s'

  -- An error that the server is told of before the client gives up.
  unfoldable pub tell_server : {A : Type 0} → Outcome A → Io Stream A
  tell_server (ok a) s = (ok a, s)
  tell_server (err chain) s = let (chain', t) = send_client_err_event w chain s in (err chain', t)
  tell_server (panic why) s = (panic why, s)

  unfoldable pub told_server : {A : Type 0} → Io Stream A → Io Stream A
  unfolding tell_server
  told_server m s = let (r, s') = m s in tell_server r s'
