-- ===== src/Broker.antt =====
-- sanzu-broker/src/main.rs: the authentication of a client, the call of the program that makes a
-- server for it, and the connection of the two.
pub mod Forward
pub mod Carried
pub mod Users
pub mod Arguments
use sanzu.Prelude.{
  ℕ, suc, String, Bool, true, false, not, ◌&&◌, List, [], ◌∷◌, map, Option, none, some, length,
  same, if◌then◌else◌,
}
use mathlib.Core.Option
use sanzu.Outcome.{Outcome, ok, err, panic, Io, pure, fail, context, in_context, ◌>>=◌, ◌>>◌}
use sanzu.Messages.{Version}
use sanzu.Messages.Server.{ServerOk}
use sanzu.Messages.Client.{ClientOk}
use sanzu.Principal.{Text, same_text}
use sanzu.Proto.Stream.{Stream}
use sanzu.Proto.Events.{Wire, send_client_msg_type, recv_server_msg_type}
use sanzu.Session.{server_version, check_version, greet_client}
use sanzu.Session.Server.{of}
use sanzu.Auth.Certificate.{Extension, certified_user}
use sanzu.Auth.Pam.{Pam, do_pam_auth, refuse}
use sanzu.Auth.Kerberos.{Gss, do_kerberos_client_auth}
use sanzu.Broker.Forward.{Link, Ready, loop_fwd_conn}

pub data AuthType : Type 0 where
  kerberos : (realms : List Text) → AuthType
  pam : (pam_name : String) → AuthType

pub record Config : Type 0 where
  pub allowed_client_domains : Option (List Text)
  pub auth_type : Option AuthType
  pub command_args : List String

abbrev pub token_username : String
token_username = "%USERNAME%"

abbrev pub token_client_addr : String
token_client_addr = "%CLIENT_ADDR%"

abbrev pub token_unix_socket_path : String
token_unix_socket_path = "%UNIX_SOCK_PATH%"

unfoldable pub replace_source : List String → (needle new_str : String) → List String
replace_source [] needle new_str = []
replace_source (arg ∷ args) needle new_str =
    (if same arg needle then new_str else arg) ∷ replace_source args needle new_str

-- The arguments of the program.
unfoldable pub callback_args : List String → (username addr socket_path : String) → List String
unfolding replace_source
callback_args args username addr socket_path =
    replace_source
      (replace_source (replace_source args token_username username) token_client_addr addr)
      token_unix_socket_path socket_path

-- What the libraries give: the certificates after the handshake of TLS, X.509, GSSAPI and PAM.
pub record Libraries (K P : Type 0) : Type 0 where
  pub handshake : Outcome (Option (List (List ℕ)))
  pub from_der : List ℕ → Outcome (List Extension)
  pub gss : Gss K
  pub pam : Pam P
  pub system : P

module _ (w : Wire) {K P : Type 0} (lib : Libraries K P) (config : Config) where
  unfoldable pub handshaken : List Text → Outcome (Option (List (List ℕ))) → Outcome Text
  handshaken domains (ok certs) = certified_user lib.from_der domains certs
  handshaken domains (err chain) = err ("Error in tls_do_handshake" ∷ chain)
  handshaken domains (panic why) = panic why

  abbrev pub some_user : Outcome Text → Outcome (Option Text)
  some_user (ok user) = ok (some user)
  some_user (err chain) = err chain
  some_user (panic why) = panic why

  -- The user of the certificate, if certificates are wanted.
  unfoldable pub tls_user : Option (List Text) → Outcome (Option Text)
  unfolding handshaken
  tls_user none = ok none
  tls_user (some domains) = some_user (handshaken domains lib.handshake)

  unfoldable pub or_endless : Stream → Option (Outcome Text × Stream) → Outcome Text × Stream
  or_endless s none = (panic "endless loop", s)
  or_endless s (some result) = result

  -- The fuel is one more than the bytes that are to come, which is enough: the loop always ends.
  unfoldable pub kerberos_user : List Text → Io Stream Text
  kerberos_user realms s =
      or_endless s (do_kerberos_client_auth w lib.gss realms (suc (length s.input)) s)

  abbrev pub differs : Option Text → Text → Bool
  differs none user = false
  differs (some before) user = not (same_text before user)

  unfoldable pub agree_users : Option Text → Text → Io Stream (Option Text)
  agree_users before user =
      if differs before user
      then refuse w "Username mismatch between tls and kerberos"
      else pure (some user)

  -- The user after the authentication that the configuration asks for.
  unfoldable pub authenticate : Option AuthType → Option Text → Io Stream (Option Text)
  authenticate none before = pure before
  authenticate (some (AuthType.kerberos realms)) before = do
    user ← kerberos_user realms
    agree_users before user
  authenticate (some (AuthType.pam pam_name)) before = do
    user ← do_pam_auth w lib.pam pam_name lib.system
    pure (some user)

  unfoldable pub named : Option Text → Outcome Text
  named none = err ("No username" ∷ [])
  named (some user) = ok user

  -- The user, and the version of the client.
  unfoldable pub auth_client : Io Stream (Text × Version)
  auth_client = do
    before ← of (tls_user config.allowed_client_domains)
    client_version ← greet_client w
    after ← authenticate config.auth_type before
    user ← of (named after)
    pure (user, client_version)

-- What the host gives: the socket, the program's status, the connection of the server that the
-- program made, and the removal of the socket.
pub record Host : Type 0 where
  pub bind : Outcome (Unit {0})
  pub status : List String → Outcome Bool
  pub accepted : Outcome Stream
  pub remove_file : Outcome (Unit {0})

module _ (w : Wire) (host : Host) where
  -- The server gets the version of the client, and must have ours.
  unfoldable pub greet_son : Version → Io Stream Version
  greet_son client_version = do
    in_context "Error in send Version" (send_client_msg_type w (ClientOk.version client_version))
    v ← in_context "Error in send server version" (recv_server_msg_type w server_version)
    check_version v

  unfoldable pub succeeded : Bool → Outcome (Unit {0})
  succeeded true = ok tt
  succeeded false = err ("Command execution failed" ∷ [])

  unfoldable pub accept_son : Io Link (Unit {0})
  accept_son link = elim host.accepted [
    | ok server ↦ (ok tt, record link { server = server })
    | err chain ↦ (err ("failed to accept connection" ∷ chain), link)
    | panic why ↦ (panic why, link)
  ]

  unfoldable pub on_server : {A : Type 0} → Io Stream A → Io Link A
  on_server m link = let (r, s) = m link.server in (r, record link { server = s })

  -- The error of the connection is logged and forgotten.
  unfoldable pub forward : List Ready → Io Link (Unit {0})
  forward events link = (ok tt, (loop_fwd_conn events link).1)

  unfoldable pub connect_user :
      List String → (username addr socket_path : String) → Version → List Ready → Io Link (Unit {0})
  unfolding callback_args
  connect_user args username addr socket_path client_version events = do
    in_context "Error in UnixListener bind" (of host.bind)
    success ←
        in_context "Cannot exec connect callback"
          (of (host.status (callback_args args username addr socket_path)))
    of (succeeded success)
    accept_son
    on_server (greet_son client_version)
    forward events
    in_context "Error in remove_file" (of host.remove_file)
