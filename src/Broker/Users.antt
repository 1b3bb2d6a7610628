-- ===== src/Broker/Users.antt =====
-- Who comes through the broker's authentication.
use sanzu.Prelude.{◌≡◌, false, if-cases, same, same_iff, [], ◌∷◌, Option, none, some}
use sanzu.Outcome.{Outcome, ok, err, in_context, Yields, Yields-then}
use sanzu.Messages.{Version}
use sanzu.Messages.Server.{ServerOk}
use sanzu.Principal.{Text}
use sanzu.Proto.Stream.{Stream}
use sanzu.Proto.Events.{Wire, send_server_msg_type, recv_client_msg_type}
use sanzu.Session.{our_version, check_version, greet_client, client_version}
use sanzu.Auth.Pam.Granted.{Granted}
use sanzu.Auth.Kerberos.Checked.{Kerberized}
use sanzu.Broker.{AuthType, Config, Libraries, tls_user, differs}

check_version-same :
    {S : Type 0} (v : Version) (s : S)
    → Yields (λ (u : Version). u.version ≡ our_version.version) (check_version v s)
unfolding check_version
check_version-same {S} v s =
    if-cases
      (λ (x : Outcome Version × S). Yields (λ (u : Version). u.version ≡ our_version.version) x)
      (same v.version our_version.version) (ok v, s) (err ("Version mismatch" ∷ []), s)
      (λ equal. (same_iff v.version our_version.version).0 equal) (λ _. tt)

pub greet_client-same :
    (w : Wire) (s : Stream)
    → Yields (λ (v : Version). v.version ≡ our_version.version) (greet_client w s)
unfolding greet_client
greet_client-same w s =
    Yields-then (λ (v : Version). v.version ≡ our_version.version)
      (in_context "Error in send Version" (send_server_msg_type w (ServerOk.version our_version))) _
      s
      (λ _ t.
        Yields-then (λ (v : Version). v.version ≡ our_version.version)
          (in_context "Error in send client version" (recv_client_msg_type w client_version))
          check_version t (λ v u. check_version-same v u))

module _ (w : Wire) {K P : Type 0} (lib : Libraries K P) (config : Config) where
  -- What the configured authentication says of a user, after what the certificate said.
  abbrev pub Authenticated : Option AuthType → Option Text → Text → Type 0
  Authenticated none before user = before ≡ some user
  Authenticated (some (AuthType.kerberos realms)) before user =
      Kerberized lib.gss realms user × (differs w lib config before user ≡ false)
  Authenticated (some (AuthType.pam pam_name)) before user = Granted lib.pam pam_name user

  -- The certificate, if it is wanted, was read, and then the user authenticated.
  abbrev pub Trusted : Text × Version → Type 0
  Trusted (user, version) =
      (version.version ≡ our_version.version)
      × ((before : Option Text) × (tls_user w lib config config.allowed_client_domains ≡ ok before)
          × Authenticated config.auth_type before user)

  abbrev AuthenticatedIf : Option AuthType → Option Text → Option Text → Type 0
  AuthenticatedIf type before none = Unit
  AuthenticatedIf type before (some user) = Authenticated type before user
