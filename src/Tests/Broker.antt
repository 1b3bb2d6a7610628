-- ===== src/Tests/Broker.antt =====
-- The results on the broker and on authentication, with small libraries.
use sanzu.Prelude.{
  ℕ, ◌+◌, ◌≡◌, ◌≢◌, refl, String, true, false, same, same_iff, List, [], ◌∷◌, ◌++◌, none, some,
  arith, ◌==◌, if◌then◌else◌,
}
use sanzu.Outcome.{ok}
use sanzu.Proto.Stream.{Stream, read_exact, write_all}
use sanzu.Auth.Certificate.{
  Extension, GeneralName, certified_user, user_of_certificate, user_of_name, get_subj_alt_names,
}
use sanzu.Auth.Pam.{Dialogue, Pam}
use sanzu.Auth.Kerberos.{
  Gss, do_kerberos_client_auth, begin_rounds, after_rounds, server_rounds, then_round, server_round,
  answer_token, reply_token, check_client, check_flags,
}
use sanzu.Broker.{
  AuthType, Config, Libraries, auth_client, callback_args, token_client_addr,
  token_unix_socket_path, tls_user, handshaken, authenticate, kerberos_user, or_endless,
  agree_users, named,
}
use sanzu.Broker.Arguments.{callback_args-substituted}
use sanzu.Broker.Forward.{Link, Ready, loop_fwd_conn}
use sanzu.Broker.Carried.{Carries, loop_fwd_conn-Carries}
use sanzu.Principal.{get_username_from_principal, strip_suffix}
use sanzu.Proto.Tunnel.{recv, send}
use sanzu.Tests.Fixtures.{wire}
use sanzu.Messages.Client.{ClientOk}
use sanzu.Proto.Events.{Wire, recv_client_msg_type, recv_client_msg_or_error, send_server_msg_type}
use sanzu.Proto.Frames.{client_answer}
use sanzu.Session.{our_version, greet_client, told_client, tell_client}

-- A library that wants two tokens, and one that asks for a name once.
abbrev gss : Gss ℕ
gss = record {
  setup = ok 0;
  step = λ k token. (ok (some (1 ∷ [])), k + 1);
  source_name = λ k. ok (97 ∷ 64 ∷ 114 ∷ []);
  flags = λ k. ok (record { mutual_flag = true; integ_flag = true });
}

abbrev pam : Pam ℕ
pam = record {
  with_conversation = λ name p. ok p;
  authenticate = λ p. Dialogue.prompt_echo "login: " (λ answer. Dialogue.done (none, p));
  open_session = λ p. (ok tt, p);
  get_user = λ p. ok (97 ∷ []);
  change_authentication_token = λ p. Dialogue.done (true, p);
}

abbrev libraries : Libraries ℕ ℕ
libraries = record {
  handshake = ok (some ((7 ∷ []) ∷ []));
  from_der = λ cert.
      ok (
        Extension.subject_alternative_name (GeneralName.rfc822_name (97 ∷ 64 ∷ 114 ∷ []) ∷ [])
        ∷ []);
  gss = gss;
  pam = pam;
  system = 0;
}

abbrev config : Config
config = record {
  allowed_client_domains = some ((114 ∷ []) ∷ []);
  auth_type = some (AuthType.kerberos ((114 ∷ []) ∷ []));
  command_args = [];
}

-- The client tells its version, then a token, then that it is done.
abbrev tokens : Wire
tokens = record wire {
  client_codec = record {
    encoded_len = λ m. 1;
    encode = λ m. 1 ∷ [];
    decode = λ bytes. elim bytes [
      | [] ↦ none
      | x ∷ _ ↦ some (
          client_answer (
            if x == 1
            then ClientOk.version our_version
            else ClientOk.kerberos (record { token = if x == 2 then 5 ∷ [] else [] })))
    ];
  };
}

abbrev one_byte : ℕ → List ℕ
one_byte b = 1 ∷ 0 ∷ 0 ∷ 0 ∷ 0 ∷ 0 ∷ 0 ∷ 0 ∷ b ∷ []

abbrev connected : Stream
connected = record {
  input = one_byte 1 ++ one_byte 2 ++ one_byte 3 ++ 9 ∷ [];
  output = [];
  writes_left = 5;
}

-- The user of the principal `a@r` comes through.
admitted : auth_client tokens libraries config connected ≡ (
  ok (97 ∷ [], our_version),
  record { input = 9 ∷ []; output = one_byte 1 ++ one_byte 1; writes_left = 3 },
)
unfolding auth_client tls_user handshaken certified_user user_of_certificate user_of_name
    get_subj_alt_names get_username_from_principal strip_suffix greet_client authenticate
    kerberos_user or_endless do_kerberos_client_auth begin_rounds after_rounds server_rounds
    then_round server_round answer_token reply_token check_client check_flags agree_users named
    told_client tell_client recv_client_msg_type recv_client_msg_or_error recv read_exact
    send_server_msg_type send write_all
admitted = refl

abbrev command : List String
command = "-u" ∷ "%USERNAME%" ∷ "%CLIENT_ADDR%" ∷ "%UNIX_SOCK_PATH%" ∷ []

different : (s t : String) → same s t ≡ false → s ≢ t
different s t h e = ground (arith, h, (same_iff s t).1 e)

callback_args-substituted_example :
    callback_args command "alice" "10.0.0.1:80" "/tmp/video_1"
    ≡ "-u" ∷ "alice" ∷ "10.0.0.1:80" ∷ "/tmp/video_1" ∷ []
callback_args-substituted_example =
    callback_args-substituted "alice" "10.0.0.1:80" "/tmp/video_1" command
      (different "alice" token_client_addr refl) (different "alice" token_unix_socket_path refl)
      (different "10.0.0.1:80" token_unix_socket_path refl)

abbrev link : Link
link = record {
  client = record { input = 1 ∷ 2 ∷ 3 ∷ []; output = []; writes_left = 1 };
  server = record { input = 9 ∷ []; output = []; writes_left = 1 };
}

abbrev events : List Ready
events = Ready.client_ready 2 ∷ Ready.server_ready 5 ∷ Ready.client_ready 5 ∷ []

loop_fwd_conn-Carries_example :
    Carries (loop_fwd_conn events link).0 link (loop_fwd_conn events link).1
loop_fwd_conn-Carries_example = loop_fwd_conn-Carries events link
