-- ===== src/Session/Client.antt =====
-- `do_run` of sanzu/src/client.rs up to its loop: versions, login and hello. The window of the
-- client and its user are interfaces.
use sanzu.Prelude.{
  ℕ, zero, suc, String, Bool, true, false, [], ◌∷◌, Option, none, some, if◌then◌else◌,
}
use sanzu.Outcome.{Outcome, ok, err, panic, Io, pure, fail, in_context, ◌>>=◌, ◌>>◌}
use sanzu.Messages.Server.{ServerOk, ServerHello, HelloMode, PamConversation}
use sanzu.Messages.Client.{ClientOk}
use sanzu.Proto.Stream.{Stream}
use sanzu.Proto.Events.{Wire, send_client_msg_type, recv_server_msg_type}
use sanzu.Session.{greet_server, told_server}
use sanzu.Session.Server.{of, even, word16}

abbrev pub server_hello : ServerOk → Option ServerHello
server_hello (ServerOk.hello m) = some m
server_hello _ = none

abbrev pub pam_conversation : ServerOk → Option (Option PamConversation)
pam_conversation (ServerOk.pamconversation m) = some m
pam_conversation _ = none

-- `ClientInterface`: what the user answers.
pub record ClientInterface : Type 0 where
  pub pam_echo : String → Outcome String
  pub pam_blind : String → Outcome String
  pub pam_info : String → Outcome (Unit {0})
  pub pam_error : String → Outcome (Unit {0})
  pub pam_end : Bool → Outcome (Unit {0})

pub record ClientArgs : Type 0 where
  pub login : Bool
  pub decoder : Option String
  pub audio : Option ℕ

-- `init_x11rb` or `init_wind3d`, for seamless windows or not and for the size of a server that
-- keeps its own, and the size of the window.
pub record Window (C : Type 0) : Type 0 where
  pub init : Bool → Option (ℕ × ℕ) → Outcome C
  pub size : C → ℕ × ℕ

-- `audio` and `audio_sample_rate` of the hello.
abbrev pub audio_of : Option ℕ → Bool × ℕ
audio_of none = (false, 0)
audio_of (some rate) = (true, rate)

-- The decoder of the arguments before the codec of the server.
abbrev pub chosen : Option String → String → String
chosen (some name) codec_name = name
chosen none codec_name = codec_name

abbrev pub mode_of : Option HelloMode → Outcome (Bool × Option (ℕ × ℕ))
mode_of (some (HelloMode.adapt_screen seamless)) = ok (seamless, none)
mode_of (some (HelloMode.fullscreen width height)) = ok (false, some (word16 width, word16 height))
mode_of none = panic "Unknown Server hello"

-- What a round leads to, with what the later rounds come to.
unfoldable pub go_on :
    Outcome Bool
    → Stream
    → Option (Outcome (Unit {0}) × Stream)
    → Option (Outcome (Unit {0}) × Stream)
go_on (ok true) t rest = some (ok tt, t)
go_on (ok false) t rest = rest
go_on (err chain) t rest = some (err chain, t)
go_on (panic why) t rest = some (panic why, t)

module _ (w : Wire) where
  module _ (user : ClientInterface) where
    -- One message of the login: is it the last?
    unfoldable pub pam_message : Option PamConversation → Io Stream Bool
    unfolding told_server
    pam_message none = fail ("Err on Pam conversation" ∷ [])
    pam_message (some (PamConversation.echo text)) = do
      name ← told_server w (of (user.pam_echo text))
      in_context "Error in send EventPamUser" (send_client_msg_type w (ClientOk.pamuser name))
      pure false
    pam_message (some (PamConversation.blind text)) = do
      password ← told_server w (of (user.pam_blind text))
      in_context "Error in send EventPamPwd" (send_client_msg_type w (ClientOk.pampwd password))
      pure false
    pam_message (some (PamConversation.info text)) = do of (user.pam_info text); pure false
    pam_message (some (PamConversation.error text)) = do of (user.pam_error text); pure false
    pam_message (some (PamConversation.end granted)) = do of (user.pam_end granted); pure true

    -- One round of the login.
    unfoldable pub login_round : Io Stream Bool
    unfolding pam_message
    login_round = do
      msg ← in_context "Error in recv PamConversation" (recv_server_msg_type w pam_conversation)
      pam_message msg

    -- The login on fuel, none if it runs out.
    unfoldable pub converse : ℕ → Stream → Option (Outcome (Unit {0}) × Stream)
    unfolding login_round go_on
    converse zero s = none
    converse (suc fuel) s = let (r, t) = login_round s in go_on r t (converse fuel t)

  -- The codec, seamless windows, and the size of a server that keeps its own.
  unfoldable pub read_hello : ClientArgs → Io Stream (String × Bool × Option (ℕ × ℕ))
  read_hello args = do
    m ← in_context "Error in recv ServerHello" (recv_server_msg_type w server_hello)
    (seamless, server_size) ← of (mode_of m.msg)
    pure (chosen args.decoder m.codec_name, seamless, server_size)

  module _ {C : Type 0} (window : Window C) (args : ClientArgs) where
    -- The answer to the hello, and the size of the images that are expected first.
    unfoldable pub answer_hello : C → Option (ℕ × ℕ) → Io Stream (ℕ × ℕ)
    answer_hello c (some size) = do
      in_context "Error in send ClientHelloFullscreen" (
          send_client_msg_type w (
            ClientOk.clienthellofullscreen (record {
              audio = (audio_of args.audio).0;
              audio_sample_rate = (audio_of args.audio).1;
            })))
      pure size
    answer_hello c none = do
      in_context "Error in send ClientHelloResolution" (
          send_client_msg_type w (
            ClientOk.clienthelloresolution (record {
              audio = (audio_of args.audio).0;
              audio_sample_rate = (audio_of args.audio).1;
              width = even (window.size c).0;
              height = even (window.size c).1;
            })))
      pure (window.size c)

    module _ {D : Type 0} (decoder : String → Outcome D) where
      unfoldable pub settle : Io Stream (C × (ℕ × ℕ) × D)
      unfolding read_hello told_server answer_hello
      settle = do
        (codec_name, seamless, server_size) ← read_hello args
        c ← told_server w (in_context "Error in init_x11rb" (of (window.init seamless server_size)))
        size ← answer_hello c server_size
        d ← told_server w (in_context "Cannot init video decoder" (of (decoder codec_name)))
        pure (c, size, d)

      -- The login, if the arguments ask for one, and the hello.
      unfoldable pub log_in :
          ClientInterface
          → ℕ
          → Outcome (Unit {0})
          → Stream
          → Option (Outcome (C × (ℕ × ℕ) × D) × Stream)
      unfolding settle converse
      log_in user fuel (err chain) s = some (err chain, s)
      log_in user fuel (panic why) s = some (panic why, s)
      log_in user fuel (ok _) s =
          if args.login
          then elim (converse user fuel s) [
            | none ↦ none
            | some (ok _, u) ↦ some (settle u)
            | some (err chain, u) ↦ some (err chain, u)
            | some (panic why, u) ↦ some (panic why, u)
          ]
          else some (settle s)

      -- All before the loop. `authenticate` is the Kerberos part; the login may take as many
      -- messages as there is fuel for, none if that runs out.
      unfoldable pub join :
          ClientInterface
          → Io Stream (Unit {0})
          → ℕ
          → Stream
          → Option (Outcome (C × (ℕ × ℕ) × D) × Stream)
      unfolding log_in
      join user authenticate fuel s =
          let (r, t) = (do greet_server w; authenticate) s in log_in user fuel r t
