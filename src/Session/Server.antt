-- ===== src/Session/Server.antt =====
-- `run_server` of sanzu/src/server.rs up to its loop: versions, hello and the size of the screen.
-- The graphics server is an interface: server_x11.rs or server_windows.rs.
use sanzu.Prelude.{
  ℕ, ◌-◌, ◌%◌, ◌^◌, String, Bool, true, false, ◌||◌, List, [], ◌∷◌, Option, none, some, same,
  if◌then◌else◌,
}
use sanzu.Outcome.{Outcome, ok, err, Io, pure, in_context, ◌>>=◌, ◌>>◌}
use sanzu.Messages.Server.{ServerOk, HelloMode}
use sanzu.Messages.Client.{ClientOk, ClientHelloFullscreen, ClientHelloResolution}
use sanzu.Proto.Stream.{Stream}
use sanzu.Proto.Events.{Wire, send_server_msg_type, recv_client_msg_type}
use sanzu.Session.{greet_client, told_client}

abbrev pub hello_fullscreen : ClientOk → Option ClientHelloFullscreen
hello_fullscreen (ClientOk.clienthellofullscreen m) = some m
hello_fullscreen _ = none

abbrev pub hello_resolution : ClientOk → Option ClientHelloResolution
hello_resolution (ClientOk.clienthelloresolution m) = some m
hello_resolution _ = none

-- The arguments that the hello depends on.
pub record ServerArgs : Type 0 where
  pub encoder : String
  pub keep_server_resolution : Bool
  pub rdonly : Bool
  pub audio : Bool
  pub seamless : Bool

-- `init_x11rb` or `init_win` with the wanted size, and two operations of what they return. A
-- change of resolution may fail.
pub record Graphics (G : Type 0) : Type 0 where
  pub init : Option (ℕ × ℕ) → Outcome G
  pub size : G → ℕ × ℕ
  pub change_resolution : G → (width height : ℕ) → Outcome (Unit {0}) × G

-- `x & !1`
abbrev pub even : ℕ → ℕ
even n = n - n % 2

-- `x as u16`
abbrev pub word16 : ℕ → ℕ
word16 n = n % 2 ^ 16

among : List String → String → Bool
among [] name = false
among (x ∷ xs) name = same x name || among xs name

unfoldable pub get_encoder_category : String → Outcome String
unfolding among
get_encoder_category name =
    if among ("libx264" ∷ "h264_nvenc" ∷ "h264_qsv" ∷ "h264_v4l2m2m" ∷ "h264_amf" ∷ []) name
    then ok "h264"
    else if among ("libx265" ∷ "hevc_nvenc" ∷ "hevc_qsv" ∷ "hevc_amf" ∷ []) name
    then ok "hevc"
    else if same "null" name
    then ok "null"
    else err ("Unknown encoder category" ∷ [])

-- A value that was computed without the stream.
abbrev pub of : {S A : Type 0} → Outcome A → Io S A
of r s = (r, s)

abbrev pub audio_rate : Bool → ℕ → Option ℕ
audio_rate true rate = some rate
audio_rate false rate = none

module _ (w : Wire) {G : Type 0} (graphics : Graphics G) (args : ServerArgs) where
  -- The server keeps its resolution, and tells it.
  unfoldable pub offer_fullscreen : String → Io Stream (G × Option ℕ)
  offer_fullscreen codec_name = do
    g ← in_context "Cannot init_x11rb" (of (graphics.init none))
    let (width, height) = graphics.size g
    in_context "Cannot send hello" (
        send_server_msg_type w (
          ServerOk.hello (record {
            codec_name = codec_name;
            audio = args.audio;
            msg = some (HelloMode.fullscreen width height);
          })))
    m ←
        in_context "Error in send client hello full screen"
          (recv_client_msg_type w hello_fullscreen)
    pure (g, audio_rate m.audio m.audio_sample_rate)

  -- The size that the client wants, then an even size; that this fails is no error.
  unfoldable pub forced : G → G
  forced g =
      let (width, height) = graphics.size g in
      (graphics.change_resolution g (even width) (even height)).1

  -- The server takes the resolution of the client.
  unfoldable pub offer_adapt : String → Io Stream (G × Option ℕ)
  unfolding forced
  offer_adapt codec_name = do
    in_context "Cannot send hello" (
        send_server_msg_type w (
          ServerOk.hello (record {
            codec_name = codec_name;
            audio = args.audio;
            msg = some (HelloMode.adapt_screen args.seamless);
          })))
    m ← in_context "Error in recv client hello resolution" (recv_client_msg_type w hello_resolution)
    g ← in_context "Cannot init_x11rb" (of (graphics.init (some (word16 m.width, word16 m.height))))
    pure (forced g, audio_rate m.audio m.audio_sample_rate)

  unfoldable pub offer : String → Io Stream (G × Option ℕ)
  unfolding offer_fullscreen offer_adapt
  offer codec_name =
      if args.keep_server_resolution || args.rdonly
      then offer_fullscreen codec_name
      else offer_adapt codec_name

  module _ {V : Type 0} (authenticate : Io Stream (Unit {0})) (encoder : G → Outcome V) where
    -- All before the loop: what it starts with. `authenticate` is what `config.auth_type` asks for,
    -- `encoder` is `init_video_encoder`, which may depend on the size.
    unfoldable pub accept : Io Stream (G × Option ℕ × V)
    unfolding offer told_client
    accept = do
      greet_client w
      authenticate
      codec_name ← of (get_encoder_category args.encoder)
      (g, rate) ← offer codec_name
      v ← told_client w (in_context "Error in init video encoder" (of (encoder g)))
      pure (g, rate, v)
