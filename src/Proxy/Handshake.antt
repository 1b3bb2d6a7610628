-- ===== src/Proxy/Handshake.antt =====
-- The handshake of `run_server` in sanzu/src/proxy.rs: versions and hellos pass between the client
-- and the server, the hello of the server with the codec and the sound of the proxy.
use sanzu.Prelude.{ℕ, String, Bool, List, [], ◌∷◌, map, Option, none, some, push_str}
use sanzu.Outcome.{Outcome, ok, err, panic, Io, pure, in_context, ◌>>=◌, ◌>>◌}
use sanzu.Messages.Server.{ServerMsgOrErr, ServerAnswer, ServerOk, HelloMode}
use sanzu.Messages.Client.{ClientAnswer, ClientOk}
use sanzu.Proto.Stream.{Stream}
use sanzu.Proto.Tunnel.{send, recv}
use sanzu.Proto.Events.{
  Wire, peer_closed, relayed, of_kind, send_server_msg_type, recv_server_msg_type,
  send_client_msg_type, recv_client_msg_type,
}
use sanzu.Session.{server_version, client_version, check_version}
use sanzu.Session.Server.{get_encoder_category, of, word16, hello_fullscreen, hello_resolution}
use sanzu.Session.Client.{server_hello}

-- The two connections of the proxy.
pub record Tunnels : Type 0 where
  pub client : Stream
  pub server : Stream

unfoldable pub on_client : {A : Type 0} → Io Stream A → Io Tunnels A
on_client m s = let (r, t) = m s.client in (r, record s { client = t })

unfoldable pub on_server : {A : Type 0} → Io Stream A → Io Tunnels A
on_server m s = let (r, t) = m s.server in (r, record s { server = t })

-- The whole chain of an error, under the name of the side that it came from.
abbrev pub listed : String → List String → List String
listed title chain = title ∷ map (push_str "    ") chain

-- What is left to report: that the peer could not be told takes the place of the error.
unfoldable pub unless_closed : List String → Outcome (Unit {0}) → List String
unless_closed chain (ok _) = chain
unless_closed chain (err _) = peer_closed ∷ []
unless_closed chain (panic _) = chain

unfoldable pub srv_answer : ServerMsgOrErr → Outcome ServerOk
srv_answer m = elim m.msg [
  | none ↦ err ("Bad pkt from server" ∷ [])
  | some (ServerAnswer.answer (some msg)) ↦ ok msg
  | some (ServerAnswer.answer none) ↦ err ("Empty pkt from server" ∷ [])
  | some (ServerAnswer.refusal e) ↦ err (relayed "Error from proxy's server" e.errors)
]

-- A panic for a hello without a mode.
unfoldable pub size_of : Option HelloMode → Outcome (Option (ℕ × ℕ))
size_of (some (HelloMode.adapt_screen seamless)) = ok none
size_of (some (HelloMode.fullscreen width height)) = ok (some (word16 width, word16 height))
size_of none = panic "Unknown Server hello"

module _ (w : Wire) where
  unfoldable pub send_srv_err_event : List String → Stream → List String × Stream
  unfolding unless_closed
  send_srv_err_event chain s =
      let (r, t) =
        send w.order w.server_codec
          (record {
            msg = some (
                ServerAnswer.refusal
                  (record { errors = listed "Errors from proxy's server:" chain }));
          })
          s in
      (unless_closed chain r, t)

  unfoldable pub send_client_err_event : List String → Stream → List String × Stream
  unfolding unless_closed
  send_client_err_event chain s =
      let (r, t) =
        send w.order w.client_codec
          (record {
            msg = some (
                ClientAnswer.refusal
                  (record { errors = listed "Errors from proxy's client:" chain }));
          })
          s in
      (unless_closed chain r, t)

  unfoldable pub recv_srv_msg_or_error : Io Stream ServerOk
  unfolding srv_answer
  recv_srv_msg_or_error = do
    msg ← in_context "Error in recv pkt" (recv w.order w.error_codec w.server_codec)
    λ s. (srv_answer msg, s)

  unfoldable pub recv_srv_msg_type : {A : Type 0} → (ServerOk → Option A) → Io Stream A
  unfolding of_kind
  recv_srv_msg_type select s = let (r, t) = recv_srv_msg_or_error s in (of_kind select r, t)

  -- An error on the side of the server, of which the client is told.
  unfoldable pub warn_client : {A : Type 0} → Outcome A → Io Tunnels A
  warn_client (ok a) s = (ok a, s)
  warn_client (err chain) s =
      let (chain', t) = send_srv_err_event chain s.client in (err chain', record s { client = t })
  warn_client (panic why) s = (panic why, s)

  unfoldable pub or_warn_client : {A : Type 0} → Io Tunnels A → Io Tunnels A
  unfolding warn_client
  or_warn_client m s = let (r, t) = m s in warn_client r t

  -- An error on the side of the client, of which the server is told.
  unfoldable pub warn_server : {A : Type 0} → Outcome A → Io Tunnels A
  warn_server (ok a) s = (ok a, s)
  warn_server (err chain) s =
      let (chain', t) = send_client_err_event chain s.server in
      (err chain', record s { server = t })
  warn_server (panic why) s = (panic why, s)

  unfoldable pub or_warn_server : {A : Type 0} → Io Tunnels A → Io Tunnels A
  unfolding warn_server
  or_warn_server m s = let (r, t) = m s in warn_server r t

  -- The versions, each checked on its way.
  unfoldable pub pass_versions : Io Tunnels (Unit {0})
  unfolding on_client on_server check_version
  pass_versions = do
    v ←
        on_client
          (in_context "Error in send client version" (recv_client_msg_type w client_version))
    check_version v
    on_server (in_context "Error in send Version" (send_client_msg_type w (ClientOk.version v)))
    u ←
        on_server
          (in_context "Error in recv server version" (recv_server_msg_type w server_version))
    check_version u
    on_client (in_context "Error in send Version" (send_server_msg_type w (ServerOk.version u)))

  -- The hello of a client: the size is the server's, or that of the client.
  unfoldable pub pass_answer : Option (ℕ × ℕ) → Io Tunnels (ℕ × ℕ)
  unfolding on_client on_server or_warn_client or_warn_server
  pass_answer (some size) = do
    m ← or_warn_server (
        on_client (
          in_context "Error in recv ClientHelloFullscreen"
            (recv_client_msg_type w hello_fullscreen)))
    or_warn_client (
        on_server (
          in_context "Error in send ClientHelloFullscreen"
            (send_client_msg_type w (ClientOk.clienthellofullscreen m))))
    pure size
  pass_answer none = do
    m ← or_warn_server (
        on_client (
          in_context "Error in recv ClientHelloResolution"
            (recv_client_msg_type w hello_resolution)))
    or_warn_client (
        on_server (
          in_context "Error in recv ClientHelloResolution"
            (send_client_msg_type w (ClientOk.clienthelloresolution m))))
    pure (word16 m.width, word16 m.height)

  -- The hello of the server, then that of the client.
  unfoldable pub pass_hellos : (codec_name : String) (audio : Bool) → Io Tunnels (ℕ × ℕ)
  unfolding on_client on_server or_warn_client or_warn_server size_of pass_answer
  pass_hellos codec_name audio = do
    m ←
        or_warn_client
          (on_server (in_context "Error in recv ServerHello" (recv_srv_msg_type server_hello)))
    server_size ← of (size_of m.msg)
    or_warn_server (
        on_client (
          in_context "Error in send ServerHello" (
            send_server_msg_type w
              (ServerOk.hello (record { codec_name = codec_name; audio = audio; msg = m.msg })))))
    pass_answer server_size

  -- All before the loop: the first size of the screen, and an encoder for it.
  unfoldable pub connect :
      {V : Type 0}
      → ((width height : ℕ) → Outcome V)
      → (encoder : String) (audio : Bool) → Io Tunnels ((ℕ × ℕ) × V)
  unfolding pass_versions pass_hellos
  connect init_video_encoder encoder audio = do
    codec_name ← of (get_encoder_category encoder)
    pass_versions
    size ← pass_hellos codec_name audio
    v ← of (init_video_encoder size.0 size.1)
    pure (size, v)
