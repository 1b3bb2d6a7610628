-- ===== src/Proxy/Connected.antt =====
-- A client and a server that are joined by a proxy.
use sanzu.Prelude.{ℕ, suc, ◌≡◌, refl, ap, ◌∙◌, String, Bool, List, ◌++◌, Option, none, some}
use sanzu.Prelude.Bytes.{LittleEndianLaws}
use sanzu.Outcome.{Outcome, ok}
use sanzu.Messages.Server.{ServerOk, ServerHello, HelloMode}
use sanzu.Messages.Client.{ClientOk, ClientHelloFullscreen, ClientHelloResolution}
use sanzu.Proto.Stream.{Stream}
use sanzu.Proto.Framing.{recv-frame}
use sanzu.Proto.Events.{Wire}
use sanzu.Proto.Relay.{recv_server_type-eq, recv_client_type-eq}
use sanzu.Proto.Frames.{Fits, server_answer, client_answer, send_server-eq, send_client-eq}
use sanzu.Session.{our_version, server_version, client_version, check_version}
use sanzu.Session.Server.{get_encoder_category, word16, hello_fullscreen, hello_resolution}
use sanzu.Session.Client.{server_hello}
use sanzu.Session.Offers.{server_frame, client_frame}
use sanzu.Proxy.Handshake.{
  Tunnels, recv_srv_msg_or_error, recv_srv_msg_type, pass_versions, pass_answer, pass_hellos,
  connect, size_of,
}

-- The hello of a client that suits the mode of the server, and the size that both come to.
pub data Answered : HelloMode → ClientOk → ℕ × ℕ → Type 0 where
  resolution :
      (seamless : Bool) (m : ClientHelloResolution)
      → Answered
          (HelloMode.adapt_screen seamless)
          (ClientOk.clienthelloresolution m)
          (word16 m.width, word16 m.height)
  fullscreen :
      (width height : ℕ) (m : ClientHelloFullscreen)
      → Answered
          (HelloMode.fullscreen width height)
          (ClientOk.clienthellofullscreen m)
          (word16 width, word16 height)

-- A stream after a message was read from it and another written.
abbrev pub after : Stream → (input bytes : List ℕ) → ℕ → Stream
after s input bytes n = record { input = input; output = s.output ++ bytes; writes_left = n }

module _ (w : Wire) (order : LittleEndianLaws w.order) where
  recv_srv-eq :
      (h : ServerHello) (t : Stream) (rest : List ℕ)
      → Fits w.server_codec (server_answer (ServerOk.hello h))
      → t.input ≡ server_frame w order (ServerOk.hello h) ++ rest
      → recv_srv_msg_type w server_hello t ≡ (ok h, record t { input = rest })
  unfolding recv_srv_msg_type recv_srv_msg_or_error
  recv_srv-eq h t rest fits e = rw (
      recv-frame order w.error_codec w.server_codec (server_answer (ServerOk.hello h)) rest t fits.0
        fits.1 e)

  pass_versions-eq :
      (n m : ℕ) (s : Tunnels) (rest_c rest_s : List ℕ)
      → Fits w.client_codec (client_answer (ClientOk.version our_version))
      → Fits w.server_codec (server_answer (ServerOk.version our_version))
      → s.client.writes_left ≡ suc n
      → s.server.writes_left ≡ suc m
      → s.client.input ≡ client_frame w order (ClientOk.version our_version) ++ rest_c
      → s.server.input ≡ server_frame w order (ServerOk.version our_version) ++ rest_s
      → pass_versions w s ≡ (
        ok tt,
        record {
          client = after s.client rest_c (server_frame w order (ServerOk.version our_version)) n;
          server = after s.server rest_s (client_frame w order (ClientOk.version our_version)) m;
        },
      )
  unfolding pass_versions
  pass_versions-eq n m s rest_c rest_s fits_c fits_s left_c left_s in_c in_s = rw (
    recv_client_type-eq w order client_version (ClientOk.version our_version) s.client rest_c fits_c
        in_c,
    send_client-eq w order (ClientOk.version our_version) m s.server left_s,
    recv_server_type-eq w order server_version (ServerOk.version our_version)
        (record {
          input = s.server.input;
          output = s.server.output ++ client_frame w order (ClientOk.version our_version);
          writes_left = m;
        })
        rest_s fits_s in_s,
    send_server-eq w order (ServerOk.version our_version) n (record s.client { input = rest_c })
        left_c,
    check_version,
  )

  pass_answer-resolution :
      (m : ℕ) (s : Tunnels) (h : ClientHelloResolution) (rest : List ℕ)
      → Fits w.client_codec (client_answer (ClientOk.clienthelloresolution h))
      → s.server.writes_left ≡ suc m
      → s.client.input ≡ client_frame w order (ClientOk.clienthelloresolution h) ++ rest
      → pass_answer w none s ≡ (
        ok (word16 h.width, word16 h.height),
        record {
          client = record s.client { input = rest };
          server =
              after s.server s.server.input
                (client_frame w order (ClientOk.clienthelloresolution h))
                m;
        },
      )
  unfolding pass_answer
  pass_answer-resolution m s h rest fits left e = rw (
    recv_client_type-eq w order hello_resolution (ClientOk.clienthelloresolution h) s.client rest
        fits e,
    send_client-eq w order (ClientOk.clienthelloresolution h) m s.server left,
  )

  pass_answer-fullscreen :
      (m : ℕ) (s : Tunnels) (size : ℕ × ℕ) (h : ClientHelloFullscreen) (rest : List ℕ)
      → Fits w.client_codec (client_answer (ClientOk.clienthellofullscreen h))
      → s.server.writes_left ≡ suc m
      → s.client.input ≡ client_frame w order (ClientOk.clienthellofullscreen h) ++ rest
      → pass_answer w (some size) s ≡ (
        ok size,
        record {
          client = record s.client { input = rest };
          server =
              after s.server s.server.input
                (client_frame w order (ClientOk.clienthellofullscreen h))
                m;
        },
      )
  unfolding pass_answer
  pass_answer-fullscreen m s size h rest fits left e = rw (
    recv_client_type-eq w order hello_fullscreen (ClientOk.clienthellofullscreen h) s.client rest
        fits e,
    send_client-eq w order (ClientOk.clienthellofullscreen h) m s.server left,
  )

  -- The size that a mode leads to, and the answer to it.
  pass_answer-Answered :
      (m : ℕ) (s : Tunnels) (mode : HelloMode) (answer : ClientOk) (size : ℕ × ℕ) (rest : List ℕ)
      → Answered mode answer size
      → Fits w.client_codec (client_answer answer)
      → s.server.writes_left ≡ suc m
      → s.client.input ≡ client_frame w order answer ++ rest
      → (server_size : Option (ℕ × ℕ)) × (size_of (some mode) ≡ ok server_size)
        × (pass_answer w server_size s ≡ (
          ok size,
          record {
            client = record s.client { input = rest };
            server = after s.server s.server.input (client_frame w order answer) m;
          },
        ))
  unfolding size_of
  pass_answer-Answered m s mode answer size rest (Answered.resolution seamless h) fits left e =
      (none, refl, pass_answer-resolution m s h rest fits left e)
  pass_answer-Answered m s mode answer size rest (Answered.fullscreen width height h) fits left e =
      (some (word16 width, word16 height), refl, pass_answer-fullscreen m s _ h rest fits left e)

  module _ (codec : String) (audio : Bool) (told : ServerHello) (mode : HelloMode) where
    pass_hellos-eq :
        (answer : ClientOk) (size : ℕ × ℕ) (n m : ℕ) (s : Tunnels) (rest_c rest_s : List ℕ)
        → told.msg ≡ some mode
        → Answered mode answer size
        → Fits w.client_codec (client_answer answer)
        → Fits w.server_codec (server_answer (ServerOk.hello told))
        → s.client.writes_left ≡ suc n
        → s.server.writes_left ≡ suc m
        → s.client.input ≡ client_frame w order answer ++ rest_c
        → s.server.input ≡ server_frame w order (ServerOk.hello told) ++ rest_s
        → pass_hellos w codec audio s ≡ (
          ok size,
          record {
            client =
                after s.client rest_c
                  (server_frame w order
                    (ServerOk.hello (record { codec_name = codec; audio = audio; msg = told.msg })))
                  n;
            server = after s.server rest_s (client_frame w order answer) m;
          },
        )
    unfolding pass_hellos
    pass_hellos-eq answer size n m s rest_c rest_s of_mode suits fits_c fits_s left_c left_s in_c
          in_s =
        let hello = ServerOk.hello (record { codec_name = codec; audio = audio; msg = told.msg }) in
        let t : Tunnels = record {
          client = after s.client s.client.input (server_frame w order hello) n;
          server = record s.server { input = rest_s };
        } in
        let (server_size, sized, answered) =
          pass_answer-Answered m t mode answer size rest_c suits fits_c left_s in_c in
        rw (
          recv_srv-eq told s.server rest_s fits_s in_s,
          ap size_of of_mode ∙ sized,
          send_server-eq w order hello n s.client left_c,
          answered,
        )

    -- A proxy whose encoder is known, between a client and a server of our version (the streams
    -- carry the version and a hello each, then something else; the hello of the client is of the
    -- kind that the mode of the server asks for), comes to its loop with the size that is the
    -- server's own, or the client's, and an encoder for it. The server has got exactly the bytes
    -- that the client wrote, the client those of a hello with the mode of the server, but the
    -- codec and the sound of the proxy; neither stream has been read further. (An encoder can be
    -- made for the size, the messages survive their encoding, are at most 100 MiB, and each peer
    -- takes two writes.)
    pub connect-passes :
        {V : Type 0} (init : (width height : ℕ) → Outcome V) (encoder : String) (v : V)
        (answer : ClientOk) (size : ℕ × ℕ) (n m : ℕ) (s : Tunnels) (later_c later_s : List ℕ)
        → get_encoder_category encoder ≡ ok codec
        → told.msg ≡ some mode
        → Answered mode answer size
        → init size.0 size.1 ≡ ok v
        → Fits w.client_codec (client_answer (ClientOk.version our_version))
        → Fits w.server_codec (server_answer (ServerOk.version our_version))
        → Fits w.client_codec (client_answer answer)
        → Fits w.server_codec (server_answer (ServerOk.hello told))
        → s.client.writes_left ≡ suc (suc n)
        → s.server.writes_left ≡ suc (suc m)
        → s.client.input
          ≡ client_frame w order (ClientOk.version our_version)
            ++ (client_frame w order answer ++ later_c)
        → s.server.input
          ≡ server_frame w order (ServerOk.version our_version)
            ++ (server_frame w order (ServerOk.hello told) ++ later_s)
        → connect w init encoder audio s ≡ (
          ok (size, v),
          record {
            client = record {
              input = later_c;
              output =
                  s.client.output
                  ++ server_frame w order (ServerOk.version our_version)
                  ++ server_frame w order (
                      ServerOk.hello
                        (record { codec_name = codec; audio = audio; msg = told.msg }));
              writes_left = n;
            };
            server = record {
              input = later_s;
              output =
                  s.server.output
                  ++ client_frame w order (ClientOk.version our_version)
                  ++ client_frame w order answer;
              writes_left = m;
            };
          },
        )
    unfolding connect
    connect-passes init encoder v answer size n m s later_c later_s known of_mode suits made
          v_client v_server h_client h_server left_c left_s in_c in_s =
        rw (
          known,
          pass_versions-eq (suc n) (suc m) s _ _ v_client v_server left_c left_s in_c in_s,
          pass_hellos-eq answer size n m
              (record {
                client =
                    after s.client (client_frame w order answer ++ later_c)
                      (server_frame w order (ServerOk.version our_version)) (suc n);
                server =
                    after s.server (server_frame w order (ServerOk.hello told) ++ later_s)
                      (client_frame w order (ClientOk.version our_version)) (suc m);
              })
              later_c later_s of_mode suits h_client h_server refl refl refl refl,
          made,
        )
