-- ===== src/Session/Offers.antt =====
-- What each side of a session does with the offer of the other, up to the loops of
-- sanzu/src/server.rs and sanzu/src/client.rs.
use sanzu.Prelude.{
  ℕ, suc, ◌≡◌, refl, String, false, List, ◌++◌, Option, none, some, if-cases, arith,
}
use sanzu.Prelude.Bytes.{LittleEndianLaws}
use sanzu.Outcome.{Outcome, ok, pure}
use sanzu.Messages.Server.{ServerOk, HelloMode}
use sanzu.Messages.Client.{ClientOk}
use sanzu.Proto.Stream.{Stream}
use sanzu.Proto.Tunnel.{frame}
use sanzu.Proto.Events.{Wire}
use sanzu.Proto.Relay.{recv_server_type-eq, recv_client_type-eq}
use sanzu.Proto.Frames.{Fits, server_answer, client_answer, send_server-eq, send_client-eq}
use sanzu.Session.{
  our_version, server_version, client_version, check_version, greet_client, greet_server,
}
use sanzu.Session.Server.{
  ServerArgs, Graphics, hello_resolution, even, word16, audio_rate, forced, offer_adapt,
}
use sanzu.Session.Client.{
  ClientArgs, ClientInterface, Window, audio_of, read_hello, answer_hello, settle, log_in, join,
  server_hello, chosen,
}
use sanzu.Session.{told_server}

module _ (w : Wire) (order : LittleEndianLaws w.order) where
  -- The bytes of a message.
  abbrev pub server_frame : ServerOk → List ℕ
  server_frame msg = frame w.order w.server_codec (server_answer msg)

  abbrev pub client_frame : ClientOk → List ℕ
  client_frame msg = frame w.order w.client_codec (client_answer msg)

  pub greet_client-eq :
      (n : ℕ) (s : Stream) (rest : List ℕ)
      → Fits w.client_codec (client_answer (ClientOk.version our_version))
      → s.writes_left ≡ suc n
      → s.input ≡ client_frame (ClientOk.version our_version) ++ rest
      → greet_client w s ≡ (
        ok our_version,
        record {
          input = rest;
          output = s.output ++ server_frame (ServerOk.version our_version);
          writes_left = n;
        },
      )
  unfolding greet_client
  greet_client-eq n s rest fits left e = rw (
    send_server-eq w order (ServerOk.version our_version) n s left,
    recv_client_type-eq w order client_version (ClientOk.version our_version)
        (record {
          input = s.input;
          output = s.output ++ server_frame (ServerOk.version our_version);
          writes_left = n;
        })
        rest fits e,
    check_version,
  )

  pub greet_server-eq :
      (n : ℕ) (s : Stream) (rest : List ℕ)
      → Fits w.server_codec (server_answer (ServerOk.version our_version))
      → s.writes_left ≡ suc n
      → s.input ≡ server_frame (ServerOk.version our_version) ++ rest
      → greet_server w s ≡ (
        ok our_version,
        record {
          input = rest;
          output = s.output ++ client_frame (ClientOk.version our_version);
          writes_left = n;
        },
      )
  unfolding greet_server
  greet_server-eq n s rest fits left e = rw (
    send_client-eq w order (ClientOk.version our_version) n s left,
    recv_server_type-eq w order server_version (ServerOk.version our_version)
        (record {
          input = s.input;
          output = s.output ++ client_frame (ClientOk.version our_version);
          writes_left = n;
        })
        rest fits e,
    check_version,
  )

  -- The hellos of the two sides, where the server takes the resolution of the client.
  abbrev pub adapt_hello : ServerArgs → String → ServerOk
  adapt_hello args codec = ServerOk.hello (record {
    codec_name = codec;
    audio = args.audio;
    msg = some (HelloMode.adapt_screen args.seamless);
  })

  abbrev pub resolution_hello : ClientArgs → ℕ × ℕ → ClientOk
  resolution_hello args size = ClientOk.clienthelloresolution (record {
    audio = (audio_of args.audio).0;
    audio_sample_rate = (audio_of args.audio).1;
    width = even size.0;
    height = even size.1;
  })

  -- The size that the server asks its graphics for.
  abbrev pub asked : ℕ × ℕ → ℕ × ℕ
  asked size = (word16 (even size.0), word16 (even size.1))

  module _ {G : Type 0} (graphics : Graphics G) (args : ServerArgs) where
    pub offer_adapt-eq :
        (codec : String) (cargs : ClientArgs) (size : ℕ × ℕ) (g : G) (n : ℕ) (s : Stream)
        (rest : List ℕ)
        → Fits w.client_codec (client_answer (resolution_hello cargs size))
        → graphics.init (some (asked size)) ≡ ok g
        → s.writes_left ≡ suc n
        → s.input ≡ client_frame (resolution_hello cargs size) ++ rest
        → offer_adapt w graphics args codec s ≡ (
          ok (
            forced w graphics args g,
            audio_rate (audio_of cargs.audio).0 (audio_of cargs.audio).1,
          ),
          record {
            input = rest;
            output = s.output ++ server_frame (adapt_hello args codec);
            writes_left = n;
          },
        )
    unfolding offer_adapt
    offer_adapt-eq codec cargs size g n s rest fits made left e = rw (
      send_server-eq w order (adapt_hello args codec) n s left,
      recv_client_type-eq w order hello_resolution (resolution_hello cargs size)
          (record {
            input = s.input;
            output = s.output ++ server_frame (adapt_hello args codec);
            writes_left = n;
          })
          rest fits e,
      made,
    )

  module _ {C D : Type 0} (window : Window C) (cargs : ClientArgs)
      (decoder : String → Outcome D) where
    pub settle_adapt-eq :
        (args : ServerArgs) (codec : String) (c : C) (d : D) (n : ℕ) (s : Stream) (rest : List ℕ)
        → Fits w.server_codec (server_answer (adapt_hello args codec))
        → window.init args.seamless none ≡ ok c
        → decoder (chosen cargs.decoder codec) ≡ ok d
        → s.writes_left ≡ suc n
        → s.input ≡ server_frame (adapt_hello args codec) ++ rest
        → settle w window cargs decoder s ≡ (
          ok (c, window.size c, d),
          record {
            input = rest;
            output = s.output ++ client_frame (resolution_hello cargs (window.size c));
            writes_left = n;
          },
        )
    unfolding settle read_hello answer_hello told_server
    settle_adapt-eq args codec c d n s rest fits made found left e = rw (
      recv_server_type-eq w order server_hello (adapt_hello args codec) s rest fits e,
      made,
      send_client-eq w order (resolution_hello cargs (window.size c)) n (record s { input = rest })
          left,
      found,
    )

pub join_anonymous :
    (w : Wire) {C D : Type 0} (window : Window C) (cargs : ClientArgs)
    (decoder : String → Outcome D) (user : ClientInterface) (fuel : ℕ) (s t : Stream)
    → cargs.login ≡ false
    → greet_server w s ≡ (ok our_version, t)
    → join w window cargs decoder user (pure tt) fuel s ≡ some (settle w window cargs decoder t)
unfolding join log_in
join_anonymous w window cargs decoder user fuel s t anonymous greeted =
    rw (join, greeted)
      (if-cases (λ x. x ≡ some (settle w window cargs decoder t)) cargs.login _ _
        (λ yes. ground (arith, yes, anonymous)) (λ no. refl))

pub audio_rate-of : (audio : Option ℕ) → audio_rate (audio_of audio).0 (audio_of audio).1 ≡ audio
audio_rate-of none = refl
audio_rate-of (some rate) = refl
