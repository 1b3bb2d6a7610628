-- ===== src/Session/Agree.antt =====
-- A server and a client whose streams are joined: what each one reads is what the other writes.
use sanzu.Prelude.{ℕ, suc, ◌≡◌, refl, String, false, ◌||◌, List, ◌++◌, none, some}
use sanzu.Prelude.Bytes.{LittleEndianLaws}
use sanzu.Outcome.{Outcome, ok, pure}
use sanzu.Messages.Server.{ServerOk}
use sanzu.Messages.Client.{ClientOk}
use sanzu.Proto.Stream.{Stream}
use sanzu.Proto.Events.{Wire}
use sanzu.Proto.Frames.{Fits, server_answer, client_answer}
use sanzu.Session.{our_version}
use sanzu.Session.Server.{ServerArgs, Graphics, get_encoder_category, forced, offer, accept}
use sanzu.Session.{told_client}
use sanzu.Session.Client.{ClientArgs, ClientInterface, Window, join, chosen}
use sanzu.Session.Offers.{
  server_frame, client_frame, greet_client-eq, greet_server-eq, adapt_hello, resolution_hello,
  asked, offer_adapt-eq, settle_adapt-eq, join_anonymous, audio_rate-of,
}

module _ (w : Wire) (order : LittleEndianLaws w.order) {G V C D : Type 0} where
  module _ (graphics : Graphics G) (args : ServerArgs) (encoder : G → Outcome V) where
    module _ (window : Window C) (cargs : ClientArgs) (decoder : String → Outcome D) where
      module _ (user : ClientInterface) (codec : String) (c : C) (d : D) (g : G) (v : V) where
        -- A server that takes the client's resolution and a client, neither with authentication,
        -- whose streams are joined (each has to read the two messages that the other is to write,
        -- then something else), and whose windows, encoder and decoder can be made, both come to
        -- their loops, each having written exactly what the other read: the client with a window
        -- that is seamless as the server says and a decoder for the server's codec (or for its own
        -- choice); the server with graphics of the client's size, made even, and with the sample
        -- rate that the client asks for, if it asks for sound. (The messages survive their
        -- encoding, are at most 100 MiB, and each peer takes two writes.)
        pub accept-join :
            (n m : ℕ) (s t : Stream) (later_s later_t : List ℕ)
            → (args.keep_server_resolution || args.rdonly) ≡ false
            → cargs.login ≡ false
            → get_encoder_category args.encoder ≡ ok codec
            → window.init args.seamless none ≡ ok c
            → decoder (chosen cargs.decoder codec) ≡ ok d
            → graphics.init (some (asked w order (window.size c))) ≡ ok g
            → encoder (forced w graphics args g) ≡ ok v
            → Fits w.client_codec (client_answer (ClientOk.version our_version))
            → Fits w.server_codec (server_answer (ServerOk.version our_version))
            → Fits w.client_codec (client_answer (resolution_hello w order cargs (window.size c)))
            → Fits w.server_codec (server_answer (adapt_hello w order args codec))
            → s.writes_left ≡ suc (suc n)
            → t.writes_left ≡ suc (suc m)
            → s.input
              ≡ client_frame w order (ClientOk.version our_version)
                ++ (client_frame w order (resolution_hello w order cargs (window.size c))
                    ++ later_s)
            → t.input
              ≡ server_frame w order (ServerOk.version our_version)
                ++ (server_frame w order (adapt_hello w order args codec) ++ later_t)
            → (accept w graphics args (pure tt) encoder s ≡ (
              ok (forced w graphics args g, cargs.audio, v),
              record {
                input = later_s;
                output =
                    s.output
                    ++ server_frame w order (ServerOk.version our_version)
                    ++ server_frame w order (adapt_hello w order args codec);
                writes_left = n;
              },
            ))
              × (join w window cargs decoder user (pure tt) 0 t
                  ≡ some (
                    ok (c, window.size c, d),
                    record {
                      input = later_t;
                      output =
                          t.output
                          ++ client_frame w order (ClientOk.version our_version)
                          ++ client_frame w order (resolution_hello w order cargs (window.size c));
                      writes_left = m;
                    },
                  ))
        unfolding accept join offer told_client
        accept-join n m s t later_s later_t adapt anonymous known made found asked_for encodes
              v_client v_server h_client h_server left_s left_t in_s in_t =
            (
              rw (
                greet_client-eq w order (suc n) s _ v_client left_s in_s,
                known,
                adapt,
                offer_adapt-eq w order graphics args codec cargs (window.size c) g n
                    (record {
                      input =
                          client_frame w order (resolution_hello w order cargs (window.size c))
                          ++ later_s;
                      output = s.output ++ server_frame w order (ServerOk.version our_version);
                      writes_left = suc n;
                    })
                    later_s h_client asked_for refl refl,
                encodes,
                audio_rate-of cargs.audio,
              ),
              rw (
                join_anonymous w window cargs decoder user 0 t
                    (record {
                      input = server_frame w order (adapt_hello w order args codec) ++ later_t;
                      output = t.output ++ client_frame w order (ClientOk.version our_version);
                      writes_left = suc m;
                    })
                    anonymous (greet_server-eq w order (suc m) t _ v_server left_t in_t),
                settle_adapt-eq w order window cargs decoder args codec c d m
                    (record {
                      input = server_frame w order (adapt_hello w order args codec) ++ later_t;
                      output = t.output ++ client_frame w order (ClientOk.version our_version);
                      writes_left = suc m;
                    })
                    later_t h_server made found refl refl,
              ),
            )
