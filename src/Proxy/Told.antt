-- ===== src/Proxy/Told.antt =====
-- What the two sides get of a turn of the proxy.
use sanzu.Prelude.{ℕ, suc, ◌≡◌, Bool, List, ◌++◌, Option}
use mathlib.Core.Path.{subst}
use sanzu.Prelude.Bytes.{LittleEndianLaws}
use sanzu.Outcome.{Outcome, ok, Yields}
use sanzu.Messages.Server.{ServerOk, ServerEvent}
use sanzu.Messages.Client.{ClientOk, ClientEvent}
use sanzu.Proto.Framing.{recv-frame}
use sanzu.Proto.Events.{Wire}
use sanzu.Proto.Relay.{recv_client_type-eq}
use sanzu.Proto.Frames.{Fits, server_answer, client_answer, send_server-eq, send_client-eq}
use sanzu.Session.Serving.{msgs_client}
use sanzu.Session.Offers.{server_frame, client_frame}
use sanzu.Proxy.{Codecs, ProxyArgs, ProxyState, relay_server, relay_client}
use sanzu.Proxy.Filtered.{Relayed, relay_server-Relayed}
use sanzu.Proxy.Handshake.{Tunnels, recv_srv_msg_or_error, recv_srv_msg_type}
use sanzu.Proxy.Connected.{after}
use sanzu.Proxy.Turn.{Relay, obey, hear_server, tell_client, hear_client, tell_server, relay_turn}

module _ (w : Wire) (order : LittleEndianLaws w.order) where
  hear_server-eq :
      (msgs : List (Option ServerEvent)) (s : Tunnels) (rest : List ℕ)
      → Fits w.server_codec (server_answer (ServerOk.msgssrv msgs))
      → s.server.input ≡ server_frame w order (ServerOk.msgssrv msgs) ++ rest
      → hear_server w s ≡ (ok msgs, record s { server = record s.server { input = rest } })
  unfolding hear_server recv_srv_msg_type recv_srv_msg_or_error
  hear_server-eq msgs s rest fits e = rw (
      recv-frame order w.error_codec w.server_codec (server_answer (ServerOk.msgssrv msgs)) rest
        s.server fits.0 fits.1 e)

  tell_client-eq :
      (events : List (Option ServerEvent)) (n : ℕ) (s : Tunnels)
      → s.client.writes_left ≡ suc n
      → tell_client w events s ≡ (
        ok tt,
        record s {
          client = after s.client s.client.input (server_frame w order (ServerOk.msgssrv events)) n;
        },
      )
  unfolding tell_client
  tell_client-eq events n s left =
      rw (send_server-eq w order (ServerOk.msgssrv events) n s.client left)

  hear_client-eq :
      (msgs : List (Option ClientEvent)) (s : Tunnels) (rest : List ℕ)
      → Fits w.client_codec (client_answer (ClientOk.msgsclient msgs))
      → s.client.input ≡ client_frame w order (ClientOk.msgsclient msgs) ++ rest
      → hear_client w s ≡ (ok msgs, record s { client = record s.client { input = rest } })
  unfolding hear_client
  hear_client-eq msgs s rest fits e =
      rw (recv_client_type-eq w order msgs_client (ClientOk.msgsclient msgs) s.client rest fits e)

  tell_server-eq :
      (events : List (Option ClientEvent)) (n : ℕ) (s : Tunnels)
      → s.server.writes_left ≡ suc n
      → tell_server w events s ≡ (
        ok tt,
        record s {
          server =
              after s.server s.server.input (client_frame w order (ClientOk.msgsclient events)) n;
        },
      )
  unfolding tell_server
  tell_server-eq events n s left =
      rw (send_client-eq w order (ClientOk.msgsclient events) n s.server left)

  module _ {V E : Type 0} (codecs : Codecs V E) (args : ProxyArgs) (reload : V → Outcome V) where
    -- In a turn of the proxy between a server and a client (each stream carries the one message of
    -- its peer, then something else), the client gets one message with what the filter makes of
    -- the messages of the server, and that is nothing raw, no clipboard if it is disabled, the
    -- images in their sizes and order, and the messages that pass unchanged in their order; the
    -- server gets one message with what the filter leaves of the messages of the client. Neither
    -- stream has been read further. (The new encoder, if any, can be made and the filter succeeds,
    -- the messages survive their encoding, are at most 100 MiB, and each peer takes a write.)
    pub relay_turn-passes :
        (control : Bool) (s : Relay V E) (st st' : ProxyState V E)
        (sent events : List (Option ServerEvent)) (msgs : List (Option ClientEvent)) (n m : ℕ)
        (later_c later_s : List ℕ)
        → obey reload control s.state ≡ (ok tt, st)
        → relay_server codecs args sent st ≡ (ok events, st')
        → Fits w.server_codec (server_answer (ServerOk.msgssrv sent))
        → Fits w.client_codec (client_answer (ClientOk.msgsclient msgs))
        → s.tunnels.client.writes_left ≡ suc n
        → s.tunnels.server.writes_left ≡ suc m
        → s.tunnels.server.input ≡ server_frame w order (ServerOk.msgssrv sent) ++ later_s
        → s.tunnels.client.input ≡ client_frame w order (ClientOk.msgsclient msgs) ++ later_c
        → (relay_turn w codecs args reload control s ≡ (
          ok tt,
          record {
            tunnels = record {
              client =
                  after s.tunnels.client later_c (server_frame w order (ServerOk.msgssrv events)) n;
              server =
                  after s.tunnels.server later_s
                    (client_frame w order (ClientOk.msgsclient (relay_client args msgs)))
                    m;
            };
            state = st';
          },
        ))
          × Relayed args.disable_server_clipboard sent events
    unfolding relay_turn
    relay_turn-passes control s st st' sent events msgs n m later_c later_s obeyed filtered fits_s
          fits_c left_c left_s in_s in_c =
        (
          rw (
            obeyed,
            hear_server-eq sent s.tunnels later_s fits_s in_s,
            filtered,
            tell_client-eq events n
                (record s.tunnels { server = record s.tunnels.server { input = later_s } }) left_c,
            hear_client-eq msgs
                (record {
                  client =
                      after s.tunnels.client s.tunnels.client.input
                        (server_frame w order (ServerOk.msgssrv events)) n;
                  server = record s.tunnels.server { input = later_s };
                })
                later_c fits_c in_c,
            tell_server-eq (relay_client args msgs) m
                (record {
                  client =
                      after s.tunnels.client later_c
                        (server_frame w order (ServerOk.msgssrv events)) n;
                  server = record s.tunnels.server { input = later_s };
                })
                left_s,
          ),
          subst (Yields (Relayed args.disable_server_clipboard sent)) filtered
              (relay_server-Relayed codecs args sent st),
        )
