-- ===== src/Proxy/Warned.antt =====
-- How an error on the side of the server reaches the client of a proxy.
use sanzu.Prelude.{ℕ, suc, ◌≡◌, String, Bool, List, [], ◌∷◌, ◌++◌, map, Option, some, push_str}
use sanzu.Prelude.Bytes.{LittleEndianLaws}
use sanzu.Outcome.{Outcome, ok, err}
use sanzu.Messages.Server.{ServerMsgOrErr, ServerAnswer, ServerOk}
use sanzu.Proto.Stream.{Stream}
use sanzu.Proto.Tunnel.{frame}
use sanzu.Proto.Framing.{recv-frame, send-eq}
use sanzu.Proto.Events.{Wire, of_kind, recv_server_msg_or_error, recv_server_msg_type}
use sanzu.Proto.Frames.{Fits}
use sanzu.Session.Viewer.{msgs_srv}
use sanzu.Proxy.{Codecs, ProxyArgs, ProxyState}
use sanzu.Proxy.Handshake.{Tunnels, listed, recv_srv_msg_type, send_srv_err_event}
use sanzu.Proxy.Connected.{after}
use sanzu.Proxy.Turn.{Relay, obey, hear_server, relay_turn}

-- The message that the proxy sends about an error of the server.
abbrev pub srv_refusal : List String → ServerMsgOrErr
srv_refusal chain = record {
  msg =
      some (ServerAnswer.refusal (record { errors = listed "Errors from proxy's server:" chain }));
}

-- What is told of the error, with the context that the turn gives it.
abbrev pub recv_failed : List String → List String
recv_failed chain = "Error in recv MessagesSrv" ∷ chain

module _ (w : Wire) (order : LittleEndianLaws w.order) where
  hear_server-err :
      (chain : List String) (n : ℕ) (s : Tunnels) (t : Stream)
      → recv_srv_msg_type w msgs_srv s.server ≡ (err chain, t)
      → s.client.writes_left ≡ suc n
      → hear_server w s ≡ (
        err (recv_failed chain),
        record {
          client =
              after s.client s.client.input
                (frame w.order w.server_codec (srv_refusal (recv_failed chain)))
                n;
          server = t;
        },
      )
  unfolding hear_server send_srv_err_event
  hear_server-err chain n s t failed left = rw (
    failed,
    send-eq order w.error_codec w.server_codec (srv_refusal (recv_failed chain)) n s.client left,
  )

  hear_refusal :
      {A : Type 0} (select : ServerOk → Option A) (chain : List String) (c : Stream) (rest : List ℕ)
      → Fits w.server_codec (srv_refusal chain)
      → c.input ≡ frame w.order w.server_codec (srv_refusal chain) ++ rest
      → recv_server_msg_type w select c ≡ (
        err (
            "Received error msg" ∷ "Error from server:" ∷ listed "Errors from proxy's server:" chain
            ++ "[end err]" ∷ []),
        record c { input = rest },
      )
  unfolding recv_server_msg_type recv_server_msg_or_error of_kind
  hear_refusal select chain c rest fits e =
      rw (recv-frame order w.error_codec w.server_codec (srv_refusal chain) rest c fits.0 fits.1 e)

  module _ {V E : Type 0} (codecs : Codecs V E) (args : ProxyArgs) (reload : V → Outcome V) where
    relay_turn-err :
        (control : Bool) (s : Relay V E) (st : ProxyState V E) (chain : List String) (n : ℕ)
        (t : Stream)
        → obey reload control s.state ≡ (ok tt, st)
        → recv_srv_msg_type w msgs_srv s.tunnels.server ≡ (err chain, t)
        → s.tunnels.client.writes_left ≡ suc n
        → relay_turn w codecs args reload control s ≡ (
          err (recv_failed chain),
          record {
            tunnels = record {
              client =
                  after s.tunnels.client s.tunnels.client.input
                    (frame w.order w.server_codec (srv_refusal (recv_failed chain)))
                    n;
              server = t;
            };
            state = st;
          },
        )
    unfolding relay_turn
    relay_turn-err control s st chain n t obeyed failed left =
        rw (obeyed, hear_server-err chain n s.tunnels t failed left)

    -- When the proxy cannot get the messages of a turn from the server, for whatever chain of
    -- causes, it ends the turn with that chain and does nothing more on the server's side; and a
    -- client that then reads what the proxy wrote to it has in its own error the whole chain,
    -- cause by cause and indented, under the name of the proxy's server. (The new encoder, if any, can be made,
    -- the report survives its encoding, is at most 100 MiB, and the client takes a write.)
    pub relay_turn-warns :
        {A : Type 0} (select : ServerOk → Option A) (control : Bool) (s : Relay V E)
        (st : ProxyState V E) (chain : List String) (n : ℕ) (t c : Stream) (rest : List ℕ)
        → obey reload control s.state ≡ (ok tt, st)
        → recv_srv_msg_type w msgs_srv s.tunnels.server ≡ (err chain, t)
        → Fits w.server_codec (srv_refusal (recv_failed chain))
        → s.tunnels.client.writes_left ≡ suc n
        → s.tunnels.client.output ≡ []
        → c.input ≡ (relay_turn w codecs args reload control s).1.tunnels.client.output ++ rest
        → ((relay_turn w codecs args reload control s).0 ≡ err (recv_failed chain))
          × ((relay_turn w codecs args reload control s).1.tunnels.server ≡ t)
          × (recv_server_msg_type w select c ≡ (
            err (
                "Received error msg"
                  ∷ "Error from server:"
                  ∷ "Errors from proxy's server:"
                  ∷ map (push_str "    ") (recv_failed chain)
                ++ "[end err]" ∷ []),
            record c { input = rest },
          ))
    relay_turn-warns select control s st chain n t c rest obeyed failed fits left empty e =
        let turn = relay_turn-err control s st chain n t obeyed failed left in
        (
          rw turn,
          rw turn,
          hear_refusal select (recv_failed chain) c rest fits (rw (turn, empty) at e),
        )
