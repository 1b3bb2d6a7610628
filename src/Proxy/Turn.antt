-- ===== src/Proxy/Turn.antt =====
-- One turn of the loop of `run_server` in sanzu/src/proxy.rs over both connections.
use sanzu.Prelude.{Bool, true, false, List, ◌∷◌, Option}
use sanzu.Outcome.{Outcome, ok, err, panic, Io, in_context, ◌>>=◌, ◌>>◌}
use sanzu.Messages.Server.{ServerOk, ServerEvent}
use sanzu.Messages.Client.{ClientOk, ClientEvent}
use sanzu.Proto.Events.{Wire, send_server_msg_type, send_client_msg_type, recv_client_msg_type}
use sanzu.Session.Serving.{msgs_client}
use sanzu.Session.Viewer.{msgs_srv}
use sanzu.Proxy.{Codecs, ProxyArgs, ProxyState, relay_server, relay_client}
use sanzu.Proxy.Handshake.{
  Tunnels, on_client, on_server, or_warn_client, or_warn_server, recv_srv_msg_type,
}

-- What the loop keeps.
pub record Relay (V E : Type 0) : Type 0 where
  pub tunnels : Tunnels
  pub state : ProxyState V E

module _ {V E : Type 0} where
  unfoldable pub on_tunnels : {A : Type 0} → Io Tunnels A → Io (Relay V E) A
  on_tunnels m s = let (r, t) = m s.tunnels in (r, record s { tunnels = t })

  unfoldable pub on_state : {A : Type 0} → Io (ProxyState V E) A → Io (Relay V E) A
  on_state m s = let (r, t) = m s.state in (r, record s { state = t })

  -- A control message wants a new encoder.
  unfoldable pub reloaded : Outcome V → Io (ProxyState V E) (Unit {0})
  reloaded (ok v) s = (ok tt, record s { video_encoder = v })
  reloaded (err chain) s = (err ("Cannot reload encoder in control management" ∷ chain), s)
  reloaded (panic why) s = (panic why, s)

  unfoldable pub obey : (V → Outcome V) → Bool → Io (ProxyState V E) (Unit {0})
  unfolding reloaded
  obey reload false s = (ok tt, s)
  obey reload true s = reloaded (reload s.video_encoder) s

module _ (w : Wire) where
  unfoldable pub hear_server : Io Tunnels (List (Option ServerEvent))
  unfolding on_server or_warn_client
  hear_server =
      or_warn_client w
        (on_server (in_context "Error in recv MessagesSrv" (recv_srv_msg_type w msgs_srv)))

  unfoldable pub tell_client : List (Option ServerEvent) → Io Tunnels (Unit {0})
  unfolding on_client or_warn_server
  tell_client events = or_warn_server w (
      on_client
        (in_context "Error in send MessagesSrv" (send_server_msg_type w (ServerOk.msgssrv events))))

  unfoldable pub hear_client : Io Tunnels (List (Option ClientEvent))
  unfolding on_client or_warn_server
  hear_client =
      or_warn_server w
        (on_client (in_context "Error in recv MessagesClient" (recv_client_msg_type w msgs_client)))

  unfoldable pub tell_server : List (Option ClientEvent) → Io Tunnels (Unit {0})
  unfolding on_server or_warn_client
  tell_server events = or_warn_client w (
      on_server (
        in_context "Error in send MessagesClient"
          (send_client_msg_type w (ClientOk.msgsclient events))))

  -- A turn. `reload` is that of the encoder, `control` whether a control message has come.
  unfoldable pub relay_turn :
      {V E : Type 0}
      → Codecs V E
      → ProxyArgs
      → (V → Outcome V)
      → (control : Bool) → Io (Relay V E) (Unit {0})
  unfolding on_tunnels on_state
  relay_turn codecs args reload control = do
    on_state (obey reload control)
    msgs ← on_tunnels hear_server
    events ← on_state (relay_server codecs args msgs)
    on_tunnels (tell_client events)
    msgs ← on_tunnels hear_client
    on_tunnels (tell_server (relay_client args msgs))
