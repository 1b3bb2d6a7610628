-- ===== src/Session/Refused.antt =====
-- A peer of another version is refused before anything else.
use sanzu.Prelude.{
  ℕ, suc, ◌≡◌, ◌≢◌, String, inl, inr, some, false, same, same_iff, Bool-cases, List, [], ◌∷◌, ◌++◌,
}
use sanzu.Prelude.Bytes.{LittleEndianLaws}
use sanzu.Outcome.{Outcome, err, Io}
use sanzu.Messages.{Version}
use sanzu.Messages.Server.{ServerOk}
use sanzu.Messages.Client.{ClientOk}
use sanzu.Proto.Stream.{Stream}
use sanzu.Proto.Events.{Wire}
use sanzu.Proto.Relay.{recv_server_type-eq, recv_client_type-eq}
use sanzu.Proto.Frames.{Fits, server_answer, client_answer, send_server-eq, send_client-eq}
use sanzu.Session.{
  our_version, server_version, client_version, check_version, greet_client, greet_server,
}
use sanzu.Session.Server.{ServerArgs, Graphics, accept}
use sanzu.Session.Client.{ClientArgs, ClientInterface, Window, join, log_in}
use sanzu.Session.Offers.{server_frame, client_frame}

same-false : (s t : String) → s ≢ t → same s t ≡ false
same-false s t ne = elim (Bool-cases (same s t)) [
  | inl equal ↦ absurd (ne ((same_iff s t).0 equal))
  | inr other ↦ other
]

module _ (w : Wire) (order : LittleEndianLaws w.order) (v : Version) where
  module _ (other : v.version ≢ our_version.version) (n : ℕ) (s : Stream) (rest : List ℕ) where
    pub greet_client_other :
        Fits w.client_codec (client_answer (ClientOk.version v))
        → s.writes_left ≡ suc n
        → s.input ≡ client_frame w order (ClientOk.version v) ++ rest
        → greet_client w s ≡ (
          err ("Version mismatch" ∷ []),
          record {
            input = rest;
            output = s.output ++ server_frame w order (ServerOk.version our_version);
            writes_left = n;
          },
        )
    unfolding greet_client check_version
    greet_client_other fits left e = rw (
      send_server-eq w order (ServerOk.version our_version) n s left,
      recv_client_type-eq w order client_version (ClientOk.version v)
          (record {
            input = s.input;
            output = s.output ++ server_frame w order (ServerOk.version our_version);
            writes_left = n;
          })
          rest fits e,
      same-false v.version our_version.version other,
    )

    greet_server_other :
        Fits w.server_codec (server_answer (ServerOk.version v))
        → s.writes_left ≡ suc n
        → s.input ≡ server_frame w order (ServerOk.version v) ++ rest
        → greet_server w s ≡ (
          err ("Version mismatch" ∷ []),
          record {
            input = rest;
            output = s.output ++ client_frame w order (ClientOk.version our_version);
            writes_left = n;
          },
        )
    unfolding greet_server check_version
    greet_server_other fits left e = rw (
      send_client-eq w order (ClientOk.version our_version) n s left,
      recv_server_type-eq w order server_version (ServerOk.version v)
          (record {
            input = s.input;
            output = s.output ++ client_frame w order (ClientOk.version our_version);
            writes_left = n;
          })
          rest fits e,
      same-false v.version our_version.version other,
    )

    -- A client that tells another version is refused with "Version mismatch": of what it sends,
    -- the server reads the version alone, and it writes its own version alone, whatever
    -- authentication, graphics and encoder it has. (The client's version survives its encoding,
    -- is at most 100 MiB, and the client takes a write.)
    pub accept_other :
        {G V : Type 0} (graphics : Graphics G) (args : ServerArgs)
        (authenticate : Io Stream (Unit {0})) (encoder : G → Outcome V)
        → Fits w.client_codec (client_answer (ClientOk.version v))
        → s.writes_left ≡ suc n
        → s.input ≡ client_frame w order (ClientOk.version v) ++ rest
        → accept w graphics args authenticate encoder s ≡ (
          err ("Version mismatch" ∷ []),
          record {
            input = rest;
            output = s.output ++ server_frame w order (ServerOk.version our_version);
            writes_left = n;
          },
        )
    unfolding accept
    accept_other graphics args authenticate encoder fits left e =
        rw (greet_client_other fits left e)

    -- A server that tells another version is left with "Version mismatch": the client reads that
    -- version alone and writes its own alone, so that no login and no password is sent, whatever
    -- the arguments and the fuel are. (The server's version survives its encoding, is at most 100
    -- MiB, and the server takes a write.)
    pub join_other :
        {C D : Type 0} (window : Window C) (args : ClientArgs) (decoder : String → Outcome D)
        (user : ClientInterface) (authenticate : Io Stream (Unit {0})) (fuel : ℕ)
        → Fits w.server_codec (server_answer (ServerOk.version v))
        → s.writes_left ≡ suc n
        → s.input ≡ server_frame w order (ServerOk.version v) ++ rest
        → join w window args decoder user authenticate fuel s
          ≡ some (
            err ("Version mismatch" ∷ []),
            record {
              input = rest;
              output = s.output ++ client_frame w order (ClientOk.version our_version);
              writes_left = n;
            },
          )
    unfolding join log_in
    join_other window args decoder user authenticate fuel fits left e =
        rw (join, greet_server_other fits left e, log_in)
