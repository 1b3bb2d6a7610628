-- ===== src/Proto/Relay.antt =====
-- What the other side sees of an answer, and of an error that is reported in its place.
use sanzu.Prelude.{ℕ, suc, ◌≡◌, ap, String, List, [], ◌∷◌, ◌++◌, Option, arith}
use sanzu.Prelude.Bytes.{LittleEndianLaws}
use sanzu.Outcome.{Outcome, ok, err}
use sanzu.Messages.Server.{ServerOk}
use sanzu.Messages.Client.{ClientOk}
use sanzu.Proto.Stream.{Stream}
use sanzu.Proto.Tunnel.{frame}
use sanzu.Proto.Events.{
  Wire, of_kind, send_server_msg_type, recv_server_msg_type, send_client_msg_type,
  recv_client_msg_type, send_server_err_event, recv_server_msg_or_error, send_client_err_event,
  recv_client_msg_or_error,
}
use sanzu.Proto.Frames.{
  server_answer, server_refusal, client_answer, client_refusal, Fits, selected, send_server-eq,
  recv_server-eq, tell_server-eq, hear_server-eq, send_client-eq, recv_client-eq, tell_client-eq,
  hear_client-eq,
}

first_write :
    {R : Type 0} {sent : R × Stream} {r : R} {n : ℕ} (s t : Stream) (rest bytes : List ℕ)
    → sent ≡ (r, record s { output = s.output ++ bytes; writes_left = n })
    → s.output ≡ []
    → t.input ≡ sent.1.output ++ rest
    → t.input ≡ bytes ++ rest
first_write s t rest bytes sent empty e = rw (sent, empty) at e

of_kind-selected :
    {M A : Type 0} (select : M → Option A) (msg : M)
    → of_kind select (ok msg) ≡ selected (select msg)
unfolding of_kind
of_kind-selected select msg = ground arith

pub recv_server_type-eq :
    (w : Wire) (order : LittleEndianLaws w.order) {A : Type 0} (select : ServerOk → Option A)
    (msg : ServerOk) (t : Stream) (rest : List ℕ)
    → Fits w.server_codec (server_answer msg)
    → t.input ≡ frame w.order w.server_codec (server_answer msg) ++ rest
    → recv_server_msg_type w select t ≡ (selected (select msg), record t { input = rest })
unfolding recv_server_msg_type
recv_server_type-eq w order select msg t rest fits e =
    rw (recv_server-eq w order msg t rest fits e)
      (ap (λ r. (r, record t { input = rest })) (of_kind-selected select msg))

pub recv_client_type-eq :
    (w : Wire) (order : LittleEndianLaws w.order) {A : Type 0} (select : ClientOk → Option A)
    (msg : ClientOk) (t : Stream) (rest : List ℕ)
    → Fits w.client_codec (client_answer msg)
    → t.input ≡ frame w.order w.client_codec (client_answer msg) ++ rest
    → recv_client_msg_type w select t ≡ (selected (select msg), record t { input = rest })
unfolding recv_client_msg_type
recv_client_type-eq w order select msg t rest fits e =
    rw (recv_client-eq w order msg t rest fits e)
      (ap (λ r. (r, record t { input = rest })) (of_kind-selected select msg))

module _ (w : Wire) (order : LittleEndianLaws w.order) (n : ℕ) (s t : Stream) (rest : List ℕ) where
  module _ {A : Type 0} (select : ServerOk → Option A) (msg : ServerOk) where
    -- An answer that a server sends is received by a client that expects its kind, and refused as
    -- "Bad packet type" by one that expects another; both read exactly the answer. (The answer
    -- survives its encoding, is at most 100 MiB, is the first thing written, and the peer takes it.)
    pub recv_server-send_server :
        Fits w.server_codec (server_answer msg)
        → s.output ≡ []
        → s.writes_left ≡ suc n
        → t.input ≡ (send_server_msg_type w msg s).1.output ++ rest
        → ((send_server_msg_type w msg s).0 ≡ ok tt)
          × (recv_server_msg_type w select t ≡ (selected (select msg), record t { input = rest }))
    recv_server-send_server fits empty left e =
        let sent = send_server-eq w order msg n s left in
        (
          ap (λ (r : Outcome (Unit {0}) × Stream). r.0) sent,
          recv_server_type-eq w order select msg t rest fits (first_write s t rest _ sent empty e),
        )

  module _ (cause : String) (chain : List String) where
    -- When a server reports an error whose chain of causes begins with `cause`, the client gets the
    -- error "Error from server:" with that cause and nothing of the rest of the chain; the server
    -- keeps its whole error. (The report survives its encoding, is at most 100 MiB, is the first
    -- thing written, and the peer takes it.)
    pub recv_server-send_server_err :
        Fits w.server_codec (server_refusal cause)
        → s.output ≡ []
        → s.writes_left ≡ suc n
        → t.input ≡ (send_server_err_event w (cause ∷ chain) s).1.output ++ rest
        → ((send_server_err_event w (cause ∷ chain) s).0 ≡ cause ∷ chain)
          × (recv_server_msg_or_error w t
              ≡ (err ("Error from server:" ∷ cause ∷ "[end err]" ∷ []), record t { input = rest }))
    recv_server-send_server_err fits empty left e =
        let sent = tell_server-eq w order cause chain n s left in
        (
          ap (λ (r : List String × Stream). r.0) sent,
          hear_server-eq w order cause t rest fits (first_write s t rest _ sent empty e),
        )

module _ (w : Wire) (order : LittleEndianLaws w.order) (n : ℕ) (s t : Stream) (rest : List ℕ) where
  module _ {A : Type 0} (select : ClientOk → Option A) (msg : ClientOk) where
    -- An answer that a client sends is received by a server that expects its kind, and refused as
    -- "Bad packet type" by one that expects another; both read exactly the answer. (The answer
    -- survives its encoding, is at most 100 MiB, is the first thing written, and the peer takes it.)
    pub recv_client-send_client :
        Fits w.client_codec (client_answer msg)
        → s.output ≡ []
        → s.writes_left ≡ suc n
        → t.input ≡ (send_client_msg_type w msg s).1.output ++ rest
        → ((send_client_msg_type w msg s).0 ≡ ok tt)
          × (recv_client_msg_type w select t ≡ (selected (select msg), record t { input = rest }))
    recv_client-send_client fits empty left e =
        let sent = send_client-eq w order msg n s left in
        (
          ap (λ (r : Outcome (Unit {0}) × Stream). r.0) sent,
          recv_client_type-eq w order select msg t rest fits (first_write s t rest _ sent empty e),
        )

  module _ (cause : String) (chain : List String) where
    -- When a client reports an error whose chain of causes begins with `cause`, the server gets the
    -- error "Error from client:" with that cause and nothing of the rest of the chain; the client
    -- keeps its whole error. (The report survives its encoding, is at most 100 MiB, is the first
    -- thing written, and the peer takes it.)
    pub recv_client-send_client_err :
        Fits w.client_codec (client_refusal cause)
        → s.output ≡ []
        → s.writes_left ≡ suc n
        → t.input ≡ (send_client_err_event w (cause ∷ chain) s).1.output ++ rest
        → ((send_client_err_event w (cause ∷ chain) s).0 ≡ cause ∷ chain)
          × (recv_client_msg_or_error w t
              ≡ (err ("Error from client:" ∷ cause ∷ "[end err]" ∷ []), record t { input = rest }))
    recv_client-send_client_err fits empty left e =
        let sent = tell_client-eq w order cause chain n s left in
        (
          ap (λ (r : List String × Stream). r.0) sent,
          hear_client-eq w order cause t rest fits (first_write s t rest _ sent empty e),
        )
