-- ===== src/Proto/Events.antt =====
-- The macros and functions of sanzu-common/src/proto.rs that wrap `Tunnel`: one answer of each
-- side, of an expected kind, or the error that the peer reports in its place.
use sanzu.Prelude.{String, List, [], ◌∷◌, ◌++◌, Option, none, some}
use sanzu.Prelude.Bytes.{LittleEndian}
use sanzu.Outcome.{Outcome, ok, err, panic, Io, in_context, ◌>>=◌}
use sanzu.Messages.{EventError}
use sanzu.Messages.Server.{ServerMsgOrErr, ServerAnswer, ServerOk}
use sanzu.Messages.Client.{ClientMsgOrErr, ClientAnswer, ClientOk}
use sanzu.Proto.Stream.{Stream}
use sanzu.Proto.Tunnel.{Message, send, recv}

-- The crates that put messages on the wire.
pub record Wire : Type 0 where
  pub order : LittleEndian
  pub server_codec : Message ServerMsgOrErr
  pub client_codec : Message ClientMsgOrErr
  pub error_codec : Message EventError

abbrev pub peer_closed : String
peer_closed = "Error in send: Peer has closed connection?"

-- The `Err` side of an `or_error` function: the peer's errors as the chain of causes.
abbrev pub relayed : String → List String → List String
relayed from errors = from ∷ errors ++ "[end err]" ∷ []

-- `errors` of an error event: "only send first chain error".
abbrev pub first_cause : List String → List String
first_cause [] = []
first_cause (e ∷ chain) = e ∷ []

-- What is left to report once the peer was told, or could not be told.
after_send : List String → Outcome (Unit {0}) → List String
after_send chain (ok _) = chain
after_send chain (err _) = peer_closed ∷ []
after_send chain (panic _) = chain

or_error_server : ServerMsgOrErr → Outcome ServerOk
or_error_server m = elim m.msg [
  | none ↦ err ("Bad pkt from server" ∷ [])
  | some (ServerAnswer.answer (some msg)) ↦ ok msg
  | some (ServerAnswer.answer none) ↦ err ("Empty pkt from server" ∷ [])
  | some (ServerAnswer.refusal e) ↦ err (relayed "Error from server:" e.errors)
]

or_error_client : ClientMsgOrErr → Outcome ClientOk
or_error_client m = elim m.msg [
  | none ↦ err ("Bad pkt from client" ∷ [])
  | some (ClientAnswer.answer (some msg)) ↦ ok msg
  | some (ClientAnswer.answer none) ↦ err ("Empty pkt from client" ∷ [])
  | some (ClientAnswer.refusal e) ↦ err (relayed "Error from client:" e.errors)
]

-- `if let Msg::$name(msg) = msg`
expect_kind : {A : Type 0} → Option A → Outcome A
expect_kind (some a) = ok a
expect_kind none = err ("Bad packet type" ∷ [])

-- The tail of both `recv_*_msg_type!` macros.
unfoldable pub of_kind : {M A : Type 0} → (M → Option A) → Outcome M → Outcome A
unfolding expect_kind
of_kind select (ok msg) = expect_kind (select msg)
of_kind select (err chain) = err ("Received error msg" ∷ chain)
of_kind select (panic why) = panic why

module _ (w : Wire) where
  unfoldable pub recv_server_msg_or_error : Io Stream ServerOk
  unfolding or_error_server
  recv_server_msg_or_error = do
    msg ← in_context "Error in recv pkt" (recv w.order w.error_codec w.server_codec)
    λ s. (or_error_server msg, s)

  unfoldable pub recv_client_msg_or_error : Io Stream ClientOk
  unfolding or_error_client
  recv_client_msg_or_error = do
    msg ← in_context "Error in recv pkt" (recv w.order w.error_codec w.client_codec)
    λ s. (or_error_client msg, s)

  unfoldable pub send_server_msg_type : ServerOk → Io Stream (Unit {0})
  send_server_msg_type msg =
      in_context peer_closed
        (send w.order w.server_codec (record { msg = some (ServerAnswer.answer (some msg)) }))

  unfoldable pub send_client_msg_type : ClientOk → Io Stream (Unit {0})
  send_client_msg_type msg s =
      let (r, s') =
        send w.order w.client_codec (record { msg = some (ClientAnswer.answer (some msg)) }) s in
      (elim r [ ok u ↦ ok u | err _ ↦ err (peer_closed ∷ []) | panic why ↦ panic why ], s')

  unfoldable pub recv_server_msg_type : {A : Type 0} → (ServerOk → Option A) → Io Stream A
  unfolding of_kind
  recv_server_msg_type select s = let (r, s') = recv_server_msg_or_error s in (of_kind select r, s')

  unfoldable pub recv_client_msg_type : {A : Type 0} → (ClientOk → Option A) → Io Stream A
  unfolding of_kind
  recv_client_msg_type select s = let (r, s') = recv_client_msg_or_error s in (of_kind select r, s')

  unfoldable pub send_server_err_event : List String → Stream → List String × Stream
  unfolding after_send
  send_server_err_event chain s =
      let (r, s') =
        send w.order w.server_codec
          (record { msg = some (ServerAnswer.refusal (record { errors = first_cause chain })) })
          s in
      (after_send chain r, s')

  unfoldable pub send_client_err_event : List String → Stream → List String × Stream
  unfolding after_send
  send_client_err_event chain s =
      let (r, s') =
        send w.order w.client_codec
          (record { msg = some (ClientAnswer.refusal (record { errors = first_cause chain })) })
          s in
      (after_send chain r, s')
