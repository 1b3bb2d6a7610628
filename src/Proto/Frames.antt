-- ===== src/Proto/Frames.antt =====
-- What an error event or a message is, once it was framed by sanzu-common/src/proto.rs.
use sanzu.Prelude.{ℕ, suc, ◌≤◌, ◌≡◌, String, List, [], ◌∷◌, ◌++◌, Option, none, some}
use sanzu.Prelude.Bytes.{LittleEndianLaws}
use sanzu.Outcome.{Outcome, ok, err}
use sanzu.Messages.Server.{ServerMsgOrErr, ServerAnswer, ServerOk}
use sanzu.Messages.Client.{ClientMsgOrErr, ClientAnswer, ClientOk}
use sanzu.Proto.Stream.{Stream}
use sanzu.Proto.Tunnel.{Message, Faithful, max_packet_len, frame}
use sanzu.Proto.Framing.{recv-frame, send-eq}
use sanzu.Proto.Events.{
  Wire, send_server_msg_type, send_client_msg_type, send_server_err_event, recv_server_msg_or_error,
  send_client_err_event, recv_client_msg_or_error,
}

-- The messages that the wrappers build.
abbrev pub server_answer : ServerOk → ServerMsgOrErr
server_answer msg = record { msg = some (ServerAnswer.answer (some msg)) }

abbrev pub server_refusal : String → ServerMsgOrErr
server_refusal e = record { msg = some (ServerAnswer.refusal (record { errors = e ∷ [] })) }

abbrev pub client_answer : ClientOk → ClientMsgOrErr
client_answer msg = record { msg = some (ClientAnswer.answer (some msg)) }

abbrev pub client_refusal : String → ClientMsgOrErr
client_refusal e = record { msg = some (ClientAnswer.refusal (record { errors = e ∷ [] })) }

-- A message that the codec keeps, within the limit.
abbrev pub Fits : {M : Type 0} → Message M → M → Type 0
Fits c m = Faithful c m × (c.encoded_len m ≤ max_packet_len)

-- What a receiver of the kind `select` makes of an answer.
abbrev pub selected : {A : Type 0} → Option A → Outcome A
selected (some a) = ok a
selected none = err ("Bad packet type" ∷ [])

module _ (w : Wire) (order : LittleEndianLaws w.order) where
  module _ (msg : ServerOk) where
    pub send_server-eq :
        (n : ℕ) (s : Stream)
        → s.writes_left ≡ suc n
        → send_server_msg_type w msg s ≡ (
          ok tt,
          record s {
            output = s.output ++ frame w.order w.server_codec (server_answer msg);
            writes_left = n;
          },
        )
    unfolding send_server_msg_type
    send_server-eq n s left =
        rw (send-eq order w.error_codec w.server_codec (server_answer msg) n s left)

    pub recv_server-eq :
        (t : Stream) (rest : List ℕ)
        → Fits w.server_codec (server_answer msg)
        → t.input ≡ frame w.order w.server_codec (server_answer msg) ++ rest
        → recv_server_msg_or_error w t ≡ (ok msg, record t { input = rest })
    unfolding recv_server_msg_or_error
    recv_server-eq t rest fits e =
        rw
          (recv-frame order w.error_codec w.server_codec (server_answer msg) rest t fits.0 fits.1 e)

  module _ (cause : String) where
    pub tell_server-eq :
        (chain : List String) (n : ℕ) (s : Stream)
        → s.writes_left ≡ suc n
        → send_server_err_event w (cause ∷ chain) s ≡ (
          cause ∷ chain,
          record s {
            output = s.output ++ frame w.order w.server_codec (server_refusal cause);
            writes_left = n;
          },
        )
    unfolding send_server_err_event
    tell_server-eq chain n s left =
        rw (send-eq order w.error_codec w.server_codec (server_refusal cause) n s left)

    pub hear_server-eq :
        (t : Stream) (rest : List ℕ)
        → Fits w.server_codec (server_refusal cause)
        → t.input ≡ frame w.order w.server_codec (server_refusal cause) ++ rest
        → recv_server_msg_or_error w t
          ≡ (err ("Error from server:" ∷ cause ∷ "[end err]" ∷ []), record t { input = rest })
    unfolding recv_server_msg_or_error
    hear_server-eq t rest fits e = rw (
        recv-frame order w.error_codec w.server_codec (server_refusal cause) rest t fits.0 fits.1 e)

  module _ (msg : ClientOk) where
    pub send_client-eq :
        (n : ℕ) (s : Stream)
        → s.writes_left ≡ suc n
        → send_client_msg_type w msg s ≡ (
          ok tt,
          record s {
            output = s.output ++ frame w.order w.client_codec (client_answer msg);
            writes_left = n;
          },
        )
    unfolding send_client_msg_type
    send_client-eq n s left =
        rw (send-eq order w.error_codec w.client_codec (client_answer msg) n s left)

    pub recv_client-eq :
        (t : Stream) (rest : List ℕ)
        → Fits w.client_codec (client_answer msg)
        → t.input ≡ frame w.order w.client_codec (client_answer msg) ++ rest
        → recv_client_msg_or_error w t ≡ (ok msg, record t { input = rest })
    unfolding recv_client_msg_or_error
    recv_client-eq t rest fits e =
        rw
          (recv-frame order w.error_codec w.client_codec (client_answer msg) rest t fits.0 fits.1 e)

  module _ (cause : String) where
    pub tell_client-eq :
        (chain : List String) (n : ℕ) (s : Stream)
        → s.writes_left ≡ suc n
        → send_client_err_event w (cause ∷ chain) s ≡ (
          cause ∷ chain,
          record s {
            output = s.output ++ frame w.order w.client_codec (client_refusal cause);
            writes_left = n;
          },
        )
    unfolding send_client_err_event
    tell_client-eq chain n s left =
        rw (send-eq order w.error_codec w.client_codec (client_refusal cause) n s left)

    pub hear_client-eq :
        (t : Stream) (rest : List ℕ)
        → Fits w.client_codec (client_refusal cause)
        → t.input ≡ frame w.order w.client_codec (client_refusal cause) ++ rest
        → recv_client_msg_or_error w t
          ≡ (err ("Error from client:" ∷ cause ∷ "[end err]" ∷ []), record t { input = rest })
    unfolding recv_client_msg_or_error
    hear_client-eq t rest fits e = rw (
        recv-frame order w.error_codec w.client_codec (client_refusal cause) rest t fits.0 fits.1 e)

-- What the peer has to read, where the frame is the first thing written.
