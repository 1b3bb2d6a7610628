-- ===== src/Tests/Proto.antt =====
-- The results on sanzu-common/src/proto.rs at concrete streams.
use sanzu.Prelude.{ℕ, ◌≡◌, ◌≤◌, refl, ◌⊎◌, List, [], ◌∷◌, Option, none, some, drop, arith}
use sanzu.Outcome.{ok, err}
use sanzu.Messages.{Version}
use sanzu.Messages.Server.{ServerOk}
use sanzu.Messages.Client.{ClientOk}
use sanzu.Proto.Stream.{Stream, write_all}
use sanzu.Proto.Tunnel.{max_packet_len, send, recv}
use sanzu.Proto.Events.{send_server_err_event, recv_server_msg_or_error}
use sanzu.Proto.Framing.{recv_each, send_each, recv_each-send_each}
use sanzu.Proto.Limits.{recv_consumes}
use sanzu.Proto.Relay.{recv_server-send_server_err}
use sanzu.Tests.Fixtures.{little, little-laws, raw, wire}

abbrev fresh : Stream
fresh = record { input = []; output = []; writes_left = 2 }

abbrev hello : List (List ℕ)
hello = (1 ∷ 2 ∷ []) ∷ (3 ∷ []) ∷ []

abbrev arriving : List ℕ → Stream
arriving bytes = record { input = bytes; output = []; writes_left = 0 }

abbrev two_frames : List ℕ
two_frames = 2 ∷ 0 ∷ 0 ∷ 0 ∷ 0 ∷ 0 ∷ 0 ∷ 0 ∷ 1 ∷ 2 ∷ 1 ∷ 0 ∷ 0 ∷ 0 ∷ 0 ∷ 0 ∷ 0 ∷ 0 ∷ 3 ∷ 9 ∷ []

recv_each-send_each_example :
    ((send_each little wire.error_codec raw hello fresh).0 ≡ ok tt)
    × (recv_each little wire.error_codec raw 2 (arriving two_frames)
        ≡ (ok hello, arriving (9 ∷ [])))
unfolding send_each send write_all
recv_each-send_each_example =
    recv_each-send_each little-laws wire.error_codec raw hello 0 fresh (arriving two_frames)
      (9 ∷ [])
      (
        record { encode_length = refl; decode_encode = refl },
        (record { encode_length = refl; decode_encode = refl }, tt),
      )
      (omega arith) refl refl refl

-- A frame that is cut short.
recv_consumes_example :
    ((recv little wire.error_codec raw (arriving (2 ∷ 0 ∷ 0 ∷ 0 ∷ 0 ∷ 0 ∷ 0 ∷ 0 ∷ 1 ∷ []))).1.output
      ≡ [])
    × ((recv little wire.error_codec raw
          (arriving (2 ∷ 0 ∷ 0 ∷ 0 ∷ 0 ∷ 0 ∷ 0 ∷ 0 ∷ 1 ∷ []))).1.writes_left
        ≡ 0)
    × (((recv little wire.error_codec raw
            (arriving (2 ∷ 0 ∷ 0 ∷ 0 ∷ 0 ∷ 0 ∷ 0 ∷ 0 ∷ 1 ∷ []))).1.input
          ≡ [])
        ⊎ ((n : ℕ) × ((recv little wire.error_codec raw
                (arriving (2 ∷ 0 ∷ 0 ∷ 0 ∷ 0 ∷ 0 ∷ 0 ∷ 0 ∷ 1 ∷ []))).1.input
              ≡ drop n (1 ∷ []))
            × (n ≤ max_packet_len)))
recv_consumes_example =
    recv_consumes little wire.error_codec raw (arriving (2 ∷ 0 ∷ 0 ∷ 0 ∷ 0 ∷ 0 ∷ 0 ∷ 0 ∷ 1 ∷ []))

abbrev as_version_server : ServerOk → Option Version
as_version_server m = elim m [ ServerOk.version v ↦ some v | _ ↦ none ]

abbrev as_version_client : ClientOk → Option Version
as_version_client m = elim m [ ClientOk.version v ↦ some v | _ ↦ none ]

abbrev an_answer : List ℕ
an_answer = 1 ∷ 0 ∷ 0 ∷ 0 ∷ 0 ∷ 0 ∷ 0 ∷ 0 ∷ 1 ∷ []

abbrev a_refusal : List ℕ
a_refusal = 1 ∷ 0 ∷ 0 ∷ 0 ∷ 0 ∷ 0 ∷ 0 ∷ 0 ∷ 2 ∷ []

recv_server-send_server_err_example :
    ((send_server_err_event wire ("no" ∷ "secret" ∷ []) fresh).0 ≡ "no" ∷ "secret" ∷ [])
    × (recv_server_msg_or_error wire (arriving a_refusal)
        ≡ (err ("Error from server:" ∷ "no" ∷ "[end err]" ∷ []), arriving []))
unfolding send_server_err_event send write_all
recv_server-send_server_err_example =
    recv_server-send_server_err wire little-laws 1 fresh (arriving a_refusal) [] "no"
      ("secret" ∷ []) (record { encode_length = refl; decode_encode = refl }, omega arith) refl refl
      refl
