-- ===== src/Tests/Tunnels.antt =====
-- The results on the two connections of the proxy, with codecs for the messages of one example.
use sanzu.Prelude.{
  ℕ, ◌+◌, ◌≡◌, refl, String, Bool, true, false, List, [], ◌∷◌, ◌++◌, Option, none, some, arith,
}
use sanzu.Outcome.{ok, err}
use sanzu.Messages.Server.{
  ServerMsgOrErr, ServerAnswer, ServerOk, ServerHello, HelloMode, ServerEvent,
}
use sanzu.Messages.Client.{
  ClientMsgOrErr, ClientAnswer, ClientOk, ClientHelloResolution, ClientEvent,
}
use sanzu.Proto.Stream.{Stream, read_exact, write_all}
use sanzu.Proto.Tunnel.{frame, send, recv}
use sanzu.Proto.Events.{Wire, recv_server_msg_type}
use sanzu.Proto.Frames.{server_answer, client_answer}
use sanzu.Session.{our_version}
use sanzu.Session.Server.{get_encoder_category}
use sanzu.Session.Viewer.{msgs_srv}
use sanzu.Proxy.{relay_server}
use sanzu.Proxy.Filtered.{Relayed}
use sanzu.Proxy.Handshake.{
  Tunnels, connect, recv_srv_msg_type, recv_srv_msg_or_error, send_srv_err_event,
}
use sanzu.Proxy.Connected.{Answered, connect-passes}
use sanzu.Proxy.Turn.{Relay, obey, hear_server, relay_turn}
use sanzu.Proxy.Told.{relay_turn-passes}
use sanzu.Proxy.Warned.{srv_refusal, recv_failed, relay_turn-warns}
use sanzu.Tests.Fixtures.{little, little-laws, two}
use sanzu.Tests.Proxy.{codecs, args, state}

abbrev told : ServerHello
told = record { codec_name = "null"; audio = false; msg = some (HelloMode.adapt_screen true) }

abbrev answer : ClientHelloResolution
answer = record { audio = true; audio_sample_rate = 48000; width = 800; height = 600 }

abbrev tells_version : ServerMsgOrErr → Bool
tells_version m = elim m.msg [
  | some (ServerAnswer.answer (some (ServerOk.version _))) ↦ true
  | _ ↦ false
]

abbrev tells_client_version : ClientMsgOrErr → Bool
tells_client_version m = elim m.msg [
  | some (ClientAnswer.answer (some (ClientOk.version _))) ↦ true
  | _ ↦ false
]

abbrev greeting : Wire
greeting = record {
  order = little;
  server_codec =
      two tells_version (server_answer (ServerOk.version our_version))
        (server_answer (ServerOk.hello told));
  client_codec =
      two tells_client_version (client_answer (ClientOk.version our_version))
        (client_answer (ClientOk.clienthelloresolution answer));
  error_codec = record { encoded_len = λ m. 0; encode = λ m. []; decode = λ bytes. none };
}

abbrev one_byte : ℕ → List ℕ
one_byte b = 1 ∷ 0 ∷ 0 ∷ 0 ∷ 0 ∷ 0 ∷ 0 ∷ 0 ∷ b ∷ []

abbrev tunnels : Tunnels
tunnels = record {
  client = record { input = one_byte 1 ++ one_byte 2 ++ 7 ∷ []; output = []; writes_left = 2 };
  server = record { input = one_byte 1 ++ one_byte 2 ++ 9 ∷ []; output = []; writes_left = 2 };
}

connect-passes_example : connect greeting (λ w h. ok w) "libx264" true tunnels ≡ (
  ok ((800, 600), 800),
  record {
    client = record { input = 7 ∷ []; output = one_byte 1 ++ one_byte 2; writes_left = 0 };
    server = record { input = 9 ∷ []; output = one_byte 1 ++ one_byte 2; writes_left = 0 };
  },
)
unfolding frame get_encoder_category
connect-passes_example =
    connect-passes greeting little-laws "h264" true told (HelloMode.adapt_screen true) (λ w h. ok w)
      "libx264" 800 (ClientOk.clienthelloresolution answer) (800, 600) 0 0 tunnels (7 ∷ []) (9 ∷ [])
      refl refl (Answered.resolution true answer) refl
      (record { encode_length = refl; decode_encode = refl }, omega arith)
      (record { encode_length = refl; decode_encode = refl }, omega arith)
      (record { encode_length = refl; decode_encode = refl }, omega arith)
      (record { encode_length = refl; decode_encode = refl }, omega arith) refl refl refl refl

abbrev sent : List (Option ServerEvent)
sent =
    some (ServerEvent.clipboard (record { text = "secret" }))
    ∷ some (ServerEvent.printfile "a.pdf")
    ∷ []

abbrev passed : List (Option ServerEvent)
passed = some (ServerEvent.printfile "a.pdf") ∷ []

abbrev typed : List (Option ClientEvent)
typed = some (ClientEvent.move (record { x = 1; y = 2 })) ∷ none ∷ []

-- The report on a server that has closed its connection.
abbrev closed : List String
closed =
    "Received error msg" ∷ "Error in recv pkt" ∷ "Cannot read pkt" ∷ "failed to fill whole buffer"
    ∷ []

abbrev answers : ServerMsgOrErr → Bool
answers m = elim m.msg [ some (ServerAnswer.answer _) ↦ true | _ ↦ false ]

abbrev looping : Wire
looping = record {
  order = little;
  server_codec =
      two answers (server_answer (ServerOk.msgssrv sent)) (srv_refusal (recv_failed closed));
  client_codec =
      two (λ m. true) (client_answer (ClientOk.msgsclient typed))
        (client_answer (ClientOk.msgsclient typed));
  error_codec = record { encoded_len = λ m. 0; encode = λ m. []; decode = λ bytes. none };
}

abbrev relay : Relay ℕ ℕ
relay = record {
  tunnels = record {
    client = record { input = one_byte 1 ++ 7 ∷ []; output = []; writes_left = 1 };
    server = record { input = one_byte 1 ++ 9 ∷ []; output = []; writes_left = 1 };
  };
  state = state;
}

relay_turn-passes_example :
    (relay_turn looping codecs args (λ v. ok (v + 1)) true relay ≡ (
      ok tt,
      record {
        tunnels = record {
          client = record { input = 7 ∷ []; output = one_byte 1; writes_left = 0 };
          server = record { input = 9 ∷ []; output = one_byte 1; writes_left = 0 };
        };
        state = record state { video_encoder = 9 };
      },
    ))
    × Relayed true sent passed
unfolding frame obey relay_server
relay_turn-passes_example =
    relay_turn-passes looping little-laws codecs args (λ v. ok (v + 1)) true relay
      (record state { video_encoder = 9 }) (record state { video_encoder = 9 }) sent passed typed 0
      0 (7 ∷ []) (9 ∷ []) refl refl
      (record { encode_length = refl; decode_encode = refl }, omega arith)
      (record { encode_length = refl; decode_encode = refl }, omega arith) refl refl refl refl

abbrev broken : Relay ℕ ℕ
broken = record {
  tunnels = record {
    client = record { input = []; output = []; writes_left = 1 };
    server = record { input = []; output = []; writes_left = 1 };
  };
  state = state;
}

abbrev reader : Stream
reader = record { input = one_byte 2 ++ 5 ∷ []; output = []; writes_left = 0 }

relay_turn-warns_example :
    ((relay_turn looping codecs args ok false broken).0 ≡ err (recv_failed closed))
    × ((relay_turn looping codecs args ok false broken).1.tunnels.server ≡ broken.tunnels.server)
    × (recv_server_msg_type looping msgs_srv reader ≡ (
      err (
          "Received error msg" ∷ "Error from server:" ∷ "Errors from proxy's server:"
          ∷ "    Error in recv MessagesSrv" ∷ "    Received error msg" ∷ "    Error in recv pkt"
          ∷ "    Cannot read pkt" ∷ "    failed to fill whole buffer" ∷ "[end err]" ∷ []),
      record reader { input = 5 ∷ [] },
    ))
unfolding frame obey relay_turn recv_srv_msg_type recv_srv_msg_or_error recv read_exact hear_server
    send_srv_err_event send write_all
relay_turn-warns_example =
    relay_turn-warns looping little-laws codecs args ok msgs_srv false broken state closed 0
      broken.tunnels.server reader (5 ∷ []) refl refl
      (record { encode_length = refl; decode_encode = refl }, omega arith) refl refl refl
