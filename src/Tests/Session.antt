-- ===== src/Tests/Session.antt =====
-- The results on the sessions, with codecs for the messages of one connection.
use sanzu.Prelude.{
  ℕ, ◌+◌, ◌≡◌, ◌≢◌, same_iff, refl, Bool, true, false, List, [], ◌∷◌, ◌++◌, Option, none, some,
  arith,
}
use sanzu.Outcome.{Outcome, ok, err, pure}
use sanzu.Messages.{Version}
use sanzu.Messages.Server.{PamConversation, ServerMsgOrErr, ServerAnswer, ServerOk, ServerEvent}
use sanzu.Messages.Client.{ClientMsgOrErr, ClientAnswer, ClientOk, ClientEvent}
use sanzu.Proto.Stream.{Stream, read_exact, write_all}
use sanzu.Proto.Tunnel.{frame, recv, send}
use sanzu.Proto.Events.{Wire, recv_server_msg_type, recv_server_msg_or_error, send_client_msg_type}
use sanzu.Proto.Frames.{server_answer, client_answer}
use sanzu.Session.{our_version, told_server}
use sanzu.Session.Server.{ServerArgs, Graphics, forced, accept, get_encoder_category}
use sanzu.Session.Client.{
  ClientArgs, ClientInterface, Window, join, converse, login_round, pam_message, go_on,
}
use sanzu.Session.Agree.{accept-join}
use sanzu.Session.Offers.{adapt_hello, resolution_hello}
use sanzu.Session.Refused.{accept_other}
use sanzu.Session.Login.{EndsLogin, converse-ends}
use sanzu.Session.Serving.{
  Duties, Serving, serve_turn, resize, gather, obey, collect, pump_sound, grab, poll, encode,
  take_sound, finish,
}
use sanzu.Session.Sized.{Sized, serve_turn-Sized}
use sanzu.Session.Resized.{Told, resize-Told}
use sanzu.Session.Viewing.{view_turn, view_all}
use sanzu.Session.Viewer.{Viewer, Viewing, Source}
use sanzu.Session.Within.{Within, view_turn-Within}
use sanzu.Session.Turns.{unheard, unheard_client, serve_rest, serve_turn-view_turn}
use sanzu.Tests.Fixtures.{little, little-laws, two, wire}

abbrev args : ServerArgs
args = record {
  encoder = "libx264";
  keep_server_resolution = false;
  rdonly = false;
  audio = true;
  seamless = true;
}

abbrev cargs : ClientArgs
cargs = record { login = false; decoder = none; audio = some 48000 }

-- Graphics that are their size, and a window of an odd size.
abbrev graphics : Graphics (ℕ × ℕ)
graphics = record {
  init = λ size. elim size [ none ↦ ok (640, 480) | some s ↦ ok s ];
  size = λ g. g;
  change_resolution = λ g w h. (ok tt, (w, h));
}

abbrev window : Window (ℕ × ℕ)
window = record { init = λ seamless size. ok (801, 601); size = λ c. c }

abbrev make : ℕ × ℕ → Outcome ℕ
make size = ok 5

abbrev user : ClientInterface
user = record {
  pam_echo = λ text. ok "alice";
  pam_blind = λ text. ok "secret";
  pam_info = λ text. ok tt;
  pam_error = λ text. ok tt;
  pam_end = λ granted. ok tt;
}

abbrev tells_version : ServerMsgOrErr → Bool
tells_version m = elim m.msg [
  | some (ServerAnswer.answer (some (ServerOk.version _))) ↦ true
  | _ ↦ false
]

abbrev tells_client_version : ClientMsgOrErr → Bool
tells_client_version m = elim m.msg [
  | some (ClientAnswer.answer (some (ClientOk.version _))) ↦ true
  | _ ↦ false
]

-- `adapt_hello` and `resolution_hello` do not depend on the wire that they are given.
abbrev joined : Wire
joined = record {
  order = little;
  server_codec =
      two tells_version (server_answer (ServerOk.version our_version))
        (server_answer (adapt_hello wire little-laws args "h264"));
  client_codec =
      two tells_client_version (client_answer (ClientOk.version our_version))
        (client_answer (resolution_hello wire little-laws cargs (801, 601)));
  error_codec = record { encoded_len = λ m. 0; encode = λ m. []; decode = λ bytes. none };
}

abbrev one_byte : ℕ → List ℕ
one_byte b = 1 ∷ 0 ∷ 0 ∷ 0 ∷ 0 ∷ 0 ∷ 0 ∷ 0 ∷ b ∷ []

abbrev server_side : Stream
server_side = record { input = one_byte 1 ++ one_byte 2 ++ 7 ∷ []; output = []; writes_left = 2 }

abbrev client_side : Stream
client_side = record { input = one_byte 1 ++ one_byte 2 ++ 9 ∷ []; output = []; writes_left = 2 }

accept-join_example :
    (accept joined graphics args (pure tt) make server_side ≡ (
      ok ((800, 600), some 48000, 5),
      record { input = 7 ∷ []; output = one_byte 1 ++ one_byte 2; writes_left = 0 },
    ))
    × (join joined window cargs (λ name. ok name) user (pure tt) 0 client_side
        ≡ some (
          ok ((801, 601), (801, 601), "h264"),
          record { input = 9 ∷ []; output = one_byte 1 ++ one_byte 2; writes_left = 0 },
        ))
unfolding forced frame get_encoder_category
accept-join_example =
    accept-join joined little-laws graphics args make window cargs (λ name. ok name) user "h264"
      (801, 601) "h264" (800, 600) 5 0 0 server_side client_side (7 ∷ []) (9 ∷ []) refl refl refl
      refl refl refl refl (record { encode_length = refl; decode_encode = refl }, omega arith)
      (record { encode_length = refl; decode_encode = refl }, omega arith)
      (record { encode_length = refl; decode_encode = refl }, omega arith)
      (record { encode_length = refl; decode_encode = refl }, omega arith) refl refl refl refl

abbrev old : Version
old = record { version = "0.1.0" }

old_other : old.version ≢ our_version.version
old_other e = ground (arith, (same_iff old.version our_version.version).1 e)

abbrev mixed : Wire
mixed = record {
  order = little;
  server_codec =
      two
        (λ m. elim m.msg [
          | some (ServerAnswer.answer (some (ServerOk.version v))) ↦ true
          | _ ↦ false
        ])
        (server_answer (ServerOk.version old)) (server_answer (ServerOk.version old));
  client_codec =
      two tells_client_version (client_answer (ClientOk.version old))
        (client_answer (ClientOk.version old));
  error_codec = record { encoded_len = λ m. 0; encode = λ m. []; decode = λ bytes. none };
}

accept_other_example : accept mixed graphics args (pure tt) make server_side ≡ (
  err ("Version mismatch" ∷ []),
  record { input = one_byte 2 ++ 7 ∷ []; output = one_byte 1; writes_left = 1 },
)
unfolding frame
accept_other_example =
    accept_other mixed little-laws old old_other 1 server_side (one_byte 2 ++ 7 ∷ []) graphics args
      (pure tt) make (record { encode_length = refl; decode_encode = refl }, omega arith) refl refl

-- The server asks for a name, then grants the login.
abbrev asks : ServerMsgOrErr → Bool
asks m = elim m.msg [
  | some (ServerAnswer.answer (some (ServerOk.pamconversation (some (PamConversation.echo _))))) ↦
      true
  | _ ↦ false
]

abbrev logging : Wire
logging = record {
  order = little;
  server_codec =
      two asks (server_answer (ServerOk.pamconversation (some (PamConversation.echo "login: "))))
        (server_answer (ServerOk.pamconversation (some (PamConversation.end true))));
  client_codec =
      two (λ m. true) (client_answer (ClientOk.pamuser "alice"))
        (client_answer (ClientOk.pamuser "alice"));
  error_codec = record { encoded_len = λ m. 0; encode = λ m. []; decode = λ bytes. none };
}

abbrev asked : Stream
asked = record { input = one_byte 1 ++ one_byte 2 ++ 9 ∷ []; output = []; writes_left = 2 }

logged_in :
    converse logging user 21 asked
    ≡ some (ok tt, record { input = 9 ∷ []; output = one_byte 1; writes_left = 1 })
unfolding converse login_round pam_message go_on told_server recv_server_msg_type
    recv_server_msg_or_error recv read_exact send_client_msg_type send write_all
logged_in = refl

converse-ends_example :
    (x : Outcome (Unit {0}) × Stream) × (converse logging user 21 asked ≡ some x)
    × EndsLogin logging user x
converse-ends_example = converse-ends logging user 21 asked (omega arith)

-- A server and a client in their loops. The client asks for an odd size, and the server has a size
-- to set.
abbrev duties : Duties (ℕ × ℕ) ℕ ℕ
duties = record {
  change_resolution = λ size g. (ok tt, size);
  grab_frame = λ g. (ok tt, g);
  poll_events = λ g. (ok [], g);
  handle_client_event = λ msgs g. (ok ((641, 481) ∷ []), g);
  generate_encoded_img = λ gv. (ok [], gv);
  encoder_resolution = λ v size. ok (v + 1);
  reload = λ v. ok v;
  read_sound = λ u. u;
  recv_events = λ u. ([], u);
}

abbrev serving : Serving (ℕ × ℕ) ℕ ℕ
serving = record {
  stream = record { input = one_byte 1 ++ 7 ∷ []; output = []; writes_left = 3 };
  graphics = (320, 200);
  encoder = 5;
  sound = 0;
  new_size = some (800, 600);
  cur_size = none;
  msg_stats = "";
}

abbrev told : List (Option ServerEvent)
told =
    some (ServerEvent.display (record { width = 800; height = 600 }))
    ∷ some (ServerEvent.stats "")
    ∷ []

abbrev moved : List (Option ClientEvent)
moved = some (ClientEvent.move (record { x = 1; y = 2 })) ∷ []

abbrev looping : Wire
looping = record {
  order = little;
  server_codec =
      two (λ m. true) (server_answer (ServerOk.msgssrv told))
        (server_answer (ServerOk.msgssrv told));
  client_codec =
      two (λ m. true) (client_answer (ClientOk.msgsclient moved))
        (client_answer (ClientOk.msgsclient moved));
  error_codec = record { encoded_len = λ m. 0; encode = λ m. []; decode = λ bytes. none };
}

serve_turn-Sized_example : Sized (serve_turn looping duties args false "fast" serving).1
serve_turn-Sized_example =
    serve_turn-Sized looping duties args false "fast" serving
      (record { new_even = (refl, refl); cur_even = tt; cur_area = tt })

abbrev resized : Serving (ℕ × ℕ) ℕ ℕ
resized = record serving {
  graphics = (800, 600);
  encoder = 6;
  new_size = none;
  cur_size = some (800, 600);
}

resize-Told_example :
    Told looping duties args serving
      (some (ServerEvent.display (record { width = 800; height = 600 })) ∷ [])
      resized
unfolding resize
resize-Told_example = resize-Told looping duties args serving resized _ refl

abbrev viewer : Viewer ℕ ℕ ℕ
viewer = record {
  poll_events = λ c. (ok moved, c + 1);
  set_clipboard = λ text c. c;
  set_cursor = λ pixels size hot c. c;
  display_stats = λ c. false;
  set_img = λ pixels size c. (ok tt, c);
  update = λ areas c. (ok tt, c);
  reload = λ d. ok d;
  decode_img = λ d packet size line. (true, d);
  data_rgba = λ d. none;
  with_data = λ d pixels. d;
  draw_text = λ text size pixels. pixels;
  push = λ packet u. u;
  as_i16 = λ z. z;
  read_u32 = λ bytes. 0;
}

abbrev viewing : Viewing ℕ ℕ ℕ
viewing = record {
  stream = record { input = one_byte 1 ++ 9 ∷ []; output = []; writes_left = 3 };
  window = 0;
  decoder = 0;
  sound = none;
  stats = "";
  img_size = (800, 600);
  img_bytes_per_line = none;
  areas = [];
  img_todo = none;
}

abbrev source : Source
source = record { extern_img_source = none; source_is_xwd = false }

view_turn-Within_example : Within (view_turn looping viewer source viewing).1
view_turn-Within_example =
    view_turn-Within looping viewer source viewing
      (record { size_small = (omega arith, omega arith); image_small = tt; line_small = tt })

serve_turn-view_turn_example :
    (serve_turn looping duties args false "fast" serving
      ≡ serve_rest looping duties args "fast" moved (record resized {
        stream = record { input = 7 ∷ []; output = one_byte 1; writes_left = 2 };
      }))
    × (view_turn looping viewer source viewing
        ≡ view_all looping viewer source told (record viewing {
          stream = record { input = 9 ∷ []; output = one_byte 1; writes_left = 2 };
          window = 1;
        }))
    × ((serve_turn looping duties args false "fast" (unheard serving)).1.stream.output ≡ one_byte 1)
    × ((view_turn looping viewer source (unheard_client viewing)).1.stream.output ≡ one_byte 1)
unfolding frame gather resize obey collect pump_sound grab poll encode take_sound finish
serve_turn-view_turn_example =
    serve_turn-view_turn looping little-laws duties args viewer source false "fast" 2 2 serving
      resized viewing 1 told moved (7 ∷ []) (9 ∷ []) refl refl
      (record { encode_length = refl; decode_encode = refl }, omega arith)
      (record { encode_length = refl; decode_encode = refl }, omega arith) refl refl refl refl
