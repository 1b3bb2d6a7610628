-- ===== src/Tests/Input.antt =====
-- The results on `handle_client_event` and `generate_encoded_img` of sanzu/src/server_x11.rs.
use sanzu.Prelude.{
  ℕ, ◌≡◌, ◌++◌, refl, Bool, true, false, List, [], ◌∷◌, Option, none, some, arith, map,
}
use sanzu.Outcome.{ok, Yields}
use sanzu.Messages.Client.{ClientEvent}
use sanzu.Client.Poll.Pressed.{pressed}
use sanzu.Server.Input.{Replies, InputServer, FakeInput, handle_client_event}
use sanzu.Server.Input.Faked.{faked, handle_client_event-faked}
use sanzu.Server.Image.{VideoEncoder, Grab, generate_encoded_img}
use sanzu.Server.Image.One.{Sent, generate_encoded_img-OneImage}

abbrev replies : Replies
replies = record {
  faked = true;
  stored_clipboard = true;
  stored_primary = true;
  locks_set = true;
  sends = 1;
  x_server = record {
    get_geometry = λ w. none;
    is_viewable = λ w. false;
    get_client_list = λ w. none;
    get_window_children = λ w. none;
    get_window_name = λ w. none;
  };
}

abbrev server : InputServer
server = record {
  root = 1;
  areas = [];
  frozen_frames_count = 7;
  skip_clipboard_clipboard = 0;
  skip_clipboard_primary = 0;
  inputs = [];
  clipboard = none;
  primary = none;
  locks = none;
  activated = [];
}

abbrev received : List (Option ClientEvent)
received =
    some (ClientEvent.key (record { keycode = 38; updown = true }))
    ∷ some (ClientEvent.display (record { width = 80; height = 60 }))
    ∷ []

handle_client_event-faked_example :
    (t : InputServer) × (inputs : List FakeInput) × (handle_client_event
        (map (λ m. (m, replies)) received)
        server
      ≡ (ok ((80, 60) ∷ []), t))
    × (t.inputs ≡ [] ++ inputs)
    × ((down : ℕ → Bool) → faked inputs down ≡ pressed received down)
handle_client_event-faked_example =
    handle_client_event-faked (map (λ m. (m, replies)) received) server
      ((refl, omega arith), (tt, tt))

abbrev raw_encoder : VideoEncoder ℕ
raw_encoder = record { encode_image = λ v i count. some (i.pixels, v); is_raw = λ v. true }

abbrev frame : Grab ℕ
frame = record {
  width = 2;
  height = 1;
  shared = 1 ∷ 2 ∷ 3 ∷ 4 ∷ 5 ∷ 6 ∷ 7 ∷ 8 ∷ [];
  extern_img_source_mmap = none;
  export_video_mmap = none;
  frozen_frames_count = 3;
  max_stall_img = 20;
  avoid_img_extraction = false;
  img_count = 9;
  video_encoder = 0;
}

generate_encoded_img-OneImage_example :
    Yields (Sent frame) (generate_encoded_img raw_encoder (λ bytes. 0) true frame)
generate_encoded_img-OneImage_example =
    generate_encoded_img-OneImage raw_encoder (λ bytes. 0) true frame
