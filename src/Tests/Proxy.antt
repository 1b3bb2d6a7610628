-- ===== src/Tests/Proxy.antt =====
-- The results on sanzu/src/proxy.rs with codecs that pass the bytes on.
use sanzu.Prelude.{ℕ, ◌≡◌, true, false, List, [], ◌∷◌, Option, none, some}
use sanzu.Outcome.{Yields, ok}
use sanzu.Messages.Server.{ServerEvent}
use sanzu.Messages.Client.{ClientEvent}
use sanzu.Proxy.{Codecs, ProxyArgs, ProxyState, relay_server, relay_client}
use sanzu.Proxy.Filtered.{Relayed, relay_server-Relayed}
use sanzu.Proxy.Kept.{relay_client-keeps}
use sanzu.Client.Poll.Pressed.{pressed}
use sanzu.Client.Poll.Coalesced.{moves, sizes, texts}

abbrev pub codecs : Codecs ℕ ℕ
codecs = record {
  init_video_encoder = λ w h. ok w;
  change_resolution = λ v w h. ok w;
  encode_image = λ v i count. some (i.pixels, v);
  encode = λ e piece. (some piece, e);
  read_u32 = λ bytes. 0;
  read_i16 = λ a b. a;
}

abbrev pub args : ProxyArgs
args = record {
  disable_server_clipboard = true;
  disable_client_clipboard = true;
  source_is_xwd = false;
  video_shared_mem = none;
}

abbrev pub state : ProxyState ℕ ℕ
state = record {
  video_encoder = 8;
  sound_encoder = 0;
  sound_data = [];
  screen_size = (8, 6);
  count = 0;
  encoded_video = false;
}

abbrev sent : List (Option ServerEvent)
sent =
    some (ServerEvent.clipboard (record { text = "secret" }))
    ∷ some (
        ServerEvent.img_raw
          (record { pixels = 1 ∷ 2 ∷ []; width = 4; height = 2; bytes_per_line = 1 }))
    ∷ some (ServerEvent.printfile "a.pdf")
    ∷ []

relay_server-Relayed_example : Yields (Relayed true sent) (relay_server codecs args sent state)
relay_server-Relayed_example = relay_server-Relayed codecs args sent state

abbrev typed : List (Option ClientEvent)
typed =
    some (ClientEvent.key (record { keycode = 38; updown = true }))
    ∷ some (ClientEvent.clipboard (record { text = "secret" }))
    ∷ some (ClientEvent.move (record { x = 1; y = 2 }))
    ∷ []

relay_client-keeps_example :
    (pressed (relay_client args typed) (λ _. false) ≡ pressed typed (λ _. false))
    × (moves (relay_client args typed) ≡ moves typed)
    × (sizes (relay_client args typed) ≡ [])
    × (texts (relay_client args typed) ≡ [])
relay_client-keeps_example = relay_client-keeps args typed (λ _. false)
