-- ===== src/Proxy.antt =====
-- One turn of the loop of `run_server` in sanzu/src/proxy.rs: the messages of the server are filtered
-- and encoded for the client, those of the client are filtered for the server.
pub mod Filtered
pub mod Kept
pub mod Handshake
pub mod Connected
pub mod Turn
pub mod Told
pub mod Warned
use sanzu.Prelude.{
  ℕ, ◌+◌, ◌-◌, ◌*◌, ◌%◌, ◌^◌, String, Bool, true, false, not, ◌||◌, List, [], ◌∷◌, ◌++◌, Option,
  none, some, length, take, ltb, ◌==◌, if◌then◌else◌,
}
use sanzu.Outcome.{Outcome, ok, err, panic, Io, pure, fail, ◌>>=◌, ◌>>◌}
use sanzu.Messages.{EventDisplay}
use sanzu.Messages.Server.{ServerEvent, ImageRaw, ImageEncoded}
use sanzu.Messages.Client.{ClientEvent}
use sanzu.Sound.Encoding.{Encoded, encode_sound}
use sanzu.Session.Server.{of}
use sanzu.Xwd.{Image, get_xwd_data, max_window_width, max_window_height, max_bytes_per_line}

-- The encoders and the byte order, code of other crates: a video encoder `V`, a sound encoder `E`.
pub record Codecs (V E : Type 0) : Type 0 where
  pub init_video_encoder : (width height : ℕ) → Outcome V
  pub change_resolution : V → (width height : ℕ) → Outcome V
  pub encode_image : V → Image → (count : ℕ) → Option (List ℕ × V)
  pub encode : E → List ℕ → Option (List ℕ) × E
  pub read_u32 : List ℕ → ℕ
  pub read_i16 : ℕ → ℕ → ℕ

-- The arguments, and the shared memory that images are taken from.
pub record ProxyArgs : Type 0 where
  pub disable_server_clipboard : Bool
  pub disable_client_clipboard : Bool
  pub source_is_xwd : Bool
  pub video_shared_mem : Option (List ℕ)

-- `encoded_video`: has an image been encoded in this turn?
pub record ProxyState (V E : Type 0) : Type 0 where
  pub video_encoder : V
  pub sound_encoder : E
  pub sound_data : List ℕ
  pub screen_size : ℕ × ℕ
  pub count : ℕ
  pub encoded_video : Bool

-- An image, where the shared memory is not used.
own_image : ImageRaw → Image
own_image img = record {
  pixels = img.pixels;
  width = img.width;
  height = img.height;
  bytes_per_line = img.bytes_per_line;
}

-- `&video_shared_mem[..size]`
shared_image : ImageRaw → List ℕ → Outcome Image
shared_image img mem =
    let size = img.bytes_per_line * img.height in
    if ltb (length mem) size
    then panic "range end index out of range"
    else ok (record {
      pixels = take size mem;
      width = img.width;
      height = img.height;
      bytes_per_line = img.bytes_per_line;
    })

-- The pixels and the bytes of a line are those of the file, the size is that of the message.
xwd_image : ImageRaw → Outcome Image → Outcome Image
xwd_image img (ok x) = ok (record {
  pixels = x.pixels;
  width = img.width;
  height = img.height;
  bytes_per_line = x.bytes_per_line;
})
xwd_image img (err chain) = err chain
xwd_image img (panic why) = panic why

source_image : (List ℕ → ℕ) → ProxyArgs → ImageRaw → Outcome Image
unfolding own_image shared_image xwd_image
source_image read_u32 args img = elim args.video_shared_mem [
  | none ↦ ok (own_image img)
  | some mem ↦
      if args.source_is_xwd then xwd_image img (get_xwd_data read_u32 mem) else shared_image img mem
]

too_big : Image → Bool
too_big i =
    ltb max_window_width i.width
    || ltb max_window_height i.height
    || ltb max_bytes_per_line i.bytes_per_line

-- `while let Ok(sample) = rdr.read_i16()`
samples : (ℕ → ℕ → ℕ) → List ℕ → List ℕ
samples read_i16 [] = []
samples read_i16 (a ∷ []) = []
samples read_i16 (a ∷ b ∷ rest) = read_i16 a b ∷ samples read_i16 rest

module _ {V E : Type 0} (c : Codecs V E) (args : ProxyArgs) where
  -- Another size than the last wants another encoder.
  fit_encoder : Image → Io (ProxyState V E) (Unit {0})
  fit_encoder i s =
      if not (i.width == s.screen_size.0) || not (i.height == s.screen_size.1)
      then elim (c.init_video_encoder (i.width % 2 ^ 16) (i.height % 2 ^ 16)) [
        | err chain ↦ (err ("Error in init_encoder" ∷ chain), s)
        | panic why ↦ (panic why, s)
        | ok v ↦ (
          ok tt,
          record s { video_encoder = v; screen_size = (i.width % 2 ^ 16, i.height % 2 ^ 16) },
        )
      ]
      else (ok tt, s)

  encode_video : ImageRaw → Image → Io (ProxyState V E) (List (Option ServerEvent))
  encode_video img i s = elim (c.encode_image s.video_encoder i s.count) [
    | none ↦ (panic "called `Result::unwrap()` on an `Err` value", s)
    | some (packet, v) ↦ (
      ok (
          some (
            ServerEvent.img_encoded
              (record { packet = packet; width = img.width; height = img.height }))
          ∷ []),
      record s { video_encoder = v; count = s.count + 1; encoded_video = true },
    )
  ]

  take_source : ImageRaw → Io (ProxyState V E) Image
  take_source img s = (source_image c.read_u32 args img, s)

  relay_image : ImageRaw → Io (ProxyState V E) (List (Option ServerEvent))
  unfolding take_source fit_encoder encode_video
  relay_image img = do
    i ← take_source img
    if too_big i then (λ s. (panic "Size too big", s)) else do fit_encoder i; encode_video img i

  -- The sound that was read, encoded as far as it makes whole pieces. (The loop of `encode_sound`
  -- always ends.)
  sound_result : Option (Encoded E) → Io (ProxyState V E) (List (Option ServerEvent))
  sound_result none s = (panic "endless loop", s)
  sound_result (some r) s = (
    ok (elim r.event [ none ↦ [] | some event ↦ some event ∷ [] ]),
    record s { sound_encoder = r.encoder; sound_data = r.sound_data },
  )

  relay_sound : List ℕ → Io (ProxyState V E) (List (Option ServerEvent))
  unfolding sound_result samples
  relay_sound bytes s =
      sound_result
        (encode_sound c.encode s.sound_encoder (s.sound_data ++ samples c.read_i16 bytes)) s

  relay_display : EventDisplay → Io (ProxyState V E) (List (Option ServerEvent))
  relay_display event s =
      let width = event.width - event.width % 2 in
      let height = event.height - event.height % 2 in
      (do
        v ← of (c.change_resolution s.video_encoder width height)
        λ t. (
          ok (some (ServerEvent.display (record { width = width; height = height })) ∷ []),
          record t { video_encoder = v },
        ))
        s

  -- The proxy's own figures, which it appends to the text, are left out.
  relay_stats : String → Io (ProxyState V E) (List (Option ServerEvent))
  relay_stats stats s =
      (ok (if s.encoded_video then some (ServerEvent.stats stats) ∷ [] else []), s)

  -- The messages for the client that one message of the server leads to.
  relay_event : ServerEvent → Io (ProxyState V E) (List (Option ServerEvent))
  unfolding relay_image relay_sound relay_display relay_stats
  relay_event (ServerEvent.img_encoded img) = pure []
  relay_event (ServerEvent.sound_encoded packets) = pure []
  relay_event (ServerEvent.stats text) = relay_stats text
  relay_event (ServerEvent.clipboard event) =
      pure (if args.disable_server_clipboard then [] else some (ServerEvent.clipboard event) ∷ [])
  relay_event (ServerEvent.display event) = relay_display event
  relay_event (ServerEvent.img_raw img) = relay_image img
  relay_event (ServerEvent.sound_raw bytes) = relay_sound bytes
  relay_event (ServerEvent.cursor event) = pure (some (ServerEvent.cursor event) ∷ [])
  relay_event (ServerEvent.area_updt event) = pure (some (ServerEvent.area_updt event) ∷ [])
  relay_event (ServerEvent.notifications events) =
      pure (some (ServerEvent.notifications events) ∷ [])
  relay_event (ServerEvent.printfile path) = pure (some (ServerEvent.printfile path) ∷ [])

  relay_message : Option ServerEvent → Io (ProxyState V E) (List (Option ServerEvent))
  unfolding relay_event
  relay_message none = pure []
  relay_message (some event) = relay_event event

  relay_messages : List (Option ServerEvent) → Io (ProxyState V E) (List (Option ServerEvent))
  unfolding relay_message
  relay_messages [] = pure []
  relay_messages (msg ∷ msgs) = do
    events ← relay_message msg
    later ← relay_messages msgs
    pure (events ++ later)

  -- All messages of the server in one turn.
  unfoldable pub relay_server :
      List (Option ServerEvent) → Io (ProxyState V E) (List (Option ServerEvent))
  unfolding relay_messages source_image too_big
  relay_server msgs s = relay_messages msgs (record s { encoded_video = false })

-- All messages of the client in one turn.
pub relay_client : ProxyArgs → List (Option ClientEvent) → List (Option ClientEvent)
relay_client args [] = []
relay_client args (none ∷ msgs) = relay_client args msgs
relay_client args (some (ClientEvent.clipboard event) ∷ msgs) =
    let rest = relay_client args msgs in
    if args.disable_client_clipboard then rest else some (ClientEvent.clipboard event) ∷ rest
relay_client args (some msg ∷ msgs) = some msg ∷ relay_client args msgs
