-- ===== src/Server/Image.antt =====
-- `generate_encoded_img` of sanzu/src/server_x11.rs: the image of a frame as a message.
pub mod One
use sanzu.Prelude.{
  ℕ, ◌*◌, ◌%◌, ◌^◌, ◌<◌, String, Bool, true, false, ◌≡◌, List, [], ◌∷◌, Option, none, some, length,
  ltb, if◌then◌else◌,
}
use sanzu.Outcome.{Outcome, ok, err, panic, Io, pure, fail, in_context, ◌>>=◌, ◌>>◌}
use sanzu.Messages.Server.{ServerEvent, ImageRaw, ImageEncoded}
use sanzu.Xwd.{Image, get_xwd_data}

-- The video encoder: its image, and whether it is raw; `none` is an error.
pub record VideoEncoder (V : Type 0) : Type 0 where
  pub encode_image : V → Image → (count : ℕ) → Option (List ℕ × V)
  pub is_raw : V → Bool

-- The fields of the server and its `grabinfo` that are read here. `shared` is the memory that the X
-- server writes the frame to; the exported memory is its size and its contents.
pub record Grab (V : Type 0) : Type 0 where
  pub width : ℕ
  pub height : ℕ
  pub shared : List ℕ
  pub extern_img_source_mmap : Option (List ℕ)
  pub export_video_mmap : Option (ℕ × List ℕ)
  pub frozen_frames_count : ℕ
  pub max_stall_img : ℕ
  pub avoid_img_extraction : Bool
  pub img_count : ℕ
  pub video_encoder : V

raw_message : (pixels : List ℕ) → (width height bytes_per_line : ℕ) → List (Option ServerEvent)
raw_message pixels width height bytes_per_line =
    some (
      ServerEvent.img_raw (record {
        pixels = pixels;
        width = width;
        height = height;
        bytes_per_line = bytes_per_line;
      }))
    ∷ []

module _ {V : Type 0} (c : VideoEncoder V) (read_u32 : List ℕ → ℕ) where
  -- The frame: of the external image, whose size is not used, or of the X server.
  grabbed : Outcome Image → ℕ → ℕ → Outcome Image
  grabbed (ok x) width height = ok (record {
    pixels = x.pixels;
    width = width;
    height = height;
    bytes_per_line = x.bytes_per_line;
  })
  grabbed (err chain) width height = err chain
  grabbed (panic why) width height = panic why

  grab : Io (Grab V) Image
  unfolding grabbed
  grab s = elim s.extern_img_source_mmap [
    | some file ↦ (grabbed (get_xwd_data read_u32 file) s.width s.height, s)
    | none ↦ (
      ok (record {
        pixels = s.shared;
        width = s.width;
        height = s.height;
        bytes_per_line = s.width * 4 % 2 ^ 32;
      }),
      s,
    )
  ]

  -- `write_all` into the exported memory, which must be large enough, and its flush.
  export_video : (flushed : Bool) → Image → Io (Grab V) (Unit {0})
  export_video flushed i s = elim s.export_video_mmap [
    | none ↦ (ok tt, s)
    | some (size, _) ↦
        if ltb size (length i.pixels)
        then (err ("Error in write to video memory" ∷ []), s)
        else (if flushed
            then (ok tt, record s { export_video_mmap = some (size, i.pixels) })
            else (err ("Cannot flush video memory" ∷ []), s))
  ]

  -- What the encoder makes of it; a raw image that is exported goes without its pixels.
  encoded : Image → Io (Grab V) (List (Option ServerEvent))
  unfolding raw_message
  encoded i s = elim (c.encode_image s.video_encoder i s.img_count) [
    | none ↦ (panic "called `Result::unwrap()` on an `Err` value", s)
    | some (packet, v) ↦ (
      ok (
          if c.is_raw v
          then raw_message (elim s.export_video_mmap [ none ↦ packet | some _ ↦ [] ]) i.width
              i.height i.bytes_per_line
          else (some (
                ServerEvent.img_encoded
                  (record { packet = packet; width = i.width; height = i.height }))
              ∷ [])),
      record s { video_encoder = v },
    )
  ]

  extract : (flushed : Bool) → Io (Grab V) (List (Option ServerEvent))
  unfolding grab export_video encoded
  extract flushed = do i ← grab; export_video flushed i; encoded i

  pub generate_encoded_img : (flushed : Bool) → Io (Grab V) (List (Option ServerEvent))
  unfolding extract raw_message
  generate_encoded_img flushed s =
      if ltb s.max_stall_img s.frozen_frames_count
      then (ok [], s)
      else if s.avoid_img_extraction
      then (ok (raw_message [] s.width s.height (s.width * 4 % 2 ^ 32)), s)
      else extract flushed s
