-- ===== src/Server/Image/One.antt =====
-- The image that a frame is sent as.
use sanzu.Prelude.{
  ℕ, ◌≡◌, ◌≤◌, ◌<◌, ◌⊎◌, ltb→lt, ap₂, refl, Bool, List, [], ◌∷◌, Option, some, ltb, if-cases,
  Option-cases, inl, inr, arith,
}
use sanzu.Outcome.{Outcome, ok, err, panic, Yields, Yields-bind, Yields-then, Yields-map}
use sanzu.Messages.Server.{ServerEvent}
use sanzu.Xwd.{Image, get_xwd_data}
use sanzu.Server.Image.{
  VideoEncoder, Grab, grab, grabbed, export_video, encoded, extract, raw_message,
  generate_encoded_img,
}

-- The size of an image, raw or encoded.
abbrev pub image_size : Option ServerEvent → List (ℕ × ℕ)
image_size (some (ServerEvent.img_raw img)) = (img.width, img.height) ∷ []
image_size (some (ServerEvent.img_encoded img)) = (img.width, img.height) ∷ []
image_size _ = []

-- Exactly one image, of this size.
abbrev pub OneImage : (width height : ℕ) → List (Option ServerEvent) → Type 0
OneImage width height [] = ⊥
OneImage width height (m ∷ []) = image_size m ≡ (width, height) ∷ []
OneImage width height (_ ∷ _ ∷ _) = ⊥

-- No image of a screen that has not changed for long, and one of any other.
abbrev pub Sent : {V : Type 0} → Grab V → List (Option ServerEvent) → Type 0
Sent s events =
    ((s.max_stall_img < s.frozen_frames_count) × (events ≡ []))
    ⊎ ((s.frozen_frames_count ≤ s.max_stall_img) × OneImage s.width s.height events)

module _ {V : Type 0} (c : VideoEncoder V) (read_u32 : List ℕ → ℕ) where
  abbrev HasSize : ℕ → ℕ → Image → Type 0
  HasSize width height i = (i.width ≡ width) × (i.height ≡ height)

  grabbed-HasSize :
      (x : Outcome Image) (width height : ℕ) (s : Grab V)
      → Yields (HasSize width height) (grabbed c read_u32 x width height, s)
  unfolding grabbed
  grabbed-HasSize (ok x) width height s = (refl, refl)
  grabbed-HasSize (err chain) width height s = tt
  grabbed-HasSize (panic why) width height s = tt

  grab-HasSize : (s : Grab V) → Yields (HasSize s.width s.height) (grab c read_u32 s)
  unfolding grab
  grab-HasSize s = elim (Option-cases s.extern_img_source_mmap) [
    | inl screen ↦ rw (screen, Yields, grab) (refl, refl)
    | inr (file, given) ↦
        rw (given, grab) (grabbed-HasSize (get_xwd_data read_u32 file) s.width s.height s)
  ]

  encoded-OneImage :
      (i : Image) (width height : ℕ) (s : Grab V)
      → HasSize width height i
      → Yields (OneImage width height) (encoded c read_u32 i s)
  unfolding encoded raw_message
  encoded-OneImage i width height s h =
      elim (Option-cases (c.encode_image s.video_encoder i s.img_count)) [
        | inl failed ↦ rw (failed, Yields, encoded) tt
        | inr ((packet, v), e) ↦
            rw (e, Yields, encoded)
              (if-cases (OneImage width height) (c.is_raw v) _ _
                (λ _. ap₂ (λ w h. (w, h) ∷ []) h.0 h.1) (λ _. ap₂ (λ w h. (w, h) ∷ []) h.0 h.1))
      ]

  extract-OneImage :
      (flushed : Bool) (s : Grab V)
      → Yields (OneImage s.width s.height) (extract c read_u32 flushed s)
  unfolding extract
  extract-OneImage flushed s =
      Yields-bind (HasSize s.width s.height) (OneImage s.width s.height) (grab c read_u32) _ s
        (grab-HasSize s)
        λ i t size.
          Yields-then (OneImage s.width s.height) (export_video c read_u32 flushed i) _ t
            λ _ u. encoded-OneImage i s.width s.height u size

  -- A frame is sent as exactly one image, raw or encoded, of the size of the screen; as none if the
  -- screen has been as it is for longer than the limit. (Said of a frame on which nothing fails.)
  pub generate_encoded_img-OneImage :
      (flushed : Bool) (s : Grab V) → Yields (Sent s) (generate_encoded_img c read_u32 flushed s)
  unfolding generate_encoded_img raw_message
  generate_encoded_img-OneImage flushed s =
      if-cases (Yields (Sent s)) (ltb s.max_stall_img s.frozen_frames_count) _ _
        (λ stalled. inl (ltb→lt _ _ stalled, refl))
        (λ moving.
          if-cases (Yields (Sent s)) s.avoid_img_extraction _ _
            (λ _. inr (ground (arith, moving), refl))
            (λ _.
              Yields-map (OneImage s.width s.height) (Sent s) (extract c read_u32 flushed s)
                (λ events one. inr (ground (arith, moving), one)) (extract-OneImage flushed s)))
