-- ===== src/Proxy/Filtered.antt =====
-- What passes the proxy from the server to the client.
use sanzu.Prelude.{
  ℕ, ◌-◌, ◌%◌, ◌≡◌, refl, sym, ap, ap₂, ◌∙◌, String, Bool, false, List, [], ◌∷◌, ◌++◌, Option, none,
  some, All, Option-cases, inl, inr, if-cases, if◌then◌else◌, append_assoc, append-nil,
}
use sanzu.Outcome.{Io, Yields, Yields-bind, Yields-then}
use sanzu.Messages.Server.{ServerEvent, ImageRaw}
use sanzu.Messages.{EventDisplay}
use sanzu.Sound.Encoding.Pieces.{encode_sound-feed, sound_event, feed}
use sanzu.Xwd.{Image}
use sanzu.Session.Server.{of}
use sanzu.Proxy.{
  Codecs, ProxyArgs, ProxyState, relay_event, relay_image, relay_sound, relay_display, relay_stats,
  relay_message, relay_messages, relay_server, take_source, fit_encoder, encode_video, too_big,
  sound_result, samples,
}

-- What `f` finds in each message, in their order.
abbrev pub collect :
    {A : Type 0} → (Option ServerEvent → List A) → List (Option ServerEvent) → List A
collect f [] = []
collect f (m ∷ ms) = f m ++ collect f ms

-- The size of a raw image, and of an encoded one.
abbrev pub raw_size : Option ServerEvent → List (ℕ × ℕ)
raw_size (some (ServerEvent.img_raw img)) = (img.width, img.height) ∷ []
raw_size _ = []

abbrev pub encoded_size : Option ServerEvent → List (ℕ × ℕ)
encoded_size (some (ServerEvent.img_encoded img)) = (img.width, img.height) ∷ []
encoded_size _ = []

-- A message that the proxy has no reason to change.
abbrev pub other : Bool → Option ServerEvent → List ServerEvent
other no_clipboard (some (ServerEvent.cursor e)) = ServerEvent.cursor e ∷ []
other no_clipboard (some (ServerEvent.area_updt e)) = ServerEvent.area_updt e ∷ []
other no_clipboard (some (ServerEvent.notifications e)) = ServerEvent.notifications e ∷ []
other no_clipboard (some (ServerEvent.printfile e)) = ServerEvent.printfile e ∷ []
other no_clipboard (some (ServerEvent.clipboard e)) =
    if no_clipboard then [] else ServerEvent.clipboard e ∷ []
other no_clipboard _ = []

-- A message for the client: nothing raw, and the clipboard only if it is not disabled.
abbrev pub Allowed : Bool → Option ServerEvent → Type 0
Allowed no_clipboard (some (ServerEvent.img_raw img)) = ⊥
Allowed no_clipboard (some (ServerEvent.sound_raw bytes)) = ⊥
Allowed no_clipboard (some (ServerEvent.clipboard e)) = no_clipboard ≡ false
Allowed no_clipboard none = ⊥
Allowed no_clipboard _ = Unit

-- What the proxy makes of `msgs`: the images keep their sizes and their order, and so do the
-- messages that it does not change.
pub record Relayed (no_clipboard : Bool) (msgs events : List (Option ServerEvent)) : Type 0 where
  pub allowed : All (Allowed no_clipboard) events
  pub images : collect encoded_size events ≡ collect raw_size msgs
  pub kept : collect (other no_clipboard) events ≡ collect (other no_clipboard) msgs

collect-append :
    {A : Type 0} (f : Option ServerEvent → List A) (xs ys : List (Option ServerEvent))
    → collect f (xs ++ ys) ≡ collect f xs ++ collect f ys
collect-append f [] ys = refl
collect-append f (x ∷ xs) ys =
    ap (◌++◌ (f x)) (collect-append f xs ys)
    ∙ sym (append_assoc (f x) (collect f xs) (collect f ys))

Allowed-append :
    (b : Bool) (xs ys : List (Option ServerEvent))
    → All (Allowed b) xs
    → All (Allowed b) ys
    → All (Allowed b) (xs ++ ys)
Allowed-append b [] ys h k = k
Allowed-append b (x ∷ xs) ys h k = (h.0, Allowed-append b xs ys h.1 k)

-- One message before the others.
Relayed-cons :
    (b : Bool) (m : Option ServerEvent) (ms xs ys : List (Option ServerEvent))
    → Relayed b (m ∷ []) xs
    → Relayed b ms ys
    → Relayed b (m ∷ ms) (xs ++ ys)
Relayed-cons b m ms xs ys first later = record {
  allowed = Allowed-append b xs ys first.allowed later.allowed;
  images =
      collect-append encoded_size xs ys
      ∙ ap₂ ◌++◌ (first.images ∙ append-nil (raw_size m)) later.images;
  kept = collect-append (other b) xs ys ∙ ap₂ ◌++◌ (first.kept ∙ append-nil (other b m)) later.kept;
}

module _ {V E : Type 0} (c : Codecs V E) (args : ProxyArgs) where
  -- What a message of the server may lead to.
  abbrev Fine : Option ServerEvent → List (Option ServerEvent) → Type 0
  Fine m events = Relayed args.disable_server_clipboard (m ∷ []) events

  encode_video-Fine :
      (img : ImageRaw) (i : Image) (s : ProxyState V E)
      → Yields (Fine (some (ServerEvent.img_raw img))) (encode_video c args img i s)
  unfolding encode_video
  encode_video-Fine img i s = elim (Option-cases (c.encode_image s.video_encoder i s.count)) [
    | inl failed ↦ rw (failed, Yields, encode_video) tt
    | inr (r, e) ↦
        rw (e, Yields, encode_video) (record { allowed = (tt, tt); images = refl; kept = refl })
  ]

  relay_image-Fine :
      (img : ImageRaw) (s : ProxyState V E)
      → Yields (Fine (some (ServerEvent.img_raw img))) (relay_image c args img s)
  unfolding relay_image
  relay_image-Fine img s =
      Yields-then (Fine (some (ServerEvent.img_raw img))) (take_source c args img) _ s λ i t.
        if-cases
          (λ (m : Io (ProxyState V E) (List (Option ServerEvent))).
            Yields (Fine (some (ServerEvent.img_raw img))) (m t))
          (too_big i) _ _ (λ _. tt)
          (λ _.
            Yields-then (Fine (some (ServerEvent.img_raw img))) (fit_encoder c args i) _ t
              λ _ t. encode_video-Fine img i t)

  sound_event-Fine :
      (bytes : List ℕ) (packets : List (List ℕ))
      → Fine
          (some (ServerEvent.sound_raw bytes))
          (elim (sound_event c.encode packets) [ none ↦ [] | some event ↦ some event ∷ [] ])
  sound_event-Fine bytes [] = record { allowed = tt; images = refl; kept = refl }
  sound_event-Fine bytes (p ∷ ps) = record { allowed = (tt, tt); images = refl; kept = refl }

  relay_sound-Fine :
      (bytes : List ℕ) (s : ProxyState V E)
      → Yields (Fine (some (ServerEvent.sound_raw bytes))) (relay_sound c args bytes s)
  unfolding relay_sound sound_result
  relay_sound-Fine bytes s =
      let (pieces, rest, _, e) =
        encode_sound-feed c.encode s.sound_encoder (s.sound_data ++ samples c.read_i16 bytes) in
      rw (e) (sound_event-Fine bytes (feed c.encode s.sound_encoder pieces).1)

  relay_display-Fine :
      (event : EventDisplay) (s : ProxyState V E)
      → Yields (Fine (some (ServerEvent.display event))) (relay_display c args event s)
  unfolding relay_display
  relay_display-Fine event s =
      let width = event.width - event.width % 2 in
      let height = event.height - event.height % 2 in
      Yields-then (Fine (some (ServerEvent.display event)))
        (of (c.change_resolution s.video_encoder width height)) _ s
        (λ v t. record { allowed = (tt, tt); images = refl; kept = refl })

  relay_stats-Fine :
      (text : String) (s : ProxyState V E)
      → Yields (Fine (some (ServerEvent.stats text))) (relay_stats c args text s)
  unfolding relay_stats
  relay_stats-Fine text s =
      if-cases (λ events. Fine (some (ServerEvent.stats text)) events) s.encoded_video _ _
        (λ _. record { allowed = (tt, tt); images = refl; kept = refl })
        (λ _. record { allowed = tt; images = refl; kept = refl })

  relay_event-Fine :
      (event : ServerEvent) (s : ProxyState V E)
      → Yields (Fine (some event)) (relay_event c args event s)
  unfolding relay_event
  relay_event-Fine (ServerEvent.img_encoded img) s = record {
    allowed = tt;
    images = refl;
    kept = refl;
  }
  relay_event-Fine (ServerEvent.sound_encoded packets) s = record {
    allowed = tt;
    images = refl;
    kept = refl;
  }
  relay_event-Fine (ServerEvent.stats text) s = relay_stats-Fine text s
  relay_event-Fine (ServerEvent.clipboard e) s =
      if-cases (Fine (some (ServerEvent.clipboard e))) args.disable_server_clipboard _ _
        (λ on. record { allowed = tt; images = refl; kept = rw (on) refl })
        (λ off. record { allowed = (off, tt); images = refl; kept = refl })
  relay_event-Fine (ServerEvent.display event) s = relay_display-Fine event s
  relay_event-Fine (ServerEvent.img_raw img) s = relay_image-Fine img s
  relay_event-Fine (ServerEvent.sound_raw bytes) s = relay_sound-Fine bytes s
  relay_event-Fine (ServerEvent.cursor e) s = record {
    allowed = (tt, tt);
    images = refl;
    kept = refl;
  }
  relay_event-Fine (ServerEvent.area_updt e) s = record {
    allowed = (tt, tt);
    images = refl;
    kept = refl;
  }
  relay_event-Fine (ServerEvent.notifications e) s = record {
    allowed = (tt, tt);
    images = refl;
    kept = refl;
  }
  relay_event-Fine (ServerEvent.printfile e) s = record {
    allowed = (tt, tt);
    images = refl;
    kept = refl;
  }

  relay_message-Fine :
      (m : Option ServerEvent) (s : ProxyState V E) → Yields (Fine m) (relay_message c args m s)
  unfolding relay_message
  relay_message-Fine none s = record { allowed = tt; images = refl; kept = refl }
  relay_message-Fine (some event) s = relay_event-Fine event s

  relay_messages-Relayed :
      (msgs : List (Option ServerEvent)) (s : ProxyState V E)
      → Yields (Relayed args.disable_server_clipboard msgs) (relay_messages c args msgs s)
  unfolding relay_messages
  relay_messages-Relayed [] s = record { allowed = tt; images = refl; kept = refl }
  relay_messages-Relayed (m ∷ msgs) s =
      Yields-bind (Fine m) (Relayed args.disable_server_clipboard (m ∷ msgs))
        (relay_message c args m) _ s (relay_message-Fine m s)
        λ events t first.
          Yields-bind (Relayed args.disable_server_clipboard msgs)
            (Relayed args.disable_server_clipboard (m ∷ msgs)) (relay_messages c args msgs) _ t
            (relay_messages-Relayed msgs t)
            λ later u rest.
              Relayed-cons args.disable_server_clipboard m msgs events later first rest

  -- Of a turn in which nothing fails: the client gets no raw image and no raw sound, and the
  -- clipboard only if that is not disabled. It gets exactly one encoded image for each raw one, of
  -- its size and in its order, and none for those that came encoded; cursors, areas, notifications, files to print and
  -- the clipboard that passes keep their contents and their order.
  pub relay_server-Relayed :
      (msgs : List (Option ServerEvent)) (s : ProxyState V E)
      → Yields (Relayed args.disable_server_clipboard msgs) (relay_server c args msgs s)
  unfolding relay_server
  relay_server-Relayed msgs s = relay_messages-Relayed msgs (record s { encoded_video = false })
