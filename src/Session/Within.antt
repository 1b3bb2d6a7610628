-- ===== src/Session/Within.antt =====
-- The sizes that a client decodes and shows are within the limits.
use sanzu.Prelude.{
  ℕ, ◌*◌, length, ◌≤◌, ◌≡◌, refl, ◌||◌, not, Bool, true, false, if-cases, ltb, ◌==◌, List, [], ◌∷◌,
  Option, none, some, arith,
}
use sanzu.Outcome.{Outcome, ok, err, panic, Io, continue, ◌>>=◌, bind-keeps}
use sanzu.Messages.Server.{ServerEvent, ImageRaw, ImageEncoded, EventCursor, EventAreaUpdt}
use sanzu.Messages.Client.{ClientEvent}
use sanzu.Proto.Events.{Wire}
use sanzu.Session.{tell_server}
use sanzu.Session.Server.{word16}
use sanzu.Session.Viewing.{
  put_image, put_line, step, on_window, on_stream, checked_size, view_encoded, take_raw, view_raw,
  play, show_cursor, note_area, view_message, view_messages, reloaded, fit_decoder, paint,
  show_data, show_decoded, decode, show_image, show_todo, poll, tell, hear, update_window, view_all,
  view_turn,
}
use sanzu.Session.Viewer.{Viewer, Viewing, Source, cursor_fits, check_img_size}
use sanzu.Xwd.{max_window_width, max_window_height, max_bytes_per_line}

abbrev pub IsSmall : ℕ × ℕ → Type 0
IsSmall size = (size.0 ≤ max_window_width) × (size.1 ≤ max_window_height)

abbrev pub SmallImage : Option (List ℕ × ℕ × ℕ) → Type 0
SmallImage none = Unit
SmallImage (some (packet, width, height)) = IsSmall (width, height)

abbrev pub SmallLine : Option ℕ → Type 0
SmallLine none = Unit
SmallLine (some bytes) = bytes ≤ max_bytes_per_line

module _ {C D U : Type 0} where
  pub record Within (s : Viewing C D U) : Type 0 where
    pub size_small : IsSmall s.img_size
    pub image_small : SmallImage s.img_todo
    pub line_small : SmallLine s.img_bytes_per_line

  still :
      (s t : Viewing C D U)
      → s.img_size ≡ t.img_size
      → s.img_todo ≡ t.img_todo
      → s.img_bytes_per_line ≡ t.img_bytes_per_line
      → Within s
      → Within t
  still s t size todo line h = record {
    size_small = rw (size) at h.size_small;
    image_small = rw (todo) at h.image_small;
    line_small = rw (line) at h.line_small;
  }

  module _ (w : Wire) (v : Viewer C D U) (source : Source) where
    checked-Within :
        {A : Type 0} (width height : ℕ) (f : ℕ × ℕ → Io (Viewing C D U) A) (s : Viewing C D U)
        → Within s
        → ((size : ℕ × ℕ) (t : Viewing C D U) → IsSmall size → Within t → Within (f size t).1)
        → Within ((checked_size w v source width height >>= f) s).1
    unfolding checked_size on_stream check_img_size tell_server
    checked-Within width height f s h k =
        if-cases
          (λ (r : Outcome (ℕ × ℕ)).
            Within
              (continue (tell_server w r s.stream).0 f
                (record s { stream = (tell_server w r s.stream).1 })).1)
          (ltb max_window_width width || ltb max_window_height height) _ _
          (λ big. still s _ refl refl refl h) (λ fits. k (width, height) s (ground (arith, fits)) h)

    put_line-Within : (bytes : ℕ) (s : Viewing C D U) → Within s → Within (put_line bytes s).1
    unfolding put_line
    put_line-Within bytes s h =
        if-cases (λ (x : Outcome (Unit {0}) × Viewing C D U). Within x.1)
          (ltb max_bytes_per_line bytes) _ _ (λ _. h)
          (λ fits. record {
            size_small = h.size_small;
            image_small = h.image_small;
            line_small = ground (arith, fits);
          })

    put_image-Within :
        (pixels : List ℕ) (size : ℕ × ℕ) (s : Viewing C D U)
        → IsSmall size
        → Within s
        → Within (put_image pixels size s).1
    unfolding put_image
    put_image-Within pixels size s small h = record {
      size_small = h.size_small;
      image_small = small;
      line_small = h.line_small;
    }

    view_encoded-Within :
        (img : ImageEncoded) (s : Viewing C D U)
        → Within s
        → Within (view_encoded w v source img s).1
    unfolding view_encoded
    view_encoded-Within img s h =
        checked-Within img.width img.height _ s h
          (λ size t small h. put_image-Within img.packet size t small h)

    take_raw-Within :
        (img : ImageRaw) (s : Viewing C D U) → Within s → Within (take_raw w v source img s).1
    unfolding take_raw
    take_raw-Within img s h = h

    view_raw-Within :
        (img : ImageRaw) (s : Viewing C D U) → Within s → Within (view_raw w v source img s).1
    unfolding view_raw
    view_raw-Within img s h =
        bind-keeps Within (take_raw w v source img) _ s (take_raw-Within img s h) (λ taken t h.
          checked-Within img.width img.height _ t h (λ size u small h.
            bind-keeps Within (put_image taken.0 size) _ u (put_image-Within taken.0 size u small h)
              (λ _ x h. put_line-Within taken.1 x h)))

    play-Within :
        (packets : List (List ℕ)) (s : Viewing C D U)
        → Within s
        → Within (play w v source packets s)
    unfolding play
    play-Within packets s h = still s _ refl refl refl h

    show_cursor-Within :
        (c : EventCursor) (s : Viewing C D U) → Within s → Within (show_cursor w v source c s)
    unfolding show_cursor
    show_cursor-Within c s h =
        if-cases Within (cursor_fits c) _ _ (λ _. still s _ refl refl refl h) (λ _. h)

    note_area-Within :
        (a : EventAreaUpdt) (s : Viewing C D U) → Within s → Within (note_area w v source a s)
    unfolding note_area
    note_area-Within a s h = still s _ refl refl refl h

    view_message-Within :
        (msg : Option ServerEvent) (s : Viewing C D U)
        → Within s
        → Within (view_message w v source msg s).1
    unfolding view_message step
    view_message-Within (some (ServerEvent.img_encoded img)) s h = view_encoded-Within img s h
    view_message-Within (some (ServerEvent.img_raw img)) s h = view_raw-Within img s h
    view_message-Within (some (ServerEvent.sound_encoded packets)) s h = play-Within packets s h
    view_message-Within (some (ServerEvent.clipboard c)) s h = still s _ refl refl refl h
    view_message-Within (some (ServerEvent.cursor c)) s h = show_cursor-Within c s h
    view_message-Within (some (ServerEvent.area_updt a)) s h = note_area-Within a s h
    view_message-Within (some (ServerEvent.stats text)) s h = still s _ refl refl refl h
    view_message-Within none s h = h
    view_message-Within (some (ServerEvent.sound_raw bytes)) s h = h
    view_message-Within (some (ServerEvent.notifications events)) s h = h
    view_message-Within (some (ServerEvent.display event)) s h = h
    view_message-Within (some (ServerEvent.printfile path)) s h = h

    view_messages-Within :
        (msgs : List (Option ServerEvent)) (s : Viewing C D U)
        → Within s
        → Within (view_messages w v source msgs s).1
    unfolding view_messages
    view_messages-Within [] s h = h
    view_messages-Within (msg ∷ msgs) s h =
        bind-keeps Within (view_message w v source msg) _ s (view_message-Within msg s h)
          (λ _ t h. view_messages-Within msgs t h)

    word16_small : (n : ℕ) → n ≤ 8192 → word16 n ≤ 8192
    word16_small n h = omega arith

    reloaded-Within :
        (size : ℕ × ℕ) (d : Outcome D) (s : Viewing C D U)
        → IsSmall size
        → Within s
        → Within (reloaded w v source size d s).1
    unfolding reloaded
    reloaded-Within size (ok d) s small h = record {
      size_small = small;
      image_small = h.image_small;
      line_small = h.line_small;
    }
    reloaded-Within size (err chain) s small h = h
    reloaded-Within size (panic why) s small h = h

    fit_decoder-Within :
        (width height : ℕ) (s : Viewing C D U)
        → IsSmall (width, height)
        → Within s
        → Within (fit_decoder w v source width height s).1
    unfolding fit_decoder
    fit_decoder-Within width height s small h =
        if-cases (λ (x : Outcome (Unit {0}) × Viewing C D U). Within x.1)
          (not (s.img_size.0 == word16 width) || not (s.img_size.1 == word16 height)) _ _
          (λ _.
            reloaded-Within (word16 width, word16 height) (v.reload s.decoder) s
              (word16_small width small.0, word16_small height small.1) h)
          (λ _. h)

    paint-Within :
        (pixels : List ℕ) (s : Viewing C D U) → Within s → Within (paint w v source pixels s).1
    unfolding paint on_window
    paint-Within pixels s h =
        if-cases (λ (x : Outcome (Unit {0}) × Viewing C D U). Within x.1)
          (ltb (length pixels) (s.img_size.0 * s.img_size.1 * 4)) _ _ (λ _. h)
          (λ _. still s _ refl refl refl h)

    show_data-Within :
        (pixels : Option (List ℕ)) (s : Viewing C D U)
        → Within s
        → Within (show_data w v source pixels s).1
    unfolding show_data
    show_data-Within none s h = h
    show_data-Within (some pixels) s h = paint-Within _ _ (still s _ refl refl refl h)

    show_decoded-Within :
        (updated : Bool) (s : Viewing C D U)
        → Within s
        → Within (show_decoded w v source updated s).1
    unfolding show_decoded
    show_decoded-Within false s h = h
    show_decoded-Within true s h = show_data-Within (v.data_rgba s.decoder) s h

    decode-Within :
        (packet : List ℕ) (s : Viewing C D U) → Within s → Within (decode w v source packet s).1
    unfolding decode
    decode-Within packet s h = show_decoded-Within _ _ (still s _ refl refl refl h)

    show_image-Within :
        (todo : Option (List ℕ × ℕ × ℕ)) (s : Viewing C D U)
        → SmallImage todo
        → Within s
        → Within (show_image w v source todo s).1
    unfolding show_image
    show_image-Within none s small h = h
    show_image-Within (some (packet, width, height)) s small h =
        bind-keeps Within (fit_decoder w v source width height) _ s
          (fit_decoder-Within width height s small h) (λ _ t h. decode-Within packet t h)

    show_todo-Within : (s : Viewing C D U) → Within s → Within (show_todo w v source s).1
    unfolding show_todo
    show_todo-Within s h = show_image-Within s.img_todo s h.image_small h

    update_window-Within : (s : Viewing C D U) → Within s → Within (update_window w v source s).1
    unfolding update_window on_window
    update_window-Within s h = still s _ refl refl refl h

    forget-Within : (s : Viewing C D U) → Within s → Within (record s { img_todo = none })
    forget-Within s h = record {
      size_small = h.size_small;
      image_small = tt;
      line_small = h.line_small;
    }

    view_all-Within :
        (msgs : List (Option ServerEvent)) (s : Viewing C D U)
        → Within s
        → Within (view_all w v source msgs s).1
    unfolding view_all step
    view_all-Within msgs s h =
        bind-keeps Within (view_messages w v source msgs) _ (record s { img_todo = none })
          (view_messages-Within msgs _ (forget-Within s h))
          (λ _ t h.
            bind-keeps Within (show_todo w v source) _ t (show_todo-Within t h)
              (λ _ u h. update_window-Within u h))

    poll-Within : (s : Viewing C D U) → Within s → Within (poll w v source s).1
    unfolding poll on_window
    poll-Within s h = still s _ refl refl refl h

    tell-Within :
        (events : List (Option ClientEvent)) (s : Viewing C D U)
        → Within s
        → Within (tell w v source events s).1
    unfolding tell on_stream
    tell-Within events s h = still s _ refl refl refl h

    hear-Within : (s : Viewing C D U) → Within s → Within (hear w v source s).1
    unfolding hear on_stream
    hear-Within s h = still s _ refl refl refl h

    -- In every turn of a client, whatever the server sends, and also where the turn ends in an
    -- error: the image that is to be shown and the size that the decoder works with are at most
    -- 8192 pixels wide and high, and a line has at most 32768 bytes, if they were before the turn.
    pub view_turn-Within : (s : Viewing C D U) → Within s → Within (view_turn w v source s).1
    unfolding view_turn step
    view_turn-Within s h =
        bind-keeps Within (poll w v source) _ (record s { areas = [] })
          (poll-Within _ (still s _ refl refl refl h))
          (λ events t h.
            bind-keeps Within (tell w v source events) _ t (tell-Within events t h) (λ _ u h.
              bind-keeps Within (hear w v source) _ u (hear-Within u h)
                (λ msgs x h. view_all-Within msgs x h)))
