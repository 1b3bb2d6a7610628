-- ===== src/Session/Viewing.antt =====
-- One turn of the loop of `do_run` in sanzu/src/client.rs, without the features `notify` and
-- `printfile`, which are off unless asked for. The window, the decoder and the sound are interfaces.
use sanzu.Prelude.{
  ℕ, ◌*◌, Bool, true, false, not, ◌||◌, List, [], ◌∷◌, Option, none, some, length, take, ltb, ◌==◌,
  if◌then◌else◌,
}
use mathlib.Core.Option
use sanzu.Outcome.{Outcome, ok, err, panic, Io, pure, in_context, ◌>>=◌, ◌>>◌}
use sanzu.Messages.Server.{ServerEvent, ImageRaw, ImageEncoded, EventCursor, EventAreaUpdt}
use sanzu.Messages.Client.{ClientOk, ClientEvent}
use sanzu.Proto.Stream.{Stream}
use sanzu.Proto.Events.{Wire, send_client_msg_type, recv_server_msg_type}
use sanzu.Session.{tell_server}
use sanzu.Session.Server.{word16}
use sanzu.Xwd.{max_bytes_per_line}
use sanzu.Session.Viewer.{
  Viewer, Viewing, Source, msgs_srv, check_img_size, cursor_fits, insert_area, raw_image,
}

module _ {C D U : Type 0} where
  unfoldable pub on_window : {A : Type 0} → Io C A → Io (Viewing C D U) A
  on_window m s = let (r, c) = m s.window in (r, record s { window = c })

  unfoldable pub on_stream : {A : Type 0} → Io Stream A → Io (Viewing C D U) A
  on_stream m s = let (r, t) = m s.stream in (r, record s { stream = t })

  unfoldable pub put_image : List ℕ → ℕ × ℕ → Io (Viewing C D U) (Unit {0})
  put_image pixels size s = (ok tt, record s { img_todo = some (pixels, size.0, size.1) })

  unfoldable pub put_line : ℕ → Io (Viewing C D U) (Unit {0})
  put_line bytes s =
      if ltb max_bytes_per_line bytes
      then (err ("Bytes per lines too big" ∷ []), s)
      else (ok tt, record s { img_bytes_per_line = some (word16 bytes) })

  unfoldable pub step : (Viewing C D U → Viewing C D U) → Io (Viewing C D U) (Unit {0})
  step f s = (ok tt, f s)

  module _ (w : Wire) (v : Viewer C D U) (source : Source) where
    -- A size that is too big is an error that the server is told of.
    unfoldable pub checked_size : ℕ → ℕ → Io (Viewing C D U) (ℕ × ℕ)
    unfolding on_stream check_img_size
    checked_size width height = on_stream (tell_server w (check_img_size width height))

    unfoldable pub view_encoded : ImageEncoded → Io (Viewing C D U) (Unit {0})
    view_encoded img = do size ← checked_size img.width img.height; put_image img.packet size

    unfoldable pub take_raw : ImageRaw → Io (Viewing C D U) (List ℕ × ℕ)
    unfolding raw_image
    take_raw img s = (raw_image v.read_u32 source img, s)

    unfoldable pub view_raw : ImageRaw → Io (Viewing C D U) (Unit {0})
    view_raw img = do
      (pixels, bytes) ← take_raw img
      size ← checked_size img.width img.height
      put_image pixels size
      put_line bytes

    push_all : List (List ℕ) → U → U
    push_all [] u = u
    push_all (packet ∷ packets) u = push_all packets (v.push packet u)

    unfoldable pub play : List (List ℕ) → Viewing C D U → Viewing C D U
    unfolding push_all
    play packets s = record s { sound = Option.map (push_all packets) s.sound }

    unfoldable pub show_cursor : EventCursor → Viewing C D U → Viewing C D U
    unfolding cursor_fits
    show_cursor c s =
        if cursor_fits c
        then record s {
          window =
              v.set_cursor c.pixels (c.width, c.height) (word16 c.xhot, word16 c.yhot) s.window;
        }
        else s

    unfoldable pub note_area : EventAreaUpdt → Viewing C D U → Viewing C D U
    unfolding insert_area
    note_area a s = record s {
      areas =
          insert_area
            (record {
              id = a.id;
              size = (word16 a.width, word16 a.height);
              position = (v.as_i16 a.x, v.as_i16 a.y);
              mapped = a.mapped;
              is_app = a.is_app;
              name = a.name;
            })
            s.areas;
    }

    -- One message of the server.
    unfoldable pub view_message : Option ServerEvent → Io (Viewing C D U) (Unit {0})
    view_message (some (ServerEvent.img_encoded img)) = view_encoded img
    view_message (some (ServerEvent.img_raw img)) = view_raw img
    view_message (some (ServerEvent.sound_encoded packets)) = step (play packets)
    view_message (some (ServerEvent.clipboard c)) =
        step (λ s. record s { window = v.set_clipboard c.text s.window })
    view_message (some (ServerEvent.cursor c)) = step (show_cursor c)
    view_message (some (ServerEvent.area_updt a)) = step (note_area a)
    view_message (some (ServerEvent.stats text)) = step (λ s. record s { stats = text })
    view_message _ = pure tt

    unfoldable pub view_messages : List (Option ServerEvent) → Io (Viewing C D U) (Unit {0})
    view_messages [] = pure tt
    view_messages (msg ∷ msgs) = do view_message msg; view_messages msgs

    -- Another size than before wants a new decoder.
    unfoldable pub reloaded : ℕ × ℕ → Outcome D → Io (Viewing C D U) (Unit {0})
    reloaded size (ok d) s = (ok tt, record s { decoder = d; img_size = size })
    reloaded size (err chain) s = (err ("Cannot reload decode with size" ∷ chain), s)
    reloaded size (panic why) s = (panic why, s)

    unfoldable pub fit_decoder : ℕ → ℕ → Io (Viewing C D U) (Unit {0})
    unfolding reloaded
    fit_decoder width height s =
        if not (s.img_size.0 == word16 width) || not (s.img_size.1 == word16 height)
        then reloaded (word16 width, word16 height) (v.reload s.decoder) s
        else (ok tt, s)

    -- The pixels with the statistics on them, if they are to be shown.
    unfoldable pub overlaid : Viewing C D U → List ℕ → List ℕ
    overlaid s pixels =
        if v.display_stats s.window then v.draw_text s.stats s.img_size pixels else pixels

    -- `&data_rgba[0..img_width * img_height * 4]`
    unfoldable pub paint : List ℕ → Io (Viewing C D U) (Unit {0})
    unfolding on_window
    paint pixels s =
        let size = s.img_size.0 * s.img_size.1 * 4 in
        if ltb (length pixels) size
        then (panic "range end index out of range", s)
        else in_context "Error in set_img" (on_window (v.set_img (take size pixels) s.img_size)) s

    unfoldable pub show_data : Option (List ℕ) → Io (Viewing C D U) (Unit {0})
    unfolding overlaid paint
    show_data none s = (ok tt, s)
    show_data (some pixels) s =
        paint (overlaid s pixels) (record s { decoder = v.with_data s.decoder (overlaid s pixels) })

    unfoldable pub show_decoded : Bool → Io (Viewing C D U) (Unit {0})
    show_decoded false s = (ok tt, s)
    show_decoded true s = show_data (v.data_rgba s.decoder) s

    unfoldable pub decode : List ℕ → Io (Viewing C D U) (Unit {0})
    decode packet s =
        let (updated, d) = v.decode_img s.decoder packet s.img_size s.img_bytes_per_line in
        show_decoded updated (record s { decoder = d })

    unfoldable pub show_image : Option (List ℕ × ℕ × ℕ) → Io (Viewing C D U) (Unit {0})
    show_image none = pure tt
    show_image (some (packet, width, height)) = do fit_decoder width height; decode packet

    unfoldable pub show_todo : Io (Viewing C D U) (Unit {0})
    show_todo s = show_image s.img_todo s

    unfoldable pub poll : Io (Viewing C D U) (List (Option ClientEvent))
    unfolding on_window
    poll = in_context "Error in poll_events" (on_window v.poll_events)

    unfoldable pub tell : List (Option ClientEvent) → Io (Viewing C D U) (Unit {0})
    unfolding on_stream
    tell events =
        in_context "Error in send client events"
          (on_stream (send_client_msg_type w (ClientOk.msgsclient events)))

    unfoldable pub hear : Io (Viewing C D U) (List (Option ServerEvent))
    unfolding on_stream
    hear = in_context "Error in recv MessagesSrv" (on_stream (recv_server_msg_type w msgs_srv))

    unfoldable pub update_window : Io (Viewing C D U) (Unit {0})
    unfolding on_window
    update_window s = in_context "Error in update" (on_window (v.update s.areas)) s

    -- The new areas and the image, if any, after the messages.
    unfoldable pub view_all : List (Option ServerEvent) → Io (Viewing C D U) (Unit {0})
    view_all msgs = do
      step (λ s. record s { img_todo = none })
      view_messages msgs
      show_todo
      update_window

    unfoldable pub view_turn : Io (Viewing C D U) (Unit {0})
    view_turn = do
      step (λ s. record s { areas = [] })
      events ← poll
      tell events
      msgs ← hear
      view_all msgs
