-- ===== src/Server/Poll/Report.antt =====
-- What a poll reports, and how it counts frozen frames.
use sanzu.Prelude.{
  ℕ, ◌+◌, ◌%◌, ◌^◌, ◌≡◌, refl, ap₂, ◌∙◌, Bool, true, false, ◌||◌, List, [], ◌∷◌, ◌++◌, Option, some,
  ap, All, arith, if◌then◌else◌,
}
use sanzu.Prelude.Bytes.{LittleEndian}
use sanzu.Outcome.{ok}
use sanzu.Messages.Server.{ServerEvent}
use sanzu.Server.Areas.{XServer}
use sanzu.Server.Poll.Waiting.{waiting, pending-eq}
use sanzu.Server.Poll.{
  begin_poll, count_frame, XEvent, CursorReply, ServerX11, Queued, add_unknown, handle_cursor,
  handle_event, handle_events, poll_events, cursor_bytes,
}

-- The pixels of a cursor, four bytes each.
abbrev pub pixel_bytes : LittleEndian → List ℕ → List ℕ
pixel_bytes b [] = []
pixel_bytes b (pixel ∷ pixels) = b.write_u32 pixel ++ pixel_bytes b pixels

pixel_bytes-eq : (b : LittleEndian) (pixels : List ℕ) → cursor_bytes b pixels ≡ pixel_bytes b pixels
unfolding cursor_bytes
pixel_bytes-eq b [] = refl
pixel_bytes-eq b (pixel ∷ pixels) = ap (◌++◌ (b.write_u32 pixel)) (pixel_bytes-eq b pixels)

-- The cursor images among the events, as messages in their order.
abbrev pub cursor_messages : LittleEndian → List XEvent → List (Option ServerEvent)
cursor_messages b [] = []
cursor_messages b
      (XEvent.cursor_notify (CursorReply.image pixels width height xhot yhot) ∷ events) =
    some (
      ServerEvent.cursor (record {
        pixels = pixel_bytes b pixels;
        width = width;
        height = height;
        xhot = xhot;
        yhot = yhot;
      }))
    ∷ cursor_messages b events
cursor_messages b (_ ∷ events) = cursor_messages b events

-- Whether the screen was damaged.
abbrev pub damaged : List XEvent → Bool
damaged [] = false
damaged (XEvent.damage_notify ∷ events) = true
damaged (_ ∷ events) = damaged events

-- The X server answers: neither the connection nor the reply with a cursor is lost.
abbrev pub Answered : XEvent → Type 0
Answered XEvent.poll_failed = ⊥
Answered (XEvent.cursor_notify CursorReply.no_reply) = ⊥
Answered _ = Unit

add_unknown-modified_img :
    (x : XServer) (window : ℕ) (s : ServerX11)
    → (add_unknown x window s).modified_img ≡ s.modified_img
unfolding add_unknown
add_unknown-modified_img x window s = ground arith

record Handled (b : LittleEndian) (events : List XEvent) (s : ServerX11) : Type 0 where
  after : ServerX11
  reported : handle_events b events s ≡ (ok (cursor_messages b events), after)
  image : after.modified_img ≡ (damaged events || s.modified_img)
  count : after.frozen_frames_count ≡ s.frozen_frames_count

Or-true : (b : Bool) → (b || true) ≡ true
Or-true true = refl
Or-true false = refl

Or-false : (b : Bool) → (b || false) ≡ b
Or-false true = refl
Or-false false = refl

-- One event before the others.
Handled-step :
    {b : LittleEndian} {events : List XEvent} (event : XEvent) (s t : ServerX11)
    (pushed : List (Option ServerEvent))
    → handle_event b event s ≡ (ok pushed, t)
    → pushed ++ cursor_messages b events ≡ cursor_messages b (event ∷ events)
    → (damaged events || t.modified_img) ≡ (damaged (event ∷ events) || s.modified_img)
    → t.frozen_frames_count ≡ s.frozen_frames_count
    → Handled b events t
    → Handled b (event ∷ events) s
unfolding handle_events
Handled-step event s t pushed e messages image count r = record {
  after = r.after;
  reported = rw (e, r.reported, messages);
  image = r.image ∙ image;
  count = r.count ∙ count;
}

-- A change of the screen's areas pushes nothing.
Handled-screen :
    {b : LittleEndian} {events : List XEvent} (event : XEvent) (s t : ServerX11)
    → handle_event b event s ≡ (ok [], t)
    → [] ++ cursor_messages b events ≡ cursor_messages b (event ∷ events)
    → damaged events ≡ damaged (event ∷ events)
    → t.modified_img ≡ s.modified_img
    → t.frozen_frames_count ≡ s.frozen_frames_count
    → Handled b events t
    → Handled b (event ∷ events) s
Handled-screen event s t e messages image same count r =
    Handled-step event s t [] e messages (ap₂ ◌||◌ image same) count r

add_unknown-frozen :
    (x : XServer) (window : ℕ) (s : ServerX11)
    → (add_unknown x window s).frozen_frames_count ≡ s.frozen_frames_count
unfolding add_unknown
add_unknown-frozen x window s = ground arith

handle_events-Handled :
    (b : LittleEndian) (events : List XEvent) (s : ServerX11)
    → All Answered events
    → Handled b events s
unfolding handle_events handle_event handle_cursor
handle_events-Handled b [] s h = record { after = s; reported = refl; image = refl; count = refl }
handle_events-Handled b (XEvent.cursor_notify CursorReply.no_request ∷ events) s h =
    Handled-screen _ s s refl refl refl refl refl (handle_events-Handled b events s h.1)
handle_events-Handled b (XEvent.cursor_notify CursorReply.no_reply ∷ events) s h = absurd (h.0)
handle_events-Handled b (XEvent.cursor_notify (CursorReply.image p w hh xh yh) ∷ events) s h =
    Handled-step _ s s _ refl
      (ap
        (λ bytes.
          some (
            ServerEvent.cursor
              (record { pixels = bytes; width = w; height = hh; xhot = xh; yhot = yh }))
          ∷ cursor_messages b events)
        (pixel_bytes-eq b p))
      refl refl (handle_events-Handled b events s h.1)
handle_events-Handled b (XEvent.damage_notify ∷ events) s h =
    Handled-step _ s (record s { modified_img = true }) [] refl refl (Or-true (damaged events)) refl
      (handle_events-Handled b events (record s { modified_img = true }) h.1)
handle_events-Handled b (XEvent.map_notify x window ∷ events) s h =
    Handled-screen _ s _ refl refl refl (add_unknown-modified_img x window s)
      (add_unknown-frozen x window s) (handle_events-Handled b events _ h.1)
handle_events-Handled b (XEvent.create_notify x window ∷ events) s h =
    Handled-screen _ s _ refl refl refl refl refl (handle_events-Handled b events _ h.1)
handle_events-Handled b (XEvent.reparent_notify window parent ∷ events) s h =
    Handled-screen _ s _ refl refl refl refl refl (handle_events-Handled b events _ h.1)
handle_events-Handled b (XEvent.destroy_notify window ∷ events) s h =
    Handled-screen _ s _ refl refl refl refl refl (handle_events-Handled b events _ h.1)
handle_events-Handled b (XEvent.unmap_notify window ∷ events) s h =
    Handled-screen _ s _ refl refl refl refl refl (handle_events-Handled b events _ h.1)
handle_events-Handled b (XEvent.configure_notify window x y w hh ∷ events) s h =
    Handled-screen _ s _ refl refl refl refl refl (handle_events-Handled b events _ h.1)
handle_events-Handled b (XEvent.client_message ∷ events) s h =
    Handled-screen _ s _ refl refl refl refl refl (handle_events-Handled b events _ h.1)
handle_events-Handled b (XEvent.ignored ∷ events) s h =
    Handled-screen _ s s refl refl refl refl refl (handle_events-Handled b events s h.1)
handle_events-Handled b (XEvent.poll_failed ∷ events) s h = absurd (h.0)

-- If the X server answers, a poll reports the cursor images of its events in order, then the last
-- text of the clipboard that waits, if any, one message for every area that is left after the
-- events, with its number, place, size and name, then one for every file to print and for every
-- list of notifications that waits, in their order; the frames without a change of the image count
-- from 0 again if there was damage, and else go up by one (on 32 bits).
pub poll_events-reports :
    (b : LittleEndian) (events : List XEvent) (q : Queued) (s : ServerX11)
    → All Answered events
    → (t : ServerX11) × (poll_events b true events q s
        ≡ (ok (cursor_messages b events ++ waiting q t.screen.areas), t))
      × (t.frozen_frames_count
          ≡ (if damaged events then 0 else (s.frozen_frames_count + 1) % 2 ^ 32))
unfolding poll_events begin_poll count_frame
poll_events-reports b events q s h =
    let r = handle_events-Handled b events (begin_poll s) h in
    let image = r.image ∙ Or-false (damaged events) in
    (count_frame r.after, rw (r.reported, pending-eq q r.after.screen.areas), rw (image, r.count))
