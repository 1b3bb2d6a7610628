-- ===== src/Server/Poll/Invariant.antt =====
-- Polling keeps the areas well formed, also when it fails on the way.
use sanzu.Prelude.{◌≡◌, refl, Bool, true, false, List, [], ◌∷◌, inl, inr, Option-cases, ℕ}
use sanzu.Prelude.Bytes.{LittleEndian}
use sanzu.Outcome.{continue-keeps}
use sanzu.Server.Areas.{XServer, find_first}
use sanzu.Server.Areas.WellFormed.{
  IsWellFormed, create_area-IsWellFormed, destroy_area-IsWellFormed, reparent_window-IsWellFormed,
  map_area-IsWellFormed, update_area-IsWellFormed,
}
use sanzu.Server.Poll.{
  begin_poll, XEvent, CursorReply, ServerX11, Queued, add_unknown, handle_cursor, handle_event,
  handle_events, poll_events,
}

add_unknown-IsWellFormed :
    (x : XServer) (window : ℕ) (s : ServerX11)
    → IsWellFormed s.screen
    → IsWellFormed (add_unknown x window s).screen
unfolding add_unknown
add_unknown-IsWellFormed x window s v = elim (Option-cases (find_first window s.screen.areas)) [
  | inl unknown ↦ rw (unknown, add_unknown) (create_area-IsWellFormed x window s.screen v)
  | inr (i, known) ↦ rw (known, add_unknown) v
]

handle_cursor-screen :
    (b : LittleEndian) (reply : CursorReply) (s : ServerX11) → (handle_cursor b reply s).1 ≡ s
unfolding handle_cursor
handle_cursor-screen b CursorReply.no_request s = refl
handle_cursor-screen b CursorReply.no_reply s = refl
handle_cursor-screen b (CursorReply.image pixels width height xhot yhot) s = refl

handle_event-IsWellFormed :
    (b : LittleEndian) (event : XEvent) (s : ServerX11)
    → IsWellFormed s.screen
    → IsWellFormed (handle_event b event s).1.screen
unfolding handle_event
handle_event-IsWellFormed b (XEvent.cursor_notify reply) s v = rw (handle_cursor-screen b reply s) v
handle_event-IsWellFormed b (XEvent.create_notify x window) s v =
    create_area-IsWellFormed x window s.screen v
handle_event-IsWellFormed b (XEvent.map_notify x window) s v =
    map_area-IsWellFormed window true (add_unknown x window s).screen
      (add_unknown-IsWellFormed x window s v)
handle_event-IsWellFormed b (XEvent.reparent_notify window parent) s v =
    reparent_window-IsWellFormed window parent s.screen v
handle_event-IsWellFormed b (XEvent.destroy_notify window) s v =
    destroy_area-IsWellFormed window s.screen v
handle_event-IsWellFormed b (XEvent.unmap_notify window) s v =
    map_area-IsWellFormed window false s.screen v
handle_event-IsWellFormed b (XEvent.configure_notify window x y width height) s v =
    update_area-IsWellFormed window x y width height s.screen v
handle_event-IsWellFormed b _ s v = v

handle_events-IsWellFormed :
    (b : LittleEndian) (events : List XEvent) (s : ServerX11)
    → IsWellFormed s.screen
    → IsWellFormed (handle_events b events s).1.screen
unfolding handle_events
handle_events-IsWellFormed b [] s v = v
handle_events-IsWellFormed b (event ∷ events) s v =
    continue-keeps (λ t. IsWellFormed t.screen) (handle_event b event s).0 _
      (handle_event b event s).1 (handle_event-IsWellFormed b event s v)
      (λ pushed.
        let t = (handle_event b event s).1 in
        continue-keeps (λ u. IsWellFormed u.screen) (handle_events b events t).0 _
          (handle_events b events t).1
          (handle_events-IsWellFormed b events t (handle_event-IsWellFormed b event s v))
          (λ later. handle_events-IsWellFormed b events t (handle_event-IsWellFormed b event s v)))

-- Polling keeps the areas well formed (no key twice, no window twice, never the root window),
-- whatever events and answers come from the X server, and also when polling fails on the way.
pub poll_events-IsWellFormed :
    (b : LittleEndian) (flushed : Bool) (events : List XEvent) (q : Queued) (s : ServerX11)
    → IsWellFormed s.screen
    → IsWellFormed (poll_events b flushed events q s).1.screen
unfolding poll_events
poll_events-IsWellFormed b true events q s v =
    let t = handle_events b events (begin_poll s) in
    let w = handle_events-IsWellFormed b events (begin_poll s) v in
    continue-keeps (λ u. IsWellFormed u.screen) t.0 _ t.1 w (λ pushed. w)
poll_events-IsWellFormed b false events q s v = v
