-- ===== src/Tests/Server.antt =====
-- The results on sanzu/src/server_x11.rs at a concrete screen.
use sanzu.Prelude.{ℕ, ◌≡◌, ◌+◌, true, false, List, [], ◌∷◌, ◌++◌, some, arith}
use sanzu.Prelude.Int.{pos}
use sanzu.Outcome.{ok}
use sanzu.Server.Areas.{Area, XServer, Screen, create_area}
use sanzu.Server.Areas.WellFormed.{IsWellFormed}
use sanzu.Server.Areas.Refines.{Created}
use sanzu.Server.Areas.Operations.{Operation, perform-Refined}
use sanzu.Server.Poll.{XEvent, CursorReply, ServerX11, Queued, poll_events}
use sanzu.Server.Poll.Invariant.{poll_events-IsWellFormed}
use sanzu.Server.Poll.Report.{cursor_messages, poll_events-reports}
use sanzu.Server.Poll.Waiting.{area_messages}
use sanzu.Messages.Server.{ServerEvent}
use sanzu.Tests.Fixtures.{little}

abbrev window : ℕ → Area
window w = record {
  drawable = w;
  position = (pos 1, pos 2);
  size = (30, 40);
  mapped = false;
  is_app = true;
  name = "xterm";
}

-- The root window 1, and the windows 5 and 6.
abbrev screen : Screen
screen = record { root = 1; areas = (0, window 5) ∷ (2, window 6) ∷ [] }

screen-IsWellFormed : IsWellFormed screen
screen-IsWellFormed = record {
  distinct = (((omega arith, omega arith), tt), (tt, tt));
  no_root = (omega arith, (omega arith, tt));
}

abbrev x : XServer
x = record {
  get_geometry = λ w. some ((pos 1, pos 2), (30, 40));
  is_viewable = λ w. false;
  get_client_list = λ w. some ((w + 100) ∷ []);
  get_window_children = λ w. some (101 ∷ []);
  get_window_name = λ w. some "xterm";
}

perform-Refined_example : Created x 7 screen 7 (create_area x 7 screen)
perform-Refined_example = perform-Refined x (Operation.created 7) 7 screen screen-IsWellFormed

abbrev server : ServerX11
server = record {
  screen = screen;
  img_count = 0;
  frozen_frames_count = 4;
  modified_img = true;
  modified_area = false;
}

abbrev waiting : Queued
waiting = record { clipboard = "a" ∷ "b" ∷ []; printfiles = "f" ∷ []; notifications = [] }

abbrev events : List XEvent
events = XEvent.map_notify x 7 ∷ XEvent.cursor_notify (CursorReply.image (9 ∷ []) 1 1 0 0) ∷ []

poll_events-IsWellFormed_example :
    IsWellFormed (poll_events little true events waiting server).1.screen
poll_events-IsWellFormed_example =
    poll_events-IsWellFormed little true events waiting server screen-IsWellFormed

poll_events-reports_example :
    (t : ServerX11) × (poll_events little true events waiting server ≡ (
      ok (
          cursor_messages little events
          ++ (some (ServerEvent.clipboard (record { text = "b" }))
              ∷ (area_messages t.screen.areas ++ some (ServerEvent.printfile "f") ∷ []))),
      t,
    ))
    × (t.frozen_frames_count ≡ 5)
poll_events-reports_example = poll_events-reports little events waiting server (tt, (tt, tt))
