-- ===== src/Session/Viewer.antt =====
-- The window, the decoder and the state of the client of sanzu/src/client.rs, and its checks of
-- images and cursors.
use sanzu.Prelude.{
  ℕ, ◌*◌, String, Bool, not, ◌||◌, List, [], ◌∷◌, Option, none, some, length, take, ltb, ◌==◌,
  if◌then◌else◌,
}
use sanzu.Prelude.Int.{ℤ}
use sanzu.Outcome.{Outcome, ok, err, panic, Io}
use sanzu.Messages.Server.{ServerOk, ServerEvent, ImageRaw, EventCursor}
use sanzu.Messages.Client.{ClientEvent}
use sanzu.Proto.Stream.{Stream}
use sanzu.Xwd.{get_xwd_data, max_window_width, max_window_height}

abbrev pub max_cursor_width : ℕ
max_cursor_width = 1024

abbrev pub max_cursor_height : ℕ
max_cursor_height = 1024

-- `Area` of sanzu/src/client_utils.rs; a position is an `i16`, the last 16 bits of the message's.
pub record Area : Type 0 where
  pub id : ℕ
  pub size : ℕ × ℕ
  pub position : ℤ × ℤ
  pub mapped : Bool
  pub is_app : Bool
  pub name : String

-- `C`: the window, `D`: the decoder, `U`: the sound. `draw_text` writes on the pixels; `data_rgba`
-- is what the decoder has decoded, `with_data` after a text was drawn on it.
pub record Viewer (C D U : Type 0) : Type 0 where
  pub poll_events : Io C (List (Option ClientEvent))
  pub set_clipboard : String → C → C
  pub set_cursor : List ℕ → ℕ × ℕ → ℕ × ℕ → C → C
  pub display_stats : C → Bool
  pub set_img : List ℕ → ℕ × ℕ → Io C (Unit {0})
  pub update : List Area → Io C (Unit {0})
  pub reload : D → Outcome D
  pub decode_img : D → List ℕ → ℕ × ℕ → Option ℕ → Bool × D
  pub data_rgba : D → Option (List ℕ)
  pub with_data : D → List ℕ → D
  pub draw_text : String → ℕ × ℕ → List ℕ → List ℕ
  pub push : List ℕ → U → U
  pub as_i16 : ℤ → ℤ
  pub read_u32 : List ℕ → ℕ

pub record Viewing (C D U : Type 0) : Type 0 where
  pub stream : Stream
  pub window : C
  pub decoder : D
  pub sound : Option U
  pub stats : String
  pub img_size : ℕ × ℕ
  pub img_bytes_per_line : Option ℕ
  pub areas : List Area
  pub img_todo : Option (List ℕ × ℕ × ℕ)

-- Where raw images are taken from, if not from the message.
pub record Source : Type 0 where
  pub extern_img_source : Option (List ℕ)
  pub source_is_xwd : Bool

abbrev pub msgs_srv : ServerOk → Option (List (Option ServerEvent))
msgs_srv (ServerOk.msgssrv msgs) = some msgs
msgs_srv _ = none

unfoldable pub check_img_size : ℕ → ℕ → Outcome (ℕ × ℕ)
check_img_size width height =
    if ltb max_window_width width || ltb max_window_height height
    then err ("Err img too big" ∷ [])
    else ok (width, height)

-- `check_cusor_size`
unfoldable pub cursor_fits : EventCursor → Bool
cursor_fits c = not (
    ltb max_cursor_width c.width
    || ltb max_cursor_height c.height
    || ltb max_cursor_width c.xhot
    || ltb max_cursor_height c.yhot)

-- `areas.insert(id, area)`
unfoldable pub insert_area : Area → List Area → List Area
insert_area area [] = area ∷ []
insert_area area (a ∷ rest) =
    let later = insert_area area rest in if a.id == area.id then area ∷ rest else a ∷ later

unfoldable pub raw_image : (List ℕ → ℕ) → Source → ImageRaw → Outcome (List ℕ × ℕ)
raw_image read_u32 source img = elim source.extern_img_source [
  | none ↦ ok (img.pixels, img.bytes_per_line)
  | some mem ↦
      if source.source_is_xwd
      then elim (get_xwd_data read_u32 mem) [
        | ok x ↦ ok (x.pixels, x.bytes_per_line)
        | err chain ↦ err chain
        | panic why ↦ panic why
      ]
      else if ltb (length mem) (img.bytes_per_line * img.height)
      then panic "range end index out of range"
      else ok (take (img.bytes_per_line * img.height) mem, img.bytes_per_line)
]
