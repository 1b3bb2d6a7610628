-- ===== src/Session/Serving.antt =====
-- One turn of the loop of `run_server` in sanzu/src/server.rs. The graphics server, the encoder and
-- the sound are an interface, as the trait `Server` and the structs are in the source.
use sanzu.Prelude.{
  ℕ, String, Bool, true, false, not, ◌&&◌, List, [], ◌∷◌, ◌++◌, Option, none, some, ◌==◌,
  if◌then◌else◌,
}
use sanzu.Outcome.{Outcome, ok, err, panic, context, Io, pure, in_context, ◌>>=◌, ◌>>◌}
use sanzu.Messages.Server.{ServerOk, ServerEvent}
use sanzu.Messages.Client.{ClientOk, ClientEvent}
use sanzu.Proto.Stream.{Stream}
use sanzu.Proto.Events.{Wire, send_server_msg_type, recv_client_msg_type}
use sanzu.Session.Server.{ServerArgs, even}

-- `G`: the graphics server, `V`: the encoder, `U`: the sound. `handle_client_event` returns the
-- sizes of its `ResolutionChange` events.
pub record Duties (G V U : Type 0) : Type 0 where
  pub change_resolution : ℕ × ℕ → Io G (Unit {0})
  pub grab_frame : Io G (Unit {0})
  pub poll_events : Io G (List (Option ServerEvent))
  pub handle_client_event : List (Option ClientEvent) → Io G (List (ℕ × ℕ))
  pub generate_encoded_img : Io (G × V) (List (Option ServerEvent))
  pub encoder_resolution : V → ℕ × ℕ → Outcome V
  pub reload : V → Outcome V
  pub read_sound : U → U
  pub recv_events : U → List (Option ServerEvent) × U

-- What the loop keeps; `msg_stats` is what it tells of the turn before.
pub record Serving (G V U : Type 0) : Type 0 where
  pub stream : Stream
  pub graphics : G
  pub encoder : V
  pub sound : U
  pub new_size : Option (ℕ × ℕ)
  pub cur_size : Option (ℕ × ℕ)
  pub msg_stats : String

abbrev pub msgs_client : ClientOk → Option (List (Option ClientEvent))
msgs_client (ClientOk.msgsclient msgs) = some msgs
msgs_client _ = none

unfoldable pub same_size : Option (ℕ × ℕ) → ℕ × ℕ → Bool
same_size none size = false
same_size (some (w, h)) (width, height) = w == width && h == height

-- The size that the loop takes from the last change that is asked for.
unfoldable pub last_size : Option (ℕ × ℕ) → List (ℕ × ℕ) → Option (ℕ × ℕ)
last_size new [] = new
last_size new ((width, height) ∷ events) = last_size (some (even width, even height)) events

-- `break anyhow!(text)`, which forgets the chain of the error.
abbrev pub replaced : {A : Type 0} → String → Outcome A → Outcome A
replaced text (ok a) = ok a
replaced text (err chain) = err (text ∷ [])
replaced text (panic why) = panic why

abbrev pub instead : {S A : Type 0} → String → Io S A → Io S A
instead text m s = let (r, s') = m s in (replaced text r, s')

module _ {G V U : Type 0} where
  -- A step of the graphics server, and one of the stream.
  unfoldable pub on_graphics : {A : Type 0} → Io G A → Io (Serving G V U) A
  on_graphics m s = let (r, g) = m s.graphics in (r, record s { graphics = g })

  unfoldable pub on_stream : {A : Type 0} → Io Stream A → Io (Serving G V U) A
  on_stream m s = let (r, t) = m s.stream in (r, record s { stream = t })

  module _ (w : Wire) (duties : Duties G V U) (args : ServerArgs) where
    -- Is it another size, of some area, and may the server change?
    unfoldable pub wanted : Option (ℕ × ℕ) → ℕ × ℕ → Bool
    unfolding same_size
    wanted current size =
        not (same_size current size)
        && not (size.0 == 0)
        && not (size.1 == 0)
        && not args.keep_server_resolution

    -- The encoder of the new size, and the message to the client.
    unfoldable pub announce : ℕ × ℕ → Outcome V → Io (Serving G V U) (List (Option ServerEvent))
    announce size (ok v) s = (
      ok (some (ServerEvent.display (record { width = size.0; height = size.1 })) ∷ []),
      record s { encoder = v },
    )
    announce size (err chain) s = (err ("Cannot change codec resolution" ∷ chain), s)
    announce size (panic why) s = (panic why, s)

    -- After the graphics server was asked for the size.
    unfoldable pub changed :
        ℕ × ℕ → Outcome (Unit {0}) → Io (Serving G V U) (List (Option ServerEvent))
    unfolding announce
    changed size (ok _) s =
        announce size (duties.encoder_resolution s.encoder size) (record s { cur_size = some size })
    changed size (err chain) s = (ok [], s)
    changed size (panic why) s = (panic why, s)

    unfoldable pub change_size : ℕ × ℕ → Io (Serving G V U) (List (Option ServerEvent))
    unfolding changed
    change_size size s =
        let (r, g) = duties.change_resolution size s.graphics in
        changed size r (record s { graphics = g })

    unfoldable pub resize_to : Option (ℕ × ℕ) → Io (Serving G V U) (List (Option ServerEvent))
    unfolding wanted change_size
    resize_to none s = (ok [], s)
    resize_to (some size) s = if wanted s.cur_size size then change_size size s else (ok [], s)

    -- `new_size.take()` and the change.
    unfoldable pub resize : Io (Serving G V U) (List (Option ServerEvent))
    unfolding resize_to
    resize s = resize_to s.new_size (record s { new_size = none })

    -- A control message wants a new encoder.
    unfoldable pub reloaded : Outcome V → Io (Serving G V U) (Unit {0})
    reloaded (ok v) s = (ok tt, record s { encoder = v })
    reloaded (err chain) s = (err ("Cannot reload encoder in control management" ∷ chain), s)
    reloaded (panic why) s = (panic why, s)

    unfoldable pub obey : Bool → Io (Serving G V U) (Unit {0})
    unfolding reloaded
    obey false s = (ok tt, s)
    obey true s = reloaded (duties.reload s.encoder) s

    unfoldable pub pump_sound : Io (Serving G V U) (Unit {0})
    pump_sound s = (ok tt, record s { sound = duties.read_sound s.sound })

    unfoldable pub encode : Io (Serving G V U) (List (Option ServerEvent))
    encode s =
        let (r, (g, v)) = duties.generate_encoded_img (s.graphics, s.encoder) in
        (context "Error in generate_encoded_img" r, record s { graphics = g; encoder = v })

    unfoldable pub take_sound : Io (Serving G V U) (List (Option ServerEvent))
    take_sound s =
        let (events, u) = duties.recv_events s.sound in (ok events, record s { sound = u })

    abbrev pub stats_of : Serving G V U → Option ServerEvent
    stats_of s = some (ServerEvent.stats s.msg_stats)

    unfoldable pub grab : Io (Serving G V U) (Unit {0})
    unfolding on_graphics
    grab = instead "Grab fail" (on_graphics duties.grab_frame)

    unfoldable pub poll : Io (Serving G V U) (List (Option ServerEvent))
    unfolding on_graphics
    poll = instead "Poll error" (on_graphics duties.poll_events)

    unfoldable pub finish :
        (sizes polled images sounds : List (Option ServerEvent))
        → Io (Serving G V U) (List (Option ServerEvent))
    finish sizes polled images sounds s =
        (ok (sizes ++ polled ++ sounds ++ images ++ stats_of s ∷ []), s)

    -- The messages of the turn, in the order in which the client gets them: a change of the size,
    -- what the graphics server reports, sound, images and statistics.
    unfoldable pub collect :
        List (Option ServerEvent) → Io (Serving G V U) (List (Option ServerEvent))
    collect sizes = do
      pump_sound
      grab
      polled ← poll
      images ← encode
      sounds ← take_sound
      finish sizes polled images sounds

    unfoldable pub gather : Bool → Io (Serving G V U) (List (Option ServerEvent))
    gather control = do sizes ← resize; obey control; collect sizes

    unfoldable pub hand_over : List (Option ClientEvent) → Io (Serving G V U) (List (ℕ × ℕ))
    unfolding on_graphics
    hand_over msgs =
        in_context "Error in client handle events" (on_graphics (duties.handle_client_event msgs))

    unfoldable pub note_sizes : List (ℕ × ℕ) → Io (Serving G V U) (Unit {0})
    unfolding last_size
    note_sizes sizes s = (ok tt, record s { new_size = last_size s.new_size sizes })

    -- The input of the client, unless it may only look.
    unfoldable pub obey_client : List (Option ClientEvent) → Io (Serving G V U) (Unit {0})
    obey_client msgs = if args.rdonly then pure tt else do sizes ← hand_over msgs; note_sizes sizes

    unfoldable pub tell : List (Option ServerEvent) → Io (Serving G V U) (Unit {0})
    unfolding on_stream
    tell events =
        in_context "Cannot send events"
          (on_stream (send_server_msg_type w (ServerOk.msgssrv events)))

    unfoldable pub hear : Io (Serving G V U) (List (Option ClientEvent))
    unfolding on_stream
    hear = in_context "Cannot recv client msgs" (on_stream (recv_client_msg_type w msgs_client))

    -- `msg_stats = msg`, for the next turn.
    unfoldable pub note_timing : String → Io (Serving G V U) (Unit {0})
    note_timing timing s = (ok tt, record s { msg_stats = timing })

    -- A turn; `timing` is what it measures of itself.
    unfoldable pub serve_turn : (control : Bool) (timing : String) → Io (Serving G V U) (Unit {0})
    serve_turn control timing = do
      events ← gather control
      tell events
      msgs ← hear
      obey_client msgs
      note_timing timing
