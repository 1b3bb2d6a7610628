-- ===== src/Session/Resized.antt =====
-- What a server tells of a change of its size, and that a read-only one ignores its client.
use sanzu.Prelude.{
  ℕ, String, ◌≡◌, refl, ap, ap₂, sym, ◌∙◌, if_true, ◌⊎◌, inl, inr, Bool, true, if-cases, List, [],
  ◌∷◌, Option, none, some, arith,
}
use mathlib.Core.Path.{fun_ext}
use sanzu.Outcome.{Outcome, ok, err, panic, Io, ◌>>=◌, ◌>>◌}
use sanzu.Messages.Server.{ServerEvent}
use sanzu.Messages.Client.{ClientEvent}
use sanzu.Proto.Events.{Wire}
use sanzu.Session.Server.{ServerArgs}
use sanzu.Session.Serving.{
  Duties, Serving, wanted, announce, changed, change_size, resize_to, resize, gather, collect, obey,
  obey_client, tell, hear, note_timing, serve_turn, pump_sound, grab, poll, encode, take_sound,
  finish, reloaded,
}

-- The message to the client.
abbrev pub display_of : ℕ × ℕ → Option ServerEvent
display_of size = some (ServerEvent.display (record { width = size.0; height = size.1 }))

module _ {G V U : Type 0} (w : Wire) (duties : Duties G V U) (args : ServerArgs) where
  -- The graphics server has the size, and the encoder is one for it.
  pub record Resized (size : ℕ × ℕ) (s t : Serving G V U) : Type 0 where
    pub graphics_changed : duties.change_resolution size s.graphics ≡ (ok tt, t.graphics)
    pub encoder_changed : duties.encoder_resolution s.encoder size ≡ ok t.encoder
    pub noted : t.cur_size ≡ some size
    pub asked : s.new_size ≡ some size

  announce-tells :
      (size : ℕ × ℕ) (v : Outcome V) (s t : Serving G V U) (events : List (Option ServerEvent))
      → announce w duties args size v s ≡ (ok events, t)
      → (events ≡ display_of size ∷ [])
        × (v ≡ ok t.encoder)
        × (t.cur_size ≡ s.cur_size)
        × (t.graphics ≡ s.graphics)
  unfolding announce
  announce-tells size (ok v) s t events e =
      (ground (arith, e), ground (arith, e), ground (arith, e), ground (arith, e))
  announce-tells size (err chain) s t events e = absurd (ground (arith, e))
  announce-tells size (panic why) s t events e = absurd (ground (arith, e))

  -- Nothing is told, and the encoder and the noted size stay; or a change is told.
  abbrev pub Told : Serving G V U → List (Option ServerEvent) → Serving G V U → Type 0
  Told s events t =
      ((events ≡ []) × (t.cur_size ≡ s.cur_size) × (t.encoder ≡ s.encoder))
      ⊎ ((size : ℕ × ℕ) × (events ≡ display_of size ∷ []) × Resized size s t)

  changed-Told :
      (size : ℕ × ℕ) (r : Outcome (Unit {0})) (g : G) (s t : Serving G V U)
      (events : List (Option ServerEvent))
      → s.new_size ≡ some size
      → duties.change_resolution size s.graphics ≡ (r, g)
      → changed w duties args size r (record s { new_size = none; graphics = g }) ≡ (ok events, t)
      → Told s events t
  unfolding changed
  changed-Told size (ok _) g s t events new called e =
      let (tells, made, noted, kept) =
        announce-tells size (duties.encoder_resolution s.encoder size)
          (record s { new_size = none; graphics = g; cur_size = some size }) t events e in
      inr (
        size,
        tells,
        record {
          graphics_changed = ground (arith, called, kept);
          encoder_changed = made;
          noted = noted;
          asked = new;
        },
      )
  changed-Told size (err chain) g s t events new called e =
      inl (ground (arith, e), ground (arith, e), ground (arith, e))
  changed-Told size (panic why) g s t events new called e = absurd (ground (arith, e))

  resize_to-Told :
      (new : Option (ℕ × ℕ)) (s t : Serving G V U) (events : List (Option ServerEvent))
      → s.new_size ≡ new
      → resize_to w duties args new (record s { new_size = none }) ≡ (ok events, t)
      → Told s events t
  unfolding resize_to change_size
  resize_to-Told none s t events new =
      λ e. inl (ground (arith, e), ground (arith, e), ground (arith, e))
  resize_to-Told (some size) s t events new =
      if-cases
        (λ (x : Outcome (List (Option ServerEvent)) × Serving G V U).
          x ≡ (ok events, t) → Told s events t)
        (wanted w duties args s.cur_size size) _ _
        (λ _ e.
          changed-Told size (duties.change_resolution size s.graphics).0
            (duties.change_resolution size s.graphics).1 s t events new refl e)
        (λ _ e. inl (ground (arith, e), ground (arith, e), ground (arith, e)))

  -- When the first step of a turn comes to an end, either it tells the client nothing, and the
  -- noted size and the encoder are as before; or it tells the one size that was asked for, and then
  -- the graphics server was changed to that size with success, the encoder is the one for it, and
  -- it is the noted size.
  pub resize-Told :
      (s t : Serving G V U) (events : List (Option ServerEvent))
      → resize w duties args s ≡ (ok events, t)
      → Told s events t
  unfolding resize
  resize-Told s t events e = resize_to-Told s.new_size s t events refl e

  module _ (f : List (Option ClientEvent) → Io G (List (ℕ × ℕ))) where
    abbrev deaf : Duties G V U
    deaf = record duties { handle_client_event = f }

    obey_client_rdonly :
        (msgs : List (Option ClientEvent))
        → args.rdonly ≡ true
        → obey_client w deaf args msgs ≡ obey_client w duties args msgs
    unfolding obey_client
    obey_client_rdonly msgs only = if_true args.rdonly _ _ only ∙ sym (if_true args.rdonly _ _ only)

    gather-deaf : (control : Bool) → gather w deaf args control ≡ gather w duties args control
    unfolding gather resize resize_to change_size changed announce obey reloaded collect pump_sound
        grab poll encode take_sound finish wanted
    gather-deaf control = refl

    -- A turn of a server that may only be looked at is the same whatever `handle_client_event` does:
    -- the client's input reaches neither the graphics server nor the size.
    pub serve_turn_rdonly :
        (control : Bool) (timing : String)
        → args.rdonly ≡ true
        → serve_turn w (record duties { handle_client_event = f }) args control timing
          ≡ serve_turn w duties args control timing
    unfolding serve_turn tell hear note_timing
    serve_turn_rdonly control timing only =
        ap
          (λ (steps : Io (Serving G V U) (List (Option ServerEvent))
              × (List (Option ClientEvent) → Io (Serving G V U) (Unit {0}))).
            do
              events ← steps.0
              tell w duties args events
              msgs ← hear w duties args
              steps.1 msgs
              note_timing w duties args timing)
          (ap₂ (λ g o. (g, o)) (gather-deaf control)
            (fun_ext (λ msgs. obey_client_rdonly msgs only)))
