-- ===== src/Session/Sized.antt =====
-- The sizes that the loop of a server asks for, and what a client is told of them.
use sanzu.Prelude.{
  ℕ, String, ◌%◌, ◌<◌, ◌≡◌, refl, Bool, true, false, if-cases, List, [], ◌∷◌, Option, none, some,
  arith,
}
use sanzu.Outcome.{Outcome, ok, err, panic, Io, bind-keeps}
use sanzu.Messages.Server.{ServerEvent}
use sanzu.Messages.Client.{ClientEvent}
use sanzu.Proto.Events.{Wire}
use sanzu.Session.Server.{ServerArgs, even}
use sanzu.Session.Serving.{
  Duties, Serving, same_size, last_size, on_graphics, on_stream, wanted, announce, changed,
  change_size, resize_to, resize, reloaded, obey, pump_sound, encode, take_sound, grab, poll,
  finish, collect, gather, hand_over, note_sizes, obey_client, tell, hear, note_timing, serve_turn,
}

-- Even in both directions, and so in an area of some size.
abbrev pub IsEven : Option (ℕ × ℕ) → Type 0
IsEven none = Unit
IsEven (some (width, height)) = (width % 2 ≡ 0) × (height % 2 ≡ 0)

abbrev pub IsArea : Option (ℕ × ℕ) → Type 0
IsArea none = Unit
IsArea (some (width, height)) = (0 < width) × (0 < height)

even-even : (n : ℕ) → even n % 2 ≡ 0
even-even n = omega arith

last_size-IsEven :
    (new : Option (ℕ × ℕ)) (sizes : List (ℕ × ℕ)) → IsEven new → IsEven (last_size new sizes)
unfolding last_size
last_size-IsEven new [] h = h
last_size-IsEven new ((width, height) ∷ sizes) h =
    last_size-IsEven (some (even width, even height)) sizes (even-even width, even-even height)

module _ {G V U : Type 0} where
  pub record Sized (s : Serving G V U) : Type 0 where
    pub new_even : IsEven s.new_size
    pub cur_even : IsEven s.cur_size
    pub cur_area : IsArea s.cur_size

  -- What leaves the sizes alone.
  still :
      (s t : Serving G V U) → s.new_size ≡ t.new_size → s.cur_size ≡ t.cur_size → Sized s → Sized t
  still s t new cur h = record {
    new_even = rw (new) at h.new_even;
    cur_even = rw (cur) at h.cur_even;
    cur_area = rw (cur) at h.cur_area;
  }

  module _ (w : Wire) (duties : Duties G V U) (args : ServerArgs) where
    announce-Sized :
        (size : ℕ × ℕ) (v : Outcome V) (s : Serving G V U)
        → Sized s
        → Sized (announce w duties args size v s).1
    unfolding announce
    announce-Sized size (ok v) s h = still s _ refl refl h
    announce-Sized size (err chain) s h = h
    announce-Sized size (panic why) s h = h

    changed-Sized :
        (size : ℕ × ℕ) (r : Outcome (Unit {0})) (s : Serving G V U)
        → IsEven (some size)
        → IsArea (some size)
        → Sized s
        → Sized (changed w duties args size r s).1
    unfolding changed
    changed-Sized size (ok _) s e a h =
        announce-Sized size (duties.encoder_resolution s.encoder size)
          (record s { cur_size = some size })
          (record { new_even = h.new_even; cur_even = e; cur_area = a })
    changed-Sized size (err chain) s e a h = h
    changed-Sized size (panic why) s e a h = h

    wanted-IsArea :
        (current : Option (ℕ × ℕ)) (size : ℕ × ℕ)
        → wanted w duties args current size ≡ true
        → IsArea (some size)
    unfolding wanted same_size
    wanted-IsArea current (width, height) h = ground (arith, h)

    resize_to-Sized :
        (new : Option (ℕ × ℕ)) (s : Serving G V U)
        → IsEven new
        → Sized s
        → Sized (resize_to w duties args new s).1
    unfolding resize_to change_size
    resize_to-Sized none s e h = h
    resize_to-Sized (some size) s e h =
        if-cases (λ (x : Outcome (List (Option ServerEvent)) × Serving G V U). Sized x.1)
          (wanted w duties args s.cur_size size) _ _
          (λ wants.
            changed-Sized size (duties.change_resolution size s.graphics).0
              (record s { graphics = (duties.change_resolution size s.graphics).1 }) e
              (wanted-IsArea s.cur_size size wants) (still s _ refl refl h))
          (λ _. h)

    reloaded-Sized :
        (r : Outcome V) (s : Serving G V U) → Sized s → Sized (reloaded w duties args r s).1
    unfolding reloaded
    reloaded-Sized (ok v) s h = still s _ refl refl h
    reloaded-Sized (err chain) s h = h
    reloaded-Sized (panic why) s h = h

    obey-Sized :
        (control : Bool) (s : Serving G V U) → Sized s → Sized (obey w duties args control s).1
    unfolding obey
    obey-Sized false s h = h
    obey-Sized true s h = reloaded-Sized (duties.reload s.encoder) s h

    resize-Sized : (s : Serving G V U) → Sized s → Sized (resize w duties args s).1
    unfolding resize
    resize-Sized s h =
        resize_to-Sized s.new_size (record s { new_size = none }) h.new_even
          (record { new_even = tt; cur_even = h.cur_even; cur_area = h.cur_area })

    pump-Sized : (s : Serving G V U) → Sized s → Sized (pump_sound w duties args s).1
    unfolding pump_sound
    pump-Sized s h = still s _ refl refl h

    grab-Sized : (s : Serving G V U) → Sized s → Sized (grab w duties args s).1
    unfolding grab on_graphics
    grab-Sized s h = still s _ refl refl h

    poll-Sized : (s : Serving G V U) → Sized s → Sized (poll w duties args s).1
    unfolding poll on_graphics
    poll-Sized s h = still s _ refl refl h

    encode-Sized : (s : Serving G V U) → Sized s → Sized (encode w duties args s).1
    unfolding encode
    encode-Sized s h = still s _ refl refl h

    take_sound-Sized : (s : Serving G V U) → Sized s → Sized (take_sound w duties args s).1
    unfolding take_sound
    take_sound-Sized s h = still s _ refl refl h

    finish-Sized :
        (sizes polled images sounds : List (Option ServerEvent)) (s : Serving G V U)
        → Sized s
        → Sized (finish w duties args sizes polled images sounds s).1
    unfolding finish
    finish-Sized sizes polled images sounds s h = h

    collect-Sized :
        (sizes : List (Option ServerEvent)) (s : Serving G V U)
        → Sized s
        → Sized (collect w duties args sizes s).1
    unfolding collect
    collect-Sized sizes s h =
        bind-keeps Sized (pump_sound w duties args) _ s (pump-Sized s h) (λ _ t h.
          bind-keeps Sized (grab w duties args) _ t (grab-Sized t h) (λ _ t h.
            bind-keeps Sized (poll w duties args) _ t (poll-Sized t h) (λ polled t h.
              bind-keeps Sized (encode w duties args) _ t (encode-Sized t h) (λ images t h.
                bind-keeps Sized (take_sound w duties args) _ t (take_sound-Sized t h)
                  (λ sounds t h. finish-Sized sizes polled images sounds t h)))))

    gather-Sized :
        (control : Bool) (s : Serving G V U) → Sized s → Sized (gather w duties args control s).1
    unfolding gather
    gather-Sized control s h =
        bind-keeps Sized (resize w duties args) _ s (resize-Sized s h) (λ sizes t h.
          bind-keeps Sized (obey w duties args control) _ t (obey-Sized control t h)
            (λ _ t h. collect-Sized sizes t h))

    hand_over-Sized :
        (msgs : List (Option ClientEvent)) (s : Serving G V U)
        → Sized s
        → Sized (hand_over w duties args msgs s).1
    unfolding hand_over on_graphics
    hand_over-Sized msgs s h = still s _ refl refl h

    note_sizes-Sized :
        (sizes : List (ℕ × ℕ)) (s : Serving G V U)
        → Sized s
        → Sized (note_sizes w duties args sizes s).1
    unfolding note_sizes
    note_sizes-Sized sizes s h = record {
      new_even = last_size-IsEven s.new_size sizes h.new_even;
      cur_even = h.cur_even;
      cur_area = h.cur_area;
    }

    obey_client-Sized :
        (msgs : List (Option ClientEvent)) (s : Serving G V U)
        → Sized s
        → Sized (obey_client w duties args msgs s).1
    unfolding obey_client
    obey_client-Sized msgs s h =
        if-cases (λ (m : Io (Serving G V U) (Unit {0})). Sized (m s).1) args.rdonly _ _ (λ _. h)
          (λ _.
            bind-keeps Sized (hand_over w duties args msgs) _ s (hand_over-Sized msgs s h)
              (λ sizes t h. note_sizes-Sized sizes t h))

    tell-Sized :
        (events : List (Option ServerEvent)) (s : Serving G V U)
        → Sized s
        → Sized (tell w duties args events s).1
    unfolding tell on_stream
    tell-Sized events s h = still s _ refl refl h

    hear-Sized : (s : Serving G V U) → Sized s → Sized (hear w duties args s).1
    unfolding hear on_stream
    hear-Sized s h = still s _ refl refl h

    note_timing-Sized :
        (timing : String) (s : Serving G V U)
        → Sized s
        → Sized (note_timing w duties args timing s).1
    unfolding note_timing
    note_timing-Sized timing s h = still s _ refl refl h

    -- In every turn of a server, whatever its graphics, its encoder and the client do, and also
    -- where the turn ends in an error: the size that is to be set next is even in both directions,
    -- and so is the size that was set last, which is not empty.
    pub serve_turn-Sized :
        (control : Bool) (timing : String) (s : Serving G V U)
        → Sized s
        → Sized (serve_turn w duties args control timing s).1
    unfolding serve_turn
    serve_turn-Sized control timing s h =
        bind-keeps Sized (gather w duties args control) _ s (gather-Sized control s h)
          (λ events t h.
            bind-keeps Sized (tell w duties args events) _ t (tell-Sized events t h) (λ _ t h.
              bind-keeps Sized (hear w duties args) _ t (hear-Sized t h) (λ msgs t h.
                bind-keeps Sized (obey_client w duties args msgs) _ t (obey_client-Sized msgs t h)
                  (λ _ t h. note_timing-Sized timing t h))))
