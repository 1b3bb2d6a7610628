-- ===== src/Session/Blind.antt =====
-- What `run_server` of sanzu/src/server.rs gathers in a turn does not depend on its stream.
use sanzu.Prelude.{
  ◌≡◌, refl, ap, ◌∙◌, ℕ, Bool, true, false, List, [], Option, if◌then◌else◌, none, some,
}
use sanzu.Outcome.{Outcome, ok, err, panic, Io, continue, ◌>>=◌, ◌>>◌}
use sanzu.Messages.Server.{ServerEvent}
use sanzu.Proto.Stream.{Stream}
use sanzu.Proto.Events.{Wire}
use sanzu.Session.Server.{ServerArgs}
use sanzu.Session.Serving.{
  Duties, Serving, wanted, announce, changed, change_size, resize_to, resize, reloaded, obey,
  pump_sound, grab, poll, encode, take_sound, finish, collect, gather,
}

module _ {G V U : Type 0} where
  abbrev pub at : Stream → Serving G V U → Serving G V U
  at u s = record s { stream = u }

  -- A step that goes the same way with another stream.
  abbrev Blind : {A : Type 0} → Io (Serving G V U) A → Type 0
  Blind m = (u : Stream) (s : Serving G V U) → m (at u s) ≡ ((m s).0, at u (m s).1)

  continue-Blind :
      {A B : Type 0} (r : Outcome A) (f : A → Io (Serving G V U) B) (u : Stream) (s : Serving G V U)
      → ((a : A) → Blind (f a))
      → continue r f (at u s) ≡ ((continue r f s).0, at u (continue r f s).1)
  continue-Blind (ok a) f u s k = k a u s
  continue-Blind (err chain) f u s k = refl
  continue-Blind (panic why) f u s k = refl

  Blind-bind :
      {A B : Type 0} (m : Io (Serving G V U) A) (f : A → Io (Serving G V U) B)
      → Blind m
      → ((a : A) → Blind (f a))
      → Blind (m >>= f)
  Blind-bind m f h k u s =
      ap (λ r. continue r.0 f r.1) (h u s) ∙ continue-Blind (m s).0 f u (m s).1 k

  module _ (w : Wire) (duties : Duties G V U) (args : ServerArgs) where
    announce-Blind : (size : ℕ × ℕ) (r : Outcome V) → Blind (announce w duties args size r)
    unfolding announce
    announce-Blind size (ok v) u s = refl
    announce-Blind size (err chain) u s = refl
    announce-Blind size (panic why) u s = refl

    changed-Blind : (size : ℕ × ℕ) (r : Outcome (Unit {0})) → Blind (changed w duties args size r)
    unfolding changed
    changed-Blind size (ok _) u s =
        announce-Blind size (duties.encoder_resolution s.encoder size) u
          (record s { cur_size = some size })
    changed-Blind size (err chain) u s = refl
    changed-Blind size (panic why) u s = refl

    change_if-Blind :
        (b : Bool) (size : ℕ × ℕ) (u : Stream) (s : Serving G V U)
        → let m = if b then change_size w duties args size s else (ok [], s) in
          (if b then change_size w duties args size (at u s) else (ok [], at u s)) ≡ (m.0, at u m.1)
    unfolding change_size
    change_if-Blind true size u s =
        let (r, g) = duties.change_resolution size s.graphics in
        changed-Blind size r u (record s { graphics = g })
    change_if-Blind false size u s = refl

    resize_to-Blind : (size : Option (ℕ × ℕ)) → Blind (resize_to w duties args size)
    unfolding resize_to
    resize_to-Blind none u s = refl
    resize_to-Blind (some size) u s =
        change_if-Blind (wanted w duties args s.cur_size size) size u s

    resize-Blind : Blind (resize w duties args)
    unfolding resize
    resize-Blind u s = resize_to-Blind s.new_size u (record s { new_size = none })

    reloaded-Blind : (r : Outcome V) → Blind (reloaded w duties args r)
    unfolding reloaded
    reloaded-Blind (ok v) u s = refl
    reloaded-Blind (err chain) u s = refl
    reloaded-Blind (panic why) u s = refl

    obey-Blind : (control : Bool) → Blind (obey w duties args control)
    unfolding obey
    obey-Blind false u s = refl
    obey-Blind true u s = reloaded-Blind (duties.reload s.encoder) u s

    -- The rest of the gathering after the encoding, the polling and the grabbing.
    abbrev after_encode :
        (sizes polled images : List (Option ServerEvent))
        → Io (Serving G V U) (List (Option ServerEvent))
    after_encode sizes polled images = do
      sounds ← take_sound w duties args
      finish w duties args sizes polled images sounds

    abbrev after_poll :
        (sizes polled : List (Option ServerEvent)) → Io (Serving G V U) (List (Option ServerEvent))
    after_poll sizes polled = do images ← encode w duties args; after_encode sizes polled images

    abbrev after_grab :
        (sizes : List (Option ServerEvent)) → Io (Serving G V U) (List (Option ServerEvent))
    after_grab sizes = do polled ← poll w duties args; after_poll sizes polled

    collect-Blind : (sizes : List (Option ServerEvent)) → Blind (collect w duties args sizes)
    unfolding collect pump_sound grab poll encode take_sound finish
    collect-Blind sizes =
        Blind-bind (pump_sound w duties args) (λ _. do grab w duties args; after_grab sizes)
          (λ u s. refl)
          λ _.
            Blind-bind (grab w duties args) (λ _. after_grab sizes) (λ u s. refl)
              λ _.
                Blind-bind (poll w duties args) (after_poll sizes) (λ u s. refl)
                  λ polled.
                    Blind-bind (encode w duties args) (after_encode sizes polled) (λ u s. refl)
                      λ images.
                        Blind-bind (take_sound w duties args)
                          (finish w duties args sizes polled images) (λ u s. refl)
                          λ sounds u s. refl

    pub gather-Blind :
        (control : Bool) (u : Stream) (s : Serving G V U)
        → gather w duties args control (at u s)
          ≡ ((gather w duties args control s).0, at u (gather w duties args control s).1)
    unfolding gather
    gather-Blind control =
        Blind-bind (resize w duties args)
          (λ sizes. do obey w duties args control; collect w duties args sizes) resize-Blind
          λ sizes.
            Blind-bind (obey w duties args control) (λ _. collect w duties args sizes)
              (obey-Blind control) λ _. collect-Blind sizes
