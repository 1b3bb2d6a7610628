-- ===== src/Client/Poll/Coalesced.antt =====
-- What a poll reports apart from keys and buttons: moves, sizes and the clipboard.
use sanzu.Prelude.{
  ◌≡◌, refl, sym, ap, ◌∙◌, ℕ, true, not, ◌||◌, ◌&&◌, List, [], ◌∷◌, ◌++◌, Option, none, some, ◌⊎◌,
  inl, inr, All, ◌==◌, if-cases, String, Option-cases,
}
use sanzu.Outcome.{Outcome, ok, continue-ok}
use sanzu.Messages.{EventDisplay}
use sanzu.Messages.Client.{EventMove, ClientEvent}
use sanzu.Client.{ClientInfo, XEvent, Polling, key_c, change, send_button, append_events}
use sanzu.Client.Poll.{
  resize, handle_event, handle_events, LockKey, LockKeyState, read_lock, sync_locks, send_locks,
}
use sanzu.Client.Poll.Framed.{
  IsInput, Framed, Framed-refl, Framed-trans, Framed-bind, append-Framed,
}
use sanzu.Client.Poll.Chord.{Chorded}
use sanzu.Client.Poll.Handlers.{press_key-Framed, release_key-Framed, enter-Framed, leave-Framed}

-- The messages of one kind, in their order.
abbrev pub moves : List (Option ClientEvent) → List EventMove
moves [] = []
moves (some (ClientEvent.move e) ∷ ms) = e ∷ moves ms
moves (_ ∷ ms) = moves ms

abbrev pub sizes : List (Option ClientEvent) → List EventDisplay
sizes [] = []
sizes (some (ClientEvent.display e) ∷ ms) = e ∷ sizes ms
sizes (_ ∷ ms) = sizes ms

abbrev pub texts : List (Option ClientEvent) → List String
texts [] = []
texts (some (ClientEvent.clipboard e) ∷ ms) = e.text ∷ texts ms
texts (_ ∷ ms) = texts ms

-- The last of the moves.
abbrev pub motion : XEvent → Option EventMove → Option EventMove
motion (XEvent.motion_notify x y) m = some (record { x = x; y = y })
motion _ m = m

abbrev pub last_motion : List XEvent → Option EventMove → Option EventMove
last_motion [] m = m
last_motion (event ∷ events) m = last_motion events (motion event m)

abbrev pub to_list {ℓ} : {A : Type ℓ} → Option A → List A
to_list none = []
to_list (some a) = a ∷ []

-- An event is a press of the key C while control, shift and alt are down in the table of the keys.
abbrev pub PressC : XEvent → Polling → Type 0
PressC (XEvent.key_press calls detail) p = (detail ≡ key_c) × Chorded p.client.keys_state
PressC _ p = ⊥

-- Some event is such a press, where the events before it lead.
abbrev pub PressesC : List XEvent → Polling → Type 0
PressesC [] p = ⊥
PressesC (event ∷ events) p = PressC event p ⊎ PressesC events (handle_event event p).1

pub inputs-only :
    (ms ns : List (Option ClientEvent))
    → All IsInput ms
    → (moves (ms ++ ns) ≡ moves ns) × (sizes (ms ++ ns) ≡ sizes ns) × (texts (ms ++ ns) ≡ texts ns)
inputs-only [] ns a = (refl, refl, refl)
inputs-only (none ∷ ms) ns a = absurd a.0
inputs-only (some (ClientEvent.move e) ∷ ms) ns a = absurd a.0
inputs-only (some (ClientEvent.key e) ∷ ms) ns a = inputs-only ms ns a.1
inputs-only (some (ClientEvent.button e) ∷ ms) ns a = inputs-only ms ns a.1
inputs-only (some (ClientEvent.clipboard e) ∷ ms) ns a = absurd a.0
inputs-only (some (ClientEvent.display e) ∷ ms) ns a = absurd a.0
inputs-only (some (ClientEvent.activate id) ∷ ms) ns a = absurd a.0
inputs-only (some (ClientEvent.keylocks e) ∷ ms) ns a = inputs-only ms ns a.1

-- The size that is to be sent is the client's, and no size only where it is still that of `c`.
abbrev pub SizedAt : ClientInfo → Option EventDisplay → (width height : ℕ) → Type 0
SizedAt c none width height = (width ≡ c.width) × (height ≡ c.height)
SizedAt c (some e) width height = (e.width ≡ width) × (e.height ≡ height)

abbrev pub Sized : ClientInfo → Polling → Type 0
Sized c p = SizedAt c p.last_resize p.client.width p.client.height

-- From one state of the poll to another, in a poll of the client `c`.
pub record Coalesced (c : ClientInfo) (move : Option EventMove) (P : Type 0) (p q : Polling)
    : Type 0 where
  pub inputs : All IsInput p.events → All IsInput q.events
  pub last : q.last_move ≡ move
  pub size : Sized c p → Sized c q
  pub config : q.client.clipboard_config ≡ p.client.clipboard_config
  pub text : q.client.clipboard_last_value ≡ p.client.clipboard_last_value
  pub trigger : q.client.clipbard_trig ≡ true → (p.client.clipbard_trig ≡ true) ⊎ P

Framed-Coalesced :
    {c : ClientInfo} {P : Type 0} {p q : Polling} → Framed P p q → Coalesced c p.last_move P p q
Framed-Coalesced f = record {
  inputs = f.inputs;
  last = f.move;
  config = f.config;
  text = f.text;
  trigger = f.trigger;
  size = λ s. rw (f.resize, f.width, f.height) s;
}

pub Coalesced-trans :
    {c : ClientInfo} {P Q R : Type 0} {p q r : Polling} {m n : Option EventMove}
    → Coalesced c m P p q
    → Coalesced c n Q q r
    → (P → R)
    → (Q → R)
    → Coalesced c n R p r
Coalesced-trans f g a b = record {
  inputs = λ i. g.inputs (f.inputs i);
  last = g.last;
  size = λ s. g.size (f.size s);
  config = g.config ∙ f.config;
  text = g.text ∙ f.text;
  trigger = λ t. elim (g.trigger t) [
    | inl e ↦ elim (f.trigger e) [ inl e ↦ inl e | inr w ↦ inr (a w) ]
    | inr w ↦ inr (b w)
  ];
}

module _ (c : ClientInfo) where
  resize-Coalesced :
      (width height : ℕ) (p : Polling) → Coalesced c p.last_move ⊥ p (resize width height p).1
  unfolding resize
  resize-Coalesced width height p =
      if-cases (λ (r : Outcome (Unit {0}) × Polling). Coalesced c p.last_move ⊥ p r.1)
        (not (width == p.client.width) || not (height == p.client.height)) _ _
        (λ _. record {
          inputs = λ i. i;
          last = refl;
          size = λ _. (refl, refl);
          config = refl;
          text = refl;
          trigger = inl;
        })
        (λ _. record {
          inputs = λ i. i;
          last = refl;
          size = λ s. s;
          config = refl;
          text = refl;
          trigger = inl;
        })

  handle_event-Coalesced :
      (event : XEvent) (p : Polling)
      → Coalesced c (motion event p.last_move) (PressC event p) p (handle_event event p).1
  unfolding handle_event send_button append_events change
  handle_event-Coalesced (XEvent.motion_notify x y) p = record {
    inputs = λ i. i;
    last = refl;
    size = λ s. s;
    config = refl;
    text = refl;
    trigger = inl;
  }
  handle_event-Coalesced (XEvent.button_press x y detail) p =
      Framed-Coalesced (append-Framed _ p (tt, tt))
  handle_event-Coalesced (XEvent.button_release x y detail) p =
      Framed-Coalesced (append-Framed _ p (tt, tt))
  handle_event-Coalesced (XEvent.key_press calls detail) p =
      Framed-Coalesced (press_key-Framed calls detail p (λ e held. (e, held)))
  handle_event-Coalesced (XEvent.key_release detail) p =
      Framed-Coalesced (release_key-Framed detail p)
  handle_event-Coalesced (XEvent.focus_in calls) p = Framed-Coalesced (enter-Framed calls p)
  handle_event-Coalesced (XEvent.focus_out calls w) p = Framed-Coalesced (leave-Framed calls w p)
  handle_event-Coalesced (XEvent.configure_notify width height) p = resize-Coalesced width height p
  handle_event-Coalesced XEvent.map_notify p = record {
    inputs = λ i. i;
    last = refl;
    size = λ s. s;
    config = refl;
    text = refl;
    trigger = inl;
  }
  handle_event-Coalesced XEvent.ignored p = Framed-Coalesced (Framed-refl p)
  handle_event-Coalesced XEvent.poll_failed p = Framed-Coalesced (Framed-refl p)

read_lock-Framed :
    {P : Type 0} (locks : LockKey → Option LockKeyState) (key : LockKey) (p : Polling)
    → Framed P p (read_lock locks key p).1
unfolding read_lock
read_lock-Framed locks key p = elim (Option-cases (locks key)) [
  | inl failed ↦ rw (failed, read_lock) (Framed-refl p)
  | inr (s, known) ↦ rw (known, read_lock) (Framed-refl p)
]

send_locks-Framed :
    {P : Type 0} (locks : LockKey → Option LockKeyState) (p : Polling)
    → Framed P p (send_locks locks p).1
unfolding send_locks append_events change
send_locks-Framed locks p = Framed-bind (read_lock locks _) _ p (read_lock-Framed locks _ p) λ _ q.
    Framed-bind (read_lock locks _) _ q (read_lock-Framed locks _ q) λ _ q.
      Framed-bind (read_lock locks _) _ q (read_lock-Framed locks _ q) λ _ q.
        Framed-trans (append-Framed _ q (tt, tt)) (record {
          inputs = λ i. i;
          move = refl;
          resize = refl;
          width = refl;
          height = refl;
          config = refl;
          text = refl;
          trigger = inl;
        })

module _ (c : ClientInfo) where
  pub handle_events-Coalesced :
      (events : List XEvent) (p q : Polling)
      → handle_events events p ≡ (ok tt, q)
      → Coalesced c (last_motion events p.last_move) (PressesC events p) p q
  unfolding handle_events
  handle_events-Coalesced [] p q e = rw (sym (ap (λ r. r.1) e)) (Framed-Coalesced (Framed-refl p))
  handle_events-Coalesced (event ∷ events) p q e =
      let first = handle_event-Coalesced c event p in
      let (_, _, rest) =
        continue-ok (handle_event event p).0 (λ _. handle_events events) (handle_event event p).1 q
          tt e in
      rw (sym first.last) (
        Coalesced-trans first (handle_events-Coalesced events (handle_event event p).1 q rest) inl
          inr)

  pub sync_locks-Coalesced :
      (locks : LockKey → Option LockKeyState) (p : Polling)
      → Coalesced c p.last_move ⊥ p (sync_locks locks p).1
  unfolding sync_locks
  sync_locks-Coalesced locks p = Framed-Coalesced (
      if-cases (λ (r : Outcome (Unit {0}) × Polling). Framed ⊥ p r.1)
        (p.client.sync_key_locks && p.client.sync_key_locks_needed) _ _
        (λ _. send_locks-Framed locks p) (λ _. Framed-refl p))
