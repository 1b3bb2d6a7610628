-- ===== src/Client/Poll/Framed.antt =====
-- What the steps of `poll_events` leave alone.
use sanzu.Prelude.{
  ◌≡◌, refl, ◌∙◌, ℕ, ◌+◌, Bool, true, false, List, [], ◌∷◌, ◌++◌, Option, some, ◌⊎◌, inl, inr, All,
  length, ltb, if-cases, arith, if◌then◌else◌, String,
}
use sanzu.Outcome.{Outcome, ok, Io, ◌>>=◌, continue-keeps, continue-here}
use sanzu.Messages.Client.{ClientEvent}
use sanzu.Client.{
  ClientInfo, Calls, Polling, releases, write_key, read_key, chord, change, call, release_keys,
}

-- A message about keys or buttons.
abbrev pub IsInput : Option ClientEvent → Type 0
IsInput (some (ClientEvent.key e)) = Unit
IsInput (some (ClientEvent.button e)) = Unit
IsInput (some (ClientEvent.keylocks e)) = Unit
IsInput _ = ⊥

-- From one state of the poll to another: only messages about keys and buttons were added, the size,
-- the clipboard and the last move are as before, and the clipboard was triggered only if `P`.
pub record Framed (P : Type 0) (p q : Polling) : Type 0 where
  pub inputs : All IsInput p.events → All IsInput q.events
  pub move : q.last_move ≡ p.last_move
  pub resize : q.last_resize ≡ p.last_resize
  pub width : q.client.width ≡ p.client.width
  pub height : q.client.height ≡ p.client.height
  pub config : q.client.clipboard_config ≡ p.client.clipboard_config
  pub text : q.client.clipboard_last_value ≡ p.client.clipboard_last_value
  pub trigger : q.client.clipbard_trig ≡ true → (p.client.clipbard_trig ≡ true) ⊎ P

pub All-append :
    (ms ns : List (Option ClientEvent)) → All IsInput ms → All IsInput ns → All IsInput (ms ++ ns)
All-append [] ns a b = b
All-append (m ∷ ms) ns a b = (a.0, All-append ms ns a.1 b)

pub Framed-refl : {P : Type 0} (p : Polling) → Framed P p p
Framed-refl p = record {
  inputs = λ a. a;
  move = refl;
  resize = refl;
  width = refl;
  height = refl;
  config = refl;
  text = refl;
  trigger = inl;
}

pub Framed-trans : {P : Type 0} {p q r : Polling} → Framed P p q → Framed P q r → Framed P p r
Framed-trans f g = record {
  inputs = λ a. g.inputs (f.inputs a);
  move = g.move ∙ f.move;
  resize = g.resize ∙ f.resize;
  width = g.width ∙ f.width;
  height = g.height ∙ f.height;
  config = g.config ∙ f.config;
  text = g.text ∙ f.text;
  trigger = λ t. elim (g.trigger t) [ inl e ↦ f.trigger e | inr e ↦ inr e ];
}

pub Framed-bind :
    {A B : Type 0} {P : Type 0} (m : Io Polling A) (f : A → Io Polling B) (p : Polling)
    → Framed P p (m p).1
    → ((a : A) (q : Polling) → Framed P q (f a q).1)
    → Framed P p ((m >>= f) p).1
Framed-bind {P = P} m f p h k =
    continue-keeps (Framed P p) (m p).0 f (m p).1 h (λ a. Framed-trans h (k a (m p).1))

-- The rest starts where the step leads, with its value.
pub Framed-bind_here :
    {A B : Type 0} {P : Type 0} (m : Io Polling A) (f : A → Io Polling B) (p : Polling)
    → Framed P p (m p).1
    → ((a : A) → (m p).0 ≡ ok a → Framed P (m p).1 (f a (m p).1).1)
    → Framed P p ((m >>= f) p).1
Framed-bind_here {P = P} m f p h k =
    continue-here (Framed P p) (m p).0 f (m p).1 h (λ a e. Framed-trans h (k a e))

pub releases-IsInput : (index : ℕ) (keys : List Bool) → All IsInput (releases index keys)
unfolding releases
releases-IsInput index [] = tt
releases-IsInput index (true ∷ keys) = (tt, releases-IsInput (index + 1) keys)
releases-IsInput index (false ∷ keys) = releases-IsInput (index + 1) keys

pub release_keys-IsInput : (calls : Calls) (c : ClientInfo) → All IsInput (release_keys calls c).0
unfolding release_keys
release_keys-IsInput calls c =
    if-cases (All IsInput) calls.release_flush _ _ (λ _. releases-IsInput 0 c.keys_state) (λ _. tt)

read_key-state : (i : ℕ) (p : Polling) → (read_key i p).1 ≡ p
unfolding read_key
read_key-state i p = ground arith

module _ {P : Type 0} where
  -- Messages about keys and buttons are added.
  pub append-Framed :
      (ms : List (Option ClientEvent)) (p : Polling)
      → All IsInput ms
      → Framed P p (record p { events = p.events ++ ms })
  append-Framed ms p a = record {
    inputs = λ b. All-append p.events ms b a;
    move = refl;
    resize = refl;
    width = refl;
    height = refl;
    config = refl;
    text = refl;
    trigger = inl;
  }

  pub keys-Framed :
      (keys : List Bool) (p : Polling)
      → Framed P p (record p { client = record p.client { keys_state = keys } })
  keys-Framed keys p = record {
    inputs = λ a. a;
    move = refl;
    resize = refl;
    width = refl;
    height = refl;
    config = refl;
    text = refl;
    trigger = inl;
  }

  pub write_key-Framed : (i : ℕ) (b : Bool) (p : Polling) → Framed P p (write_key i b p).1
  unfolding write_key change
  write_key-Framed i b p =
      if-cases (λ (r : Outcome (Unit {0}) × Polling). Framed P p r.1)
        (ltb i (length p.client.keys_state)) _ _ (λ _. keys-Framed _ p) (λ _. Framed-refl p)

  pub call-Framed : (text : String) (b : Bool) (p : Polling) → Framed P p (call text b p).1
  unfolding call
  call-Framed text true p = Framed-refl p
  call-Framed text false p = Framed-refl p

  read_key-Framed : (i : ℕ) (p : Polling) → Framed P p (read_key i p).1
  read_key-Framed i p = rw (read_key-state i p) (Framed-refl p)

  pub Framed-if :
      {A : Type 0} (b : Bool) (m n : Io Polling A) (p : Polling)
      → (b ≡ true → Framed P p (m p).1)
      → (b ≡ false → Framed P p (n p).1)
      → Framed P p ((if b then m else n) p).1
  Framed-if b m n p = if-cases (λ m. Framed P p (m p).1) b m n

  pub chord-Framed : (p : Polling) → Framed P p (chord p).1
  unfolding chord
  chord-Framed p = Framed-bind (read_key _) _ p (read_key-Framed _ p) λ ctrl q.
      Framed-if ctrl _ _ q
        (λ _. Framed-bind (read_key _) _ q (read_key-Framed _ q) λ shift q.
          Framed-if shift (read_key _) _ q (λ _. read_key-Framed _ q) (λ _. Framed-refl q))
        (λ _. Framed-refl q)
