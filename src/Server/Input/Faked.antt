-- ===== src/Server/Input/Faked.antt =====
-- What the X server is told of the messages of the client.
use sanzu.Prelude.{
  ℕ, ◌<◌, ◌%◌, ◌^◌, ◌≡◌, refl, sym, ap, ◌∙◌, String, Bool, true, false, List, [], ◌∷◌, ◌++◌, Option,
  none, some, All, map, ◌==◌, Bool-cases, inl, inr, if◌then◌else◌, if-cases, arith, append_assoc,
  append-nil,
}
use mathlib.Core.Path.{fun_ext}
use sanzu.Outcome.{ok, panic}
use sanzu.Messages.Client.{ClientEvent, EventKey, EventButton}
use sanzu.Client.Poll.Pressed.{press, pressed}
use sanzu.Client.Poll.Coalesced.{sizes}
use sanzu.Server.Input.{
  FakeInput, Replies, InputServer, fake_input, fake_key, fake_move, fake_button, set_clipboard,
  activate_window, set_locks, handle_message, handle_client_event,
}

-- The keys that are down after a fake input: 2 presses a key, 3 releases it.
abbrev pub fake : FakeInput → (ℕ → Bool) → ℕ → Bool
fake i down k =
    if i.event_type == 2
    then (if k == i.detail then true else down k)
    else if i.event_type == 3
    then (if k == i.detail then false else down k)
    else down k

abbrev pub faked : List FakeInput → (ℕ → Bool) → ℕ → Bool
faked [] down = down
faked (i ∷ is) down = faked is (fake i down)

-- The calls for a message succeed, and a key code is a byte.
abbrev pub Heard : Option ClientEvent × Replies → Type 0
Heard (some (ClientEvent.key e), r) = (r.faked ≡ true) × (e.keycode < 256)
Heard (some (ClientEvent.keylocks e), r) = r.locks_set ≡ true
Heard (_, r) = Unit

faked-append :
    (is js : List FakeInput) (down : ℕ → Bool) → faked (is ++ js) down ≡ faked js (faked is down)
faked-append [] js down = refl
faked-append (i ∷ is) js down = faked-append is js (fake i down)

-- The change of resolution that a message asks for.
abbrev pub changed : List (Option ClientEvent) → List (ℕ × ℕ)
changed ms = map (λ e. (e.width, e.height)) (sizes ms)

-- What one message comes to: no failure, the changes of resolution, the inputs.
record Handled (m : Option ClientEvent) (r : Replies) (s : InputServer) : Type 0 where
  after : InputServer
  inputs : List FakeInput
  result : handle_message m r s ≡ (ok (changed (m ∷ [])), after)
  asked : after.inputs ≡ s.inputs ++ inputs
  keys : (down : ℕ → Bool) → faked inputs down ≡ press m down

quiet :
    {m : Option ClientEvent} {r : Replies} {s : InputServer} (t : InputServer)
    → handle_message m r s ≡ (ok (changed (m ∷ [])), t)
    → t.inputs ≡ s.inputs
    → ((down : ℕ → Bool) → down ≡ press m down)
    → Handled m r s
quiet {s = s} t e same keys = record {
  after = t;
  inputs = [];
  result = e;
  asked = same ∙ sym (append-nil s.inputs);
  keys = keys;
}

-- A fake input that is no key, heard or not.
pointer :
    {m : Option ClientEvent} {r : Replies} {s : InputServer} (i : FakeInput)
    → handle_message m r s ≡ (ok (changed (m ∷ [])), fake_input r i s)
    → ((down : ℕ → Bool) → fake i down ≡ press m down)
    → ((down : ℕ → Bool) → down ≡ press m down)
    → Handled m r s
unfolding fake_input
pointer {m = m} {r = r} {s = s} i e keys none_keys = elim (Bool-cases r.faked) [
  | inl heard ↦ record {
    after = record s { inputs = s.inputs ++ i ∷ [] };
    inputs = i ∷ [];
    result =
        e
        ∙ ap
            (λ b.
              (ok (changed (m ∷ [])), if b then record s { inputs = s.inputs ++ i ∷ [] } else s))
            heard;
    asked = refl;
    keys = keys;
  }
  | inr lost ↦ record {
    after = s;
    inputs = [];
    result =
        e
        ∙ ap
            (λ b.
              (ok (changed (m ∷ [])), if b then record s { inputs = s.inputs ++ i ∷ [] } else s))
            lost;
    asked = sym (append-nil s.inputs);
    keys = none_keys;
  }
]

key_input : EventKey → FakeInput
key_input e = record {
  event_type = if e.updown then 2 else 3;
  detail = e.keycode % 256;
  x = 0;
  y = 0;
}

key_down :
    (e : EventKey) (down : ℕ → Bool) (k : ℕ)
    → e.keycode < 256
    → fake (key_input e) down k ≡ press (some (ClientEvent.key e)) down k
unfolding key_input
key_down e down k small = ground arith

button_input : EventButton → FakeInput
button_input e = record {
  event_type = if e.updown then 4 else 5;
  detail = e.button % 256;
  x = e.x % 2 ^ 16;
  y = e.y % 2 ^ 16;
}

button_down : (e : EventButton) (down : ℕ → Bool) (k : ℕ) → fake (button_input e) down k ≡ down k
unfolding button_input
button_down e down k = ground arith

set_clipboard-inputs :
    (r : Replies) (text : String) (s : InputServer) → (set_clipboard r text s).inputs ≡ s.inputs
unfolding set_clipboard
set_clipboard-inputs r text s =
    if-cases (λ (t : InputServer). t.inputs ≡ s.inputs) r.stored_clipboard _ _
      (λ _.
        if-cases (λ (t : InputServer). t.inputs ≡ s.inputs) r.stored_primary _ _ (λ _. refl)
          (λ _. refl))
      (λ _. refl)

activate_window-inputs :
    (r : Replies) (id : ℕ) (s : InputServer) → (activate_window r id s).inputs ≡ s.inputs
unfolding activate_window
activate_window-inputs r id s = refl

handle_message-Handled :
    (m : Option ClientEvent) (r : Replies) (s : InputServer) → Heard (m, r) → Handled m r s
unfolding handle_message fake_move fake_button fake_key fake_input set_locks key_input button_input
handle_message-Handled none r s h = quiet s refl refl (λ down. refl)
handle_message-Handled (some (ClientEvent.move e)) r s h =
    pointer _ refl (λ down. refl) (λ down. refl)
handle_message-Handled (some (ClientEvent.button e)) r s h =
    pointer (button_input e) refl (λ down. fun_ext (λ k. button_down e down k)) (λ down. refl)
handle_message-Handled (some (ClientEvent.key e)) r s h = record {
  after = record s { inputs = s.inputs ++ key_input e ∷ [] };
  inputs = key_input e ∷ [];
  result =
      ap
        (λ b. (
          ok (changed (some (ClientEvent.key e) ∷ [])),
          if b then record s { inputs = s.inputs ++ key_input e ∷ [] } else s,
        ))
        h.0;
  asked = refl;
  keys = λ down. fun_ext (λ k. key_down e down k h.1);
}
handle_message-Handled (some (ClientEvent.clipboard e)) r s h =
    quiet (set_clipboard r e.text s) refl (set_clipboard-inputs r e.text s) (λ down. refl)
handle_message-Handled (some (ClientEvent.display e)) r s h = quiet _ refl refl (λ down. refl)
handle_message-Handled (some (ClientEvent.activate id)) r s h =
    quiet (activate_window r id s) refl (activate_window-inputs r id s) (λ down. refl)
handle_message-Handled (some (ClientEvent.keylocks e)) r s h =
    quiet (record s { locks = some e })
      (ap
        (λ b.
          if b
          then (ok [], record s { locks = some e })
          else (panic "called `Result::unwrap()` on an `Err` value", s))
        h)
      refl (λ down. refl)

changed-cons :
    (m : Option ClientEvent) (ms : List (Option ClientEvent))
    → changed (m ∷ []) ++ changed ms ≡ changed (m ∷ ms)
changed-cons (some (ClientEvent.display e)) ms = refl
changed-cons _ ms = refl

-- If the fake inputs for keys and the setting of the lock keys succeed, the handler returns the
-- changes of resolution that the messages ask for, in their order, and after the fake inputs that it
-- made the X server has those keys down that the messages say are down. (Key codes are bytes.)
pub handle_client_event-faked :
    (msgs : List (Option ClientEvent × Replies)) (s : InputServer)
    → All Heard msgs
    → (t : InputServer) × (inputs : List FakeInput) × (handle_client_event msgs s
        ≡ (ok (changed (map (λ m. m.0) msgs)), t))
      × (t.inputs ≡ s.inputs ++ inputs)
      × ((down : ℕ → Bool) → faked inputs down ≡ pressed (map (λ m. m.0) msgs) down)
unfolding handle_client_event
handle_client_event-faked [] s h = (s, [], refl, sym (append-nil s.inputs), λ down. refl)
handle_client_event-faked ((m, r) ∷ msgs) s h =
    let first = handle_message-Handled m r s h.0 in
    let (t, inputs, result, asked, keys) = handle_client_event-faked msgs first.after h.1 in
    (
      t,
      first.inputs ++ inputs,
      rw (first.result, result) (ap (λ c. (ok c, t)) (changed-cons m (map (λ m. m.0) msgs))),
      asked ∙ (ap (λ is. is ++ inputs) first.asked ∙ append_assoc s.inputs first.inputs inputs),
      λ down.
          faked-append first.inputs inputs down
          ∙ (ap (faked inputs) (first.keys down) ∙ keys (press m down)),
    )
