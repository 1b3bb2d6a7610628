-- ===== src/Client/Poll/Released.antt =====
-- The steps of `poll_events` on the keys: what the messages leave down is down at the client.
use sanzu.Prelude.{
  ℕ, String, ◌⊎◌, ◌<◌, ◌%◌, ◌≡◌, ◌≢◌, refl, sym, ap, ◌∙◌, Bool, true, false, ◌||◌, List, [], ◌∷◌,
  ◌++◌, map, Option, some, length, get_elem?, set, arith, Bool-cases, inl, inr, ◌==◌, lt→ltb,
  if-cases, or_false, zero, suc, length-map, length-set, get_elem?-set_self, get_elem?-set_ne,
}
use sanzu.Outcome.{Io, Safe, Safe-bind, Safe-context, in_context}
use sanzu.Messages.Client.{ClientEvent}
use sanzu.Client.{
  ClientInfo, Calls, Polling, releases, write_key, send_key, append_events, change, call,
  focus_in_calls, append_releases, focus_out_calls, release_keys, key_h,
}
use sanzu.Client.Poll.{
  toggle_stats, trig_clipboard, toggle_grab, move_grab, press_key, release_key, enter, grab_focus,
  refresh, leave,
}
use sanzu.Client.Poll.Pressed.{press, pressed, pressed-append, Held, pressed-releases}
use sanzu.Client.Poll.Shortcuts.{Quiet, chord-eq, toggle_stats-Quiet, trig_clipboard-Quiet}

set-true :
    (keys : List Bool) (i k : ℕ)
    → get_elem? keys k ≡ some true
    → get_elem? (set keys i true) k ≡ some true
set-true [] i k h = h
set-true (b ∷ keys) zero zero h = refl
set-true (b ∷ keys) zero (suc k) h = h
set-true (b ∷ keys) (suc i) zero h = h
set-true (b ∷ keys) (suc i) (suc k) h = set-true keys i k h

-- A key message says a key is down only of its own key, or leaves it as it was.
press-cases :
    (detail : ℕ) (updown : Bool) (down : ℕ → Bool) (k : ℕ)
    → press (some (ClientEvent.key (record { keycode = detail; updown = updown }))) down k ≡ true
    → ((updown ≡ true) × (k ≡ detail)) ⊎ ((k ≢ detail) × (down k ≡ true))
press-cases detail updown down k h = ground arith

module _ (down : ℕ → Bool) where
  -- The key table has all keys, and those that the messages so far leave down are down in it.
  pub record Tracked (p : Polling) : Type 0 where
    pub sized : length p.client.keys_state ≡ 256
    pub held : Held p.client.keys_state (pressed p.events down)

  -- The client changed in other than its keys.
  pub Tracked-client :
      (p : Polling) (c : ClientInfo)
      → c.keys_state ≡ p.client.keys_state
      → Tracked p
      → Tracked (record p { client = c })
  Tracked-client p c same t = record {
    sized = rw (same) t.sized;
    held = λ k d. rw (same) (t.held k d);
  }

  -- A message that presses no key.
  pub Tracked-event :
      (p : Polling) (m : Option ClientEvent)
      → ((k : ℕ)
          → press m (pressed p.events down) k ≡ true
          → get_elem? p.client.keys_state k ≡ some true)
      → Tracked p
      → Tracked (record p { events = p.events ++ m ∷ [] })
  Tracked-event p m h t = record {
    sized = t.sized;
    held = λ k d. h k (ap (λ f. f k) (sym (pressed-append p.events (m ∷ []) down)) ∙ d);
  }

  -- Releasing all keys that are down.
  released :
      (p : Polling)
      → Tracked p
      → (k : ℕ) → pressed (p.events ++ releases 0 p.client.keys_state) down k ≡ false
  released p t k = rw (pressed-append p.events (releases 0 p.client.keys_state) down) (
      pressed-releases 0 p.client.keys_state (pressed p.events down) k k (omega (arith, t.sized))
        (omega arith) (t.held k))

  Tracked-releases :
      (p : Polling)
      → Tracked p
      → Tracked (record p {
        client = record p.client { keys_state = map (λ _. false) p.client.keys_state };
        events = p.events ++ releases 0 p.client.keys_state;
      })
  Tracked-releases p t = record {
    sized = length-map p.client.keys_state _ ∙ t.sized;
    held = λ k d. grind (arith, released p t k, d);
  }

  call-Safe :
      (text : String) (success : Bool) (p : Polling)
      → Tracked p
      → Safe (λ _. Tracked) (call text success p)
  unfolding call
  call-Safe text true p t = t
  call-Safe text false p t = tt

  focus_in_calls-Safe :
      (calls : Calls) (p : Polling) → Tracked p → Safe (λ _. Tracked) (focus_in_calls calls p)
  unfolding focus_in_calls
  focus_in_calls-Safe calls p t =
      Safe-bind (λ _. Tracked) (λ _. Tracked) (call _ calls.grab_flush) _ p (call-Safe _ _ p t)
        λ _ q t.
          Safe-bind (λ _. Tracked) (λ _. Tracked) (call _ calls.grab) _ q (call-Safe _ _ q t)
            λ _ q t.
              Safe-bind (λ _. Tracked) (λ _. Tracked) (call _ calls.grab_reply) _ q
                (call-Safe _ _ q t) λ _ q t. call-Safe _ calls.grab_flush_after q t

  append_releases-Tracked :
      (calls : Calls) (p : Polling)
      → calls.release_flush ≡ true
      → Tracked p
      → Safe (λ _. Tracked) (append_releases calls p)
  unfolding append_releases release_keys
  append_releases-Tracked calls p flushed t = rw (flushed) (Tracked-releases p t)

  focus_out_calls-Safe :
      (calls : Calls) (p : Polling)
      → calls.release_flush ≡ true
      → Tracked p
      → Safe (λ _. Tracked) (focus_out_calls calls p)
  unfolding focus_out_calls call release_keys
  focus_out_calls-Safe calls p flushed t = elim (Bool-cases calls.ungrab) [
    | inl a ↦ elim (Bool-cases calls.ungrab_flush) [
      | inl b ↦ rw (a, b, flushed) (Tracked-releases p t)
      | inr b ↦ rw (a, b) tt
    ]
    | inr a ↦ rw (a) tt
  ]

  -- The key itself is down at the client.
  abbrev Down : ℕ → Polling → Type 0
  Down i p = Tracked p × (get_elem? p.client.keys_state i ≡ some true)

  write_key-true :
      (i : ℕ) (p : Polling) → i < 256 → Tracked p → Safe (λ _. Down i) (write_key i true p)
  unfolding write_key change
  write_key-true i p small t = rw (lt→ltb i (length p.client.keys_state) (omega (arith, t.sized))) (
    record {
      sized = length-set p.client.keys_state i true ∙ t.sized;
      held = λ k d. set-true p.client.keys_state i k (t.held k d);
    },
    get_elem?-set_self p.client.keys_state i true (omega (arith, t.sized)),
  )

  Quiet-Down :
      (i : ℕ) (m : Io Polling Bool) (p : Polling) → Quiet m p → Down i p → Safe (λ _. Down i) (m p)
  Quiet-Down i m p quiet d =
      rw (quiet.result) (
        Tracked-client p quiet.client quiet.same d.0,
        ap (λ keys. get_elem? keys i) quiet.same ∙ d.1,
      )

  move_grab-Safe :
      (calls : Calls) (p : Polling)
      → calls.release_flush ≡ true
      → Tracked p
      → Safe (λ _. Tracked) (move_grab calls p)
  unfolding move_grab
  move_grab-Safe calls p flushed t =
      if-cases (Safe (λ _. Tracked)) p.client.grab_keyboard _ _
        (λ _.
          Safe-context (λ _. Tracked) "Cannot focus out" _ _
            (focus_out_calls-Safe calls p flushed t))
        (λ _. Safe-context (λ _. Tracked) "Cannot focus in" _ _ (focus_in_calls-Safe calls p t))

  toggle_grab-Safe :
      (calls : Calls) (detail i : ℕ) (p : Polling)
      → calls.release_flush ≡ true
      → Down i p
      → Safe
          (λ skip q. Tracked q × (skip ≡ false → get_elem? q.client.keys_state i ≡ some true))
          (toggle_grab calls detail p)
  unfolding toggle_grab change
  toggle_grab-Safe calls detail i p flushed d =
      let (held, c) = chord-eq p d.0.sized in
      elim (Bool-cases (detail == key_h)) [
        | inl is_h ↦ elim (Bool-cases held) [
          | inl on ↦
              rw (is_h, c, on)
                (Safe-bind (λ _. Tracked) _ (move_grab calls) _ p
                  (move_grab-Safe calls p flushed d.0)
                  λ _ q t. (Tracked-client q _ refl t, λ e. ground arith))
          | inr off ↦ rw (is_h, c, off) (d.0, λ _. d.1)
        ]
        | inr other ↦ rw (other) (d.0, λ _. d.1)
      ]

  small_mod : (detail : ℕ) → detail < 256 → detail % 256 ≡ detail
  small_mod detail small = omega arith

  send_key-Safe :
      (detail : ℕ) (p : Polling)
      → detail < 256
      → Tracked p
      → get_elem? p.client.keys_state (detail % 256) ≡ some true
      → Safe (λ _. Tracked) (send_key detail true p)
  unfolding send_key append_events
  send_key-Safe detail p small t h =
      Tracked-event p _
        (λ k d. elim (press-cases detail true (pressed p.events down) k d) [
          | inl e ↦ rw (e.1, sym (small_mod detail small)) h
          | inr e ↦ t.held k e.1
        ])
        t

  pub press_key-Safe :
      (calls : Calls) (detail : ℕ) (p : Polling)
      → detail < 256
      → calls.release_flush ≡ true
      → Tracked p
      → Safe (λ _. Tracked) (press_key calls detail p)
  unfolding press_key
  press_key-Safe calls detail p small flushed t =
      let i = detail % 256 in
      Safe-bind (λ _. Down i) _ (write_key i true) _ p (write_key-true i p (omega arith) t)
        λ _ q d.
          Safe-bind (λ _. Down i) _ (toggle_stats detail) _ q
            (Quiet-Down i _ q (toggle_stats-Quiet detail q d.0.sized) d)
            λ a q d.
              Safe-bind (λ _. Down i) _ (trig_clipboard detail) _ q
                (Quiet-Down i _ q (trig_clipboard-Quiet detail q d.0.sized) d)
                λ b q d.
                  Safe-bind _ _ (toggle_grab calls detail) _ q
                    (toggle_grab-Safe calls detail i q flushed d)
                    λ c q d.
                      if-cases (λ (m : Io Polling (Unit {0})). Safe (λ _. Tracked) (m q))
                        (a || b || c) _ _ (λ _. d.0)
                        (λ send. send_key-Safe detail q small d.0 (d.1 (or_false a b c send)))

  pub release_key-Safe :
      (detail : ℕ) (p : Polling)
      → detail < 256
      → Tracked p
      → Safe (λ _. Tracked) (release_key detail p)
  unfolding release_key write_key change send_key append_events
  release_key-Safe detail p small t =
      rw (lt→ltb (detail % 256) (length p.client.keys_state) (omega (arith, t.sized))) (record {
        sized = length-set p.client.keys_state (detail % 256) false ∙ t.sized;
        held = λ k d.
            elim (press-cases detail false (pressed p.events down) k
              (ap (λ f. f k) (sym (pressed-append p.events _ down)) ∙ d)) [
                | inl e ↦ ground arith
                | inr e ↦
                    get_elem?-set_ne p.client.keys_state (detail % 256) k false
                      (λ same. e.0 (sym same ∙ small_mod detail small))
                    ∙ t.held k e.1
              ];
      })

  grab_focus-Safe :
      (calls : Calls) (p : Polling) → Tracked p → Safe (λ _. Tracked) (grab_focus calls p)
  unfolding grab_focus
  grab_focus-Safe calls p t =
      if-cases (Safe (λ _. Tracked)) p.client.grab_keyboard _ _
        (λ _. Safe-context (λ _. Tracked) "Cannot focus in" _ _ (focus_in_calls-Safe calls p t))
        (λ _. t)

  refresh-Safe : (p : Polling) → Tracked p → Safe (λ _. Tracked) (refresh p)
  unfolding refresh change
  refresh-Safe p t = Tracked-client p _ refl t

  pub enter-Safe : (calls : Calls) (p : Polling) → Tracked p → Safe (λ _. Tracked) (enter calls p)
  unfolding enter
  enter-Safe calls p t =
      Safe-bind (λ _. Tracked) (λ _. Tracked) (grab_focus calls) (λ _. refresh) p
        (grab_focus-Safe calls p t) λ _. refresh-Safe

  pub leave-Safe :
      (calls : Calls) (while_grabbed : Bool) (p : Polling)
      → calls.release_flush ≡ true
      → Tracked p
      → Safe (λ _. Tracked) (leave calls while_grabbed p)
  unfolding leave
  leave-Safe calls while_grabbed p flushed t =
      if-cases (Safe (λ _. Tracked)) p.client.grab_keyboard _ _
        (λ _.
          if-cases (λ (m : Io Polling (Unit {0})). Safe (λ _. Tracked) (m p)) while_grabbed
            (in_context "Cannot focus out" (focus_out_calls calls)) _
            (λ _.
              Safe-context (λ _. Tracked) "Cannot focus out" _ _
                (focus_out_calls-Safe calls p flushed t))
            (λ _. t))
        (λ _. append_releases-Tracked calls p flushed t)
