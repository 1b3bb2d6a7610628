-- ===== src/Client/Poll/Handlers.antt =====
-- What the handlers of the events leave alone.
use sanzu.Prelude.{
  ◌≡◌, refl, ap, ◌∙◌, ◌%◌, ℕ, Bool, true, false, ◌||◌, inl, inr, ◌==◌, if-cases, ==_iff,
}
use sanzu.Outcome.{Outcome, ok, pure, in_context}
use sanzu.Client.{
  Calls, Polling, write_key, chord, send_key, append_events, change, call, focus_in_calls,
  append_releases, focus_out_calls, release_keys, key_h, key_s, key_c,
}
use sanzu.Client.Poll.{
  toggle_stats, trig_clipboard, toggle_grab, move_grab, press_key, release_key, enter, grab_focus,
  refresh, leave,
}
use sanzu.Client.Poll.Chord.{Chorded, chord-Chorded, before_c-Chorded}
use sanzu.Client.Poll.Framed.{
  Framed-bind_here, Framed, Framed-refl, Framed-trans, Framed-bind, release_keys-IsInput,
  append-Framed, keys-Framed, write_key-Framed, call-Framed, Framed-if, chord-Framed,
}

module _ {P : Type 0} where
  toggle_stats-Framed : (detail : ℕ) (p : Polling) → Framed P p (toggle_stats detail p).1
  unfolding toggle_stats change
  toggle_stats-Framed detail p =
      Framed-if (detail == key_s) _ _ p
        (λ _. Framed-bind chord _ p (chord-Framed p) λ down q.
          Framed-if down _ _ q
            (λ _. record {
              inputs = λ a. a;
              move = refl;
              resize = refl;
              width = refl;
              height = refl;
              config = refl;
              text = refl;
              trigger = inl;
            })
            (λ _. Framed-refl q))
        (λ _. Framed-refl p)

  trig_clipboard-Framed :
      (detail : ℕ) (p : Polling)
      → (detail ≡ key_c → Chorded p.client.keys_state → P)
      → Framed P p (trig_clipboard detail p).1
  unfolding trig_clipboard change
  trig_clipboard-Framed detail p is_c =
      Framed-if (detail == key_c) _ _ p
        (λ e. Framed-bind_here chord _ p (chord-Framed p) λ down found.
          Framed-if down _ _ (chord p).1
            (λ on. record {
              inputs = λ a. a;
              move = refl;
              resize = refl;
              width = refl;
              height = refl;
              config = refl;
              text = refl;
              trigger =
                  λ _. inr (is_c ((==_iff detail key_c).0 e) (chord-Chorded p (found ∙ ap ok on)));
            })
            (λ _. Framed-refl (chord p).1))
        (λ _. Framed-refl p)

  focus_in_calls-Framed : (calls : Calls) (p : Polling) → Framed P p (focus_in_calls calls p).1
  unfolding focus_in_calls
  focus_in_calls-Framed calls p =
      Framed-bind (call _ calls.grab_flush) _ p (call-Framed _ _ p) λ _ q.
        Framed-bind (call _ calls.grab) _ q (call-Framed _ _ q) λ _ q.
          Framed-bind (call _ calls.grab_reply) _ q (call-Framed _ _ q)
            λ _ q. call-Framed _ calls.grab_flush_after q

  append_releases-Framed : (calls : Calls) (p : Polling) → Framed P p (append_releases calls p).1
  unfolding append_releases release_keys
  append_releases-Framed calls p =
      Framed-trans (keys-Framed _ p)
        (append-Framed (release_keys calls p.client).0 _ (release_keys-IsInput calls p.client))

  focus_out_calls-Framed : (calls : Calls) (p : Polling) → Framed P p (focus_out_calls calls p).1
  unfolding focus_out_calls release_keys
  focus_out_calls-Framed calls p =
      let q = record p { client = (release_keys calls p.client).1 } in
      Framed-trans (keys-Framed _ p) (
        Framed-bind (call _ calls.ungrab) _ q (call-Framed _ _ q) λ _ r.
          Framed-bind (call _ calls.ungrab_flush) _ r (call-Framed _ _ r)
            λ _ r. append-Framed _ r (release_keys-IsInput calls p.client))

  move_grab-Framed : (calls : Calls) (p : Polling) → Framed P p (move_grab calls p).1
  unfolding move_grab
  move_grab-Framed calls p =
      if-cases (λ (r : Outcome (Unit {0}) × Polling). Framed P p r.1) p.client.grab_keyboard _ _
        (λ _. focus_out_calls-Framed calls p) (λ _. focus_in_calls-Framed calls p)

  toggle_grab-Framed :
      (calls : Calls) (detail : ℕ) (p : Polling) → Framed P p (toggle_grab calls detail p).1
  unfolding toggle_grab change
  toggle_grab-Framed calls detail p =
      Framed-if (detail == key_h) _ _ p
        (λ _. Framed-bind chord _ p (chord-Framed p) λ down q.
          Framed-if down _ _ q
            (λ _. Framed-bind (move_grab calls) _ q (move_grab-Framed calls q) λ _ q. record {
              inputs = λ a. a;
              move = refl;
              resize = refl;
              width = refl;
              height = refl;
              config = refl;
              text = refl;
              trigger = inl;
            })
            (λ _. Framed-refl q))
        (λ _. Framed-refl p)

  send_key-Framed :
      (detail : ℕ) (updown : Bool) (p : Polling) → Framed P p (send_key detail updown p).1
  unfolding send_key append_events
  send_key-Framed detail updown p = append-Framed _ p (tt, tt)

  pub press_key-Framed :
      (calls : Calls) (detail : ℕ) (p : Polling)
      → (detail ≡ key_c → Chorded p.client.keys_state → P)
      → Framed P p (press_key calls detail p).1
  unfolding press_key
  press_key-Framed calls detail p is_c =
      let written = (write_key (detail % 256) true p).1 in
      let noted = (toggle_stats detail written).1 in
      Framed-bind_here (write_key _ true) _ p (write_key-Framed _ true p) λ _ _.
        Framed-bind_here (toggle_stats detail) _ written (toggle_stats-Framed detail written) λ a _.
          Framed-bind (trig_clipboard detail) _ noted
            (trig_clipboard-Framed detail noted
              (λ e held. is_c e (before_c-Chorded detail p e held)))
            λ b q.
              Framed-bind (toggle_grab calls detail) _ q (toggle_grab-Framed calls detail q) λ c q.
                Framed-if (a || b || c) (pure tt) (send_key detail true) q (λ _. Framed-refl q)
                  (λ _. send_key-Framed detail true q)

  pub release_key-Framed : (detail : ℕ) (p : Polling) → Framed P p (release_key detail p).1
  unfolding release_key
  release_key-Framed detail p =
      Framed-bind (write_key _ false) _ p (write_key-Framed _ false p)
        λ _ q. send_key-Framed detail false q

  pub enter-Framed : (calls : Calls) (p : Polling) → Framed P p (enter calls p).1
  unfolding enter grab_focus refresh change
  enter-Framed calls p =
      Framed-bind (grab_focus calls) _ p
        (if-cases (λ (r : Outcome (Unit {0}) × Polling). Framed P p r.1) p.client.grab_keyboard _ _
          (λ _. focus_in_calls-Framed calls p) (λ _. Framed-refl p))
        λ _ q. record {
          inputs = λ a. a;
          move = refl;
          resize = refl;
          width = refl;
          height = refl;
          config = refl;
          text = refl;
          trigger = inl;
        }

  pub leave-Framed :
      (calls : Calls) (while_grabbed : Bool) (p : Polling)
      → Framed P p (leave calls while_grabbed p).1
  unfolding leave
  leave-Framed calls while_grabbed p =
      if-cases (λ (r : Outcome (Unit {0}) × Polling). Framed P p r.1) p.client.grab_keyboard _ _
        (λ _.
          Framed-if while_grabbed (in_context "Cannot focus out" (focus_out_calls calls)) (pure tt)
            p (λ _. focus_out_calls-Framed calls p) (λ _. Framed-refl p))
        (λ _. append_releases-Framed calls p)
