-- ===== src/Client/Poll/Reports.antt =====
-- What a poll reports of moves, of the client's size and of the clipboard.
use sanzu.Prelude.{
  ◌≡◌, refl, sym, ap, ◌∙◌, true, false, List, [], ◌∷◌, ◌++◌, Option, none, some, ◌⊎◌, inl, inr,
  String, Bool-cases, arith, append-nil,
}
use mathlib.Core.Path.{subst}
use sanzu.Outcome.{Outcome, ok, err, panic, continue-ok, ◌>>◌}
use sanzu.Messages.{EventDisplay}
use sanzu.Messages.Client.{EventMove, ClientEvent}
use sanzu.Server.Poll.{get_clipboard_events}
use sanzu.Server.Poll.Waiting.{last_text, get_clipboard_events-last_text}
use sanzu.Client.{ClientInfo, XEvent, Polling, ClipboardConfig}
use sanzu.Client.Poll.{
  LockKey, LockKeyState, handle_events, sync_locks, poll_events, finish, begin_poll, end_poll,
  last_move_message, last_resize_message, share_clipboard, keep_clipboard, clipboard_message,
}
use sanzu.Client.Poll.Coalesced.{
  moves, sizes, texts, last_motion, to_list, PressesC, inputs-only, SizedAt, Coalesced,
  Coalesced-trans, handle_events-Coalesced, sync_locks-Coalesced,
}

last_messages :
    (move : Option EventMove) (size : Option EventDisplay) (ms : List (Option ClientEvent))
    → (moves (last_move_message move ++ (last_resize_message size ++ ms))
        ≡ to_list move ++ moves ms)
      × (sizes (last_move_message move ++ (last_resize_message size ++ ms))
          ≡ to_list size ++ sizes ms)
      × (texts (last_move_message move ++ (last_resize_message size ++ ms)) ≡ texts ms)
unfolding last_move_message last_resize_message
last_messages none none ms = (refl, refl, refl)
last_messages none (some e) ms = (refl, refl, refl)
last_messages (some m) none ms = (refl, refl, refl)
last_messages (some m) (some e) ms = (refl, refl, refl)

-- The text that the client knows last: the last of the channel, or else the one that it has kept.
abbrev pub newer : Option String → Option String → Option String
newer none kept = kept
newer (some text) kept = some text

abbrev pub known_text : List String → Option String → Option String
known_text clipboard kept = newer (last_text clipboard) kept

end_poll-ok :
    (clipboard : List String) (r : Outcome (Unit {0})) (p : Polling)
    (msgs : List (Option ClientEvent)) (c : ClientInfo)
    → end_poll clipboard r p ≡ (ok msgs, c)
    → (r ≡ ok tt) × (finish clipboard p ≡ (msgs, c))
unfolding end_poll
end_poll-ok clipboard (ok _) p msgs c e = (refl, ground (arith, e))
end_poll-ok clipboard (err chain) p msgs c e = ground (arith, e)
end_poll-ok clipboard (panic why) p msgs c e = ground (arith, e)

-- The state of a poll before its events.
abbrev pub started : (LockKey → Option LockKeyState) → ClientInfo → Polling
started locks c = (sync_locks locks (begin_poll c)).1

-- A poll that succeeds: the state before its end.
record Polled (c : ClientInfo) (start : Polling) (events : List XEvent) (clipboard : List String)
    (msgs : List (Option ClientEvent)) (c' : ClientInfo) : Type 0 where
  before : Polling
  ended : finish clipboard before ≡ (msgs, c')
  coalesced : Coalesced c (last_motion events none) (PressesC events start) (begin_poll c) before

poll_events-Polled :
    (locks : LockKey → Option LockKeyState) (events : List XEvent) (clipboard : List String)
    (c c' : ClientInfo) (msgs : List (Option ClientEvent))
    → poll_events locks events clipboard c ≡ (ok msgs, c')
    → Polled c (started locks c) events clipboard msgs c'
unfolding poll_events begin_poll
poll_events-Polled locks events clipboard c c' msgs e =
    let start : Outcome (Unit {0}) × Polling = sync_locks locks (begin_poll c) in
    let sync = sync_locks-Coalesced c locks (begin_poll c) in
    let whole = (do sync_locks locks; handle_events events) (begin_poll c) in
    let (good, ended) = end_poll-ok clipboard whole.0 whole.1 msgs c' e in
    let (_, _, rest) =
      continue-ok start.0 (λ _. handle_events events) start.1 whole.1 tt
        (ap (λ r. (r, whole.1)) good) in
    record {
      before = whole.1;
      ended = ended;
      coalesced =
          Coalesced-trans sync
            (subst
              (λ m. Coalesced c (last_motion events m) (PressesC events start.1) start.1 whole.1)
              sync.last (handle_events-Coalesced c events start.1 whole.1 rest))
            absurd (λ w. w);
    }

-- At most one message gives a size: the client's, and none only if that has not changed.
abbrev pub Resized : ClientInfo → ClientInfo → List EventDisplay → Type 0
Resized c c' [] = (c'.width ≡ c.width) × (c'.height ≡ c.height)
Resized c c' (e ∷ []) = (e.width ≡ c'.width) × (e.height ≡ c'.height)
Resized c c' (_ ∷ _ ∷ _) = ⊥

Sized-Resized :
    (c c' : ClientInfo) (size : Option EventDisplay)
    → SizedAt c size c'.width c'.height
    → Resized c c' (to_list size)
Sized-Resized c c' none h = h
Sized-Resized c c' (some e) h = h

-- What the configuration lets a server know of the clipboard, whose text is known to be `text`.
abbrev pub Lets :
    ClipboardConfig
    → (triggered : Type 0) → (text : Option String) → List String
    → ClientInfo
    → Type 0
Lets ClipboardConfig.deny triggered text shared c' = shared ≡ []
Lets ClipboardConfig.allow triggered text shared c' =
    (shared ≡ to_list text) × (c'.clipboard_last_value ≡ none)
Lets ClipboardConfig.trig triggered text shared c' =
    ((shared ≡ []) ⊎ ((shared ≡ to_list text) × triggered))
    × (c'.clipboard_last_value ≡ text)
    × (c'.clipbard_trig ≡ false)

clipboard_message-kinds :
    (text : Option String)
    → (moves (clipboard_message text) ≡ [])
      × (sizes (clipboard_message text) ≡ [])
      × (texts (clipboard_message text) ≡ to_list text)
unfolding clipboard_message
clipboard_message-kinds none = (refl, refl, refl)
clipboard_message-kinds (some text) = (refl, refl, refl)

keep_clipboard-keeps :
    (text : Option String) (c : ClientInfo)
    → ((keep_clipboard text c).clipboard_last_value ≡ newer text c.clipboard_last_value)
      × ((keep_clipboard text c).clipbard_trig ≡ c.clipbard_trig)
      × ((keep_clipboard text c).width ≡ c.width)
      × ((keep_clipboard text c).height ≡ c.height)
unfolding keep_clipboard
keep_clipboard-keeps none c = (refl, refl, refl, refl)
keep_clipboard-keeps (some text) c = (refl, refl, refl, refl)

Lets-imp :
    {T U : Type 0} (config : ClipboardConfig) (text : Option String) (shared : List String)
    (c : ClientInfo)
    → (T → U)
    → Lets config T text shared c
    → Lets config U text shared c
Lets-imp ClipboardConfig.deny text shared c k h = h
Lets-imp ClipboardConfig.allow text shared c k h = h
Lets-imp ClipboardConfig.trig text shared c k h =
    (elim h.0 [ inl e ↦ inl e | inr (sent, t) ↦ inr (sent, k t) ], h.1, h.2)

Lets-cong :
    {T U : Type 0} {config config' : ClipboardConfig} {text text' : Option String}
    {shared shared' : List String} (c : ClientInfo)
    → config ≡ config'
    → text ≡ text'
    → shared ≡ shared'
    → (T → U)
    → Lets config T text shared c
    → Lets config' U text' shared' c
Lets-cong {U = U} {config = config} {config' = config'} {text = text} {text' = text'}
      {shared = shared} {shared' = shared'} c a b d k h =
    subst (λ config. Lets config U text' shared' c) a
      (subst (λ text. Lets config U text shared' c) b
        (subst (λ shared. Lets config U text shared c) d (Lets-imp config text shared c k h)))

share_clipboard-Lets :
    (config : ClipboardConfig) (c : ClientInfo)
    → (moves (share_clipboard config c).0 ≡ [])
      × (sizes (share_clipboard config c).0 ≡ [])
      × Lets config
          (c.clipbard_trig ≡ true)
          c.clipboard_last_value
          (texts (share_clipboard config c).0)
          (share_clipboard config c).1
      × ((share_clipboard config c).1.width ≡ c.width)
      × ((share_clipboard config c).1.height ≡ c.height)
unfolding share_clipboard
share_clipboard-Lets ClipboardConfig.deny c = (refl, refl, refl, refl, refl)
share_clipboard-Lets ClipboardConfig.allow c =
    let (m, s, t) = clipboard_message-kinds c.clipboard_last_value in (m, s, (t, refl), refl, refl)
share_clipboard-Lets ClipboardConfig.trig c =
    let (m, s, t) = clipboard_message-kinds c.clipboard_last_value in
    elim (Bool-cases c.clipbard_trig) [
      | inl on ↦ rw (on) (m, s, (inr (t, refl), refl, refl), refl, refl)
      | inr off ↦ rw (off) (refl, refl, (inl refl, refl, refl), refl, refl)
    ]

module _ (c : ClientInfo) (start : Polling) (events : List XEvent) (clipboard : List String)
    (p : Polling)
    (f : Coalesced c (last_motion events none) (PressesC events start) (begin_poll c) p) where
  -- The messages of `finish`, kind by kind.
  finish-kinds :
      (moves (finish clipboard p).0 ≡ to_list (last_motion events none))
      × Resized c (finish clipboard p).1 (sizes (finish clipboard p).0)
      × Lets c.clipboard_config
          ((c.clipbard_trig ≡ true) ⊎ PressesC events start)
          (known_text clipboard c.clipboard_last_value)
          (texts (finish clipboard p).0)
          (finish clipboard p).1
  unfolding finish begin_poll
  finish-kinds =
      let kept = keep_clipboard (get_clipboard_events clipboard) p.client in
      let shared = share_clipboard p.client.clipboard_config kept in
      let (m, s, l, w, h) = share_clipboard-Lets p.client.clipboard_config kept in
      let rest = last_move_message p.last_move ++ (last_resize_message p.last_resize ++ shared.0) in
      let (m', s', t') = last_messages p.last_move p.last_resize shared.0 in
      let (m'', s'', t'') = inputs-only p.events rest (f.inputs tt) in
      let (value, trigger, width, height) =
        keep_clipboard-keeps (get_clipboard_events clipboard) p.client in
      (
        m'' ∙ (m' ∙ (ap (◌++◌ (to_list p.last_move)) m ∙ (append-nil _ ∙ ap to_list f.last))),
        subst (Resized c shared.1)
            (sym (s'' ∙ (s' ∙ (ap (◌++◌ (to_list p.last_resize)) s ∙ append-nil _))))
            (Sized-Resized c shared.1 p.last_resize (
              subst (λ a. SizedAt c p.last_resize a shared.1.height) (sym (w ∙ width))
                (subst (SizedAt c p.last_resize p.client.width) (sym (h ∙ height))
                  (f.size (refl, refl))))),
        Lets-cong shared.1 f.config
            (value
              ∙ ap (newer (get_clipboard_events clipboard)) f.text
              ∙ ap (λ text. newer text c.clipboard_last_value)
                  (get_clipboard_events-last_text clipboard))
            (sym (t'' ∙ t')) (λ t. f.trigger (sym trigger ∙ t)) l,
      )

module _ (locks : LockKey → Option LockKeyState) (events : List XEvent) (clipboard : List String)
    (c c' : ClientInfo) (msgs : List (Option ClientEvent)) where
  -- A poll that succeeds reports the last move of its events and no other, and the client's new size
  -- in at most one message; it reports no size only if the size is as it was.
  pub poll_events-moves :
      poll_events locks events clipboard c ≡ (ok msgs, c')
      → (moves msgs ≡ to_list (last_motion events none)) × Resized c c' (sizes msgs)
  poll_events-moves e =
      let r = poll_events-Polled locks events clipboard c c' msgs e in
      let k = finish-kinds c (started locks c) events clipboard r.before r.coalesced in
      subst (λ q. (moves q.0 ≡ to_list (last_motion events none)) × Resized c q.1 (sizes q.0))
        r.ended (k.0, k.1)

  -- What a poll that succeeds lets the server know of the clipboard. Under `Deny`, nothing. Under
  -- `Allow`, the text that is known last, if any, which is then forgotten: the last text of those
  -- that wait, or else the one that was kept. Under `Trig`, that text or nothing, and the text only
  -- if the clipboard had been triggered or the key C is pressed among the events at a moment when
  -- control, shift and alt are down in the client's table of the keys; the text is kept, and the
  -- trigger is off.
  pub poll_events-clipboard :
      poll_events locks events clipboard c ≡ (ok msgs, c')
      → Lets c.clipboard_config
          ((c.clipbard_trig ≡ true) ⊎ PressesC events (started locks c))
          (known_text clipboard c.clipboard_last_value)
          (texts msgs)
          c'
  poll_events-clipboard e =
      let r = poll_events-Polled locks events clipboard c c' msgs e in
      subst
        (λ q.
          Lets c.clipboard_config ((c.clipbard_trig ≡ true) ⊎ PressesC events (started locks c))
            (known_text clipboard c.clipboard_last_value) (texts q.0) q.1)
        r.ended (finish-kinds c (started locks c) events clipboard r.before r.coalesced).2
