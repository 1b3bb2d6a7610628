-- ===== src/Client/Poll/Pressed.antt =====
-- The keys that a server which handles the messages of the client believes to be down.
use sanzu.Prelude.{
  ℕ, zero, suc, ◌+◌, ◌≤◌, ◌<◌, ◌%◌, ◌^◌, ◌≡◌, refl, ap, sym, replicate, ◌∙◌, ◌≢◌, Bool, true, false,
  List, [], ◌∷◌, ◌++◌, map, Option, some, length, get_elem?, ◌==◌, if◌then◌else◌, arith,
}
use sanzu.Messages.Client.{ClientEvent}
use sanzu.Client.{Calls, ClientInfo, releases, release_keys}

-- `handle_client_event` of the server on the keys.
abbrev pub press : Option ClientEvent → (ℕ → Bool) → ℕ → Bool
press (some (ClientEvent.key e)) down k = if k == e.keycode then e.updown else down k
press _ down k = down k

abbrev pub pressed : List (Option ClientEvent) → (ℕ → Bool) → ℕ → Bool
pressed [] down = down
pressed (m ∷ ms) down = pressed ms (press m down)

pub pressed-append :
    (ms ns : List (Option ClientEvent)) (down : ℕ → Bool)
    → pressed (ms ++ ns) down ≡ pressed ns (pressed ms down)
pressed-append [] ns down = refl
pressed-append (m ∷ ms) ns down = pressed-append ms ns (press m down)

-- Every key that is down on the server is down at the client.
abbrev pub Held : List Bool → (ℕ → Bool) → Type 0
Held keys down = (k : ℕ) → down k ≡ true → get_elem? keys k ≡ some true

press_release :
    (i k : ℕ) (down : ℕ → Bool)
    → i < 256
    → i ≢ k
    → press (some (ClientEvent.key (record { keycode = i % 2 ^ 32; updown = false }))) down k
      ≡ down k
press_release i k down small other = ground arith

press_release_self :
    (i k : ℕ) (down : ℕ → Bool)
    → i < 256
    → k ≡ i
    → press (some (ClientEvent.key (record { keycode = i % 2 ^ 32; updown = false }))) down k
      ≡ false
press_release_self i k down small same = ground arith

-- Below `index` nothing is released.
pub pressed-releases_low :
    (index : ℕ) (keys : List Bool) (down : ℕ → Bool) (k : ℕ)
    → index + length keys ≤ 256
    → k < index
    → pressed (releases index keys) down k ≡ down k
unfolding releases
pressed-releases_low index [] down k fits low = refl
pressed-releases_low index (true ∷ keys) down k fits low =
    pressed-releases_low (index + 1) keys _ k (omega arith) (omega arith)
    ∙ press_release index k down (omega arith) (omega arith)
pressed-releases_low index (false ∷ keys) down k fits low =
    pressed-releases_low (index + 1) keys down k (omega arith) (omega arith)

pub pressed-releases :
    (index : ℕ) (keys : List Bool) (down : ℕ → Bool) (k i : ℕ)
    → index + length keys ≤ 256
    → k ≡ index + i
    → (down k ≡ true → get_elem? keys i ≡ some true)
    → pressed (releases index keys) down k ≡ false
unfolding releases
pressed-releases index [] down k i fits e h = ground arith
pressed-releases index (true ∷ keys) down k zero fits e h =
    pressed-releases_low (index + 1) keys _ k (omega arith) (omega arith)
    ∙ press_release_self index k down (omega arith) (omega arith)
pressed-releases index (true ∷ keys) down k (suc i) fits e h =
    pressed-releases (index + 1) keys _ k i (omega arith) (omega arith)
      (λ d. h (sym (press_release index k down (omega arith) (omega arith)) ∙ d))
pressed-releases index (false ∷ keys) down k zero fits e h =
    pressed-releases_low (index + 1) keys down k (omega arith) (omega arith) ∙ ground arith
pressed-releases index (false ∷ keys) down k (suc i) fits e h =
    pressed-releases (index + 1) keys down k i (omega arith) (omega arith) h

all_up : (keys : List Bool) → map (λ _. false) keys ≡ replicate (length keys) false
all_up [] = refl
all_up (b ∷ keys) = ap (◌∷◌ false) (all_up keys)

-- Losing the focus releases every key: if each key that the server believes down is down at the
-- client, then after the messages of `release_keys` the server believes none down, and the client
-- has the same number of keys, all up. (The client has at most 256 keys, and the flush succeeds.)
pub release_keys-none :
    (calls : Calls) (c : ClientInfo) (down : ℕ → Bool)
    → calls.release_flush ≡ true
    → length c.keys_state ≤ 256
    → Held c.keys_state down
    → ((k : ℕ) → pressed (release_keys calls c).0 down k ≡ false)
      × ((release_keys calls c).1.keys_state ≡ replicate (length c.keys_state) false)
unfolding release_keys
release_keys-none calls c down flushed fits held = (
  (λ k.
      rw (flushed) (pressed-releases 0 c.keys_state down k k (omega arith) (omega arith) (held k))),
  all_up c.keys_state,
)
