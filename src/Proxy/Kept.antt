-- ===== src/Proxy/Kept.antt =====
-- What passes the proxy from the client to the server.
use sanzu.Prelude.{
  ℕ, ◌≡◌, refl, ap, ◌∙◌, if-cases, Bool, List, [], ◌∷◌, Option, none, some, if◌then◌else◌,
  Bool-cases, inl, inr,
}
use sanzu.Messages.Client.{ClientEvent}
use sanzu.Client.Poll.Pressed.{press, pressed}
use sanzu.Client.Poll.Coalesced.{moves, sizes, texts}
use sanzu.Proxy.{ProxyArgs, relay_client}

-- The proxy leaves the server with the same keys down, the same moves and the same sizes as the
-- messages of the client, in their order; of the clipboard it passes all texts in their order, or
-- none if that is disabled.
pub relay_client-keeps :
    (args : ProxyArgs) (msgs : List (Option ClientEvent)) (down : ℕ → Bool)
    → (pressed (relay_client args msgs) down ≡ pressed msgs down)
      × (moves (relay_client args msgs) ≡ moves msgs)
      × (sizes (relay_client args msgs) ≡ sizes msgs)
      × (texts (relay_client args msgs)
          ≡ (if args.disable_client_clipboard then [] else texts msgs))
unfolding relay_client
relay_client-keeps args [] down = (
  refl,
  refl,
  refl,
  if-cases (λ ts. [] ≡ ts) args.disable_client_clipboard [] [] (λ _. refl) (λ _. refl),
)
relay_client-keeps args (none ∷ ms) down = relay_client-keeps args ms down
relay_client-keeps args (some (ClientEvent.move e) ∷ ms) down =
    let (k, m, s, t) = relay_client-keeps args ms down in (k, ap (◌∷◌ e) m, s, t)
relay_client-keeps args (some (ClientEvent.key e) ∷ ms) down =
    relay_client-keeps args ms (press (some (ClientEvent.key e)) down)
relay_client-keeps args (some (ClientEvent.button e) ∷ ms) down = relay_client-keeps args ms down
relay_client-keeps args (some (ClientEvent.clipboard e) ∷ ms) down =
    let (k, m, s, t) = relay_client-keeps args ms down in
    elim (Bool-cases args.disable_client_clipboard) [
      | inl on ↦ rw (on) (k, m, s, t ∙ ap (λ b. if b then [] else texts ms) on)
      | inr off ↦ rw (off) (k, m, s, ap (◌∷◌ e.text) (t ∙ ap (λ b. if b then [] else texts ms) off))
    ]
relay_client-keeps args (some (ClientEvent.display e) ∷ ms) down =
    let (k, m, s, t) = relay_client-keeps args ms down in (k, m, ap (◌∷◌ e) s, t)
relay_client-keeps args (some (ClientEvent.activate id) ∷ ms) down = relay_client-keeps args ms down
relay_client-keeps args (some (ClientEvent.keylocks e) ∷ ms) down = relay_client-keeps args ms down
