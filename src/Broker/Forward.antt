-- ===== src/Broker/Forward.antt =====
-- `loop_fwd_conn` of sanzu-broker/src/main.rs: the bytes of each side go to the other.
use sanzu.Prelude.{ℕ, ◌*◌, min, String, Bool, true, false, List, [], ◌∷◌, take, drop}
use sanzu.Outcome.{Outcome, ok, err, panic, Io, pure, fail, in_context, ◌>>=◌, ◌>>◌}
use sanzu.Proto.Stream.{Stream, write_all}

-- The client's side is what TLS decrypts and encrypts.
pub record Link : Type 0 where
  pub client : Stream
  pub server : Stream

-- An event of `poll`, with how many bytes the read takes then; or a call that fails.
pub data Ready : Type 0 where
  client_ready server_ready : (available : ℕ) → Ready
  client_failed server_failed poll_failed : String → Ready

-- 1 MiB
abbrev pub buffer_len : ℕ
buffer_len = 1024 * 1024

unfoldable pub read : ℕ → Io Stream (List ℕ)
read available s = (
  ok (take (min available buffer_len) s.input),
  record s { input = drop (min available buffer_len) s.input },
)

unfoldable pub on_client : {A : Type 0} → Io Stream A → Io Link A
on_client m link = let (r, s) = m link.client in (r, record link { client = s })

unfoldable pub on_server : {A : Type 0} → Io Stream A → Io Link A
on_server m link = let (r, s) = m link.server in (r, record link { server = s })

-- Is it the end of the connection? An empty read is.
unfoldable pub to_server : List ℕ → Io Link Bool
to_server [] = pure true
to_server (b ∷ bytes) = do
  in_context "Error in server write" (on_server (write_all (b ∷ bytes)))
  pure false

unfoldable pub to_client : List ℕ → Io Link Bool
to_client [] = pure true
to_client (b ∷ bytes) = do
  in_context "Error in client write" (on_client (write_all (b ∷ bytes)))
  pure false

unfoldable pub handle_ready : Ready → Io Link Bool
handle_ready (Ready.client_ready n) = do bytes ← on_client (read n); to_server bytes
handle_ready (Ready.server_ready n) = do bytes ← on_server (read n); to_client bytes
handle_ready (Ready.client_failed why) = fail ("Error in client read" ∷ why ∷ [])
handle_ready (Ready.server_failed why) = fail ("Error in server read" ∷ why ∷ [])
handle_ready (Ready.poll_failed why) = fail ("Error in poll" ∷ why ∷ [])

unfoldable pub next_ready : Outcome Bool → Link → Outcome Bool × Link → Outcome Bool × Link
next_ready (ok true) link rest = (ok true, link)
next_ready (ok false) link rest = rest
next_ready (err chain) link rest = (err chain, link)
next_ready (panic why) link rest = (panic why, link)

-- The events in their order, up to the end of a side: did it come to that?
unfoldable pub loop_fwd_conn : List Ready → Io Link Bool
loop_fwd_conn [] link = (ok false, link)
loop_fwd_conn (event ∷ events) link =
    let (r, link') = handle_ready event link in next_ready r link' (loop_fwd_conn events link')
