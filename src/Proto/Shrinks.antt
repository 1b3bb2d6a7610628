-- ===== src/Proto/Shrinks.antt =====
-- A message that is received shortens the input, and one that is sent leaves it alone.
use sanzu.Prelude.{
  ℕ, ◌≤◌, ◌<◌, ◌≡◌, ◌⊎◌, inl, inr, refl, ap, ◌∙◌, String, true, false, Bool-cases, [], ◌∷◌, Option,
  length, length-drop, drop, leb, arith,
}
use sanzu.Prelude.Bytes.{LittleEndian}
use sanzu.Outcome.{
  Outcome, ok, err, panic, Io, continue, context, ◌>>=◌, in_context, continue-keeps,
}
use sanzu.Messages.{EventError}
use sanzu.Messages.Server.{ServerOk}
use sanzu.Messages.Client.{ClientOk}
use sanzu.Proto.Stream.{Stream, read_exact, write_all-input, end_of_file}
use sanzu.Proto.Tunnel.{Message, recv, send, frame, max_packet_len}
use sanzu.Proto.Events.{
  Wire, of_kind, recv_server_msg_type, recv_server_msg_or_error, recv_client_msg_type,
  recv_client_msg_or_error, send_client_msg_type, send_server_msg_type,
}
use sanzu.Proto.Limits.{recv_consumes}

abbrev pub IsOk : {A : Type 0} → Outcome A → Type 0
IsOk (ok a) = Unit
IsOk (err chain) = ⊥
IsOk (panic why) = ⊥

-- A value comes with a shorter input.
abbrev pub Shrinks : {A : Type 0} → Stream → Outcome A × Stream → Type 0
Shrinks s (r, t) = IsOk r → length t.input < length s.input

module _ (b : LittleEndian) (ec : Message EventError) {M : Type 0} (c : Message M) where
  shorter :
      (s t : Stream) (whole : leb 8 (length s.input) ≡ true)
      → (t.input ≡ []) ⊎ ((n : ℕ) × (t.input ≡ drop n (drop 8 s.input)) × (n ≤ max_packet_len))
      → length t.input < length s.input
  shorter s t whole (inl gone) = ground (arith, ap length gone)
  shorter s t whole (inr (n, left, _)) =
      ground (arith, ap length left, length-drop n (drop 8 s.input), length-drop 8 s.input)

  recv_short :
      (s : Stream)
      → leb 8 (length s.input) ≡ false
      → recv b ec c s ≡ (err ("Cannot read pkt" ∷ end_of_file ∷ []), record s { input = [] })
  unfolding recv read_exact
  recv_short s short = rw (short)

  pub recv-Shrinks : (s : Stream) → Shrinks s (recv b ec c s)
  recv-Shrinks s = elim (Bool-cases (leb 8 (length s.input))) [
    | inl whole ↦ λ _. shorter s (recv b ec c s).1 whole (recv_consumes b ec c s).2
    | inr short ↦ rw (recv_short s short) (λ never. absurd never)
  ]

continue-Shrinks :
    {A B : Type 0} (s : Stream) (r : Outcome A) (t : Stream) (f : A → Io Stream B)
    → ((a : A) (t : Stream) → (f a t).1.input ≡ t.input)
    → Shrinks s (r, t)
    → Shrinks s (continue r f t)
continue-Shrinks s (ok a) t f keeps h = λ _. rw (keeps a t) (h tt)
continue-Shrinks s (err chain) t f keeps h = λ never. absurd never
continue-Shrinks s (panic why) t f keeps h = λ never. absurd never

-- A value at the end of a chain is one of its first part.
pub bind-Shrinks :
    {A B : Type 0} (m : Io Stream A) (f : A → Io Stream B) (s : Stream)
    → ((a : A) (t : Stream) → (f a t).1.input ≡ t.input)
    → Shrinks s (m s)
    → Shrinks s ((m >>= f) s)
bind-Shrinks m f s keeps h = continue-Shrinks s (m s).0 (m s).1 f keeps h

pub context-IsOk : {A : Type 0} (text : String) (r : Outcome A) → IsOk (context text r) → IsOk r
context-IsOk text (ok a) h = tt
context-IsOk text (err chain) h = h
context-IsOk text (panic why) h = h

of_kind-IsOk :
    {M A : Type 0} (select : M → Option A) (r : Outcome M) → IsOk (of_kind select r) → IsOk r
unfolding of_kind
of_kind-IsOk select (ok a) h = tt
of_kind-IsOk select (err chain) h = h
of_kind-IsOk select (panic why) h = h

-- What keeps the input keeps it in a row.
pub bind-input :
    {A B : Type 0} (m : Io Stream A) (f : A → Io Stream B) (s : Stream)
    → (m s).1.input ≡ s.input
    → ((a : A) (t : Stream) → (f a t).1.input ≡ t.input)
    → ((m >>= f) s).1.input ≡ s.input
bind-input m f s h keeps =
    continue-keeps (λ t. t.input ≡ s.input) (m s).0 f (m s).1 h (λ a. keeps a (m s).1 ∙ h)

module _ (w : Wire) where
  pub recv_server-Shrinks :
      {A : Type 0} (select : ServerOk → Option A) (s : Stream)
      → Shrinks s (recv_server_msg_type w select s)
  unfolding recv_server_msg_type recv_server_msg_or_error
  recv_server-Shrinks select s h =
      bind-Shrinks (in_context "Error in recv pkt" (recv w.order w.error_codec w.server_codec)) _ s
        (λ a t. refl)
        (λ there.
          recv-Shrinks w.order w.error_codec w.server_codec s (
            context-IsOk "Error in recv pkt" (recv w.order w.error_codec w.server_codec s).0 there))
        (of_kind-IsOk select (recv_server_msg_or_error w s).0 h)

  pub recv_client-Shrinks :
      {A : Type 0} (select : ClientOk → Option A) (s : Stream)
      → Shrinks s (recv_client_msg_type w select s)
  unfolding recv_client_msg_type recv_client_msg_or_error
  recv_client-Shrinks select s h =
      bind-Shrinks (in_context "Error in recv pkt" (recv w.order w.error_codec w.client_codec)) _ s
        (λ a t. refl)
        (λ there.
          recv-Shrinks w.order w.error_codec w.client_codec s (
            context-IsOk "Error in recv pkt" (recv w.order w.error_codec w.client_codec s).0 there))
        (of_kind-IsOk select (recv_client_msg_or_error w s).0 h)

  pub send-input :
      {M : Type 0} (c : Message M) (m : M) (s : Stream) → (send w.order c m s).1.input ≡ s.input
  unfolding send
  send-input c m s = write_all-input (frame w.order c m) s

  pub send_client-input :
      (msg : ClientOk) (s : Stream) → (send_client_msg_type w msg s).1.input ≡ s.input
  unfolding send_client_msg_type
  send_client-input msg s = send-input w.client_codec _ s

  pub send_server-input :
      (msg : ServerOk) (s : Stream) → (send_server_msg_type w msg s).1.input ≡ s.input
  unfolding send_server_msg_type
  send_server-input msg s = send-input w.server_codec _ s
