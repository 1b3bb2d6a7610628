-- ===== src/Proto/Framing.antt =====
-- Frames on the wire: what one side sends is what the other receives, in order and no further.
use sanzu.Prelude.{
  ℕ, zero, suc, ◌+◌, ◌≤◌, ◌≡◌, refl, ap, ◌∙◌, true, List, [], ◌∷◌, ◌++◌, length, leb, take-append,
  drop-append, length-append, append_assoc, append-nil, All, ltb-false, arith,
}
use sanzu.Prelude.Bytes.{LittleEndian, LittleEndianLaws}
use sanzu.Outcome.{Outcome, ok, Io, pure, ◌>>=◌, ◌>>◌}
use sanzu.Messages.{EventError}
use sanzu.Proto.Stream.{Stream, write_all, read_exact}
use sanzu.Proto.Tunnel.{Message, Faithful, max_packet_len, frame, send, recv, decode_packet}

-- `read_exact` of as many bytes as a known beginning of the input has.
pub read_exact-append :
    (n : ℕ) (xs ys : List ℕ) (s : Stream)
    → length xs ≡ n
    → s.input ≡ xs ++ ys
    → read_exact n s ≡ (ok xs, record s { input = ys })
unfolding read_exact
read_exact-append n xs ys s e i = rw (i, ← e, fits, take-append xs ys, drop-append xs ys) refl
  where
    fits : leb (length xs) (length (xs ++ ys)) ≡ true
    fits = ground (arith, length-append xs ys)

module _ {b : LittleEndian} (order : LittleEndianLaws b) (ec : Message EventError) where
  module _ {M : Type 0} (c : Message M) where
    -- A frame at the head of the input is read whole, and nothing after it.
    pub recv-frame :
        (m : M) (rest : List ℕ) (s : Stream)
        → Faithful c m
        → c.encoded_len m ≤ max_packet_len
        → s.input ≡ frame b c m ++ rest
        → recv b ec c s ≡ (ok m, record s { input = rest })
    unfolding recv frame decode_packet
    recv-frame m rest s law fits e = rw (
      read_exact-append 8 (b.write_u64 (c.encoded_len m)) (c.encode m ++ rest) s
          (order.write_length _)
          (e ∙ append_assoc (b.write_u64 (c.encoded_len m)) (c.encode m) rest),
      order.read_write (c.encoded_len m) (omega arith),
      ltb-false max_packet_len (c.encoded_len m) fits,
      read_exact-append (c.encoded_len m) (c.encode m) rest
          (record s { input = c.encode m ++ rest }) (law.encode_length) refl,
      decode_packet,
      law.decode_encode,
    )

    length-frame : (m : M) → Faithful c m → length (frame b c m) ≡ 8 + c.encoded_len m
    unfolding frame
    length-frame m law = omega (
      arith,
      length-append (b.write_u64 (c.encoded_len m)) (c.encode m),
      order.write_length (c.encoded_len m),
      law.encode_length,
    )

-- One `send` after another, and as many `recv` as there are messages.
module _ (b : LittleEndian) (ec : Message EventError) where
  unfoldable pub send_each : {M : Type 0} → Message M → List M → Io Stream (Unit {0})
  send_each c [] = pure tt
  send_each c (m ∷ ms) = do send b c m; send_each c ms

  pub recv_each : {M : Type 0} → Message M → ℕ → Io Stream (List M)
  recv_each c zero = pure []
  recv_each c (suc n) = do m ← recv b ec c; ms ← recv_each c n; pure (m ∷ ms)

  abbrev pub frames : {M : Type 0} → Message M → List M → List ℕ
  frames c [] = []
  frames c (m ∷ ms) = frame b c m ++ frames c ms

module _ {b : LittleEndian} (order : LittleEndianLaws b) (ec : Message EventError) where
  module _ {M : Type 0} (c : Message M) where
    pub send-eq :
        (m : M) (n : ℕ) (s : Stream)
        → s.writes_left ≡ suc n
        → send b c m s ≡ (ok tt, record s { output = s.output ++ frame b c m; writes_left = n })
    unfolding send write_all
    send-eq m n s e = rw (e, write_all)

    -- All frames are written, in the order of the messages, if the peer takes that many writes.
    pub send_each-eq :
        (ms : List M) (n : ℕ) (s : Stream)
        → s.writes_left ≡ length ms + n
        → send_each b ec c ms s
          ≡ (ok tt, record s { output = s.output ++ frames b ec c ms; writes_left = n })
    unfolding send_each
    send_each-eq [] n s h = ground (arith, append-nil s.output)
    send_each-eq (m ∷ ms) n s h = rw (
      send-eq m (length ms + n) s (omega arith),
      send_each-eq ms n (record s { output = s.output ++ frame b c m; writes_left = length ms + n })
          refl,
      append_assoc s.output (frame b c m) (frames b ec c ms),
    )

    pub recv_each-frames :
        (ms : List M) (rest : List ℕ) (s : Stream)
        → All (Faithful c) ms
        → All (λ m. c.encoded_len m ≤ max_packet_len) ms
        → s.input ≡ frames b ec c ms ++ rest
        → recv_each b ec c (length ms) s ≡ (ok ms, record s { input = rest })
    unfolding recv_each
    recv_each-frames [] rest s laws fits e = ground arith
    recv_each-frames (m ∷ ms) rest s laws fits e = rw (
      recv-frame order ec c m (frames b ec c ms ++ rest) s laws.0 fits.0
          (e ∙ append_assoc (frame b c m) (frames b ec c ms) rest),
      recv_each-frames ms rest (record s { input = frames b ec c ms ++ rest }) laws.1 fits.1 refl,
    )

    -- If a sender that has written nothing sends the messages, each of at most 100 MiB, to a peer
    -- that takes as many writes, and the peer has the bytes written and then `rest` to read, then
    -- receiving as often gives the same messages in the same order, and leaves `rest`.
    pub recv_each-send_each :
        (ms : List M) (n : ℕ) (s t : Stream) (rest : List ℕ)
        → All (Faithful c) ms
        → All (λ m. c.encoded_len m ≤ max_packet_len) ms
        → s.writes_left ≡ length ms + n
        → s.output ≡ []
        → t.input ≡ (send_each b ec c ms s).1.output ++ rest
        → ((send_each b ec c ms s).0 ≡ ok tt)
          × (recv_each b ec c (length ms) t ≡ (ok ms, record t { input = rest }))
    recv_each-send_each ms n s t rest laws fits left empty e =
        let sent = send_each-eq ms n s left in
        (
          ap (λ (r : Outcome (Unit {0}) × Stream). r.0) sent,
          recv_each-frames ms rest t laws fits (
              e
              ∙ ap (λ (r : Outcome (Unit {0}) × Stream). r.1.output ++ rest) sent
              ∙ ap (λ (o : List ℕ). (o ++ frames b ec c ms) ++ rest) empty),
        )
