-- ===== src/Proto/Limits.antt =====
-- How much of its input `recv` takes, and packets over the limit of 100 MiB.
use sanzu.Prelude.{
  ℕ, ◌^◌, ◌≤◌, ◌<◌, ◌≡◌, refl, ◌∙◌, ◌⊎◌, inl, inr, List, [], ◌∷◌, ◌++◌, length, take, drop, ltb,
  leb, arith, Bool-cases, lt→ltb, append_assoc,
}
use sanzu.Prelude.Bytes.{LittleEndian, LittleEndianLaws}
use sanzu.Outcome.{err}
use sanzu.Messages.{EventError}
use sanzu.Proto.Stream.{Stream, read_exact}
use sanzu.Proto.Tunnel.{Message, max_packet_len, frame, recv}
use sanzu.Proto.Framing.{read_exact-append}

module _ {b : LittleEndian} (order : LittleEndianLaws b) (ec : Message EventError) where
  module _ {M : Type 0} (c : Message M) where
    -- A frame whose message is over the limit is refused after its header, whatever follows.
    pub recv_oversized :
        (m : M) (rest : List ℕ) (s : Stream)
        → max_packet_len < c.encoded_len m
        → c.encoded_len m < 2 ^ 64
        → s.input ≡ frame b c m ++ rest
        → recv b ec c s ≡ (err ("Packet too big!" ∷ []), record s { input = c.encode m ++ rest })
    unfolding recv frame
    recv_oversized m rest s big word e = rw (
      read_exact-append 8 (b.write_u64 (c.encoded_len m)) (c.encode m ++ rest) s
          (order.write_length _)
          (e ∙ append_assoc (b.write_u64 (c.encoded_len m)) (c.encode m) rest),
      order.read_write (c.encoded_len m) word,
      lt→ltb max_packet_len (c.encoded_len m) big,
    )

module _ (b : LittleEndian) (ec : Message EventError) {M : Type 0} (c : Message M) where
  abbrev pub header : Stream → ℕ
  header s = b.read_u64 (take 8 s.input)

  -- On any input, `recv` writes nothing, and it reads the header alone, header and payload of at
  -- most 100 MiB, or to the end of the input.
  pub recv_consumes :
      (s : Stream)
      → let t = (recv b ec c s).1 in
        (t.output ≡ s.output)
        × (t.writes_left ≡ s.writes_left)
        × ((t.input ≡ []) ⊎ ((n : ℕ) × (t.input ≡ drop n (drop 8 s.input)) × (n ≤ max_packet_len)))
  unfolding recv read_exact
  recv_consumes s = elim (Bool-cases (leb 8 (length s.input))) [
    | inr short ↦ rw short (refl, refl, inl refl)
    | inl whole ↦ elim (Bool-cases (ltb max_packet_len (header s))) [
      | inl big ↦ rw (whole, big) (refl, refl, inr (0, refl, omega arith))
      | inr small ↦ elim (Bool-cases (leb (header s) (length (drop 8 s.input)))) [
        | inl there ↦ rw (whole, small, there) (refl, refl, inr (header s, refl, ground arith))
        | inr cut ↦ rw (whole, small, cut) (refl, refl, inl refl)
      ]
    ]
  ]
