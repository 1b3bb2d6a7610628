-- ===== src/Proto/Tunnel.antt =====
-- `Tunnel::send` and `Tunnel::recv` of sanzu-common/src/proto.rs. The encoding of a message is
-- the `prost` crate's, that of the length the `byteorder` crate's: both are parameters.
use sanzu.Prelude.{
  ℕ, ◌*◌, ◌≡◌, String, List, [], ◌∷◌, ◌++◌, Option, none, some, length, ltb, if◌then◌else◌,
}
use sanzu.Prelude.Bytes.{LittleEndian}
use sanzu.Outcome.{Outcome, ok, err, Io, fail, in_context, ◌>>=◌}
use sanzu.Messages.{EventError}
use sanzu.Proto.Stream.{Stream, write_all, read_exact}

-- 100 Mo
abbrev pub max_packet_len : ℕ
max_packet_len = 100 * 1024 * 1024

-- `prost::Message` for one type of message.
pub record Message (M : Type 0) : Type 0 where
  pub encoded_len : M → ℕ
  pub encode : M → List ℕ
  pub decode : List ℕ → Option M

-- What `prost` documents, for one message: the encoding has the announced length and decodes to
-- the message.
pub record Faithful {M : Type 0} (c : Message M) (m : M) : Type 0 where
  pub encode_length : length (c.encode m) ≡ c.encoded_len m
  pub decode_encode : c.decode (c.encode m) ≡ some m

-- `err.context(e)` for each of the errors, in their order.
unfoldable pub add_contexts : List String → List String → List String
add_contexts chain [] = chain
add_contexts chain (e ∷ errors) = add_contexts (e ∷ chain) errors

module _ (b : LittleEndian) where
  -- The length on eight bytes, then the message.
  unfoldable pub frame : {M : Type 0} → Message M → M → List ℕ
  frame c req = b.write_u64 (c.encoded_len req) ++ c.encode req

  unfoldable pub send : {M : Type 0} → Message M → M → Io Stream (Unit {0})
  unfolding frame
  send c req = in_context "Cannot write pkt" (write_all (frame c req))

module _ (b : LittleEndian) (event_error : Message EventError) where
  -- The payload that was read: a message, or else an error message of the peer.
  unfoldable pub decode_packet : {M : Type 0} → Message M → List ℕ → Outcome M
  unfolding add_contexts
  decode_packet c bytes = elim (c.decode bytes) [
    | some pkt ↦ ok pkt
    | none ↦ elim (event_error.decode bytes) [
      | none ↦ err ("Cannot decode pkt" ∷ "failed to decode Protobuf message" ∷ [])
      | some msg ↦ err (add_contexts ("Error from server" ∷ []) msg.errors)
    ]
  ]

  unfoldable pub recv : {M : Type 0} → Message M → Io Stream M
  unfolding decode_packet
  recv c = do
    buffer ← in_context "Cannot read pkt" (read_exact 8)
    let len = b.read_u64 buffer
    if ltb max_packet_len len then fail ("Packet too big!" ∷ []) else do
      req_buffer ← in_context "Cannot read pkt" (read_exact len)
      λ s. (decode_packet c req_buffer, s)
