-- ===== src/Sound/Encoding/Pieces.antt =====
-- The encoder is fed the sound in order, in whole pieces, and never to the last sample.
use sanzu.Prelude.{
  ℕ, zero, suc, ◌≤◌, ◌<◌, ◌≡◌, refl, ap, ◌∙◌, sym, inl, inr, List, [], ◌∷◌, ◌++◌, Option, none,
  some, length, take, drop, ltb, All, arith, Bool-cases, append_assoc, append-nil, take-append-drop,
  length-take, length-drop,
}
use sanzu.Messages.Server.{ServerEvent}
use sanzu.Sound.Encoding.{
  mono_20ms, mono_20ms_lem, push_packet, finish, encode_pieces, encode_sound,
}

module _ {E : Type 0} (encode : E → List ℕ → Option (List ℕ) × E) where
  -- The packets and the encoder after the pieces were encoded in turn.
  abbrev pub feed : E → List (List ℕ) → E × List (List ℕ)
  feed encoder [] = (encoder, [])
  feed encoder (piece ∷ pieces) =
      let (packet, encoder') = encode encoder piece in
      let (last, packets) = feed encoder' pieces in
      (last, elim packet [ none ↦ packets | some output ↦ output ∷ packets ])

  abbrev pub concat : List (List ℕ) → List ℕ
  concat [] = []
  concat (piece ∷ pieces) = piece ++ concat pieces

  -- The event of the packets, if there are any.
  abbrev pub sound_event : List (List ℕ) → Option ServerEvent
  sound_event [] = none
  sound_event (p ∷ ps) = some (ServerEvent.sound_encoded (p ∷ ps))

  -- A split of the sound into pieces of `mono_20ms` samples and a rest of at most that many.
  pub record Cut (sound_data : List ℕ) (pieces : List (List ℕ)) (rest : List ℕ) : Type 0 where
    pub whole : sound_data ≡ concat pieces ++ rest
    pub sizes : All (λ piece. length piece ≡ mono_20ms) pieces
    pub short : length rest ≤ mono_20ms

  cut_whole :
      (sound_data : List ℕ) (pieces : List (List ℕ)) (rest : List ℕ)
      → drop mono_20ms sound_data ≡ concat pieces ++ rest
      → sound_data ≡ (take mono_20ms sound_data ++ concat pieces) ++ rest
  cut_whole sound_data pieces rest e =
      sym (take-append-drop mono_20ms sound_data)
      ∙ ap (λ (l : List ℕ). take mono_20ms sound_data ++ l) e
      ∙ sym (append_assoc (take mono_20ms sound_data) (concat pieces) rest)

  push_packet-eq :
      (packets : List (List ℕ)) (packet : Option (List ℕ)) (later : List (List ℕ))
      → push_packet encode packets packet ++ later
        ≡ packets ++ (elim packet [ none ↦ later | some output ↦ output ∷ later ])
  unfolding push_packet
  push_packet-eq packets none later = refl
  push_packet-eq packets (some output) later = append_assoc packets (output ∷ []) later

  finish-eq :
      (encoder : E) (rest : List ℕ) (packets : List (List ℕ))
      → finish encode encoder rest packets
        ≡ record { encoder = encoder; sound_data = rest; event = sound_event packets }
  unfolding finish
  finish-eq encoder rest [] = refl
  finish-eq encoder rest (p ∷ ps) = refl

  encode_pieces-feed :
      (fuel : ℕ) (encoder : E) (sound_data : List ℕ) (packets : List (List ℕ))
      → length sound_data < fuel
      → (pieces : List (List ℕ)) × (rest : List ℕ) × Cut sound_data pieces rest
        × (encode_pieces encode fuel encoder sound_data packets
            ≡ some (record {
              encoder = (feed encoder pieces).0;
              sound_data = rest;
              event = sound_event (packets ++ (feed encoder pieces).1);
            }))
  unfolding encode_pieces
  encode_pieces-feed zero encoder sound_data packets h = elim h [ ]
  encode_pieces-feed (suc fuel) encoder sound_data packets h =
      elim (Bool-cases (ltb mono_20ms (length sound_data))) [
        | inr small ↦ (
          [],
          sound_data,
          record { whole = refl; sizes = tt; short = ground arith },
          rw (small, append-nil packets, finish-eq encoder sound_data packets),
        )
        | inl big ↦
            let (packet, encoder') = encode encoder (take mono_20ms sound_data) in
            let (pieces, rest, cut, done) =
              encode_pieces-feed fuel encoder' (drop mono_20ms sound_data)
                (push_packet encode packets packet)
                (ground (arith, length-drop mono_20ms sound_data, mono_20ms_lem)) in
            (
              take mono_20ms sound_data ∷ pieces,
              rest,
              record {
                whole = cut_whole sound_data pieces rest cut.whole;
                sizes = (ground (arith, length-take mono_20ms sound_data), cut.sizes);
                short = cut.short;
              },
              rw (big, done, push_packet-eq packets packet (feed encoder' pieces).1),
            )
      ]

  -- The encoding always ends. The sound is cut, in order, into pieces of 1920 samples, which the
  -- encoder gets in turn, and a rest of at most 1920 samples, which stays; the event holds the
  -- packets that the encoder made of them, in order, and there is none if it made no packet.
  pub encode_sound-feed :
      (encoder : E) (sound_data : List ℕ)
      → (pieces : List (List ℕ)) × (rest : List ℕ) × Cut sound_data pieces rest
        × (encode_sound encode encoder sound_data
            ≡ some (record {
              encoder = (feed encoder pieces).0;
              sound_data = rest;
              event = sound_event (feed encoder pieces).1;
            }))
  unfolding encode_sound
  encode_sound-feed encoder sound_data =
      encode_pieces-feed (suc (length sound_data)) encoder sound_data [] (omega arith)
