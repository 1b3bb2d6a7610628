-- ===== src/Sound/Encoding.antt =====
-- `encode_sound` of sanzu/src/sound.rs: raw sound to opus packets. The encoder of the opus library
-- is a parameter with its state; it may refuse a piece.
pub mod Pieces
use sanzu.Prelude.{
  ℕ, ◌≡◌, refl, zero, suc, ◌*◌, ◌/◌, List, [], ◌∷◌, ◌++◌, Option, none, some, length, take, drop,
  ltb, if◌then◌else◌,
}
use sanzu.Messages.Server.{ServerEvent}
use sanzu.Sound.{sound_freq}

-- Shut: a proof knows that it is 1920, and does not count to it.
unfoldable pub mono_20ms : ℕ
mono_20ms = sound_freq * 2 * 20 / 1000

pub mono_20ms_lem : mono_20ms ≡ 1920
unfolding mono_20ms
mono_20ms_lem = refl

-- The encoder, what is left of the sound, and what is to return.
pub record Encoded (E : Type 0) : Type 0 where
  pub encoder : E
  pub sound_data : List ℕ
  pub event : Option ServerEvent

module _ {E : Type 0} (encode : E → List ℕ → Option (List ℕ) × E) where
  -- A packet is pushed, an error only logged.
  push_packet : List (List ℕ) → Option (List ℕ) → List (List ℕ)
  push_packet packets none = packets
  push_packet packets (some output) = packets ++ output ∷ []

  -- `sound_data_encoded` as an event, if there is any.
  finish : E → List ℕ → List (List ℕ) → Encoded E
  finish encoder sound_data [] = record { encoder = encoder; sound_data = sound_data; event = none }
  finish encoder sound_data (p ∷ ps) = record {
    encoder = encoder;
    sound_data = sound_data;
    event = some (ServerEvent.sound_encoded (p ∷ ps));
  }

  -- The loop, on fuel: `none` if the fuel ends first.
  encode_pieces : ℕ → E → List ℕ → List (List ℕ) → Option (Encoded E)
  unfolding push_packet finish
  encode_pieces zero encoder sound_data packets = none
  encode_pieces (suc fuel) encoder sound_data packets =
      let (packet, encoder') = encode encoder (take mono_20ms sound_data) in
      let rest =
        encode_pieces fuel encoder' (drop mono_20ms sound_data) (push_packet packets packet) in
      if ltb mono_20ms (length sound_data) then rest else some (finish encoder sound_data packets)

  pub encode_sound : E → List ℕ → Option (Encoded E)
  unfolding encode_pieces
  encode_sound encoder sound_data = encode_pieces (suc (length sound_data)) encoder sound_data []
