-- ===== src/Tests/Sound.antt =====
-- The results on sanzu/src/sound.rs at concrete buffers.
use sanzu.Prelude.{ℕ, ◌+◌, ◌≡◌, ◌≤◌, List, [], ◌∷◌, Option, some, arith}
use sanzu.Outcome.{ok}
use sanzu.Sound.{sound_max_len}
use sanzu.Sound.Capture.{BufferingQueue, enqueue_from_source}
use sanzu.Sound.Capture.Bounded.{IsCounted, Trimmed, enqueue_from_source-IsCounted}
use sanzu.Sound.Encoding.{encode_sound}
use sanzu.Sound.Encoding.Pieces.{Cut, feed, sound_event, encode_sound-feed}

abbrev queue : BufferingQueue ℕ
queue = record { count = 3; chunks = (1 ∷ 2 ∷ []) ∷ (3 ∷ []) ∷ [] }

enqueue_from_source-IsCounted_example :
    (r : BufferingQueue ℕ) × (enqueue_from_source (λ (x : ℕ). x + 1) (7 ∷ 8 ∷ []) 0 queue ≡ ok r)
    × IsCounted r
    × Trimmed (sound_max_len 0) ((1 ∷ 2 ∷ []) ∷ (3 ∷ []) ∷ (8 ∷ 9 ∷ []) ∷ []) r.chunks
    × (r.count ≤ sound_max_len 0)
enqueue_from_source-IsCounted_example =
    enqueue_from_source-IsCounted (λ (x : ℕ). x + 1) (7 ∷ 8 ∷ []) 0 queue (omega arith)
      (omega arith)

-- A decoder that passes the packet on.
abbrev echo : ℕ → List ℕ → Option (List ℕ) × ℕ
echo d pkt = (some pkt, d + 1)

encode_sound-feed_example :
    (pieces : List (List ℕ)) × (rest : List ℕ) × Cut echo (1 ∷ 2 ∷ []) pieces rest
    × (encode_sound echo 0 (1 ∷ 2 ∷ [])
        ≡ some (record {
          encoder = (feed echo 0 pieces).0;
          sound_data = rest;
          event = sound_event echo (feed echo 0 pieces).1;
        }))
encode_sound-feed_example = encode_sound-feed echo 0 (1 ∷ 2 ∷ [])
