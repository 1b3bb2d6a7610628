-- ===== src/Sound/Playback.antt =====
-- The playback side of sanzu/src/sound.rs: the queue that the decoding thread fills and the sound
-- device empties.
pub mod Order
use sanzu.Prelude.{
  ℕ, zero, suc, ◌+◌, ◌-◌, ◌*◌, ◌/◌, ◌%◌, ◌^◌, List, [], ◌∷◌, ◌++◌, Option, none, some, length, drop,
  replicate, ltb, ◌==◌, if◌then◌else◌,
}
use sanzu.Sound.{sound_max_len, sound_freq}

-- `drain(0..diff)` of a queue that lags more than `audio_buffer_ms`.
forget_lag : ℕ → List ℕ → List ℕ
forget_lag max_len sound_data =
    if ltb max_len (length sound_data)
    then drop (length sound_data - max_len) sound_data
    else sound_data

-- One packet in the loop of the decoding thread. `decode` is the opus decoder's, with its state; a
-- packet that it refuses is skipped.
pub decode_packet :
    {D : Type 0} → (D → List ℕ → Option (List ℕ) × D) → ℕ → List ℕ → D × List ℕ → D × List ℕ
unfolding forget_lag
decode_packet decode audio_buffer_ms pkt (decoder, sound_q) =
    let (decoded, decoder') = decode decoder pkt in
    elim decoded [
      | none ↦ (decoder', sound_q)
      | some output ↦ (decoder', forget_lag (sound_max_len audio_buffer_ms) (sound_q ++ output))
    ]

-- What `dequeue_to_sink` has written, how often the queue was empty, and the queue.
pub record Sink : Type 0 where
  pub written : List ℕ
  pub count_bad : ℕ
  pub sound_data : List ℕ

-- One sample for the device: the oldest of the queue, or 0.
dequeue_sample : List ℕ → List ℕ → ℕ → Sink
dequeue_sample [] written count_bad = record {
  written = written ++ 0 ∷ [];
  count_bad = count_bad + 1;
  sound_data = [];
}
dequeue_sample (value ∷ rest) written count_bad = record {
  written = written ++ value ∷ [];
  count_bad = count_bad;
  sound_data = rest;
}

-- The samples of all frames, of whatever number of channels, in order.
dequeue_frames : ℕ → Sink → Sink
unfolding dequeue_sample
dequeue_frames zero s = s
dequeue_frames (suc samples) s =
    dequeue_frames samples (dequeue_sample s.sound_data s.written s.count_bad)

-- The silence that is queued when the device has asked for more than there was.
abbrev pub initial_buf_len : ℕ → ℕ
initial_buf_len audio_buffer_ms = audio_buffer_ms / 4 * sound_freq * 2 % 2 ^ 64 / 1000

pub dequeue_to_sink : (samples audio_buffer_ms : ℕ) → List ℕ → List ℕ × List ℕ
unfolding dequeue_frames
dequeue_to_sink samples audio_buffer_ms sound_data =
    let s =
      dequeue_frames samples (record { written = []; count_bad = 0; sound_data = sound_data }) in
    if s.count_bad == 0
    then (s.written, s.sound_data)
    else (s.written, s.sound_data ++ replicate (initial_buf_len audio_buffer_ms) 0)
