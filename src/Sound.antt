-- ===== src/Sound.antt =====
-- sanzu/src/sound.rs: the buffers between the sound device and the network. Opening the device and
-- the streams of the `cpal` crate are not modelled; the opus codec is a parameter.
pub mod Capture
pub mod Playback
pub mod Encoding
use sanzu.Prelude.{ℕ, ◌+◌, ◌-◌, ◌*◌, ◌/◌, ◌%◌, ◌^◌}

-- Sampling frequency
abbrev pub sound_freq : ℕ
sound_freq = 48000

-- The samples that a buffer of so many milliseconds may hold: `usize` arithmetic, which wraps.
abbrev pub sound_max_len : ℕ → ℕ
sound_max_len buffer_ms = buffer_ms * sound_freq * 2 % 2 ^ 64 / 1000

-- `a - b` on `usize`, in a release build.
abbrev pub sub_usize : ℕ → ℕ → ℕ
sub_usize a b = (a + 2 ^ 64 - b) % 2 ^ 64
