-- ===== src/Sound/Capture.antt =====
-- The capture side of sanzu/src/sound.rs: `enqueue_from_source` and `SoundEncoder::read_sound`.
pub mod Bounded
use sanzu.Prelude.{ℕ, ◌+◌, List, [], ◌∷◌, ◌++◌, map, length, ltb, if◌then◌else◌}
use sanzu.Outcome.{Outcome, ok, panic}
use sanzu.Sound.{sound_max_len, sub_usize}

-- `(usize, VecDeque<Vec<i16>>)`: the number of samples, and the chunks, oldest first.
pub record BufferingQueue (A : Type 0) : Type 0 where
  pub count : ℕ
  pub chunks : List (List A)

module _ {A : Type 0} where
  -- `while count > sound_max_len { count -= pop_front().expect(..).len() }`
  pub forget_old : ℕ → ℕ → List (List A) → Outcome (BufferingQueue A)
  forget_old max_len count [] =
      if ltb max_len count
      then panic "Should not be here"
      else ok (record { count = count; chunks = [] })
  forget_old max_len count (tmp ∷ rest) =
      let shorter = forget_old max_len (sub_usize count (length tmp)) rest in
      if ltb max_len count then shorter else ok (record { count = count; chunks = tmp ∷ rest })

  -- `from_sample` is the conversion of the `cpal` crate.
  pub enqueue_from_source :
      {T : Type 0} → (T → A) → List T → ℕ → BufferingQueue A → Outcome (BufferingQueue A)
  enqueue_from_source from_sample input max_buffer_ms q =
      let captured = map from_sample input in
      forget_old (sound_max_len max_buffer_ms) (q.count + length captured)
        (q.chunks ++ captured ∷ [])

  -- Every chunk goes from the queue to the sound buffer.
  move_chunks : ℕ → List (List A) → List (List A) → BufferingQueue A × List (List A)
  move_chunks count [] buffer = (record { count = count; chunks = [] }, buffer)
  move_chunks count (chunk ∷ rest) buffer =
      move_chunks (sub_usize count (length chunk)) rest (buffer ++ chunk ∷ [])

  pub read_sound : BufferingQueue A → List (List A) → BufferingQueue A × List (List A)
  unfolding move_chunks
  read_sound q buffer = move_chunks q.count q.chunks buffer
