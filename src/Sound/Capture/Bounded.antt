-- ===== src/Sound/Capture/Bounded.antt =====
-- The capture queue counts its samples, stays within its limit and forgets as little as it must.
use sanzu.Prelude.{
  ℕ, ◌+◌, ◌^◌, ◌≤◌, ◌<◌, ◌≡◌, ap, ◌∙◌, inl, inr, List, [], ◌∷◌, ◌++◌, map, length, ltb, length-map,
  arith, Bool-cases, append-nil, append_assoc,
}
use sanzu.Outcome.{ok}
use sanzu.Sound.{sound_max_len, sub_usize}
use sanzu.Sound.Capture.{BufferingQueue, forget_old, enqueue_from_source, move_chunks, read_sound}

module _ {A : Type 0} where
  abbrev pub samples : List (List A) → ℕ
  samples [] = 0
  samples (chunk ∷ rest) = length chunk + samples rest

  -- The counter is the number of samples, and no more than memory can hold.
  pub record IsCounted (q : BufferingQueue A) : Type 0 where
    pub counted : q.count ≡ samples q.chunks
    pub fits : q.count < 2 ^ 64

  samples-append : (xs ys : List (List A)) → samples (xs ++ ys) ≡ samples xs + samples ys
  samples-append [] ys = omega arith
  samples-append (x ∷ xs) ys = omega (arith, samples-append xs ys)

  -- `kept` is what is left of `chunks` by forgetting from the front, one more than needed never.
  pub data Trimmed (max_len : ℕ) : List (List A) → List (List A) → Type 0 where
    whole : {kept : List (List A)} → samples kept ≤ max_len → Trimmed max_len kept kept
    shorter :
        {chunks kept : List (List A)} (old : List A)
        → max_len < samples (old ∷ chunks)
        → Trimmed max_len chunks kept
        → Trimmed max_len (old ∷ chunks) kept

  forget_old-Trimmed :
      (max_len count : ℕ) (chunks : List (List A))
      → count ≡ samples chunks
      → count < 2 ^ 64
      → (q : BufferingQueue A) × (forget_old max_len count chunks ≡ ok q)
        × IsCounted q
        × Trimmed max_len chunks q.chunks
        × (q.count ≤ max_len)
  unfolding forget_old
  forget_old-Trimmed max_len count [] e fits = (
    record { count = count; chunks = [] },
    ground arith,
    record { counted = e; fits = fits },
    whole (omega arith),
    omega arith,
  )
  forget_old-Trimmed max_len count (old ∷ chunks) e fits = elim (Bool-cases (ltb max_len count)) [
    | inr small ↦ (
      record { count = count; chunks = old ∷ chunks },
      rw small,
      record { counted = e; fits = fits },
      whole (ground arith),
      ground arith,
    )
    | inl big ↦
        let (q, done, counted, trimmed, bound) =
          forget_old-Trimmed max_len (sub_usize count (length old)) chunks (omega arith)
            (omega arith) in
        (q, rw big done, counted, shorter old (ground arith) trimmed, bound)
  ]

  -- Whatever is captured, the queue that counts its samples takes it without the panic of
  -- "Should not be here" and still counts them; it then holds at most the configured number of
  -- samples, the newest ones: chunks are forgotten from the front, and only while over the limit.
  -- (The queue and the new samples fit in memory.)
  pub enqueue_from_source-IsCounted :
      {T : Type 0} (from_sample : T → A) (input : List T) (max_buffer_ms : ℕ) (q : BufferingQueue A)
      → IsCounted q
      → q.count + length input < 2 ^ 64
      → (r : BufferingQueue A) × (enqueue_from_source from_sample input max_buffer_ms q ≡ ok r)
        × IsCounted r
        × Trimmed (sound_max_len max_buffer_ms) (q.chunks ++ map from_sample input ∷ []) r.chunks
        × (r.count ≤ sound_max_len max_buffer_ms)
  unfolding enqueue_from_source
  enqueue_from_source-IsCounted from_sample input max_buffer_ms q inv room =
      let captured = map from_sample input in
      forget_old-Trimmed (sound_max_len max_buffer_ms) (q.count + length captured)
        (q.chunks ++ captured ∷ [])
        (omega (arith, inv.counted, samples-append q.chunks (captured ∷ [])))
        (omega (arith, length-map input from_sample))

  move_chunks-eq :
      (count : ℕ) (chunks buffer : List (List A))
      → count ≡ samples chunks
      → count < 2 ^ 64
      → move_chunks count chunks buffer ≡ (record { count = 0; chunks = [] }, buffer ++ chunks)
  unfolding move_chunks
  move_chunks-eq count [] buffer e fits = rw (e, append-nil buffer)
  move_chunks-eq count (chunk ∷ rest) buffer e fits =
      move_chunks-eq (sub_usize count (length chunk)) rest (buffer ++ chunk ∷ []) (omega arith)
        (omega arith)
      ∙ ap (λ (b : List (List A)). (record { count = 0; chunks = [] }, b))
          (append_assoc buffer (chunk ∷ []) rest)

  -- Reading moves every chunk of a counted queue to the end of the sound buffer, in order, and
  -- leaves the empty queue, counted zero.
  pub read_sound-eq :
      (q : BufferingQueue A) (buffer : List (List A))
      → IsCounted q
      → read_sound q buffer ≡ (record { count = 0; chunks = [] }, buffer ++ q.chunks)
  unfolding read_sound
  read_sound-eq q buffer inv = move_chunks-eq q.count q.chunks buffer inv.counted inv.fits
