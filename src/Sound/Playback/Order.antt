-- ===== src/Sound/Playback/Order.antt =====
-- The device gets the queued samples in order, then silence.
use sanzu.Prelude.{
  ℕ, zero, suc, ◌+◌, ◌-◌, ◌≡◌, refl, ◌∙◌, ◌⊎◌, inl, inr, true, false, List, [], ◌∷◌, ◌++◌, length,
  take, drop, replicate, ltb, ◌==◌, if◌then◌else◌, arith, Bool-cases, append-nil, append_assoc,
  length-drop, Option, none, some, sym, min, Option-cases, take-append-drop,
}
use sanzu.Sound.{sound_max_len}
use sanzu.Sound.Playback.{
  Sink, forget_lag, decode_packet, dequeue_frames, dequeue_to_sink, initial_buf_len,
}

-- `n` samples off a queue: the first ones of the queue, then zeros.
abbrev pub played : ℕ → List ℕ → List ℕ
played n queue = take n queue ++ replicate (n - length queue) 0

take_none : (n : ℕ) → take {A = ℕ} n [] ≡ []
take_none zero = refl
take_none (suc n) = refl

drop_none : (n : ℕ) → drop {A = ℕ} n [] ≡ []
drop_none zero = refl
drop_none (suc n) = refl

played_none : (n : ℕ) → played (suc n) [] ≡ 0 ∷ played n []
played_none n = let e : suc n - 0 ≡ suc (n - 0) = omega arith in rw (e, take_none n)

played_next : (n v : ℕ) (queue : List ℕ) → played (suc n) (v ∷ queue) ≡ v ∷ played n queue
played_next n v queue = let e : suc n - suc (length queue) ≡ n - length queue = omega arith in rw e

played_zero : (queue : List ℕ) → played 0 queue ≡ []
played_zero queue = let e : 0 - length queue ≡ 0 = omega arith in rw e

sink_eq :
    {w w' q q' : List ℕ} {b b' : ℕ}
    → w ≡ w'
    → b ≡ b'
    → q ≡ q'
    → ◌≡◌ {A = Sink}
        (record { written = w; count_bad = b; sound_data = q })
        (record { written = w'; count_bad = b'; sound_data = q' })
sink_eq e f g = λ i. record { written = e i; count_bad = f i; sound_data = g i }

dequeue_frames-eq :
    (n : ℕ) (queue written : List ℕ) (bad : ℕ)
    → dequeue_frames n (record { written = written; count_bad = bad; sound_data = queue })
      ≡ record {
        written = written ++ played n queue;
        count_bad = bad + (n - length queue);
        sound_data = drop n queue;
      }
unfolding dequeue_frames
dequeue_frames-eq zero queue written bad =
    sink_eq (rw played_zero (sym (append-nil written))) (omega arith) refl
dequeue_frames-eq (suc n) [] written bad =
    dequeue_frames-eq n [] (written ++ 0 ∷ []) (bad + 1)
    ∙ sink_eq (rw played_none (append_assoc written (0 ∷ []) (played n []))) (omega arith)
        (drop_none n)
dequeue_frames-eq (suc n) (v ∷ queue) written bad =
    dequeue_frames-eq n queue (written ++ v ∷ []) bad
    ∙ sink_eq (rw played_next (append_assoc written (v ∷ []) (played n queue))) (omega arith) refl

drop_all : (n : ℕ) (queue : List ℕ) → ltb (length queue) n ≡ true → drop n queue ≡ []
drop_all n [] h = drop_none n
drop_all zero (v ∷ queue) h = absurd (ground arith)
drop_all (suc n) (v ∷ queue) h = drop_all n queue (ground arith)

missing :
    (n : ℕ) (queue : List ℕ) → ltb (length queue) n ≡ true → (0 + (n - length queue) == 0) ≡ false
missing n queue h = ground arith

none_missing :
    (n : ℕ) (queue : List ℕ) → ltb (length queue) n ≡ false → (0 + (n - length queue) == 0) ≡ true
none_missing n queue h = ground arith

forget_lag-newest :
    (max_len : ℕ) (sound_data : List ℕ)
    → (forgotten : List ℕ) × (sound_data ≡ forgotten ++ forget_lag max_len sound_data)
      × (length (forget_lag max_len sound_data) ≡ min max_len (length sound_data))
unfolding forget_lag
forget_lag-newest max_len sound_data = elim (Bool-cases (ltb max_len (length sound_data))) [
  | inr fits ↦ rw fits ([], refl, ground arith)
  | inl long ↦
      let diff = length sound_data - max_len in
      rw long (
        take diff sound_data,
        sym (take-append-drop diff sound_data),
        ground (arith, length-drop diff sound_data),
      )
]

-- The device gets the `samples` oldest samples of the queue and, where the queue has fewer, zeros.
-- The queue keeps the rest; if it had too few, it has the configured silence in their place.
pub dequeue_to_sink-played :
    (samples audio_buffer_ms : ℕ) (queue : List ℕ)
    → dequeue_to_sink samples audio_buffer_ms queue ≡ (
      played samples queue,
      if ltb (length queue) samples
          then replicate (initial_buf_len audio_buffer_ms) 0
          else drop samples queue,
    )
unfolding dequeue_to_sink
dequeue_to_sink-played samples audio_buffer_ms queue =
    rw (dequeue_frames-eq samples queue [] 0) (elim (Bool-cases (ltb (length queue) samples)) [
      | inl short ↦ rw (short, missing samples queue short, drop_all samples queue short)
      | inr enough ↦ rw (enough, none_missing samples queue enough)
    ])

-- A packet that the decoder refuses leaves the queue; the samples of any other go to its end, and
-- of the result the newest are kept, as many as the buffer may hold.
pub decode_packet-newest :
    {D : Type 0} (decode : D → List ℕ → Option (List ℕ) × D) (audio_buffer_ms : ℕ) (pkt : List ℕ)
    (decoder : D) (queue : List ℕ)
    → let after = (decode_packet decode audio_buffer_ms pkt (decoder, queue)).1 in
      (((decode decoder pkt).0 ≡ none) × (after ≡ queue))
      ⊎ ((output : List ℕ) × (forgotten : List ℕ) × ((decode decoder pkt).0 ≡ some output)
          × (queue ++ output ≡ forgotten ++ after)
          × (length after ≡ min (sound_max_len audio_buffer_ms) (length (queue ++ output))))
unfolding decode_packet
decode_packet-newest decode audio_buffer_ms pkt decoder queue =
    elim (Option-cases (decode decoder pkt).0) [
      | inl e ↦ inl (e, rw (e, decode_packet))
      | inr (output, e) ↦
          let (forgotten, split, size) =
            forget_lag-newest (sound_max_len audio_buffer_ms) (queue ++ output) in
          inr (output, forgotten, e, rw (e, decode_packet) split, rw (e, decode_packet) size)
    ]
