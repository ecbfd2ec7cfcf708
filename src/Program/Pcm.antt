-- ===== src/Program/Pcm.antt =====
-- PCM through the playback thread of src/main.rs: src/decoder.rs passes its bytes on as samples,
-- and the file of src/playback/file.rs gets the bytes of the samples.
use snapcast_client.Prelude.{
  ◌+◌, ◌*◌, ◌/◌, ◌%◌, ◌≤◌, ◌<◌, ◌≡◌, refl, sym, ap, ◌∙◌, arith, true, inl, inr, ◌⊎◌, none, some,
  List, [], ◌∷◌, ◌++◌, append_assoc, append-nil, length, length-append, length-drop, drop,
  take-append, All, le→leb, lt→leb_false, ◌≤ℤ◌, ℤ,
}
use snapcast_client.Outcome.{ok, panic, ◌>>=◌}
use snapcast_client.Word.{Profile}
use snapcast_client.Bytes.{Bytes, IsByte}
use snapcast_client.TimeVal.Micros.{micros}
use snapcast_client.Decoder.{Decoder, Crates, Samples, samples_of, decode_sample}
use snapcast_client.Playback.{Players, SoundApis, File, bytes_of, play, write, latency_ms}
use snapcast_client.Program.{
  Playing, Received, Fate, in_the_past, not_ready, played, render, render_ready, handle_chunk,
  handle_samples, samples_out_len, put_in_place, newer,
}
use snapcast_client.Program.Timing.{IsTimed, WakesAt, now_us, handle_chunk_timing}

length-samples_of : (xs : Bytes) → length (samples_of xs) ≡ length xs / 2
unfolding samples_of
length-samples_of [] = omega arith
length-samples_of (a ∷ []) = omega arith
length-samples_of (a ∷ b ∷ rest) = omega (arith, length-samples_of rest)

-- On whole samples, the bytes come back.
bytes_of-samples_of :
    (xs : Bytes) → All IsByte xs → length xs % 2 ≡ 0 → bytes_of (samples_of xs) ≡ xs
unfolding bytes_of samples_of
bytes_of-samples_of [] h even = refl
bytes_of-samples_of (a ∷ []) h even = absurd (omega (arith, even))
bytes_of-samples_of (a ∷ b ∷ rest) h even =
    let low : (a + 256 * b) % 256 ≡ a = omega (arith, h.0) in
    let high : (a + 256 * b) / 256 % 256 ≡ b = omega (arith, h.0, h.1.0) in
    rw (low, high, bytes_of-samples_of rest h.1.1 (omega (arith, even)))

module _ {D U O : Type 0} (crates : Crates O) (apis : SoundApis D U) (p : Profile) where
  -- A playback thread that decodes PCM into a file.
  abbrev pub pcm_to : File → Samples → Playing D U O
  pcm_to f out = record {
    dec = some Decoder.pcm;
    player = some (Players.file f);
    player_lat_ms = 1;
    samples_out = out;
  }

  abbrev pub appended : File → Bytes → File
  appended f bytes = record f { written = f.written ++ bytes }

  abbrev IsRendered : File → Samples → Bytes → Type 0
  IsRendered f out samples =
      (out' : Samples) × (length out' ≡ samples_out_len)
      × (render crates apis p (pcm_to f out) Decoder.pcm (Players.file f) true samples
          ≡ ok (pcm_to (appended f (bytes_of (samples_of samples))) out'))

  render_pcm :
      (f : File) (out : Samples) (samples : Bytes)
      → f.is_writable ≡ true
      → length out ≡ samples_out_len
      → length samples / 2 ≤ samples_out_len
      → IsRendered f out samples
  unfolding render decode_sample play write latency_ms
  render_pcm f out samples writable places few =
      let xs = samples_of samples in
      let rest = drop (length xs) out in
      let short : length xs ≤ length out = omega (arith, length-samples_of samples) in
      let all : length (xs ++ rest) ≡ samples_out_len =
        omega (arith, length-append xs rest, length-drop (length xs) out) in
      (
        xs ++ rest,
        all,
        rw
            (
              le→leb (length xs) (length out) short,
              le→leb (length xs) (length (xs ++ rest)) (omega (arith, length-append xs rest)),
              writable,
              take-append xs rest,
            )
            refl,
      )

  render_too_long :
      (f : File) (out : Samples) (samples : Bytes)
      → length out ≡ samples_out_len
      → samples_out_len < length samples / 2
      → render crates apis p (pcm_to f out) Decoder.pcm (Players.file f) true samples ≡ panic
  unfolding render decode_sample latency_ms
  render_too_long f out samples places many =
      rw
        (lt→leb_false (length (samples_of samples)) (length out)
          (omega (arith, length-samples_of samples)))
        refl

  -- Whole samples, at an even address, with no other codec header since the chunk before.
  pub record IsPcmChunk (c : Received D U O) : Type 0 where
    pub timed : IsTimed c
    pub same_dec : c.new_dec ≡ none
    pub same_player : c.new_player ≡ none
    pub aligned : c.even_address ≡ true
    pub are_bytes : All IsByte c.samples
    pub is_whole : length c.samples % 2 ≡ 0
    pub fits : length c.samples / 2 ≤ samples_out_len

  -- Each chunk is played on time, or was not due after it was received.
  abbrev pub Fated : List (Received D U O) → List Fate → Type 0
  Fated [] [] = Unit
  Fated [] (fate ∷ fates) = ⊥
  Fated (c ∷ cs) [] = ⊥
  Fated (c ∷ cs) (in_the_past ∷ fates) = (micros c.audible_at ≤ℤ now_us c) × Fated cs fates
  Fated (c ∷ cs) (not_ready slept ∷ fates) = ⊥
  Fated (c ∷ cs) (played slept ∷ fates) =
      (now_us c ≤ℤ micros c.audible_at)
      × WakesAt (now_us c) (micros c.audible_at) 1000 slept
      × Fated cs fates

  -- The bytes of the chunks that were played.
  abbrev pub heard : List (Received D U O) → List Fate → Bytes
  heard [] fates = []
  heard (c ∷ cs) [] = []
  heard (c ∷ cs) (in_the_past ∷ fates) = heard cs fates
  heard (c ∷ cs) (not_ready slept ∷ fates) = heard cs fates
  heard (c ∷ cs) (played slept ∷ fates) = c.samples ++ heard cs fates

  kept_in_place :
      (f : File) (out : Samples) (c : Received D U O)
      → IsPcmChunk c
      → put_in_place crates apis p c (pcm_to f out) ≡ pcm_to f out
  kept_in_place f out c h i = record (pcm_to f out) {
    dec = newer (h.same_dec i) (some Decoder.pcm);
    player = newer (h.same_player i) (some (Players.file f));
  }

  -- One chunk: it is in the past, or its bytes are appended.
  IsHeard : File → Samples → Received D U O → Type 0
  IsHeard f out c =
      ((handle_chunk crates apis p (pcm_to f out) c ≡ ok (pcm_to f out, in_the_past))
        × (micros c.audible_at ≤ℤ now_us c))
      ⊎ ((out' : Samples) × (slept : ℤ) × (length out' ≡ samples_out_len)
          × (handle_chunk crates apis p (pcm_to f out) c
              ≡ ok (pcm_to (appended f c.samples) out', played slept))
          × (now_us c ≤ℤ micros c.audible_at)
          × WakesAt (now_us c) (micros c.audible_at) 1000 slept)

  handle_chunk_pcm :
      (f : File) (out : Samples) (c : Received D U O)
      → f.is_writable ≡ true
      → length out ≡ samples_out_len
      → IsPcmChunk c
      → IsHeard f out c
  unfolding IsHeard
  handle_chunk_pcm f out c writable places h =
      let same = kept_in_place f out c h in
      elim (handle_chunk_timing crates apis p (pcm_to f out) c h.timed (omega arith)) [
        | inl (run, past) ↦ inl (run ∙ ap (λ s. ok (s, in_the_past)) same, past)
        | inr (slept, run, ahead, wakes) ↦
            let (out', places', rendered) = render_pcm f out c.samples writable places h.fits in
            inr (
              out',
              slept,
              places',
              run
                  ∙ (λ i.
                      render_ready crates apis p (same i) (same i).dec (same i).player slept
                        (h.aligned i) c.samples)
                  ∙ ap (λ r. r >>= λ s'. ok (s', played slept)) rendered
                  ∙ ap (λ bytes. ok (pcm_to (appended f bytes) out', played slept))
                      (bytes_of-samples_of c.samples h.are_bytes h.is_whole),
              ahead,
              wakes,
            )
      ]

  -- A playback thread that decodes PCM into a file that can be written, with 4700 places for
  -- samples, and chunks of at most as many whole samples at even addresses, whose stamps and clocks
  -- are below 2 ^ 28 seconds, with no other codec header among them: in both profiles the thread
  -- takes them all without a panic. The file then has, behind what it had, the bytes of just those
  -- chunks that were played, in their order. A chunk was left out only if it was not due after it
  -- was received, and each other was played a millisecond before it was due, or at once where that
  -- was past.
  pub pcm_stream_written :
      (f : File) (out : Samples) (cs : List (Received D U O))
      → f.is_writable ≡ true
      → length out ≡ samples_out_len
      → All IsPcmChunk cs
      → (out' : Samples) × (fates : List Fate) × (handle_samples crates apis p (pcm_to f out) cs
          ≡ ok (pcm_to (appended f (heard cs fates)) out', fates))
        × Fated cs fates
  unfolding handle_samples IsHeard
  pcm_stream_written f out [] writable places h = (
    out,
    [],
    ap (λ bytes. ok (pcm_to (record f { written = bytes }) out, [])) (sym (append-nil f.written)),
    tt,
  )
  pcm_stream_written f out (c ∷ cs) writable places h =
      elim (handle_chunk_pcm f out c writable places h.0) [
        | inl (run, past) ↦
            let (out', fates, rest, fated) = pcm_stream_written f out cs writable places h.1 in
            (out', in_the_past ∷ fates, rw (run, rest) refl, (past, fated))
        | inr (out1, slept, places1, run, ahead, wakes) ↦
            let (out', fates, rest, fated) =
              pcm_stream_written (appended f c.samples) out1 cs writable places1 h.1 in
            (
              out',
              played slept ∷ fates,
              rw (run, rest)
                  (ap
                    (λ bytes. ok (pcm_to (record f { written = bytes }) out', played slept ∷ fates))
                    (append_assoc f.written c.samples (heard cs fates))),
              (ahead, wakes, fated),
            )
      ]
