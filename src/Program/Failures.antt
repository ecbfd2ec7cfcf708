-- ===== src/Program/Failures.antt =====
-- Chunks of Opus in the playback thread of src/main.rs, and chunks that it cannot decode.
use snapcast_client.Prelude.{
  ℕ, ◌^◌, ◌<◌, ◌≡◌, refl, ◌∙◌, arith, Bool, true, inl, inr, ◌⊎◌, some, length, ◌<ℤ◌, ℤ, Option,
  none, ◌*◌, ◌≤◌, ◌++◌, drop, take-append, length-append, length-drop, le→leb, ap,
}
use snapcast_client.Outcome.{Outcome, Error, ok, err, panic, ◌>>=◌}
use snapcast_client.Word.{Profile}
use snapcast_client.Bytes.{Bytes}
use snapcast_client.TimeVal.Micros.{micros}
use snapcast_client.Decoder.{Decoder, Crates, Samples, decode_sample}
use snapcast_client.Pipeline.Opening.{IsOpusLength}
use snapcast_client.Playback.{Players, SoundApis, File, bytes_of, play, write, latency_ms}
use snapcast_client.Program.{
  Playing, Received, handle_chunk, put_in_place, render, render_ready, samples_out_len, newer,
  played,
}
use snapcast_client.Program.Timing.{IsTimed, WakesAt, now_us, handle_chunk_timing}
use native.Mathlib.Decide.{dec_le}

-- The decoder fails or panics.
abbrev pub IsUndecoded {ℓ} : {A : Type ℓ} → Outcome A → Type ℓ
IsUndecoded r = (r ≡ panic) ⊎ ((e : Error) × (r ≡ err e))

-- What an Opus decoder does with a packet of `size` samples: it gives so many where the buffer has
-- places for them, and an error where it has not.
pub record IsOpusDecoder {O : Type 0} (crates : Crates O) (size : Bytes → Option ℕ) : Type 0 where
  pub gives :
      (o : O) (buf : Bytes) (n room : ℕ)
      → size buf ≡ some n
      → n ≤ room
      → (o' : O) × (xs : Samples) × (crates.decode o buf room ≡ ok (o', xs)) × (length xs ≡ n)
  pub fails :
      (o : O) (buf : Bytes) (n room : ℕ)
      → size buf ≡ some n
      → room < n
      → (e : Error) × (crates.decode o buf room ≡ err e)

module _ {D U O : Type 0} (crates : Crates O) (apis : SoundApis D U) (p : Profile) where
  render_undecoded :
      (s : Playing D U O) (dec : Decoder O) (player : Players D U) (lat : ℕ) (even_address : Bool)
      (samples : Bytes)
      → latency_ms apis player ≡ ok lat
      → IsUndecoded (decode_sample crates p even_address dec samples s.samples_out)
      → render crates apis p s dec player even_address samples ≡ panic
  unfolding render
  render_undecoded s dec player lat even_address samples known (inl panics) =
      rw (known, panics) refl
  render_undecoded s dec player lat even_address samples known (inr (e, fails)) =
      rw (known, fails) refl

  undecoded_panics :
      (s : Playing D U O) (c : Received D U O) (dec : Decoder O) (player : Players D U) (lat : ℕ)
      → IsTimed c
      → s.player_lat_ms < 2 ^ 16
      → now_us c <ℤ micros c.audible_at
      → (put_in_place crates apis p c s).dec ≡ some dec
      → (put_in_place crates apis p c s).player ≡ some player
      → latency_ms apis player ≡ ok lat
      → IsUndecoded (decode_sample crates p c.even_address dec c.samples s.samples_out)
      → handle_chunk crates apis p s c ≡ panic
  undecoded_panics s c dec player lat timed small early has_dec has_player known fails =
      elim (handle_chunk_timing crates apis p s c timed small) [
        | inl (run, past) ↦ absurd (omega arith)
        | inr (slept, run, ahead, wakes) ↦
            run
            ∙ (λ i.
                render_ready crates apis p (put_in_place crates apis p c s) (has_dec i)
                  (has_player i) slept c.even_address c.samples)
            ∙ rw
                (render_undecoded (put_in_place crates apis p c s) dec player lat c.even_address
                  c.samples known fails)
                refl
      ]

  -- A playback thread that decodes Opus into a file.
  abbrev pub opus_to : File → Samples → O → Playing D U O
  opus_to f out o = record {
    dec = some (Decoder.opus o);
    player = some (Players.file f);
    player_lat_ms = 1;
    samples_out = out;
  }

  -- A stereo packet of so many milliseconds, with no other codec header since the chunk before.
  pub record IsOpusChunk (size : Bytes → Option ℕ) (ms : ℕ) (c : Received D U O) : Type 0 where
    pub timed : IsTimed c
    pub same_dec : c.new_dec ≡ none
    pub same_player : c.new_player ≡ none
    pub is_packet : size c.samples ≡ some (2 * (48 * ms))

  opus_in_place :
      (size : Bytes → Option ℕ) (ms : ℕ) (f : File) (out : Samples) (o : O) (c : Received D U O)
      → IsOpusChunk size ms c
      → put_in_place crates apis p c (opus_to f out o) ≡ opus_to f out o
  opus_in_place size ms f out o c h i = record (opus_to f out o) {
    dec = newer (h.same_dec i) (some (Decoder.opus o));
    player = newer (h.same_player i) (some (Players.file f));
  }

  -- The file gets the samples that the decoder gives, and the thread is ready for the next chunk.
  abbrev pub IsOpusPlayed : ℕ → File → Samples → O → Received D U O → Type 0
  IsOpusPlayed ms f out o c =
      (o' : O) × (xs out' : Samples) × (slept : ℤ) × (crates.decode o c.samples samples_out_len
        ≡ ok (o', xs))
      × (length xs ≡ 2 * (48 * ms))
      × (length out' ≡ samples_out_len)
      × (handle_chunk crates apis p (opus_to f out o) c
          ≡ ok (opus_to (record f { written = f.written ++ bytes_of xs }) out' o', played slept))
      × WakesAt (now_us c) (micros c.audible_at) 1000 slept

  render_opus :
      (f : File) (out : Samples) (o o' : O) (xs : Samples) (even_address : Bool) (samples : Bytes)
      → f.is_writable ≡ true
      → length out ≡ samples_out_len
      → crates.decode o samples samples_out_len ≡ ok (o', xs)
      → length xs ≤ samples_out_len
      → render crates apis p
          (opus_to f out o)
          (Decoder.opus o)
          (Players.file f)
          even_address
          samples
        ≡ ok (
            opus_to
              (record f { written = f.written ++ bytes_of xs })
              (xs ++ drop (length xs) out)
              o')
  unfolding render decode_sample play write latency_ms
  render_opus f out o o' xs even_address samples writable places gives few =
      let rest = drop (length xs) out in
      rw
        (
          places,
          gives,
          le→leb (length xs) samples_out_len few,
          le→leb (length xs) (length (xs ++ rest)) (omega (arith, length-append xs rest)),
          writable,
          take-append xs rest,
        )
        refl

  file_latency : (f : File) → latency_ms apis (Players.file f) ≡ ok 0
  unfolding latency_ms
  file_latency f = refl

  opus_fails :
      (o : O) (even_address : Bool) (samples : Bytes) (out : Samples) (e : Error)
      → length out ≡ samples_out_len
      → crates.decode o samples samples_out_len ≡ err e
      → decode_sample crates p even_address (Decoder.opus o) samples out ≡ err e
  unfolding decode_sample
  opus_fails o even_address samples out e places fails = rw (places, fails) refl

  opus_played :
      (size : Bytes → Option ℕ) (ms : ℕ) (f : File) (out : Samples) (o : O) (c : Received D U O)
      → IsOpusDecoder crates size
      → f.is_writable ≡ true
      → length out ≡ samples_out_len
      → IsOpusChunk size ms c
      → 2 * (48 * ms) ≤ samples_out_len
      → now_us c <ℤ micros c.audible_at
      → IsOpusPlayed ms f out o c
  opus_played size ms f out o c law writable places h fits early =
      let same = opus_in_place size ms f out o c h in
      let (o', xs, gives, count) =
        law.gives o c.samples (2 * (48 * ms)) samples_out_len h.is_packet fits in
      elim (handle_chunk_timing crates apis p (opus_to f out o) c h.timed (omega arith)) [
        | inl (run, past) ↦ absurd (omega arith)
        | inr (slept, run, ahead, wakes) ↦ (
          o',
          xs,
          xs ++ drop (length xs) out,
          slept,
          gives,
          count,
          omega (arith, length-append xs (drop (length xs) out), length-drop (length xs) out),
          run
              ∙ (λ i.
                  render_ready crates apis p (same i) (same i).dec (same i).player slept
                    c.even_address c.samples)
              ∙ ap (λ r. r >>= λ s'. ok (s', played slept))
                  (render_opus f out o o' xs c.even_address c.samples writable places gives
                    (omega arith)),
          wakes,
        )
      ]

  -- A playback thread that decodes Opus into a file that can be written, with 4700 places for
  -- samples, and a stereo Opus packet of 5, 10, 20, 40 or 60 milliseconds that is due after it was
  -- received, with stamp and clock below 2 ^ 28 seconds, in both profiles. If it is of 60, the
  -- thread panics. If it is of 40 or less, its samples are decoded and put at the end of the file, a
  -- millisecond before the packet is due or at once where that is past, and the thread is ready
  -- for the next.
  pub opus_chunk_fate :
      (size : Bytes → Option ℕ) (ms : ℕ) (f : File) (out : Samples) (o : O) (c : Received D U O)
      → IsOpusDecoder crates size
      → f.is_writable ≡ true
      → length out ≡ samples_out_len
      → IsOpusLength ms
      → IsOpusChunk size ms c
      → now_us c <ℤ micros c.audible_at
      → ((ms ≡ 60) × (handle_chunk crates apis p (opus_to f out o) c ≡ panic))
        ⊎ ((ms ≤ 40) × IsOpusPlayed ms f out o c)
  opus_chunk_fate size ms f out o c law writable places opus h early = elim (dec_le ms 40) [
    | yes short ↦
        inr (short, opus_played size ms f out o c law writable places h (omega arith) early)
    | no long ↦
        let same = opus_in_place size ms f out o c h in
        let (e, fails) =
          law.fails o c.samples (2 * (48 * ms)) samples_out_len h.is_packet (omega arith) in
        inl (
          omega (arith, opus),
          undecoded_panics (opus_to f out o) c (Decoder.opus o) (Players.file f) 0 h.timed
              (omega arith) early (λ i. (same i).dec) (λ i. (same i).player) (file_latency f)
              (inr (e, opus_fails o c.even_address c.samples out e places fails)),
        )
  ]
