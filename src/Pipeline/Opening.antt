-- ===== src/Pipeline/Opening.antt =====
-- `Pipeline::new` and `reanchor` of server/src/pipeline.rs.
use snapcast_client.Prelude.{
  ℕ, ◌*◌, ◌/◌, ◌^◌, ◌≤◌, ◌<◌, ◌≡◌, refl, arith, true, false, Bool-cases, inl, inr, ◌⊎◌, [], ℤ, pos,
  int_laws, none,
}
use snapcast_client.Outcome.{Error, ok, err}
use snapcast_client.Net.Registry.{Registry}
use snapcast_client.Pipeline.{Pipeline, Codecs, new, reanchor, is_opus_frame}
use snapcast_client.Pipeline.Pace.{IsReading}
use snapcast_client.Pipeline.Frames.{IsReady}

-- The lengths of an Opus frame in whole milliseconds.
abbrev pub IsOpusLength : ℕ → Type 0
IsOpusLength ms = (ms ≡ 5) ⊎ (ms ≡ 10) ⊎ (ms ≡ 20) ⊎ (ms ≡ 40) ⊎ (ms ≡ 60)

opus_frame-IsOpusLength : (ms : ℕ) → is_opus_frame ms ≡ true → IsOpusLength ms
opus_frame-IsOpusLength ms h = ground arith

no_opus_frame : (ms : ℕ) → is_opus_frame ms ≡ false → ¬ IsOpusLength ms
no_opus_frame ms h = ground arith

opus_length_bounds : (ms : ℕ) → IsOpusLength ms → (0 < ms) × (ms ≤ 60)
opus_length_bounds ms h = ground arith

module _ {S R E : Type 0} (codecs : Codecs S R E) (clock : ℕ → ℤ) (room : ℕ) where
  -- No samples and no anchor: the next chunk is due at the next reading of the clock.
  pub record IsOpened (s : Pipeline S R E) : Type 0 where
    pub no_left : s.in_l ≡ []
    pub no_right : s.in_r ≡ []
    pub nothing_resampled : s.out_l ≡ []
    pub ready : IsReady codecs clock room s (clock s.clock_reads)

  unanchored-IsReady :
      (s : Pipeline S R E)
      → ((k : ℕ) → IsReading (clock k))
      → room ≤ 2 ^ 40
      → 0 < s.frame
      → s.chunk_ms ≤ 60
      → s.registry.buffer_ms < 2 ^ 31
      → IsReady codecs clock room (reanchor codecs s) (clock s.clock_reads)
  unfolding reanchor
  unanchored-IsReady s readings small some ms buffer = record {
    even = refl;
    has_frame = some;
    buffer_fits = buffer;
    is_due = (0, refl, omega arith, ms, readings s.clock_reads, omega int_laws);
  }

  -- Where the resampler and the encoder open and twice the buffer's length fits a `u32`: a chunk
  -- length other than 5, 10, 20, 40 or 60 milliseconds is an error, and each of these gives a pipeline with 48
  -- samples in a frame for each millisecond, which holds no samples and is ready, with the first
  -- chunk due at the first reading of the clock.
  pub new-IsOpened :
      (registry : Registry) (chunk_ms : ℕ) (opus_bitrate : ℤ) (r : R) (in_chunk : ℕ) (e : E)
      → ((k : ℕ) → IsReading (clock k))
      → room ≤ 2 ^ 40
      → registry.buffer_ms < 2 ^ 31
      → codecs.new_resampler ≡ ok (r, in_chunk)
      → codecs.new_encoder opus_bitrate ≡ ok e
      → ((¬ IsOpusLength chunk_ms)
          × (new codecs registry chunk_ms opus_bitrate ≡ err Error.unsupported_chunk_ms))
        ⊎ (IsOpusLength chunk_ms
            × ((s : Pipeline S R E) × (new codecs registry chunk_ms opus_bitrate ≡ ok s)
                × (s.frame ≡ 48 * chunk_ms)
                × (s.in_chunk ≡ in_chunk)
                × (s.chunk_ms ≡ chunk_ms)
                × (s.registry ≡ registry)
                × IsOpened s))
  unfolding new reanchor
  new-IsOpened registry chunk_ms opus_bitrate r in_chunk e readings small buffer resampler encoder =
      elim (Bool-cases (is_opus_frame chunk_ms)) [
        | inr bad ↦ inl (no_opus_frame chunk_ms bad, rw bad refl)
        | inl good ↦
            let opus = opus_frame-IsOpusLength chunk_ms good in
            let bounds = opus_length_bounds chunk_ms opus in
            let s : Pipeline S R E = record {
              resampler = r;
              in_chunk = in_chunk;
              in_l = [];
              in_r = [];
              out_l = [];
              out_r = [];
              frame = 48000 * chunk_ms / 1000;
              encoder = e;
              registry = registry;
              chunk_ms = chunk_ms;
              t0_us = none;
              chunks_since_anchor = pos 0;
              clock_reads = 0;
            } in
            inr (
              opus,
              (
                s,
                rw (good, resampler, encoder) refl,
                omega arith,
                refl,
                refl,
                refl,
                record {
                  no_left = refl;
                  no_right = refl;
                  nothing_resampled = refl;
                  ready = unanchored-IsReady s readings small (omega arith) bounds.1 buffer;
                },
              ),
            )
      ]

  -- After `reanchor` a pipeline holds no samples, and is ready again with the next chunk due at the
  -- next reading of the clock, whatever was due before.
  pub reanchor-IsOpened :
      (s : Pipeline S R E)
      → ((k : ℕ) → IsReading (clock k))
      → room ≤ 2 ^ 40
      → 0 < s.frame
      → s.chunk_ms ≤ 60
      → s.registry.buffer_ms < 2 ^ 31
      → IsOpened (reanchor codecs s)
  unfolding reanchor
  reanchor-IsOpened s readings small some ms buffer = record {
    no_left = refl;
    no_right = refl;
    nothing_resampled = refl;
    ready = unanchored-IsReady s readings small some ms buffer;
  }
