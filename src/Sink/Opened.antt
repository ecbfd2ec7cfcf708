-- ===== src/Sink/Opened.antt =====
-- The sink of server/src/sink.rs on a pipeline that `Pipeline::new` of server/src/pipeline.rs opens.
use snapcast_client.Prelude.{
  ℕ, ◌+◌, ◌*◌, ◌%◌, ◌^◌, ◌≤◌, ◌<◌, ◌≡◌, sym, subst, arith, inl, inr, ◌⊎◌, List, length, map, All, ℤ,
}
use snapcast_client.Outcome.{Error, ok, err}
use snapcast_client.Word.{Profile}
use snapcast_client.Net.Registry.{Registry}
use snapcast_client.Pipeline.{Pipeline, Codecs, new}
use snapcast_client.Pipeline.Pace.{IsReading}
use snapcast_client.Pipeline.Frames.{Encodes}
use snapcast_client.Pipeline.Push.{Resamples}
use snapcast_client.Pipeline.Opening.{IsOpusLength, new-IsOpened}
use snapcast_client.Pipeline.Splits.{GivesAtMost}
use snapcast_client.Pipeline.Packets.{need}
use snapcast_client.Sink
use snapcast_client.Sink.Track.{IsPlayed, track_complete}

module _ {S R E : Type 0} (codecs : Codecs S R E) (clock : ℕ → ℤ) where
  -- What the crates and the clock do: a resampler with blocks of `in_chunk` samples and an encoder
  -- for stereo frames of each length of an Opus frame open, and then take their blocks and frames.
  pub record IsWorking (in_chunk most : ℕ) (opus_bitrate : ℤ) : Type 0 where
    pub readings : (k : ℕ) → IsReading (clock k)
    pub resampler : (r : R) × (codecs.new_resampler ≡ ok (r, in_chunk))
    pub encoder : (e : E) × (codecs.new_encoder opus_bitrate ≡ ok e)
    pub encodes : (ms : ℕ) → IsOpusLength ms → Encodes codecs (48 * ms)
    pub resamples : Resamples codecs in_chunk
    pub has_block : 0 < in_chunk
    pub at_most : GivesAtMost codecs most

module _ {S R E F : Type 0} (codecs : Codecs S R E) (narrow : F → S) (p : Profile) (clock : ℕ → ℤ)
    (instants : ℕ → ℕ → ℕ × ℕ) where
  played :
      (in_chunk most : ℕ) (opus_bitrate : ℤ) (chunk_ms : ℕ) (pl : Pipeline S R E)
      (packets : List (List F))
      → IsWorking codecs clock in_chunk most opus_bitrate
      → IsOpusLength chunk_ms
      → pl.frame ≡ 48 * chunk_ms
      → pl.in_chunk ≡ in_chunk
      → pl.chunk_ms ≡ chunk_ms
      → pl.registry.buffer_ms < 2 ^ 31
      → All (λ xs. length xs % 2 ≡ 0) (map (map narrow) packets)
      → 48 * chunk_ms
          + 48 * chunk_ms
          + need (48 * chunk_ms) in_chunk most (map (map narrow) packets)
        ≤ 2 ^ 40
      → IsPlayed codecs narrow p clock instants (Sink.new pl) packets
  unfolding Sink.new
  played in_chunk most opus_bitrate chunk_ms pl packets works opus frame block chunk buffer whole
        small =
      track_complete codecs narrow p clock instants most (Sink.new pl) packets
        (record {
          readings = works.readings;
          encodes = subst (λ n. Encodes codecs n) (sym frame) (works.encodes chunk_ms opus);
          resamples = subst (λ n. Resamples codecs n) (sym block) works.resamples;
          has_block = omega (arith, block, works.has_block);
          at_most = works.at_most;
        })
        (omega (arith, frame, opus)) (omega (arith, chunk, opus)) buffer whole
        (rw (frame, block) small)

  -- With crates that open, take every block and every stereo frame of an Opus length, and give at
  -- most `most` samples for a block, a clock that reads times within 2 ^ 60 microseconds, a buffer
  -- whose length twice fits a `u32`, and room for the count of the chunks: if the length of a
  -- chunk is not 5, 10, 20, 40 or 60 milliseconds, opening the pipeline is an error. If it is, a
  -- pipeline is opened with 48 samples in a frame for each millisecond, and a sink on it plays a
  -- track however that is cut into packets of whole pairs: it is started, takes all packets and is
  -- stopped in both profiles, and the chunks are the encoder's results on the frames of what the
  -- resampler gave for all whole blocks of the track's samples, with less than a frame of silence
  -- behind it, and with stamps at least a chunk apart.
  pub new-IsPlayed :
      (in_chunk most : ℕ) (registry : Registry) (chunk_ms : ℕ) (opus_bitrate : ℤ)
      (packets : List (List F))
      → IsWorking codecs clock in_chunk most opus_bitrate
      → registry.buffer_ms < 2 ^ 31
      → All (λ xs. length xs % 2 ≡ 0) (map (map narrow) packets)
      → 48 * chunk_ms
          + 48 * chunk_ms
          + need (48 * chunk_ms) in_chunk most (map (map narrow) packets)
        ≤ 2 ^ 40
      → ((¬ IsOpusLength chunk_ms)
          × (new codecs registry chunk_ms opus_bitrate ≡ err Error.unsupported_chunk_ms))
        ⊎ (IsOpusLength chunk_ms
            × ((pl : Pipeline S R E) × (new codecs registry chunk_ms opus_bitrate ≡ ok pl)
                × (pl.frame ≡ 48 * chunk_ms)
                × (pl.chunk_ms ≡ chunk_ms)
                × (pl.registry ≡ registry)
                × IsPlayed codecs narrow p clock instants (Sink.new pl) packets))
  unfolding Sink.new
  new-IsPlayed in_chunk most registry chunk_ms opus_bitrate packets works buffer whole small =
      let (r, resampler) = works.resampler in
      let (e, encoder) = works.encoder in
      elim (new-IsOpened codecs clock 0 registry chunk_ms opus_bitrate r in_chunk e works.readings
        (omega arith) buffer resampler encoder) [
          | inl bad ↦ inl bad
          | inr (opus, (pl, run, frame, block, chunk, same, opened)) ↦ inr (
            opus,
            (
              pl,
              run,
              frame,
              chunk,
              same,
              played in_chunk most opus_bitrate chunk_ms pl packets works opus frame block chunk
                  (subst (λ (q : Registry). q.buffer_ms < 2 ^ 31) (sym same) buffer) whole small,
            ),
          )
        ]
